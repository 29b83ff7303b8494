-- ===== src/Tests.antt =====
-- The theorems at concrete inputs, and runs of the code.
mod Chain
mod Merkle
mod Guards
mod Phases
mod Framing
mod Gas
mod CrossCheck
mod Ber
mod Options
mod Relay
mod Destination
mod Signer
mod Wire
