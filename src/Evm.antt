-- ===== src/Evm.antt =====
-- The gas transactions that the enclave signs for Ethereum.
pub mod Rlp
pub mod GasTx
pub mod LzOptions
pub mod Relay
pub mod Release
pub mod Destination
pub mod Signing
