-- ===== src/Sign.antt =====
-- The handlers that sign: enclave/src/server/sign.rs and signers.rs over enclave/src/networks.
pub mod Route
pub mod Burn
