-- ===== src/Spv.antt =====
-- The SPV header chain of enclave/src/networks/rgb/spv.
pub mod Types
pub mod Validation
pub mod Chain
pub mod Merkle
pub mod CrossCheck
