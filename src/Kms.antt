-- ===== src/Kms.antt =====
-- The KMS envelope of enclave/src/kms.
pub mod Ber
