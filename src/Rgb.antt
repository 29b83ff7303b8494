-- ===== src/Rgb.antt =====
-- The RGB side of a request: enclave/src/networks/rgb.
pub mod Source
