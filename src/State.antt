-- ===== src/State.antt =====
-- The enclave's guarded state, enclave/src/state, and the limit on submitted headers.
pub mod ReplayGuard
pub mod ResultCache
pub mod RefillRate
pub mod SubmitRate
pub mod Enclave
