-- ===== src/Error.antt =====
-- enclave/src/error.rs: the enclave's errors without their messages, and their wire codes.
use enclave_signer.Prelude.{ℕ, Result}

pub data CustodyFailure : Type 0 where
  configuration access_denied unavailable invalid_ciphertext key_or_ciphertext : CustodyFailure
  invalid_response internal_error : CustodyFailure

pub data EnclaveError : Type 0 where
  custody : CustodyFailure → EnclaveError
  key_not_initialized already_initialized invalid_key invalid_request framing : EnclaveError
  protobuf_decode io signing cross_check : EnclaveError
  evm_finality_pending : ℕ → ℕ → EnclaveError
  internal not_ready attestation certificate clone : EnclaveError
  pcr_mismatch : ℕ → EnclaveError
  nonce_replay : EnclaveError
  export_cap_reached : ℕ → ℕ → EnclaveError
  digest_mismatch pubkey_mismatch identity_mismatch spv : EnclaveError

abbrev pub EnclaveResult : Type 0 → Type 0
EnclaveResult = Result EnclaveError

unfoldable pub error_code : EnclaveError → ℕ
error_code (custody CustodyFailure.unavailable) = 2
error_code cross_check = 3
error_code spv = 3
error_code not_ready = 2
error_code (evm_finality_pending receipt_block finality_block) = 8
error_code _ = 1

unfoldable pub clone_error_code : EnclaveError → ℕ
unfolding error_code
clone_error_code invalid_request = 4
clone_error_code digest_mismatch = 5
clone_error_code pubkey_mismatch = 5
clone_error_code attestation = 5
clone_error_code certificate = 5
clone_error_code (pcr_mismatch pcr) = 5
clone_error_code nonce_replay = 6
clone_error_code (export_cap_reached used cap) = 7
clone_error_code key_not_initialized = 3
clone_error_code e = error_code e
