-- ===== src/Evm/LzOptions.antt =====
-- enclave/src/networks/evm/lz_options.rs: the LayerZero options of a release.
pub mod Accept
use enclave_signer.Prelude.{
  ℕ, not, [], ◌∷◌, length, ltb, ◌==◌, ok, ◌>>=◌, ◌>>◌, refuse_if, ok_or, Bytes, be_value,
  split_first_chunk, split_first,
}
use enclave_signer.Error.{EnclaveResult, cross_check}

abbrev pub max_lz_receive_gas : ℕ
max_lz_receive_gas = 1_000_000

abbrev pub options_type_3 : ℕ
options_type_3 = 3

abbrev pub executor_worker_id : ℕ
executor_worker_id = 1

abbrev pub option_type_lzreceive : ℕ
option_type_lzreceive = 1

abbrev pub lzreceive_gas_len : ℕ
lzreceive_gas_len = 16

unfoldable pub validate_extra_options : Bytes → EnclaveResult (Unit {0})
validate_extra_options [] = ok tt
validate_extra_options (b ∷ bytes) = do
  (type_bytes, rest) ← ok_or (split_first_chunk 2 (b ∷ bytes)) cross_check
  refuse_if (not (be_value 0 type_bytes == options_type_3)) cross_check
  (worker_id, rest) ← ok_or (split_first rest) cross_check
  refuse_if (not (worker_id == executor_worker_id)) cross_check
  (size_bytes, rest) ← ok_or (split_first_chunk 2 rest) cross_check
  refuse_if (not (be_value 0 size_bytes == length rest)) cross_check
  (option_type, body) ← ok_or (split_first rest) cross_check
  refuse_if (not (option_type == option_type_lzreceive)) cross_check
  refuse_if (not (length body == lzreceive_gas_len)) cross_check
  refuse_if (ltb max_lz_receive_gas (be_value 0 body)) cross_check
