-- ===== src/Tests/Options.antt =====
-- LayerZero options with 200,000 gas.
use enclave_signer.Prelude.{◌≤◌, ◌≡◌, ◌↔◌, ◌⊎◌, [], ◌∷◌, ℕ, arith, ok, Bytes}
use enclave_signer.Evm.LzOptions.{validate_extra_options, max_lz_receive_gas}
use enclave_signer.Evm.LzOptions.Accept.{gas_option, validate_extra_options_iff}

abbrev options : Bytes
options =
    0 ∷ 3 ∷ 1 ∷ 0 ∷ 17 ∷ 1 ∷ 0 ∷ 0 ∷ 0 ∷ 0 ∷ 0 ∷ 0 ∷ 0 ∷ 0 ∷ 0 ∷ 0 ∷ 0 ∷ 0 ∷ 0 ∷ 3 ∷ 13 ∷ 64 ∷ []

validate_extra_options_iff_example :
    (validate_extra_options options ≡ ok tt)
    ↔ ((options ≡ []) ⊎ ((gas : ℕ) × (gas ≤ max_lz_receive_gas) × (options ≡ gas_option gas)))
validate_extra_options_iff_example = validate_extra_options_iff options (ground arith)
