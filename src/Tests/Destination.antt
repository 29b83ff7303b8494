-- ===== src/Tests/Destination.antt =====
-- The EVM destination, its digest and its burn id at a direct release of 5,000 units.
use enclave_signer.Prelude.{
  ℕ, ◌≡◌, refl, subst, ◌↔◌, ◌⊎◌, none, some, [], ◌∷◌, arith, ok, Bytes, be_value, same_bytes,
  Collision,
}
use enclave_signer.Config.{BtcRelayMode, BridgeConfig, is_configured}
use enclave_signer.Evm.Destination.{
  FundsOutParams, EvmDestination, Abi, from_funds_out, route_proof_from_params,
  check_destination_chain, check_pins, check_deadline, decode_funds_out_params,
  decode_direct_release, decode_release, validate_destination,
}
use enclave_signer.Evm.Destination.Accept.{IsAccepted, validate_destination_iff}
use enclave_signer.Evm.Destination.Decoded.{proof_of}
use enclave_signer.Evm.Signing.{
  build_evm_domain, eip712_digest, funds_out_digest, route_digest, digest_of, expected_burn_id,
  validate_burn_id,
}
use enclave_signer.Evm.Signing.Structs.{IsParams}
use enclave_signer.Evm.Signing.Binding.{IsAbi, SameRequest, digest_of_injective}
use enclave_signer.Evm.Signing.BurnId.{SameBurn, validate_burn_id_injective}
use enclave_signer.Tests.Chain.{thirty_two}
use enclave_signer.Tests.CrossCheck.{toy_hash}
use enclave_signer.Tests.Relay.{release}

abbrev pub twenty : ℕ → Bytes
twenty b = b ∷ b ∷ b ∷ b ∷ b ∷ b ∷ b ∷ b ∷ b ∷ b ∷ b ∷ b ∷ b ∷ b ∷ b ∷ b ∷ b ∷ b ∷ b ∷ b ∷ []

abbrev params : FundsOutParams
params = record {
  recipient = twenty 5;
  amount = 5_000;
  burn_id = be_value 0 (thirty_two 7);
  source_chain_id = 827166;
  destination_chain_id = 1;
  source_address = [];
  proof = release.proof;
  settlement_data = 33 ∷ 44 ∷ [];
  source_burn_tx_id = thirty_two 9;
}

-- Calldata with the selector of the direct route, which encode one call.
abbrev call_data : Bytes
call_data = 52 ∷ 2 ∷ 118 ∷ 170 ∷ 1 ∷ []

abbrev pub abi : Abi
abi = record {
  lz_funds_out_selector = 1 ∷ 2 ∷ 3 ∷ 4 ∷ [];
  funds_out_decode = λ _. some params;
  funds_out_encode = λ _. call_data;
  lz_funds_out_decode = λ _. none;
  lz_funds_out_encode = λ _. [];
}

abbrev pub cfg : BridgeConfig
cfg = record {
  chain_id = 1;
  bridge_contract = twenty 4;
  funds_in_contract = twenty 6;
  token_contract = twenty 8;
  rgb_asset_id = 114 ∷ 103 ∷ 98 ∷ [];
  btc_relay_mode = BtcRelayMode.required;
  spv_min_confirmations = 3;
  max_consignment_bytes = 100;
  max_merkle_proofs = 10;
  max_total_proof_bytes = 1_000;
}

abbrev pub destination : EvmDestination
destination = record {
  chain_id = 1;
  proxy_contract = twenty 4;
  call_data = call_data;
  calldata_amount = 5_000;
  nonce = 3;
  deadline = 6_000;
  lz_release = none;
  burn_destination = none;
}

pub accepts :
    validate_destination abi destination cfg (some 5_000)
    ≡ ok (record { amount = 5_000; operation_id = none }, some params, from_funds_out params)
unfolding same_bytes is_configured from_funds_out route_proof_from_params check_destination_chain
    check_pins check_deadline decode_funds_out_params decode_direct_release decode_release
    validate_destination
accepts = refl

validate_destination_iff_example :
    (validate_destination abi destination cfg (some 5_000)
      ≡ ok (record { amount = 5_000; operation_id = none }, some params, from_funds_out params))
    ↔ (IsAccepted abi destination cfg (some 5_000) (some params) (from_funds_out params)
        × (record { amount = 5_000; operation_id = none } ≡ proof_of abi (from_funds_out params)))
validate_destination_iff_example =
    validate_destination_iff abi destination cfg (some 5_000)
      (record { amount = 5_000; operation_id = none }) (some params) (from_funds_out params)

params-IsParams : IsParams params
params-IsParams = record {
  recipient = refl;
  amount = omega arith;
  burn_id = omega arith;
  source_chain_id = omega arith;
  destination_chain_id = omega arith;
  source_burn_tx_id = refl;
  proof = ground arith;
}

some_is : {p : FundsOutParams} → some params ≡ some p → params ≡ p
some_is e = cc

pub abi-IsAbi : IsAbi abi
abi-IsAbi = record {
  direct = λ bytes p e. subst IsParams (some_is e) params-IsParams;
  lz = λ bytes c e. cc;
}

digests : digest_of toy_hash abi destination (some params) ≡ ok (thirty_two 7)
unfolding build_evm_domain eip712_digest funds_out_digest route_digest digest_of
digests = refl

digest_of_injective_example : SameRequest destination destination ⊎ Collision toy_hash
digest_of_injective_example =
    digest_of_injective toy_hash (λ m. refl) abi abi-IsAbi destination destination cfg (some 5_000)
      (some 5_000) (record { amount = 5_000; operation_id = none })
      (record { amount = 5_000; operation_id = none }) (some params) (some params)
      (from_funds_out params) (from_funds_out params) (thirty_two 7) (omega arith) (omega arith)
      accepts accepts digests digests

validates_burn_id : validate_burn_id toy_hash cfg (from_funds_out params) ≡ ok tt
unfolding same_bytes from_funds_out expected_burn_id validate_burn_id
validates_burn_id = refl

validate_burn_id_injective_example :
    SameBurn (from_funds_out params) (from_funds_out params) ⊎ Collision toy_hash
unfolding from_funds_out same_bytes
validate_burn_id_injective_example =
    validate_burn_id_injective toy_hash (λ m. refl) (λ m. ground arith) cfg (refl, refl)
      (from_funds_out params) (from_funds_out params) (omega arith, omega arith, refl)
      (omega arith, omega arith, refl) refl validates_burn_id validates_burn_id refl
