-- ===== src/Tests/Signer.antt =====
-- The burn signer at one release: the chain and the consignment of the relay's test, the calldata
-- of the destination's, and keys that sign a digest with itself.
use enclave_signer.Prelude.{
  ℕ, ◌≡◌, refl, ◌⊎◌, some, [], ◌∷◌, ok, same_bytes, starts_with, contains, bytes_discrete,
  to_be_bytes,
}
use enclave_signer.Prelude.Assoc.{lookup, insert}
use enclave_signer.Config.{is_configured}
use enclave_signer.Spv.Types.{add32, sub32}
use enclave_signer.Spv.Chain.{tip_height, tip_time, header_at, hash_at, confirmations}
use enclave_signer.Spv.Merkle.{climb, verify_merkle_proof}
use enclave_signer.Spv.CrossCheck.{
  proof_txid, path_internal, to_set, cover, verify_one_proof, verify_all, validate_spv_proofs,
  assert_chain_not_stale, assert_chain_fresh, assert_chain_net, pin_hash, pin, check_pin,
  assert_unchanged, pin_all, check_source_chain, validate_source_chain,
}
use enclave_signer.Spv.CrossCheck.Again.{HeaderCollision}
use enclave_signer.Spv.Validation
use enclave_signer.Spv.Validation.{sort}
use enclave_signer.Evm.Relay.{
  proof_height, decode_funds_out_proof, display_hash_at, assert_header_present, decode_blocks,
  time_at, work_from, times_at, relay_record, assert_relay_commitment, check_commitments,
  resolve_consignment_anchor, check_lag, verify_btc_relay_agreement,
}
use enclave_signer.Evm.Release.{
  assert_witnesses_confirmed, assert_funds_out_amount, validate_funds_out_source_burn_tx_id,
  funds_out_source_amount, validate_funds_out_amount, resolve_v1, resolve,
  validate_funds_out_burn_recipient, validate_funds_out_settlement, check_binding,
  apply_funds_out_binding,
}
use enclave_signer.Evm.Destination.{
  from_funds_out, route_proof_from_params, check_destination_chain, check_pins, check_deadline,
  decode_funds_out_params, decode_direct_release, decode_release, validate_destination,
  validate_rgb_source_identity,
}
use enclave_signer.Evm.Signing.{
  build_evm_domain, eip712_digest, funds_out_digest, route_digest, digest_of, expected_burn_id,
  validate_burn_id,
}
use enclave_signer.Rgb.Source.{
  RgbSource, RgbValidator, assert_asset_binding, assert_consignment_size,
  normalize_rgb_operation_id, route_proof_from_validated_consignment, validate_source_payload,
  proven_from, proven_witnesses, validate_source,
}
use enclave_signer.Sign.Route.{
  rgb_source, evm_destination, SignRequest, validate_amount_covers_destination,
  validate_route_proofs,
}
use enclave_signer.State.Enclave.{EnclaveState, active, with_active}
use enclave_signer.Sign.Burn.{
  Signer, Moments, EvmSignatureResponse, check_signer_role, sign_with_chain_pins_unchanged,
  validate_source_network, validate_destination_network, bind_release, handle_sign_evm,
  sign_destination, sign_route, handle_sign,
}
use enclave_signer.Sign.Burn.Released.{Released, handle_sign-Released}
use enclave_signer.Tests.Chain.{thirty_two, toy}
use enclave_signer.Tests.CrossCheck.{toy_hash}
use enclave_signer.Tests.Phases.{start}
use enclave_signer.Tests.Phases
use enclave_signer.Tests.Relay.{validated, proof, epoch, epoch-IsValid, codecs}
use enclave_signer.Tests.Destination.{abi, abi-IsAbi, cfg, destination}

-- A validator that answers with one consignment.
abbrev validator : RgbValidator
validator = record {
  WitnessPos = ℕ;
  bitcoin_pos = λ height time. some height;
  validate_consignment = λ bytes proven bind. ok validated;
}

abbrev signer : Signer Phases.toy
signer = record {
  btc = toy;
  sha256d = toy_hash;
  keccak256 = toy_hash;
  prefix = λ _. [];
  codecs = codecs;
  abi = abi;
  validator = validator;
  sign_evm = λ keys digest. ok digest;
  cfg = cfg;
}

abbrev ready : EnclaveState Phases.toy
ready = record start { inner = active 4 }

abbrev moments : Moments Phases.toy toy
moments = record {
  ready = ready;
  proving = epoch;
  sourcing = epoch;
  source_clock = some 2_000;
  destination_clock = some 5_000;
  binding = epoch;
  signing = epoch;
  signing_state = ready;
}

abbrev source : RgbSource
source = record {
  consignment = 1 ∷ 2 ∷ 3 ∷ [];
  consignment_hash = thirty_two 7;
  asset_id = 114 ∷ 103 ∷ 98 ∷ [];
  commission = 0;
  merkle_proofs = proof ∷ [];
}

abbrev request : SignRequest
request = record {
  amount = 0;
  source_network = some (rgb_source source);
  destination_network = some (evm_destination destination);
}

abbrev response : EvmSignatureResponse
response = record { signature = thirty_two 7; call_data = destination.call_data }

signs : handle_sign Phases.toy signer moments request ≡ ok response
unfolding add32 sub32 tip_height tip_time header_at hash_at confirmations climb verify_merkle_proof
    bytes_discrete same_bytes starts_with contains to_be_bytes lookup insert Validation.insert sort
    proof_txid path_internal to_set cover verify_one_proof verify_all validate_spv_proofs
    assert_chain_not_stale assert_chain_fresh assert_chain_net pin_hash pin check_pin
    assert_unchanged pin_all check_source_chain validate_source_chain proof_height
    decode_funds_out_proof display_hash_at assert_header_present decode_blocks time_at work_from
    times_at relay_record assert_relay_commitment check_commitments resolve_consignment_anchor
    check_lag verify_btc_relay_agreement assert_witnesses_confirmed assert_funds_out_amount
    validate_funds_out_source_burn_tx_id funds_out_source_amount validate_funds_out_amount
    resolve_v1 resolve validate_funds_out_burn_recipient validate_funds_out_settlement check_binding
    apply_funds_out_binding is_configured from_funds_out route_proof_from_params
    check_destination_chain check_pins check_deadline decode_funds_out_params decode_direct_release
    decode_release validate_destination validate_rgb_source_identity build_evm_domain eip712_digest
    funds_out_digest route_digest digest_of expected_burn_id validate_burn_id assert_asset_binding
    assert_consignment_size normalize_rgb_operation_id route_proof_from_validated_consignment
    validate_source_payload proven_from proven_witnesses validate_source
    validate_amount_covers_destination validate_route_proofs with_active check_signer_role
    sign_with_chain_pins_unchanged validate_source_network validate_destination_network bind_release
    handle_sign_evm sign_destination sign_route handle_sign
signs = refl

handle_sign-Released_example :
    Released Phases.toy signer moments request response ⊎ HeaderCollision toy
handle_sign-Released_example =
    handle_sign-Released Phases.toy signer moments [] [] request response epoch-IsValid abi-IsAbi
      refl refl signs
