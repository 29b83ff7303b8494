-- ===== src/Tests/Relay.antt =====
-- The relay agreement and the binding of a release on a toy chain of 14 headers above a checkpoint
-- at the start of an epoch: the last witness is the only transaction of block 2026.
use enclave_signer.Prelude.{
  none, ℕ, zero, suc, be_value, ◌≡◌, refl, true, some, [], ◌∷◌, ◌++◌, map, arith, ok, Bytes,
  same_bytes, contains, bytes_discrete, to_be_bytes,
}
use enclave_signer.Prelude.Assoc.{lookup, insert}
use enclave_signer.Config.{BtcRelayMode}
use enclave_signer.Spv.Types.{Network, add32, sub32}
use enclave_signer.Spv.Chain.{HeaderChain, tip_height, header_at, hash_at, confirmations}
use enclave_signer.Spv.Chain.Links.{IsValid}
use enclave_signer.Spv.Merkle.{climb, verify_merkle_proof}
use enclave_signer.Spv.CrossCheck.{
  MerkleProofEntry, ValidatedConsignment, proof_txid, path_internal, to_set, cover,
  verify_one_proof, verify_all, validate_spv_proofs, pin_hash, pin,
}
use enclave_signer.Evm.Relay.{
  ReleaseIdentity, proof_height, decode_funds_out_proof, display_hash_at, assert_header_present,
  decode_blocks, time_at, work_from, times_at, relay_record, assert_relay_commitment,
  check_commitments, resolve_consignment_anchor, check_lag, verify_btc_relay_agreement,
}
use enclave_signer.Spv.Validation
use enclave_signer.Spv.Validation.{sort}
use enclave_signer.Evm.Release.{
  Codecs, assert_witnesses_confirmed, assert_funds_out_amount, validate_funds_out_source_burn_tx_id,
  funds_out_source_amount, validate_funds_out_amount, resolve_v1, resolve,
  validate_funds_out_burn_recipient, validate_funds_out_settlement, check_binding,
  apply_funds_out_binding,
}
use enclave_signer.Evm.Release.Bound.{IsBound, apply_funds_out_binding-ok}
use enclave_signer.Evm.Relay.Agreement.{Agrees, verify_btc_relay_agreement-ok}
use enclave_signer.Tests.Chain.{ToyHeader, thirty_two, toy, chained, chained-Linked, chained_pow}
use enclave_signer.Tests.CrossCheck.{toy_hash}

abbrev pub epoch : HeaderChain ToyHeader
epoch = record {
  network = Network.signet;
  checkpoint = record {
    height = 2016;
    hash = 50;
    bits = 1;
    time = 1000;
    is_real = true;
    chain_work = some 900;
  };
  base_height = 2016;
  base_hash = 50;
  base_bits = 1;
  base_time = 1000;
  headers = chained 50 14;
  hashes = map toy.block_hash (chained 50 14);
  max_stored_headers = 1_000_000;
}

pub epoch-IsValid : IsValid toy epoch
epoch-IsValid = record {
  height_is = refl;
  hash_is = refl;
  cached = refl;
  linked = chained-Linked 50 14;
  pow = λ _. chained_pow 50 14;
  bounded = omega arith;
  fits = omega arith;
}

abbrev zeros : ℕ → Bytes
zeros zero = []
zeros (suc n) = 0 ∷ zeros n

-- "09" in hexadecimal, so many times.
abbrev hex : ℕ → Bytes
hex zero = []
hex (suc n) = b'0' ∷ b'9' ∷ hex n

-- Twelve zeros and an address.
abbrev payee : Bytes
payee =
    zeros 12 ++ (5 ∷ 5 ∷ 5 ∷ 5 ∷ 5 ∷ 5 ∷ 5 ∷ 5 ∷ 5 ∷ 5 ∷ 5 ∷ 5 ∷ 5 ∷ 5 ∷ 5 ∷ 5 ∷ 5 ∷ 5 ∷ 5 ∷ 5 ∷ [])

abbrev pub validated : ValidatedConsignment
validated = record {
  contract_id = 114 ∷ 103 ∷ 98 ∷ [];
  chain_net = [];
  witness_txids = thirty_two 60 ∷ [];
  last_witness_txid = some (thirty_two 60);
  last_transition = some (record {
    op_id = hex 32;
    transition_type = 8010;
    burned_asset_amount = some 5_000;
    burn_reason = some payee;
  });
  last_transfer_op_id = some (thirty_two 9);
  non_mined_witness_txids = [];
  mint_locks = 44 ∷ 33 ∷ [];
}

abbrev pub proof : MerkleProofEntry
proof = record { txid = thirty_two 60; block_height = 2026; tx_position = 0; merkle_path = [] }

-- The heights 2026 and 2030, with the toy hash of their records.
abbrev pub release : ReleaseIdentity
release = record {
  burn_id = be_value 0 (thirty_two 7);
  amount = 5_000;
  source_chain_id = 827166;
  source_address = [];
  settlement_data = 33 ∷ 44 ∷ [];
  source_burn_tx_id = thirty_two 9;
  recipient = payee;
  destination_chain_id = 1;
  dst_eid = none;
  proof = zeros 30 ++ 7 ∷ 234 ∷ thirty_two 7 ++ zeros 30 ++ 7 ∷ 238 ∷ thirty_two 7;
}

passes :
    (verify_btc_relay_agreement toy toy_hash toy_hash release validated
      (proof ∷ [])
      epoch
      []
      BtcRelayMode.required
      3).1
    ≡ ok tt
unfolding add32 sub32 tip_height header_at hash_at confirmations climb verify_merkle_proof
    bytes_discrete same_bytes contains to_be_bytes lookup insert proof_txid path_internal to_set
    cover verify_one_proof verify_all validate_spv_proofs pin_hash pin proof_height
    decode_funds_out_proof display_hash_at assert_header_present decode_blocks time_at work_from
    times_at relay_record assert_relay_commitment check_commitments resolve_consignment_anchor
    check_lag verify_btc_relay_agreement
passes = refl

verify_btc_relay_agreement-ok_example :
    Agrees toy toy_hash toy_hash release validated (proof ∷ []) epoch BtcRelayMode.required 3
verify_btc_relay_agreement-ok_example =
    verify_btc_relay_agreement-ok toy epoch epoch-IsValid toy_hash validated (proof ∷ []) 3 toy_hash
      release [] BtcRelayMode.required (ground arith) passes

-- A direct burn has no record; the settlement data are the ids themselves.
abbrev pub codecs : Codecs
codecs = record {
  ts_burn = 8010;
  hash_v1 = λ _. [];
  abi_decode = λ bytes. some bytes;
  abi_encode = λ ids. ids;
}

binds :
    (apply_funds_out_binding codecs toy toy_hash toy_hash epoch BtcRelayMode.required 3 release
      (some validated)
      (proof ∷ [])
      []
      none).1
    ≡ ok tt
unfolding add32 sub32 tip_height header_at hash_at confirmations climb verify_merkle_proof
    bytes_discrete same_bytes contains to_be_bytes lookup insert Validation.insert sort proof_txid
    path_internal to_set cover verify_one_proof verify_all validate_spv_proofs pin_hash pin
    proof_height decode_funds_out_proof display_hash_at assert_header_present decode_blocks time_at
    work_from times_at relay_record assert_relay_commitment check_commitments
    resolve_consignment_anchor check_lag verify_btc_relay_agreement assert_witnesses_confirmed
    assert_funds_out_amount validate_funds_out_source_burn_tx_id funds_out_source_amount
    validate_funds_out_amount resolve_v1 resolve validate_funds_out_burn_recipient
    validate_funds_out_settlement check_binding apply_funds_out_binding
binds = refl

apply_funds_out_binding-ok_example :
    (v : ValidatedConsignment) × (some validated ≡ some v)
    × (v.non_mined_witness_txids ≡ [])
    × Agrees toy toy_hash toy_hash release v (proof ∷ []) epoch BtcRelayMode.required 3
    × IsBound codecs release v none
apply_funds_out_binding-ok_example =
    apply_funds_out_binding-ok codecs toy toy_hash toy_hash epoch BtcRelayMode.required 3 release
      (some validated) (proof ∷ []) [] none epoch-IsValid (ground arith) binds
