-- ===== src/Tests/CrossCheck.antt =====
-- The cross-check at the toy chain: the source has one witness, the only transaction of block 6,
-- and two confirmations are required.
use enclave_signer.Prelude.{
  ◌≡◌, ◌↔◌, ◌⊎◌, none, some, [], ◌∷◌, arith, ok, Bytes, same_bytes, contains, bytes_discrete,
}
use enclave_signer.Prelude.Assoc.{lookup, insert}
use enclave_signer.Spv.Types.{ChainNet, add32, sub32}
use enclave_signer.Spv.Chain.{tip_height, tip_time, header_at, hash_at, confirmations}
use enclave_signer.Spv.Merkle.{climb, verify_merkle_proof}
use enclave_signer.Spv.CrossCheck.{
  MerkleProofEntry, ValidatedConsignment, proof_txid, path_internal, to_set, cover,
  verify_one_proof, verify_all, validate_spv_proofs, assert_chain_not_stale, assert_chain_fresh,
  assert_chain_net, pin_hash, pin, assert_unchanged, pin_all, check_source_chain,
  validate_source_chain,
}
use enclave_signer.Spv.CrossCheck.Source.{IsSource, validate_source_chain_iff}
use enclave_signer.Spv.CrossCheck.Later.{Submission, after_all}
use enclave_signer.Spv.CrossCheck.Again.{HeaderCollision}
use enclave_signer.Spv.CrossCheck.Unchanged.{
  assert_unchanged-validate_source_chain, assert_unchanged_extension,
}
use enclave_signer.Tests.Chain.{thirty_two, toy, three, three-IsValid}

abbrev pub toy_hash : Bytes → Bytes
toy_hash m = thirty_two 7

abbrev prefix : ChainNet → Bytes
prefix _ = 115 ∷ 98 ∷ []

abbrev pub validated : ValidatedConsignment
validated = record {
  contract_id = [];
  chain_net = 115 ∷ 98 ∷ [];
  witness_txids = thirty_two 51 ∷ [];
  last_witness_txid = some (thirty_two 51);
  last_transition = none;
  last_transfer_op_id = none;
  non_mined_witness_txids = [];
  mint_locks = [];
}

abbrev pub proof : MerkleProofEntry
proof = record { txid = thirty_two 51; block_height = 6; tx_position = 0; merkle_path = [] }

validates :
    (validate_source_chain toy toy_hash prefix three
      (some validated)
      (proof ∷ [])
      (some 5000)
      []
      2).1
    ≡ ok tt
unfolding add32 sub32 tip_height tip_time header_at hash_at confirmations climb verify_merkle_proof
    bytes_discrete same_bytes contains lookup insert proof_txid path_internal to_set cover
    verify_one_proof verify_all validate_spv_proofs assert_chain_not_stale assert_chain_fresh
    assert_chain_net pin_hash pin pin_all check_source_chain validate_source_chain
validates = ground arith

validate_source_chain_iff_example :
    ((validate_source_chain toy toy_hash prefix three
        (some validated)
        (proof ∷ [])
        (some 5000)
        []
        2).1
      ≡ ok tt)
    ↔ IsSource toy toy_hash prefix three (some validated) (proof ∷ []) (some 5000) 2
validate_source_chain_iff_example =
    validate_source_chain_iff toy toy_hash prefix three three-IsValid (some validated) (proof ∷ [])
      (some 5000) 2 [] tt

-- A header above the tip.
abbrev next : Submission
next = record { start_height = 8; raw_headers = (52 ∷ 2800 ∷ 1 ∷ 53 ∷ []) ∷ []; now_unix = 5000 }

still_pinned :
    assert_unchanged
      (validate_source_chain toy toy_hash prefix three
        (some validated)
        (proof ∷ [])
        (some 5000)
        []
        2).0
      (after_all toy three (next ∷ []))
    ≡ ok tt
unfolding tip_height add32
still_pinned =
    assert_unchanged_extension toy toy_hash prefix three three-IsValid validated (proof ∷ [])
      (some 5000) [] 2 tt (next ∷ []) (omega arith, tt) validates

assert_unchanged_extension_example :
    assert_unchanged
      (validate_source_chain toy toy_hash prefix three
        (some validated)
        (proof ∷ [])
        (some 5000)
        []
        2).0
      (after_all toy three (next ∷ []))
    ≡ ok tt
unfolding tip_height add32
assert_unchanged_extension_example =
    assert_unchanged_extension toy toy_hash prefix three three-IsValid validated (proof ∷ [])
      (some 5000) [] 2 tt (next ∷ []) (omega arith, tt) validates

assert_unchanged-validate_source_chain_example :
    (validate_spv_proofs toy toy_hash
        (after_all toy three (next ∷ []))
        (thirty_two 51 ∷ [])
        (proof ∷ [])
        2
      ≡ ok tt)
    ⊎ HeaderCollision toy
assert_unchanged-validate_source_chain_example =
    assert_unchanged-validate_source_chain toy toy_hash prefix three three-IsValid validated
      (proof ∷ []) (some 5000) [] 2 (next ∷ []) validates still_pinned
