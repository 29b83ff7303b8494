-- ===== src/Spv/CrossCheck.antt =====
-- enclave/src/networks/rgb/spv_crosscheck.rs: the checks of an RGB source against the header
-- chain, and the pins that are checked again before the key is used. The proofs are in the modules
-- below.
pub mod Sets
pub mod Proven
pub mod Cover
pub mod Accept
pub mod Pins
pub mod Recheck
pub mod Source
pub mod Later
pub mod Again
pub mod Unchanged
use enclave_signer.Prelude.{
  ℕ, ◌+◌, ◌-◌, ◌*◌, Bool, true, false, not, Option, none, some, List, [], ◌∷◌, map, length, ltb,
  leb, ◌==◌, if◌then◌else◌, Result, ok, err, ◌>>=◌, ◌>>◌, refuse_if, ok_or, Bytes, same_bytes,
  contains,
}
use enclave_signer.Prelude.Assoc.{lookup, insert}
use enclave_signer.Error.{EnclaveError, EnclaveResult, spv, internal}
use enclave_signer.Spv.Types.{Bitcoin, Network, ChainNet, chain_net, add32, sub32}
use enclave_signer.Spv.Chain.{HeaderChain, tip_height, tip_time, header_at, hash_at, confirmations}
use enclave_signer.Spv.Merkle.{MerkleError, verify_merkle_proof}

abbrev pub spv_max_tip_age_secs : ℕ
spv_max_tip_age_secs = 2 * 60 * 60

abbrev pub spv_max_tip_future_secs : ℕ
spv_max_tip_future_secs = 2 * 60 * 60

abbrev pub max_merkle_path_depth : ℕ
max_merkle_path_depth = 32

-- The generated message: hashes are in display order.
pub record MerkleProofEntry : Type 0 where
  pub txid : Bytes
  pub block_height : ℕ
  pub tx_position : ℕ
  pub merkle_path : List Bytes

-- The fields of the settling transition that the checks read.
pub record TransitionSummary : Type 0 where
  pub op_id : Bytes
  pub transition_type : ℕ
  pub burned_asset_amount : Option ℕ
  pub burn_reason : Option Bytes

-- The fields of the validated consignment that the checks read. The network is its prefix, and
-- `last_witness_txid` is in internal order, and a lock is the number that its operation id spells.
pub record ValidatedConsignment : Type 0 where
  pub contract_id : Bytes
  pub chain_net : Bytes
  pub witness_txids : List Bytes
  pub last_witness_txid : Option Bytes
  pub last_transition : Option TransitionSummary
  pub last_transfer_op_id : Option Bytes
  pub non_mined_witness_txids : List Bytes
  pub mint_locks : List ℕ

pub record Pin : Type 0 where
  pub hash : ℕ
  pub depth : ℕ

-- The map from heights to pins. Its order is not kept: it chooses which of several failing pins is
-- reported, and all of them are `spv`.
abbrev pub ChainPins : Type 0
ChainPins = List (ℕ × Pin)

-- `bytes.try_into()` to 32 bytes.
abbrev pub array_32 : Bytes → EnclaveResult Bytes
array_32 bytes = if length bytes == 32 then ok bytes else err spv

-- `s.reverse()`
abbrev pub reverse_onto : Bytes → Bytes → Bytes
reverse_onto acc [] = acc
reverse_onto acc (b ∷ bs) = reverse_onto (b ∷ acc) bs

abbrev pub reverse : Bytes → Bytes
reverse = reverse_onto []

unfoldable pub proof_txid : MerkleProofEntry → EnclaveResult Bytes
proof_txid proof = do
  txid ← array_32 proof.txid
  refuse_if (ltb max_merkle_path_depth (length proof.merkle_path)) spv
  ok txid

-- The loop over the siblings.
unfoldable pub path_internal : List Bytes → EnclaveResult (List Bytes)
path_internal [] = ok []
path_internal (sib ∷ path) = do s ← array_32 sib; rest ← path_internal path; ok (reverse s ∷ rest)

-- `.map_err(..)`, where every error of the Merkle check is an SPV error.
abbrev pub map_err : Result MerkleError (Unit {0}) → EnclaveResult (Unit {0})
map_err (ok u) = ok u
map_err (err e) = err spv

-- The set of a list: every element once.
unfoldable pub to_set : List Bytes → List Bytes
to_set [] = []
to_set (t ∷ ts) = if contains ts t then to_set ts else t ∷ to_set ts

-- The first loop of `validate_spv_proofs`; the set of txids of the proofs, the last one first.
unfoldable pub cover : List Bytes → List Bytes → List MerkleProofEntry → EnclaveResult (List Bytes)
cover expected_set proof_set [] = ok proof_set
cover expected_set proof_set (proof ∷ proofs) = do
  txid ← proof_txid proof
  refuse_if (contains proof_set txid) spv
  refuse_if (not (contains expected_set txid)) spv
  cover expected_set (txid ∷ proof_set) proofs

module _ (btc : Bitcoin) (sha256d : Bytes → Bytes) where
  open btc use {Header, merkle_root}

  unfoldable pub verify_one_proof :
      HeaderChain Header → ℕ → MerkleProofEntry → EnclaveResult (Unit {0})
  verify_one_proof chain min_confirmations proof = do
    header ← ok_or (header_at chain proof.block_height) spv
    let confs = confirmations chain proof.block_height min_confirmations
    refuse_if (ltb confs min_confirmations) spv
    txid ← array_32 proof.txid
    path ← path_internal proof.merkle_path
    map_err (verify_merkle_proof sha256d (reverse txid) proof.tx_position path (merkle_root header))

  -- The second loop of `validate_spv_proofs`.
  unfoldable pub verify_all :
      HeaderChain Header → ℕ → List MerkleProofEntry → EnclaveResult (Unit {0})
  verify_all chain min_confirmations [] = ok tt
  verify_all chain min_confirmations (proof ∷ proofs) = do
    verify_one_proof chain min_confirmations proof
    verify_all chain min_confirmations proofs

  unfoldable pub validate_spv_proofs :
      HeaderChain Header → List Bytes → List MerkleProofEntry → ℕ → EnclaveResult (Unit {0})
  validate_spv_proofs chain expected_txids proofs min_confirmations = do
    let expected_set = to_set expected_txids
    proof_set ← cover expected_set [] proofs
    refuse_if (not (length proof_set == length expected_set)) spv
    verify_all chain min_confirmations proofs

module _ (btc : Bitcoin) where
  open btc use {Header}

  -- `now` is in seconds, and missing before the epoch.
  unfoldable pub assert_chain_not_stale :
      HeaderChain Header → Option ℕ → ℕ → ℕ → EnclaveResult (Unit {0})
  assert_chain_not_stale chain now max_age max_future = do
    now_unix ← ok_or now internal
    let tip = tip_time btc chain
    if leb now_unix tip
        then refuse_if (ltb max_future (tip - now_unix)) spv
        else refuse_if (ltb max_age (now_unix - tip)) spv

  unfoldable pub assert_chain_fresh : HeaderChain Header → Option ℕ → EnclaveResult (Unit {0})
  assert_chain_fresh chain now =
      assert_chain_not_stale chain now spv_max_tip_age_secs spv_max_tip_future_secs

  unfoldable pub assert_chain_ready : HeaderChain Header → Option ℕ → ℕ → EnclaveResult (Unit {0})
  unfolding add32
  assert_chain_ready chain now min_confirmations = do
    assert_chain_fresh chain now
    let depth = confirmations chain (add32 chain.checkpoint.height 1) min_confirmations
    refuse_if (ltb depth min_confirmations) spv

-- `prefix` is `ChainNet::prefix` of rgb-core.
unfoldable pub assert_chain_net : (ChainNet → Bytes) → Bytes → Network → EnclaveResult (Unit {0})
assert_chain_net prefix consignment_chain_net enclave_network =
    refuse_if (not (same_bytes consignment_chain_net (prefix (chain_net enclave_network)))) spv

-- The pin of a height, of which `hash` is the chain's hash at it.
unfoldable pub pin_hash : ChainPins → ℕ → ℕ → ℕ → Option Pin → ChainPins × EnclaveResult (Unit {0})
pin_hash pins height depth hash none =
    (insert height (record { hash = hash; depth = depth }) pins, ok tt)
pin_hash pins height depth hash (some pinned) =
    if pinned.hash == hash
    then (
      insert height
          (record { hash = hash; depth = if ltb pinned.depth depth then depth else pinned.depth })
          pins,
      ok tt,
    )
    else (pins, err spv)

module _ {Header : Type 0} where
  unfoldable pub pin : ChainPins → HeaderChain Header → ℕ → ℕ → ChainPins × EnclaveResult (Unit {0})
  pin pins chain height depth = elim (hash_at chain height) [
    | none ↦ (pins, err spv)
    | some hash ↦ pin_hash pins height depth hash (lookup height pins)
  ]

  -- `chain.tip_height() - height + 1`
  abbrev pub depth_at : HeaderChain Header → ℕ → ℕ
  depth_at chain height = add32 (sub32 (tip_height chain) height) 1

  unfoldable pub check_pin : HeaderChain Header → ℕ × Pin → EnclaveResult (Unit {0})
  check_pin chain (height, pinned) = elim (hash_at chain height) [
    | none ↦ err spv
    | some current ↦
        if current == pinned.hash
        then refuse_if (ltb (depth_at chain height) pinned.depth) spv
        else err spv
  ]

  unfoldable pub assert_unchanged : ChainPins → HeaderChain Header → EnclaveResult (Unit {0})
  assert_unchanged [] chain = ok tt
  assert_unchanged (entry ∷ pins) chain = do check_pin chain entry; assert_unchanged pins chain

  -- The loop over the proofs at the end of `validate_source_chain`.
  unfoldable pub pin_all :
      ChainPins
      → HeaderChain Header
      → ℕ
      → List MerkleProofEntry
      → ChainPins × EnclaveResult (Unit {0})
  pin_all pins chain min_confirmations [] = (pins, ok tt)
  pin_all pins chain min_confirmations (proof ∷ proofs) =
      let pinned = pin pins chain proof.block_height min_confirmations in
      let rest = pin_all pinned.0 chain min_confirmations proofs in
      elim pinned.1 [ ok _ ↦ rest | err e ↦ (pinned.0, err e) ]

module _ (btc : Bitcoin) (sha256d : Bytes → Bytes) (prefix : ChainNet → Bytes) where
  open btc use {Header}

  -- The checks of `validate_source_chain`, before it pins.
  unfoldable pub check_source_chain :
      HeaderChain Header
      → Option ValidatedConsignment
      → List MerkleProofEntry
      → Option ℕ
      → ℕ
      → EnclaveResult (Unit {0})
  check_source_chain chain validated_consignment merkle_proofs now min_confirmations = do
    validated ← ok_or validated_consignment spv
    assert_chain_fresh btc chain now
    assert_chain_net prefix validated.chain_net chain.network
    validate_spv_proofs btc sha256d chain validated.witness_txids merkle_proofs min_confirmations

  unfoldable pub validate_source_chain :
      HeaderChain Header
      → Option ValidatedConsignment
      → List MerkleProofEntry
      → Option ℕ
      → ChainPins
      → ℕ
      → ChainPins × EnclaveResult (Unit {0})
  validate_source_chain chain validated_consignment merkle_proofs now pins min_confirmations =
      elim (check_source_chain chain validated_consignment merkle_proofs now min_confirmations) [
        | err e ↦ (pins, err e)
        | ok _ ↦ pin_all pins chain min_confirmations merkle_proofs
      ]
