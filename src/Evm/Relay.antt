-- ===== src/Evm/Relay.antt =====
-- enclave/src/networks/evm/crosscheck.rs: the agreement of a release with the BtcRelay contract.
-- Keccak-256 is a parameter.
pub mod Agreement
use enclave_signer.Prelude.{
  ℕ, zero, suc, ◌+◌, ◌-◌, ◌*◌, ◌%◌, Bool, true, false, ◌||◌, not, Option, none, some, List, [], ◌∷◌,
  ◌++◌, length, take, drop, ltb, ◌==◌, if◌then◌else◌, ok, err, ◌>>=◌, ◌>>◌, refuse_if, ok_or, Bytes,
  be_value, to_be_bytes, same_bytes,
}
use enclave_signer.Config.{BtcRelayMode}
use enclave_signer.Error.{EnclaveResult, cross_check, spv}
use enclave_signer.Spv.Types.{Bitcoin, add32}
use enclave_signer.Spv.Validation.{retarget_interval}
use enclave_signer.Spv.Chain.{HeaderChain, max_reorg_depth, tip_height, header_at}
use enclave_signer.Spv.CrossCheck.{
  MerkleProofEntry, ValidatedConsignment, ChainPins, reverse, validate_spv_proofs, pin,
}

-- The fields of the decoded calldata that the checks read.
pub record ReleaseIdentity : Type 0 where
  pub burn_id : ℕ
  pub amount : ℕ
  pub source_chain_id : ℕ
  pub source_address : Bytes
  pub settlement_data : Bytes
  pub source_burn_tx_id : Bytes
  pub recipient : Bytes
  pub destination_chain_id : ℕ
  pub dst_eid : Option ℕ
  pub proof : Bytes

pub record ProofBlock : Type 0 where
  pub height : ℕ
  pub commitment : Bytes

pub record ConsignmentAnchor : Type 0 where
  pub height : ℕ
  pub commitment : ℕ
  pub txid : Bytes

abbrev pub funds_out_proof_len : ℕ
funds_out_proof_len = 4 * 32

abbrev pub max_relay_tip_lag_blocks : ℕ
max_relay_tip_lag_blocks = max_reorg_depth

-- `iter().any(|&b| b != 0)`
abbrev pub any_nonzero : Bytes → Bool
any_nonzero [] = false
any_nonzero (b ∷ bytes) = not (b == 0) || any_nonzero bytes

unfoldable pub proof_height : Bytes → EnclaveResult ℕ
proof_height word = do
  refuse_if (any_nonzero (take 28 word)) cross_check
  ok (be_value 0 (take 4 (drop 28 word)))

-- A word of the proof.
abbrev pub word_at : ℕ → Bytes → Bytes
word_at i proof = take 32 (drop i proof)

unfoldable pub decode_funds_out_proof : ReleaseIdentity → EnclaveResult (ProofBlock × ProofBlock)
decode_funds_out_proof release = do
  refuse_if (length release.proof == 0) cross_check
  refuse_if (not (length release.proof == funds_out_proof_len)) cross_check
  source_height ← proof_height (word_at 0 release.proof)
  latest_height ← proof_height (word_at 64 release.proof)
  ok (
    record { height = source_height; commitment = word_at 32 release.proof },
    record { height = latest_height; commitment = word_at 96 release.proof },
  )

-- `iter().find(..)`
abbrev pub find_proof : Bytes → List MerkleProofEntry → Option MerkleProofEntry
find_proof txid [] = none
find_proof txid (p ∷ proofs) = if same_bytes p.txid txid then some p else find_proof txid proofs

-- `commitment == [0u8; 32]`, of 32 bytes.
abbrev pub is_zero : ProofBlock → Bool
is_zero block = not (any_nonzero block.commitment)

module _ (btc : Bitcoin) where
  open btc use {Header, serialize, time, block_hash, work}

  unfoldable pub display_hash_at : HeaderChain Header → ℕ → Option ℕ
  display_hash_at chain height = elim (header_at chain height) [
    | none ↦ none
    | some header ↦ some (block_hash header)
  ]

  unfoldable pub assert_header_present : HeaderChain Header → ProofBlock → EnclaveResult (Unit {0})
  assert_header_present chain block = elim (display_hash_at chain block.height) [
    | none ↦ err spv
    | some hash ↦ ok tt
  ]

  -- What is checked before the first pin: the decoded blocks.
  unfoldable pub decode_blocks :
      ReleaseIdentity → HeaderChain Header → EnclaveResult (ProofBlock × ProofBlock)
  decode_blocks release chain = do
    (source, latest) ← decode_funds_out_proof release
    refuse_if (ltb latest.height source.height) spv
    assert_header_present chain latest
    ok (source, latest)

  -- `time_at`, in which the checkpoint gives its own time.
  unfoldable pub time_at : HeaderChain Header → ℕ → ℕ
  time_at chain height = elim (header_at chain height) [
    | none ↦ chain.checkpoint.time
    | some header ↦ time header
  ]

  -- The fold over the heights from `h` on.
  unfoldable pub work_from : HeaderChain Header → ℕ → ℕ → ℕ → ℕ
  work_from chain acc h zero = acc
  work_from chain acc h (suc count) =
      work_from chain (elim (header_at chain h) [ none ↦ acc | some header ↦ acc + work header ])
        (h + 1) count

  -- The times of the heights from `h` on, four bytes each.
  unfoldable pub times_at : HeaderChain Header → ℕ → ℕ → Bytes
  times_at chain h zero = []
  times_at chain h (suc count) = to_be_bytes 4 (time_at chain h) [] ++ times_at chain (h + 1) count

  unfoldable pub relay_record : HeaderChain Header → ℕ → EnclaveResult Bytes
  relay_record chain height = do
    let cp = chain.checkpoint
    header ← ok_or (header_at chain height) spv
    cp_work ← ok_or cp.chain_work spv
    let epoch_start = height - height % retarget_interval
    refuse_if (ltb height (add32 cp.height 10) || ltb epoch_start cp.height) spv
    let total = work_from chain cp_work (cp.height + 1) (height - cp.height)
    ok (
        serialize header
        ++ to_be_bytes 32 total []
        ++ to_be_bytes 4 height []
        ++ to_be_bytes 4 (time_at chain epoch_start) []
        ++ times_at chain (height - 10) 10)

  module _ (keccak256 : Bytes → Bytes) where
    unfoldable pub assert_relay_commitment :
        HeaderChain Header → ProofBlock → EnclaveResult (Unit {0})
    assert_relay_commitment chain block = do
      rec ← relay_record chain block.height
      refuse_if (not (same_bytes block.commitment (keccak256 rec))) cross_check

    -- The `match mode` at the end of `verify_btc_relay_agreement`.
    unfoldable pub check_commitments :
        HeaderChain Header → BtcRelayMode → ProofBlock → ProofBlock → EnclaveResult (Unit {0})
    check_commitments chain BtcRelayMode.required source latest = do
      refuse_if (is_zero source) cross_check
      refuse_if (is_zero latest) cross_check
      assert_relay_commitment chain source
      assert_relay_commitment chain latest
    check_commitments chain BtcRelayMode.none source latest = do
      refuse_if (not (is_zero source)) cross_check
      refuse_if (not (is_zero latest)) cross_check

  module _ (sha256d : Bytes → Bytes) where
    unfoldable pub resolve_consignment_anchor :
        ValidatedConsignment
        → List MerkleProofEntry
        → HeaderChain Header
        → ℕ
        → EnclaveResult ConsignmentAnchor
    resolve_consignment_anchor validated merkle_proofs chain min_confirmations = do
      witness_txid ← ok_or validated.last_witness_txid cross_check
      let txid = reverse witness_txid
      proof ← ok_or (find_proof txid merkle_proofs) spv
      commitment ← ok_or (display_hash_at chain proof.block_height) spv
      validate_spv_proofs btc sha256d chain (txid ∷ []) (proof ∷ []) min_confirmations
      ok (record { height = proof.block_height; commitment = commitment; txid = txid })

    -- What is checked between the pins.
    unfoldable pub check_lag :
        ProofBlock
        → ValidatedConsignment
        → List MerkleProofEntry
        → HeaderChain Header
        → ℕ
        → EnclaveResult ConsignmentAnchor
    check_lag latest validated merkle_proofs chain min_confirmations = do
      refuse_if (ltb max_relay_tip_lag_blocks (tip_height chain - latest.height)) spv
      resolve_consignment_anchor validated merkle_proofs chain min_confirmations

-- `?` in code that writes the pins.
abbrev pub and_then :
    {A B : Type 0}
    → ChainPins × EnclaveResult A
    → (ChainPins → A → ChainPins × EnclaveResult B)
    → ChainPins × EnclaveResult B
and_then (pins, err e) f = (pins, err e)
and_then (pins, ok a) f = f pins a

module _ (btc : Bitcoin) (sha256d keccak256 : Bytes → Bytes) where
  open btc use {Header}

  unfoldable pub verify_btc_relay_agreement :
      ReleaseIdentity
      → ValidatedConsignment
      → List MerkleProofEntry
      → HeaderChain Header
      → ChainPins
      → BtcRelayMode
      → ℕ
      → ChainPins × EnclaveResult (Unit {0})
  verify_btc_relay_agreement release validated merkle_proofs chain pins mode min_confirmations =
      and_then (pins, decode_blocks btc release chain)
        λ pins (source, latest). and_then (pin pins chain latest.height 1) λ pins _.
          and_then
            (pins, check_lag btc sha256d latest validated merkle_proofs chain min_confirmations)
            λ pins anchor. and_then (pin pins chain anchor.height min_confirmations) λ pins _. (
              pins,
              do
                refuse_if (not (source.height == anchor.height)) cross_check
                check_commitments btc keccak256 chain mode source latest,
            )
