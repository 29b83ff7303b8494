-- ===== src/Evm/Relay/Agreement.antt =====
-- What a release has shown when the relay agreement passes.
mod Decode
use enclave_signer.Prelude.{
  ℕ, zero, suc, ◌+◌, ◌-◌, ◌≤◌, ◌≡◌, ◌≢◌, Option-cases, ◌∙◌, sym, ap, subst, refl, true, false, some,
  List, [], ◌∷◌, ◌++◌, not, ltb, ltb_false→le, ◌==◌, length, take, drop, arith, ok, err, get_elem?,
  bind-ok, ok_or, ok_or-ok, refuse_if_past, refuse_if-ok, Bytes, AreBytes, be_value, to_be_bytes,
  to_be_bytes-be_value, same_bytes, same_bytes→≡, take-append-drop, take_all, length-take,
  length-drop, All-take, All-drop, Bool-cases, inl, inr,
}
use enclave_signer.Config.{BtcRelayMode}
use enclave_signer.Error.{EnclaveError, EnclaveResult, cross_check, spv}
use enclave_signer.Spv.Types.{Bitcoin}
use enclave_signer.Spv.Chain.{HeaderChain, tip_height, header_at}
use enclave_signer.Spv.Chain.Links.{IsValid}
use enclave_signer.Spv.CrossCheck.{
  MerkleProofEntry, ValidatedConsignment, ChainPins, reverse, pin, validate_spv_proofs,
}
use enclave_signer.Spv.CrossCheck.Proven.{IsIncluded}
use enclave_signer.Spv.CrossCheck.Accept.{validate_spv_proofs_sound}
use enclave_signer.Evm.Relay.{
  ReleaseIdentity, ProofBlock, ConsignmentAnchor, any_nonzero, proof_height, word_at,
  decode_funds_out_proof, find_proof, is_zero, display_hash_at, assert_header_present, relay_record,
  assert_relay_commitment, check_commitments, resolve_consignment_anchor, and_then, decode_blocks,
  check_lag, verify_btc_relay_agreement, max_relay_tip_lag_blocks,
}
use enclave_signer.Evm.Relay.Agreement.Decode.{
  encoded, err_ok, ok_is, equal_heights, decode_funds_out_proof-ok, find_proof-ok,
}

-- The relay's commitments are those of the enclave's own chain, or there is no relay and they are
-- zero.
abbrev pub HasCommitment :
    (btc : Bitcoin) → (Bytes → Bytes) → HeaderChain btc.Header → BtcRelayMode → ProofBlock → Type 0
HasCommitment btc keccak256 chain BtcRelayMode.required block =
    (is_zero block ≡ false)
    × (rec : Bytes) × (relay_record btc chain block.height ≡ ok rec)
    × (block.commitment ≡ keccak256 rec)
HasCommitment btc keccak256 chain BtcRelayMode.none block = is_zero block ≡ true

-- What the release and the chain agree on.
pub record Agrees (btc : Bitcoin) (sha256d keccak256 : Bytes → Bytes) (release : ReleaseIdentity)
    (validated : ValidatedConsignment) (proofs : List MerkleProofEntry)
    (chain : HeaderChain btc.Header) (mode : BtcRelayMode) (confirmations : ℕ) : Type 0 where
  pub source : ProofBlock
  pub latest : ProofBlock
  pub proof_is : release.proof ≡ encoded source latest
  pub ordered : source.height ≤ latest.height
  pub recent : tip_height chain ≤ latest.height + max_relay_tip_lag_blocks
  pub latest_stored : (h : btc.Header) × (header_at chain latest.height ≡ some h)
  pub witness : Bytes
  pub last_witness : validated.last_witness_txid ≡ some witness
  pub anchor : MerkleProofEntry
  pub index : ℕ
  pub given : get_elem? proofs index ≡ some anchor
  pub about_witness : anchor.txid ≡ reverse witness
  pub included : IsIncluded btc sha256d chain confirmations anchor
  pub source_height : source.height ≡ anchor.block_height
  pub source_commitment : HasCommitment btc keccak256 chain mode source
  pub latest_commitment : HasCommitment btc keccak256 chain mode latest

pub and_then-ok :
    {A B : Type 0} (m : ChainPins × EnclaveResult A)
    (f : ChainPins → A → ChainPins × EnclaveResult B) {b : B}
    → (and_then m f).1 ≡ ok b
    → (a : A) × (m.1 ≡ ok a) × ((f m.0 a).1 ≡ ok b)
and_then-ok (pins, err e) f h = cc
and_then-ok (pins, ok a) f h = (a, refl, h)

module _ (btc : Bitcoin) (chain : HeaderChain btc.Header) where
  open btc use {Header}

  module _ (keccak256 : Bytes → Bytes) where
    assert_relay_commitment-ok :
        (block : ProofBlock)
        → assert_relay_commitment btc keccak256 chain block ≡ ok tt
        → (rec : Bytes) × (relay_record btc chain block.height ≡ ok rec)
          × (block.commitment ≡ keccak256 rec)
    unfolding assert_relay_commitment
    assert_relay_commitment-ok block h =
        let (rec, is_rec, h1) = bind-ok (relay_record btc chain block.height) _ h in
        let same =
          refuse_if-ok (not (same_bytes block.commitment (keccak256 rec))) cross_check h1 in
        (rec, is_rec, same_bytes→≡ block.commitment (keccak256 rec) (ground (arith, same)))

    check_commitments-ok :
        (mode : BtcRelayMode) (source latest : ProofBlock)
        → check_commitments btc keccak256 chain mode source latest ≡ ok tt
        → HasCommitment btc keccak256 chain mode source
          × HasCommitment btc keccak256 chain mode latest
    unfolding check_commitments
    check_commitments-ok BtcRelayMode.required source latest h =
        let (s, h1) = refuse_if_past (is_zero source) cross_check _ h in
        let (l, h2) = refuse_if_past (is_zero latest) cross_check _ h1 in
        let (_, source_ok, latest_ok) =
          bind-ok (assert_relay_commitment btc keccak256 chain source) _ h2 in
        let (a, is_a, a_ok) = assert_relay_commitment-ok source source_ok in
        let (b, is_b, b_ok) = assert_relay_commitment-ok latest latest_ok in
        ((s, a, is_a, a_ok), (l, b, is_b, b_ok))
    check_commitments-ok BtcRelayMode.none source latest h =
        let (s, h1) = refuse_if_past (not (is_zero source)) cross_check _ h in
        let l = refuse_if-ok (not (is_zero latest)) cross_check h1 in
        (ground (arith, s), ground (arith, l))

  assert_header_present-ok :
      (block : ProofBlock)
      → assert_header_present btc chain block ≡ ok tt
      → (h : Header) × (header_at chain block.height ≡ some h)
  unfolding assert_header_present display_hash_at
  assert_header_present-ok block h = elim (Option-cases (header_at chain block.height)) [
    | inl missing ↦ absurd (err_ok (rw (assert_header_present, display_hash_at, missing) at h))
    | inr (header, found) ↦ (header, found)
  ]

  decode_blocks-ok :
      (release : ReleaseIdentity) (source latest : ProofBlock)
      → AreBytes release.proof
      → decode_blocks btc release chain ≡ ok (source, latest)
      → (release.proof ≡ encoded source latest)
        × (source.height ≤ latest.height)
        × (h : Header) × (header_at chain latest.height ≡ some h)
  unfolding decode_blocks
  decode_blocks-ok release source latest bytes h =
      let (decoded, is_decoded, h1) = bind-ok (decode_funds_out_proof release) _ h in
      let (ordered, h2) = refuse_if_past (ltb decoded.1.height decoded.0.height) spv _ h1 in
      let (_, present, h3) = bind-ok (assert_header_present btc chain decoded.1) _ h2 in
      let (header, stored) = assert_header_present-ok decoded.1 present in
      subst
        (λ x.
          (release.proof ≡ encoded x.0 x.1)
          × (x.0.height ≤ x.1.height)
          × (h : Header) × (header_at chain x.1.height ≡ some h))
        (ok_is h3)
        (
          decode_funds_out_proof-ok release bytes is_decoded,
          ltb_false→le decoded.1.height decoded.0.height ordered,
          header,
          stored,
        )

  module _ (v : IsValid btc chain) (sha256d : Bytes → Bytes) (validated : ValidatedConsignment)
      (proofs : List MerkleProofEntry) (confirmations : ℕ) where
    -- The block of the last witness, by a proof of the request that is right about the chain.
    record IsAnchored (height : ℕ) : Type 0 where
      witness : Bytes
      last_witness : validated.last_witness_txid ≡ some witness
      anchor : MerkleProofEntry
      index : ℕ
      given : get_elem? proofs index ≡ some anchor
      about_witness : anchor.txid ≡ reverse witness
      included : IsIncluded btc sha256d chain confirmations anchor
      height_is : height ≡ anchor.block_height

    resolve_consignment_anchor-ok :
        {found : ConsignmentAnchor}
        → resolve_consignment_anchor btc sha256d validated proofs chain confirmations ≡ ok found
        → IsAnchored found.height
    unfolding resolve_consignment_anchor
    resolve_consignment_anchor-ok h =
        let (witness, is_witness, h1) =
          bind-ok (ok_or validated.last_witness_txid cross_check) _ h in
        let txid = reverse witness in
        let (p, is_p, h2) = bind-ok (ok_or (find_proof txid proofs) spv) _ h1 in
        let (hash, is_hash, h3) =
          bind-ok (ok_or (display_hash_at btc chain p.block_height) spv) _ h2 in
        let (_, proven, h4) =
          bind-ok (validate_spv_proofs btc sha256d chain (txid ∷ []) (p ∷ []) confirmations) _ h3 in
        let (same, index, given) =
          find_proof-ok txid proofs (ok_or-ok (find_proof txid proofs) spv is_p) in
        record {
          witness = witness;
          last_witness = ok_or-ok validated.last_witness_txid cross_check is_witness;
          anchor = p;
          index = index;
          given = given;
          about_witness = same;
          included =
              (validate_spv_proofs_sound btc sha256d chain v confirmations (txid ∷ []) (p ∷ [])
                proven).included.0;
          height_is = ap (λ a. a.height) (sym (ok_is h4));
        }

    -- On a valid chain, a release that passes the relay agreement carries the proof that encodes a
    -- source and a latest block with these properties: the source is not above the latest, and
    -- the latest is a stored block at most 100 below the tip; the source is the block of the
    -- consignment's last witness, by a Merkle proof of the request that leads to the root of the
    -- stored header, with the required number of blocks from it to the tip; and when a relay is
    -- required, the two commitments are the hashes of the relay records of the chain at these
    -- heights, and not zero, while without a relay both are zero.
    pub verify_btc_relay_agreement-ok :
        (keccak256 : Bytes → Bytes) (release : ReleaseIdentity) (pins : ChainPins)
        (mode : BtcRelayMode)
        → AreBytes release.proof
        → (verify_btc_relay_agreement btc sha256d keccak256 release validated proofs chain pins mode
            confirmations).1
          ≡ ok tt
        → Agrees btc sha256d keccak256 release validated proofs chain mode confirmations
    unfolding verify_btc_relay_agreement decode_blocks check_lag
    verify_btc_relay_agreement-ok keccak256 release pins mode bytes h =
        let (blocks, is_blocks, h1) = and_then-ok (pins, decode_blocks btc release chain) _ h in
        let (proof_is, ordered, header, stored) =
          decode_blocks-ok release blocks.0 blocks.1 bytes is_blocks in
        let (_, _, h2) = and_then-ok (pin pins chain blocks.1.height 1) _ h1 in
        let (found, is_found, h3) =
          and_then-ok
            (
              (pin pins chain blocks.1.height 1).0,
              check_lag btc sha256d blocks.1 validated proofs chain confirmations,
            )
            _ h2 in
        let (near, is_anchor) =
          refuse_if_past (ltb max_relay_tip_lag_blocks (tip_height chain - blocks.1.height)) spv _
            is_found in
        let a = resolve_consignment_anchor-ok is_anchor in
        let (_, _, h4) =
          and_then-ok (pin (pin pins chain blocks.1.height 1).0 chain found.height confirmations) _
            h3 in
        let (same, h5) = refuse_if_past (not (blocks.0.height == found.height)) cross_check _ h4 in
        let (source_ok, latest_ok) = check_commitments-ok keccak256 mode blocks.0 blocks.1 h5 in
        record {
          source = blocks.0;
          latest = blocks.1;
          proof_is = proof_is;
          ordered = ordered;
          recent = omega (
            arith,
            ltb_false→le max_relay_tip_lag_blocks (tip_height chain - blocks.1.height) near,
          );
          latest_stored = (header, stored);
          witness = a.witness;
          last_witness = a.last_witness;
          anchor = a.anchor;
          index = a.index;
          given = a.given;
          about_witness = a.about_witness;
          included = a.included;
          source_height = equal_heights blocks.0.height found.height same ∙ a.height_is;
          source_commitment = source_ok;
          latest_commitment = latest_ok;
        }
