-- ===== src/Spv/CrossCheck/Accept.antt =====
-- When the proofs of a request are accepted.
use enclave_signer.Prelude.{
  ℕ, ◌≤◌, ◌≡◌, ◌∙◌, sym, refl, true, false, not, List, [], ◌∷◌, length, All, arith, ok, ◌==◌,
  bind-ok, refuse_if_past, Bytes, contains, Bool, length-map,
}
use enclave_signer.Error.{spv}
use enclave_signer.Spv.Types.{Bitcoin}
use enclave_signer.Spv.Chain.{HeaderChain}
use enclave_signer.Spv.Chain.Links.{IsValid}
use enclave_signer.Spv.CrossCheck.{
  MerkleProofEntry, max_merkle_path_depth, to_set, cover, verify_one_proof, verify_all,
  validate_spv_proofs,
}
use enclave_signer.Spv.CrossCheck.Sets.{
  Distinct, contains-to_set, to_set-Distinct, same_size, equal_size,
}
use enclave_signer.Spv.CrossCheck.Proven.{
  IsIncluded, verify_one_proof_sound, verify_one_proof_complete,
}
use enclave_signer.Spv.CrossCheck.Cover.{txids, IsShaped, IsCover, cover_sound, cover_complete}

-- The proofs of a request are right about the chain: they are for the expected txids, one for
-- each, no path is too deep, and each is included.
pub record IsProven (btc : Bitcoin) (sha256d : Bytes → Bytes) (c : HeaderChain btc.Header)
    (expected : List Bytes) (proofs : List MerkleProofEntry) (confirmations : ℕ) : Type 0 where
  pub bounded : All (λ p. length p.merkle_path ≤ max_merkle_path_depth) proofs
  pub once : Distinct (txids proofs)
  pub covers : (t : Bytes) → contains expected t ≡ contains (txids proofs) t
  pub included : All (IsIncluded btc sha256d c confirmations) proofs

both_ways : (a b : Bool) → (a ≡ true → b ≡ true) → (b ≡ true → a ≡ true) → a ≡ b
both_ways a b f g = ground (arith, f, g)

All-bounded :
    (proofs : List MerkleProofEntry)
    → All IsShaped proofs
    → All (λ p. length p.merkle_path ≤ max_merkle_path_depth) proofs
All-bounded [] a = tt
All-bounded (p ∷ proofs) a = (a.0.1, All-bounded proofs a.1)

contains-nil : (t : Bytes) → contains [] t ≡ false
unfolding contains
contains-nil t = refl

All-IsShaped :
    (btc : Bitcoin) (sha256d : Bytes → Bytes) (c : HeaderChain btc.Header) (confirmations : ℕ)
    (proofs : List MerkleProofEntry)
    → All (λ p. length p.merkle_path ≤ max_merkle_path_depth) proofs
    → All (IsIncluded btc sha256d c confirmations) proofs
    → All IsShaped proofs
All-IsShaped btc sha256d c confirmations [] b i = tt
All-IsShaped btc sha256d c confirmations (p ∷ proofs) (small, b) (included, i) =
    ((included.txid_32, small), All-IsShaped btc sha256d c confirmations proofs b i)

module _ (btc : Bitcoin) (sha256d : Bytes → Bytes) (c : HeaderChain btc.Header) (v : IsValid btc c)
    (min_confirmations : ℕ) where
  verify_all_sound :
      (proofs : List MerkleProofEntry)
      → verify_all btc sha256d c min_confirmations proofs ≡ ok tt
      → All (IsIncluded btc sha256d c min_confirmations) proofs
  unfolding verify_all
  verify_all_sound [] h = tt
  verify_all_sound (p ∷ proofs) h =
      let (_, here, rest) = bind-ok (verify_one_proof btc sha256d c min_confirmations p) _ h in
      (
        verify_one_proof_sound btc sha256d c v min_confirmations p here,
        verify_all_sound proofs rest,
      )

  verify_all_complete :
      (proofs : List MerkleProofEntry)
      → All (IsIncluded btc sha256d c min_confirmations) proofs
      → verify_all btc sha256d c min_confirmations proofs ≡ ok tt
  unfolding verify_all
  verify_all_complete [] a = refl
  verify_all_complete (p ∷ proofs) (here, rest) =
      rw (verify_one_proof_complete btc sha256d c v min_confirmations p here)
        (verify_all_complete proofs rest)

  module _ (expected : List Bytes) (proofs : List MerkleProofEntry) where
    pub validate_spv_proofs_sound :
        validate_spv_proofs btc sha256d c expected proofs min_confirmations ≡ ok tt
        → IsProven btc sha256d c expected proofs min_confirmations
    unfolding validate_spv_proofs
    validate_spv_proofs_sound h =
        let (set, is_set, h1) = bind-ok (cover (to_set expected) [] proofs) _ h in
        let (cover, size) = cover_sound (to_set expected) [] proofs is_set in
        let (same, h2) = refuse_if_past (not (length set == length (to_set expected))) spv _ h1 in
        let all : length (to_set expected) ≤ length (txids proofs) =
          ground (arith, same, size, length-map (λ p. p.txid) proofs) in
        let missing = same_size (txids proofs) (to_set expected) cover.once cover.known all in
        record {
          bounded = All-bounded proofs cover.shaped;
          once = cover.once;
          covers = λ t.
              both_ways (contains expected t) (contains (txids proofs) t)
                (λ e. missing t (contains-to_set expected t ∙ e))
                (λ e. sym (contains-to_set expected t) ∙ cover.known t e);
          included = verify_all_sound proofs h2;
        }

    pub validate_spv_proofs_complete :
        IsProven btc sha256d c expected proofs min_confirmations
        → validate_spv_proofs btc sha256d c expected proofs min_confirmations ≡ ok tt
    unfolding validate_spv_proofs
    validate_spv_proofs_complete p =
        let cover : IsCover (to_set expected) [] proofs = record {
          shaped = All-IsShaped btc sha256d c min_confirmations proofs p.bounded p.included;
          once = p.once;
          unseen = λ t h. contains-nil t;
          known = λ t h. contains-to_set expected t ∙ p.covers t ∙ h;
        } in
        let (set, is_set, size) = cover_complete (to_set expected) [] proofs cover in
        let same : length (txids proofs) ≡ length (to_set expected) =
          equal_size (txids proofs) (to_set expected) p.once (to_set-Distinct expected) cover.known
            (λ t h. sym (p.covers t) ∙ sym (contains-to_set expected t) ∙ h) in
        let equal : (length set == length (to_set expected)) ≡ true =
          ground (arith, same, size, length-map (λ p. p.txid) proofs) in
        rw (is_set, equal) (verify_all_complete proofs p.included)
