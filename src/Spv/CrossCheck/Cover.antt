-- ===== src/Spv/CrossCheck/Cover.antt =====
-- The first loop of `validate_spv_proofs`: which txids the proofs are for.
use enclave_signer.Prelude.{
  ◌+◌, ◌≤◌, ◌≡◌, refl, true, false, not, List, [], ◌∷◌, map, length, All, arith, ok, bind-ok, Bytes,
  same_bytes_refl, same_bytes→≡, refuse_if, ◌>>◌, contains,
}
use enclave_signer.Error.{spv}
use enclave_signer.Spv.CrossCheck.{MerkleProofEntry, max_merkle_path_depth, proof_txid, cover}
use enclave_signer.Spv.CrossCheck.Sets.{Distinct, IsSubset}

abbrev pub txids : List MerkleProofEntry → List Bytes
txids = map (λ p. p.txid)

abbrev pub IsShaped : MerkleProofEntry → Type 0
IsShaped p = (length p.txid ≡ 32) × (length p.merkle_path ≤ max_merkle_path_depth)

proof_txid-ok : (p : MerkleProofEntry) {t : Bytes} → proof_txid p ≡ ok t → IsShaped p × (t ≡ p.txid)
unfolding proof_txid
proof_txid-ok p h = ground arith

proof_txid-IsShaped : (p : MerkleProofEntry) → IsShaped p → proof_txid p ≡ ok p.txid
unfolding proof_txid
proof_txid-IsShaped p s = ground arith

-- The proofs add new txids to the set, each of them expected.
pub record IsCover (expected set : List Bytes) (proofs : List MerkleProofEntry) : Type 0 where
  pub shaped : All IsShaped proofs
  pub once : Distinct (txids proofs)
  pub unseen : (t : Bytes) → contains (txids proofs) t ≡ true → contains set t ≡ false
  pub known : IsSubset (txids proofs) expected

IsCover-cons :
    (expected set : List Bytes) (p : MerkleProofEntry) (proofs : List MerkleProofEntry)
    → IsShaped p
    → contains set p.txid ≡ false
    → contains expected p.txid ≡ true
    → IsCover expected (p.txid ∷ set) proofs
    → IsCover expected set (p ∷ proofs)
unfolding contains
IsCover-cons expected set p proofs shape fresh known c = record {
  shaped = (shape, c.shaped);
  once = (ground (arith, c.unseen p.txid, same_bytes_refl p.txid), c.once);
  unseen = λ t h. ground (arith, same_bytes→≡ p.txid t, c.unseen t);
  known = λ t h. ground (arith, same_bytes→≡ p.txid t, c.known t);
}

IsCover-tail :
    (expected set : List Bytes) (p : MerkleProofEntry) (proofs : List MerkleProofEntry)
    → IsCover expected set (p ∷ proofs)
    → (contains set p.txid ≡ false)
      × (contains expected p.txid ≡ true)
      × IsCover expected (p.txid ∷ set) proofs
unfolding contains
IsCover-tail expected set p proofs c = (
  c.unseen p.txid (rw (same_bytes_refl p.txid)),
  c.known p.txid (rw (same_bytes_refl p.txid)),
  record {
    shaped = c.shaped.1;
    once = c.once.1;
    unseen = λ t h. ground (arith, same_bytes→≡ p.txid t, c.unseen t, c.once);
    known = λ t h. c.known t (ground arith);
  },
)

cover_guards :
    (expected set : List Bytes) (txid t : Bytes) (proofs : List MerkleProofEntry)
    {result : List Bytes}
    → txid ≡ t
    → (do
      refuse_if (contains set txid) spv
      refuse_if (not (contains expected txid)) spv
      cover expected (txid ∷ set) proofs)
      ≡ ok result
    → (contains set t ≡ false)
      × (contains expected t ≡ true)
      × (cover expected (t ∷ set) proofs ≡ ok result)
cover_guards expected set txid t proofs same h = ground arith

cover-cons :
    (expected set : List Bytes) (p : MerkleProofEntry) (proofs : List MerkleProofEntry)
    {result : List Bytes}
    → cover expected set (p ∷ proofs) ≡ ok result
    → IsShaped p
      × (contains set p.txid ≡ false)
      × (contains expected p.txid ≡ true)
      × (cover expected (p.txid ∷ set) proofs ≡ ok result)
unfolding cover
cover-cons expected set p proofs h =
    let (txid, is_txid, rest) = bind-ok (proof_txid p) _ h in
    let (shape, same) = proof_txid-ok p is_txid in
    let (fresh, known, covered) = cover_guards expected set txid p.txid proofs same rest in
    (shape, fresh, known, covered)

pub cover_sound :
    (expected set : List Bytes) (proofs : List MerkleProofEntry) {result : List Bytes}
    → cover expected set proofs ≡ ok result
    → IsCover expected set proofs × (length result ≡ length set + length proofs)
unfolding cover contains
cover_sound expected set [] h = (
  record {
    shaped = tt;
    once = tt;
    unseen = λ t e. ground (arith, e);
    known = λ t e. ground (arith, e);
  },
  ground arith,
)
cover_sound expected set (p ∷ proofs) h =
    let (shape, fresh, known, h1) = cover-cons expected set p proofs h in
    let (rest, size) = cover_sound expected (p.txid ∷ set) proofs h1 in
    (IsCover-cons expected set p proofs shape fresh known rest, omega (arith, size))

pub cover_complete :
    (expected set : List Bytes) (proofs : List MerkleProofEntry)
    → IsCover expected set proofs
    → (result : List Bytes) × (cover expected set proofs ≡ ok result)
      × (length result ≡ length set + length proofs)
unfolding cover
cover_complete expected set [] c = (set, refl, omega arith)
cover_complete expected set (p ∷ proofs) c =
    let (fresh, known, rest) = IsCover-tail expected set p proofs c in
    let (result, is_result, size) = cover_complete expected (p.txid ∷ set) proofs rest in
    (result, rw (proof_txid-IsShaped p c.shaped.0, fresh, known, is_result), omega (arith, size))
