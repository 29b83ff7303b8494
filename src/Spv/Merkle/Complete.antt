-- ===== src/Spv/Merkle/Complete.antt =====
-- The proof of a transaction of the block is accepted.
use enclave_signer.Prelude.{
  Bytes, ℕ, zero, suc, ◌/◌, ◌%◌, ◌<◌, ◌≡◌, false, some, List, [], ◌∷◌, length, get_elem?, arith, ok,
}
use enclave_signer.Spv.Merkle.{is_64_byte_transaction, buffer, climb, verify_merkle_proof}
use enclave_signer.Spv.Merkle.Tree.{
  Is32, level_up, levels_up, partner, NoTransaction, branch, IsClean, level_up-Is32,
}

partner-32 : (row : List Bytes) (i : ℕ) → Is32 row → i < length row → length (partner row i) ≡ 32
unfolding partner
partner-32 [] i r below = elim below [ ]
partner-32 (a ∷ []) i r below = r.0
partner-32 (a ∷ b ∷ row) zero r below = r.1.0
partner-32 (a ∷ b ∷ row) (suc zero) r below = r.0
partner-32 (a ∷ b ∷ row) (suc (suc i)) r below = partner-32 row i r.1.1 (omega arith)

not_transaction :
    (row : List Bytes) (i : ℕ) (h : Bytes)
    → NoTransaction row
    → get_elem? row i ≡ some h
    → is_64_byte_transaction (buffer i h (partner row i)) ≡ false
unfolding partner buffer
not_transaction [] i h n e = cc
not_transaction (a ∷ []) zero h n e = ground arith
not_transaction (a ∷ []) (suc i) h n e = cc
not_transaction (a ∷ b ∷ row) zero h n e = ground arith
not_transaction (a ∷ b ∷ row) (suc zero) h n e = ground arith
not_transaction (a ∷ b ∷ row) (suc (suc i)) h n e =
    let low : suc (suc i) % 2 ≡ i % 2 = omega arith in rw low (not_transaction row i h n.1 e)

module _ (sha256d : Bytes → Bytes) where
  parent :
      (row : List Bytes) (i : ℕ) (h : Bytes)
      → get_elem? row i ≡ some h
      → get_elem? (level_up sha256d row) (i / 2) ≡ some (sha256d (buffer i h (partner row i)))
  unfolding level_up partner buffer
  parent [] i h e = cc
  parent (a ∷ []) zero h e = ground arith
  parent (a ∷ []) (suc i) h e = cc
  parent (a ∷ b ∷ row) zero h e = ground arith
  parent (a ∷ b ∷ row) (suc zero) h e = ground arith
  parent (a ∷ b ∷ row) (suc (suc i)) h e =
      let low : suc (suc i) % 2 ≡ i % 2 = omega arith in
      let half : suc (suc i) / 2 ≡ suc (i / 2) = omega arith in rw (half, low) (parent row i h e)

  get-lt : (row : List Bytes) (i : ℕ) (h : Bytes) → get_elem? row i ≡ some h → i < length row
  get-lt [] i h e = cc
  get-lt (a ∷ row) zero h e = omega arith
  get-lt (a ∷ row) (suc i) h e = omega (arith, get-lt row i h e)

  module _ (hash_length : (m : Bytes) → length (sha256d m) ≡ 32) where
    climb-branch :
        (d n i : ℕ) (row : List Bytes) (h root : Bytes)
        → Is32 row
        → IsClean sha256d d row
        → levels_up sha256d d row ≡ root ∷ []
        → get_elem? row i ≡ some h
        → climb sha256d n i h (branch sha256d d i row) ≡ ok (root, 0)
    unfolding climb branch levels_up
    climb-branch zero n zero row h root r clean up e = ground arith
    climb-branch zero n (suc i) row h root r clean up e = ground arith
    climb-branch (suc d) n i row h root r clean up e = ground (
      arith,
      partner-32 row i r (get-lt row i h e),
      not_transaction row i h clean.0 e,
      climb-branch d (suc n) (i / 2) (level_up sha256d row) (sha256d (buffer i h (partner row i)))
          root (level_up-Is32 sha256d hash_length row) clean.1 up (parent row i h e),
    )

    -- For a block of 32-byte transaction ids whose Merkle root is reached after `d` levels, no
    -- pair of which reads as a 64-byte transaction, the path of siblings of the transaction at
    -- a position is accepted for that transaction and that position.
    pub verify_merkle_proof-branch :
        (d position : ℕ) (txids : List Bytes) (txid merkle_root : Bytes)
        → Is32 txids
        → IsClean sha256d d txids
        → levels_up sha256d d txids ≡ merkle_root ∷ []
        → get_elem? txids position ≡ some txid
        → verify_merkle_proof sha256d txid position (branch sha256d d position txids) merkle_root
          ≡ ok tt
    unfolding verify_merkle_proof
    verify_merkle_proof-branch d position txids txid merkle_root r clean up e =
        ground (arith, climb-branch d 0 position txids txid merkle_root r clean up e)
