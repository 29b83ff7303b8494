-- ===== src/Spv/Merkle/Tree.antt =====
-- What a Merkle root is, independently of the verifier: a row of hashes is paired up, level by
-- level, and the last hash of an odd row is paired with itself, as in Bitcoin.
use enclave_signer.Prelude.{Bytes, ℕ, zero, suc, ◌/◌, ◌≡◌, false, List, [], ◌∷◌, ◌++◌, All, length}
use enclave_signer.Spv.Merkle.{is_64_byte_transaction}

abbrev pub Is32 : List Bytes → Type 0
Is32 = All (λ h. length h ≡ 32)

module _ (sha256d : Bytes → Bytes) where
  unfoldable pub level_up : List Bytes → List Bytes
  level_up [] = []
  level_up (a ∷ []) = sha256d (a ++ a) ∷ []
  level_up (a ∷ b ∷ row) = sha256d (a ++ b) ∷ level_up row

  unfoldable pub levels_up : ℕ → List Bytes → List Bytes
  levels_up zero row = row
  levels_up (suc d) row = levels_up d (level_up row)

-- The hash that is paired with the one at index `i`.
unfoldable pub partner : List Bytes → ℕ → Bytes
partner [] i = []
partner (a ∷ []) i = a
partner (a ∷ b ∷ row) zero = b
partner (a ∷ b ∷ row) (suc zero) = a
partner (a ∷ b ∷ row) (suc (suc i)) = partner row i

-- No pair of a row is a 64-byte transaction.
abbrev pub NoTransaction : List Bytes → Type 0
NoTransaction [] = Unit
NoTransaction (a ∷ []) = is_64_byte_transaction (a ++ a) ≡ false
NoTransaction (a ∷ b ∷ row) = (is_64_byte_transaction (a ++ b) ≡ false) × NoTransaction row

module _ (sha256d : Bytes → Bytes) where
  -- The proof of a block for the transaction at index `i`.
  unfoldable pub branch : ℕ → ℕ → List Bytes → List Bytes
  branch zero i row = []
  branch (suc d) i row = partner row i ∷ branch d (i / 2) (level_up sha256d row)

  abbrev pub IsClean : ℕ → List Bytes → Type 0
  IsClean zero row = Unit
  IsClean (suc d) row = NoTransaction row × IsClean d (level_up sha256d row)

module _ (sha256d : Bytes → Bytes) (hash_length : (m : Bytes) → length (sha256d m) ≡ 32) where
  pub level_up-Is32 : (row : List Bytes) → Is32 (level_up sha256d row)
  unfolding level_up
  level_up-Is32 [] = tt
  level_up-Is32 (a ∷ []) = (hash_length (a ++ a), tt)
  level_up-Is32 (a ∷ b ∷ row) = (hash_length (a ++ b), level_up-Is32 row)
