-- ===== src/Evm/Release/Bound/Order.antt =====
-- The deposits that a settlement cites, in order and without repeats.
use enclave_signer.Prelude.{ℕ, ◌<◌, ◌≡◌, refl, false, ◌||◌, List, [], ◌∷◌, ◌==◌, arith}
use enclave_signer.Prelude.Assoc.{member}
use enclave_signer.Spv.Validation.{insert, sort}
use enclave_signer.Evm.Release.{not_ascending, dedup}

abbrev pub IsAscending : List ℕ → Type 0
IsAscending [] = Unit
IsAscending (i ∷ []) = Unit
IsAscending (i ∷ j ∷ ids) = (i < j) × IsAscending (j ∷ ids)

pub not_ascending-IsAscending : (ids : List ℕ) → not_ascending ids ≡ false → IsAscending ids
not_ascending-IsAscending [] h = tt
not_ascending-IsAscending (i ∷ []) h = tt
not_ascending-IsAscending (i ∷ j ∷ ids) h =
    (ground arith, not_ascending-IsAscending (j ∷ ids) (ground arith))

member-insert : (k x : ℕ) (ys : List ℕ) → member k (insert x ys) ≡ (x == k || member k ys)
unfolding insert
member-insert k x [] = ground arith
member-insert k x (y ∷ ys) = ground (arith, member-insert k x ys)

pub member-sort : (k : ℕ) (xs : List ℕ) → member k (sort xs) ≡ member k xs
unfolding sort
member-sort k [] = refl
member-sort k (x ∷ xs) = ground (arith, member-insert k x (sort xs), member-sort k xs)

pub member-dedup : (k : ℕ) (xs : List ℕ) → member k (dedup xs) ≡ member k xs
member-dedup k [] = refl
member-dedup k (i ∷ []) = refl
member-dedup k (i ∷ j ∷ ids) = ground (arith, member-dedup k (j ∷ ids))
