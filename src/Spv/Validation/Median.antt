-- ===== src/Spv/Validation/Median.antt =====
-- The median of `median_time_past`, against a description that counts.
use enclave_signer.Prelude.{
  ℕ, zero, suc, ◌+◌, ◌/◌, ◌≤◌, ◌<◌, ◌≡◌, refl, some, List, [], ◌∷◌, arith, All, length, get_elem?,
  ltb, leb, if◌then◌else◌,
}
use enclave_signer.Spv.Validation.{insert, sort, median_time_past}

-- How many of the times lie below `m`.
abbrev pub below : ℕ → List ℕ → ℕ
below m [] = 0
below m (x ∷ xs) = (if ltb x m then 1 else 0) + below m xs

-- How many of the times are at most `m`.
abbrev pub up_to : ℕ → List ℕ → ℕ
up_to m [] = 0
up_to m (x ∷ xs) = (if leb x m then 1 else 0) + up_to m xs

abbrev IsSorted : List ℕ → Type 0
IsSorted [] = Unit
IsSorted (x ∷ xs) = All (λ y. x ≤ y) xs × IsSorted xs

below-insert : (m x : ℕ) (ys : List ℕ) → below m (insert x ys) ≡ below m (x ∷ ys)
unfolding insert
below-insert m x [] = refl
below-insert m x (y ∷ ys) = ground (arith, below-insert m x ys)

up_to-insert : (m x : ℕ) (ys : List ℕ) → up_to m (insert x ys) ≡ up_to m (x ∷ ys)
unfolding insert
up_to-insert m x [] = refl
up_to-insert m x (y ∷ ys) = ground (arith, up_to-insert m x ys)

length-insert : (x : ℕ) (ys : List ℕ) → length (insert x ys) ≡ suc (length ys)
unfolding insert
length-insert x [] = refl
length-insert x (y ∷ ys) = ground (arith, length-insert x ys)

below-sort : (m : ℕ) (xs : List ℕ) → below m (sort xs) ≡ below m xs
unfolding sort
below-sort m [] = refl
below-sort m (x ∷ xs) = omega (arith, below-insert m x (sort xs), below-sort m xs)

up_to-sort : (m : ℕ) (xs : List ℕ) → up_to m (sort xs) ≡ up_to m xs
unfolding sort
up_to-sort m [] = refl
up_to-sort m (x ∷ xs) = omega (arith, up_to-insert m x (sort xs), up_to-sort m xs)

length-sort : (xs : List ℕ) → length (sort xs) ≡ length xs
unfolding sort
length-sort [] = refl
length-sort (x ∷ xs) = omega (arith, length-insert x (sort xs), length-sort xs)

All-weaken : (a b : ℕ) (xs : List ℕ) → a ≤ b → All (λ y. b ≤ y) xs → All (λ y. a ≤ y) xs
All-weaken a b [] h p = tt
All-weaken a b (x ∷ xs) h p = (omega arith, All-weaken a b xs h p.1)

All-insert : (a x : ℕ) (ys : List ℕ) → a ≤ x → All (λ y. a ≤ y) ys → All (λ y. a ≤ y) (insert x ys)
unfolding insert
All-insert a x [] h p = (h, tt)
All-insert a x (y ∷ ys) h p = ground (arith, All-insert a x ys)

insert-IsSorted : (x : ℕ) (ys : List ℕ) → IsSorted ys → IsSorted (insert x ys)
unfolding insert
insert-IsSorted x [] s = (tt, tt)
insert-IsSorted x (y ∷ ys) s =
    ground (arith, insert-IsSorted x ys, All-insert y x ys, All-weaken x y ys)

sort-IsSorted : (xs : List ℕ) → IsSorted (sort xs)
unfolding sort
sort-IsSorted [] = tt
sort-IsSorted (x ∷ xs) = insert-IsSorted x (sort xs) (sort-IsSorted xs)

below_none : (x : ℕ) (ys : List ℕ) → All (λ y. x ≤ y) ys → below x ys ≡ 0
below_none x [] p = refl
below_none x (y ∷ ys) p = ground (arith, below_none x ys)

le_of_get : (x m : ℕ) (ys : List ℕ) (i : ℕ) → All (λ y. x ≤ y) ys → get_elem? ys i ≡ some m → x ≤ m
le_of_get x m [] i p e = ground arith
le_of_get x m (y ∷ ys) zero p e = ground arith
le_of_get x m (y ∷ ys) (suc i) p e = le_of_get x m ys i p.1 e

-- The element at index `i` of a sorted list has at most `i` elements below it, and more than `i`
-- up to it.
rank :
    (m : ℕ) (s : List ℕ) (i : ℕ)
    → IsSorted s
    → get_elem? s i ≡ some m
    → (below m s ≤ i) × (i < up_to m s)
rank m [] i s e = ground arith
rank m (x ∷ xs) zero s e = ground (arith, below_none x xs)
rank m (x ∷ xs) (suc i) s e = ground (arith, rank m xs i, le_of_get x m xs i s.0 e)

get_some : (xs : List ℕ) (i : ℕ) → i < length xs → (m : ℕ) × (get_elem? xs i ≡ some m)
get_some [] i h = elim h [ ]
get_some (x ∷ xs) zero h = (x, refl)
get_some (x ∷ xs) (suc i) h = get_some xs i (omega arith)

-- For a window that is not empty, at most half of the times (rounded down) lie below the median,
-- and more than half (rounded down) lie at or below it.
pub median_rank :
    (times : List ℕ)
    → 0 < length times
    → (below (median_time_past times) times ≤ length times / 2)
      × (length times / 2 < up_to (median_time_past times) times)
unfolding median_time_past
median_rank times h =
    let len = length-sort times in
    let (m, found) = get_some (sort times) (length (sort times) / 2) (omega (arith, len)) in
    let (low, high) = rank m (sort times) (length (sort times) / 2) (sort-IsSorted times) found in
    rw found (omega (arith, low, high, len, below-sort m times, up_to-sort m times))
