-- ===== src/Spv/CrossCheck/Sets.antt =====
-- Byte strings in a list that stands for a set, and the first loop of `validate_spv_proofs`, which
-- compares two such sets.
use enclave_signer.Prelude.{
  suc, ◌≤◌, ◌≡◌, inl, inr, refl, true, false, List, [], ◌∷◌, length, arith, if◌then◌else◌, Bytes,
  same_bytes, same_bytes→≡, same_bytes_refl, contains, Bool-cases,
}
use enclave_signer.Spv.CrossCheck.{to_set}

abbrev pub Distinct : List Bytes → Type 0
Distinct [] = Unit
Distinct (t ∷ ts) = (contains ts t ≡ false) × Distinct ts

abbrev pub IsSubset : List Bytes → List Bytes → Type 0
IsSubset xs ys = (t : Bytes) → contains xs t ≡ true → contains ys t ≡ true

-- Without the first occurrence.
abbrev without : Bytes → List Bytes → List Bytes
without t [] = []
without t (x ∷ xs) = if same_bytes x t then xs else x ∷ without t xs

length-without :
    (t : Bytes) (ys : List Bytes) → contains ys t ≡ true → length ys ≡ suc (length (without t ys))
unfolding contains
length-without t [] h = cc
length-without t (y ∷ ys) h = ground (arith, length-without t ys)

contains-without :
    (t u : Bytes) (ys : List Bytes)
    → same_bytes t u ≡ false
    → contains ys u ≡ true
    → contains (without t ys) u ≡ true
unfolding contains
contains-without t u [] e h = cc
contains-without t u (y ∷ ys) e h = ground (arith, same_bytes→≡ y t, contains-without t u ys)

pub contains-to_set : (ts : List Bytes) (t : Bytes) → contains (to_set ts) t ≡ contains ts t
unfolding contains to_set
contains-to_set [] t = refl
contains-to_set (x ∷ ts) t = ground (arith, same_bytes→≡ x t, contains-to_set ts t)

pub to_set-Distinct : (ts : List Bytes) → Distinct (to_set ts)
unfolding to_set
to_set-Distinct [] = tt
to_set-Distinct (x ∷ ts) = ground (arith, to_set-Distinct ts, contains-to_set ts x)

subset-without :
    (x : Bytes) (xs ys : List Bytes)
    → contains xs x ≡ false
    → IsSubset (x ∷ xs) ys
    → IsSubset xs (without x ys)
unfolding contains
subset-without x xs ys fresh s t h = elim (Bool-cases (same_bytes x t)) [
  | inl here ↦ let same = same_bytes→≡ x t here in cc
  | inr past ↦ contains-without x t ys past (s t (rw (past, h)))
]

-- A subset without repetitions is not longer than the set, and is all of it when it is as long.
length-IsSubset : (xs ys : List Bytes) → Distinct xs → IsSubset xs ys → length xs ≤ length ys
unfolding contains
length-IsSubset [] ys d s = omega arith
length-IsSubset (x ∷ xs) ys d s =
    let shorter = length-without x ys (s x (rw (same_bytes_refl x))) in
    omega (arith, shorter, length-IsSubset xs (without x ys) d.1 (subset-without x xs ys d.0 s))

pub same_size :
    (xs ys : List Bytes) → Distinct xs → IsSubset xs ys → length ys ≤ length xs → IsSubset ys xs
unfolding contains
same_size [] [] d s l t h = h
same_size [] (y ∷ ys) d s l t h = absurd (omega arith)
same_size (x ∷ xs) ys d s l t h = elim (Bool-cases (same_bytes x t)) [
  | inl here ↦ rw here
  | inr past ↦
      let shorter = length-without x ys (s x (rw (same_bytes_refl x))) in
      rw past (
        same_size xs (without x ys) d.1 (subset-without x xs ys d.0 s) (omega (arith, shorter)) t
          (contains-without x t ys past h))
]

pub equal_size :
    (xs ys : List Bytes)
    → Distinct xs
    → Distinct ys
    → IsSubset xs ys
    → IsSubset ys xs
    → length xs ≡ length ys
equal_size xs ys d e s r = omega (arith, length-IsSubset xs ys d s, length-IsSubset ys xs e r)
