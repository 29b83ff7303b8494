-- ===== src/Prelude/Assoc.antt =====
-- A hash map with 32-byte keys as an association list, a key being the number that its bytes
-- spell. A new key goes to the end, so that a queue of the keys in order of insertion can be
-- compared with it.
use Prim.Native.Nat.{ℕ, suc, ◌≤◌}
use mathlib.Core.Path.{◌≡◌, refl}
use mathlib.Core.Logic.{◌≢◌, inl, inr}
use mathlib.Core.Bool.{Bool, true, false, ◌||◌}
use mathlib.Core.Option.{Option, none, some}
use mathlib.Core.List.{List, [], ◌∷◌, ◌++◌, map}
use native.Mathlib.Omega.{arith}
use enclave_signer.Prelude.Tests.{Bool-cases, ◌==◌, if◌then◌else◌}
use enclave_signer.Prelude.Lists.{length}

abbrev pub member : ℕ → List ℕ → Bool
member k [] = false
member k (j ∷ js) = j == k || member k js

-- Without the first occurrence.
abbrev pub erase : ℕ → List ℕ → List ℕ
erase k [] = []
erase k (j ∷ js) = if j == k then js else j ∷ erase k js

abbrev pub Distinct : List ℕ → Type 0
Distinct [] = Unit
Distinct (j ∷ js) = (member j js ≡ false) × Distinct js

module _ {V : Type 0} where
  abbrev pub keys : List (ℕ × V) → List ℕ
  keys = map (λ e. e.0)

  unfoldable pub lookup : ℕ → List (ℕ × V) → Option V
  lookup key [] = none
  lookup key (e ∷ entries) = if e.0 == key then some e.1 else lookup key entries

  unfoldable pub insert : ℕ → V → List (ℕ × V) → List (ℕ × V)
  insert key value [] = (key, value) ∷ []
  insert key value (e ∷ entries) =
      if e.0 == key then (key, value) ∷ entries else e ∷ insert key value entries

  unfoldable pub remove : ℕ → List (ℕ × V) → List (ℕ × V)
  remove key [] = []
  remove key (e ∷ entries) = if e.0 == key then entries else e ∷ remove key entries

  pub keys-remove : (k : ℕ) (m : List (ℕ × V)) → keys (remove k m) ≡ erase k (keys m)
  unfolding remove
  keys-remove k [] = refl
  keys-remove k ((j, w) ∷ m) = ground (arith, keys-remove k m)

  pub keys-insert_new :
      (k : ℕ) (v : V) (m : List (ℕ × V))
      → member k (keys m) ≡ false
      → keys (insert k v m) ≡ keys m ++ k ∷ []
  unfolding insert
  keys-insert_new k v [] h = refl
  keys-insert_new k v ((j, w) ∷ m) h = ground (arith, keys-insert_new k v m)

  pub length-insert-le : (k : ℕ) (v : V) (m : List (ℕ × V)) → length (insert k v m) ≤ suc (length m)
  unfolding insert
  length-insert-le k v [] = omega arith
  length-insert-le k v ((j, w) ∷ m) = ground (arith, length-insert-le k v m)

  pub lookup-insert :
      (key asked : ℕ) (value : V) (entries : List (ℕ × V))
      → lookup asked (insert key value entries)
        ≡ (if key == asked then some value else lookup asked entries)
  unfolding lookup insert
  lookup-insert key asked value [] = refl
  lookup-insert key asked value (e ∷ entries) =
      ground (arith, lookup-insert key asked value entries)

  pub lookup_absent : (k : ℕ) (m : List (ℕ × V)) → member k (keys m) ≡ false → lookup k m ≡ none
  unfolding lookup
  lookup_absent k [] h = refl
  lookup_absent k ((j, w) ∷ m) h = ground (arith, lookup_absent k m)

  pub lookup_present :
      (k : ℕ) (m : List (ℕ × V)) → member k (keys m) ≡ true → (v : V) × (lookup k m ≡ some v)
  unfolding lookup
  lookup_present k [] h = cc
  lookup_present k ((j, w) ∷ m) h = elim (Bool-cases (j == k)) [
    | inl here ↦ (w, rw here)
    | inr past ↦ let (v, found) = lookup_present k m (rw past at h) in (v, rw past found)
  ]

  pub lookup-remove_ne : (k j : ℕ) (m : List (ℕ × V)) → k ≢ j → lookup j (remove k m) ≡ lookup j m
  unfolding lookup remove
  lookup-remove_ne k j [] h = refl
  lookup-remove_ne k j ((i, w) ∷ m) h = ground (arith, lookup-remove_ne k j m)

pub member-erase_self : (k : ℕ) (js : List ℕ) → Distinct js → member k (erase k js) ≡ false
member-erase_self k [] d = refl
member-erase_self k (j ∷ js) d = ground (arith, member-erase_self k js)

pub member-erase-false :
    (i k : ℕ) (js : List ℕ) → member i js ≡ false → member i (erase k js) ≡ false
member-erase-false i k [] h = refl
member-erase-false i k (j ∷ js) h = ground (arith, member-erase-false i k js)

pub member-erase_ne : (i k : ℕ) (js : List ℕ) → i ≢ k → member i (erase k js) ≡ member i js
member-erase_ne i k [] h = refl
member-erase_ne i k (j ∷ js) h = ground (arith, member-erase_ne i k js)

pub erase-Distinct : (k : ℕ) (js : List ℕ) → Distinct js → Distinct (erase k js)
erase-Distinct k [] d = tt
erase-Distinct k (j ∷ js) d = ground (arith, erase-Distinct k js, member-erase-false j k js)

pub length-erase-le : (k : ℕ) (js : List ℕ) → length (erase k js) ≤ length js
length-erase-le k [] = omega arith
length-erase-le k (j ∷ js) = ground (arith, length-erase-le k js)

pub erase_absent : (k : ℕ) (js : List ℕ) → member k js ≡ false → erase k js ≡ js
erase_absent k [] h = refl
erase_absent k (j ∷ js) h = ground (arith, erase_absent k js)

pub member-snoc : (i k : ℕ) (js : List ℕ) → member i (js ++ k ∷ []) ≡ (member i js || k == i)
member-snoc i k [] = ground arith
member-snoc i k (j ∷ js) = ground (arith, member-snoc i k js)

pub Distinct-snoc :
    (k : ℕ) (js : List ℕ) → Distinct js → member k js ≡ false → Distinct (js ++ k ∷ [])
Distinct-snoc k [] d h = (refl, tt)
Distinct-snoc k (j ∷ js) d h = ground (arith, member-snoc j k js, Distinct-snoc k js)
