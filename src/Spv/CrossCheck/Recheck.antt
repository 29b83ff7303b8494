-- ===== src/Spv/CrossCheck/Recheck.antt =====
-- Pins that are right about a chain, and their check against it.
use enclave_signer.Prelude.{
  ℕ, ◌+◌, ◌≤◌, ◌<◌, ◌≡◌, subst, refl, inl, inr, some, [], ◌∷◌, All, arith, ok, bind-ok, ◌==◌,
  Bool-cases, true,
}
use enclave_signer.Prelude.Assoc.{lookup, insert}
use enclave_signer.Spv.Chain.{HeaderChain, tip_height, hash_at}
use enclave_signer.Spv.Chain.Reads.{confirmations_count}
use enclave_signer.Spv.CrossCheck.{Pin, ChainPins, check_pin, assert_unchanged}

module _ {Header : Type 0} (c : HeaderChain Header) where
  -- A pin that is right about the chain: the height is stored with that hash, and it is as deep as
  -- the pin wants.
  pub record Holds (entry : ℕ × Pin) : Type 0 where
    pub above : c.base_height < entry.0
    pub hash_is : hash_at c entry.0 ≡ some entry.1.hash
    pub below : entry.0 ≤ tip_height c
    pub deep : entry.0 + entry.1.depth ≤ tip_height c + 1

  pub check_pin-Holds :
      tip_height c < 4_294_967_295 → (entry : ℕ × Pin) → Holds entry → check_pin c entry ≡ ok tt
  unfolding check_pin
  check_pin-Holds fits (height, pinned) p =
      ground (arith, p.hash_is, p.deep, confirmations_count (tip_height c) height p.below fits)

  pub check_pin-hash :
      (height : ℕ) (pinned : Pin)
      → check_pin c (height, pinned) ≡ ok tt
      → hash_at c height ≡ some pinned.hash
  unfolding check_pin
  check_pin-hash height pinned h = ground arith

  pub check_pin-ok :
      tip_height c < 4_294_967_295
      → (height : ℕ) (pinned : Pin) → height ≤ tip_height c
      → check_pin c (height, pinned) ≡ ok tt
      → (hash_at c height ≡ some pinned.hash) × (height + pinned.depth ≤ tip_height c + 1)
  unfolding check_pin
  check_pin-ok fits height pinned below h =
      ground (arith, confirmations_count (tip_height c) height below fits)

  pub assert_unchanged-Holds :
      tip_height c < 4_294_967_295
      → (pins : ChainPins) → All Holds pins
      → assert_unchanged pins c ≡ ok tt
  unfolding assert_unchanged
  assert_unchanged-Holds fits [] p = refl
  assert_unchanged-Holds fits (entry ∷ pins) (here, rest) =
      rw (check_pin-Holds fits entry here) (assert_unchanged-Holds fits pins rest)

  pub assert_unchanged-All :
      (pins : ChainPins)
      → assert_unchanged pins c ≡ ok tt
      → All (λ entry. check_pin c entry ≡ ok tt) pins
  unfolding assert_unchanged
  assert_unchanged-All [] h = tt
  assert_unchanged-All (entry ∷ pins) h =
      let (_, here, rest) = bind-ok (check_pin c entry) _ h in
      (here, assert_unchanged-All pins rest)

pub insert-All :
    (P : ℕ × Pin → Type 0) (key : ℕ) (p : Pin) (pins : ChainPins)
    → P (key, p)
    → All P pins
    → All P (insert key p pins)
unfolding insert
insert-All P key p [] new a = (new, tt)
insert-All P key p (entry ∷ pins) new a = elim (Bool-cases (entry.0 == key)) [
  | inl here ↦ rw here (new, a.1)
  | inr past ↦ rw past (a.0, insert-All P key p pins new a.1)
]

lookup_hit :
    (k key : ℕ) (q : Pin) (pins : ChainPins) {p : Pin}
    → lookup key ((k, q) ∷ pins) ≡ some p
    → (k == key) ≡ true
    → ◌≡◌ {A = ℕ × Pin} (k, q) (key, p)
unfolding lookup
lookup_hit k key q pins found same = ground arith

pub lookup-All :
    (P : ℕ × Pin → Type 0) (key : ℕ) (pins : ChainPins) {p : Pin}
    → All P pins
    → lookup key pins ≡ some p
    → P (key, p)
unfolding lookup
lookup-All P key [] a found = cc
lookup-All P key ((k, q) ∷ pins) a found = elim (Bool-cases (k == key)) [
  | inl same ↦ subst P (lookup_hit k key q pins found same) a.0
  | inr past ↦ lookup-All P key pins a.1 (rw past at found)
]
