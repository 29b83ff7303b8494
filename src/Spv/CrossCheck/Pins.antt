-- ===== src/Spv/CrossCheck/Pins.antt =====
-- What a pin records, and what the check of a pin against a later chain establishes.
use enclave_signer.Prelude.{
  ℕ, ◌≤◌, ◌≡◌, ◌≢◌, if◌then◌else◌, err, ◌⊎◌, Result-cases, ◌∙◌, sym, ap, refl, inl, inr, Option,
  none, some, arith, ok, ltb, ◌==◌, Option-cases, Bool-cases, true,
}
use enclave_signer.Prelude.Assoc.{lookup, insert, lookup-insert}
use enclave_signer.Error.{EnclaveError, EnclaveResult}
use enclave_signer.Spv.Chain.{HeaderChain, hash_at}
use enclave_signer.Spv.CrossCheck.{Pin, ChainPins, pin_hash, pin}

-- The pins hold that hash for the height, with at least that depth.
pub record IsPinned (pins : ChainPins) (height hash depth : ℕ) : Type 0 where
  pub pinned : Pin
  pub found : lookup height pins ≡ some pinned
  pub same : pinned.hash ≡ hash
  pub deep : depth ≤ pinned.depth

-- A pin that was written: it replaces one of the same hash, and keeps the larger depth.
pub record Written (pins : ChainPins) (height depth hash : ℕ) (new : ChainPins) : Type 0 where
  pub kept : ℕ
  pub enough : depth ≤ kept
  pub earlier : (q : Pin) → lookup height pins ≡ some q → (q.hash ≡ hash) × (q.depth ≤ kept)
  pub source : (kept ≡ depth) ⊎ ((q : Pin) × (lookup height pins ≡ some q) × (kept ≡ q.depth))
  pub new_is : new ≡ insert height (record { hash = hash; depth = kept }) pins

none-some : {o : Option Pin} {p : Pin} → o ≡ none → o ≢ some p
none-some e f = cc

err_ok : {e : EnclaveError} {r : EnclaveResult (Unit {0})} → r ≡ err e → r ≢ ok tt
err_ok failed h = cc

same_pin : {o : Option Pin} {p q : Pin} → o ≡ some p → o ≡ some q → p ≡ q
same_pin e f = cc

pin_hash-Written :
    (pins : ChainPins) (height depth hash : ℕ) (o : Option Pin)
    → lookup height pins ≡ o
    → (pin_hash pins height depth hash o).1 ≡ ok tt
    → Written pins height depth hash (pin_hash pins height depth hash o).0
unfolding pin_hash
pin_hash-Written pins height depth hash none held h = record {
  kept = depth;
  enough = omega arith;
  earlier = λ q e. absurd (none-some held e);
  source = inl refl;
  new_is = refl;
}
pin_hash-Written pins height depth hash (some q) held h = elim (Bool-cases (q.hash == hash)) [
  | inr other ↦ absurd (err_ok refl (rw other at h))
  | inl same ↦ rw same (record {
    kept = if ltb q.depth depth then depth else q.depth;
    enough = ground arith;
    earlier = λ p e. let is : p ≡ q = same_pin e held in (ground (arith, is), ground (arith, is));
    source = larger q held;
    new_is = refl;
  })
]
  where
    larger :
        (q : Pin)
        → lookup height pins ≡ some q
        → ((if ltb q.depth depth then depth else q.depth) ≡ depth)
          ⊎ ((p : Pin) × (lookup height pins ≡ some p)
              × ((if ltb q.depth depth then depth else q.depth) ≡ p.depth))
    larger q held = elim (Bool-cases (ltb q.depth depth)) [
      | inl more ↦ inl (rw more)
      | inr no_more ↦ inr (q, held, rw no_more)
    ]

pin_hash_refused :
    (pins : ChainPins) (height depth hash : ℕ) (o : Option Pin) {e : EnclaveError}
    → (pin_hash pins height depth hash o).1 ≡ err e
    → (pin_hash pins height depth hash o).0 ≡ pins
unfolding pin_hash
pin_hash_refused pins height depth hash o h = ground arith

inserted : (pins : ChainPins) (height : ℕ) (p : Pin) → lookup height (insert height p pins) ≡ some p
inserted pins height p = ground (arith, lookup-insert height height p pins)

Written-IsPinned :
    (pins : ChainPins) (height depth x : ℕ) {new : ChainPins} {other hash least : ℕ}
    → Written pins height depth x new
    → IsPinned pins other hash least
    → IsPinned new other hash least
Written-IsPinned pins height depth x {new} {other} w p =
    let v : Pin = record { hash = x; depth = w.kept } in
    elim (Bool-cases (height == other)) [
      | inl same ↦
          let is : other ≡ height = ground arith in
          let (hash_is, shallower) =
            w.earlier p.pinned (sym (ap (λ h. lookup h pins) is) ∙ p.found) in
          record {
            pinned = v;
            found = rw (w.new_is, lookup-insert height other v pins, same);
            same = sym hash_is ∙ p.same;
            deep = omega (arith, p.deep, shallower);
          }
      | inr past ↦ record {
        pinned = p.pinned;
        found = rw (w.new_is, lookup-insert height other v pins, past) p.found;
        same = p.same;
        deep = p.deep;
      }
    ]

module _ {Header : Type 0} (c : HeaderChain Header) where
  pub pin-Written :
      (pins : ChainPins) (height depth hash : ℕ)
      → hash_at c height ≡ some hash
      → (pin pins c height depth).1 ≡ ok tt
      → Written pins height depth hash (pin pins c height depth).0
  unfolding pin
  pin-Written pins height depth hash found h =
      rw (found, pin)
        (pin_hash-Written pins height depth hash (lookup height pins) refl (rw (found, pin) at h))

  -- A height that the chain has can be pinned, unless it is pinned with another hash.
  pub pin-writes :
      (pins : ChainPins) (height depth hash : ℕ)
      → hash_at c height ≡ some hash
      → ((q : Pin) → lookup height pins ≡ some q → q.hash ≡ hash)
      → (pin pins c height depth).1 ≡ ok tt
  unfolding pin pin_hash
  pin-writes pins height depth hash found agrees = elim (Option-cases (lookup height pins)) [
    | inl new ↦ ground (arith, found, new)
    | inr (q, old) ↦
        let same : (q.hash == hash) ≡ true = ground (arith, agrees q old) in
        ground (arith, found, old, same)
  ]

  pin_refused :
      (pins : ChainPins) (height depth : ℕ) {e : EnclaveError}
      → (pin pins c height depth).1 ≡ err e
      → (pin pins c height depth).0 ≡ pins
  unfolding pin
  pin_refused pins height depth h = elim (Option-cases (hash_at c height)) [
    | inl missing ↦ rw (missing, pin)
    | inr (hash, found) ↦
        rw (found, pin)
          (pin_hash_refused pins height depth hash (lookup height pins) (rw (found, pin) at h))
  ]

  pin-found :
      (pins : ChainPins) (height depth : ℕ)
      → (pin pins c height depth).1 ≡ ok tt
      → (hash : ℕ) × (hash_at c height ≡ some hash)
  unfolding pin
  pin-found pins height depth h = ground arith

  pub pin-IsPinned_self :
      (pins : ChainPins) (height depth hash : ℕ)
      → hash_at c height ≡ some hash
      → (pin pins c height depth).1 ≡ ok tt
      → IsPinned (pin pins c height depth).0 height hash depth
  pin-IsPinned_self pins height depth hash found h =
      let w = pin-Written pins height depth hash found h in
      record {
        pinned = record { hash = hash; depth = w.kept };
        found = rw w.new_is (inserted pins height (record { hash = hash; depth = w.kept }));
        same = refl;
        deep = w.enough;
      }

  pub pin-IsPinned :
      (pins : ChainPins) (height depth : ℕ) {other hash least : ℕ}
      → IsPinned pins other hash least
      → IsPinned (pin pins c height depth).0 other hash least
  pin-IsPinned pins height depth {other} {hash} {least} p =
      elim (Result-cases (pin pins c height depth).1) [
        | inr (e, refused) ↦ rw (pin_refused pins height depth refused) p
        | inl (u, written) ↦
            let (x, found) = pin-found pins height depth written in
            Written-IsPinned pins height depth x (pin-Written pins height depth x found written) p
      ]
