-- ===== src/State/ResultCache/Put.antt =====
-- The invariant of the result cache, and that `put_at` keeps it.
use enclave_signer.Prelude.{
  ℕ, suc, ◌≤◌, ◌<◌, ◌≡◌, refl, ap, ◌∙◌, inl, inr, false, not, ◌&&◌, List, [], ◌∷◌, ◌++◌, arith,
  length, ltb, Bool-cases, length-map,
}
use enclave_signer.Prelude.Assoc.{
  member, erase, Distinct, keys, lookup, remove, keys-remove, keys-insert_new, erase-Distinct,
  member-erase_self, length-erase-le, length-insert-le, Distinct-snoc, erase_absent,
}
use enclave_signer.State.ResultCache.{
  Entry, SignedResultCache, retain_ne, is_expired, evict, forget, put_at,
}

module _ {R : Type 0} where
  pub record Agree (map : List (ℕ × Entry R)) (order : List ℕ) : Type 0 where
    pub same : keys map ≡ order
    pub distinct : Distinct order

  -- The map and the queue hold the same keys in the same order, each once, and there are no more
  -- than the positive limit.
  pub record IsValid (c : SignedResultCache R) : Type 0 where
    pub positive : 0 < c.max
    pub agree : Agree c.map c.order
    pub bounded : length c.map ≤ c.max

retain-erase : (k : ℕ) (order : List ℕ) → Distinct order → retain_ne k order ≡ erase k order
unfolding retain_ne
retain-erase k [] d = refl
retain-erase k (j ∷ order) d = ground (arith, retain-erase k order, erase_absent k order)

module _ {R : Type 0} where
  -- What is forgotten is gone from both.
  pub forget_lem :
      (k : ℕ) (map : List (ℕ × Entry R)) (order : List ℕ)
      → Agree map order
      → Agree (forget k map order).0 (forget k map order).1
        × (member k (forget k map order).1 ≡ false)
        × (length (forget k map order).0 ≤ length map)
  unfolding forget
  forget_lem k map order a = elim (Bool-cases (member k (keys map))) [
    | inl e ↦
        rw (e, retain-erase k order a.distinct)
          (
            record {
              same = keys-remove k map ∙ ap (erase k) a.same;
              distinct = erase-Distinct k order a.distinct;
            },
            member-erase_self k order a.distinct,
            omega (
              arith,
              ap length (keys-remove k map),
              length-erase-le k (keys map),
              length-map (λ e. e.0) map,
              length-map (λ e. e.0) (remove k map),
            ),
          )
    | inr e ↦ rw e (a, rw a.same at e, omega arith)
  ]

  pub Agree-tail :
      {j k : ℕ} {e : Entry R} (map : List (ℕ × Entry R)) (order : List ℕ)
      → Agree ((j, e) ∷ map) (k ∷ order)
      → (remove k ((j, e) ∷ map) ≡ map) × Agree map order
  unfolding remove
  Agree-tail map order a =
      (ground (arith, a.same), record { same = ground (arith, a.same); distinct = a.distinct.1 })

  -- The eviction keeps the agreement and makes room.
  pub evict_lem :
      (max ttl now k : ℕ) (map : List (ℕ × Entry R)) (order : List ℕ)
      → 0 < max
      → Agree map order
      → member k order ≡ false
      → Agree (evict max ttl now map order).0 (evict max ttl now map order).1
        × (member k (evict max ttl now map order).1 ≡ false)
        × (length (evict max ttl now map order).0 < max)
  unfolding evict
  evict_lem max ttl now k [] [] pos a m = (a, m, pos)
  evict_lem max ttl now k (e ∷ map) [] pos a m = cc (a.same)
  evict_lem max ttl now k [] (j ∷ order) pos a m = cc (a.same)
  evict_lem max ttl now k ((j, e) ∷ map) (i ∷ order) pos a m =
      elim (Bool-cases
        (not (is_expired ttl now (lookup i ((j, e) ∷ map))) && ltb (suc (length map)) max)) [
          | inl stop ↦ rw stop (a, m, ground arith)
          | inr go ↦
              let (tail, a') = Agree-tail map order a in
              rw (go, tail) (evict_lem max ttl now k map order pos a' (ground arith))
        ]

  -- Storing a reply keeps the cache valid: the map and the queue agree, no key is held twice, and
  -- the cache stays within its limit.
  pub put_at-IsValid :
      (c : SignedResultCache R) (op_key request : ℕ) (response : R) (now : ℕ)
      → IsValid c
      → IsValid (put_at c op_key request response now)
  unfolding put_at
  put_at-IsValid c op_key request response now v =
      let f = forget op_key c.map c.order in
      let (a, absent, _) = forget_lem op_key c.map c.order v.agree in
      let kept = evict c.max c.ttl now f.0 f.1 in
      let (a', absent', room) = evict_lem c.max c.ttl now op_key f.0 f.1 v.positive a absent in
      let entry : Entry R = record { at = now; request = request; response = response } in
      record {
        positive = v.positive;
        agree = record {
          same =
              keys-insert_new op_key entry kept.0 (rw a'.same absent')
              ∙ ap (λ l. l ++ op_key ∷ []) a'.same;
          distinct = Distinct-snoc op_key kept.1 a'.distinct absent';
        };
        bounded = omega (arith, length-insert-le op_key entry kept.0, room);
      }
