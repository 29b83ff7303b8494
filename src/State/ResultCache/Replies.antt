-- ===== src/State/ResultCache/Replies.antt =====
-- What the cache answers after a reply was stored.
use enclave_signer.Prelude.{
  ℕ, ◌-◌, ◌≤◌, ◌<◌, ◌≡◌, ◌≢◌, refl, ◌∙◌, inl, inr, true, false, not, ◌&&◌, List, [], ◌∷◌, arith,
  some, none, length, ltb, leb, leb→le, suc, ◌==◌, if◌then◌else◌, Bool-cases, Option,
}
use enclave_signer.Prelude.Assoc.{member, keys, lookup, lookup-insert, lookup-remove_ne}
use enclave_signer.State.ResultCache.{
  Entry, SignedResultCache, is_expired, evict, forget, put_at, get_at, answer,
}
use enclave_signer.State.ResultCache.Put.{Agree, IsValid, forget_lem, Agree-tail}

module _ {R : Type 0} where
  -- After a reply is stored, its key is answered with that reply exactly for the request that made
  -- it and until the TTL has passed; for any other request, or later, there is no answer.
  pub get_at-put_at_self :
      (c : SignedResultCache R) (op_key request : ℕ) (response : R) (stored asked now : ℕ)
      → get_at (put_at c op_key request response stored) op_key asked now
        ≡ (if ltb (now - stored) c.ttl && request == asked then some response else none)
  unfolding get_at put_at
  get_at-put_at_self c op_key request response stored asked now =
      let f = forget op_key c.map c.order in
      let kept = evict c.max c.ttl stored f.0 f.1 in
      let entry : Entry R = record { at = stored; request = request; response = response } in
      let itself : (op_key == op_key) ≡ true = ground arith in
      rw (lookup-insert op_key op_key entry kept.0, itself)

  lookup-forget :
      (k j : ℕ) (map : List (ℕ × Entry R)) (order : List ℕ)
      → k ≢ j
      → lookup j (forget k map order).0 ≡ lookup j map
  unfolding forget
  lookup-forget k j map order ne = elim (Bool-cases (member k (keys map))) [
    | inl e ↦ rw e (lookup-remove_ne k j map ne)
    | inr e ↦ rw e
  ]

  -- With room, the first entry is popped only when it has expired.
  first_expired :
      (max ttl now h i : ℕ) (d : Entry R) (map : List (ℕ × Entry R)) (order : List ℕ)
      → Agree ((h, d) ∷ map) (i ∷ order)
      → suc (length map) < max
      → (not (is_expired ttl now (lookup i ((h, d) ∷ map))) && ltb (suc (length map)) max) ≡ false
      → leb ttl (now - d.at) ≡ true
  unfolding lookup
  first_expired max ttl now h i d map order a room go = ground (arith, a.same)

  -- An entry that is live later is not the expired first one.
  past_first :
      (ttl now later j h : ℕ) (d : Entry R) (map : List (ℕ × Entry R)) {e : Entry R}
      → leb ttl (now - d.at) ≡ true
      → now ≤ later
      → lookup j ((h, d) ∷ map) ≡ some e
      → later - e.at < ttl
      → lookup j map ≡ some e
  unfolding lookup
  past_first ttl now later j h d map {e} expired le found live = elim (Bool-cases (h == j)) [
    | inl here ↦
        let same : d.at ≡ e.at = ground (arith, rw here at found) in
        absurd (omega (arith, leb→le _ _ expired, same))
    | inr past ↦ rw past at found
  ]

  -- With room in the cache the eviction keeps every entry that is live later.
  lookup-evict :
      (max ttl now later j : ℕ) (map : List (ℕ × Entry R)) (order : List ℕ) {e : Entry R}
      → Agree map order
      → length map < max
      → now ≤ later
      → lookup j map ≡ some e
      → later - e.at < ttl
      → lookup j (evict max ttl now map order).0 ≡ some e
  unfolding evict
  lookup-evict max ttl now later j [] [] a room le found live = found
  lookup-evict max ttl now later j (d ∷ map) [] a room le found live = found
  lookup-evict max ttl now later j [] (i ∷ order) a room le found live = cc (a.same)
  lookup-evict max ttl now later j ((h, d) ∷ map) (i ∷ order) {e} a room le found live =
      elim (Bool-cases
        (not (is_expired ttl now (lookup i ((h, d) ∷ map))) && ltb (suc (length map)) max)) [
          | inl stop ↦ rw stop found
          | inr go ↦
              let (tail, a') = Agree-tail map order a in
              let first = first_expired max ttl now h i d map order a room go in
              rw (go, tail)
                (lookup-evict max ttl now later j map order a' (omega (arith, room)) le
                  (past_first ttl now later j h d map first le found live) live)
        ]

  answer-some :
      (ttl request now : ℕ) (o : Option (Entry R)) {r : R}
      → answer ttl request now o ≡ some r
      → (e : Entry R) × (o ≡ some e) × (now - e.at < ttl)
  answer-some ttl request now none h = cc
  answer-some ttl request now (some e) h = (e, refl, ground arith)

  -- While a valid cache has room, storing a reply for one key takes no answer away from another:
  -- what the other key is answered at that time or later, it is answered after the store too.
  pub get_at-put_at_ne :
      (c : SignedResultCache R) (op_key other request asked : ℕ) (response r : R) (stored now : ℕ)
      → IsValid c
      → op_key ≢ other
      → length c.map < c.max
      → stored ≤ now
      → get_at c other asked now ≡ some r
      → get_at (put_at c op_key request response stored) other asked now ≡ some r
  unfolding get_at put_at
  get_at-put_at_ne c op_key other request asked response r stored now v ne room le h =
      let (a, _, shorter) = forget_lem op_key c.map c.order v.agree in
      let f = forget op_key c.map c.order in
      let (e, found, live) = answer-some c.ttl asked now (lookup other c.map) h in
      let kept = evict c.max c.ttl stored f.0 f.1 in
      let entry : Entry R = record { at = stored; request = request; response = response } in
      let there : lookup other kept.0 ≡ some e =
        lookup-evict c.max c.ttl stored now other f.0 f.1 a (omega (arith, shorter)) le
          (lookup-forget op_key other c.map c.order ne ∙ found) live in
      let another : (op_key == other) ≡ false = ground arith in
      rw (lookup-insert op_key other entry kept.0, another, there) (rw found at h)
