-- ===== src/State/ReplayGuard/Keys.antt =====
-- The map and the queue of a guard hold the same keys, and both evictions drop a prefix of each.
use enclave_signer.Prelude.{
  ℕ, zero, suc, ◌+◌, ◌-◌, ◌≤◌, ◌<◌, ◌≡◌, refl, inl, inr, true, false, List, [], ◌∷◌, ◌++◌, map,
  arith, length, drop, leb, if◌then◌else◌, Bool-cases, leb→le, leb_false→lt,
}
use enclave_signer.Prelude.Assoc.{member, Distinct, keys, remove}
use enclave_signer.State.ReplayGuard.{evict_expired, evict_oldest, any_live}

abbrev pub queue : List (ℕ × ℕ) → List ℕ
queue = map (λ e. e.1)

-- How many entries at the front of the queue have expired.
pub expired_count : ℕ → ℕ → List (ℕ × ℕ) → ℕ
expired_count ttl now [] = 0
expired_count ttl now ((seen_at, old) ∷ order) =
    let rest = expired_count ttl now order in if leb ttl (now - seen_at) then suc rest else 0

remove_head : (j k g : ℕ) (seen : List (ℕ × ℕ)) → j ≡ k → remove k ((j, g) ∷ seen) ≡ seen
unfolding remove
remove_head j k g seen e = ground arith

pub evict_expired-drop :
    (ttl now : ℕ) (seen order : List (ℕ × ℕ))
    → keys seen ≡ queue order
    → evict_expired ttl now seen order
      ≡ (drop (expired_count ttl now order) seen, drop (expired_count ttl now order) order)
unfolding evict_expired expired_count
evict_expired-drop ttl now seen [] m = refl
evict_expired-drop ttl now [] ((t, k) ∷ order) m = cc
evict_expired-drop ttl now ((j, g) ∷ seen) ((t, k) ∷ order) m =
    elim (Bool-cases (leb ttl (now - t))) [
      | inl e ↦
          rw (e, remove_head j k g seen (ground arith))
            (evict_expired-drop ttl now seen order (ground arith))
      | inr e ↦ rw e
    ]

pub evict_oldest-drop :
    (max : ℕ) (seen order : List (ℕ × ℕ))
    → 0 < max
    → keys seen ≡ queue order
    → evict_oldest max seen order
      ≡ (drop (length seen + 1 - max) seen, drop (length seen + 1 - max) order)
unfolding evict_oldest
evict_oldest-drop max [] [] pos m = let none : 0 + 1 - max ≡ 0 = omega arith in rw none
evict_oldest-drop max (e ∷ seen) [] pos m = cc
evict_oldest-drop max [] ((t, k) ∷ order) pos m = cc
evict_oldest-drop max ((j, g) ∷ seen) ((t, k) ∷ order) pos m =
    elim (Bool-cases (leb max (suc (length seen)))) [
      | inl e ↦
          let more : suc (length seen) + 1 - max ≡ suc (length seen + 1 - max) =
            omega (arith, leb→le _ _ e) in
          rw (e, more, remove_head j k g seen (ground arith))
            (evict_oldest-drop max seen order pos (ground arith))
      | inr e ↦
          let none : suc (length seen) + 1 - max ≡ 0 = omega (arith, leb_false→lt _ _ e) in
          rw (e, none)
    ]

pub Distinct-drop : (n : ℕ) (js : List ℕ) → Distinct js → Distinct (drop n js)
Distinct-drop zero js d = d
Distinct-drop (suc n) [] d = tt
Distinct-drop (suc n) (j ∷ js) d = Distinct-drop n js d.1

pub member-drop-false : (k n : ℕ) (js : List ℕ) → member k js ≡ false → member k (drop n js) ≡ false
member-drop-false k zero js h = h
member-drop-false k (suc n) [] h = refl
member-drop-false k (suc n) (j ∷ js) h = member-drop-false k n js (ground arith)

-- What is live is not among the entries that have expired, even some time earlier.
pub any_live-expired :
    (ttl now later nonce : ℕ) (order : List (ℕ × ℕ))
    → now ≤ later
    → any_live ttl later nonce order ≡ true
    → any_live ttl later nonce (drop (expired_count ttl now order) order) ≡ true
unfolding any_live expired_count
any_live-expired ttl now later nonce [] le h = h
any_live-expired ttl now later nonce ((t, k) ∷ order) le h = elim (Bool-cases (leb ttl (now - t))) [
  | inl e ↦ rw e (any_live-expired ttl now later nonce order le (ground arith))
  | inr e ↦ rw e h
]

pub any_live-member :
    (ttl now nonce : ℕ) (order : List (ℕ × ℕ))
    → any_live ttl now nonce order ≡ true
    → member nonce (queue order) ≡ true
unfolding any_live
any_live-member ttl now nonce [] h = cc
any_live-member ttl now nonce ((t, k) ∷ order) h =
    ground (arith, any_live-member ttl now nonce order)

pub any_live-snoc :
    (ttl now nonce : ℕ) (order : List (ℕ × ℕ)) (e : ℕ × ℕ)
    → any_live ttl now nonce order ≡ true
    → any_live ttl now nonce (order ++ e ∷ []) ≡ true
unfolding any_live
any_live-snoc ttl now nonce [] e h = cc
any_live-snoc ttl now nonce ((t, k) ∷ order) e h =
    ground (arith, any_live-snoc ttl now nonce order e)

pub any_live_last :
    (ttl now nonce t : ℕ) (order : List (ℕ × ℕ))
    → now - t < ttl
    → any_live ttl now nonce (order ++ (t, nonce) ∷ []) ≡ true
unfolding any_live
any_live_last ttl now nonce t [] h = ground arith
any_live_last ttl now nonce t ((s, k) ∷ order) h =
    ground (arith, any_live_last ttl now nonce t order)
