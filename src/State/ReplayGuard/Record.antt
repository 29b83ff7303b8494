-- ===== src/State/ReplayGuard/Record.antt =====
-- The invariant of a guard, and that every call keeps it.
use mathlib.Core.List.{map-append}
use enclave_signer.Prelude.{
  ℕ, ◌+◌, ◌-◌, ◌≤◌, ◌<◌, ◌≡◌, refl, sym, ap, inl, inr, true, false, List, [], ◌∷◌, ◌++◌, arith,
  length, drop, All, leb, ◌==◌, Bool-cases, length-drop, map-drop, length-map, All-drop,
  length-append, ok, err, leb→le,
}
use enclave_signer.Prelude.Assoc.{
  member, erase, Distinct, keys, insert, remove, lookup, keys-insert_new, Distinct-snoc,
  keys-remove, erase-Distinct, length-erase-le,
}
use enclave_signer.Error.{nonce_replay, internal}
use enclave_signer.State.ReplayGuard.{
  GuardState, NonceReplayGuard, ReplayReservation, with_capacity, record_in, fresh,
  check_and_record_at, remove_nonce, drop_reservation, u64_max, owns,
}
use enclave_signer.State.ReplayGuard.Keys.{
  queue, expired_count, evict_expired-drop, evict_oldest-drop, Distinct-drop, member-drop-false,
}

pub record Holds (max : ℕ) (g : GuardState) : Type 0 where
  pub mirrored : keys g.seen ≡ queue g.order
  pub distinct : Distinct (keys g.seen)
  pub older : All (λ e. e.1 < g.next_generation) g.seen
  pub bounded : length g.seen ≤ max

-- The map and the queue hold the same keys in the same order, each once; each generation was
-- handed out before; and the guard is no larger than its positive limit.
pub record IsValid (g : NonceReplayGuard) : Type 0 where
  pub positive : 0 < g.max
  pub holds : Holds g.max g.inner

drop-Holds :
    (max n : ℕ) (g : GuardState)
    → Holds max g
    → Holds max (record {
      seen = drop n g.seen;
      next_generation = g.next_generation;
      order = drop n g.order;
    })
drop-Holds max n g h = record {
  mirrored = rw (map-drop, h.mirrored) (sym (map-drop (λ (e : ℕ × ℕ). e.1) n g.order));
  distinct = rw map-drop (Distinct-drop n (keys g.seen) h.distinct);
  older = All-drop _ n g.seen h.older;
  bounded = omega (arith, length-drop n g.seen, h.bounded);
}

pub fresh-drop :
    (g : NonceReplayGuard) (now : ℕ)
    → IsValid g
    → fresh g now ≡ record {
      seen = drop (expired_count g.ttl now g.inner.order) g.inner.seen;
      next_generation = g.inner.next_generation;
      order = drop (expired_count g.ttl now g.inner.order) g.inner.order;
    }
unfolding fresh
fresh-drop g now v = rw (evict_expired-drop g.ttl now g.inner.seen g.inner.order v.holds.mirrored)

pub fresh-Holds : (g : NonceReplayGuard) (now : ℕ) → IsValid g → Holds g.max (fresh g now)
fresh-Holds g now v =
    rw (fresh-drop g now v)
      (drop-Holds g.max (expired_count g.ttl now g.inner.order) g.inner v.holds)

older_weaken : (n : ℕ) (m : List (ℕ × ℕ)) → All (λ e. e.1 < n) m → All (λ e. e.1 < n + 1) m
older_weaken n [] p = tt
older_weaken n (e ∷ m) p = (omega (arith, p.0), older_weaken n m p.1)

All-older-insert :
    (k n : ℕ) (m : List (ℕ × ℕ)) → All (λ e. e.1 < n) m → All (λ e. e.1 < n + 1) (insert k n m)
unfolding insert
All-older-insert k n [] h = (omega arith, tt)
All-older-insert k n ((j, w) ∷ m) h = elim (Bool-cases (j == k)) [
  | inl e ↦ rw e (omega arith, older_weaken n m h.1)
  | inr e ↦ rw e (omega arith, All-older-insert k n m h.1)
]

-- The entry that `record_in` adds, over the room that it has made.
unfoldable pub added : ℕ → ℕ → ℕ → GuardState → GuardState
added max nonce now g =
    let n = length g.seen + 1 - max in
    record {
      seen = insert nonce g.next_generation (drop n g.seen);
      next_generation = g.next_generation + 1;
      order = drop n g.order ++ (now, nonce) ∷ [];
    }

-- Refused, and nothing is written; or the nonce is new, and added.
pub data Recorded (max nonce now : ℕ) (g : GuardState) : Type 0 where
  replayed :
      member nonce (keys g.seen) ≡ true
      → record_in max nonce now g ≡ (g, err nonce_replay)
      → Recorded max nonce now g
  exhausted :
      record_in max nonce now g ≡ (g, err internal)
      → u64_max ≤ g.next_generation
      → Recorded max nonce now g
  recorded :
      member nonce (keys g.seen) ≡ false
      → record_in max nonce now g ≡ (added max nonce now g, ok g.next_generation)
      → Recorded max nonce now g

pub record_in-Recorded :
    (max nonce now : ℕ) (g : GuardState) → 0 < max → Holds max g → Recorded max nonce now g
unfolding record_in added
record_in-Recorded max nonce now g pos h = elim (Bool-cases (member nonce (keys g.seen))) [
  | inl e ↦ replayed e (rw e)
  | inr e ↦ elim (Bool-cases (leb u64_max g.next_generation)) [
    | inl f ↦ exhausted (rw (e, f)) (leb→le _ _ f)
    | inr f ↦ recorded e (rw (e, f, evict_oldest-drop max g.seen g.order pos h.mirrored))
  ]
]

added-Holds :
    (max nonce now : ℕ) (g : GuardState)
    → 0 < max
    → Holds max g
    → member nonce (keys g.seen) ≡ false
    → Holds max (added max nonce now g)
unfolding added
added-Holds max nonce now g pos h new =
    let n = length g.seen + 1 - max in
    let d = drop-Holds max n g h in
    let absent : member nonce (keys (drop n g.seen)) ≡ false =
      rw map-drop (member-drop-false nonce n (keys g.seen) new) in
    let inserted = keys-insert_new nonce g.next_generation (drop n g.seen) absent in
    record {
      mirrored = rw (inserted, map-append, d.mirrored);
      distinct = rw inserted (Distinct-snoc nonce (keys (drop n g.seen)) d.distinct absent);
      older = All-older-insert nonce g.next_generation (drop n g.seen) d.older;
      bounded = omega (
        arith,
        ap length inserted,
        length-map (λ e. e.0) (insert nonce g.next_generation (drop n g.seen)),
        length-map (λ e. e.0) (drop n g.seen),
        length-append (keys (drop n g.seen)) (nonce ∷ []),
        length-drop n g.seen,
        h.bounded,
      );
    }

-- Whatever it answers, `check_and_record_at` keeps a guard valid: the map and the queue agree, no
-- key is held twice, every generation held is older than the next one, and the guard stays within
-- its limit.
pub check_and_record_at-IsValid :
    (g : NonceReplayGuard) (nonce now : ℕ) → IsValid g → IsValid (check_and_record_at g nonce now).0
unfolding check_and_record_at
check_and_record_at-IsValid g nonce now v =
    let h = fresh-Holds g now v in
    record {
      positive = v.positive;
      holds = elim (record_in-Recorded g.max nonce now (fresh g now) v.positive h) [
        | replayed _ e ↦ rw e h
        | exhausted e _ ↦ rw e h
        | recorded new e ↦ rw e (added-Holds g.max nonce now (fresh g now) v.positive h new)
      ];
    }

pub with_capacity-IsValid : (max ttl : ℕ) → 0 < max → IsValid (with_capacity max ttl)
unfolding with_capacity
with_capacity-IsValid max ttl pos = record {
  positive = pos;
  holds = record { mirrored = refl; distinct = tt; older = tt; bounded = omega arith };
}

queue-remove_nonce :
    (k : ℕ) (order : List (ℕ × ℕ)) → queue (remove_nonce k order) ≡ erase k (queue order)
unfolding remove_nonce
queue-remove_nonce k [] = refl
queue-remove_nonce k ((t, j) ∷ order) = ground (arith, queue-remove_nonce k order)

All-remove : (n k : ℕ) (m : List (ℕ × ℕ)) → All (λ e. e.1 < n) m → All (λ e. e.1 < n) (remove k m)
unfolding remove
All-remove n k [] h = tt
All-remove n k ((j, w) ∷ m) h = ground (arith, All-remove n k m)

abbrev removed : NonceReplayGuard → ReplayReservation → GuardState
removed g r = record (g.inner) {
  seen = remove r.nonce g.inner.seen;
  order = remove_nonce r.nonce g.inner.order;
}

removed-Holds :
    (g : NonceReplayGuard) (r : ReplayReservation) → Holds g.max g.inner → Holds g.max (removed g r)
removed-Holds g r h = record {
  mirrored = rw (keys-remove, h.mirrored) (sym (queue-remove_nonce r.nonce g.inner.order));
  distinct = rw keys-remove (erase-Distinct r.nonce (keys g.inner.seen) h.distinct);
  older = All-remove g.inner.next_generation r.nonce g.inner.seen h.older;
  bounded = omega (
    arith,
    ap length (keys-remove r.nonce g.inner.seen),
    length-map (λ e. e.0) (remove r.nonce g.inner.seen),
    length-map (λ e. e.0) g.inner.seen,
    length-erase-le r.nonce (keys g.inner.seen),
    h.bounded,
  );
}

-- Dropping a reservation, committed or not, keeps a guard valid.
pub drop_reservation-IsValid :
    (g : NonceReplayGuard) (r : ReplayReservation) → IsValid g → IsValid (drop_reservation g r)
unfolding drop_reservation
drop_reservation-IsValid g r v =
    let kept = removed-Holds g r v.holds in
    elim (Bool-cases r.committed) [
      | inl e ↦ rw e v
      | inr e ↦ elim (Bool-cases (owns (lookup r.nonce g.inner.seen) r.generation)) [
        | inl f ↦ rw (e, f) (record { positive = v.positive; holds = kept })
        | inr f ↦ rw (e, f) v
      ]
    ]
