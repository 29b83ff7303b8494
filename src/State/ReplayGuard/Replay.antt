-- ===== src/State/ReplayGuard/Replay.antt =====
-- What a guard refuses and what it lets through.
use mathlib.Core.Path.{subst}
use enclave_signer.Prelude.{
  ℕ, suc, ◌+◌, ◌-◌, ◌≤◌, ◌<◌, ◌≡◌, ◌≢◌, refl, ap, true, false, some, List, [], ◌∷◌, arith, length,
  drop, All, length-drop, map-drop, ok, err,
}
use enclave_signer.Prelude.Assoc.{
  member, keys, lookup, length-insert-le, keys-remove, member-erase_self, lookup-insert,
}
use enclave_signer.Error.{nonce_replay}
use enclave_signer.State.ReplayGuard.{
  NonceReplayGuard, ReplayReservation, check, any_live, fresh, check_and_record_at, reserve_at,
  drop_reservation, owns,
}
use enclave_signer.State.ReplayGuard.Keys.{
  expired_count, any_live-expired, any_live-member, any_live-snoc, any_live_last, member-drop-false,
}
use enclave_signer.State.ReplayGuard.Record.{
  IsValid, fresh-drop, fresh-Holds, added, replayed, exhausted, recorded, record_in-Recorded,
  check_and_record_at-IsValid, drop_reservation-IsValid,
}

module _ (g : NonceReplayGuard) (v : IsValid g) where
  fresh_live :
      (nonce now later : ℕ)
      → now ≤ later
      → any_live g.ttl later nonce g.inner.order ≡ true
      → any_live g.ttl later nonce (fresh g now).order ≡ true
  fresh_live nonce now later le live =
      rw (ap (λ s. s.order) (fresh-drop g now v))
        (any_live-expired g.ttl now later nonce g.inner.order le live)

  -- On a valid guard, a nonce whose entry is younger than the TTL is refused by the early check and
  -- by the recording, both as a replay.
  pub check_and_record_at_live :
      (nonce now : ℕ)
      → any_live g.ttl now nonce g.inner.order ≡ true
      → (check g nonce now ≡ err nonce_replay)
        × ((check_and_record_at g nonce now).1 ≡ err nonce_replay)
  unfolding check check_and_record_at
  check_and_record_at_live nonce now live =
      let h = fresh-Holds g now v in
      let held : member nonce (keys g.inner.seen) ≡ true =
        rw v.holds.mirrored (any_live-member g.ttl now nonce g.inner.order live) in
      let kept : member nonce (keys (fresh g now).seen) ≡ true = rw h.mirrored (
        any_live-member g.ttl now nonce (fresh g now).order
          (fresh_live nonce now now (omega arith) live)) in
      (rw (held, live), rw kept)

  -- Outside a full guard an entry that is live at a later time is kept by every call up to then.
  pub check_and_record_at_keeps :
      (nonce other now later : ℕ)
      → now ≤ later
      → length g.inner.seen < g.max
      → any_live g.ttl later nonce g.inner.order ≡ true
      → any_live g.ttl later nonce (check_and_record_at g other now).0.inner.order ≡ true
  unfolding check_and_record_at added
  check_and_record_at_keeps nonce other now later le room live =
      let kept = fresh_live nonce now later le live in
      let shorter : length (fresh g now).seen ≤ length g.inner.seen = omega (
        arith,
        ap (λ s. length s.seen) (fresh-drop g now v),
        length-drop (expired_count g.ttl now g.inner.order) g.inner.seen,
      ) in
      let none_dropped : length (fresh g now).seen + 1 - g.max ≡ 0 = omega arith in
      elim (record_in-Recorded g.max other now (fresh g now) v.positive (fresh-Holds g now v)) [
        | replayed _ e ↦ rw e kept
        | exhausted e _ ↦ rw e kept
        | recorded _ e ↦
            rw (e, none_dropped)
              (any_live-snoc g.ttl later nonce (fresh g now).order (now, other) kept)
      ]

  pub length-check_and_record_at :
      (other now : ℕ)
      → length (check_and_record_at g other now).0.inner.seen ≤ suc (length g.inner.seen)
  unfolding check_and_record_at added
  length-check_and_record_at other now =
      let n = expired_count g.ttl now g.inner.order in
      let shorter : length (fresh g now).seen ≤ length g.inner.seen =
        omega (arith, ap (λ s. length s.seen) (fresh-drop g now v), length-drop n g.inner.seen) in
      let room = length (fresh g now).seen + 1 - g.max in
      elim (record_in-Recorded g.max other now (fresh g now) v.positive (fresh-Holds g now v)) [
        | replayed _ e ↦ rw e (omega arith)
        | exhausted e _ ↦ rw e (omega arith)
        | recorded _ e ↦ rw e (
            omega (
              arith,
              length-insert-le other (fresh g now).next_generation (drop room (fresh g now).seen),
              length-drop room (fresh g now).seen,
            ))
      ]

  -- A nonce that was accepted is live until the TTL has passed.
  pub accepted_live :
      (nonce now later : ℕ) {generation : ℕ}
      → (check_and_record_at g nonce now).1 ≡ ok generation
      → later - now < g.ttl
      → any_live g.ttl later nonce (check_and_record_at g nonce now).0.inner.order ≡ true
  unfolding check_and_record_at added
  accepted_live nonce now later h young =
      elim (record_in-Recorded g.max nonce now (fresh g now) v.positive (fresh-Holds g now v)) [
        | replayed _ e ↦ cc e
        | exhausted e _ ↦ cc e
        | recorded _ e ↦ rw e (any_live_last g.ttl later nonce now _ young)
      ]

  -- When nothing of a nonce is held, its recording is not refused as a replay.
  absent_accepted :
      (nonce now : ℕ)
      → member nonce (keys g.inner.seen) ≡ false
      → (check_and_record_at g nonce now).1 ≢ err nonce_replay
  unfolding check_and_record_at
  absent_accepted nonce now absent =
      let n = expired_count g.ttl now g.inner.order in
      let still : member nonce (keys (fresh g now).seen) ≡ false =
        rw (ap (λ s. s.seen) (fresh-drop g now v), map-drop)
          (member-drop-false nonce n (keys g.inner.seen) absent) in
      elim (record_in-Recorded g.max nonce now (fresh g now) v.positive (fresh-Holds g now v)) [
        | replayed held _ ↦ cc (held, still)
        | exhausted e _ ↦ rw e (λ p. cc p)
        | recorded _ e ↦ rw e (λ p. cc p)
      ]

  same_ttl : (nonce now : ℕ) → (check_and_record_at g nonce now).0.ttl ≡ g.ttl
  unfolding check_and_record_at
  same_ttl nonce now = refl

  pub same_max : (nonce now : ℕ) → (check_and_record_at g nonce now).0.max ≡ g.max
  unfolding check_and_record_at
  same_max nonce now = refl

-- The guard after a list of requests, each a nonce with its time, whatever the answers were.
unfoldable pub after_requests : NonceReplayGuard → List (ℕ × ℕ) → NonceReplayGuard
after_requests g [] = g
after_requests g ((nonce, now) ∷ requests) =
    after_requests (check_and_record_at g nonce now).0 requests

-- While the guard has room for the requests, a live entry outlives them.
live_after :
    (g : NonceReplayGuard) (nonce now : ℕ) (requests : List (ℕ × ℕ))
    → IsValid g
    → All (λ r. r.1 ≤ now) requests
    → length g.inner.seen + length requests ≤ g.max
    → any_live g.ttl now nonce g.inner.order ≡ true
    → IsValid (after_requests g requests)
      × (any_live (after_requests g requests).ttl now nonce (after_requests g requests).inner.order
          ≡ true)
unfolding after_requests
live_after g nonce now [] v early room live = (v, live)
live_after g nonce now ((other, at) ∷ requests) v early room live =
    let g' = (check_and_record_at g other at).0 in
    live_after g' nonce now requests (check_and_record_at-IsValid g other at v) early.1
      (omega (arith, length-check_and_record_at g v other at, same_max g v other at))
      (rw same_ttl (check_and_record_at_keeps g v nonce other at now early.0 (omega arith) live))

-- Once a valid guard has accepted a nonce, a second request for it within the TTL is refused as a
-- replay, also after any other requests made up to then, as long as the guard has room for them.
pub replay_refused :
    (g : NonceReplayGuard) (nonce at now : ℕ) (requests : List (ℕ × ℕ)) {generation : ℕ}
    → IsValid g
    → (check_and_record_at g nonce at).1 ≡ ok generation
    → All (λ r. r.1 ≤ now) requests
    → length (check_and_record_at g nonce at).0.inner.seen + length requests ≤ g.max
    → now - at < g.ttl
    → (check_and_record_at (after_requests (check_and_record_at g nonce at).0 requests) nonce now).1
      ≡ err nonce_replay
replay_refused g nonce at now requests v accepted early room young =
    let g' = (check_and_record_at g nonce at).0 in
    let (valid, live) =
      live_after g' nonce now requests (check_and_record_at-IsValid g nonce at v) early
        (omega (arith, room, same_max g v nonce at))
        (rw same_ttl (accepted_live g v nonce at now accepted young)) in
    (check_and_record_at_live (after_requests g' requests) valid nonce now live).1

pub reserve_at-state :
    (g : NonceReplayGuard) (nonce now : ℕ)
    → (reserve_at g nonce now).0 ≡ (check_and_record_at g nonce now).0
unfolding reserve_at
reserve_at-state g nonce now = refl

pub reserved :
    (g : NonceReplayGuard) (nonce now : ℕ) {r : ReplayReservation}
    → (reserve_at g nonce now).1 ≡ ok r
    → ((check_and_record_at g nonce now).1 ≡ ok r.generation)
      × (r.nonce ≡ nonce)
      × (r.committed ≡ false)
unfolding reserve_at
reserved g nonce now h = ground arith

owner :
    (g : NonceReplayGuard) (nonce now : ℕ) {generation : ℕ}
    → IsValid g
    → (check_and_record_at g nonce now).1 ≡ ok generation
    → lookup nonce (check_and_record_at g nonce now).0.inner.seen ≡ some generation
unfolding check_and_record_at added
owner g nonce now v h =
    elim (record_in-Recorded g.max nonce now (fresh g now) v.positive (fresh-Holds g now v)) [
      | replayed _ e ↦ cc e
      | exhausted e _ ↦ cc e
      | recorded _ e ↦ rw e (rw lookup-insert (ground (arith, e)))
    ]

dropped_absent :
    (g : NonceReplayGuard) (r : ReplayReservation)
    → IsValid g
    → lookup r.nonce g.inner.seen ≡ some r.generation
    → r.committed ≡ false
    → member r.nonce (keys (drop_reservation g r).inner.seen) ≡ false
unfolding drop_reservation
dropped_absent g r v owned pending =
    let owning : owns (lookup r.nonce g.inner.seen) r.generation ≡ true = ground arith in
    rw (pending, owning, keys-remove)
      (member-erase_self r.nonce (keys g.inner.seen) v.holds.distinct)

-- On a valid guard, a reservation that is dropped without a commit releases its nonce: a retry is
-- not refused as a replay, at any time.
pub drop_reservation_retry :
    (g : NonceReplayGuard) (nonce now later : ℕ) {r : ReplayReservation}
    → IsValid g
    → (reserve_at g nonce now).1 ≡ ok r
    → (check_and_record_at (drop_reservation (reserve_at g nonce now).0 r) nonce later).1
      ≢ err nonce_replay
drop_reservation_retry g nonce now later {r} v h =
    let (took, same_nonce, pending) = reserved g nonce now h in
    let g' = (check_and_record_at g nonce now).0 in
    let v' = check_and_record_at-IsValid g nonce now v in
    let absent = dropped_absent g' r v' (rw same_nonce (owner g nonce now v took)) pending in
    rw reserve_at-state (
      absent_accepted (drop_reservation g' r) (drop_reservation-IsValid g' r v') nonce later
        (subst (λ k. member k (keys (drop_reservation g' r).inner.seen) ≡ false) same_nonce absent))
