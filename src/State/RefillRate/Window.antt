-- ===== src/State/RefillRate/Window.antt =====
-- The rate limit against its specification over the whole history of admitted refills.
use mathlib.Core.List.{append_assoc}
use enclave_signer.Prelude.{
  ℕ, ◌+◌, ◌-◌, ◌≤◌, ◌<◌, ◌≡◌, refl, ap, ◌∙◌, sym, inl, inr, true, false, List, [], ◌∷◌, ◌++◌,
  length, leb, ltb, if◌then◌else◌, ok, err, arith, All, Bool-cases, All-append, leb→le,
  leb_false→lt,
}
use enclave_signer.Error.{EnclaveResult, cross_check}
use enclave_signer.State.RefillRate.{max_refills_per_hour, window, RefillRateLimit, prune, admit}

-- How many of a history lie in the window that ends at `now`.
abbrev pub in_window : ℕ → List ℕ → ℕ
in_window now [] = 0
in_window now (t ∷ history) = (if ltb (now - t) window then 1 else 0) + in_window now history

-- The specification: it forgets nothing, and admits when fewer than twelve are in the window.
pub admit_spec : List ℕ → ℕ → List ℕ × EnclaveResult (Unit {0})
admit_spec history now =
    if ltb (in_window now history) max_refills_per_hour
    then (history ++ now ∷ [], ok tt)
    else (history, err cross_check)

abbrev IsAscending : List ℕ → Type 0
IsAscending [] = Unit
IsAscending (t ∷ ts) = All (λ u. t ≤ u) ts × IsAscending ts

-- The queue is what is left of the history once a prefix, out of the window by the last call, is
-- forgotten; it ascends and is not ahead of the last call.
pub record Tracks (last : ℕ) (limit : RefillRateLimit) (history : List ℕ) : Type 0 where
  pub gone : List ℕ
  pub split : history ≡ gone ++ limit.admitted
  pub gone_expired : All (λ t. window ≤ last - t) gone
  pub ascending : IsAscending limit.admitted
  pub not_ahead : All (λ t. t ≤ last) limit.admitted

in_window-append :
    (now : ℕ) (xs ys : List ℕ) → in_window now (xs ++ ys) ≡ in_window now xs + in_window now ys
in_window-append now [] ys = omega arith
in_window-append now (x ∷ xs) ys = omega (arith, in_window-append now xs ys)

in_window_expired : (now : ℕ) (xs : List ℕ) → All (λ t. window ≤ now - t) xs → in_window now xs ≡ 0
in_window_expired now [] p = refl
in_window_expired now (x ∷ xs) p = ground (arith, in_window_expired now xs)

expired_later :
    (last now : ℕ) (xs : List ℕ)
    → last ≤ now
    → All (λ t. window ≤ last - t) xs
    → All (λ t. window ≤ now - t) xs
expired_later last now [] le p = tt
expired_later last now (x ∷ xs) le p = (omega (arith, p.0), expired_later last now xs le p.1)

ahead_later :
    (last now : ℕ) (xs : List ℕ) → last ≤ now → All (λ t. t ≤ last) xs → All (λ t. t ≤ now) xs
ahead_later last now [] le p = tt
ahead_later last now (x ∷ xs) le p = (omega (arith, p.0), ahead_later last now xs le p.1)

-- In an ascending queue all that follows a live entry is live.
in_window_live :
    (now t : ℕ) (xs : List ℕ)
    → now - t < window
    → All (λ u. t ≤ u) xs
    → in_window now xs ≡ length xs
in_window_live now t [] h p = refl
in_window_live now t (x ∷ xs) h p = ground (arith, in_window_live now t xs)

-- The loop forgets a prefix that is out of the window, and keeps what is in it.
record Pruned (now : ℕ) (queue rest : List ℕ) : Type 0 where
  cut : List ℕ
  split : queue ≡ cut ++ rest
  expired : All (λ t. window ≤ now - t) cut
  ascending : IsAscending rest
  live : in_window now rest ≡ length rest

prune-Pruned : (now : ℕ) (queue : List ℕ) → IsAscending queue → Pruned now queue (prune now queue)
unfolding prune
prune-Pruned now [] a = record { cut = []; split = refl; expired = tt; ascending = tt; live = refl }
prune-Pruned now (t ∷ queue) a = elim (Bool-cases (leb window (now - t))) [
  | inl e ↦
      let p = prune-Pruned now queue a.1 in
      rw e (record {
        cut = t ∷ p.cut;
        split = ap (◌∷◌ t) p.split;
        expired = (leb→le _ _ e, p.expired);
        ascending = p.ascending;
        live = p.live;
      })
  | inr e ↦
      let young : now - t < window = leb_false→lt _ _ e in
      rw e (record {
        cut = [];
        split = refl;
        expired = tt;
        ascending = a;
        live = ground (arith, in_window_live now t queue young a.0);
      })
]

IsAscending-snoc :
    (now : ℕ) (ts : List ℕ) → IsAscending ts → All (λ t. t ≤ now) ts → IsAscending (ts ++ now ∷ [])
IsAscending-snoc now [] a p = (tt, tt)
IsAscending-snoc now (t ∷ ts) a p =
    (All-append (λ u. t ≤ u) ts (now ∷ []) a.0 (p.0, tt), IsAscending-snoc now ts a.1 p.1)

All-split {ℓ} : {A : Type ℓ} (P : A → Type 0) (xs ys : List A) → All P (xs ++ ys) → All P ys
All-split P [] ys p = p
All-split P (x ∷ xs) ys p = All-split P xs ys p.1

module _ (limit : RefillRateLimit) (history : List ℕ) (last now : ℕ) (t : Tracks last limit history)
    (le : last ≤ now) where
  abbrev pruned : Pruned now limit.admitted (prune now limit.admitted)
  pruned = prune-Pruned now limit.admitted t.ascending

  -- What the queue holds after the loop is what the history has in the window.
  in_window-prune : in_window now history ≡ length (prune now limit.admitted)
  in_window-prune = omega (
    arith,
    ap (in_window now) t.split,
    in_window-append now t.gone limit.admitted,
    in_window_expired now t.gone (expired_later last now t.gone le t.gone_expired),
    ap (in_window now) pruned.split,
    in_window-append now pruned.cut (prune now limit.admitted),
    in_window_expired now pruned.cut pruned.expired,
    pruned.live,
  )

  rest_not_ahead : All (λ u. u ≤ now) (prune now limit.admitted)
  rest_not_ahead =
      All-split (λ u. u ≤ now) pruned.cut (prune now limit.admitted)
        (rw (← pruned.split) (ahead_later last now limit.admitted le t.not_ahead))

  tracks_pruned : Tracks now (record { admitted = prune now limit.admitted }) history
  tracks_pruned = record {
    gone = t.gone ++ pruned.cut;
    split =
        t.split
        ∙ ap (λ l. t.gone ++ l) pruned.split
        ∙ sym (append_assoc t.gone pruned.cut (prune now limit.admitted));
    gone_expired =
        All-append _ t.gone pruned.cut (expired_later last now t.gone le t.gone_expired)
          pruned.expired;
    ascending = pruned.ascending;
    not_ahead = rest_not_ahead;
  }

  tracks_admitted :
      Tracks now (record { admitted = prune now limit.admitted ++ now ∷ [] }) (history ++ now ∷ [])
  unfolding tracks_pruned
  tracks_admitted = record {
    gone = t.gone ++ pruned.cut;
    split =
        ap (λ l. l ++ now ∷ []) tracks_pruned.split
        ∙ append_assoc (t.gone ++ pruned.cut) (prune now limit.admitted) (now ∷ []);
    gone_expired = tracks_pruned.gone_expired;
    ascending = IsAscending-snoc now (prune now limit.admitted) pruned.ascending rest_not_ahead;
    not_ahead = All-append _ (prune now limit.admitted) (now ∷ []) rest_not_ahead (omega arith, tt);
  }

  admit-Tracks :
      ((admit limit now).1 ≡ (admit_spec history now).1)
      × Tracks now (admit limit now).0 (admit_spec history now).0
  unfolding admit admit_spec
  admit-Tracks = elim (Bool-cases (leb max_refills_per_hour (length (prune now limit.admitted)))) [
    | inl e ↦
        let full : ltb (in_window now history) max_refills_per_hour ≡ false =
          ground (arith, in_window-prune) in
        rw (e, full) (refl, tracks_pruned)
    | inr e ↦
        let room : ltb (in_window now history) max_refills_per_hour ≡ true =
          ground (arith, in_window-prune) in
        rw (e, room) (refl, tracks_admitted)
  ]

-- The answers to a list of calls, each at its time.
unfoldable pub answers : RefillRateLimit → List ℕ → List (EnclaveResult (Unit {0}))
answers limit [] = []
answers limit (now ∷ calls) = (admit limit now).1 ∷ answers (admit limit now).0 calls

unfoldable pub spec_answers : List ℕ → List ℕ → List (EnclaveResult (Unit {0}))
spec_answers history [] = []
spec_answers history (now ∷ calls) =
    (admit_spec history now).1 ∷ spec_answers (admit_spec history now).0 calls

answers_track :
    (limit : RefillRateLimit) (history : List ℕ) (last : ℕ) (calls : List ℕ)
    → Tracks last limit history
    → IsAscending (last ∷ calls)
    → answers limit calls ≡ spec_answers history calls
unfolding answers spec_answers
answers_track limit history last [] t a = refl
answers_track limit history last (now ∷ calls) t a =
    let (same, t') = admit-Tracks limit history last now t a.0.0 in
    λ i. same i ∷ answers_track (admit limit now).0 (admit_spec history now).0 now calls t' a.1 i

from_zero : (ts : List ℕ) → All (λ u. 0 ≤ u) ts
from_zero [] = tt
from_zero (t ∷ ts) = (omega arith, from_zero ts)

-- From a fresh limit and for calls in ascending order of time, each call is answered as the
-- specification over the whole history answers it: admitted exactly when fewer than twelve refills
-- were admitted in the hour that ends at the call.
pub answers_refine :
    (calls : List ℕ)
    → IsAscending calls
    → answers (record { admitted = [] }) calls ≡ spec_answers [] calls
answers_refine calls a =
    answers_track (record { admitted = [] }) [] 0 calls
      (record { gone = []; split = refl; gone_expired = tt; ascending = tt; not_ahead = tt })
      (from_zero calls, a)
