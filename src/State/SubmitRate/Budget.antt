-- ===== src/State/SubmitRate/Budget.antt =====
-- The budget of a window.
use enclave_signer.Prelude.{
  ℕ, ◌+◌, ◌-◌, ◌≤◌, ◌<◌, ◌≡◌, ◌↔◌, ◌⊎◌, inl, inr, Option, none, some, List, [], ◌∷◌, All, true,
  arith, if◌then◌else◌, ok, err, refl,
}
use enclave_signer.Error.{EnclaveResult}
use enclave_signer.State.SubmitRate.{
  SubmitRateLimiter, max_headers_per_rate_window, default, resets, check,
}

-- The headers that count against a call: none if the window resets at it.
abbrev pub used : SubmitRateLimiter → ℕ → ℕ
used l now = if resets l.window_start now then 0 else l.headers_in_window

-- A call is accepted exactly when its headers fit in what is left of the budget of the window.
pub check_iff :
    (l : SubmitRateLimiter) (count now : ℕ)
    → ((check l count now).1 ≡ ok tt) ↔ (used l now + count ≤ max_headers_per_rate_window)
unfolding check
check_iff l count now = (λ h. ground arith, λ h. ground arith)

-- A call is the number of its headers and its time.
unfoldable pub run : SubmitRateLimiter → List (ℕ × ℕ) → SubmitRateLimiter
run l [] = l
run l (call ∷ calls) = run (check l call.0 call.1).0 calls

abbrev pub accepted : EnclaveResult (Unit {0}) → ℕ → ℕ
accepted (ok u) count = count
accepted (err e) count = 0

-- The headers of the calls that are accepted.
unfoldable pub admitted : SubmitRateLimiter → List (ℕ × ℕ) → ℕ
admitted l [] = 0
admitted l (call ∷ calls) =
    accepted (check l call.0 call.1).1 call.0 + admitted (check l call.0 call.1).0 calls

-- The times of the window that begins at `start`, and when a call begins one: it is the first, the
-- clock went back, or the last window began a whole window before.
abbrev pub IsWithin : ℕ → ℕ → Type 0
IsWithin start now = (start ≤ now) × (now < start + 60)

abbrev pub Begins : Option ℕ → ℕ → Type 0
Begins none now = Unit
Begins (some start) now = (now < start) ⊎ (start + 60 ≤ now)

stays :
    (l : SubmitRateLimiter) (start count now : ℕ)
    → l.window_start ≡ some start
    → IsWithin start now
    → ((check l count now).0.window_start ≡ some start)
      × (accepted (check l count now).1 count
            + (max_headers_per_rate_window - (check l count now).0.headers_in_window)
          ≤ max_headers_per_rate_window - l.headers_in_window)
unfolding check resets
stays l start count now opened w = (ground arith, ground arith)

-- Within a window, the headers admitted fit in what is left of the budget.
within_budget :
    (l : SubmitRateLimiter) (start : ℕ) (calls : List (ℕ × ℕ))
    → l.window_start ≡ some start
    → All (λ call. IsWithin start call.1) calls
    → admitted l calls ≤ max_headers_per_rate_window - l.headers_in_window
unfolding admitted
within_budget l start [] opened within = omega arith
within_budget l start ((count, now) ∷ calls) opened within =
    let l' = (check l count now).0 in
    let (still, counts) = stays l start count now opened within.0 in
    omega (arith, within_budget l' start calls still within.1, counts)

Begins-resets : (start : Option ℕ) (now : ℕ) → Begins start now → resets start now ≡ true
unfolding resets
Begins-resets none now b = refl
Begins-resets (some start) now (inl back) = ground arith
Begins-resets (some start) now (inr over) = ground arith

begins :
    (l : SubmitRateLimiter) (count start : ℕ)
    → Begins l.window_start start
    → ((check l count start).0.window_start ≡ some start)
      × (accepted (check l count start).1 count
            + (max_headers_per_rate_window - (check l count start).0.headers_in_window)
          ≤ max_headers_per_rate_window)
      × (((check l count start).1 ≡ ok tt) ↔ (count ≤ max_headers_per_rate_window))
unfolding check
begins l count start b =
    let reset = Begins-resets l.window_start start b in
    (ground arith, ground arith, (λ h. ground arith, λ h. ground arith))

-- Whatever the calls before, a call that is the first, that comes after the clock went back, or that
-- comes 60 seconds or more after its window began, begins a window with the whole budget: it is
-- accepted exactly when it has at most 100,000 headers. Of it and any calls in the 60 seconds from
-- it on, whatever their sizes and order, the headers accepted are at most 100,000.
pub run_budget :
    (before : List (ℕ × ℕ)) (count start : ℕ) (calls : List (ℕ × ℕ))
    → Begins (run default before).window_start start
    → All (λ call. IsWithin start call.1) calls
    → (((check (run default before) count start).1 ≡ ok tt) ↔ (count ≤ 100_000))
      × (admitted (run default before) ((count, start) ∷ calls) ≤ 100_000)
unfolding admitted
run_budget before count start calls b within =
    let l = run default before in
    let (opened, counts, whole) = begins l count start b in
    (whole, omega (arith, within_budget (check l count start).0 start calls opened within, counts))
