-- ===== src/State/SubmitRate.antt =====
-- enclave/src/server/rate_limit.rs: the fixed-window limit on submitted headers, in seconds.
pub mod Budget
use enclave_signer.Prelude.{
  ℕ, ◌+◌, ◌-◌, ◌^◌, min, Bool, true, false, ◌||◌, Option, none, some, ltb, leb, if◌then◌else◌, ok,
  err, refuse_if,
}
use enclave_signer.Error.{EnclaveResult, spv}

pub record SubmitRateLimiter : Type 0 where
  pub window_start : Option ℕ
  pub headers_in_window : ℕ

abbrev pub max_headers_per_rate_window : ℕ
max_headers_per_rate_window = 100_000

abbrev pub rate_limit_window : ℕ
rate_limit_window = 60

abbrev u64_max : ℕ
u64_max = 2 ^ 64 - 1

unfoldable pub default : SubmitRateLimiter
default = record { window_start = none; headers_in_window = 0 }

-- `now.duration_since(start)` fails when the clock went back, and then the window resets.
unfoldable pub resets : Option ℕ → ℕ → Bool
resets none now = true
resets (some start) now = ltb now start || leb rate_limit_window (now - start)

-- The assignments of `check`, before its test.
unfoldable pub add_headers : SubmitRateLimiter → ℕ → ℕ → SubmitRateLimiter
unfolding resets
add_headers l count now =
    if resets l.window_start now
    then record { window_start = some now; headers_in_window = min (0 + count) u64_max }
    else record l { headers_in_window = min (l.headers_in_window + count) u64_max }

unfoldable pub check : SubmitRateLimiter → ℕ → ℕ → SubmitRateLimiter × EnclaveResult (Unit {0})
unfolding add_headers
check l count now =
    let l' = add_headers l count now in
    (l', refuse_if (ltb max_headers_per_rate_window l'.headers_in_window) spv)
