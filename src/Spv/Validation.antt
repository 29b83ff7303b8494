-- ===== src/Spv/Validation.antt =====
-- enclave/src/networks/rgb/spv/validation.rs: the checks of one header, which hold no chain state.
pub mod Accept
pub mod Median
use enclave_signer.Prelude.{
  ℕ, zero, suc, ◌+◌, ◌-◌, ◌*◌, ◌/◌, ◌%◌, ◌^◌, min, Bool, true, false, ◌&&◌, ◌||◌, not, Option, none,
  some, List, [], ◌∷◌, length, get_elem?, ltb, leb, ◌==◌, if◌then◌else◌, ok, err, ◌>>=◌, ◌>>◌,
  refuse_if,
}
use enclave_signer.Spv.Types.{
  Network, Bitcoin, as_bitcoin_params, enforces_pow, bip94, allows_min_difficulty, pow_limit_bits,
  SpvResult, chain_linkage, pow_failed, bits_mismatch, timewarp, time_too_new, time_too_old,
}

abbrev pub retarget_interval : ℕ
retarget_interval = 2016

abbrev pub max_timewarp_secs : ℕ
max_timewarp_secs = 600

abbrev pub max_future_block_time_secs : ℕ
max_future_block_time_secs = 2 * 60 * 60

abbrev pub median_time_span : ℕ
median_time_span = 11

abbrev pub u64_max : ℕ
u64_max = 2 ^ 64 - 1

unfoldable pub is_retarget_height : ℕ → Bool
is_retarget_height height = height % retarget_interval == 0

-- What the `nBits` rule of a header reads from the chain below it.
pub record BitsInput : Type 0 where
  pub height : ℕ
  pub header_time : ℕ
  pub prev_bits : ℕ
  pub prev_time : ℕ
  pub period_bits : ℕ
  pub epoch_first_bits : ℕ
  pub epoch_first_time : ℕ

pub record Predecessor : Type 0 where
  pub hash : ℕ
  pub time : ℕ

unfoldable pub check_timewarp : ℕ → ℕ → ℕ → Network → SpvResult (Unit {0})
check_timewarp height time prev_time network =
    if not (bip94 network) || not (is_retarget_height height)
    then ok tt
    else refuse_if (ltb (time + max_timewarp_secs) prev_time) (timewarp height time prev_time)

-- `now_unix.saturating_add(MAX_FUTURE_BLOCK_TIME_SECS)` stays within a `u64`.
unfoldable pub check_future_time : ℕ → ℕ → ℕ → SpvResult (Unit {0})
check_future_time height time now_unix =
    refuse_if (ltb (min (now_unix + max_future_block_time_secs) u64_max) time)
      (time_too_new height time now_unix)

-- `sort_unstable` on numbers: any sort gives the same list.
unfoldable pub insert : ℕ → List ℕ → List ℕ
insert x [] = x ∷ []
insert x (y ∷ ys) = if leb x y then x ∷ y ∷ ys else y ∷ insert x ys

unfoldable pub sort : List ℕ → List ℕ
sort [] = []
sort (x ∷ xs) = insert x (sort xs)

abbrev value_or_zero : Option ℕ → ℕ
value_or_zero none = 0
value_or_zero (some t) = t

-- The index lies within a window that is not empty; the empty one would be a panic.
unfoldable pub median_time_past : List ℕ → ℕ
median_time_past times = value_or_zero (get_elem? (sort times) (length (sort times) / 2))

unfoldable pub check_time_too_old : ℕ → ℕ → Option ℕ → SpvResult (Unit {0})
check_time_too_old height time none = ok tt
check_time_too_old height time (some median) =
    refuse_if (leb time median) (time_too_old height time median)

module _ (btc : Bitcoin) where
  open btc use {
    Header, prev_blockhash, time, bits, validate_pow, pow_target_spacing, from_next_work_required,
  }

  unfoldable pub check_linkage : Header → ℕ → ℕ → SpvResult (Unit {0})
  check_linkage header expected_prev_hash height =
      refuse_if (not (prev_blockhash header == expected_prev_hash)) (chain_linkage height)

  unfoldable pub check_pow : Header → ℕ → Network → SpvResult (Unit {0})
  check_pow header height network =
      if not (enforces_pow network)
      then ok tt
      else refuse_if (not (validate_pow header)) (pow_failed height)

  unfoldable pub expected_bits : BitsInput → Network → Option ℕ
  unfolding allows_min_difficulty pow_limit_bits is_retarget_height
  expected_bits input network =
      if not (enforces_pow network)
      then none
      else if not (is_retarget_height input.height)
      then (if not (allows_min_difficulty btc network)
          then some input.prev_bits
          else if ltb (input.prev_time + 2 * pow_target_spacing (as_bitcoin_params network))
              input.header_time
          then some (pow_limit_bits btc network)
          else some input.period_bits)
      else some (
          from_next_work_required
            (if bip94 network then input.epoch_first_bits else input.prev_bits)
            (input.prev_time - input.epoch_first_time) (as_bitcoin_params network))

  -- The `nBits` test of `validate_header_full`.
  unfoldable pub check_bits : Header → ℕ → Option ℕ → SpvResult (Unit {0})
  check_bits header height none = ok tt
  check_bits header height (some expected) =
      refuse_if (not (bits header == expected)) (bits_mismatch height (bits header) expected)

  unfoldable pub validate_header_full :
      Header → ℕ → Predecessor → Option ℕ → Option ℕ → Network → ℕ → SpvResult (Unit {0})
  validate_header_full header height prev median expected_bits_value network now_unix = do
    check_linkage header prev.hash height
    check_timewarp height (time header) prev.time network
    check_future_time height (time header) now_unix
    check_time_too_old height (time header) median
    check_bits header height expected_bits_value
    check_pow header height network
