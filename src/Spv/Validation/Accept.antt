-- ===== src/Spv/Validation/Accept.antt =====
-- What `validate_header_full` accepts.
use enclave_signer.Prelude.{ℕ, ◌+◌, ◌≤◌, ◌<◌, min, ◌≡◌, ◌↔◌, true, Option, none, some, arith, ok}
use enclave_signer.Spv.Types.{Network, Bitcoin, enforces_pow, bip94}
use enclave_signer.Spv.Validation.{
  max_timewarp_secs, max_future_block_time_secs, u64_max, is_retarget_height, Predecessor,
  check_timewarp, check_future_time, check_time_too_old, check_linkage, check_pow, check_bits,
  validate_header_full,
}

abbrev Newer : ℕ → Option ℕ → Type 0
Newer t none = Unit
Newer t (some median) = median < t

abbrev Matches : ℕ → Option ℕ → Type 0
Matches got none = Unit
Matches got (some expected) = got ≡ expected

module _ (btc : Bitcoin) where
  -- The consensus rules that a header must meet, one field to a rule.
  pub record IsAcceptable (header : btc.Header) (height : ℕ) (prev : Predecessor)
      (median bits : Option ℕ) (network : Network) (now : ℕ) : Type 0 where
    pub linked : btc.prev_blockhash header ≡ prev.hash
    pub no_timewarp :
        bip94 network ≡ true
        → is_retarget_height height ≡ true
        → prev.time ≤ btc.time header + max_timewarp_secs
    pub not_ahead : btc.time header ≤ min (now + max_future_block_time_secs) u64_max
    pub newer : Newer (btc.time header) median
    pub bits_match : Matches (btc.bits header) bits
    pub pow : enforces_pow network ≡ true → btc.validate_pow header ≡ true

  module _ (header : btc.Header) (height : ℕ) (prev : Predecessor) (median bits : Option ℕ)
      (network : Network) (now : ℕ) where
    validate_sound :
        validate_header_full btc header height prev median bits network now ≡ ok tt
        → IsAcceptable header height prev median bits network now
    unfolding validate_header_full check_linkage check_timewarp check_future_time check_time_too_old
        check_bits check_pow
    validate_sound h = record {
      linked = ground arith;
      no_timewarp = ground arith;
      not_ahead = ground arith;
      newer = ground arith;
      bits_match = ground arith;
      pow = ground arith;
    }

    validate_complete :
        IsAcceptable header height prev median bits network now
        → validate_header_full btc header height prev median bits network now ≡ ok tt
    unfolding validate_header_full check_linkage check_timewarp check_future_time check_time_too_old
        check_bits check_pow
    validate_complete a = ground arith

    -- A header is accepted exactly when it links to its predecessor, breaks no BIP94 timewarp
    -- bound, is at most two hours ahead of the clock, is newer than the given median time past,
    -- carries the given bits, and has its proof of work where the network enforces it.
    pub validate_header_full_iff :
        (validate_header_full btc header height prev median bits network now ≡ ok tt)
        ↔ IsAcceptable header height prev median bits network now
    validate_header_full_iff = (validate_sound, validate_complete)
