-- ===== src/Tests/Guards.antt =====
-- The replay guard, the result cache and the two rate limits at concrete inputs.
use enclave_signer.Prelude.{
  ℕ, ◌+◌, ◌-◌, ◌≤◌, inr, ◌↔◌, ◌≡◌, refl, ◌&&◌, some, none, List, [], ◌∷◌, length, arith, ok, err,
  if◌then◌else◌, ltb, ◌==◌,
}
use enclave_signer.Prelude.Assoc.{lookup, insert}
use enclave_signer.Error.{nonce_replay}
use enclave_signer.State.ReplayGuard.{
  NonceReplayGuard, evict_expired, evict_oldest, record_in, fresh, check_and_record_at,
}
use enclave_signer.State.ReplayGuard.Record.{IsValid, check_and_record_at-IsValid}
use enclave_signer.State.ReplayGuard.Replay.{after_requests, replay_refused}
use enclave_signer.State.ResultCache as Cache
use enclave_signer.State.ResultCache.Put as Put
use enclave_signer.State.ResultCache.Replies.{get_at-put_at_self, get_at-put_at_ne}
use enclave_signer.State.RefillRate.{RefillRateLimit}
use enclave_signer.State.RefillRate.Window.{answers, spec_answers, answers_refine}
use enclave_signer.State.SubmitRate as Submit
use enclave_signer.State.SubmitRate.Budget.{run, admitted, Begins, run_budget}

abbrev guard : NonceReplayGuard
guard = record {
  inner = record {
    seen = (7, 0) ∷ (8, 1) ∷ [];
    next_generation = 2;
    order = (10, 7) ∷ (20, 8) ∷ [];
  };
  max = 4;
  ttl = 100;
}

guard-IsValid : IsValid guard
guard-IsValid = record {
  positive = omega arith;
  holds = record {
    mirrored = refl;
    distinct = ground arith;
    older = (omega arith, (omega arith, tt));
    bounded = omega arith;
  };
}

abbrev others : List (ℕ × ℕ)
others = (7, 60) ∷ []

accepts_nine : (check_and_record_at guard 9 50).1 ≡ ok 2
unfolding check_and_record_at fresh record_in evict_expired evict_oldest
accepts_nine = refl

room_for_one : length (check_and_record_at guard 9 50).0.inner.seen + length others ≤ 4
unfolding check_and_record_at fresh record_in evict_expired evict_oldest insert
room_for_one = omega arith

replay_refused_example :
    (check_and_record_at (after_requests (check_and_record_at guard 9 50).0 others) 9 120).1
    ≡ err nonce_replay
replay_refused_example =
    replay_refused guard 9 50 120 others guard-IsValid accepts_nine (omega arith, tt) room_for_one
      (omega arith)

check_and_record_at-IsValid_example : IsValid (check_and_record_at guard 9 115).0
check_and_record_at-IsValid_example = check_and_record_at-IsValid guard 9 115 guard-IsValid

abbrev cache : Cache.SignedResultCache ℕ
cache = record {
  map = (7, record { at = 10; request = 70; response = 700 }) ∷ [];
  order = 7 ∷ [];
  max = 4;
  ttl = 100;
}

cache-IsValid : Put.IsValid cache
cache-IsValid = record {
  positive = omega arith;
  agree = record { same = refl; distinct = ground arith };
  bounded = omega arith;
}

get_at-put_at_self_example :
    Cache.get_at (Cache.put_at cache 8 80 800 50) 8 80 60
    ≡ (if ltb (60 - 50) 100 && 80 == 80 then some 800 else none)
get_at-put_at_self_example = get_at-put_at_self cache 8 80 800 50 80 60

answered : Cache.get_at cache 7 70 60 ≡ some 700
unfolding Cache.get_at lookup
answered = refl

get_at-put_at_ne_example : Cache.get_at (Cache.put_at cache 8 80 800 50) 7 70 60 ≡ some 700
get_at-put_at_ne_example =
    get_at-put_at_ne cache 8 7 80 70 800 700 50 60 cache-IsValid (ground arith) (omega arith)
      (omega arith) answered

abbrev no_refills : RefillRateLimit
no_refills = record { admitted = [] }

answers_refine_example :
    answers no_refills (5 ∷ 6 ∷ 4000 ∷ []) ≡ spec_answers [] (5 ∷ 6 ∷ 4000 ∷ [])
answers_refine_example = answers_refine (5 ∷ 6 ∷ 4000 ∷ []) (ground arith)

-- A window from 5 on, and another that begins at 70.
abbrev calls : List (ℕ × ℕ)
calls = (50_000, 80) ∷ (40_000, 129) ∷ []

over : Begins (run Submit.default ((60_000, 5) ∷ (50_000, 6) ∷ [])).window_start 70
unfolding Submit.default Submit.resets Submit.add_headers Submit.check run
over = inr (omega arith)

run_budget_example :
    (((Submit.check (run Submit.default ((60_000, 5) ∷ (50_000, 6) ∷ [])) 60_000 70).1 ≡ ok tt)
      ↔ (60_000 ≤ 100_000))
    × (admitted (run Submit.default ((60_000, 5) ∷ (50_000, 6) ∷ [])) ((60_000, 70) ∷ calls)
        ≤ 100_000)
run_budget_example =
    run_budget ((60_000, 5) ∷ (50_000, 6) ∷ []) 60_000 70 calls over
      ((omega arith, omega arith), ((omega arith, omega arith), tt))
