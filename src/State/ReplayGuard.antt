-- ===== src/State/ReplayGuard.antt =====
-- enclave/src/state/replay_guard.rs: the replay guards of attestation nonces and of bridge
-- operations. Each call is one critical section of the guard's lock (a panic aborts the process,
-- so the lock is never poisoned); an `Instant` is a number, and a call is given its own.
pub mod Keys
pub mod Record
pub mod Replay
use enclave_signer.Prelude.{
  ℕ, suc, ◌+◌, ◌-◌, ◌*◌, ◌^◌, Bool, true, false, ◌&&◌, ◌||◌, not, Option, none, some, List, [], ◌∷◌,
  ◌++◌, map, length, ltb, leb, ◌==◌, if◌then◌else◌, Result, ok, err, refuse_if,
}
use enclave_signer.Prelude.Assoc.{member, keys, lookup, insert, remove}
use enclave_signer.Error.{EnclaveError, nonce_replay, internal, EnclaveResult}

abbrev pub default_nonce_ttl : ℕ
default_nonce_ttl = 60 * 60

abbrev pub default_nonce_max : ℕ
default_nonce_max = 10_000

abbrev pub default_op_dedup_ttl : ℕ
default_op_dedup_ttl = 60 * 60

abbrev pub default_op_dedup_max : ℕ
default_op_dedup_max = 100_000

-- `GuardState`
pub record GuardState : Type 0 where
  pub seen : List (ℕ × ℕ)
  pub next_generation : ℕ
  pub order : List (ℕ × ℕ)

pub record NonceReplayGuard : Type 0 where
  pub inner : GuardState
  pub max : ℕ
  pub ttl : ℕ

unfoldable pub with_capacity : ℕ → ℕ → NonceReplayGuard
with_capacity max ttl = record {
  inner = record { seen = []; next_generation = 0; order = [] };
  max = max;
  ttl = ttl;
}

-- `order.iter().any(|(seen_at, key)| key == nonce && seen_at.elapsed() < ttl)`
unfoldable pub any_live : ℕ → ℕ → ℕ → List (ℕ × ℕ) → Bool
any_live ttl now nonce [] = false
any_live ttl now nonce ((seen_at, key) ∷ order) =
    (key == nonce && ltb (now - seen_at) ttl) || any_live ttl now nonce order

unfoldable pub check : NonceReplayGuard → ℕ → ℕ → EnclaveResult (Unit {0})
check g nonce now =
    refuse_if (member nonce (keys g.inner.seen) && any_live g.ttl now nonce g.inner.order)
      nonce_replay

-- The loop that evicts expired entries, up to the first live one.
unfoldable pub evict_expired : ℕ → ℕ → List (ℕ × ℕ) → List (ℕ × ℕ) → List (ℕ × ℕ) × List (ℕ × ℕ)
evict_expired ttl now seen [] = (seen, [])
evict_expired ttl now seen ((seen_at, old) ∷ order) =
    let rest = evict_expired ttl now (remove old seen) order in
    if leb ttl (now - seen_at) then rest else (seen, (seen_at, old) ∷ order)

-- The loop that evicts the oldest entries while the guard is full.
unfoldable pub evict_oldest : ℕ → List (ℕ × ℕ) → List (ℕ × ℕ) → List (ℕ × ℕ) × List (ℕ × ℕ)
evict_oldest max seen [] = (seen, [])
evict_oldest max seen ((seen_at, old) ∷ order) =
    let rest = evict_oldest max (remove old seen) order in
    if leb max (length seen) then rest else (seen, (seen_at, old) ∷ order)

abbrev pub u64_max : ℕ
u64_max = 2 ^ 64 - 1

-- `check_and_record_at` after the eviction of expired entries.
unfoldable pub record_in : ℕ → ℕ → ℕ → GuardState → GuardState × EnclaveResult ℕ
record_in max nonce now g =
    if member nonce (keys g.seen)
    then (g, err nonce_replay)
    else if leb u64_max g.next_generation
    then (g, err internal)
    else let generation = g.next_generation in
      let room = evict_oldest max g.seen g.order in
      (
        record {
          seen = insert nonce generation room.0;
          next_generation = generation + 1;
          order = room.1 ++ (now, nonce) ∷ [];
        },
        ok generation,
      )

-- The guard's state without the entries that have expired at its front.
unfoldable pub fresh : NonceReplayGuard → ℕ → GuardState
fresh g now =
    let live = evict_expired g.ttl now g.inner.seen g.inner.order in
    record { seen = live.0; next_generation = g.inner.next_generation; order = live.1 }

unfoldable pub check_and_record_at : NonceReplayGuard → ℕ → ℕ → NonceReplayGuard × EnclaveResult ℕ
unfolding fresh record_in
check_and_record_at g nonce now =
    let (inner, result) = record_in g.max nonce now (fresh g now) in
    (record g { inner = inner }, result)

-- A reservation names its guard by being used with it.
pub record ReplayReservation : Type 0 where
  pub nonce : ℕ
  pub generation : ℕ
  pub committed : Bool

abbrev reservation_of : ℕ → EnclaveResult ℕ → EnclaveResult ReplayReservation
reservation_of nonce (ok generation) =
    ok (record { nonce = nonce; generation = generation; committed = false })
reservation_of nonce (err e) = err e

unfoldable pub reserve_at :
    NonceReplayGuard → ℕ → ℕ → NonceReplayGuard × EnclaveResult ReplayReservation
unfolding check_and_record_at
reserve_at g nonce now =
    let (g', result) = check_and_record_at g nonce now in (g', reservation_of nonce result)

-- `order.remove(position of nonce)`
unfoldable pub remove_nonce : ℕ → List (ℕ × ℕ) → List (ℕ × ℕ)
remove_nonce nonce [] = []
remove_nonce nonce ((seen_at, key) ∷ order) =
    if key == nonce then order else (seen_at, key) ∷ remove_nonce nonce order

abbrev pub owns : Option ℕ → ℕ → Bool
owns none generation = false
owns (some owner) generation = owner == generation

-- `NonceReplayGuard::remove`
unfoldable pub remove_entry : NonceReplayGuard → ℕ → ℕ → NonceReplayGuard
remove_entry g nonce generation =
    if owns (lookup nonce g.inner.seen) generation
    then record g {
      inner = record (g.inner) {
        seen = remove nonce g.inner.seen;
        order = remove_nonce nonce g.inner.order;
      };
    }
    else g

unfoldable pub commit : ReplayReservation → ReplayReservation
commit r = record r { committed = true }

-- `Drop for ReplayReservation`
unfoldable pub drop_reservation : NonceReplayGuard → ReplayReservation → NonceReplayGuard
unfolding remove_entry
drop_reservation g r = if not r.committed then remove_entry g r.nonce r.generation else g
