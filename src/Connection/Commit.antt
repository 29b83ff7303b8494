-- ===== src/Connection/Commit.antt =====
-- A replay key is kept exactly where its response was written.
use enclave_signer.Prelude.{
  ℕ, ◌-◌, ◌<◌, ◌≡◌, ◌≢◌, ◌⊎◌, refl, Option, some, [], arith, inl, inr, ok, err, Bytes, Result-cases,
}
use enclave_signer.Error.{EnclaveError, nonce_replay}
use enclave_signer.Framing.{Codec, Sink, Wire, read_request, write_message}
use enclave_signer.State.ReplayGuard.{
  NonceReplayGuard, ReplayReservation, check_and_record_at, reserve_at, commit, drop_reservation,
}
use enclave_signer.State.ReplayGuard.Record.{IsValid, check_and_record_at-IsValid}
use enclave_signer.State.ReplayGuard.Replay.{
  after_requests, same_max, replay_refused, reserve_at-state, reserved, drop_reservation_retry,
}
use enclave_signer.Connection.{process_connection}

-- A committed reservation is dropped without a trace.
commit_kept : (g : NonceReplayGuard) (r : ReplayReservation) → drop_reservation g (commit r) ≡ g
unfolding drop_reservation commit
commit_kept g r = refl

-- A key that was reserved and kept is refused within the TTL.
kept_refused :
    (g : NonceReplayGuard) (nonce at later : ℕ) {r : ReplayReservation}
    → IsValid g
    → (reserve_at g nonce at).1 ≡ ok r
    → later - at < g.ttl
    → (check_and_record_at (reserve_at g nonce at).0 nonce later).1 ≡ err nonce_replay
unfolding after_requests
kept_refused g nonce at later v h young =
    let took = (reserved g nonce at h).0 in
    let bounded = (check_and_record_at-IsValid g nonce at v).holds.bounded in
    rw reserve_at-state (
      replay_refused g nonce at later [] v took tt (omega (arith, bounded, same_max g v nonce at))
        young)

module _ {Request Response : Type 0} (wire : Wire) (requests : Codec Request)
    (responses : Codec Response)
    (dispatch : NonceReplayGuard
      → Request
      → NonceReplayGuard × Response × Option ReplayReservation) where
  -- A request whose dispatch has reserved a key of a valid guard: either its response was written,
  -- and a second request for the key is refused as a replay within the TTL; or writing it failed,
  -- and a second request is not refused as a replay.
  pub process_connection_replay :
      (g : NonceReplayGuard) (stream : Bytes) (sink : Sink) (request : Request) (rest : Bytes)
      (response : Response) (nonce at later : ℕ) (r : ReplayReservation)
      → IsValid g
      → read_request wire requests stream ≡ ok (request, rest)
      → dispatch g request ≡ ((reserve_at g nonce at).0, response, some r)
      → (reserve_at g nonce at).1 ≡ ok r
      → later - at < g.ttl
      → (((s : Sink) × ((process_connection wire requests responses dispatch g stream sink).1
              ≡ ok s))
          × ((check_and_record_at
                (process_connection wire requests responses dispatch g stream sink).0
                nonce
                later).1
              ≡ err nonce_replay))
        ⊎ (((e : EnclaveError) × ((process_connection wire requests responses dispatch g stream
                  sink).1
                ≡ err e))
            × ((check_and_record_at
                  (process_connection wire requests responses dispatch g stream sink).0
                  nonce
                  later).1
                ≢ err nonce_replay))
  unfolding process_connection
  process_connection_replay g stream sink request rest response nonce at later r v read answer h
        young =
      elim (Result-cases (write_message responses sink response)) [
        | inl (s, written) ↦ inl (
          (s, rw (read, answer, written) refl),
          rw (read, answer, written, commit_kept) (kept_refused g nonce at later v h young),
        )
        | inr (e, failed) ↦ inr (
          (e, rw (read, answer, failed) refl),
          rw (read, answer, failed) (drop_reservation_retry g nonce at later v h),
        )
      ]
