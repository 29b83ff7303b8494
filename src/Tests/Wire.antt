-- ===== src/Tests/Wire.antt =====
-- A connection whose request reserves a key, with room for its response.
use enclave_signer.Prelude.{
  false, ◌-◌, ◌≡◌, ◌≢◌, ◌⊎◌, refl, Option, some, [], ◌∷◌, arith, ok, err, Bytes, ◌<◌,
}
use enclave_signer.Error.{EnclaveError, nonce_replay}
use enclave_signer.Framing.{
  Sink, child, read_frame, walk_field, walk, count_request_elements, check_request_shape,
  read_request,
}
use enclave_signer.State.ReplayGuard.{
  NonceReplayGuard, ReplayReservation, with_capacity, check_and_record_at, evict_expired, fresh,
  evict_oldest, record_in, reserve_at,
}
use enclave_signer.State.ReplayGuard.Record.{with_capacity-IsValid}
use enclave_signer.Connection.{process_connection}
use enclave_signer.Connection.Commit.{process_connection_replay}
use enclave_signer.Tests.Framing.{toy, frame, raw}

abbrev reservation : ReplayReservation
reservation = record { nonce = 9; generation = 0; committed = false }

abbrev guard : NonceReplayGuard
guard = with_capacity 4 100

abbrev dispatch : NonceReplayGuard → Bytes → NonceReplayGuard × Bytes × Option ReplayReservation
dispatch g request = ((reserve_at g 9 50).0, 1 ∷ [], some reservation)

abbrev sink : Sink
sink = record { written = []; room = 10 }

reads : read_request toy raw (4 ∷ 0 ∷ 0 ∷ 0 ∷ frame) ≡ ok (frame, [])
unfolding child walk_field walk count_request_elements check_request_shape read_frame read_request
reads = refl

reserves : (reserve_at guard 9 50).1 ≡ ok reservation
unfolding with_capacity reserve_at check_and_record_at fresh record_in evict_expired evict_oldest
reserves = refl

young : 60 - 50 < guard.ttl
unfolding with_capacity
young = omega arith

process_connection_replay_example :
    (((s : Sink) × ((process_connection toy raw raw dispatch guard (4 ∷ 0 ∷ 0 ∷ 0 ∷ frame) sink).1
          ≡ ok s))
      × ((check_and_record_at
            (process_connection toy raw raw dispatch guard (4 ∷ 0 ∷ 0 ∷ 0 ∷ frame) sink).0
            9
            60).1
          ≡ err nonce_replay))
    ⊎ (((e : EnclaveError) × ((process_connection toy raw raw dispatch guard
              (4 ∷ 0 ∷ 0 ∷ 0 ∷ frame)
              sink).1
            ≡ err e))
        × ((check_and_record_at
              (process_connection toy raw raw dispatch guard (4 ∷ 0 ∷ 0 ∷ 0 ∷ frame) sink).0
              9
              60).1
            ≢ err nonce_replay))
process_connection_replay_example =
    process_connection_replay toy raw raw dispatch guard (4 ∷ 0 ∷ 0 ∷ 0 ∷ frame) sink frame []
      (1 ∷ []) 9 50 60 reservation (with_capacity-IsValid 4 100 (omega arith)) reads refl reserves
      young
