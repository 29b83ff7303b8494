-- ===== src/Connection.antt =====
-- enclave/src/server/wire.rs: a connection carries one request and one response. The dispatcher is
-- an argument, any function that answers a request and may reserve a replay key; of the context a
-- connection only touches the guard that holds such keys.
pub mod Commit
use enclave_signer.Prelude.{Option, none, some, ok, err, Bytes}
use enclave_signer.Error.{EnclaveResult}
use enclave_signer.Framing.{Codec, Sink, Wire, read_request, write_message}
use enclave_signer.State.ReplayGuard.{NonceReplayGuard, ReplayReservation, commit, drop_reservation}

-- The reservation goes out of scope at the end, committed where the response was written.
abbrev pub settle :
    {A : Type 0} → NonceReplayGuard → Option ReplayReservation → EnclaveResult A → NonceReplayGuard
settle guard none written = guard
settle guard (some r) (ok written) = drop_reservation guard (commit r)
settle guard (some r) (err e) = drop_reservation guard r

module _ {Request Response : Type 0} (wire : Wire) (requests : Codec Request)
    (responses : Codec Response)
    (dispatch : NonceReplayGuard
      → Request
      → NonceReplayGuard × Response × Option ReplayReservation) where
  -- What follows the reading of the request.
  abbrev pub respond :
      NonceReplayGuard
      → Sink
      → EnclaveResult (Request × Bytes)
      → NonceReplayGuard × EnclaveResult Sink
  respond guard sink (err e) = (guard, err e)
  respond guard sink (ok (request, stream)) =
      let (guard, response, reservation) = dispatch guard request in
      let written = write_message responses sink response in
      (settle guard reservation written, written)

  unfoldable pub process_connection :
      NonceReplayGuard → Bytes → Sink → NonceReplayGuard × EnclaveResult Sink
  process_connection guard stream sink = respond guard sink (read_request wire requests stream)
