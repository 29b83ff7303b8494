-- ===== src/Framing.antt =====
-- enclave/src/framing.rs: the frames of requests and responses, and the count of a request's
-- elements before it is decoded. A stream to read is what is left of its bytes, and one to write
-- has so much room. The protobuf code of prost is a parameter. The walk over a message has its
-- length as fuel, and would answer `internal` without it, an error that the source does not have
-- here.
pub mod Frames
pub mod Shape
use enclave_signer.Prelude.{
  ℕ, zero, suc, ◌+◌, ◌-◌, ◌*◌, ◌/◌, ◌%◌, ◌^◌, Bool, true, false, ◌||◌, not, Option, none, some,
  List, [], ◌∷◌, ◌++◌, length, take, drop, ltb, ◌==◌, if◌then◌else◌, ok, err, ◌>>=◌, ◌>>◌,
  refuse_if, ok_or, Bytes,
}
use enclave_signer.Error.{EnclaveResult, framing, protobuf_decode, io, internal}

abbrev pub max_message_size : ℕ
max_message_size = 24 * 1024 * 1024

abbrev pub max_wire_elements : ℕ
max_wire_elements = 2 ^ 19

-- `u32::from_le_bytes` and `to_le_bytes`
abbrev pub from_le_bytes : Bytes → ℕ
from_le_bytes [] = 0
from_le_bytes (b ∷ bytes) = b + 256 * from_le_bytes bytes

abbrev pub to_le_bytes : ℕ → ℕ → Bytes
to_le_bytes zero n = []
to_le_bytes (suc width) n = n % 256 ∷ to_le_bytes width (n / 256)

-- `read_exact`: so many bytes, with what is left of the stream.
abbrev pub read_exact : ℕ → Bytes → EnclaveResult (Bytes × Bytes)
read_exact n stream = do refuse_if (ltb (length stream) n) io; ok (take n stream, drop n stream)

unfoldable pub read_frame : Bytes → EnclaveResult (Bytes × Bytes)
read_frame stream = do
  (len_buf, stream) ← read_exact 4 stream
  let len = from_le_bytes len_buf
  refuse_if (len == 0) framing
  refuse_if (ltb max_message_size len) framing
  read_exact len stream

-- A stream to write: what it has taken, and the bytes that it still takes. What it takes counts as
-- flushed.
pub record Sink : Type 0 where
  pub written : Bytes
  pub room : ℕ

abbrev pub write_all : Sink → Bytes → EnclaveResult Sink
write_all s bytes = do
  refuse_if (ltb s.room (length bytes)) io
  ok (record { written = s.written ++ bytes; room = s.room - length bytes })

-- `Message::decode` and `encode_to_vec`
pub record Codec (M : Type 0) : Type 0 where
  pub decode : Bytes → Option M
  pub encode : M → Bytes

module _ {M : Type 0} (codec : Codec M) where
  open codec use {decode, encode}

  unfoldable pub read_message : Bytes → EnclaveResult (M × Bytes)
  unfolding read_frame
  read_message stream = do
    (buf, stream) ← read_frame stream
    msg ← ok_or (decode buf) protobuf_decode
    ok (msg, stream)

  -- `buf.len() as u32` wraps.
  unfoldable pub write_message : Sink → M → EnclaveResult Sink
  write_message stream msg = do
    let buf = encode msg
    stream ← write_all stream (to_le_bytes 4 (length buf % 2 ^ 32))
    write_all stream buf

-- The messages that hold others or repeated fields.
pub data Schema : Type 0 where
  request sign rgb_source merkle_proof_entry submit_headers leaf : Schema

unfoldable pub child : Schema → ℕ → Schema
child Schema.request tag =
    if tag == 3 then Schema.sign else if tag == 11 then Schema.submit_headers else Schema.leaf
child Schema.sign tag = if tag == 3 then Schema.rgb_source else Schema.leaf
child Schema.rgb_source tag = if tag == 6 then Schema.merkle_proof_entry else Schema.leaf
child Schema.merkle_proof_entry tag = Schema.leaf
child Schema.submit_headers tag = Schema.leaf
child Schema.leaf tag = Schema.leaf

abbrev pub is_leaf : Schema → Bool
is_leaf Schema.leaf = true
is_leaf Schema.request = false
is_leaf Schema.sign = false
is_leaf Schema.rgb_source = false
is_leaf Schema.merkle_proof_entry = false
is_leaf Schema.submit_headers = false

-- What the walk uses of prost: each takes its part off the front of the buffer. A varint has 64
-- bits, as `usize` has.
pub record Wire : Type 1 where
  pub WireType : Type 0
  pub is_length_delimited : WireType → Bool
  pub decode_key : Bytes → Option ((ℕ × WireType) × Bytes)
  pub decode_varint : Bytes → Option (ℕ × Bytes)
  pub skip_field : WireType → ℕ → Bytes → Option Bytes

module _ (wire : Wire) where
  open wire use {WireType, is_length_delimited, decode_key, decode_varint, skip_field}

  -- Whether a field is skipped and not entered.
  abbrev pub is_skipped : Schema → ℕ → WireType → Bool
  is_skipped schema tag wire_type =
      is_leaf (child schema tag) || not (is_length_delimited wire_type)

  -- One turn of the loop after the key, `next` being the walk.
  unfoldable pub walk_field :
      (Bytes → Schema → ℕ → EnclaveResult ℕ)
      → Bool
      → WireType
      → ℕ
      → Bytes
      → Schema
      → ℕ
      → EnclaveResult ℕ
  walk_field next true wire_type tag buf schema left = do
    buf ← ok_or (skip_field wire_type tag buf) framing
    next buf schema left
  walk_field next false wire_type tag buf schema left = do
    (len, buf) ← ok_or (decode_varint buf) framing
    refuse_if (ltb (length buf) len) framing
    left ← next (take len buf) (child schema tag) left
    next (drop len buf) schema left

  unfoldable pub walk : ℕ → Bytes → Schema → ℕ → EnclaveResult ℕ
  unfolding walk_field
  walk fuel [] schema left = ok left
  walk zero (b ∷ buf) schema left = err internal
  walk (suc fuel) (b ∷ buf) schema left = do
    ((tag, wire_type), rest) ← ok_or (decode_key (b ∷ buf)) framing
    refuse_if (left == 0) framing
    walk_field (walk fuel) (is_skipped schema tag wire_type) wire_type tag rest schema (left - 1)

  unfoldable pub count_request_elements : Bytes → EnclaveResult ℕ
  unfolding walk
  count_request_elements frame = do
    left ← walk (length frame) frame Schema.request max_wire_elements
    ok (max_wire_elements - left)

  unfoldable pub check_request_shape : Bytes → EnclaveResult (Unit {0})
  unfolding count_request_elements
  check_request_shape frame = do n ← count_request_elements frame; ok tt

  unfoldable pub read_request : {M : Type 0} → Codec M → Bytes → EnclaveResult (M × Bytes)
  unfolding read_frame
  read_request codec stream = do
    (buf, stream) ← read_frame stream
    check_request_shape buf
    msg ← ok_or (codec.decode buf) protobuf_decode
    ok (msg, stream)
