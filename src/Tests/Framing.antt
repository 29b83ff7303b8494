-- ===== src/Tests/Framing.antt =====
-- A small wire format and a codec that keeps bytes as they are.
use enclave_signer.Prelude.{
  ℕ, ◌-◌, ◌/◌, ◌%◌, ◌≤◌, ◌<◌, ◌≡◌, ◌≢◌, refl, Option, none, some, [], ◌∷◌, ◌++◌, length, drop, ◌==◌,
  if◌then◌else◌, arith, ok, err, Bytes, length-drop,
}
use enclave_signer.Error.{internal}
use enclave_signer.Framing.{
  Sink, Codec, Wire, child, read_message, write_message, walk_field, walk, count_request_elements,
}
use enclave_signer.Framing.Shape.{IsWire, count_request_elements_total}
use enclave_signer.Framing.Frames.{read_message-write_message}

-- Keys and varints of one byte; a wire type is 2 where a length stands before the field.
abbrev pub key : Bytes → Option ((ℕ × ℕ) × Bytes)
key [] = none
key (b ∷ rest) = some ((b / 8, b % 8), rest)

abbrev varint : Bytes → Option (ℕ × Bytes)
varint [] = none
varint (b ∷ rest) = some (b, rest)

abbrev skip : ℕ → ℕ → Bytes → Option Bytes
skip wire_type tag [] = none
skip wire_type tag (b ∷ rest) = if wire_type == 2 then some (drop b rest) else some rest

abbrev pub toy : Wire
toy = record {
  WireType = ℕ;
  is_length_delimited = λ wire_type. wire_type == 2;
  decode_key = key;
  decode_varint = varint;
  skip_field = skip;
}

key_uses :
    (buf : Bytes) (k : ℕ × ℕ) (rest : Bytes) → key buf ≡ some (k, rest) → length rest < length buf
key_uses [] k rest h = cc
key_uses (b ∷ buf) k rest h = ground (arith, h)

varint_uses :
    (buf : Bytes) (n : ℕ) (rest : Bytes) → varint buf ≡ some (n, rest) → length rest ≤ length buf
varint_uses [] n rest h = cc
varint_uses (b ∷ buf) n rest h = ground (arith, h)

skip_uses :
    (wire_type tag : ℕ) (buf rest : Bytes)
    → skip wire_type tag buf ≡ some rest
    → length rest ≤ length buf
skip_uses wire_type tag [] rest h = cc
skip_uses wire_type tag (b ∷ buf) rest h = ground (arith, h, length-drop b buf)

toy-IsWire : IsWire toy
toy-IsWire = record { key_uses = key_uses; varint_uses = varint_uses; skip_uses = skip_uses }

-- A sign request with one field.
abbrev pub frame : Bytes
frame = 26 ∷ 2 ∷ 8 ∷ 5 ∷ []

two_elements : count_request_elements toy frame ≡ ok 2
unfolding child walk_field walk count_request_elements
two_elements = refl

count_request_elements_total_example : count_request_elements toy frame ≢ err internal
count_request_elements_total_example = count_request_elements_total toy toy-IsWire frame

abbrev pub raw : Codec Bytes
raw = record { decode = some; encode = λ bytes. bytes }

abbrev sink : Sink
sink = record { written = 9 ∷ []; room = 10 }

read_message-write_message_example :
    (sent : Bytes) × (write_message raw sink frame
      ≡ ok (record { written = 9 ∷ [] ++ sent; room = 10 - length sent }))
    × (read_message raw (sent ++ 1 ∷ []) ≡ ok (frame, 1 ∷ []))
read_message-write_message_example =
    read_message-write_message raw sink frame (1 ∷ []) refl (omega arith) (omega arith)
      (omega arith)
