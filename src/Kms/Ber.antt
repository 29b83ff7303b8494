-- ===== src/Kms/Ber.antt =====
-- enclave/src/kms/ber.rs: the conversion of the KMS envelope from BER to DER.
pub mod Encoded
pub mod Parsed
pub mod RoundTrip
pub mod Chunks
pub mod Total
use enclave_signer.Prelude.{
  Result, ok, err, ◌>>=◌, ◌>>◌, refuse_if, ℕ, zero, suc, ◌+◌, ◌-◌, ◌/◌, ◌%◌, Bool, true, false,
  ◌&&◌, ◌||◌, not, Option, none, some, List, [], ◌∷◌, ◌++◌, length, take, drop, ltb, ◌==◌,
  if◌then◌else◌, Bytes, same_bytes, be_value, to_be_bytes,
}

abbrev pub max_depth : ℕ
max_depth = 16

abbrev pub max_tag_bytes : ℕ
max_tag_bytes = 4

abbrev pub max_length_bytes : ℕ
max_length_bytes = 4

abbrev pub universal_octet_string : ℕ
universal_octet_string = 4

-- A node has a tag and a body; the children of a constructed body are a `Nodes`.
mutual
  pub data Node : Type 0 where
    primitive : Bytes → Bytes → Node
    constructed : Bytes → Nodes → Node

  pub data Nodes : Type 0 where
    nil : Nodes
    cons : Node → Nodes → Nodes

-- `refused` is the source's `None`; the loops of the model never run out of fuel.
pub data BerError : Type 0 where
  refused out_of_fuel : BerError

abbrev pub BerResult : Type 0 → Type 0
BerResult = Result BerError

-- The loop over the continuation bytes of a long tag: the offset at its end.
unfoldable pub long_tag : ℕ → Bytes → BerResult ℕ
long_tag offset [] = err refused
long_tag offset (b ∷ bytes) =
    let more = long_tag (offset + 1) bytes in
    if ltb max_tag_bytes (offset + 1)
    then err refused
    else if ltb b 128
    then ok (offset + 1)
    else more

-- The identifier octets.
unfoldable pub tag_length : Bytes → BerResult ℕ
tag_length [] = err refused
tag_length (first ∷ bytes) = if first % 32 == 31 then long_tag 1 bytes else ok 1

-- `first & CONSTRUCTED != 0`
unfoldable pub is_constructed : Bytes → Bool
is_constructed [] = false
is_constructed (first ∷ bytes) = first / 32 % 2 == 1

abbrev pub starts_with_zero : Bytes → Bool
starts_with_zero [] = false
starts_with_zero (b ∷ bytes) = b == 0

-- The length of the long form, whose first byte is `128 + n`.
unfoldable pub long_length : ℕ → Bytes → BerResult (Option ℕ × ℕ)
long_length n bytes = do
  refuse_if (ltb max_length_bytes n) refused
  refuse_if (ltb (length bytes) n) refused
  refuse_if (starts_with_zero (take n bytes)) refused
  ok (some (be_value 0 (take n bytes)), 1 + n)

-- The length octets: the length, `none` when indefinite, and how many they are.
unfoldable pub length_octets : Bytes → BerResult (Option ℕ × ℕ)
length_octets [] = err refused
length_octets (l ∷ bytes) =
    if ltb l 128
    then ok (some l, 1)
    else if l == 128
    then ok (none, 1)
    else long_length (l % 128) bytes

-- A parser of one value answers with the node and the bytes used.
abbrev pub Parser : Type 0
Parser = Bytes → BerResult (Node × ℕ)

-- The loop `while offset < end`, over the content that is left.
unfoldable pub parse_definite : Parser → ℕ → Bytes → BerResult Nodes
parse_definite parse fuel [] = ok nil
parse_definite parse zero (b ∷ content) = err out_of_fuel
parse_definite parse (suc fuel) (b ∷ content) = do
  (child, used) ← parse (b ∷ content)
  children ← parse_definite parse fuel (drop used (b ∷ content))
  ok (cons child children)

-- `rest[0] == 0 && rest[1] == 0`
abbrev pub is_end : Bytes → Bool
is_end (a ∷ b ∷ rest) = a == 0 && b == 0
is_end _ = false

-- The loop up to the end-of-contents octets, which are counted as used.
unfoldable pub parse_indefinite : Parser → ℕ → Bytes → BerResult (Nodes × ℕ)
parse_indefinite parse zero rest = err out_of_fuel
parse_indefinite parse (suc fuel) rest = elim (is_end rest) [
  | true ↦ ok (nil, 2)
  | false ↦ (do
    (child, used) ← parse rest
    (children, more) ← parse_indefinite parse fuel (drop used rest)
    ok (cons child children, used + more))
]

-- The body, from the bytes after the length octets.
unfoldable pub parse_body : Parser → Bytes → Bool → Option ℕ → Bytes → BerResult (Node × ℕ)
parse_body parse tag false (some len) rest = do
  refuse_if (ltb (length rest) len) refused
  ok (primitive tag (take len rest), len)
parse_body parse tag true (some len) rest = do
  refuse_if (ltb (length rest) len) refused
  children ← parse_definite parse len (take len rest)
  ok (constructed tag children, len)
parse_body parse tag false none rest = err refused
parse_body parse tag true none rest = do
  (children, used) ← parse_indefinite parse (suc (length rest)) rest
  ok (constructed tag children, used)

abbrev pub eligible : Bytes → Bool
eligible (first ∷ []) = first == 36 || first / 64 == 2
eligible _ = false

abbrev pub is_chunk : Node → Bool
is_chunk (primitive tag bytes) = same_bytes tag (universal_octet_string ∷ [])
is_chunk (constructed tag children) = false

abbrev pub are_chunks : Nodes → Bool
are_chunks nil = true
are_chunks (cons child children) = is_chunk child && are_chunks children

abbrev pub all_chunks : Nodes → Bool
all_chunks nil = false
all_chunks (cons child children) = is_chunk child && are_chunks children

abbrev pub chunk_bytes : Nodes → Bytes
chunk_bytes nil = []
chunk_bytes (cons (primitive tag bytes) children) = bytes ++ chunk_bytes children
chunk_bytes (cons (constructed tag inner) children) = chunk_bytes children

-- `vec![first & !CONSTRUCTED]`
abbrev pub primitive_tag : Bytes → Bytes
primitive_tag [] = []
primitive_tag (first ∷ tag) = (if first / 32 % 2 == 1 then first - 32 else first) ∷ []

unfoldable pub joined : Node → Node
joined (primitive tag bytes) = primitive tag bytes
joined (constructed tag children) =
    if eligible tag && all_chunks children
    then primitive (primitive_tag tag) (chunk_bytes children)
    else constructed tag children

-- `levels` is `MAX_DEPTH + 1 - depth`.
unfoldable pub parse : ℕ → Parser
parse zero input = err refused
parse (suc levels) input = do
  refuse_if (ltb (length input) 2) refused
  offset ← tag_length input
  (len, octets) ← length_octets (drop offset input)
  (node, used) ←
      parse_body (parse levels) (take offset input) (is_constructed input) len
        (drop octets (drop offset input))
  ok (joined node, offset + octets + used)

-- `bytes.iter().take_while(|b| **b == 0)`, skipped.
abbrev pub skip_zeros : Bytes → Bytes
skip_zeros [] = []
skip_zeros (b ∷ bytes) = if b == 0 then skip_zeros bytes else b ∷ bytes

unfoldable pub encode_length : ℕ → Bytes
encode_length len =
    let bytes = skip_zeros (to_be_bytes 8 len []) in
    if ltb len 128 then len ∷ [] else (128 + length bytes) ∷ bytes

unfoldable mutual
  pub encode : Node → Bytes
  encode (primitive tag bytes) = tag ++ encode_length (length bytes) ++ bytes
  encode (constructed tag children) =
      tag ++ encode_length (length (encode_all children)) ++ encode_all children

  pub encode_all : Nodes → Bytes
  encode_all nil = []
  encode_all (cons child children) = encode child ++ encode_all children

unfoldable pub ber_to_der : Bytes → BerResult Bytes
ber_to_der input = do
  (node, used) ← parse (suc max_depth) input
  refuse_if (not (used == length input)) refused
  ok (encode node)
