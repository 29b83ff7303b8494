-- ===== src/Kms/Ber/Chunks.antt =====
-- A string that came in chunks is put together.
use enclave_signer.Prelude.{
  ℕ, zero, suc, ◌+◌, ◌-◌, ◌/◌, ◌%◌, ◌≤◌, ◌<◌, ◌≡◌, ◌⊎◌, ◌∙◌, inl, inr, sym, ap, refl, subst, true,
  false, ◌>>=◌, same_bytes, some, List, [], ◌∷◌, ◌++◌, length, drop, arith, ok, ltb, ◌==◌, Bytes,
  length-append, drop-append, take-append,
}
use mathlib.Core.List.{append-nil, append_assoc}
use enclave_signer.Kms.Ber.{
  primitive, constructed, Nodes, nil, cons, max_depth, Parser, are_chunks, tag_length,
  is_constructed, is_end, length_octets, parse_definite, parse_indefinite, parse_body, eligible,
  all_chunks, chunk_bytes, joined, parse, encode_length, encode, encode_all, ber_to_der,
}
use enclave_signer.Kms.Ber.Parsed.{IsTag, AreNodes}
use enclave_signer.Kms.Ber.RoundTrip.{parse-encode, parse_definite-encode_all, parse-parts}

-- DER of a value with one identifier octet, and the octet strings of the chunks, one after the other.
abbrev pub der : ℕ → Bytes → Bytes
der tag content = tag ∷ encode_length (length content) ++ content

abbrev pub octet_strings : List Bytes → Bytes
octet_strings [] = []
octet_strings (chunk ∷ chunks) = der 4 chunk ++ octet_strings chunks

abbrev pub contents : List Bytes → Bytes
contents [] = []
contents (chunk ∷ chunks) = chunk ++ contents chunks

-- The identifier octet of a string in chunks: an octet string, or a context tag below 31.
abbrev pub IsString : ℕ → Type 0
IsString first = (first ≡ 36) ⊎ ((160 ≤ first) × (first < 191))

abbrev nodes : List Bytes → Nodes
nodes [] = nil
nodes (chunk ∷ chunks) = cons (primitive (4 ∷ []) chunk) (nodes chunks)

octet-IsTag : IsTag (4 ∷ []) false
unfolding tag_length is_constructed
octet-IsTag = record { ends = λ rest. refl; form = λ rest. refl; some_byte = omega arith }

nodes-AreNodes : (levels : ℕ) (chunks : List Bytes) → AreNodes (suc levels) (nodes chunks)
nodes-AreNodes levels [] = tt
nodes-AreNodes levels (chunk ∷ chunks) = (octet-IsTag, nodes-AreNodes levels chunks)

encode_all-nodes : (chunks : List Bytes) → encode_all (nodes chunks) ≡ octet_strings chunks
unfolding encode
encode_all-nodes [] = refl
encode_all-nodes (chunk ∷ chunks) = ap (λ rest. der 4 chunk ++ rest) (encode_all-nodes chunks)

chunk_bytes-nodes : (chunks : List Bytes) → chunk_bytes (nodes chunks) ≡ contents chunks
chunk_bytes-nodes [] = refl
chunk_bytes-nodes (chunk ∷ chunks) = ap (λ rest. chunk ++ rest) (chunk_bytes-nodes chunks)

are_chunks-nodes : (chunks : List Bytes) → are_chunks (nodes chunks) ≡ true
unfolding same_bytes
are_chunks-nodes [] = refl
are_chunks-nodes (chunk ∷ chunks) = are_chunks-nodes chunks

all_chunks-nodes : (chunks : List Bytes) → 0 < length chunks → all_chunks (nodes chunks) ≡ true
unfolding same_bytes
all_chunks-nodes [] some_chunk = elim some_chunk [ ]
all_chunks-nodes (chunk ∷ chunks) some_chunk = are_chunks-nodes chunks

is_end-octet : (rest : Bytes) → is_end (4 ∷ rest) ≡ false
is_end-octet [] = refl
is_end-octet (b ∷ rest) = refl

parse_indefinite_step :
    (p : Parser) (fuel : ℕ) (rest : Bytes)
    → is_end rest ≡ false
    → parse_indefinite p (suc fuel) rest ≡ (do
      (child, used) ← p rest
      (children, more) ← parse_indefinite p fuel (drop used rest)
      ok (cons child children, used + more))
unfolding parse_indefinite
parse_indefinite_step p fuel rest h = rw (parse_indefinite, h)

parse_indefinite-nodes :
    (levels fuel : ℕ) (chunks : List Bytes)
    → length (octet_strings chunks) < fuel
    → length (octet_strings chunks) < 4_294_967_296
    → parse_indefinite (parse (suc levels)) fuel (octet_strings chunks ++ 0 ∷ 0 ∷ [])
      ≡ ok (nodes chunks, length (octet_strings chunks) + 2)
unfolding parse_indefinite encode
parse_indefinite-nodes levels zero chunks enough small = absurd (omega arith)
parse_indefinite-nodes levels (suc fuel) [] enough small = refl
parse_indefinite-nodes levels (suc fuel) (chunk ∷ chunks) enough small =
    let here = der 4 chunk in
    let others = octet_strings chunks in
    let size = length-append here others in
    let rest = others ++ 0 ∷ 0 ∷ [] in
    let first =
      parse-encode (suc levels) (primitive (4 ∷ []) chunk) rest octet-IsTag
        (omega (arith, size, small)) in
    let next =
      parse_indefinite-nodes levels fuel chunks (omega (arith, size, enough))
        (omega (arith, size, small)) in
    let used : length here + (length others + 2) ≡ length (here ++ others) + 2 =
      omega (arith, size) in
    ap (parse_indefinite (parse (suc levels)) (suc fuel)) (append_assoc here others (0 ∷ 0 ∷ []))
    ∙ parse_indefinite_step (parse (suc levels)) fuel (here ++ rest)
        (is_end-octet ((encode_length (length chunk) ++ chunk) ++ rest))
    ∙ rw (first, drop-append here rest, next) (λ i. ok (nodes (chunk ∷ chunks), used i))

-- What the identifier octet of a string says.
record IsFirst (first : ℕ) : Type 0 where
  tag : IsTag (first ∷ []) true
  joins : eligible (first ∷ []) ≡ true
  form : (first / 32 % 2 == 1) ≡ true

IsString-IsFirst : (first : ℕ) → IsString first → IsFirst first
unfolding tag_length is_constructed
IsString-IsFirst first (inl e) =
    let short : (first % 32 == 31) ≡ false = ground (arith, e) in
    let set : (first / 32 % 2 == 1) ≡ true = ground (arith, e) in
    record {
      tag = record { ends = λ rest. rw short refl; form = λ rest. set; some_byte = omega arith };
      joins = ground (arith, e);
      form = set;
    }
IsString-IsFirst first (inr r) =
    let short : (first % 32 == 31) ≡ false = ground (arith, r.0, r.1) in
    let set : (first / 32 % 2 == 1) ≡ true = ground (arith, r.0, r.1) in
    record {
      tag = record { ends = λ rest. rw short refl; form = λ rest. set; some_byte = omega arith };
      joins = ground (arith, r.0, r.1);
      form = set;
    }

joined-nodes :
    (first : ℕ) (chunks : List Bytes)
    → IsFirst first
    → 0 < length chunks
    → joined (constructed (first ∷ []) (nodes chunks))
      ≡ primitive ((first - 32) ∷ []) (contents chunks)
unfolding joined
joined-nodes first chunks f some_chunk =
    rw (f.joins, all_chunks-nodes chunks some_chunk, f.form, chunk_bytes-nodes chunks) refl

converted :
    (input : Bytes) (first : ℕ) (chunks : List Bytes)
    → IsFirst first
    → 0 < length chunks
    → parse (suc max_depth) input
      ≡ ok (joined (constructed (first ∷ []) (nodes chunks)), length input)
    → ber_to_der input ≡ ok (der (first - 32) (contents chunks))
unfolding ber_to_der encode
converted input first chunks f some_chunk h =
    let whole : (length input == length input) ≡ true = ground arith in
    rw (h, whole, joined-nodes first chunks f some_chunk) refl

parse-indefinite :
    (first : ℕ) (chunks : List Bytes)
    → IsFirst first
    → length (octet_strings chunks) < 4_294_967_296
    → parse (suc max_depth) (first ∷ 128 ∷ octet_strings chunks ++ 0 ∷ 0 ∷ [])
      ≡ ok (
        joined (constructed (first ∷ []) (nodes chunks)),
        length (first ∷ 128 ∷ octet_strings chunks ++ 0 ∷ 0 ∷ []),
      )
unfolding parse parse_body length_octets
parse-indefinite first chunks f small =
    let more = octet_strings chunks ++ 0 ∷ 0 ∷ [] in
    let size = length-append (octet_strings chunks) (0 ∷ 0 ∷ []) in
    let body = parse_indefinite-nodes 15 (suc (length more)) chunks (omega (arith, size)) small in
    let used : 1 + 1 + (length (octet_strings chunks) + 2) ≡ suc (suc (length more)) =
      omega (arith, size) in
    let two : ltb (suc (suc (length more))) 2 ≡ false = ground arith in
    rw (two, f.tag.ends (128 ∷ more), f.tag.form (128 ∷ more), body)
      (λ i. ok (joined (constructed (first ∷ []) (nodes chunks)), used i))

parse-definite :
    (first : ℕ) (chunks : List Bytes)
    → IsFirst first
    → length (octet_strings chunks) < 4_294_967_296
    → parse (suc max_depth) (der first (octet_strings chunks))
      ≡ ok (
        joined (constructed (first ∷ []) (nodes chunks)),
        length (der first (octet_strings chunks)),
      )
unfolding parse_body
parse-definite first chunks f small =
    let content = octet_strings chunks in
    let same = encode_all-nodes chunks in
    let fits : ltb (length (content ++ [])) (length content) ≡ false =
      ground (arith, length-append content []) in
    let inner : parse_definite (parse max_depth) (length content) content ≡ ok (nodes chunks) =
      subst (λ c. parse_definite (parse max_depth) (length content) c ≡ ok (nodes chunks)) same
        (parse_definite-encode_all max_depth (length content) (nodes chunks)
          (parse-encode max_depth) (nodes-AreNodes 15 chunks) (omega (arith, ap length same))
          (omega (arith, small, ap length same))) in
    let body : parse_body (parse max_depth) (first ∷ []) true (some (length content))
          (content ++ [])
        ≡ ok (constructed (first ∷ []) (nodes chunks), length content) =
      rw (fits, take-append content [], inner) refl in
    ap (parse (suc max_depth)) (sym (append-nil (der first content)))
    ∙ parse-parts max_depth (first ∷ []) content [] f.tag small body

-- A string in chunks comes out whole: one or more octet strings, under the identifier octet of a
-- constructed octet string or of a constructed context tag below 31, of definite or of indefinite
-- length, become one primitive string of the same tag whose content is theirs, in their order. The
-- chunks have less than 4 GiB together.
pub ber_to_der-chunks :
    (first : ℕ) (chunks : List Bytes)
    → IsString first
    → 0 < length chunks
    → length (octet_strings chunks) < 4_294_967_296
    → (ber_to_der (first ∷ 128 ∷ octet_strings chunks ++ 0 ∷ 0 ∷ [])
        ≡ ok (der (first - 32) (contents chunks)))
      × (ber_to_der (der first (octet_strings chunks)) ≡ ok (der (first - 32) (contents chunks)))
ber_to_der-chunks first chunks is_string some_chunk small =
    let f = IsString-IsFirst first is_string in
    (
      converted (first ∷ 128 ∷ octet_strings chunks ++ 0 ∷ 0 ∷ []) first chunks f some_chunk
          (parse-indefinite first chunks f small),
      converted (der first (octet_strings chunks)) first chunks f some_chunk
          (parse-definite first chunks f small),
    )
