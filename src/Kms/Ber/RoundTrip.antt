-- ===== src/Kms/Ber/RoundTrip.antt =====
-- What the encoder writes is read back as the same node.
use enclave_signer.Prelude.{
  ℕ, zero, suc, ◌+◌, ◌-◌, ◌≤◌, ◌<◌, ◌≡◌, ◌∙◌, sym, ap, refl, Bool, true, false, ◌>>=◌, subst, some,
  [], ◌∷◌, ◌++◌, not, ◌==◌, length, drop, arith, ok, ltb, Bytes, bind-ok, refuse_if_past,
  length-append, take-append, drop-append,
}
use mathlib.Core.List.{append-nil, append_assoc}
use enclave_signer.Kms.Ber.{
  Parser, Node, primitive, constructed, Nodes, nil, cons, refused, max_depth, parse_definite,
  parse_body, joined, parse, encode_length, encode, encode_all, ber_to_der,
}
use enclave_signer.Kms.Ber.Encoded.{length_octets-encode_length}
use enclave_signer.Kms.Ber.Parsed.{ok_is, IsTag, IsNode, AreNodes, parse-IsNode}

length-encode_length : (n : ℕ) → 0 < length (encode_length n)
unfolding encode_length
length-encode_length n = ground arith

parse_tail :
    (levels : ℕ) (tag content rest : Bytes) {is : Bool} {node : Node}
    → IsTag tag is
    → length content < 4_294_967_296
    → parse_body (parse levels) tag is (some (length content)) (content ++ rest)
      ≡ ok (node, length content)
    → parse (suc levels) (tag ++ (encode_length (length content) ++ (content ++ rest)))
      ≡ ok (joined node, length tag + length (encode_length (length content)) + length content)
unfolding parse
parse_tail levels tag content rest t small h =
    let octets = encode_length (length content) in
    let after = content ++ rest in
    let more = octets ++ after in
    let two : ltb (length (tag ++ more)) 2 ≡ false = ground (
      arith,
      length-append tag more,
      length-append octets after,
      t.some_byte,
      length-encode_length (length content),
    ) in
    rw (
      two,
      t.ends more,
      take-append tag more,
      drop-append tag more,
      t.form more,
      length_octets-encode_length (length content) after small,
      drop-append octets after,
      h,
    )

-- A value made of a tag, a length and content is parsed by its parts.
pub parse-parts :
    (levels : ℕ) (tag content rest : Bytes) {is : Bool} {node : Node}
    → IsTag tag is
    → length content < 4_294_967_296
    → parse_body (parse levels) tag is (some (length content)) (content ++ rest)
      ≡ ok (node, length content)
    → parse (suc levels) ((tag ++ encode_length (length content) ++ content) ++ rest)
      ≡ ok (joined node, length (tag ++ encode_length (length content) ++ content))
parse-parts levels tag content rest {is} {node} t small h =
    let octets = encode_length (length content) in
    let more = octets ++ (content ++ rest) in
    let shape : ((tag ++ octets) ++ content) ++ rest ≡ tag ++ more =
      append_assoc (tag ++ octets) content rest ∙ append_assoc tag octets (content ++ rest) in
    let size : length tag + length octets + length content ≡ length ((tag ++ octets) ++ content) =
      omega (arith, length-append (tag ++ octets) content, length-append tag octets) in
    ap (parse (suc levels)) shape
    ∙ parse_tail levels tag content rest t small h
    ∙ (λ i. ok (joined node, size i))

-- Every node is read back.
abbrev pub Complete : ℕ → Type 0
Complete levels =
    (node : Node) (rest : Bytes)
    → IsNode levels node
    → length (encode node) < 4_294_967_296
    → parse levels (encode node ++ rest) ≡ ok (node, length (encode node))

parts_positive :
    (tag octets content : Bytes) → 0 < length tag → 0 < length ((tag ++ octets) ++ content)
parts_positive tag octets content h =
    omega (arith, length-append (tag ++ octets) content, length-append tag octets)

some_bytes : (levels : ℕ) (node : Node) → IsNode levels node → 0 < length (encode node)
unfolding encode
some_bytes zero node c = elim c [ ]
some_bytes (suc levels) (primitive tag bytes) c =
    parts_positive tag (encode_length (length bytes)) bytes c.some_byte
some_bytes (suc levels) (constructed tag children) c =
    parts_positive tag (encode_length (length (encode_all children))) (encode_all children)
      c.0.some_byte

parse_definite_step :
    (p : Parser) (fuel : ℕ) (content : Bytes)
    → 0 < length content
    → parse_definite p (suc fuel) content ≡ (do
      (child, used) ← p content
      children ← parse_definite p fuel (drop used content)
      ok (cons child children))
unfolding parse_definite
parse_definite_step p fuel [] h = elim h [ ]
parse_definite_step p fuel (b ∷ content) h = refl

pub parse_definite-encode_all :
    (levels fuel : ℕ) (children : Nodes)
    → Complete levels
    → AreNodes levels children
    → length (encode_all children) ≤ fuel
    → length (encode_all children) < 4_294_967_296
    → parse_definite (parse levels) fuel (encode_all children) ≡ ok children
unfolding parse_definite encode
parse_definite-encode_all levels fuel nil complete c enough small = refl
parse_definite-encode_all levels fuel (cons child children) complete c enough small =
    let all = encode_all children in
    let size = length-append (encode child) all in
    let positive = some_bytes levels child c.0 in
    let here = complete child all c.0 (omega (arith, size, small)) in
    let others =
      parse_definite-encode_all levels (fuel - 1) children complete c.1
        (omega (arith, size, positive, enough)) (omega (arith, size, small)) in
    let fuel_is : fuel ≡ suc (fuel - 1) = omega (arith, size, positive, enough) in
    ap (λ n. parse_definite (parse levels) n (encode child ++ all)) fuel_is
    ∙ parse_definite_step (parse levels) (fuel - 1) (encode child ++ all)
        (omega (arith, size, positive))
    ∙ rw (here, drop-append (encode child) all, others)

parts_size : (tag octets content : Bytes) → length content ≤ length ((tag ++ octets) ++ content)
parts_size tag octets content = omega (arith, length-append (tag ++ octets) content)

pub parse-encode : (levels : ℕ) → Complete levels
unfolding encode joined parse_body
parse-encode zero node rest c small = elim c [ ]
parse-encode (suc levels) (primitive tag bytes) rest c small =
    let size = parts_size tag (encode_length (length bytes)) bytes in
    let fits : ltb (length (bytes ++ rest)) (length bytes) ≡ false =
      ground (arith, length-append bytes rest) in
    let body : parse_body (parse levels) tag false (some (length bytes)) (bytes ++ rest)
        ≡ ok (primitive tag bytes, length bytes) =
      rw (fits, take-append bytes rest) in
    parse-parts levels tag bytes rest c (omega (arith, size, small)) body
parse-encode (suc levels) (constructed tag children) rest c small =
    let content = encode_all children in
    let size = parts_size tag (encode_length (length content)) content in
    let less : length content < 4_294_967_296 = omega (arith, size, small) in
    let fits : ltb (length (content ++ rest)) (length content) ≡ false =
      ground (arith, length-append content rest) in
    let inner =
      parse_definite-encode_all levels (length content) children (parse-encode levels) c.2
        (omega arith) less in
    let kept : joined (constructed tag children) ≡ constructed tag children = rw c.1 in
    let body : parse_body (parse levels) tag true (some (length content)) (content ++ rest)
        ≡ ok (constructed tag children, length content) =
      rw (fits, take-append content rest, inner) in
    parse-parts levels tag content rest c.0 less body
    ∙ (λ i. ok (kept i, length (encode (constructed tag children))))

ber_to_der-encode :
    (node : Node)
    → IsNode (suc max_depth) node
    → length (encode node) < 4_294_967_296
    → ber_to_der (encode node) ≡ ok (encode node)
unfolding ber_to_der
ber_to_der-encode node c small =
    let read : parse (suc max_depth) (encode node) ≡ ok (node, length (encode node)) =
      ap (parse (suc max_depth)) (sym (append-nil (encode node)))
      ∙ parse-encode (suc max_depth) node [] c small in
    let whole : (length (encode node) == length (encode node)) ≡ true = ground arith in
    rw (read, whole)

-- The output of the conversion, when it is shorter than 4 GiB, converts to itself.
pub ber_to_der_idem :
    (input : Bytes) {output : Bytes}
    → ber_to_der input ≡ ok output
    → length output < 4_294_967_296
    → ber_to_der output ≡ ok output
unfolding ber_to_der
ber_to_der_idem input {output} h small =
    let (parsed, is_parsed, h1) = bind-ok (parse (suc max_depth) input) _ h in
    let (whole, h2) = refuse_if_past (not (parsed.1 == length input)) refused _ h1 in
    let c = parse-IsNode (suc max_depth) input parsed.0 parsed.1 is_parsed in
    subst (λ o. ber_to_der o ≡ ok o) (ok_is h2)
      (ber_to_der-encode parsed.0 c (subst (λ o. length o < 4_294_967_296) (sym (ok_is h2)) small))
