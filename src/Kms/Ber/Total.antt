-- ===== src/Kms/Ber/Total.antt =====
-- The fuel of the two loops over the children is enough.
use enclave_signer.Prelude.{
  ℕ, zero, suc, ◌+◌, ◌%◌, ◌≤◌, ◌<◌, ◌≡◌, ◌≢◌, inl, inr, ap, Bool, true, false, Option, none, some,
  [], ◌∷◌, arith, length, take, drop, ok, err, ltb, Bytes, bind-ok, refuse_if_past, Result-cases,
  Bool-cases, length-take, length-drop,
}
use enclave_signer.Kms.Ber.{
  Node, BerError, BerResult, refused, out_of_fuel, Parser, long_tag, tag_length, is_constructed,
  long_length, length_octets, parse_definite, is_end, parse_indefinite, parse_body, parse,
  max_depth, ber_to_der,
}
use enclave_signer.Kms.Ber.Parsed.{ok_is, tag_length-IsTag}

abbrev IsTotal : Parser → Type 0
IsTotal p = (input : Bytes) → p input ≢ err out_of_fuel

-- A value takes a byte at least.
abbrev IsUsing : Parser → Type 0
IsUsing p =
    (input : Bytes) (node : Node) (used : ℕ)
    → p input ≡ ok (node, used)
    → (0 < used) × (0 < length input)

long_tag_total : (offset : ℕ) (bytes : Bytes) → long_tag offset bytes ≢ err out_of_fuel
unfolding long_tag
long_tag_total offset [] = λ h. cc h
long_tag_total offset (b ∷ bytes) = ground (arith, long_tag_total (offset + 1) bytes)

tag_length_total : (input : Bytes) → tag_length input ≢ err out_of_fuel
unfolding tag_length
tag_length_total [] = λ h. cc h
tag_length_total (first ∷ bytes) = ground (arith, long_tag_total 1 bytes)

long_length_total : (n : ℕ) (bytes : Bytes) → long_length n bytes ≢ err out_of_fuel
unfolding long_length
long_length_total n bytes = ground arith

length_octets_total : (bytes : Bytes) → length_octets bytes ≢ err out_of_fuel
unfolding length_octets
length_octets_total [] = λ h. cc h
length_octets_total (l ∷ bytes) = ground (arith, long_length_total (l % 128) bytes)

stopped : {A : Type 0} {x : A} {e : BerError} → ◌≢◌ {A = BerResult A} (ok x) (err e)
stopped h = cc

module _ (p : Parser) (total : IsTotal p) (uses : IsUsing p) where
  parse_definite_total :
      (fuel : ℕ) (content : Bytes)
      → length content ≤ fuel
      → parse_definite p fuel content ≢ err out_of_fuel
  unfolding parse_definite
  parse_definite_total fuel [] enough = λ h. cc h
  parse_definite_total zero (b ∷ content) enough = absurd (omega arith)
  parse_definite_total (suc fuel) (b ∷ content) enough = elim (Result-cases (p (b ∷ content))) [
    | inl ((child, used), read) ↦
        let (positive, _) = uses (b ∷ content) child used read in
        let rest =
          parse_definite_total fuel (drop used (b ∷ content))
            (omega (arith, positive, length-drop used (b ∷ content))) in
        rw read (ground (arith, rest))
    | inr (e, failed) ↦ ground (arith, failed, total (b ∷ content))
  ]

  parse_indefinite_total :
      (fuel : ℕ) (rest : Bytes)
      → length rest < fuel
      → parse_indefinite p fuel rest ≢ err out_of_fuel
  unfolding parse_indefinite
  parse_indefinite_total zero rest enough = absurd (omega arith)
  parse_indefinite_total (suc fuel) rest enough = elim (Bool-cases (is_end rest)) [
    | inl stop ↦ λ h. stopped (rw (stop, parse_indefinite) at h)
    | inr more ↦ elim (Result-cases (p rest)) [
      | inl ((child, used), read) ↦
          let (positive, some_byte) = uses rest child used read in
          let others =
            parse_indefinite_total fuel (drop used rest)
              (omega (arith, positive, some_byte, length-drop used rest)) in
          rw (more, parse_indefinite, read) (ground (arith, others))
      | inr (e, failed) ↦ rw (more, parse_indefinite) (ground (arith, failed, total rest))
    ]
  ]

  parse_body_total :
      (tag : Bytes) (is : Bool) (len : Option ℕ) (rest : Bytes)
      → parse_body p tag is len rest ≢ err out_of_fuel
  unfolding parse_body
  parse_body_total tag false (some len) rest = ground arith
  parse_body_total tag true (some len) rest =
      ground (arith, parse_definite_total len (take len rest) (omega (arith, length-take len rest)))
  parse_body_total tag false none rest = λ h. cc h
  parse_body_total tag true none rest =
      ground (arith, parse_indefinite_total (suc (length rest)) rest (omega arith))

parse-IsUsing : (levels : ℕ) → IsUsing (parse levels)
unfolding parse
parse-IsUsing zero input node used h = cc
parse-IsUsing (suc levels) input node used h =
    let (enough, h1) = refuse_if_past (ltb (length input) 2) refused _ h in
    let (offset, is_offset, h2) = bind-ok (tag_length input) _ h1 in
    let (length_is, is_length, h3) = bind-ok (length_octets (drop offset input)) _ h2 in
    let (body, is_body, h4) =
      bind-ok
        (parse_body (parse levels) (take offset input) (is_constructed input) length_is.0
          (drop length_is.1 (drop offset input)))
        _ h3 in
    let (within, tag) = tag_length-IsTag input is_offset in
    let used_is = ap (λ x. x.1) (ok_is h4) in
    (
      omega (arith, used_is, tag.some_byte, length-take offset input),
      omega (arith, tag.some_byte, length-take offset input),
    )

parse-IsTotal : (levels : ℕ) → IsTotal (parse levels)
unfolding parse
parse-IsTotal zero input = λ h. cc h
parse-IsTotal (suc levels) input = elim (Result-cases (tag_length input)) [
  | inr (e, failed) ↦ ground (arith, failed, tag_length_total input)
  | inl (offset, tagged) ↦ elim (Result-cases (length_octets (drop offset input))) [
    | inr (e, failed) ↦ rw tagged (ground (arith, failed, length_octets_total (drop offset input)))
    | inl ((len, octets), measured) ↦
        rw (tagged, measured)
          (ground (
            arith,
            parse_body_total (parse levels) (parse-IsTotal levels) (parse-IsUsing levels)
                (take offset input) (is_constructed input) len (drop octets (drop offset input)),
          ))
  ]
]

-- The conversion answers with bytes or refuses: its loops never run out of fuel.
pub ber_to_der_total : (input : Bytes) → ber_to_der input ≢ err out_of_fuel
unfolding ber_to_der
ber_to_der_total input = ground (arith, parse-IsTotal (suc max_depth) input)
