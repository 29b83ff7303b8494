-- ===== src/Kms/Ber/Encoded.antt =====
-- The octets that the encoder writes, read back.
use enclave_signer.Prelude.{
  ℕ, suc, ◌+◌, ◌/◌, ◌%◌, ◌≤◌, ◌<◌, ◌≡◌, ◌∙◌, refl, false, some, [], ◌∷◌, ◌++◌, length, arith, ok,
  ltb, ◌==◌, Bytes, be_value, to_be_bytes, be_value-to_be_bytes, take-append, length-append,
  Bool-cases, inl, inr,
}
use enclave_signer.Kms.Ber.{starts_with_zero, long_length, length_octets, skip_zeros, encode_length}

be_value-skip_zeros : (bytes : Bytes) → be_value 0 (skip_zeros bytes) ≡ be_value 0 bytes
be_value-skip_zeros [] = refl
be_value-skip_zeros (b ∷ bytes) = ground (arith, be_value-skip_zeros bytes)

starts_with_zero-skip_zeros : (bytes : Bytes) → starts_with_zero (skip_zeros bytes) ≡ false
starts_with_zero-skip_zeros [] = refl
starts_with_zero-skip_zeros (b ∷ bytes) = ground (arith, starts_with_zero-skip_zeros bytes)

-- Eight bytes of a number below 2^32 begin with four zeros.
length-skip_zeros-le : (bytes : Bytes) → length (skip_zeros bytes) ≤ length bytes
length-skip_zeros-le [] = omega arith
length-skip_zeros-le (b ∷ bytes) = ground (arith, length-skip_zeros-le bytes)

four_bytes : (n : ℕ) → n < 4_294_967_296 → length (skip_zeros (to_be_bytes 8 n [])) ≤ 4
unfolding to_be_bytes
four_bytes n small =
    let high : n / 256 / 256 / 256 / 256 ≡ 0 = omega (arith, small) in
    rw high (
      length-skip_zeros-le
        (n / 256 / 256 / 256 % 256 ∷ n / 256 / 256 % 256 ∷ n / 256 % 256 ∷ n % 256 ∷ []))

value : (n : ℕ) → n < 4_294_967_296 → be_value 0 (skip_zeros (to_be_bytes 8 n [])) ≡ n
value n small = be_value-skip_zeros (to_be_bytes 8 n []) ∙ be_value-to_be_bytes 8 n (omega arith)

some_bytes : (bytes : Bytes) → 0 < be_value 0 bytes → 0 < length bytes
some_bytes [] h = h
some_bytes (b ∷ bytes) h = omega arith

long_length-value :
    (bytes rest : Bytes)
    → length bytes ≤ 4
    → starts_with_zero bytes ≡ false
    → long_length (length bytes) (bytes ++ rest) ≡ ok (some (be_value 0 bytes), 1 + length bytes)
unfolding long_length
long_length-value bytes rest small nonzero =
    let four : ltb 4 (length bytes) ≡ false = ground arith in
    let enough : ltb (length (bytes ++ rest)) (length bytes) ≡ false =
      ground (arith, length-append bytes rest) in
    rw (four, enough, take-append bytes rest, nonzero)

length_octets_long :
    (bytes rest : Bytes)
    → length bytes ≤ 4
    → 0 < length bytes
    → length_octets ((128 + length bytes) ∷ bytes ++ rest)
      ≡ long_length (length bytes) (bytes ++ rest)
unfolding length_octets
length_octets_long bytes rest small positive =
    let long : ltb (128 + length bytes) 128 ≡ false = ground arith in
    let definite : ((128 + length bytes) == 128) ≡ false = ground arith in
    let low : (128 + length bytes) % 128 ≡ length bytes = omega (arith, small) in
    rw (long, definite, low)

not_empty : (n : ℕ) → 0 < n → n < 4_294_967_296 → 0 < length (skip_zeros (to_be_bytes 8 n []))
not_empty n positive small =
    some_bytes (skip_zeros (to_be_bytes 8 n [])) (omega (arith, value n small))

pub length_octets-encode_length :
    (n : ℕ) (rest : Bytes)
    → n < 4_294_967_296
    → length_octets (encode_length n ++ rest) ≡ ok (some n, length (encode_length n))
unfolding length_octets encode_length
length_octets-encode_length n rest small = elim (Bool-cases (ltb n 128)) [
  | inl short ↦ ground (arith, short)
  | inr long ↦
      let bytes = skip_zeros (to_be_bytes 8 n []) in
      let four = four_bytes n small in
      let same : 1 + length bytes ≡ suc (length bytes) = omega arith in
      rw long (
        length_octets_long bytes rest four (not_empty n (ground arith) small)
        ∙ long_length-value bytes rest four (starts_with_zero-skip_zeros (to_be_bytes 8 n []))
        ∙ (λ i. ok (some (value n small i), same i)))
]
