-- ===== src/Tests/Ber.antt =====
-- A string in two chunks of indefinite length, converted.
use enclave_signer.Prelude.{
  ◌≡◌, ◌≢◌, refl, [], ◌∷◌, arith, inl, length, List, ◌++◌, ◌<◌, ok, err, Bytes, same_bytes,
  to_be_bytes,
}
use enclave_signer.Kms.Ber.{
  long_tag, tag_length, is_constructed, long_length, length_octets, parse_definite,
  parse_indefinite, parse_body, joined, parse, encode_length, encode, ber_to_der, out_of_fuel,
}
use enclave_signer.Kms.Ber.Chunks.{der, octet_strings, contents, ber_to_der-chunks}
use enclave_signer.Kms.Ber.Total.{ber_to_der_total}

abbrev chunked : Bytes
chunked = 36 ∷ 128 ∷ 4 ∷ 1 ∷ 5 ∷ 4 ∷ 1 ∷ 6 ∷ 0 ∷ 0 ∷ []

abbrev whole : Bytes
whole = 4 ∷ 2 ∷ 5 ∷ 6 ∷ []

converts : ber_to_der chunked ≡ ok whole
unfolding same_bytes to_be_bytes long_tag tag_length is_constructed long_length length_octets
    parse_definite parse_indefinite parse_body joined parse encode_length encode ber_to_der
converts = refl

abbrev chunks : List Bytes
chunks = (5 ∷ []) ∷ (6 ∷ []) ∷ []

small_chunks : length (octet_strings chunks) < 4_294_967_296
unfolding encode_length
small_chunks = omega arith

-- `chunked` is the first of the two, and `whole` what both become.
ber_to_der-chunks_example :
    (ber_to_der (36 ∷ 128 ∷ octet_strings chunks ++ 0 ∷ 0 ∷ []) ≡ ok (der 4 (contents chunks)))
    × (ber_to_der (der 36 (octet_strings chunks)) ≡ ok (der 4 (contents chunks)))
ber_to_der-chunks_example = ber_to_der-chunks 36 chunks (inl refl) (omega arith) small_chunks

ber_to_der_total_example : ber_to_der chunked ≢ err out_of_fuel
ber_to_der_total_example = ber_to_der_total chunked
