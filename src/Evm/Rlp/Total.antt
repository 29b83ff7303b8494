-- ===== src/Evm/Rlp/Total.antt =====
-- The fuel of the list loop is enough: the decoder never runs out of it.
use enclave_signer.Prelude.{
  AreBytes, ℕ, zero, suc, ◌+◌, ◌-◌, ◌*◌, ◌%◌, ◌≤◌, ◌≢◌, inl, inr, List, [], ◌∷◌, arith, length,
  take, drop, err, Result-cases, length-take, length-drop, All-take, All-drop,
}
use enclave_signer.Error.{internal}
use enclave_signer.Evm.Rlp.{
  Decoder, accumulate, read_long_len, decode_list, short_string, long_string, short_list, long_list,
  decode_one, decode_canonical, max_rlp_items, usize_mod,
}
use enclave_signer.Evm.Rlp.Frame.{IsSound}
use enclave_signer.Evm.Rlp.Canonical.{decode_one-Decoded}

abbrev IsTotal : Decoder → Type 0
IsTotal decode = (buf : List ℕ) (left : ℕ) → AreBytes buf → decode buf left ≢ err internal

accumulate_total : (len : ℕ) (bytes : List ℕ) → accumulate len bytes ≢ err internal
unfolding accumulate
accumulate_total len [] = λ h. cc h
accumulate_total len (b ∷ bytes) =
    ground (arith, accumulate_total (len * 256 % usize_mod + b) bytes)

read_long_len_total : (buf : List ℕ) (n : ℕ) → read_long_len buf n ≢ err internal
unfolding read_long_len
read_long_len_total buf n = ground (arith, accumulate_total 0 (take n (drop 1 buf)))

short_string_total : (n : ℕ) (buf : List ℕ) (left : ℕ) → short_string n buf left ≢ err internal
unfolding short_string
short_string_total n buf left = ground arith

long_string_total : (n : ℕ) (buf : List ℕ) (left : ℕ) → long_string n buf left ≢ err internal
unfolding long_string
long_string_total n buf left = ground (arith, read_long_len_total buf n)

module _ (decode : Decoder) (sound : IsSound decode) (total : IsTotal decode) where
  decode_list_total :
      (fuel : ℕ) (buf : List ℕ) (left : ℕ)
      → AreBytes buf
      → length buf ≤ fuel
      → decode_list decode fuel buf left ≢ err internal
  unfolding decode_list
  decode_list_total fuel [] left p enough = λ h. cc h
  decode_list_total zero (b ∷ buf) left p enough = absurd (omega arith)
  decode_list_total (suc fuel) (b ∷ buf) left p enough =
      elim (Result-cases (decode (b ∷ buf) left)) [
        | inl ((item, used, left1), read) ↦
            let d = sound (b ∷ buf) left item used left1 p read in
            let rest =
              decode_list_total fuel (drop used (b ∷ buf)) left1 (All-drop _ used (b ∷ buf) p)
                (omega (arith, d.some_used, length-drop used (b ∷ buf))) in
            rw read (ground (arith, rest))
        | inr (e, failed) ↦ ground (arith, failed, total (b ∷ buf) left p)
      ]

  payload_total :
      (at len : ℕ) (buf : List ℕ) (left : ℕ)
      → AreBytes buf
      → decode_list decode len (take len (drop at buf)) left ≢ err internal
  payload_total at len buf left p =
      decode_list_total len (take len (drop at buf)) left
        (All-take _ len (drop at buf) (All-drop _ at buf p))
        (omega (arith, length-take len (drop at buf)))

  short_list_total :
      (n : ℕ) (buf : List ℕ) (left : ℕ) → AreBytes buf → short_list decode n buf left ≢ err internal
  unfolding short_list
  short_list_total n buf left p = ground (arith, payload_total 1 n buf left p)

  long_list_total :
      (n : ℕ) (buf : List ℕ) (left : ℕ) → AreBytes buf → long_list decode n buf left ≢ err internal
  unfolding long_list
  long_list_total n buf left p = elim (Result-cases (read_long_len buf n)) [
    | inl ((len, end), read) ↦ rw read (ground (arith, payload_total end len buf left p))
    | inr (e, failed) ↦ ground (arith, failed, read_long_len_total buf n)
  ]

decode_one-IsTotal : (levels : ℕ) → IsTotal (decode_one levels)
unfolding decode_one
decode_one-IsTotal zero buf left p = λ h. cc h
decode_one-IsTotal (suc levels) [] left p = λ h. cc h
decode_one-IsTotal (suc levels) (b0 ∷ rest) left p =
    let sound = decode_one-Decoded levels in
    let total = decode_one-IsTotal levels in
    ground (
      arith,
      short_string_total (b0 - 128) (b0 ∷ rest) (left - 1),
      long_string_total (b0 - 183) (b0 ∷ rest) (left - 1),
      short_list_total (decode_one levels) sound total (b0 - 192) (b0 ∷ rest) (left - 1) p,
      long_list_total (decode_one levels) sound total (b0 - 247) (b0 ∷ rest) (left - 1) p,
    )

-- Of bytes, the decoder answers with an item or refuses with the source's own error: its loops
-- never run out of fuel.
pub decode_canonical_total : (buf : List ℕ) → AreBytes buf → decode_canonical buf ≢ err internal
unfolding decode_canonical
decode_canonical_total buf p = ground (arith, decode_one-IsTotal 9 buf max_rlp_items p)
