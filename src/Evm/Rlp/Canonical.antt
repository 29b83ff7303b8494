-- ===== src/Evm/Rlp/Canonical.antt =====
-- The decoder accepts encodings alone.
use enclave_signer.Prelude.{
  AreBytes, ℕ, zero, suc, ◌+◌, ◌-◌, ◌≤◌, ◌<◌, ◌≡◌, refl, ap, ◌∙◌, inl, inr, false, List, [], ◌∷◌,
  arith, length, take, drop, ltb, leb, ◌==◌, Bool-cases, ltb→lt, ltb_false→le, ok, take-append-drop,
  All-take, All-drop, take_all, bind-ok,
}
use enclave_signer.Evm.Rlp.{
  Rlp, str, list, Items, Decoder, read_long_len, decode_list, short_list, long_list, decode_one,
  decode_canonical, usize_mod, max_rlp_items,
}
use enclave_signer.Evm.Rlp.Encode.{header, encode, encode_items, size, size_items}
use enclave_signer.Evm.Rlp.Length.{read_long_len-big_endian}
use enclave_signer.Evm.Rlp.Frame.{
  Decoded, same_answer, IsSound, header-short, header-long, framed, short_string-Decoded,
  long_string-Decoded, single-Decoded,
}

module _ (decode : Decoder) (sound : IsSound decode) where
  decode_list-canonical :
      (fuel : ℕ) (buf : List ℕ) (left : ℕ) {items : Items} {left' : ℕ}
      → AreBytes buf
      → decode_list decode fuel buf left ≡ ok (items, left')
      → (encode_items items ≡ buf) × (size_items items + left' ≡ left)
  unfolding decode_list encode size
  decode_list-canonical fuel [] left p h = ground arith
  decode_list-canonical zero (b ∷ buf) left p h = cc
  decode_list-canonical (suc fuel) (b ∷ buf) left p h =
      let ((item, used, left1), read, h') = bind-ok (decode (b ∷ buf) left) _ h in
      let ((items', left2), rest, h'') =
        bind-ok (decode_list decode fuel (drop used (b ∷ buf)) left1) _ h' in
      let d = sound (b ∷ buf) left item used left1 p read in
      let (again, count) =
        decode_list-canonical fuel (drop used (b ∷ buf)) left1 (All-drop _ used (b ∷ buf) p) rest in
      ground (arith, d.canonical, d.counted, again, count, take-append-drop used (b ∷ buf), h'')

module _ (decode : Decoder) (sound : IsSound decode) where
  list_framed :
      (at len : ℕ) (buf : List ℕ) (left : ℕ) {items : Items} {left' : ℕ}
      → AreBytes buf
      → header 192 len ≡ take at buf
      → 0 < at
      → at + len ≤ length buf
      → decode_list decode len (take len (drop at buf)) left ≡ ok (items, left')
      → Decoded buf (list items) (at + len) (suc left) left'
  unfolding encode size
  list_framed at len buf left p head pos within h =
      let payload = take len (drop at buf) in
      let (again, count) =
        decode_list-canonical decode sound len payload left
          (All-take _ len (drop at buf) (All-drop _ at buf p)) h in
      record {
        some_used = omega arith;
        within = within;
        canonical = rw again (framed 192 at len buf payload head refl within);
        counted = omega (arith, count);
      }

  short_list-Decoded :
      (b0 : ℕ) (rest : List ℕ) (left : ℕ) (item : Rlp) (used left' : ℕ)
      → AreBytes (b0 ∷ rest)
      → 192 ≤ b0
      → b0 < 248
      → short_list decode (b0 - 192) (b0 ∷ rest) left ≡ ok (item, used, left')
      → Decoded (b0 ∷ rest) item used (suc left) left'
  unfolding short_list
  short_list-Decoded b0 rest left item used left' p low high h =
      let within : 1 + (b0 - 192) ≤ length (b0 ∷ rest) = ground arith in
      let enough : ltb (length (b0 ∷ rest)) (1 + (b0 - 192)) ≡ false = ground arith in
      let ((items, left1), read, h') =
        bind-ok (decode_list decode (b0 - 192) (take (b0 - 192) (drop 1 (b0 ∷ rest))) left) _
          (rw enough at h) in
      let head = header-short 192 (b0 - 192) b0 rest (omega arith) (omega arith) in
      let d = list_framed 1 (b0 - 192) (b0 ∷ rest) left p head (omega arith) within read in
      let item_is : item ≡ list items = ground (arith, h') in
      let used_is : used ≡ 1 + (b0 - 192) = ground (arith, h') in
      let left_is : left' ≡ left1 = ground (arith, h') in same_answer item_is used_is left_is d

  long_list-Decoded :
      (b0 : ℕ) (rest : List ℕ) (left : ℕ) (item : Rlp) (used left' : ℕ)
      → AreBytes (b0 ∷ rest)
      → 248 ≤ b0
      → long_list decode (b0 - 247) (b0 ∷ rest) left ≡ ok (item, used, left')
      → Decoded (b0 ∷ rest) item used (suc left) left'
  unfolding long_list
  long_list-Decoded b0 rest left item used left' p low h =
      let ((len, end), read, h1) = bind-ok (read_long_len (b0 ∷ rest) (b0 - 247)) _ h in
      let (ends, long, enough, be) =
        read_long_len-big_endian b0 rest (b0 - 247) p.1 (omega (arith, p.0)) read in
      let within : end + len ≤ length (b0 ∷ rest) = ground (arith, h1) in
      let fits : leb usize_mod (end + len) ≡ false = ground (arith, h1) in
      let covered : ltb (length (b0 ∷ rest)) (end + len) ≡ false = ground (arith, h1) in
      let ((items, left1), list_read, h2) =
        bind-ok (decode_list decode len (take len (drop end (b0 ∷ rest))) left) _
          (rw (fits, covered) at h1) in
      let head = header-long 192 len (b0 - 247) b0 rest long (omega arith) enough be in
      let d =
        list_framed end len (b0 ∷ rest) left p (rw ends head) (omega (arith, ends)) within
          list_read in
      let item_is : item ≡ list items = ground (arith, h2) in
      let used_is : used ≡ end + len = ground (arith, h2) in
      let left_is : left' ≡ left1 = ground (arith, h2) in same_answer item_is used_is left_is d

pub decode_one-Decoded : (levels : ℕ) → IsSound (decode_one levels)
unfolding decode_one
decode_one-Decoded zero buf left item used left' p h = cc
decode_one-Decoded (suc levels) [] left item used left' p h = cc
decode_one-Decoded (suc levels) (b0 ∷ rest) zero item used left' p h = ground arith
decode_one-Decoded (suc levels) (b0 ∷ rest) (suc left) item used left' p h =
    let sound = decode_one-Decoded levels in
    let decode = decode_one levels in
    let some_left : (suc left == 0) ≡ false = ground arith in
    let less : suc left - 1 ≡ left = omega arith in
    let h' = rw (some_left, less) at h in
    elim (Bool-cases (ltb b0 128)) [
      | inl byte ↦
          let item_is : item ≡ str (b0 ∷ []) = ground (arith, h') in
          let used_is : used ≡ 1 = ground (arith, h') in
          let left_is : left' ≡ left = ground (arith, h') in
          same_answer item_is used_is left_is (single-Decoded b0 rest left (ltb→lt _ _ byte))
      | inr e1 ↦ elim (Bool-cases (ltb b0 184)) [
        | inl e2 ↦
            short_string-Decoded b0 rest left item used left' (ltb_false→le _ _ e1) (ltb→lt _ _ e2)
              (rw (e1, e2) at h')
        | inr e2 ↦ elim (Bool-cases (ltb b0 192)) [
          | inl e3 ↦
              long_string-Decoded b0 rest left item used left' p.1 (ltb_false→le _ _ e2)
                (ltb→lt _ _ e3) (rw (e1, e2, e3) at h')
          | inr e3 ↦ elim (Bool-cases (ltb b0 248)) [
            | inl e4 ↦
                short_list-Decoded decode sound b0 rest left item used left' p (ltb_false→le _ _ e3)
                  (ltb→lt _ _ e4) (rw (e1, e2, e3, e4) at h')
            | inr e4 ↦
                long_list-Decoded decode sound b0 rest left item used left' p (ltb_false→le _ _ e4)
                  (rw (e1, e2, e3, e4) at h')
          ]
        ]
      ]
    ]

-- Of bytes, the decoder accepts only the encoding of the item that it answers with, so no two
-- inputs decode to one item; and the item has at most 1024 items in it, itself included.
pub decode_canonical_lem :
    (buf : List ℕ) {item : Rlp}
    → AreBytes buf
    → decode_canonical buf ≡ ok item
    → (encode item ≡ buf) × (size item ≤ max_rlp_items)
unfolding decode_canonical
decode_canonical_lem buf {item} p h =
    let ((item', used, left), read, h') = bind-ok (decode_one 9 buf max_rlp_items) _ h in
    let d = decode_one-Decoded 9 buf max_rlp_items item' used left p read in
    let all_used : used ≡ length buf = ground (arith, h') in
    let same : item ≡ item' = ground (arith, h') in
    rw same (
      d.canonical ∙ ap (λ n. take n buf) all_used ∙ take_all (length buf) buf (omega arith),
      omega (arith, d.counted),
    )
