-- ===== src/Evm/Rlp/Frame.antt =====
-- A header and its payload, and the items that are strings.
use enclave_signer.Prelude.{
  AreBytes, ℕ, zero, suc, ◌+◌, ◌-◌, ◌≤◌, ◌<◌, ◌≡◌, refl, ap, false, List, [], ◌∷◌, ◌++◌, arith,
  length, take, drop, ltb, leb, ◌==◌, ok, ◌&&◌, length-take, length-drop, bind-ok,
}
use enclave_signer.Evm.Rlp.{
  Rlp, str, Decoder, first_or_zero, read_long_len, short_string, long_string,
}
use enclave_signer.Evm.Rlp.Encode.{big_endian, header, is_single, encode, size}
use enclave_signer.Evm.Rlp.Length.{take_add, read_long_len-big_endian}

-- What a decoder has read: the one encoding of the item, at the front of the buffer.
pub record Decoded (buf : List ℕ) (item : Rlp) (used left left' : ℕ) : Type 0 where
  pub some_used : 0 < used
  pub within : used ≤ length buf
  pub canonical : encode item ≡ take used buf
  pub counted : size item + left' ≡ left

pub same_answer :
    {buf : List ℕ} {item item' : Rlp} {used used' left left' left'' : ℕ}
    → item ≡ item'
    → used ≡ used'
    → left' ≡ left''
    → Decoded buf item' used' left left''
    → Decoded buf item used left left'
same_answer e u l d = rw (e, u, l) d

abbrev pub IsSound : Decoder → Type 0
IsSound decode =
    (buf : List ℕ) (left : ℕ) (item : Rlp) (used left' : ℕ)
    → AreBytes buf
    → decode buf left ≡ ok (item, used, left')
    → Decoded buf item used left left'

pub header-short :
    (base len b0 : ℕ) (rest : List ℕ)
    → len ≤ 55
    → base + len ≡ b0
    → header base len ≡ take 1 (b0 ∷ rest)
unfolding header
header-short base len b0 rest short e = ground arith

pub header-long :
    (base len len_of_len b0 : ℕ) (rest : List ℕ)
    → 55 < len
    → base + 55 + len_of_len ≡ b0
    → len_of_len ≤ length rest
    → big_endian 8 len [] ≡ take len_of_len rest
    → header base len ≡ take (1 + len_of_len) (b0 ∷ rest)
unfolding header
header-long base len len_of_len b0 rest long e enough be =
    let measured : length (take len_of_len rest) ≡ len_of_len =
      omega (arith, length-take len_of_len rest) in
    let next : 1 + len_of_len ≡ suc len_of_len = omega arith in
    let over : leb len 55 ≡ false = ground arith in rw (over, be, measured, e, next)

-- A header and the payload that it announces are a prefix of the buffer.
pub framed :
    (base at len : ℕ) (buf payload : List ℕ)
    → header base len ≡ take at buf
    → payload ≡ take len (drop at buf)
    → at + len ≤ length buf
    → header base (length payload) ++ payload ≡ take (at + len) buf
framed base at len buf payload h p within =
    let measured : length payload ≡ len =
      omega (arith, ap length p, length-take len (drop at buf), length-drop at buf) in
    rw (measured, h, p, take_add)

-- The payload of a string that passed the check is no single small byte.
not_single :
    (len : ℕ) (rest : List ℕ)
    → len ≤ length rest
    → (len == 1 && ltb (first_or_zero rest) 128) ≡ false
    → is_single (take len rest) ≡ false
not_single zero rest e h = refl
not_single (suc zero) [] e h = refl
not_single (suc zero) (x ∷ rest) e h = ground arith
not_single (suc (suc len)) [] e h = refl
not_single (suc (suc len)) (x ∷ []) e h = absurd (omega arith)
not_single (suc (suc len)) (x ∷ y ∷ rest) e h = refl

pub short_string-Decoded :
    (b0 : ℕ) (rest : List ℕ) (left : ℕ) (item : Rlp) (used left' : ℕ)
    → 128 ≤ b0
    → b0 < 184
    → short_string (b0 - 128) (b0 ∷ rest) left ≡ ok (item, used, left')
    → Decoded (b0 ∷ rest) item used (suc left) left'
unfolding short_string encode size
short_string-Decoded b0 rest left item used left' low high h =
    let bytes = take (b0 - 128) rest in
    let item_is : item ≡ str bytes = ground arith in
    let used_is : used ≡ 1 + (b0 - 128) = ground arith in
    let left_is : left' ≡ left = ground arith in
    let within : 1 + (b0 - 128) ≤ length (b0 ∷ rest) = ground arith in
    let many : is_single bytes ≡ false = not_single (b0 - 128) rest (omega arith) (ground arith) in
    let head = header-short 128 (b0 - 128) b0 rest (omega arith) (omega arith) in
    same_answer item_is used_is left_is (record {
      some_used = omega arith;
      within = within;
      canonical = rw many (framed 128 1 (b0 - 128) (b0 ∷ rest) bytes head refl within);
      counted = omega arith;
    })

pub long_string-Decoded :
    (b0 : ℕ) (rest : List ℕ) (left : ℕ) (item : Rlp) (used left' : ℕ)
    → AreBytes rest
    → 184 ≤ b0
    → b0 < 192
    → long_string (b0 - 183) (b0 ∷ rest) left ≡ ok (item, used, left')
    → Decoded (b0 ∷ rest) item used (suc left) left'
unfolding long_string encode size
long_string-Decoded b0 rest left item used left' p low high h =
    let ((len, end), read, h') = bind-ok (read_long_len (b0 ∷ rest) (b0 - 183)) _ h in
    let (ends, long, enough, be) =
      read_long_len-big_endian b0 rest (b0 - 183) p (omega arith) read in
    let bytes = take len (drop end (b0 ∷ rest)) in
    let item_is : item ≡ str bytes = ground (arith, h') in
    let used_is : used ≡ end + len = ground (arith, h') in
    let left_is : left' ≡ left = ground (arith, h') in
    let within : end + len ≤ length (b0 ∷ rest) = ground (arith, h') in
    let many : is_single bytes ≡ false =
      not_single len (drop end (b0 ∷ rest)) (omega (arith, length-drop end (b0 ∷ rest)))
        (ground (arith, long)) in
    let head = header-long 128 len (b0 - 183) b0 rest long (omega arith) enough be in
    same_answer item_is used_is left_is (record {
      some_used = omega (arith, ends);
      within = within;
      canonical = rw many (framed 128 end len (b0 ∷ rest) bytes (rw ends head) refl within);
      counted = omega arith;
    })

pub single-Decoded :
    (b0 : ℕ) (rest : List ℕ) (left : ℕ)
    → b0 < 128
    → Decoded (b0 ∷ rest) (str (b0 ∷ [])) 1 (suc left) left
unfolding encode size
single-Decoded b0 rest left low = record {
  some_used = omega arith;
  within = omega arith;
  canonical = ground arith;
  counted = omega arith;
}
