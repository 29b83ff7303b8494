-- ===== src/Evm/Rlp.antt =====
-- enclave/src/networks/evm/gas_tx.rs, the RLP decoder. A byte is a number; `levels` counts the
-- nesting depths that are left, so the source's `depth` is `max_rlp_depth + 1` less `levels`. The
-- loop over a list has the length of its payload as fuel, and would answer `internal` without
-- it, an error that the source does not have here.
pub mod Encode
pub mod Length
pub mod Frame
pub mod Canonical
pub mod Total
use enclave_signer.Prelude.{
  ℕ, zero, suc, ◌+◌, ◌-◌, ◌*◌, ◌%◌, ◌^◌, Bool, ◌&&◌, not, Option, none, some, List, [], ◌∷◌, length,
  get_elem?, take, drop, ltb, leb, ◌==◌, if◌then◌else◌, ok, err, ◌>>=◌, ◌>>◌, refuse_if,
}
use enclave_signer.Error.{EnclaveResult, cross_check, internal}

mutual
  pub data Rlp : Type 0 where
    str : List ℕ → Rlp
    list : Items → Rlp

  pub data Items : Type 0 where
    nil : Items
    cons : Rlp → Items → Items

abbrev pub max_rlp_depth : ℕ
max_rlp_depth = 8

abbrev pub max_rlp_items : ℕ
max_rlp_items = 1_024

abbrev pub usize_mod : ℕ
usize_mod = 2 ^ 64

-- `payload[0]`, on a slice that is not empty.
abbrev pub first_or_zero : List ℕ → ℕ
first_or_zero [] = 0
first_or_zero (b ∷ bs) = b

-- The loop over the length bytes: a shift by 8 drops what leaves the word.
unfoldable pub accumulate : ℕ → List ℕ → EnclaveResult ℕ
accumulate len [] = ok len
accumulate len (b ∷ bytes) = do
  refuse_if (leb usize_mod (len * 256 % usize_mod + b)) cross_check
  accumulate (len * 256 % usize_mod + b) bytes

unfoldable pub read_long_len : List ℕ → ℕ → EnclaveResult (ℕ × ℕ)
read_long_len buf len_of_len = do
  refuse_if (ltb (length buf) (1 + len_of_len)) cross_check
  let len_bytes = take len_of_len (drop 1 buf)
  refuse_if (first_or_zero len_bytes == 0) cross_check
  len ← accumulate 0 len_bytes
  refuse_if (leb len 55) cross_check
  ok (len, 1 + len_of_len)

-- A decoder of one item answers with the item, the bytes used and the items left.
abbrev pub Decoder : Type 0
Decoder = List ℕ → ℕ → EnclaveResult (Rlp × ℕ × ℕ)

unfoldable pub decode_list : Decoder → ℕ → List ℕ → ℕ → EnclaveResult (Items × ℕ)
decode_list decode fuel [] items_left = ok (nil, items_left)
decode_list decode zero (b ∷ buf) items_left = err internal
decode_list decode (suc fuel) (b ∷ buf) items_left = do
  (item, used, left) ← decode (b ∷ buf) items_left
  (items, left') ← decode_list decode fuel (drop used (b ∷ buf)) left
  ok (cons item items, left')

unfoldable pub short_string : ℕ → List ℕ → ℕ → EnclaveResult (Rlp × ℕ × ℕ)
short_string len buf items_left = do
  refuse_if (ltb (length buf) (1 + len)) cross_check
  refuse_if (len == 1 && ltb (first_or_zero (drop 1 buf)) 128) cross_check
  ok (str (take len (drop 1 buf)), 1 + len, items_left)

unfoldable pub long_string : ℕ → List ℕ → ℕ → EnclaveResult (Rlp × ℕ × ℕ)
long_string len_of_len buf items_left = do
  (len, header) ← read_long_len buf len_of_len
  refuse_if (leb usize_mod (header + len)) cross_check
  refuse_if (ltb (length buf) (header + len)) cross_check
  ok (str (take len (drop header buf)), header + len, items_left)

unfoldable pub short_list : Decoder → ℕ → List ℕ → ℕ → EnclaveResult (Rlp × ℕ × ℕ)
short_list decode len buf items_left = do
  refuse_if (ltb (length buf) (1 + len)) cross_check
  (items, left) ← decode_list decode len (take len (drop 1 buf)) items_left
  ok (list items, 1 + len, left)

unfoldable pub long_list : Decoder → ℕ → List ℕ → ℕ → EnclaveResult (Rlp × ℕ × ℕ)
long_list decode len_of_len buf items_left = do
  (len, header) ← read_long_len buf len_of_len
  refuse_if (leb usize_mod (header + len)) cross_check
  refuse_if (ltb (length buf) (header + len)) cross_check
  (items, left) ← decode_list decode len (take len (drop header buf)) items_left
  ok (list items, header + len, left)

unfoldable pub decode_one : ℕ → Decoder
decode_one zero buf items_left = err cross_check
decode_one (suc levels) [] items_left = err cross_check
decode_one (suc levels) (b0 ∷ rest) items_left =
    if items_left == 0
    then err cross_check
    else if ltb b0 128
    then ok (str (b0 ∷ []), 1, items_left - 1)
    else if ltb b0 184
    then short_string (b0 - 128) (b0 ∷ rest) (items_left - 1)
    else if ltb b0 192
    then long_string (b0 - 183) (b0 ∷ rest) (items_left - 1)
    else if ltb b0 248
    then short_list (decode_one levels) (b0 - 192) (b0 ∷ rest) (items_left - 1)
    else long_list (decode_one levels) (b0 - 247) (b0 ∷ rest) (items_left - 1)

unfoldable pub decode_canonical : List ℕ → EnclaveResult Rlp
decode_canonical buf = do
  (item, used, left) ← decode_one (suc max_rlp_depth) buf max_rlp_items
  refuse_if (not (used == length buf)) cross_check
  ok item
