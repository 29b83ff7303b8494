-- ===== src/Evm/Rlp/Encode.antt =====
-- RLP as the Ethereum Yellow Paper defines it, without the decoder: the one encoding of an item.
use enclave_signer.Prelude.{
  ℕ, zero, suc, ◌+◌, ◌/◌, ◌%◌, Bool, false, List, [], ◌∷◌, ◌++◌, length, ltb, leb, ◌==◌,
  if◌then◌else◌,
}
use enclave_signer.Evm.Rlp.{Rlp, str, list, Items, nil, cons}

-- The big-endian bytes of a number below 256 to the power of the fuel, put before `acc`.
unfoldable pub big_endian : ℕ → ℕ → List ℕ → List ℕ
big_endian zero n acc = acc
big_endian (suc fuel) n acc =
    let rest = big_endian fuel (n / 256) (n % 256 ∷ acc) in if n == 0 then acc else rest

-- The header of a payload of `n` bytes.
unfoldable pub header : ℕ → ℕ → List ℕ
header base n =
    if leb n 55
    then (base + n) ∷ []
    else (base + 55 + length (big_endian 8 n [])) ∷ big_endian 8 n []

abbrev pub is_single : List ℕ → Bool
is_single (b ∷ []) = ltb b 128
is_single _ = false

unfoldable mutual
  unfolding header

  pub encode : Rlp → List ℕ
  encode (str bytes) = if is_single bytes then bytes else header 128 (length bytes) ++ bytes
  encode (list items) = header 192 (length (encode_items items)) ++ encode_items items

  pub encode_items : Items → List ℕ
  encode_items nil = []
  encode_items (cons item items) = encode item ++ encode_items items

-- How many items there are at any depth, and how deep they lie.
unfoldable mutual
  pub size : Rlp → ℕ
  size (str bytes) = 1
  size (list items) = 1 + size_items items

  pub size_items : Items → ℕ
  size_items nil = 0
  size_items (cons item items) = size item + size_items items
