-- ===== src/Spv/Merkle.antt =====
-- enclave/src/networks/rgb/spv/merkle.rs: Merkle inclusion proofs. A 32-byte hash is the list of
-- its bytes, and the double SHA-256 of the `bitcoin` crate is a parameter.
pub mod Tree
pub mod Sound
pub mod Complete
use enclave_signer.Prelude.{
  Bytes, bytes_discrete, ℕ, suc, ◌+◌, ◌-◌, ◌*◌, ◌/◌, ◌%◌, Bool, false, ◌&&◌, ◌||◌, not, Option,
  none, some, List, [], ◌∷◌, ◌++◌, length, get_elem?, take, drop, ltb, leb, ◌==◌, if◌then◌else◌,
  Result, ok, err, ◌>>=◌, ◌>>◌, refuse_if,
}

pub data MerkleError : Type 0 where
  bad_sibling_length : ℕ → ℕ → MerkleError
  root_mismatch : Bytes → Bytes → MerkleError
  position_out_of_range : ℕ → ℕ → MerkleError
  transaction_shaped_node : ℕ → MerkleError

abbrev pub max_money_sats : ℕ
max_money_sats = 21_000_000 * 100_000_000

abbrev byte_or_zero : Option ℕ → ℕ
byte_or_zero none = 0
byte_or_zero (some b) = b

-- `node[i]` on a 64-byte buffer, where every index of the code is in bounds.
abbrev pub byte_at : Bytes → ℕ → ℕ
byte_at node i = byte_or_zero (get_elem? node i)

-- `u64::from_le_bytes`
abbrev pub from_le_bytes : Bytes → ℕ
from_le_bytes [] = 0
from_le_bytes (b ∷ bs) = b + 256 * from_le_bytes bs

unfoldable pub is_64_byte_transaction : Bytes → Bool
is_64_byte_transaction node =
    let s = byte_at node 41 in
    if not (byte_at node 4 == 1)
    then false
    else if ltb 4 s || not (byte_at node (46 + s) == 1)
    then false
    else leb (from_le_bytes (take 8 (drop (47 + s) node))) max_money_sats
      && byte_at node (55 + s) == 4 - s

-- The buffer of one level: the low bit of the position says on which side `current` stands.
unfoldable pub buffer : ℕ → Bytes → Bytes → Bytes
buffer idx current sibling = if idx % 2 == 0 then current ++ sibling else sibling ++ current

module _ (sha256d : Bytes → Bytes) where
  -- The loop over the path: the hash and the position bits that are left at its end.
  unfoldable pub climb : ℕ → ℕ → Bytes → List Bytes → Result MerkleError (Bytes × ℕ)
  climb i idx current [] = ok (current, idx)
  climb i idx current (sibling ∷ path) = do
    refuse_if (not (length sibling == 32)) (bad_sibling_length i (length sibling))
    refuse_if (is_64_byte_transaction (buffer idx current sibling)) (transaction_shaped_node i)
    climb (suc i) (idx / 2) (sha256d (buffer idx current sibling)) path

  unfoldable pub verify_merkle_proof :
      Bytes → ℕ → List Bytes → Bytes → Result MerkleError (Unit {0})
  unfolding bytes_discrete
  verify_merkle_proof txid position path merkle_root = do
    (current, idx) ← climb 0 position txid path
    refuse_if (not (idx == 0)) (position_out_of_range position (length path))
    elim (bytes_discrete current merkle_root) [
      | yes _ ↦ ok tt
      | no _ ↦ err (root_mismatch current merkle_root)
    ]
