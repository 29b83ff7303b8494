-- ===== src/Tests/Merkle.antt =====
-- Merkle proofs at a toy hash: 32 bytes, of which the first is the sum of the message.
use enclave_signer.Prelude.{
  Collision, Bytes, ℕ, zero, suc, ◌+◌, ◌≡◌, refl, ◌⊎◌, some, List, [], ◌∷◌, length, get_elem?,
  arith, ok, map, ◌≤◌, ◌<◌,
}
use enclave_signer.Spv.Merkle.{buffer, is_64_byte_transaction, climb, verify_merkle_proof}
use enclave_signer.Spv.Merkle.Tree.{level_up, levels_up, partner, branch, IsClean}
use enclave_signer.Spv.Merkle.Sound.{IsKnown, leaves, verify_merkle_proof_sound}
use enclave_signer.Spv.Merkle.Complete.{verify_merkle_proof-branch}

abbrev repeat : ℕ → ℕ → Bytes
repeat zero b = []
repeat (suc n) b = b ∷ repeat n b

abbrev sum : Bytes → ℕ
sum [] = 0
sum (b ∷ bs) = b + sum bs

abbrev toy_hash : Bytes → Bytes
toy_hash m = sum m ∷ repeat 31 7

length-toy_hash : (m : Bytes) → length (toy_hash m) ≡ 32
length-toy_hash m = refl

-- Three transactions of one byte, and their block.
abbrev txs : List Bytes
txs = (2 ∷ []) ∷ (3 ∷ []) ∷ (5 ∷ []) ∷ []

abbrev block : List Bytes
block = map toy_hash txs

abbrev root : Bytes
root = 1_317 ∷ repeat 31 7

root_is : levels_up toy_hash 2 block ≡ root ∷ []
unfolding levels_up level_up
root_is = refl

clean : IsClean toy_hash 2 block
unfolding level_up is_64_byte_transaction
clean = ((refl, refl), ((refl, tt), tt))

abbrev path : List Bytes
path = (5 ∷ repeat 31 7) ∷ (439 ∷ repeat 31 7) ∷ []

path_is : branch toy_hash 2 2 block ≡ path
unfolding branch partner level_up
path_is = refl

accepts : verify_merkle_proof toy_hash (toy_hash (5 ∷ [])) 2 path root ≡ ok tt
unfolding verify_merkle_proof climb buffer is_64_byte_transaction
accepts = ground arith

one_byte : (b : ℕ) → IsKnown (b ∷ [])
one_byte b e = absurd (omega (arith, e))

verify_merkle_proof_sound_example :
    ((i : ℕ) × (get_elem? txs i ≡ some (5 ∷ []))
      × ((i ≡ 2) ⊎ (length txs ≤ 2))
      × (length path ≡ 2)
      × (2 < leaves toy_hash 2))
    ⊎ Collision toy_hash
verify_merkle_proof_sound_example =
    verify_merkle_proof_sound toy_hash length-toy_hash txs (5 ∷ []) 2 2 path root
      (one_byte 2, (one_byte 3, (one_byte 5, tt))) (one_byte 5) clean root_is accepts

verify_merkle_proof-branch_example :
    verify_merkle_proof toy_hash (toy_hash (5 ∷ [])) 2 (branch toy_hash 2 2 block) root ≡ ok tt
verify_merkle_proof-branch_example =
    verify_merkle_proof-branch toy_hash length-toy_hash 2 2 block (toy_hash (5 ∷ [])) root
      (refl, (refl, (refl, tt))) clean root_is refl
