-- ===== src/Spv/CrossCheck/Proven.antt =====
-- What one Merkle proof of a request shows about the chain.
use enclave_signer.Prelude.{
  ℕ, ◌+◌, ◌≤◌, ◌≡◌, refl, some, List, [], ◌∷◌, map, length, All, arith, false, ok, err, bind-ok,
  ok_or, ok_or-ok, refuse_if_past, ltb, ltb_false→le, Bytes, Result,
}
use enclave_signer.Error.{spv}
use enclave_signer.Spv.Types.{Bitcoin}
use enclave_signer.Spv.Chain.{HeaderChain, tip_height, header_at, confirmations}
use enclave_signer.Spv.Chain.Links.{IsValid}
use enclave_signer.Spv.Chain.Reads.{confirmations_stored, header_at-IsStored}
use enclave_signer.Spv.Merkle.{MerkleError, verify_merkle_proof}
use enclave_signer.Spv.CrossCheck.{
  MerkleProofEntry, reverse, array_32, path_internal, map_err, verify_one_proof,
}

array_32-ok :
    (bytes : Bytes) {b : Bytes} → array_32 bytes ≡ ok b → (length bytes ≡ 32) × (bytes ≡ b)
array_32-ok bytes h = ground arith

path_internal-ok :
    (path : List Bytes) {p : List Bytes}
    → path_internal path ≡ ok p
    → All (λ s. length s ≡ 32) path × (map reverse path ≡ p)
unfolding path_internal
path_internal-ok [] h = ground arith
path_internal-ok (s ∷ path) h =
    let (sibling, is_sibling, h1) = bind-ok (array_32 s) _ h in
    let (rest, is_rest, h2) = bind-ok (path_internal path) _ h1 in
    let (size, same) = array_32-ok s is_sibling in
    let (sizes, same_rest) = path_internal-ok path is_rest in ((size, sizes), cc)

path_internal-map :
    (path : List Bytes) → All (λ s. length s ≡ 32) path → path_internal path ≡ ok (map reverse path)
unfolding path_internal
path_internal-map [] a = refl
path_internal-map (s ∷ path) (here, rest) = ground (arith, path_internal-map path rest)

map_err-ok : (r : Result MerkleError (Unit {0})) → map_err r ≡ ok tt → r ≡ ok tt
map_err-ok (ok u) h = refl
map_err-ok (err e) h = cc

module _ (btc : Bitcoin) (sha256d : Bytes → Bytes) (c : HeaderChain btc.Header) where
  open btc use {Header, merkle_root}

  -- The chain holds the proof's block, with at least `confirmations` blocks from it to the tip,
  -- and the path leads from the transaction to the root in its header.
  pub record IsIncluded (confirmations : ℕ) (proof : MerkleProofEntry) : Type 0 where
    pub header : Header
    pub found : header_at c proof.block_height ≡ some header
    pub deep : proof.block_height + confirmations ≤ tip_height c + 1
    pub txid_32 : length proof.txid ≡ 32
    pub path_32 : All (λ s. length s ≡ 32) proof.merkle_path
    pub merkle :
        verify_merkle_proof sha256d
          (reverse proof.txid)
          proof.tx_position
          (map reverse proof.merkle_path)
          (merkle_root header)
        ≡ ok tt

  module _ (v : IsValid btc c) (min_confirmations : ℕ) (proof : MerkleProofEntry) where
    pub verify_one_proof_sound :
        verify_one_proof btc sha256d c min_confirmations proof ≡ ok tt
        → IsIncluded min_confirmations proof
    unfolding verify_one_proof
    verify_one_proof_sound h =
        let (header, is_found, h1) = bind-ok (ok_or (header_at c proof.block_height) spv) _ h in
        let found = ok_or-ok (header_at c proof.block_height) spv is_found in
        let (enough, h2) =
          refuse_if_past
            (ltb (confirmations c proof.block_height min_confirmations) min_confirmations) spv _
            h1 in
        let (txid, is_txid, h3) = bind-ok (array_32 proof.txid) _ h2 in
        let (path, is_path, h4) = bind-ok (path_internal proof.merkle_path) _ h3 in
        let (txid_32, same_txid) = array_32-ok proof.txid is_txid in
        let (path_32, same_path) = path_internal-ok proof.merkle_path is_path in
        let stored = header_at-IsStored btc c v proof.block_height min_confirmations found in
        let (_, _, _, count) =
          confirmations_stored btc c v proof.block_height min_confirmations stored in
        record {
          header = header;
          found = found;
          deep = omega (
            arith,
            count,
            stored,
            ltb_false→le (confirmations c proof.block_height min_confirmations) min_confirmations
                enough,
          );
          txid_32 = txid_32;
          path_32 = path_32;
          merkle = rw (same_txid, same_path) (map_err-ok _ h4);
        }

    pub verify_one_proof_complete :
        IsIncluded min_confirmations proof
        → verify_one_proof btc sha256d c min_confirmations proof ≡ ok tt
    unfolding verify_one_proof
    verify_one_proof_complete i =
        let stored = header_at-IsStored btc c v proof.block_height min_confirmations i.found in
        let (_, _, _, count) =
          confirmations_stored btc c v proof.block_height min_confirmations stored in
        let enough : ltb (confirmations c proof.block_height min_confirmations) min_confirmations
            ≡ false =
          ground (arith, count, i.deep) in
        let path = path_internal-map proof.merkle_path i.path_32 in
        rw (i.found, enough, i.txid_32, path, i.merkle)
