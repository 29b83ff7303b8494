-- ===== src/Evm/Signing/LzStruct.antt =====
-- The buffer of the LayerZero route determines what it encodes, unless Keccak-256 collides; it is
-- longer than that of the direct route.
use enclave_signer.Prelude.{
  AreBytes, ℕ, ◌<◌, ◌≡◌, ◌≢◌, ap, ◌⊎◌, inl, All, length, Bytes, range, Collision, same_or_collision,
  onwards,
}
use enclave_signer.Evm.Destination.{FundsOutParams, LzFundsOutCall}
use enclave_signer.Evm.Signing.{tee_lz_funds_out_type_hash_str, funds_out_words, lz_funds_out_words}
use enclave_signer.Evm.Signing.Words.{
  IsWord, ◌&◌, to_be_bytes_injective, word-IsWord, u256-IsWord, u32-IsWord, u256_injective,
  u32_injective,
}
use enclave_signer.Evm.Signing.Structs.{part}

-- The widths that the ABI gives.
pub record IsLzCall (p : LzFundsOutCall) : Type 0 where
  pub amount : p.amount < range 32
  pub burn_id : p.burn_id < range 32
  pub source_chain_id : p.source_chain_id < range 32
  pub destination_chain_id : p.destination_chain_id < range 32
  pub dst_eid : p.dst_eid < range 4
  pub recipient : length p.recipient ≡ 32
  pub min_amount_ld : p.min_amount_ld < range 32
  pub source_burn_tx_id : length p.source_burn_tx_id ≡ 32
  pub proof : AreBytes p.proof

module _ (keccak256 : Bytes → Bytes) (hash_length : (m : Bytes) → length (keccak256 m) ≡ 32) where
  pub lz_funds_out_words-AreWords :
      (p : LzFundsOutCall) (nonce deadline : ℕ)
      → IsLzCall p
      → All IsWord (lz_funds_out_words keccak256 p nonce deadline)
  unfolding lz_funds_out_words
  lz_funds_out_words-AreWords p nonce deadline v =
      let h = hash_length in
      h tee_lz_funds_out_type_hash_str
      & word-IsWord p.amount
      & word-IsWord p.burn_id
      & word-IsWord p.source_chain_id
      & word-IsWord p.destination_chain_id
      & h p.source_address
      & h p.proof
      & h p.settlement_data
      & u32-IsWord p.dst_eid
      & v.recipient
      & word-IsWord p.min_amount_ld
      & h p.extra_options
      & v.source_burn_tx_id
      & u256-IsWord nonce
      & u256-IsWord deadline
      & tt

  pub lz_funds_out_words_injective :
      (p q : LzFundsOutCall) (n m t u : ℕ)
      → IsLzCall p
      → IsLzCall q
      → (n < range 8) × (m < range 8)
      → (t < range 8) × (u < range 8)
      → lz_funds_out_words keccak256 p n t ≡ lz_funds_out_words keccak256 q m u
      → ((p ≡ q) × (n ≡ m) × (t ≡ u)) ⊎ Collision keccak256
  unfolding lz_funds_out_words
  lz_funds_out_words_injective p q n m t u v w nm tu e =
      let word_at = λ (i : ℕ). ap (part i) e in
      let amount = to_be_bytes_injective 32 p.amount q.amount v.amount w.amount (word_at 1) in
      let burn = to_be_bytes_injective 32 p.burn_id q.burn_id v.burn_id w.burn_id (word_at 2) in
      let source =
        to_be_bytes_injective 32 p.source_chain_id q.source_chain_id v.source_chain_id
          w.source_chain_id (word_at 3) in
      let destination =
        to_be_bytes_injective 32 p.destination_chain_id q.destination_chain_id
          v.destination_chain_id w.destination_chain_id (word_at 4) in
      let eid = u32_injective p.dst_eid q.dst_eid v.dst_eid w.dst_eid (word_at 8) in
      let floor =
        to_be_bytes_injective 32 p.min_amount_ld q.min_amount_ld v.min_amount_ld w.min_amount_ld
          (word_at 10) in
      onwards (same_or_collision keccak256 p.source_address q.source_address (word_at 5)) λ from.
        onwards (same_or_collision keccak256 p.proof q.proof (word_at 6)) λ proof.
          onwards (same_or_collision keccak256 p.settlement_data q.settlement_data (word_at 7))
            λ settlement.
              onwards (same_or_collision keccak256 p.extra_options q.extra_options (word_at 11))
                λ options. inl (
                  λ i. record {
                    amount = amount i;
                    burn_id = burn i;
                    source_chain_id = source i;
                    destination_chain_id = destination i;
                    source_address = from i;
                    proof = proof i;
                    settlement_data = settlement i;
                    dst_eid = eid i;
                    recipient = word_at 9 i;
                    min_amount_ld = floor i;
                    extra_options = options i;
                    source_burn_tx_id = word_at 12 i;
                  },
                  u256_injective n m nm.0 nm.1 (word_at 13),
                  u256_injective t u tu.0 tu.1 (word_at 14),
                )

-- The structs of the two routes have different lengths.
pub routes_differ :
    (keccak256 : Bytes → Bytes) (p : FundsOutParams) (q : LzFundsOutCall) (n m t u : ℕ)
    → funds_out_words keccak256 p n t ≢ lz_funds_out_words keccak256 q m u
unfolding funds_out_words lz_funds_out_words
routes_differ keccak256 p q n m t u e = cc
