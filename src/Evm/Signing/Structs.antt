-- ===== src/Evm/Signing/Structs.antt =====
-- The buffers of the digests determine what they encode, unless Keccak-256 collides.
use enclave_signer.Prelude.{
  AreBytes, ℕ, zero, suc, ◌<◌, ◌≡◌, ap, ◌⊎◌, inl, List, [], ◌∷◌, All, length, Bytes, range,
  Collision, same_or_collision, onwards,
}
use enclave_signer.Evm.Destination.{FundsOutParams}
use enclave_signer.Evm.Signing.{
  Eip712Domain, domain_type_hash_str, tee_funds_out_type_hash_str, abi_encode_u256,
  abi_encode_address, joined, separator_hash, eip712_digest, funds_out_words,
}
use enclave_signer.Evm.Signing.Words.{
  IsWord, ◌&◌, joined_injective, to_be_bytes_injective, padded_injective, word-IsWord, u256-IsWord,
  address-IsWord, u256_injective,
}

-- A part of the buffer.
abbrev pub part : ℕ → List Bytes → Bytes
part i [] = []
part zero (w ∷ ws) = w
part (suc i) (w ∷ ws) = part i ws

abbrev pub IsDomain : Eip712Domain → Type 0
IsDomain d = (d.chain_id < range 8) × (length d.verifying_contract ≡ 20)

-- The widths that the ABI gives.
pub record IsParams (p : FundsOutParams) : Type 0 where
  pub recipient : length p.recipient ≡ 20
  pub amount : p.amount < range 32
  pub burn_id : p.burn_id < range 32
  pub source_chain_id : p.source_chain_id < range 32
  pub destination_chain_id : p.destination_chain_id < range 32
  pub source_burn_tx_id : length p.source_burn_tx_id ≡ 32
  pub proof : AreBytes p.proof

module _ (keccak256 : Bytes → Bytes) (hash_length : (m : Bytes) → length (keccak256 m) ≡ 32) where
  -- Buffers of words with one hash have the same words.
  words_of :
      (ws vs : List Bytes)
      → All IsWord ws
      → All IsWord vs
      → keccak256 (joined ws) ≡ keccak256 (joined vs)
      → (ws ≡ vs) ⊎ Collision keccak256
  words_of ws vs p q e =
      onwards (same_or_collision keccak256 (joined ws) (joined vs) e)
        λ same. inl (joined_injective ws vs p q same)

  -- The words of a domain.
  abbrev domain_words : Eip712Domain → List Bytes
  domain_words d =
      keccak256 domain_type_hash_str
      ∷ keccak256 d.name
      ∷ keccak256 d.version
      ∷ abi_encode_u256 d.chain_id
      ∷ abi_encode_address d.verifying_contract
      ∷ []

  domain_words-AreWords : (d : Eip712Domain) → IsDomain d → All IsWord (domain_words d)
  domain_words-AreWords d p =
      let h = hash_length in
      h domain_type_hash_str
      & h d.name
      & h d.version
      & u256-IsWord d.chain_id
      & address-IsWord d.verifying_contract p.1
      & tt

  separator_hash_injective :
      (d e : Eip712Domain)
      → IsDomain d
      → IsDomain e
      → separator_hash keccak256 d ≡ separator_hash keccak256 e
      → ((d.chain_id ≡ e.chain_id) × (d.verifying_contract ≡ e.verifying_contract))
        ⊎ Collision keccak256
  unfolding separator_hash
  separator_hash_injective d e p q h =
      onwards
        (words_of (domain_words d) (domain_words e) (domain_words-AreWords d p)
          (domain_words-AreWords e q) h)
        λ same. inl (
          u256_injective d.chain_id e.chain_id p.0 q.0 (ap (part 3) same),
          padded_injective 12 d.verifying_contract e.verifying_contract (ap (part 4) same),
        )

  separator_hash-IsWord : (d : Eip712Domain) → IsWord (separator_hash keccak256 d)
  unfolding separator_hash
  separator_hash-IsWord d = hash_length (joined (domain_words d))

  tail_of : {a b c d : ℕ} {x y : Bytes} → (a ∷ b ∷ x) ≡ (c ∷ d ∷ y) → x ≡ y
  tail_of e = cc

  -- A digest commits to the domain and to the struct.
  pub eip712_digest_injective :
      (d e : Eip712Domain) (ws vs : List Bytes)
      → IsDomain d
      → IsDomain e
      → All IsWord ws
      → All IsWord vs
      → eip712_digest keccak256 d (keccak256 (joined ws))
        ≡ eip712_digest keccak256 e (keccak256 (joined vs))
      → ((d.chain_id ≡ e.chain_id) × (d.verifying_contract ≡ e.verifying_contract) × (ws ≡ vs))
        ⊎ Collision keccak256
  unfolding eip712_digest
  eip712_digest_injective d e ws vs p q r s h =
      let x = keccak256 (joined ws) in
      let y = keccak256 (joined vs) in
      let dx = separator_hash keccak256 d ∷ x ∷ [] in
      let ey = separator_hash keccak256 e ∷ y ∷ [] in
      onwards (same_or_collision keccak256 (25 ∷ 1 ∷ joined dx) (25 ∷ 1 ∷ joined ey) h) λ same.
        let parts =
          joined_injective dx ey (separator_hash-IsWord d, (hash_length (joined ws), tt))
            (separator_hash-IsWord e, (hash_length (joined vs), tt)) (tail_of same) in
        onwards (separator_hash_injective d e p q (ap (part 0) parts)) λ domain.
          onwards (words_of ws vs r s (ap (part 1) parts)) λ words. inl (domain.0, domain.1, words)

  pub funds_out_words-AreWords :
      (p : FundsOutParams) (nonce deadline : ℕ)
      → IsParams p
      → All IsWord (funds_out_words keccak256 p nonce deadline)
  unfolding funds_out_words
  funds_out_words-AreWords p nonce deadline v =
      let h = hash_length in
      h tee_funds_out_type_hash_str
      & address-IsWord p.recipient v.recipient
      & word-IsWord p.amount
      & word-IsWord p.burn_id
      & word-IsWord p.source_chain_id
      & word-IsWord p.destination_chain_id
      & h p.source_address
      & h p.proof
      & h p.settlement_data
      & v.source_burn_tx_id
      & u256-IsWord nonce
      & u256-IsWord deadline
      & tt

  pub funds_out_words_injective :
      (p q : FundsOutParams) (n m t u : ℕ)
      → IsParams p
      → IsParams q
      → (n < range 8) × (m < range 8)
      → (t < range 8) × (u < range 8)
      → funds_out_words keccak256 p n t ≡ funds_out_words keccak256 q m u
      → ((p ≡ q) × (n ≡ m) × (t ≡ u)) ⊎ Collision keccak256
  unfolding funds_out_words
  funds_out_words_injective p q n m t u v w nm tu e =
      let word_at = λ (i : ℕ). ap (part i) e in
      let address = padded_injective 12 p.recipient q.recipient (word_at 1) in
      let amount = to_be_bytes_injective 32 p.amount q.amount v.amount w.amount (word_at 2) in
      let burn = to_be_bytes_injective 32 p.burn_id q.burn_id v.burn_id w.burn_id (word_at 3) in
      let source =
        to_be_bytes_injective 32 p.source_chain_id q.source_chain_id v.source_chain_id
          w.source_chain_id (word_at 4) in
      let destination =
        to_be_bytes_injective 32 p.destination_chain_id q.destination_chain_id
          v.destination_chain_id w.destination_chain_id (word_at 5) in
      onwards (same_or_collision keccak256 p.source_address q.source_address (word_at 6)) λ from.
        onwards (same_or_collision keccak256 p.proof q.proof (word_at 7)) λ proof.
          onwards (same_or_collision keccak256 p.settlement_data q.settlement_data (word_at 8))
            λ settlement. inl (
              λ i. record {
                recipient = address i;
                amount = amount i;
                burn_id = burn i;
                source_chain_id = source i;
                destination_chain_id = destination i;
                source_address = from i;
                proof = proof i;
                settlement_data = settlement i;
                source_burn_tx_id = word_at 9 i;
              },
              u256_injective n m nm.0 nm.1 (word_at 10),
              u256_injective t u tu.0 tu.1 (word_at 11),
            )
