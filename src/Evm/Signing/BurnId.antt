-- ===== src/Evm/Signing/BurnId.antt =====
-- What a burn id commits to.
use enclave_signer.Prelude.{
  ◌<◌, ◌≡◌, sym, ap, ◌∙◌, ◌⊎◌, inl, false, [], All, length, arith, Bytes, AreBytes, range, ok,
  be_value, to_be_bytes, to_be_bytes-be_value, Collision, same_or_collision, onwards, same_bytes,
}
use enclave_signer.Config.{BridgeConfig, zero_address}
use enclave_signer.Evm.Relay.{ReleaseIdentity}
use enclave_signer.Evm.Signing.{
  burn_typehash_str, joined, burn_id_words, expected_burn_id, validate_burn_id,
}
use enclave_signer.Evm.Signing.Words.{
  IsWord, ◌&◌, joined_injective, to_be_bytes_injective, word-IsWord, address-IsWord,
}
use enclave_signer.Evm.Signing.Structs.{part}

-- The widths of a configuration and of a decoded release.
abbrev pub IsAddressed : BridgeConfig → Type 0
IsAddressed cfg = (length cfg.funds_in_contract ≡ 20) × (length cfg.token_contract ≡ 20)

abbrev pub IsSized : ReleaseIdentity → Type 0
IsSized r =
    (r.amount < range 32) × (r.source_chain_id < range 32) × (length r.source_burn_tx_id ≡ 32)

-- The burn that a release names.
abbrev pub SameBurn : ReleaseIdentity → ReleaseIdentity → Type 0
SameBurn r s =
    (r.amount ≡ s.amount)
    × (r.source_chain_id ≡ s.source_chain_id)
    × (r.source_address ≡ s.source_address)
    × (r.source_burn_tx_id ≡ s.source_burn_tx_id)

-- A number of 32 bytes determines them.
be_value_injective :
    (xs ys : Bytes)
    → AreBytes xs
    → AreBytes ys
    → length xs ≡ 32
    → length ys ≡ 32
    → be_value 0 xs ≡ be_value 0 ys
    → xs ≡ ys
be_value_injective xs ys p q l m e =
    sym (to_be_bytes-be_value xs p)
    ∙ (λ i. to_be_bytes ((l ∙ sym m) i) (e i) [])
    ∙ to_be_bytes-be_value ys q

module _ (keccak256 : Bytes → Bytes) (hash_length : (m : Bytes) → length (keccak256 m) ≡ 32)
    (hash_bytes : (m : Bytes) → AreBytes (keccak256 m)) (cfg : BridgeConfig)
    (is_addressed : IsAddressed cfg) where
  burn_id_words-AreWords :
      (r : ReleaseIdentity) → IsSized r → All IsWord (burn_id_words keccak256 cfg r)
  unfolding burn_id_words
  burn_id_words-AreWords r v =
      hash_length burn_typehash_str
      & address-IsWord cfg.funds_in_contract is_addressed.0
      & word-IsWord cfg.chain_id
      & address-IsWord cfg.token_contract is_addressed.1
      & word-IsWord r.amount
      & word-IsWord r.source_chain_id
      & hash_length r.source_address
      & v.2
      & tt

  burn_id_words_injective :
      (r s : ReleaseIdentity)
      → IsSized r
      → IsSized s
      → burn_id_words keccak256 cfg r ≡ burn_id_words keccak256 cfg s
      → SameBurn r s ⊎ Collision keccak256
  unfolding burn_id_words
  burn_id_words_injective r s v w e =
      onwards (same_or_collision keccak256 r.source_address s.source_address (ap (part 6) e))
        λ from. inl (
          to_be_bytes_injective 32 r.amount s.amount v.0 w.0 (ap (part 4) e),
          to_be_bytes_injective 32 r.source_chain_id s.source_chain_id v.1 w.1 (ap (part 5) e),
          from,
          ap (part 7) e,
        )

  validate_burn_id-ok :
      (r : ReleaseIdentity)
      → same_bytes cfg.token_contract zero_address ≡ false
      → validate_burn_id keccak256 cfg r ≡ ok tt
      → r.burn_id ≡ expected_burn_id keccak256 cfg r
  unfolding validate_burn_id
  validate_burn_id-ok r pinned h = ground arith

  -- With a token pinned, releases of one burn id that pass the check are of one burn: the same
  -- amount, source chain, source address and operation, or Keccak-256 collides. Numbers and
  -- identifiers are taken to have the widths of their types, and Keccak-256 to give 32 bytes.
  pub validate_burn_id_injective :
      (r s : ReleaseIdentity)
      → IsSized r
      → IsSized s
      → same_bytes cfg.token_contract zero_address ≡ false
      → validate_burn_id keccak256 cfg r ≡ ok tt
      → validate_burn_id keccak256 cfg s ≡ ok tt
      → r.burn_id ≡ s.burn_id
      → SameBurn r s ⊎ Collision keccak256
  unfolding expected_burn_id
  validate_burn_id_injective r s v w pinned h h' same =
      let ws = burn_id_words keccak256 cfg r in
      let vs = burn_id_words keccak256 cfg s in
      onwards
        (same_or_collision keccak256 (joined ws) (joined vs) (
          be_value_injective (keccak256 (joined ws)) (keccak256 (joined vs))
            (hash_bytes (joined ws)) (hash_bytes (joined vs)) (hash_length (joined ws))
            (hash_length (joined vs))
            (sym (validate_burn_id-ok r pinned h) ∙ same ∙ validate_burn_id-ok s pinned h')))
        λ buffers.
          burn_id_words_injective r s v w (
            joined_injective ws vs (burn_id_words-AreWords r v) (burn_id_words-AreWords s w)
              buffers)
