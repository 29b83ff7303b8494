-- ===== src/Evm/LzOptions/Accept.antt =====
-- Which LayerZero options are signed.
use enclave_signer.Prelude.{
  ℕ, ◌≤◌, ◌≡◌, ◌↔◌, ◌⊎◌, inl, inr, refl, ap, ◌∙◌, sym, [], ◌∷◌, length, arith, ok, Bytes, AreBytes,
  be_value, to_be_bytes, to_be_bytes-be_value, be_value-to_be_bytes, length-to_be_bytes,
}
use enclave_signer.Evm.LzOptions.{max_lz_receive_gas, validate_extra_options}

-- One executor option of type 3: `lzReceive` with its gas and no value.
abbrev pub gas_option : ℕ → Bytes
gas_option gas = 0 ∷ 3 ∷ 1 ∷ 0 ∷ 17 ∷ 1 ∷ to_be_bytes 16 gas []

accepted_long :
    (a b w c d t : ℕ) (body : Bytes)
    → validate_extra_options (a ∷ b ∷ w ∷ c ∷ d ∷ t ∷ body) ≡ ok tt
    → (a ≡ 0)
      × (b ≡ 3)
      × (w ≡ 1)
      × (c ≡ 0)
      × (d ≡ 17)
      × (t ≡ 1)
      × (length body ≡ 16)
      × (be_value 0 body ≤ max_lz_receive_gas)
unfolding validate_extra_options
accepted_long a b w c d t body h = ground arith

accepted :
    (options : Bytes)
    → AreBytes options
    → validate_extra_options options ≡ ok tt
    → (options ≡ []) ⊎ ((gas : ℕ) × (gas ≤ max_lz_receive_gas) × (options ≡ gas_option gas))
unfolding validate_extra_options
accepted [] p h = inl refl
accepted (a ∷ []) p h = cc
accepted (a ∷ b ∷ []) p h = ground arith
accepted (a ∷ b ∷ w ∷ []) p h = ground arith
accepted (a ∷ b ∷ w ∷ c ∷ []) p h = ground arith
accepted (a ∷ b ∷ w ∷ c ∷ d ∷ []) p h = ground arith
accepted (a ∷ b ∷ w ∷ c ∷ d ∷ t ∷ body) p h =
    let (is_a, is_b, is_w, is_c, is_d, is_t, size, bounded) = accepted_long a b w c d t body h in
    let spelled : to_be_bytes 16 (be_value 0 body) [] ≡ body =
      ap (λ n. to_be_bytes n (be_value 0 body) []) (sym size)
      ∙ to_be_bytes-be_value body p.1.1.1.1.1.1 in
    inr (be_value 0 body, bounded, cc)

empty-ok : validate_extra_options [] ≡ ok tt
unfolding validate_extra_options
empty-ok = refl

gas_option-ok :
    (gas : ℕ) → gas ≤ max_lz_receive_gas → validate_extra_options (gas_option gas) ≡ ok tt
unfolding validate_extra_options
gas_option-ok gas h =
    let size : length (to_be_bytes 16 gas []) ≡ 16 = length-to_be_bytes 16 gas [] in
    let value = be_value-to_be_bytes 16 gas (omega arith) in ground (arith, size, value)

-- The options of a release are accepted exactly when they are empty, or one executor `lzReceive`
-- option of type 3 with a gas of at most a million and no value.
pub validate_extra_options_iff :
    (options : Bytes)
    → AreBytes options
    → (validate_extra_options options ≡ ok tt)
      ↔ ((options ≡ []) ⊎ ((gas : ℕ) × (gas ≤ max_lz_receive_gas) × (options ≡ gas_option gas)))
validate_extra_options_iff options p = (accepted options p, signable)
  where
    signable :
        (options ≡ []) ⊎ ((gas : ℕ) × (gas ≤ max_lz_receive_gas) × (options ≡ gas_option gas))
        → validate_extra_options options ≡ ok tt
    signable (inl empty) = rw empty empty-ok
    signable (inr (gas, bounded, is)) = rw is (gas_option-ok gas bounded)
