-- ===== src/Evm/GasTx/Accept.antt =====
-- What is signed with the gas key.
use enclave_signer.Prelude.{
  Bytes, same_bytes, starts_with, contains, same_bytes→≡, same_bytes_refl, same_bytes-false, ℕ, ◌≤◌,
  ◌<◌, ◌≡◌, ◌≢◌, ◌↔◌, ◌⊎◌, refl, inl, inr, true, false, ◌&&◌, not, Option, none, some, [], ◌∷◌,
  arith, length, ltb, ◌==◌, ok, bind-ok, ok_or, ok_or-ok, refuse_if_past, ltb_false→le,
}
use enclave_signer.Error.{cross_check}
use enclave_signer.Config.{is_empty, zero_address}
use enclave_signer.Evm.GasTx.{
  GasTx, GasPins, SignRawDigestRequest, max_gas_tx_bytes, onchain_lz_funds_out_call_selector,
  parse_gas_tx, check_value, check_fees, check_selector, check_allowed, validate_gas_tx_request,
}

-- The value is zero, or it is a bounded fee of the payable call to the pinned proxy.
abbrev IsPayable : GasTx → GasPins → Type 0
IsPayable tx cfg =
    (tx.value ≡ 0)
    ⊎ ((max : ℕ) × (starts_with tx.calldata onchain_lz_funds_out_call_selector ≡ true)
        × (cfg.bridge_contract ≢ zero_address)
        × (tx.to ≡ cfg.bridge_contract)
        × (cfg.gas_tx_max_value_wei ≡ some max)
        × (tx.value ≤ max))

-- The operator's rule for a transaction.
pub record IsAllowed (tx : GasTx) (cfg : GasPins) : Type 0 where
  pub chain_pinned : 0 < cfg.chain_id
  pub chain : tx.chain_id ≡ cfg.chain_id
  pub destination : cfg.gas_tx_allowed_to ≡ some tx.to
  pub payable : IsPayable tx cfg
  pub gas_pinned : 0 < cfg.gas_tx_max_gas_limit
  pub fee_pinned : 0 < cfg.gas_tx_max_fee_per_gas
  pub gas : tx.gas_limit ≤ cfg.gas_tx_max_gas_limit
  pub fee : tx.max_fee_per_gas ≤ cfg.gas_tx_max_fee_per_gas
  pub priority_fee : tx.max_priority_fee_per_gas ≤ cfg.gas_tx_max_fee_per_gas
  pub selected :
      (selector : Bytes) × (tx.selector ≡ some selector)
      × (contains cfg.gas_tx_allowed_selectors selector ≡ true)

check_value_sound : (tx : GasTx) (cfg : GasPins) → check_value tx cfg ≡ ok tt → IsPayable tx cfg
unfolding check_value
check_value_sound tx cfg h = ground (
  arith,
  same_bytes→≡ tx.to cfg.bridge_contract,
  same_bytes-false cfg.bridge_contract zero_address,
)

check_value_complete : (tx : GasTx) (cfg : GasPins) → IsPayable tx cfg → check_value tx cfg ≡ ok tt
unfolding check_value
check_value_complete tx cfg (inl zero_value) = ground arith
check_value_complete tx cfg (inr (max, call, pinned, proxy, ceiling, bounded)) =
    ground
      (arith, same_bytes_refl cfg.bridge_contract, same_bytes→≡ cfg.bridge_contract zero_address)

check_fees_sound :
    (tx : GasTx) (cfg : GasPins)
    → check_fees tx cfg ≡ ok tt
    → (0 < cfg.gas_tx_max_gas_limit)
      × (0 < cfg.gas_tx_max_fee_per_gas)
      × (tx.gas_limit ≤ cfg.gas_tx_max_gas_limit)
      × (tx.max_fee_per_gas ≤ cfg.gas_tx_max_fee_per_gas)
      × (tx.max_priority_fee_per_gas ≤ cfg.gas_tx_max_fee_per_gas)
unfolding check_fees
check_fees_sound tx cfg h = ground arith

check_selector_sound :
    (selector : Option Bytes) (cfg : GasPins)
    → check_selector selector cfg ≡ ok tt
    → (s : Bytes) × (selector ≡ some s) × (contains cfg.gas_tx_allowed_selectors s ≡ true)
unfolding check_selector
check_selector_sound none cfg h = cc
check_selector_sound (some s) cfg h = (s, refl, ground arith)

check_allowed_sound : (tx : GasTx) (cfg : GasPins) → check_allowed tx cfg ≡ ok tt → IsAllowed tx cfg
unfolding check_allowed
check_allowed_sound tx cfg h =
    let (pinned, h1) = refuse_if_past (cfg.chain_id == 0) _ _ h in
    let (chain, h2) = refuse_if_past (not (tx.chain_id == cfg.chain_id)) _ _ h1 in
    let (allowed, is_allowed, h3) = bind-ok (ok_or cfg.gas_tx_allowed_to cross_check) _ h2 in
    let (same, h4) = refuse_if_past (not (same_bytes tx.to allowed)) _ _ h3 in
    let (u, valued, h5) = bind-ok (check_value tx cfg) _ h4 in
    let (v, paid, chosen) = bind-ok (check_fees tx cfg) _ h5 in
    let fees = check_fees_sound tx cfg paid in
    let there = ok_or-ok cfg.gas_tx_allowed_to cross_check is_allowed in
    let to_is : tx.to ≡ allowed = same_bytes→≡ tx.to allowed (ground (arith, same)) in
    record {
      chain_pinned = ground (arith, pinned);
      chain = ground (arith, chain);
      destination = rw to_is there;
      payable = check_value_sound tx cfg valued;
      gas_pinned = fees.0;
      fee_pinned = fees.1;
      gas = fees.2;
      fee = fees.3;
      priority_fee = fees.4;
      selected = check_selector_sound tx.selector cfg chosen;
    }

check_fees_complete : (tx : GasTx) (cfg : GasPins) → IsAllowed tx cfg → check_fees tx cfg ≡ ok tt
unfolding check_fees
check_fees_complete tx cfg a =
    ground (arith, a.gas_pinned, a.fee_pinned, a.gas, a.fee, a.priority_fee)

check_selector_complete :
    (tx : GasTx) (cfg : GasPins) → IsAllowed tx cfg → check_selector tx.selector cfg ≡ ok tt
unfolding check_selector
check_selector_complete tx cfg a =
    let (selector, is_selector, listed) = a.selected in rw (is_selector, listed)

check_allowed_complete :
    (tx : GasTx) (cfg : GasPins) → IsAllowed tx cfg → check_allowed tx cfg ≡ ok tt
unfolding check_allowed
check_allowed_complete tx cfg a = ground (
  arith,
  a.chain_pinned,
  a.chain,
  a.destination,
  same_bytes_refl tx.to,
  check_value_complete tx cfg a.payable,
  check_fees_complete tx cfg a,
  check_selector_complete tx cfg a,
)

-- The request names its own digest or none.
abbrev Agrees : Bytes → Bytes → Type 0
Agrees digest computed = (digest ≡ []) ⊎ (digest ≡ computed)

not_empty : (bytes : Bytes) → is_empty bytes ≡ false → 0 < length bytes
not_empty [] h = cc
not_empty (b ∷ bytes) h = omega arith

some_not_empty : (bytes : Bytes) → 0 < length bytes → is_empty bytes ≡ false
some_not_empty [] h = absurd (omega arith)
some_not_empty (b ∷ bytes) h = refl

agreed_sound :
    (digest computed : Bytes)
    → (not (is_empty digest) && not (same_bytes digest computed)) ≡ false
    → Agrees digest computed
agreed_sound [] computed h = inl refl
agreed_sound (b ∷ digest) computed h = inr (same_bytes→≡ (b ∷ digest) computed (ground arith))

agreed_complete :
    (digest computed : Bytes)
    → Agrees digest computed
    → (not (is_empty digest) && not (same_bytes digest computed)) ≡ false
agreed_complete digest computed (inl none_named) = rw none_named
agreed_complete digest computed (inr same) = rw same (ground (arith, same_bytes_refl computed))

module _ (keccak256 : Bytes → Bytes) where
  -- A request that may be signed: bytes within the limit, that parse to an allowed transaction.
  pub record IsSignable (req : SignRawDigestRequest) (cfg : GasPins) : Type 0 where
    pub tx : GasTx
    pub some_bytes : 0 < length req.unsigned_tx
    pub small : length req.unsigned_tx ≤ max_gas_tx_bytes
    pub parsed : parse_gas_tx req.unsigned_tx ≡ ok tx
    pub allowed : IsAllowed tx cfg
    pub agrees : Agrees req.digest (keccak256 req.unsigned_tx)

  module _ (req : SignRawDigestRequest) (cfg : GasPins) (digest : Bytes) where
    sound :
        validate_gas_tx_request keccak256 req cfg ≡ ok digest
        → IsSignable req cfg × (digest ≡ keccak256 req.unsigned_tx)
    unfolding validate_gas_tx_request
    sound h =
        let (some_bytes, h1) = refuse_if_past (is_empty req.unsigned_tx) _ _ h in
        let (small, h2) = refuse_if_past (ltb max_gas_tx_bytes (length req.unsigned_tx)) _ _ h1 in
        let (tx, parsed, h3) = bind-ok (parse_gas_tx req.unsigned_tx) _ h2 in
        let (u, allowed, h4) = bind-ok (check_allowed tx cfg) _ h3 in
        let computed = keccak256 req.unsigned_tx in
        let (agreed, answer) =
          refuse_if_past (not (is_empty req.digest) && not (same_bytes req.digest computed)) _ _
            h4 in
        (
          record {
            tx = tx;
            some_bytes = not_empty req.unsigned_tx some_bytes;
            small = ltb_false→le _ _ small;
            parsed = parsed;
            allowed = check_allowed_sound tx cfg allowed;
            agrees = agreed_sound req.digest computed agreed;
          },
          ground (arith, answer),
        )

    complete :
        IsSignable req cfg × (digest ≡ keccak256 req.unsigned_tx)
        → validate_gas_tx_request keccak256 req cfg ≡ ok digest
    unfolding validate_gas_tx_request
    complete (s, d) =
        let small : ltb max_gas_tx_bytes (length req.unsigned_tx) ≡ false =
          ground (arith, s.small) in
        rw (
          some_not_empty req.unsigned_tx s.some_bytes,
          small,
          s.parsed,
          check_allowed_complete s.tx cfg s.allowed,
          agreed_complete req.digest (keccak256 req.unsigned_tx) s.agrees,
          d,
        )

    -- The answer is a digest exactly when it is the hash of the transaction's own bytes, these
    -- are not empty and within the limit, they parse, the operator's pins are all set and allow
    -- the transaction (its chain, destination, value or the payable carve-out, gas, fees and
    -- selector), and the request names the same digest or none.
    pub validate_gas_tx_request_iff :
        (validate_gas_tx_request keccak256 req cfg ≡ ok digest)
        ↔ (IsSignable req cfg × (digest ≡ keccak256 req.unsigned_tx))
    validate_gas_tx_request_iff = (sound, complete)
