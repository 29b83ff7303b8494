-- ===== src/Evm/Destination/Pins.antt =====
-- The checks of the request against the pins, the clock and the floor of a LayerZero payout.
use enclave_signer.Prelude.{
  ℕ, ◌≤◌, ◌<◌, ◌≡◌, ◌≢◌, ◌↔◌, subst, refl, Bool, true, false, ◌&&◌, not, Option, none, some, List,
  [], ◌∷◌, length, ◌==◌, arith, inl, inr, ok, Bytes, same_bytes, Bool-cases, bind-ok,
  refuse_if_past, refuse_if-ok, same_bytes→≡, same_bytes_refl, same_bytes-false,
}
use enclave_signer.Config.{BridgeConfig, is_configured, is_empty, zero_address}
use enclave_signer.Error.{EnclaveResult, cross_check}
use enclave_signer.Evm.Relay.{ReleaseIdentity}
use enclave_signer.Evm.Release.{address_len}
use enclave_signer.Evm.Destination.{
  FundsOutParams, LzFundsOutCall, EvmDestination, RouteProof, max_tee_deadline_secs,
  validate_min_amount_ld, check_destination_chain, check_pins, saturating_add, check_deadline,
}

is_empty-true : {A : Type 0} (xs : List A) → is_empty xs ≡ true → xs ≡ []
is_empty-true [] h = refl
is_empty-true (x ∷ xs) h = cc

is_empty-false : {A : Type 0} (xs : List A) → is_empty xs ≡ false → xs ≢ []
is_empty-false [] h = cc
is_empty-false (x ∷ xs) h = λ e. cc

-- Equality of byte strings as the code tests it.
pub same_bytes_iff : (xs ys : Bytes) → (same_bytes xs ys ≡ true) ↔ (xs ≡ ys)
same_bytes_iff xs ys =
    (same_bytes→≡ xs ys, λ e. subst (λ zs. same_bytes xs zs ≡ true) e (same_bytes_refl xs))

different : (xs ys : Bytes) → xs ≢ ys → same_bytes xs ys ≡ false
different xs ys n = elim (Bool-cases (same_bytes xs ys)) [
  | inl same ↦ absurd (n (same_bytes→≡ xs ys same))
  | inr other ↦ other
]

-- The configuration has the pins that make it configured.
abbrev pub IsConfigured : BridgeConfig → Type 0
IsConfigured cfg =
    (0 < cfg.chain_id) × (cfg.bridge_contract ≢ zero_address) × (is_empty cfg.rgb_asset_id ≡ false)

is_configured_iff : (cfg : BridgeConfig) → (is_configured cfg ≡ true) ↔ IsConfigured cfg
unfolding is_configured
is_configured_iff cfg = (
  λ h. (
    ground arith,
    same_bytes-false cfg.bridge_contract zero_address (ground arith),
    ground arith,
  ),
  λ c. ground (arith, c.0, c.2, different cfg.bridge_contract zero_address c.1),
)

pub check_deadline_iff :
    (deadline : ℕ) (now : Option ℕ)
    → (check_deadline deadline now ≡ ok tt) ↔ (
        (time : ℕ) × (now ≡ some time)
        × (time < deadline)
        × (deadline ≤ saturating_add time max_tee_deadline_secs))
unfolding check_deadline
check_deadline_iff deadline none = ((λ h. cc), λ h. cc (h.1))
check_deadline_iff deadline (some time) =
    (λ h. (time, refl, ground arith, ground arith), λ h. ground (arith, h.1, h.2, h.3))

pub validate_min_amount_ld_iff :
    (decoded : LzFundsOutCall)
    → (validate_min_amount_ld decoded ≡ ok tt)
      ↔ ((0 < decoded.min_amount_ld) × (decoded.min_amount_ld ≤ decoded.amount))
unfolding validate_min_amount_ld
validate_min_amount_ld_iff decoded = ground arith

-- A payout of the direct route settles on the pinned chain, and one of the other route elsewhere.
abbrev pub IsSettledOn : Bool → ℕ → ℕ → Type 0
IsSettledOn true chain pinned = (0 < chain) × (chain ≢ pinned)
IsSettledOn false chain pinned = chain ≡ pinned

check_destination_chain_iff :
    (entrypoint : Bool) (chain pinned : ℕ)
    → 0 < pinned
    → (check_destination_chain entrypoint chain pinned ≡ ok tt)
      ↔ IsSettledOn entrypoint chain pinned
unfolding check_destination_chain
check_destination_chain_iff true chain pinned p = ground arith
check_destination_chain_iff false chain pinned p = ground arith

-- What the request says of its chain and its contract.
pub record IsPinned (entrypoint : Bool) (calldata_chain : ℕ) (destination : EvmDestination)
    (cfg : BridgeConfig) : Type 0 where
  pub configured : IsConfigured cfg
  pub chain_id : destination.chain_id ≡ cfg.chain_id
  pub proxy : destination.proxy_contract ≡ cfg.bridge_contract
  pub address : length destination.proxy_contract ≡ address_len
  pub settled : IsSettledOn entrypoint calldata_chain cfg.chain_id

pub check_pins_iff :
    (entrypoint : Bool) (calldata_chain : ℕ) (destination : EvmDestination) (cfg : BridgeConfig)
    → (check_pins entrypoint calldata_chain destination cfg ≡ ok tt)
      ↔ IsPinned entrypoint calldata_chain destination cfg
unfolding check_pins
check_pins_iff e chain destination cfg = (
  λ h.
      let (some_chain, h1) = refuse_if_past (destination.chain_id == 0) cross_check _ h in
      let (sized, h2) =
        refuse_if_past (not (length destination.proxy_contract == address_len)) cross_check _ h1 in
      let (configured, h3) = refuse_if_past (not (is_configured cfg)) cross_check _ h2 in
      let c = (is_configured_iff cfg).0 (ground (arith, configured)) in
      let (same_chain, h4) =
        refuse_if_past (not (cfg.chain_id == 0) && not (destination.chain_id == cfg.chain_id))
          cross_check _ h3 in
      let (_, settled, h5) = bind-ok (check_destination_chain e chain cfg.chain_id) _ h4 in
      let contract : same_bytes destination.proxy_contract cfg.bridge_contract ≡ true = ground (
        arith,
        refuse_if-ok
            (not (same_bytes cfg.bridge_contract zero_address)
              && not (same_bytes destination.proxy_contract cfg.bridge_contract))
            cross_check h5,
        different cfg.bridge_contract zero_address c.1,
      ) in
      record {
        configured = c;
        chain_id = ground (arith, same_chain, c.0);
        proxy = same_bytes→≡ destination.proxy_contract cfg.bridge_contract contract;
        address = ground (arith, sized);
        settled = (check_destination_chain_iff e chain cfg.chain_id c.0).0 settled;
      },
  λ p.
      let c = p.configured in
      rw
        (
          (is_configured_iff cfg).1 c,
          (check_destination_chain_iff e chain cfg.chain_id c.0).1 p.settled,
          (same_bytes_iff destination.proxy_contract cfg.bridge_contract).1 p.proxy,
          different cfg.bridge_contract zero_address c.1,
        )
        (ground (arith, p.chain_id, p.address, c.0)),
)

pub triple :
    {p q : RouteProof} {x y : Option FundsOutParams} {r s : ReleaseIdentity}
    → ◌≡◌ {A = EnclaveResult (RouteProof × Option FundsOutParams × ReleaseIdentity)}
        (ok (p, x, r))
        (ok (q, y, s))
    → (p ≡ q) × (x ≡ y) × (r ≡ s)
triple h = (cc, cc, cc)

pub kept : {b : Bool} → not b ≡ false → b ≡ true
kept h = ground (arith, h)
