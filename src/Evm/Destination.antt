-- ===== src/Evm/Destination.antt =====
-- enclave/src/networks/evm/validation.rs: the EVM destination of a release. The ABI code of the two
-- calls, which a macro of alloy generates, is a parameter, and so is Keccak-256.
pub mod Pins
pub mod Decoded
pub mod Accept
use enclave_signer.Prelude.{
  ℕ, ◌+◌, ◌-◌, ◌*◌, ◌^◌, Bool, true, false, ◌&&◌, ◌||◌, not, min, Option, none, some, List, [], ◌∷◌,
  ◌++◌, length, take, ltb, leb, ◌==◌, if◌then◌else◌, Result, ok, err, ◌>>=◌, ◌>>◌, refuse_if, ok_or,
  Bytes, be_value, to_be_bytes, same_bytes,
}
use enclave_signer.Config.{BridgeConfig, is_configured, is_empty, zero_address}
use enclave_signer.Error.{EnclaveResult, cross_check, internal}
use enclave_signer.Evm.LzOptions.{validate_extra_options}
use enclave_signer.Evm.Relay.{ReleaseIdentity}
use enclave_signer.Evm.Release.{BurnDestinationRecord, zero_bytes, address_len}

abbrev pub funds_out_selector_pools : Bytes
funds_out_selector_pools = 52 ∷ 2 ∷ 118 ∷ 170 ∷ []

abbrev pub max_funds_out_call_data_len : ℕ
max_funds_out_call_data_len = 96 * 1024

abbrev pub max_tee_deadline_secs : ℕ
max_tee_deadline_secs = 24 * 60 * 60

abbrev pub rgb_chain_id : ℕ
rgb_chain_id = 827166

-- Addresses and strings are byte lists, and a 256-bit word is a number.
pub record FundsOutParams : Type 0 where
  pub recipient : Bytes
  pub amount : ℕ
  pub burn_id : ℕ
  pub source_chain_id : ℕ
  pub destination_chain_id : ℕ
  pub source_address : Bytes
  pub proof : Bytes
  pub settlement_data : Bytes
  pub source_burn_tx_id : Bytes

pub record LzFundsOutCall : Type 0 where
  pub amount : ℕ
  pub burn_id : ℕ
  pub source_chain_id : ℕ
  pub destination_chain_id : ℕ
  pub source_address : Bytes
  pub proof : Bytes
  pub settlement_data : Bytes
  pub dst_eid : ℕ
  pub recipient : Bytes
  pub min_amount_ld : ℕ
  pub extra_options : Bytes
  pub source_burn_tx_id : Bytes

-- The generated messages.
pub record LzReleaseParams : Type 0 where
  pub dst_eid : ℕ
  pub recipient : Bytes
  pub min_amount_ld : ℕ

pub record EvmDestination : Type 0 where
  pub chain_id : ℕ
  pub proxy_contract : Bytes
  pub call_data : Bytes
  pub calldata_amount : ℕ
  pub nonce : ℕ
  pub deadline : ℕ
  pub lz_release : Option LzReleaseParams
  pub burn_destination : Option BurnDestinationRecord

pub record RouteProof : Type 0 where
  pub amount : ℕ
  pub operation_id : Option Bytes

-- What the `sol!` macro generates: the selector of `lzFundsOut`, and `abi_decode_validate` and
-- `abi_encode` of both calls.
pub record Abi : Type 0 where
  pub lz_funds_out_selector : Bytes
  pub funds_out_decode : Bytes → Option FundsOutParams
  pub funds_out_encode : FundsOutParams → Bytes
  pub lz_funds_out_decode : Bytes → Option LzFundsOutCall
  pub lz_funds_out_encode : LzFundsOutCall → Bytes

unfoldable pub from_funds_out : FundsOutParams → ReleaseIdentity
from_funds_out params = record {
  burn_id = params.burn_id;
  amount = params.amount;
  source_chain_id = params.source_chain_id;
  source_address = params.source_address;
  settlement_data = params.settlement_data;
  source_burn_tx_id = params.source_burn_tx_id;
  recipient = zero_bytes 12 ++ params.recipient;
  destination_chain_id = params.destination_chain_id;
  dst_eid = none;
  proof = params.proof;
}

unfoldable pub from_lz_funds_out : LzFundsOutCall → ReleaseIdentity
from_lz_funds_out call = record {
  burn_id = call.burn_id;
  amount = call.amount;
  source_chain_id = call.source_chain_id;
  source_address = call.source_address;
  settlement_data = call.settlement_data;
  source_burn_tx_id = call.source_burn_tx_id;
  recipient = call.recipient;
  destination_chain_id = call.destination_chain_id;
  dst_eid = some call.dst_eid;
  proof = call.proof;
}

-- `amount.try_into()` to 64 bits.
unfoldable pub route_proof_from_params : FundsOutParams → EnclaveResult RouteProof
route_proof_from_params params =
    if leb (2 ^ 64) params.amount
    then err cross_check
    else ok (record { amount = params.amount; operation_id = none })

unfoldable pub lz_route_proof_from_params : LzFundsOutCall → EnclaveResult RouteProof
lz_route_proof_from_params decoded =
    if leb (2 ^ 64) decoded.amount
    then err cross_check
    else ok (record { amount = decoded.amount; operation_id = none })

unfoldable pub validate_min_amount_ld : LzFundsOutCall → EnclaveResult (Unit {0})
validate_min_amount_ld decoded = do
  refuse_if (decoded.min_amount_ld == 0) cross_check
  refuse_if (ltb decoded.amount decoded.min_amount_ld) cross_check

unfoldable pub validate_rgb_source_identity : ReleaseIdentity → EnclaveResult (Unit {0})
validate_rgb_source_identity source = do
  refuse_if (not (source.source_chain_id == rgb_chain_id)) cross_check
  refuse_if (not (is_empty source.source_address)) cross_check

-- The match on the route and `lz_release`.
abbrev pub route_mismatch : Bool → Option LzReleaseParams → Bool
route_mismatch true none = true
route_mismatch true (some lz) = false
route_mismatch false none = false
route_mismatch false (some lz) = true

-- Both sides of the check of the calldata's destination chain.
unfoldable pub check_destination_chain : Bool → ℕ → ℕ → EnclaveResult (Unit {0})
check_destination_chain true chain pinned = do
  refuse_if (chain == 0) cross_check
  refuse_if (not (pinned == 0) && chain == pinned) cross_check
check_destination_chain false chain pinned =
    refuse_if (not (pinned == 0) && not (chain == pinned)) cross_check

-- The checks of the request's own fields against the pins, `entrypoint` saying which route it is.
unfoldable pub check_pins : Bool → ℕ → EvmDestination → BridgeConfig → EnclaveResult (Unit {0})
unfolding is_configured check_destination_chain
check_pins entrypoint calldata_chain destination cfg = do
  refuse_if (destination.chain_id == 0) cross_check
  refuse_if (not (length destination.proxy_contract == address_len)) cross_check
  refuse_if (not (is_configured cfg)) cross_check
  refuse_if (not (cfg.chain_id == 0) && not (destination.chain_id == cfg.chain_id)) cross_check
  check_destination_chain entrypoint calldata_chain cfg.chain_id
  refuse_if
      (not (same_bytes cfg.bridge_contract zero_address)
        && not (same_bytes destination.proxy_contract cfg.bridge_contract))
      cross_check

-- `u64::saturating_add`
abbrev pub saturating_add : ℕ → ℕ → ℕ
saturating_add a b = min (a + b) (2 ^ 64 - 1)

-- The time is `none` where the clock is before the epoch.
unfoldable pub check_deadline : ℕ → Option ℕ → EnclaveResult (Unit {0})
check_deadline deadline time = do
  now ← ok_or time internal
  refuse_if (leb deadline now) cross_check
  refuse_if (ltb (saturating_add now max_tee_deadline_secs) deadline) cross_check

module _ (abi : Abi) where
  open abi use {
    lz_funds_out_selector, funds_out_decode, funds_out_encode, lz_funds_out_decode,
    lz_funds_out_encode,
  }

  unfoldable pub decode_funds_out_params : Bytes → EnclaveResult FundsOutParams
  decode_funds_out_params call_data = do
    decoded ← ok_or (funds_out_decode call_data) cross_check
    refuse_if (not (same_bytes (funds_out_encode decoded) call_data)) cross_check
    ok decoded

  unfoldable pub decode_lz_funds_out_params : Bytes → EnclaveResult LzFundsOutCall
  decode_lz_funds_out_params call_data = do
    decoded ← ok_or (lz_funds_out_decode call_data) cross_check
    refuse_if (not (same_bytes (lz_funds_out_encode decoded) call_data)) cross_check
    ok decoded

  -- The two branches that decode the calldata.
  unfoldable pub decode_lz_release :
      Bytes → EnclaveResult (RouteProof × Option FundsOutParams × ReleaseIdentity)
  decode_lz_release call_data = do
    decoded ← decode_lz_funds_out_params call_data
    validate_min_amount_ld decoded
    validate_extra_options decoded.extra_options
    proof ← lz_route_proof_from_params decoded
    ok (proof, none, from_lz_funds_out decoded)

  unfoldable pub decode_direct_release :
      Bytes → EnclaveResult (RouteProof × Option FundsOutParams × ReleaseIdentity)
  decode_direct_release call_data = do
    params ← decode_funds_out_params call_data
    proof ← route_proof_from_params params
    ok (proof, some params, from_funds_out params)

  -- `ALLOWED_SELECTORS.contains`
  abbrev pub is_allowed : Bytes → Bool
  is_allowed selector =
      same_bytes selector funds_out_selector_pools || same_bytes selector lz_funds_out_selector

  abbrev pub is_entrypoint : EvmDestination → Bool
  is_entrypoint destination = same_bytes (take 4 destination.call_data) lz_funds_out_selector

  unfoldable pub decode_release :
      Bool → Bytes → EnclaveResult (RouteProof × Option FundsOutParams × ReleaseIdentity)
  decode_release true call_data = decode_lz_release call_data
  decode_release false call_data = decode_direct_release call_data

  -- In a build with RGB validation.
  unfoldable pub validate_destination :
      EvmDestination
      → BridgeConfig
      → Option ℕ
      → EnclaveResult (RouteProof × Option FundsOutParams × ReleaseIdentity)
  validate_destination destination cfg now = do
    refuse_if (ltb (length destination.call_data) 4) cross_check
    refuse_if (ltb max_funds_out_call_data_len (length destination.call_data)) cross_check
    refuse_if (not (is_allowed (take 4 destination.call_data))) cross_check
    refuse_if (route_mismatch (is_entrypoint destination) destination.lz_release) cross_check
    (proof, params, release) ← decode_release (is_entrypoint destination) destination.call_data
    refuse_if (not (proof.amount == destination.calldata_amount)) cross_check
    check_pins (is_entrypoint destination) release.destination_chain_id destination cfg
    check_deadline destination.deadline now
    ok (proof, params, release)
