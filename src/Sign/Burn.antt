-- ===== src/Sign/Burn.antt =====
-- The burn signer: `handle_sign` of enclave/src/server/sign.rs, the validators of
-- enclave/src/networks/route.rs and `handle_sign_evm` of enclave/src/server/signers.rs, as built
-- with the features burn-signer and spv. Other requests run between the steps of one, so that each
-- step has the state and the chain that it finds. The signature is a parameter.
pub mod Kept
pub mod Steps
pub mod Released
use enclave_signer.Prelude.{
  ℕ, Bool, true, false, Option, none, some, List, [], ok, err, ◌>>=◌, ◌>>◌, ok_or, Bytes,
}
use enclave_signer.Config.{BridgeConfig}
use enclave_signer.Error.{EnclaveResult, invalid_request, cross_check}
use enclave_signer.Spv.Types.{Bitcoin, ChainNet}
use enclave_signer.Spv.Chain.{HeaderChain}
use enclave_signer.Spv.CrossCheck.{ValidatedConsignment, ChainPins, assert_unchanged}
use enclave_signer.Evm.Relay.{ReleaseIdentity}
use enclave_signer.Evm.Release.{Codecs, apply_funds_out_binding}
use enclave_signer.Evm.Destination.{
  Abi, EvmDestination, FundsOutParams, RouteProof, validate_destination,
  validate_rgb_source_identity,
}
use enclave_signer.Evm.Signing.{digest_of, validate_burn_id}
use enclave_signer.Rgb.Source.{
  RgbSource, RgbValidator, validate_source, route_proof_from_validated_consignment, with_pins,
}
use enclave_signer.Sign.Route.{
  SourceNetwork, evm_source, rgb_source, DestinationNetwork, evm_destination, rgb_destination,
  SignRequest, validate_route_proofs,
}
use enclave_signer.State.Enclave.{Keys, EnclaveState, with_active}

-- What the handler uses of other crates and of the configuration.
pub record Signer (k : Keys) : Type 1 where
  pub btc : Bitcoin
  pub sha256d : Bytes → Bytes
  pub keccak256 : Bytes → Bytes
  pub prefix : ChainNet → Bytes
  pub codecs : Codecs
  pub abi : Abi
  pub validator : RgbValidator
  pub sign_evm : k.KeyManager → Bytes → EnclaveResult Bytes
  pub cfg : BridgeConfig

-- What the steps of one request find, in the order of the steps.
pub record Moments (k : Keys) (btc : Bitcoin) : Type 0 where
  pub ready : EnclaveState k
  pub proving : HeaderChain btc.Header
  pub sourcing : HeaderChain btc.Header
  pub source_clock : Option ℕ
  pub destination_clock : Option ℕ
  pub binding : HeaderChain btc.Header
  pub signing : HeaderChain btc.Header
  pub signing_state : EnclaveState k

pub record EvmSignatureResponse : Type 0 where
  pub signature : Bytes
  pub call_data : Bytes

unfoldable pub check_signer_role : SourceNetwork → DestinationNetwork → EnclaveResult (Unit {0})
check_signer_role (evm_source s) d = err invalid_request
check_signer_role (rgb_source s) (rgb_destination d) = err invalid_request
check_signer_role (rgb_source s) (evm_destination d) = ok tt

-- `sign_with_chain_pins_unchanged`: the chain's lock is held over the check and the signature.
unfoldable pub sign_with_chain_pins_unchanged :
    {H T : Type 0} → ChainPins → HeaderChain H → EnclaveResult T → EnclaveResult T
sign_with_chain_pins_unchanged [] chain sign = sign
sign_with_chain_pins_unchanged pins chain sign = do assert_unchanged pins chain; sign

module _ (k : Keys) (signer : Signer k) where
  open signer use {btc, sha256d, keccak256, prefix, codecs, abi, validator, sign_evm, cfg}

  -- Also what the validators answer: `SourceProof`, with the pins so far, and `DestinationProof`.
  unfoldable pub validate_source_network :
      Moments k btc
      → SourceNetwork
      → EnclaveResult (ChainPins × RouteProof × Option ValidatedConsignment)
  validate_source_network m (rgb_source s) = do
    (pins, validated) ←
        validate_source btc sha256d keccak256 prefix validator s cfg m.proving m.sourcing
          m.source_clock []
    proof ← route_proof_from_validated_consignment codecs validated
    ok (pins, proof, some validated)
  validate_source_network m (evm_source s) = err invalid_request

  unfoldable pub validate_destination_network :
      Moments k btc
      → DestinationNetwork
      → EnclaveResult (RouteProof × Option FundsOutParams × ReleaseIdentity)
  validate_destination_network m (evm_destination d) =
      validate_destination abi d cfg m.destination_clock
  validate_destination_network m (rgb_destination d) = err invalid_request

  -- The binds of the `fundsOut` branch, before the signature.
  unfoldable pub bind_release :
      Moments k btc
      → SourceNetwork
      → EvmDestination
      → ReleaseIdentity
      → Option ValidatedConsignment
      → ChainPins
      → EnclaveResult ChainPins
  bind_release m (rgb_source s) d release validated pins = do
    validate_rgb_source_identity release
    validate_burn_id keccak256 cfg release
    (pins, _) ← with_pins (
        apply_funds_out_binding codecs btc sha256d keccak256 m.binding cfg.btc_relay_mode
          cfg.spv_min_confirmations release validated s.merkle_proofs pins d.burn_destination)
    ok pins
  bind_release m (evm_source s) d release validated pins = do
    validate_burn_id keccak256 cfg release
    ok pins

  unfoldable pub handle_sign_evm :
      Moments k btc
      → EvmDestination
      → Option FundsOutParams
      → ChainPins
      → EnclaveResult EvmSignatureResponse
  handle_sign_evm m req params pins = do
    digest ← digest_of keccak256 abi req params
    signature ←
        sign_with_chain_pins_unchanged pins m.signing
          (with_active k m.signing_state (λ keys. sign_evm keys digest))
    ok (record { signature = signature; call_data = req.call_data })

  -- The `match destination` of `handle_sign`.
  unfoldable pub sign_destination :
      Moments k btc
      → SourceNetwork
      → DestinationNetwork
      → Option FundsOutParams
      → ReleaseIdentity
      → Option ValidatedConsignment
      → ChainPins
      → EnclaveResult EvmSignatureResponse
  sign_destination m source (evm_destination d) params release validated pins = do
    pins ← bind_release m source d release validated pins
    handle_sign_evm m d params pins
  sign_destination m source (rgb_destination d) params release validated pins = err invalid_request

  -- `handle_sign` once the role has been checked.
  unfoldable pub sign_route :
      Moments k btc → SourceNetwork → DestinationNetwork → EnclaveResult EvmSignatureResponse
  sign_route m source destination = do
    with_active k m.ready (λ keys. ok tt)
    (pins, source_proof, validated) ← validate_source_network m source
    (destination_proof, params, release) ← validate_destination_network m destination
    validate_route_proofs source destination source_proof destination_proof
    sign_destination m source destination params release validated pins

  unfoldable pub handle_sign : Moments k btc → SignRequest → EnclaveResult EvmSignatureResponse
  handle_sign m req = do
    source ← ok_or req.source_network invalid_request
    destination ← ok_or req.destination_network invalid_request
    check_signer_role source destination
    sign_route m source destination
