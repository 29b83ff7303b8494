-- ===== src/Sign/Route.antt =====
-- enclave/src/networks/route.rs: the routes of a request, in a build without Concordium.
use enclave_signer.Prelude.{ℕ, Option, ltb, err, refuse_if, Bytes}
use enclave_signer.Error.{EnclaveResult, cross_check, invalid_request}
use enclave_signer.Evm.Destination.{EvmDestination, RouteProof}
use enclave_signer.Rgb.Source.{RgbSource}

-- The generated messages.
pub record EvmSource : Type 0 where
  pub tx_hash : Bytes
  pub funds_in_operation_id : Bytes
  pub commission : ℕ

pub record RgbDestination : Type 0 where
  pub asset_id : Bytes
  pub psbt_bytes : Bytes
  pub fascia : Bytes
  pub parent_fascia : Bytes

pub data SourceNetwork : Type 0 where
  evm_source : EvmSource → SourceNetwork
  rgb_source : RgbSource → SourceNetwork

pub data DestinationNetwork : Type 0 where
  evm_destination : EvmDestination → DestinationNetwork
  rgb_destination : RgbDestination → DestinationNetwork

pub record SignRequest : Type 0 where
  pub amount : ℕ
  pub source_network : Option SourceNetwork
  pub destination_network : Option DestinationNetwork

unfoldable pub validate_amount_covers_destination : ℕ → ℕ → EnclaveResult (Unit {0})
validate_amount_covers_destination source_amount destination_amount =
    refuse_if (ltb source_amount destination_amount) cross_check

unfoldable pub validate_route_proofs :
    SourceNetwork → DestinationNetwork → RouteProof → RouteProof → EnclaveResult (Unit {0})
unfolding validate_amount_covers_destination
validate_route_proofs (evm_source s) (rgb_destination d) source_proof destination_proof =
    validate_amount_covers_destination source_proof.amount destination_proof.amount
validate_route_proofs (rgb_source s) (evm_destination d) source_proof destination_proof =
    validate_amount_covers_destination source_proof.amount destination_proof.amount
validate_route_proofs (evm_source s) (evm_destination d) source_proof destination_proof =
    err invalid_request
validate_route_proofs (rgb_source s) (rgb_destination d) source_proof destination_proof =
    err invalid_request
