-- ===== src/Rgb/Source.antt =====
-- enclave/src/networks/rgb/validation/source.rs and asset_bind.rs, `proven_witnesses` of
-- spv_crosscheck.rs, and the source side of enclave/src/networks/rgb/route.rs, as built with the
-- feature spv. The validator is set, as the launch does. The validation of a consignment itself, in
-- consignment.rs and its neighbours over the RGB library and an indexer, is an argument, and so is
-- the library's witness position.
pub mod Bind
use enclave_signer.Prelude.{
  ℕ, ◌+◌, ◌-◌, Bool, true, false, ◌&&◌, ◌||◌, not, Option, none, some, List, [], ◌∷◌, map, length,
  ltb, leb, ◌==◌, if◌then◌else◌, ok, err, ◌>>=◌, ◌>>◌, refuse_if, ok_or, Bytes, same_bytes,
  starts_with, drop,
}
use enclave_signer.Config.{BridgeConfig, is_configured, is_empty}
use enclave_signer.Error.{EnclaveResult, cross_check, spv}
use enclave_signer.Spv.Types.{Bitcoin, ChainNet}
use enclave_signer.Spv.Chain.{HeaderChain, header_at}
use enclave_signer.Spv.CrossCheck.{
  MerkleProofEntry, TransitionSummary, ValidatedConsignment, ChainPins, reverse, proof_txid,
  verify_one_proof, validate_source_chain,
}
use enclave_signer.Evm.Destination.{RouteProof}
use enclave_signer.Evm.Release.{Codecs, funds_out_source_amount}

-- The generated message.
pub record RgbSource : Type 0 where
  pub consignment : Bytes
  pub consignment_hash : Bytes
  pub asset_id : Bytes
  pub commission : ℕ
  pub merkle_proofs : List MerkleProofEntry

pub data AssetBindMode : Type 0 where
  source destination : AssetBindMode

-- What a side does without the pin of its asset: `none` is a pass with no further check.
abbrev pub pin_required : BridgeConfig → AssetBindMode → Option (EnclaveResult (Unit {0}))
pin_required cfg AssetBindMode.source =
    if not (is_configured cfg)
    then none
    else some (refuse_if (is_empty cfg.rgb_asset_id) cross_check)
pin_required cfg AssetBindMode.destination =
    some (refuse_if (is_empty cfg.rgb_asset_id) cross_check)

abbrev pub bind_pin : Option (EnclaveResult (Unit {0})) → Bytes → Bytes → EnclaveResult (Unit {0})
bind_pin none contract_id pinned = ok tt
bind_pin (some required) contract_id pinned = do
  required
  refuse_if (not (same_bytes contract_id pinned)) cross_check

unfoldable pub assert_asset_binding :
    Bytes → Bytes → BridgeConfig → AssetBindMode → EnclaveResult (Unit {0})
unfolding is_configured
assert_asset_binding validated_contract_id declared_asset_id cfg mode = do
  refuse_if (is_empty validated_contract_id) cross_check
  refuse_if (not (same_bytes validated_contract_id declared_asset_id)) cross_check
  bind_pin (pin_required cfg mode) validated_contract_id cfg.rgb_asset_id

unfoldable pub assert_consignment_size : Bytes → BridgeConfig → EnclaveResult (Unit {0})
assert_consignment_size consignment cfg =
    refuse_if (ltb cfg.max_consignment_bytes (length consignment)) cross_check

-- The sums of the sizes; memory bounds them far below the width of a word.
abbrev pub path_bytes : List Bytes → ℕ
path_bytes [] = 0
path_bytes (s ∷ path) = length s + path_bytes path

abbrev pub proof_bytes : List MerkleProofEntry → ℕ
proof_bytes [] = 0
proof_bytes (p ∷ proofs) = length p.txid + path_bytes p.merkle_path + proof_bytes proofs

-- Hexadecimal digits in ASCII, and their lower case.
abbrev pub is_hex_digit : ℕ → Bool
is_hex_digit b =
    (leb b'0' b && leb b b'9') || (leb b'a' b && leb b b'f') || (leb b'A' b && leb b b'F')

abbrev pub all_hex : Bytes → Bool
all_hex [] = true
all_hex (b ∷ bytes) = is_hex_digit b && all_hex bytes

abbrev pub to_lower : ℕ → ℕ
to_lower b = if leb b'A' b && leb b b'Z' then b + 32 else b

-- `strip_prefix("0x").unwrap_or`
abbrev pub strip_0x : Bytes → Bytes
strip_0x bytes = if starts_with bytes (b'0' ∷ b'x' ∷ []) then drop 2 bytes else bytes

unfoldable pub normalize_rgb_operation_id : Bytes → EnclaveResult Bytes
normalize_rgb_operation_id op_id = do
  let normalized = strip_0x op_id
  refuse_if (not (length normalized == 64)) cross_check
  refuse_if (not (all_hex normalized)) cross_check
  ok (map to_lower normalized)

unfoldable pub route_proof_from_validated_consignment :
    Codecs → ValidatedConsignment → EnclaveResult RouteProof
route_proof_from_validated_consignment codecs validated = do
  last ← ok_or validated.last_transition cross_check
  amount ← funds_out_source_amount codecs last
  op_id ← normalize_rgb_operation_id last.op_id
  ok (record { amount = amount; operation_id = some op_id })

module _ (keccak256 : Bytes → Bytes) where
  unfoldable pub validate_source_payload : RgbSource → BridgeConfig → EnclaveResult (Unit {0})
  unfolding assert_consignment_size
  validate_source_payload rgb_source cfg = do
    refuse_if (is_empty rgb_source.consignment) cross_check
    assert_consignment_size rgb_source.consignment cfg
    refuse_if (ltb cfg.max_merkle_proofs (length rgb_source.merkle_proofs)) cross_check
    refuse_if (ltb cfg.max_total_proof_bytes (proof_bytes rgb_source.merkle_proofs)) cross_check
    refuse_if (is_empty rgb_source.consignment_hash) cross_check
    refuse_if (not (same_bytes (keccak256 rgb_source.consignment) rgb_source.consignment_hash))
        cross_check
    refuse_if (is_empty rgb_source.asset_id) cross_check

-- The validator, and the position of the RGB library. `validate_consignment` takes the bytes, the proven
-- positions of witness transactions and the asset binding that it calls before it reads a list.
pub record RgbValidator : Type 1 where
  pub WitnessPos : Type 0
  pub bitcoin_pos : ℕ → ℕ → Option WitnessPos
  pub validate_consignment :
      Bytes
      → List (Bytes × WitnessPos)
      → (Bytes → EnclaveResult (Unit {0}))
      → EnclaveResult ValidatedConsignment

-- A key of the map of proven witnesses.
abbrev pub is_proven : {Pos : Type 0} → List (Bytes × Pos) → Bytes → Bool
is_proven [] txid = false
is_proven ((t, pos) ∷ proven) txid = same_bytes t txid || is_proven proven txid

module _ (btc : Bitcoin) (sha256d : Bytes → Bytes) (validator : RgbValidator) where
  open btc use {Header, time}
  open validator use {WitnessPos, bitcoin_pos, validate_consignment}

  -- `NonZeroU32::new(height)` and the position of a block of that height and time.
  abbrev pub position : ℕ → Option Header → Option WitnessPos
  position height none = none
  position height (some header) = if height == 0 then none else bitcoin_pos height (time header)

  -- The loop of `proven_witnesses`; the map as a list, the last proof first.
  unfoldable pub proven_from :
      HeaderChain Header
      → ℕ
      → List (Bytes × WitnessPos)
      → List MerkleProofEntry
      → EnclaveResult (List (Bytes × WitnessPos))
  proven_from chain min_confirmations proven [] = ok proven
  proven_from chain min_confirmations proven (proof ∷ proofs) = do
    txid ← proof_txid proof
    verify_one_proof btc sha256d chain min_confirmations proof
    pos ← ok_or (position proof.block_height (header_at chain proof.block_height)) spv
    refuse_if (is_proven proven (reverse txid)) spv
    proven_from chain min_confirmations ((reverse txid, pos) ∷ proven) proofs

  unfoldable pub proven_witnesses :
      HeaderChain Header → List MerkleProofEntry → ℕ → EnclaveResult (List (Bytes × WitnessPos))
  unfolding proven_from
  proven_witnesses chain proofs min_confirmations = proven_from chain min_confirmations [] proofs

-- The pins that a step adds, with its answer, where it has one.
abbrev pub with_pins : {A : Type 0} → ChainPins × EnclaveResult A → EnclaveResult (ChainPins × A)
with_pins (pins, ok a) = ok (pins, a)
with_pins (pins, err e) = err e

module _ (btc : Bitcoin) (sha256d keccak256 : Bytes → Bytes) (prefix : ChainNet → Bytes)
    (validator : RgbValidator) where
  open btc use {Header}

  -- The chain is read twice, each time as it then is. The pins are the request's own, and are lost
  -- with it where it is refused.
  unfoldable pub validate_source :
      RgbSource
      → BridgeConfig
      → HeaderChain Header
      → HeaderChain Header
      → Option ℕ
      → ChainPins
      → EnclaveResult (ChainPins × ValidatedConsignment)
  validate_source rgb_source cfg proving chain now pins = do
    validate_source_payload keccak256 rgb_source cfg
    proven ←
        proven_witnesses btc sha256d validator proving rgb_source.merkle_proofs
          cfg.spv_min_confirmations
    validated ← validator.validate_consignment rgb_source.consignment proven (λ contract_id.
        assert_asset_binding contract_id rgb_source.asset_id cfg AssetBindMode.source)
    assert_asset_binding validated.contract_id rgb_source.asset_id cfg AssetBindMode.source
    (pins, _) ← with_pins (
        validate_source_chain btc sha256d prefix chain (some validated) rgb_source.merkle_proofs now
          pins cfg.spv_min_confirmations)
    ok (pins, validated)
