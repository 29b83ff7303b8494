-- ===== src/Config.antt =====
-- enclave/src/config.rs: the operator's choices that the checks read.
use enclave_signer.Prelude.{ℕ, Bool, true, false, ◌&&◌, not, List, [], ◌∷◌, ◌==◌, Bytes, same_bytes}

pub data BtcRelayMode : Type 0 where
  required none : BtcRelayMode

-- `[0u8; 20]`
abbrev pub zero_address : Bytes
zero_address = 0 ∷ 0 ∷ 0 ∷ 0 ∷ 0 ∷ 0 ∷ 0 ∷ 0 ∷ 0 ∷ 0 ∷ 0 ∷ 0 ∷ 0 ∷ 0 ∷ 0 ∷ 0 ∷ 0 ∷ 0 ∷ 0 ∷ 0 ∷ []

-- `Vec::is_empty`
abbrev pub is_empty {ℓ} : {A : Type ℓ} → List A → Bool
is_empty [] = true
is_empty (x ∷ xs) = false

-- The fields that the signing of a release reads. The pins of gas transactions are with those.
pub record BridgeConfig : Type 0 where
  pub chain_id : ℕ
  pub bridge_contract : Bytes
  pub funds_in_contract : Bytes
  pub token_contract : Bytes
  pub rgb_asset_id : Bytes
  pub btc_relay_mode : BtcRelayMode
  pub spv_min_confirmations : ℕ
  pub max_consignment_bytes : ℕ
  pub max_merkle_proofs : ℕ
  pub max_total_proof_bytes : ℕ

unfoldable pub is_configured : BridgeConfig → Bool
is_configured cfg =
    not (cfg.chain_id == 0)
    && not (same_bytes cfg.bridge_contract zero_address)
    && not (is_empty cfg.rgb_asset_id)
