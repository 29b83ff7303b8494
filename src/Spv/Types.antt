-- ===== src/Spv/Types.antt =====
-- enclave/src/networks/rgb/spv/types.rs: networks and errors, with what the code uses of the
-- `bitcoin` crate as a record of parameters.
use enclave_signer.Prelude.{ℕ, ◌+◌, ◌-◌, ◌%◌, ◌^◌, Bool, true, false, ◌&&◌, Option, List, Result}

pub data Network : Type 0 where
  mainnet signet signet_custom testnet3 testnet4 regtest : Network

-- The networks of rgb-core that `chain_net` names.
pub data ChainNet : Type 0 where
  bitcoin_mainnet bitcoin_signet bitcoin_signet_custom bitcoin_testnet3 : ChainNet
  bitcoin_testnet4 bitcoin_regtest : ChainNet

-- The parameter sets of the `bitcoin` crate that `as_bitcoin_params` picks from.
pub data Params : Type 0 where
  mainnet signet testnet3 testnet4 regtest : Params

-- `u32` sums and differences wrap in a release build.
abbrev pub u32_mod : ℕ
u32_mod = 2 ^ 32

unfoldable pub add32 : ℕ → ℕ → ℕ
add32 a b = (a + b) % u32_mod

unfoldable pub sub32 : ℕ → ℕ → ℕ
sub32 a b = (a + u32_mod - b) % u32_mod

-- What the code uses of the `bitcoin` crate. Hashes are the numbers that their 32 bytes spell, and
-- `validate_pow` is the header against the target of its own bits.
pub record Bitcoin : Type 1 where
  pub Header : Type 0
  pub deserialize : List ℕ → Option Header
  pub serialize : Header → List ℕ
  pub prev_blockhash : Header → ℕ
  pub time : Header → ℕ
  pub bits : Header → ℕ
  pub merkle_root : Header → List ℕ
  pub block_hash : Header → ℕ
  pub work : Header → ℕ
  pub validate_pow : Header → Bool
  pub pow_target_spacing : Params → ℕ
  pub allow_min_difficulty_blocks : Params → Bool
  pub max_attainable_bits : Params → ℕ
  pub from_next_work_required : ℕ → ℕ → Params → ℕ

abbrev pub chain_net : Network → ChainNet
chain_net Network.mainnet = bitcoin_mainnet
chain_net Network.signet = bitcoin_signet
chain_net Network.signet_custom = bitcoin_signet_custom
chain_net Network.testnet3 = bitcoin_testnet3
chain_net Network.testnet4 = bitcoin_testnet4
chain_net Network.regtest = bitcoin_regtest

abbrev pub as_bitcoin_params : Network → Params
as_bitcoin_params Network.mainnet = Params.mainnet
as_bitcoin_params Network.signet = Params.signet
as_bitcoin_params Network.signet_custom = Params.signet
as_bitcoin_params Network.testnet3 = Params.testnet3
as_bitcoin_params Network.testnet4 = Params.testnet4
as_bitcoin_params Network.regtest = Params.regtest

abbrev pub enforces_pow : Network → Bool
enforces_pow Network.mainnet = true
enforces_pow Network.testnet3 = true
enforces_pow Network.testnet4 = true
enforces_pow _ = false

abbrev pub bip94 : Network → Bool
bip94 Network.testnet4 = true
bip94 _ = false

module _ (btc : Bitcoin) where
  unfoldable pub allows_min_difficulty : Network → Bool
  allows_min_difficulty network =
      enforces_pow network && btc.allow_min_difficulty_blocks (as_bitcoin_params network)

  unfoldable pub pow_limit_bits : Network → ℕ
  pow_limit_bits network = btc.max_attainable_bits (as_bitcoin_params network)

-- `SpvError`, its values without the parser's message.
pub data SpvError : Type 0 where
  header_parse : ℕ → SpvError
  chain_linkage : ℕ → SpvError
  pow_failed : ℕ → SpvError
  bits_mismatch : ℕ → ℕ → ℕ → SpvError
  non_contiguous : ℕ → ℕ → SpvError
  below_checkpoint : ℕ → ℕ → SpvError
  reorg_too_deep : ℕ → ℕ → SpvError
  weaker_chain : SpvError
  batch_too_large : ℕ → ℕ → SpvError
  chain_too_long : ℕ → ℕ → SpvError
  timewarp : ℕ → ℕ → ℕ → SpvError
  time_too_new : ℕ → ℕ → ℕ → SpvError
  time_too_old : ℕ → ℕ → ℕ → SpvError
  header_not_found : ℕ → SpvError
  checkpoint_placeholder : SpvError

abbrev pub SpvResult : Type 0 → Type 0
SpvResult = Result SpvError
