-- ===== src/Evm/Signing.antt =====
-- enclave/src/networks/evm/signing.rs: the digests of EIP-712 that the bridge key signs, and the
-- choice between them at the start of `handle_sign_evm` in enclave/src/server/signers.rs; also the
-- burn id of enclave/src/networks/evm/validation.rs. Keccak-256 is a parameter.
pub mod Words
pub mod Structs
pub mod LzStruct
pub mod Binding
pub mod BurnId
use Prim.Native.Char.{code}
use Prim.Native.String.{String}
use Prim.Native.String
use enclave_signer.Prelude.{
  ℕ, ◌+◌, ◌-◌, ◌*◌, ◌^◌, not, Option, none, some, List, [], ◌∷◌, ◌++◌, length, ltb, leb, ◌==◌, ok,
  err, ◌>>=◌, ◌>>◌, refuse_if, Bytes, be_value, to_be_bytes, same_bytes, if◌then◌else◌,
}
use enclave_signer.Config.{BridgeConfig, zero_address}
use enclave_signer.Error.{EnclaveResult, cross_check}
use enclave_signer.Evm.Relay.{ReleaseIdentity}
use enclave_signer.Evm.Release.{zero_bytes, address_len}
use enclave_signer.Evm.Destination.{
  FundsOutParams, LzFundsOutCall, LzReleaseParams, EvmDestination, Abi, decode_lz_funds_out_params,
}

-- `as_bytes` of a text in ASCII.
abbrev pub codes : String → Bytes
codes String.[] = []
codes (String.◌∷◌ c s) = code c ∷ codes s

unfoldable pub domain_type_hash_str : Bytes
domain_type_hash_str =
    codes "EIP712Domain(string name,string version,uint256 chainId,address verifyingContract)"

unfoldable pub tee_funds_out_type_hash_str : Bytes
tee_funds_out_type_hash_str =
    codes
      "TeeFundsOut(address recipient,uint256 amount,uint256 burnId,uint256 sourceChainId,uint256 destinationChainId,string sourceAddress,bytes proof,bytes settlementData,bytes32 sourceBurnTxId,uint256 nonce,uint256 deadline)"

unfoldable pub tee_lz_funds_out_type_hash_str : Bytes
tee_lz_funds_out_type_hash_str =
    codes
      "TeeLzFundsOut(uint256 amount,uint256 burnId,uint256 sourceChainId,uint256 destinationChainId,string sourceAddress,bytes proof,bytes settlementData,uint32 dstEid,bytes32 recipient,uint256 minAmountLD,bytes extraOptions,bytes32 sourceBurnTxId,uint256 nonce,uint256 deadline)"

unfoldable pub burn_typehash_str : Bytes
burn_typehash_str =
    codes
      "UtexoBurnId(address bridge,uint256 chainId,address token,uint256 amount,uint256 sourceChainId,bytes32 sourceAddressHash,bytes32 sourceBurnTxId)"

pub record Eip712Domain : Type 0 where
  pub name : Bytes
  pub version : Bytes
  pub chain_id : ℕ
  pub verifying_contract : Bytes

abbrev pub abi_encode_u256 : ℕ → Bytes
abi_encode_u256 val = zero_bytes 24 ++ to_be_bytes 8 val []

abbrev pub abi_encode_u32 : ℕ → Bytes
abi_encode_u32 val = zero_bytes 28 ++ to_be_bytes 4 val []

abbrev pub abi_encode_address : Bytes → Bytes
abi_encode_address addr = zero_bytes 12 ++ addr

-- `to_be_bytes::<32>()`
abbrev pub word : ℕ → Bytes
word n = to_be_bytes 32 n []

-- The buffer that `extend_from_slice` builds of these parts.
abbrev pub joined : List Bytes → Bytes
joined [] = []
joined (part ∷ parts) = part ++ joined parts

unfoldable pub build_evm_domain : EvmDestination → EnclaveResult Eip712Domain
build_evm_domain req = do
  refuse_if (req.chain_id == 0) cross_check
  refuse_if (not (length req.proxy_contract == address_len)) cross_check
  ok (record {
    name = codes "MultisigProxy";
    version = codes "1";
    chain_id = req.chain_id;
    verifying_contract = req.proxy_contract;
  })

module _ (keccak256 : Bytes → Bytes) where
  unfoldable pub separator_hash : Eip712Domain → Bytes
  separator_hash domain = keccak256 (
      joined (
        keccak256 domain_type_hash_str
        ∷ keccak256 domain.name
        ∷ keccak256 domain.version
        ∷ abi_encode_u256 domain.chain_id
        ∷ abi_encode_address domain.verifying_contract
        ∷ []))

  unfoldable pub eip712_digest : Eip712Domain → Bytes → Bytes
  eip712_digest domain struct_hash =
      keccak256 (25 ∷ 1 ∷ joined (separator_hash domain ∷ struct_hash ∷ []))

  -- The struct hash of the direct route, as the words of its buffer.
  unfoldable pub funds_out_words : FundsOutParams → ℕ → ℕ → List Bytes
  funds_out_words params nonce deadline =
      keccak256 tee_funds_out_type_hash_str
      ∷ abi_encode_address params.recipient
      ∷ word params.amount
      ∷ word params.burn_id
      ∷ word params.source_chain_id
      ∷ word params.destination_chain_id
      ∷ keccak256 params.source_address
      ∷ keccak256 params.proof
      ∷ keccak256 params.settlement_data
      ∷ params.source_burn_tx_id
      ∷ abi_encode_u256 nonce
      ∷ abi_encode_u256 deadline
      ∷ []

  unfoldable pub funds_out_digest : Eip712Domain → FundsOutParams → ℕ → ℕ → EnclaveResult Bytes
  unfolding funds_out_words eip712_digest
  funds_out_digest domain params nonce deadline =
      ok (eip712_digest domain (keccak256 (joined (funds_out_words params nonce deadline))))

  unfoldable pub lz_funds_out_words : LzFundsOutCall → ℕ → ℕ → List Bytes
  lz_funds_out_words params nonce deadline =
      keccak256 tee_lz_funds_out_type_hash_str
      ∷ word params.amount
      ∷ word params.burn_id
      ∷ word params.source_chain_id
      ∷ word params.destination_chain_id
      ∷ keccak256 params.source_address
      ∷ keccak256 params.proof
      ∷ keccak256 params.settlement_data
      ∷ abi_encode_u32 params.dst_eid
      ∷ params.recipient
      ∷ word params.min_amount_ld
      ∷ keccak256 params.extra_options
      ∷ params.source_burn_tx_id
      ∷ abi_encode_u256 nonce
      ∷ abi_encode_u256 deadline
      ∷ []

  unfoldable pub lz_funds_out_digest :
      Abi → Eip712Domain → Bytes → LzReleaseParams → ℕ → ℕ → EnclaveResult Bytes
  lz_funds_out_digest abi domain call_data lz_release nonce deadline = do
    refuse_if (ltb (length call_data) 4) cross_check
    params ← decode_lz_funds_out_params abi call_data
    refuse_if (not (lz_release.dst_eid == params.dst_eid)) cross_check
    refuse_if (not (same_bytes lz_release.recipient params.recipient)) cross_check
    refuse_if (leb (2 ^ 64) params.min_amount_ld) cross_check
    refuse_if (not (lz_release.min_amount_ld == params.min_amount_ld)) cross_check
    ok (eip712_digest domain (keccak256 (joined (lz_funds_out_words params nonce deadline))))

  -- The match of `handle_sign_evm` on the route.
  unfoldable pub route_digest :
      Abi
      → Eip712Domain
      → EvmDestination
      → Option FundsOutParams
      → Option LzReleaseParams
      → EnclaveResult Bytes
  route_digest abi domain req (some params) none =
      funds_out_digest domain params req.nonce req.deadline
  route_digest abi domain req none (some lz_release) =
      lz_funds_out_digest abi domain req.call_data lz_release req.nonce req.deadline
  route_digest abi domain req (some params) (some lz_release) = err cross_check
  route_digest abi domain req none none = err cross_check

  unfoldable pub digest_of : Abi → EvmDestination → Option FundsOutParams → EnclaveResult Bytes
  digest_of abi req params = do
    domain ← build_evm_domain req
    route_digest abi domain req params req.lz_release

  unfoldable pub burn_id_words : BridgeConfig → ReleaseIdentity → List Bytes
  burn_id_words cfg release =
      keccak256 burn_typehash_str
      ∷ abi_encode_address cfg.funds_in_contract
      ∷ word cfg.chain_id
      ∷ abi_encode_address cfg.token_contract
      ∷ word release.amount
      ∷ word release.source_chain_id
      ∷ keccak256 release.source_address
      ∷ release.source_burn_tx_id
      ∷ []

  unfoldable pub expected_burn_id : BridgeConfig → ReleaseIdentity → ℕ
  unfolding burn_id_words
  expected_burn_id cfg release = be_value 0 (keccak256 (joined (burn_id_words cfg release)))

  unfoldable pub validate_burn_id : BridgeConfig → ReleaseIdentity → EnclaveResult (Unit {0})
  validate_burn_id cfg release =
      if same_bytes cfg.token_contract zero_address
      then ok tt
      else refuse_if (not (release.burn_id == expected_burn_id cfg release)) cross_check
