-- ===== src/Evm/GasTx.antt =====
-- enclave/src/networks/evm/gas_tx.rs: the gas transaction's fields and the operator's allowlist.
-- A byte is a number, and Keccak-256 is a parameter.
pub mod Accept
use enclave_signer.Prelude.{
  be_value, Bytes, same_bytes, starts_with, contains, ℕ, ◌+◌, ◌*◌, Bool, true, false, ◌&&◌, ◌||◌,
  not, Option, none, some, List, [], ◌∷◌, length, ltb, leb, ◌==◌, if◌then◌else◌, ok, err, ok_or,
  ◌>>=◌, ◌>>◌, refuse_if,
}
use enclave_signer.Config.{is_empty, zero_address}
use enclave_signer.Error.{EnclaveResult, cross_check}
use enclave_signer.Evm.Rlp.{Rlp, str, list, Items, nil, cons, decode_canonical}

abbrev pub onchain_lz_funds_out_call_selector : Bytes
onchain_lz_funds_out_call_selector = 143 ∷ 107 ∷ 48 ∷ 49 ∷ []

abbrev pub max_gas_tx_bytes : ℕ
max_gas_tx_bytes = 1_024 * 1_024

pub record GasTx : Type 0 where
  pub chain_id : ℕ
  pub to : Bytes
  pub value : ℕ
  pub gas_limit : ℕ
  pub max_fee_per_gas : ℕ
  pub max_priority_fee_per_gas : ℕ
  pub selector : Option Bytes
  pub calldata : Bytes

-- The pins of `BridgeConfig` that the allowlist reads.
pub record GasPins : Type 0 where
  pub chain_id : ℕ
  pub bridge_contract : Bytes
  pub gas_tx_allowed_to : Option Bytes
  pub gas_tx_max_value_wei : Option ℕ
  pub gas_tx_max_gas_limit : ℕ
  pub gas_tx_max_fee_per_gas : ℕ
  pub gas_tx_allowed_selectors : List Bytes

pub record SignRawDigestRequest : Type 0 where
  pub unsigned_tx : Bytes
  pub digest : Bytes

abbrev pub as_list : Rlp → EnclaveResult Items
as_list (list items) = ok items
as_list (str bytes) = err cross_check

abbrev pub as_bytes : Rlp → EnclaveResult Bytes
as_bytes (str bytes) = ok bytes
as_bytes (list items) = err cross_check

abbrev pub as_scalar : Rlp → EnclaveResult Bytes
as_scalar (str []) = ok []
as_scalar (str (b ∷ bytes)) = if b == 0 then err cross_check else ok (b ∷ bytes)
as_scalar (list items) = err cross_check

-- `scalar_u64` has a limit of 8 bytes and `scalar_u128` one of 16.
abbrev scalar : ℕ → Rlp → EnclaveResult ℕ
scalar max_bytes item = do
  s ← as_scalar item
  refuse_if (ltb max_bytes (length s)) cross_check
  ok (be_value 0 s)

unfoldable pub scalar_u64 : Rlp → EnclaveResult ℕ
scalar_u64 = scalar 8

unfoldable pub scalar_u128 : Rlp → EnclaveResult ℕ
scalar_u128 = scalar 16

unfoldable pub scalar_is_zero : Rlp → EnclaveResult Bool
scalar_is_zero item = do s ← as_scalar item; ok (is_empty s)

unfoldable pub as_address : Rlp → EnclaveResult Bytes
as_address (str bytes) = if length bytes == 20 then ok bytes else err cross_check
as_address (list items) = err cross_check

unfoldable pub as_calldata_selector : Rlp → EnclaveResult (Option Bytes)
as_calldata_selector (str []) = ok none
as_calldata_selector (str (a ∷ b ∷ c ∷ d ∷ bytes)) = ok (some (a ∷ b ∷ c ∷ d ∷ []))
as_calldata_selector (str bytes) = err cross_check
as_calldata_selector (list items) = err cross_check

-- [chainId, nonce, maxPriorityFee, maxFee, gas, to, value, data, accessList]
unfoldable pub eip1559_fields : Items → EnclaveResult GasTx
unfolding scalar_u64 scalar_u128 as_address as_calldata_selector
eip1559_fields
      (cons i0
        (cons i1 (cons i2 (cons i3 (cons i4 (cons i5 (cons i6 (cons i7 (cons i8 nil))))))))) =
    do
      chain_id ← scalar_u64 i0
      max_priority_fee_per_gas ← scalar_u128 i2
      max_fee_per_gas ← scalar_u128 i3
      gas_limit ← scalar_u64 i4
      to ← as_address i5
      value ← scalar_u128 i6
      selector ← as_calldata_selector i7
      calldata ← as_bytes i7
      ok (record {
        chain_id = chain_id;
        to = to;
        value = value;
        gas_limit = gas_limit;
        max_fee_per_gas = max_fee_per_gas;
        max_priority_fee_per_gas = max_priority_fee_per_gas;
        selector = selector;
        calldata = calldata;
      })
eip1559_fields _ = err cross_check

-- [nonce, gasPrice, gas, to, value, data, chainId, 0, 0]
unfoldable pub legacy_fields : Items → EnclaveResult GasTx
unfolding scalar_u64 scalar_u128 scalar_is_zero as_address as_calldata_selector
legacy_fields
      (cons i0
        (cons i1 (cons i2 (cons i3 (cons i4 (cons i5 (cons i6 (cons i7 (cons i8 nil))))))))) =
    do
      r_zero ← scalar_is_zero i7
      refuse_if (not r_zero) cross_check
      s_zero ← scalar_is_zero i8
      refuse_if (not s_zero) cross_check
      gas_price ← scalar_u128 i1
      chain_id ← scalar_u64 i6
      gas_limit ← scalar_u64 i2
      to ← as_address i3
      value ← scalar_u128 i4
      selector ← as_calldata_selector i5
      calldata ← as_bytes i5
      ok (record {
        chain_id = chain_id;
        to = to;
        value = value;
        gas_limit = gas_limit;
        max_fee_per_gas = gas_price;
        max_priority_fee_per_gas = gas_price;
        selector = selector;
        calldata = calldata;
      })
legacy_fields _ = err cross_check

unfoldable pub parse_gas_tx : Bytes → EnclaveResult GasTx
parse_gas_tx [] = err cross_check
parse_gas_tx (first ∷ rest) =
    if first == 2
    then (do body ← decode_canonical rest; items ← as_list body; eip1559_fields items)
    else if leb 192 first
    then (do body ← decode_canonical (first ∷ rest); items ← as_list body; legacy_fields items)
    else err cross_check

-- The legs of the carve-out for a value that is not zero.
unfoldable pub check_value : GasTx → GasPins → EnclaveResult (Unit {0})
check_value tx cfg = if tx.value == 0 then ok tt else (do
  refuse_if (not (starts_with tx.calldata onchain_lz_funds_out_call_selector)) cross_check
  refuse_if (same_bytes cfg.bridge_contract zero_address) cross_check
  refuse_if (not (same_bytes tx.to cfg.bridge_contract)) cross_check
  max ← ok_or cfg.gas_tx_max_value_wei cross_check
  refuse_if (ltb max tx.value) cross_check)

unfoldable pub check_fees : GasTx → GasPins → EnclaveResult (Unit {0})
check_fees tx cfg = do
  refuse_if (cfg.gas_tx_max_gas_limit == 0) cross_check
  refuse_if (cfg.gas_tx_max_fee_per_gas == 0) cross_check
  refuse_if (ltb cfg.gas_tx_max_gas_limit tx.gas_limit) cross_check
  refuse_if (ltb cfg.gas_tx_max_fee_per_gas tx.max_fee_per_gas) cross_check
  refuse_if (ltb cfg.gas_tx_max_fee_per_gas tx.max_priority_fee_per_gas) cross_check

unfoldable pub check_selector : Option Bytes → GasPins → EnclaveResult (Unit {0})
check_selector none cfg = err cross_check
check_selector (some selector) cfg =
    refuse_if (not (contains cfg.gas_tx_allowed_selectors selector)) cross_check

-- All that is checked of a parsed transaction.
unfoldable pub check_allowed : GasTx → GasPins → EnclaveResult (Unit {0})
check_allowed tx cfg = do
  refuse_if (cfg.chain_id == 0) cross_check
  refuse_if (not (tx.chain_id == cfg.chain_id)) cross_check
  allowed ← ok_or cfg.gas_tx_allowed_to cross_check
  refuse_if (not (same_bytes tx.to allowed)) cross_check
  check_value tx cfg
  check_fees tx cfg
  check_selector tx.selector cfg

module _ (keccak256 : Bytes → Bytes) where
  unfoldable pub validate_gas_tx_request : SignRawDigestRequest → GasPins → EnclaveResult Bytes
  validate_gas_tx_request req cfg = do
    refuse_if (is_empty req.unsigned_tx) cross_check
    refuse_if (ltb max_gas_tx_bytes (length req.unsigned_tx)) cross_check
    tx ← parse_gas_tx req.unsigned_tx
    check_allowed tx cfg
    let digest = keccak256 req.unsigned_tx
    refuse_if (not (is_empty req.digest) && not (same_bytes req.digest digest)) cross_check
    ok digest
