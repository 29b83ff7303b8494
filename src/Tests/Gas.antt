-- ===== src/Tests/Gas.antt =====
-- A gas transaction at concrete pins, with a toy hash that is the transaction's first byte.
use enclave_signer.Prelude.{
  Bytes, same_bytes, starts_with, contains, ◌≤◌, ◌≡◌, ◌≢◌, ◌↔◌, refl, none, some, [], ◌∷◌, arith,
  ok, err,
}
use enclave_signer.Error.{internal}
use enclave_signer.Evm.Rlp.{
  Rlp, str, list, nil, cons, decode_canonical, decode_one, decode_list, short_string, short_list,
  max_rlp_items,
}
use enclave_signer.Evm.Rlp.Encode.{encode, size}
use enclave_signer.Evm.Rlp.Canonical.{decode_canonical_lem}
use enclave_signer.Evm.Rlp.Total.{decode_canonical_total}
use enclave_signer.Evm.GasTx.{
  GasPins, SignRawDigestRequest, scalar_u64, scalar_u128, as_address, as_calldata_selector,
  eip1559_fields, legacy_fields, parse_gas_tx, check_value, check_fees, check_selector,
  check_allowed, validate_gas_tx_request,
}
use enclave_signer.Evm.GasTx.Accept.{IsSignable, validate_gas_tx_request_iff}

-- A list of the byte 1 and the string of bytes 200 and 2.
abbrev bytes : Bytes
bytes = 196 ∷ 1 ∷ 130 ∷ 200 ∷ 2 ∷ []

abbrev item : Rlp
item = list (cons (str (1 ∷ [])) (cons (str (200 ∷ 2 ∷ [])) nil))

decodes : decode_canonical bytes ≡ ok item
unfolding decode_canonical decode_one short_list short_string decode_list
decodes = refl

decode_canonical_lem_example : (encode item ≡ bytes) × (size item ≤ max_rlp_items)
decode_canonical_lem_example = decode_canonical_lem bytes (ground arith) decodes

decode_canonical_total_example : decode_canonical bytes ≢ err internal
decode_canonical_total_example = decode_canonical_total bytes (ground arith)

abbrev destination : Bytes
destination = 9 ∷ 9 ∷ 9 ∷ 9 ∷ 9 ∷ 9 ∷ 9 ∷ 9 ∷ 9 ∷ 9 ∷ 9 ∷ 9 ∷ 9 ∷ 9 ∷ 9 ∷ 9 ∷ 9 ∷ 9 ∷ 9 ∷ 9 ∷ []

-- Chain 5, nonce 1, both fees 7, gas 100, no value, calldata of one selector, no access list.
abbrev unsigned_tx : Bytes
unsigned_tx =
    2 ∷ 225 ∷ 5 ∷ 1 ∷ 7 ∷ 7 ∷ 100 ∷ 148 ∷ 9 ∷ 9 ∷ 9 ∷ 9 ∷ 9 ∷ 9 ∷ 9 ∷ 9 ∷ 9 ∷ 9 ∷ 9 ∷ 9 ∷ 9 ∷ 9 ∷ 9
    ∷ 9 ∷ 9 ∷ 9 ∷ 9 ∷ 9 ∷ 128 ∷ 132 ∷ 1 ∷ 2 ∷ 3 ∷ 4 ∷ 192 ∷ []

abbrev request : SignRawDigestRequest
request = record { unsigned_tx = unsigned_tx; digest = [] }

abbrev pins : GasPins
pins = record {
  chain_id = 5;
  bridge_contract = destination;
  gas_tx_allowed_to = some destination;
  gas_tx_max_value_wei = none;
  gas_tx_max_gas_limit = 1_000;
  gas_tx_max_fee_per_gas = 10;
  gas_tx_allowed_selectors = (1 ∷ 2 ∷ 3 ∷ 4 ∷ []) ∷ [];
}

abbrev toy_hash : Bytes → Bytes
toy_hash [] = []
toy_hash (b ∷ rest) = b ∷ []

signs : validate_gas_tx_request toy_hash request pins ≡ ok (2 ∷ [])
unfolding validate_gas_tx_request parse_gas_tx decode_canonical decode_one short_list short_string
    decode_list eip1559_fields legacy_fields check_allowed check_value check_fees check_selector
    same_bytes starts_with contains scalar_u64 scalar_u128 as_address as_calldata_selector
signs = refl

validate_gas_tx_request_iff_example :
    (validate_gas_tx_request toy_hash request pins ≡ ok (2 ∷ []))
    ↔ (IsSignable toy_hash request pins × (◌≡◌ {A = Bytes} (2 ∷ []) (toy_hash unsigned_tx)))
validate_gas_tx_request_iff_example = validate_gas_tx_request_iff toy_hash request pins (2 ∷ [])
