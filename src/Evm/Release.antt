-- ===== src/Evm/Release.antt =====
-- How a release is bound to the validated consignment: enclave/src/networks/evm/crosscheck.rs and
-- burn_destination.rs, enclave/src/networks/rgb/flow.rs, and `apply_funds_out_binding` of
-- enclave/src/server/sign.rs. The type of a burn, the hash of a destination record and the ABI code
-- of the settlement are parameters.
pub mod Bound
use enclave_signer.Prelude.{
  ℕ, zero, suc, ◌+◌, ◌-◌, ◌^◌, Bool, true, false, ◌&&◌, ◌||◌, not, Option, none, some, List, [],
  ◌∷◌, ◌++◌, length, take, ltb, leb, ◌==◌, if◌then◌else◌, ok, err, ◌>>=◌, ◌>>◌, refuse_if, ok_or,
  Bytes, same_bytes,
}
use enclave_signer.Config.{BtcRelayMode, is_empty}
use enclave_signer.Error.{EnclaveResult, cross_check}
use enclave_signer.Spv.Types.{Bitcoin}
use enclave_signer.Spv.Validation.{sort}
use enclave_signer.Spv.Chain.{HeaderChain}
use enclave_signer.Spv.CrossCheck.{
  MerkleProofEntry, TransitionSummary, ValidatedConsignment, ChainPins,
}
use enclave_signer.Evm.Relay.{ReleaseIdentity, any_nonzero, and_then, verify_btc_relay_agreement}

abbrev pub hash_len : ℕ
hash_len = 32

abbrev pub address_len : ℕ
address_len = 20

abbrev pub version_v1 : ℕ
version_v1 = 1

pub record BurnDestinationRecord : Type 0 where
  pub version : ℕ
  pub destination_chain_id : ℕ
  pub dst_eid : ℕ
  pub recipient : Bytes

pub record BurnTarget : Type 0 where
  pub destination_chain_id : Option ℕ
  pub dst_eid : Option ℕ
  pub recipient : Bytes

-- What the checks use of other crates.
pub record Codecs : Type 0 where
  pub ts_burn : ℕ
  pub hash_v1 : BurnDestinationRecord → Bytes
  pub abi_decode : Bytes → Option (List ℕ)
  pub abi_encode : List ℕ → Bytes

-- `n` zero bytes.
abbrev pub zero_bytes : ℕ → Bytes
zero_bytes zero = []
zero_bytes (suc n) = 0 ∷ zero_bytes n

unfoldable pub assert_witnesses_confirmed : ValidatedConsignment → EnclaveResult (Unit {0})
assert_witnesses_confirmed validated =
    refuse_if (not (is_empty validated.non_mined_witness_txids)) cross_check

unfoldable pub assert_funds_out_amount : ℕ → ℕ → EnclaveResult (Unit {0})
assert_funds_out_amount source_amount calldata_amount =
    refuse_if (not (source_amount == calldata_amount)) cross_check

unfoldable pub validate_funds_out_source_burn_tx_id :
    ReleaseIdentity → ValidatedConsignment → EnclaveResult (Unit {0})
validate_funds_out_source_burn_tx_id release validated = do
  last ← ok_or validated.last_transition cross_check
  expected ← ok_or validated.last_transfer_op_id cross_check
  refuse_if (not (any_nonzero release.source_burn_tx_id)) cross_check
  refuse_if (not (same_bytes release.source_burn_tx_id expected)) cross_check

-- `ids.windows(2).any(|w| w[0] >= w[1])`
abbrev pub not_ascending : List ℕ → Bool
not_ascending [] = false
not_ascending (i ∷ []) = false
not_ascending (i ∷ j ∷ ids) = leb j i || not_ascending (j ∷ ids)

-- `expected.dedup()`
abbrev pub dedup : List ℕ → List ℕ
dedup [] = []
dedup (i ∷ []) = i ∷ []
dedup (i ∷ j ∷ ids) = if i == j then dedup (j ∷ ids) else i ∷ dedup (j ∷ ids)

-- Equality of an optional `dst_eid`.
abbrev pub same_eid : Option ℕ → Option ℕ → Bool
same_eid none none = true
same_eid (some a) (some b) = a == b
same_eid _ _ = false

-- `if let Some(chain) = target.destination_chain_id`
abbrev pub other_chain : Option ℕ → ℕ → Bool
other_chain none chain = false
other_chain (some c) chain = not (chain == c)

-- The length that the route allows.
abbrev pub len_ok : BurnDestinationRecord → Bool
len_ok rec =
    let len = length rec.recipient in
    if rec.dst_eid == 0 then len == address_len else leb 1 len && leb len hash_len

module _ (codecs : Codecs) where
  open codecs use {ts_burn, hash_v1, abi_decode, abi_encode}

  unfoldable pub funds_out_source_amount : TransitionSummary → EnclaveResult ℕ
  funds_out_source_amount last = do
    refuse_if (not (last.transition_type == ts_burn)) cross_check
    ok_or last.burned_asset_amount cross_check

  unfoldable pub validate_funds_out_amount :
      ReleaseIdentity → ValidatedConsignment → EnclaveResult (Unit {0})
  validate_funds_out_amount release validated = do
    last ← ok_or validated.last_transition cross_check
    source_amount ← funds_out_source_amount last
    refuse_if (leb (2 ^ 64) release.amount) cross_check
    assert_funds_out_amount source_amount release.amount

  unfoldable pub resolve_v1 : Bytes → BurnDestinationRecord → EnclaveResult BurnTarget
  resolve_v1 reason rec = do
    refuse_if (rec.destination_chain_id == 0) cross_check
    refuse_if (not (len_ok rec)) cross_check
    refuse_if (not (same_bytes (hash_v1 rec) reason)) cross_check
    ok (record {
      destination_chain_id = some rec.destination_chain_id;
      dst_eid = if rec.dst_eid == 0 then none else some rec.dst_eid;
      recipient = zero_bytes (hash_len - length rec.recipient) ++ rec.recipient;
    })

  unfoldable pub resolve : Bytes → Option BurnDestinationRecord → EnclaveResult BurnTarget
  resolve reason none =
      if any_nonzero (take (hash_len - address_len) reason)
      then err cross_check
      else ok (record { destination_chain_id = none; dst_eid = none; recipient = reason })
  resolve reason (some rec) =
      if any_nonzero (take (hash_len - address_len) reason)
      then (if rec.version == version_v1 then resolve_v1 reason rec else err cross_check)
      else err cross_check

  unfoldable pub validate_funds_out_burn_recipient :
      ReleaseIdentity
      → ValidatedConsignment
      → Option BurnDestinationRecord
      → EnclaveResult (Unit {0})
  validate_funds_out_burn_recipient release validated rec = do
    last ← ok_or validated.last_transition cross_check
    reason ← ok_or last.burn_reason cross_check
    target ← resolve reason rec
    refuse_if (not (same_eid target.dst_eid release.dst_eid)) cross_check
    refuse_if (other_chain target.destination_chain_id release.destination_chain_id) cross_check
    refuse_if (not (same_bytes target.recipient release.recipient)) cross_check

  unfoldable pub validate_funds_out_settlement : ReleaseIdentity → List ℕ → EnclaveResult (Unit {0})
  validate_funds_out_settlement release locks = do
    refuse_if (is_empty locks) cross_check
    ids ← ok_or (abi_decode release.settlement_data) cross_check
    refuse_if (not (same_bytes (abi_encode ids) release.settlement_data)) cross_check
    refuse_if (not_ascending ids) cross_check
    refuse_if (not (same_bytes ids (dedup (sort locks)))) cross_check

  -- The checks after the relay agreement.
  unfoldable pub check_binding :
      ReleaseIdentity
      → ValidatedConsignment
      → Option BurnDestinationRecord
      → EnclaveResult (Unit {0})
  check_binding release validated burn_destination = do
    validate_funds_out_amount release validated
    validate_funds_out_source_burn_tx_id release validated
    validate_funds_out_burn_recipient release validated burn_destination
    validate_funds_out_settlement release validated.mint_locks

  -- With the features `spv` and `bfa-mint`.
  unfoldable pub apply_funds_out_binding :
      (btc : Bitcoin)
      → (Bytes → Bytes)
      → (Bytes → Bytes)
      → HeaderChain btc.Header
      → BtcRelayMode
      → ℕ
      → ReleaseIdentity
      → Option ValidatedConsignment
      → List MerkleProofEntry
      → ChainPins
      → Option BurnDestinationRecord
      → ChainPins × EnclaveResult (Unit {0})
  apply_funds_out_binding btc sha256d keccak256 chain mode min_confirmations release consignment
        merkle_proofs pins burn_destination =
      and_then (pins, ok_or consignment cross_check)
        λ pins validated.
          and_then (pins, assert_witnesses_confirmed validated)
            λ pins _.
              and_then
                (verify_btc_relay_agreement btc sha256d keccak256 release validated merkle_proofs
                  chain pins mode min_confirmations)
                λ pins _. (pins, check_binding release validated burn_destination)
