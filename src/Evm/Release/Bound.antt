-- ===== src/Evm/Release/Bound.antt =====
-- What a release that passes the binding pays, to whom, and for which burn.
mod Order
mod Payee
use enclave_signer.Prelude.{
  ℕ, ◌-◌, ◌<◌, ◌≡◌, ◌∙◌, sym, ap, refl, Bool, true, false, ◌||◌, not, Option, none, some, List, [],
  ◌∷◌, ◌++◌, length, take, leb, ◌==◌, if◌then◌else◌, arith, ok, bind-ok, ok_or, ok_or-ok,
  refuse_if_past, refuse_if-ok, Bytes, AreBytes, same_bytes, same_bytes→≡,
}
use enclave_signer.Prelude.Assoc.{member}
use enclave_signer.Config.{is_empty, BtcRelayMode}
use enclave_signer.Error.{EnclaveResult, cross_check}
use enclave_signer.Spv.Types.{Bitcoin}
use enclave_signer.Spv.Validation.{insert, sort}
use enclave_signer.Spv.Chain.{HeaderChain}
use enclave_signer.Spv.Chain.Links.{IsValid}
use enclave_signer.Spv.CrossCheck.{
  MerkleProofEntry, TransitionSummary, ValidatedConsignment, ChainPins,
}
use enclave_signer.Evm.Relay.{ReleaseIdentity, any_nonzero, verify_btc_relay_agreement}
use enclave_signer.Evm.Relay.Agreement.{Agrees, and_then-ok, verify_btc_relay_agreement-ok}
use enclave_signer.Evm.Release.{
  BurnDestinationRecord, BurnTarget, Codecs, zero_bytes, len_ok, not_ascending, dedup, same_eid,
  other_chain, assert_witnesses_confirmed, assert_funds_out_amount, funds_out_source_amount,
  validate_funds_out_amount, validate_funds_out_source_burn_tx_id, resolve_v1, resolve,
  validate_funds_out_burn_recipient, validate_funds_out_settlement, check_binding,
  apply_funds_out_binding,
}
use enclave_signer.Evm.Release.Bound.Order.{
  IsAscending, not_ascending-IsAscending, member-sort, member-dedup,
}
use enclave_signer.Evm.Release.Bound.Payee.{
  IsPayee, equal_numbers, one_transition, empty_is, kept, payee_lem,
}

pub record IsBound (codecs : Codecs) (release : ReleaseIdentity) (validated : ValidatedConsignment)
    (burn_destination : Option BurnDestinationRecord) : Type 0 where
  pub burn : TransitionSummary
  pub last_transition : validated.last_transition ≡ some burn
  pub is_burn : burn.transition_type ≡ codecs.ts_burn
  pub amount : burn.burned_asset_amount ≡ some release.amount
  pub burn_id : validated.last_transfer_op_id ≡ some release.source_burn_tx_id
  pub burn_id_nonzero : any_nonzero release.source_burn_tx_id ≡ true
  pub reason : Bytes
  pub burn_reason : burn.burn_reason ≡ some reason
  pub payee : IsPayee codecs release reason burn_destination
  pub deposits : List ℕ
  pub decoded : codecs.abi_decode release.settlement_data ≡ some deposits
  pub canonical : codecs.abi_encode deposits ≡ release.settlement_data
  pub ascending : IsAscending deposits
  pub same_deposits : (k : ℕ) → member k deposits ≡ member k validated.mint_locks

module _ (codecs : Codecs) (release : ReleaseIdentity) (validated : ValidatedConsignment) where
  open codecs use {ts_burn, hash_v1, abi_decode, abi_encode}

  source_lem :
      (last : TransitionSummary) {n : ℕ}
      → funds_out_source_amount codecs last ≡ ok n
      → (last.transition_type ≡ ts_burn) × (last.burned_asset_amount ≡ some n)
  unfolding funds_out_source_amount
  source_lem last h =
      let (same, h1) = refuse_if_past (not (last.transition_type == ts_burn)) cross_check _ h in
      (
        equal_numbers last.transition_type ts_burn same,
        ok_or-ok last.burned_asset_amount cross_check h1,
      )

  amount_lem :
      validate_funds_out_amount codecs release validated ≡ ok tt
      → (last : TransitionSummary) × (validated.last_transition ≡ some last)
        × (last.transition_type ≡ ts_burn)
        × (last.burned_asset_amount ≡ some release.amount)
  unfolding validate_funds_out_amount assert_funds_out_amount
  amount_lem h =
      let (last, is_last, h1) = bind-ok (ok_or validated.last_transition cross_check) _ h in
      let (source, is_source, h2) = bind-ok (funds_out_source_amount codecs last) _ h1 in
      let (_, h3) =
        refuse_if_past (leb 18_446_744_073_709_551_616 release.amount) cross_check _ h2 in
      let same = refuse_if-ok (not (source == release.amount)) cross_check h3 in
      let (is_burn, burned) = source_lem last is_source in
      let equal : source ≡ release.amount = ground (arith, same) in
      (
        last,
        ok_or-ok validated.last_transition cross_check is_last,
        is_burn,
        burned ∙ ap some equal,
      )

  burn_id_lem :
      validate_funds_out_source_burn_tx_id release validated ≡ ok tt
      → (validated.last_transfer_op_id ≡ some release.source_burn_tx_id)
        × (any_nonzero release.source_burn_tx_id ≡ true)
  unfolding validate_funds_out_source_burn_tx_id
  burn_id_lem h =
      let (_, _, h1) = bind-ok (ok_or validated.last_transition cross_check) _ h in
      let (expected, is_expected, h2) =
        bind-ok (ok_or validated.last_transfer_op_id cross_check) _ h1 in
      let (nonzero, h3) =
        refuse_if_past (not (any_nonzero release.source_burn_tx_id)) cross_check _ h2 in
      let same = same_bytes→≡ release.source_burn_tx_id expected (
        kept (refuse_if-ok (not (same_bytes release.source_burn_tx_id expected)) cross_check h3)) in
      (
        ok_or-ok validated.last_transfer_op_id cross_check is_expected ∙ ap some (sym same),
        kept nonzero,
      )

  settlement_lem :
      validate_funds_out_settlement codecs release validated.mint_locks ≡ ok tt
      → (ids : List ℕ) × (abi_decode release.settlement_data ≡ some ids)
        × (abi_encode ids ≡ release.settlement_data)
        × IsAscending ids
        × ((k : ℕ) → member k ids ≡ member k validated.mint_locks)
  unfolding validate_funds_out_settlement
  settlement_lem h =
      let (_, h1) = refuse_if_past (is_empty validated.mint_locks) cross_check _ h in
      let (ids, is_ids, h2) =
        bind-ok (ok_or (abi_decode release.settlement_data) cross_check) _ h1 in
      let (canonical, h3) =
        refuse_if_past (not (same_bytes (abi_encode ids) release.settlement_data)) cross_check _
          h2 in
      let (ascending, h4) = refuse_if_past (not_ascending ids) cross_check _ h3 in
      let same = same_bytes→≡ ids (dedup (sort validated.mint_locks)) (
        kept (
          refuse_if-ok (not (same_bytes ids (dedup (sort validated.mint_locks)))) cross_check
            h4)) in
      (
        ids,
        ok_or-ok (abi_decode release.settlement_data) cross_check is_ids,
        same_bytes→≡ (abi_encode ids) release.settlement_data (kept canonical),
        not_ascending-IsAscending ids ascending,
        λ k.
            ap (member k) same
            ∙ member-dedup k (sort validated.mint_locks)
            ∙ member-sort k validated.mint_locks,
      )

  check_binding-IsBound :
      (rec : Option BurnDestinationRecord)
      → check_binding codecs release validated rec ≡ ok tt
      → IsBound codecs release validated rec
  unfolding check_binding
  check_binding-IsBound rec h =
      let (_, a, h1) = bind-ok (validate_funds_out_amount codecs release validated) _ h in
      let (_, b, h2) = bind-ok (validate_funds_out_source_burn_tx_id release validated) _ h1 in
      let (_, c, d) =
        bind-ok (validate_funds_out_burn_recipient codecs release validated rec) _ h2 in
      let (last, is_last, is_burn, amount) = amount_lem a in
      let (burn_id, nonzero) = burn_id_lem b in
      let (other, is_other, reason, is_reason, payee) = payee_lem codecs release validated rec c in
      let (ids, decoded, canonical, ascending, same) = settlement_lem d in
      record {
        burn = last;
        last_transition = is_last;
        is_burn = is_burn;
        amount = amount;
        burn_id = burn_id;
        burn_id_nonzero = nonzero;
        reason = reason;
        burn_reason = ap (λ l. l.burn_reason) (one_transition is_last is_other) ∙ is_reason;
        payee = payee;
        deposits = ids;
        decoded = decoded;
        canonical = canonical;
        ascending = ascending;
        same_deposits = same;
      }

all_mined :
    (validated : ValidatedConsignment)
    → assert_witnesses_confirmed validated ≡ ok tt
    → validated.non_mined_witness_txids ≡ []
unfolding assert_witnesses_confirmed
all_mined validated h =
    empty_is validated.non_mined_witness_txids
      (kept (refuse_if-ok (not (is_empty validated.non_mined_witness_txids)) cross_check h))

-- On a valid chain, a release that passes the whole binding has a consignment all of whose
-- witnesses are mined, agrees with the chain and the relay, and pays what one burn of that
-- consignment says: the settling transition is a burn of exactly the released amount, the release
-- names its operation, which is not zero, the payee, the chain and the endpoint are those that the
-- burn's reason commits to, and the settlement cites, once each and in ascending order, exactly the
-- deposits that were verified.
pub apply_funds_out_binding-ok :
    (codecs : Codecs) (btc : Bitcoin) (sha256d keccak256 : Bytes → Bytes)
    (chain : HeaderChain btc.Header) (mode : BtcRelayMode) (min_confirmations : ℕ)
    (release : ReleaseIdentity) (consignment : Option ValidatedConsignment)
    (proofs : List MerkleProofEntry) (pins : ChainPins) (rec : Option BurnDestinationRecord)
    → IsValid btc chain
    → AreBytes release.proof
    → (apply_funds_out_binding codecs btc sha256d keccak256 chain mode min_confirmations release
        consignment proofs pins rec).1
      ≡ ok tt
    → (validated : ValidatedConsignment) × (consignment ≡ some validated)
      × (validated.non_mined_witness_txids ≡ [])
      × Agrees btc sha256d keccak256 release validated proofs chain mode min_confirmations
      × IsBound codecs release validated rec
unfolding apply_funds_out_binding
apply_funds_out_binding-ok codecs btc sha256d keccak256 chain mode min_confirmations release
      consignment proofs pins rec v bytes h =
    let (validated, is_validated, h1) = and_then-ok (pins, ok_or consignment cross_check) _ h in
    let (_, mined, h2) = and_then-ok (pins, assert_witnesses_confirmed validated) _ h1 in
    let (_, agreed, bound) =
      and_then-ok
        (verify_btc_relay_agreement btc sha256d keccak256 release validated proofs chain pins mode
          min_confirmations)
        _ h2 in
    (
      validated,
      ok_or-ok consignment cross_check is_validated,
      all_mined validated mined,
      verify_btc_relay_agreement-ok btc chain v sha256d validated proofs min_confirmations keccak256
          release pins mode bytes agreed,
      check_binding-IsBound codecs release validated rec bound,
    )
