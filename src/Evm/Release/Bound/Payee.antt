-- ===== src/Evm/Release/Bound/Payee.antt =====
-- The payee that a burn commits to.
use enclave_signer.Prelude.{
  ℕ, ◌-◌, ◌<◌, ◌≡◌, ◌∙◌, sym, ap, refl, Bool, true, false, not, Option, none, some, List, [], ◌∷◌,
  ◌++◌, length, take, ◌==◌, if◌then◌else◌, arith, ok, bind-ok, ok_or, ok_or-ok, refuse_if_past,
  refuse_if-ok, Bytes, same_bytes, same_bytes→≡,
}
use enclave_signer.Error.{EnclaveResult, cross_check}
use enclave_signer.Spv.CrossCheck.{TransitionSummary, ValidatedConsignment}
use enclave_signer.Evm.Relay.{ReleaseIdentity, any_nonzero}
use enclave_signer.Config.{is_empty}
use enclave_signer.Evm.Release.{
  BurnDestinationRecord, BurnTarget, Codecs, zero_bytes, len_ok, same_eid, other_chain, resolve_v1,
  resolve, validate_funds_out_burn_recipient,
}

-- The payee that the burn commits to, directly or by the hash of a record.
abbrev pub IsPayee : Codecs → ReleaseIdentity → Bytes → Option BurnDestinationRecord → Type 0
IsPayee codecs release reason none =
    (any_nonzero (take 12 reason) ≡ false) × (release.dst_eid ≡ none) × (release.recipient ≡ reason)
IsPayee codecs release reason (some rec) =
    (codecs.hash_v1 rec ≡ reason)
    × (rec.version ≡ 1)
    × (0 < rec.destination_chain_id)
    × (release.destination_chain_id ≡ rec.destination_chain_id)
    × (release.dst_eid ≡ (if rec.dst_eid == 0 then none else some rec.dst_eid))
    × (release.recipient ≡ zero_bytes (32 - length rec.recipient) ++ rec.recipient)

same_eid-true : (a b : Option ℕ) → same_eid a b ≡ true → b ≡ a
same_eid-true none none h = refl
same_eid-true none (some b) h = cc
same_eid-true (some a) none h = cc
same_eid-true (some a) (some b) h = ground arith

pub equal_numbers : (a b : ℕ) → not (a == b) ≡ false → a ≡ b
equal_numbers a b h = ground arith

other_chain-false : (c chain : ℕ) → other_chain (some c) chain ≡ false → chain ≡ c
other_chain-false c chain h = ground arith

pub one_transition :
    {o : Option TransitionSummary} {a b : TransitionSummary} → o ≡ some a → o ≡ some b → a ≡ b
one_transition e f = cc

target_is : {a b : BurnTarget} → ◌≡◌ {A = EnclaveResult BurnTarget} (ok a) (ok b) → a ≡ b
target_is e = cc

pub empty_is : {A : Type 0} (xs : List A) → is_empty xs ≡ true → xs ≡ []
empty_is [] h = refl
empty_is (x ∷ xs) h = cc

pub kept : {b : Bool} → not b ≡ false → b ≡ true
kept h = ground (arith, h)

module _ (codecs : Codecs) (release : ReleaseIdentity) (validated : ValidatedConsignment) where
  open codecs use {ts_burn, hash_v1, abi_decode, abi_encode}

  resolve-none :
      (reason : Bytes) {t : BurnTarget}
      → resolve codecs reason none ≡ ok t
      → (any_nonzero (take 12 reason) ≡ false) × (t.dst_eid ≡ none) × (t.recipient ≡ reason)
  unfolding resolve
  resolve-none reason h = ground arith

  abbrev target : BurnDestinationRecord → BurnTarget
  target rec = record {
    destination_chain_id = some rec.destination_chain_id;
    dst_eid = if rec.dst_eid == 0 then none else some rec.dst_eid;
    recipient = zero_bytes (32 - length rec.recipient) ++ rec.recipient;
  }

  resolve-some :
      (reason : Bytes) (rec : BurnDestinationRecord) {t : BurnTarget}
      → resolve codecs reason (some rec) ≡ ok t
      → (rec.version ≡ 1) × (resolve_v1 codecs reason rec ≡ ok t)
  unfolding resolve
  resolve-some reason rec h = ground arith

  resolve_v1-ok :
      (reason : Bytes) (rec : BurnDestinationRecord) {t : BurnTarget}
      → resolve_v1 codecs reason rec ≡ ok t
      → (hash_v1 rec ≡ reason) × (0 < rec.destination_chain_id) × (target rec ≡ t)
  unfolding resolve_v1
  resolve_v1-ok reason rec h =
      let (positive, h1) = refuse_if_past (rec.destination_chain_id == 0) cross_check _ h in
      let (_, h2) = refuse_if_past (not (len_ok rec)) cross_check _ h1 in
      let (same, h3) = refuse_if_past (not (same_bytes (hash_v1 rec) reason)) cross_check _ h2 in
      (same_bytes→≡ (hash_v1 rec) reason (kept same), ground (arith, positive), target_is h3)

  payee_of :
      (rec : Option BurnDestinationRecord) (reason : Bytes) (t : BurnTarget)
      → resolve codecs reason rec ≡ ok t
      → release.dst_eid ≡ t.dst_eid
      → other_chain t.destination_chain_id release.destination_chain_id ≡ false
      → release.recipient ≡ t.recipient
      → IsPayee codecs release reason rec
  payee_of none reason t is_t eid chain paid =
      let (direct, no_eid, whole) = resolve-none reason is_t in (direct, eid ∙ no_eid, paid ∙ whole)
  payee_of (some rec) reason t is_t eid chain paid =
      let (version, v1) = resolve-some reason rec is_t in
      let (hashed, positive, is) = resolve_v1-ok reason rec v1 in
      let named : other_chain (some rec.destination_chain_id) release.destination_chain_id ≡ false =
        ap (λ x. other_chain x.destination_chain_id release.destination_chain_id) is ∙ chain in
      (
        hashed,
        version,
        positive,
        other_chain-false rec.destination_chain_id release.destination_chain_id named,
        eid ∙ ap (λ x. x.dst_eid) (sym is),
        paid ∙ ap (λ x. x.recipient) (sym is),
      )

  pub payee_lem :
      (rec : Option BurnDestinationRecord)
      → validate_funds_out_burn_recipient codecs release validated rec ≡ ok tt
      → (last : TransitionSummary) × (validated.last_transition ≡ some last)
        × (reason : Bytes) × (last.burn_reason ≡ some reason)
        × (IsPayee codecs release reason rec)
  unfolding validate_funds_out_burn_recipient
  payee_lem rec h =
      let (last, is_last, h1) = bind-ok (ok_or validated.last_transition cross_check) _ h in
      let (reason, is_reason, h2) = bind-ok (ok_or last.burn_reason cross_check) _ h1 in
      let (t, is_t, h3) = bind-ok (resolve codecs reason rec) _ h2 in
      let (eid, h4) = refuse_if_past (not (same_eid t.dst_eid release.dst_eid)) cross_check _ h3 in
      let (chain, h5) =
        refuse_if_past (other_chain t.destination_chain_id release.destination_chain_id) cross_check
          _ h4 in
      let paid = refuse_if-ok (not (same_bytes t.recipient release.recipient)) cross_check h5 in
      (
        last,
        ok_or-ok validated.last_transition cross_check is_last,
        reason,
        ok_or-ok last.burn_reason cross_check is_reason,
        payee_of rec reason t is_t (same_eid-true t.dst_eid release.dst_eid (kept eid)) chain
            (sym (same_bytes→≡ t.recipient release.recipient (kept paid))),
      )
