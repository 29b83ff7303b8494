-- ===== src/Evm/Destination/Decoded.antt =====
-- What the calldata of either route decode to.
use enclave_signer.Prelude.{
  ◌^◌, ◌≤◌, ◌<◌, ◌≡◌, ◌↔◌, ◌∙◌, sym, ap, refl, Bool, true, false, not, Option, none, some, arith,
  ok, ok_or, Bytes, same_bytes, bind-ok, ok_or-ok, refuse_if_past, same_bytes→≡,
}
use enclave_signer.Error.{cross_check}
use enclave_signer.Evm.LzOptions.{validate_extra_options}
use enclave_signer.Evm.Relay.{ReleaseIdentity}
use enclave_signer.Evm.Destination.{
  FundsOutParams, LzFundsOutCall, RouteProof, Abi, from_funds_out, from_lz_funds_out,
  route_proof_from_params, lz_route_proof_from_params, validate_min_amount_ld,
  decode_funds_out_params, decode_lz_funds_out_params, decode_lz_release, decode_direct_release,
  decode_release,
}
use enclave_signer.Evm.Destination.Pins.{same_bytes_iff, validate_min_amount_ld_iff, triple, kept}

module _ (abi : Abi) where
  open abi use {
    lz_funds_out_selector, funds_out_decode, funds_out_encode, lz_funds_out_decode,
    lz_funds_out_encode,
  }

  -- The calldata are the encoding of a call.
  abbrev pub IsDirect : Bytes → FundsOutParams → ReleaseIdentity → Type 0
  IsDirect call_data params release =
      (funds_out_decode call_data ≡ some params)
      × (funds_out_encode params ≡ call_data)
      × (params.amount < 2 ^ 64)
      × (release ≡ from_funds_out params)

  abbrev pub IsLz : Bytes → LzFundsOutCall → ReleaseIdentity → Type 0
  IsLz call_data call release =
      (lz_funds_out_decode call_data ≡ some call)
      × (lz_funds_out_encode call ≡ call_data)
      × (call.amount < 2 ^ 64)
      × (0 < call.min_amount_ld)
      × (call.min_amount_ld ≤ call.amount)
      × (validate_extra_options call.extra_options ≡ ok tt)
      × (release ≡ from_lz_funds_out call)

  -- A route proof names the amount of the release.
  abbrev pub proof_of : ReleaseIdentity → RouteProof
  proof_of release = record { amount = release.amount; operation_id = none }

  decode_funds_out_params-ok :
      (call_data : Bytes) {params : FundsOutParams}
      → decode_funds_out_params abi call_data ≡ ok params
      → (funds_out_decode call_data ≡ some params) × (funds_out_encode params ≡ call_data)
  unfolding decode_funds_out_params
  decode_funds_out_params-ok call_data {params} h =
      let (p, is_p, h1) = bind-ok (ok_or (funds_out_decode call_data) cross_check) _ h in
      let (same, h2) =
        refuse_if_past (not (same_bytes (funds_out_encode p) call_data)) cross_check _ h1 in
      let e : p ≡ params = cc in
      (
        ok_or-ok (funds_out_decode call_data) cross_check is_p ∙ ap some e,
        ap funds_out_encode (sym e) ∙ same_bytes→≡ (funds_out_encode p) call_data (kept same),
      )

  pub decode_lz_funds_out_params-ok :
      (call_data : Bytes) {call : LzFundsOutCall}
      → decode_lz_funds_out_params abi call_data ≡ ok call
      → (lz_funds_out_decode call_data ≡ some call) × (lz_funds_out_encode call ≡ call_data)
  unfolding decode_lz_funds_out_params
  decode_lz_funds_out_params-ok call_data {call} h =
      let (p, is_p, h1) = bind-ok (ok_or (lz_funds_out_decode call_data) cross_check) _ h in
      let (same, h2) =
        refuse_if_past (not (same_bytes (lz_funds_out_encode p) call_data)) cross_check _ h1 in
      let e : p ≡ call = cc in
      (
        ok_or-ok (lz_funds_out_decode call_data) cross_check is_p ∙ ap some e,
        ap lz_funds_out_encode (sym e) ∙ same_bytes→≡ (lz_funds_out_encode p) call_data (kept same),
      )

  decode_funds_out_params-encoded :
      (call_data : Bytes) (params : FundsOutParams)
      → funds_out_decode call_data ≡ some params
      → funds_out_encode params ≡ call_data
      → decode_funds_out_params abi call_data ≡ ok params
  unfolding decode_funds_out_params
  decode_funds_out_params-encoded call_data params d e =
      rw (d, (same_bytes_iff (funds_out_encode params) call_data).1 e) refl

  decode_lz_funds_out_params-encoded :
      (call_data : Bytes) (call : LzFundsOutCall)
      → lz_funds_out_decode call_data ≡ some call
      → lz_funds_out_encode call ≡ call_data
      → decode_lz_funds_out_params abi call_data ≡ ok call
  unfolding decode_lz_funds_out_params
  decode_lz_funds_out_params-encoded call_data call d e =
      rw (d, (same_bytes_iff (lz_funds_out_encode call) call_data).1 e) refl

  route_proof_from_params-ok :
      (params : FundsOutParams) {proof : RouteProof}
      → (route_proof_from_params params ≡ ok proof)
        ↔ ((params.amount < 2 ^ 64) × (proof ≡ proof_of (from_funds_out params)))
  unfolding route_proof_from_params from_funds_out
  route_proof_from_params-ok params = ground arith

  lz_route_proof_from_params-ok :
      (call : LzFundsOutCall) {proof : RouteProof}
      → (lz_route_proof_from_params call ≡ ok proof)
        ↔ ((call.amount < 2 ^ 64) × (proof ≡ proof_of (from_lz_funds_out call)))
  unfolding lz_route_proof_from_params from_lz_funds_out
  lz_route_proof_from_params-ok call = ground arith

  -- What the decoded calldata say of a release, on either route.
  abbrev pub IsDecoded : Bool → Bytes → Option FundsOutParams → ReleaseIdentity → Type 0
  IsDecoded false call_data params release =
      (p : FundsOutParams) × (params ≡ some p) × IsDirect call_data p release
  IsDecoded true call_data params release =
      (call : LzFundsOutCall) × (params ≡ none) × IsLz call_data call release

  pub decode_release-ok :
      (entrypoint : Bool) (call_data : Bytes) {proof : RouteProof} {params : Option FundsOutParams}
      {release : ReleaseIdentity}
      → decode_release abi entrypoint call_data ≡ ok (proof, params, release)
      → IsDecoded entrypoint call_data params release × (proof ≡ proof_of release)
  unfolding decode_release decode_direct_release decode_lz_release
  decode_release-ok false call_data h =
      let (p, is_p, h1) = bind-ok (decode_funds_out_params abi call_data) _ h in
      let (pr, is_pr, h2) = bind-ok (route_proof_from_params p) _ h1 in
      let (decoded, encoded) = decode_funds_out_params-ok call_data is_p in
      let (small, pr_is) = (route_proof_from_params-ok p).0 is_pr in
      let (e0, e1, e2) = triple h2 in
      ((p, sym e1, (decoded, encoded, small, sym e2)), sym e0 ∙ pr_is ∙ ap proof_of e2)
  decode_release-ok true call_data h =
      let (c, is_c, h1) = bind-ok (decode_lz_funds_out_params abi call_data) _ h in
      let (_, floor, h2) = bind-ok (validate_min_amount_ld c) _ h1 in
      let (_, options, h3) = bind-ok (validate_extra_options c.extra_options) _ h2 in
      let (pr, is_pr, h4) = bind-ok (lz_route_proof_from_params c) _ h3 in
      let (decoded, encoded) = decode_lz_funds_out_params-ok call_data is_c in
      let (small, pr_is) = (lz_route_proof_from_params-ok c).0 is_pr in
      let (above, below) = (validate_min_amount_ld_iff c).0 floor in
      let (e0, e1, e2) = triple h4 in
      (
        (c, sym e1, (decoded, encoded, small, above, below, options, sym e2)),
        sym e0 ∙ pr_is ∙ ap proof_of e2,
      )

  pub decode_release-decoded :
      (entrypoint : Bool) (call_data : Bytes) (params : Option FundsOutParams)
      (release : ReleaseIdentity)
      → IsDecoded entrypoint call_data params release
      → decode_release abi entrypoint call_data ≡ ok (proof_of release, params, release)
  unfolding decode_release decode_direct_release decode_lz_release
  decode_release-decoded false call_data params release
        (p, is_some, (decoded, encoded, small, is_release)) =
      rw
        (
          is_some,
          is_release,
          decode_funds_out_params-encoded call_data p decoded encoded,
          (route_proof_from_params-ok p).1 (small, refl),
        )
        refl
  decode_release-decoded true call_data params release
        (c, is_none, (decoded, encoded, small, above, below, options, is_release)) =
      rw
        (
          is_none,
          is_release,
          decode_lz_funds_out_params-encoded call_data c decoded encoded,
          (validate_min_amount_ld_iff c).1 (above, below),
          options,
          (lz_route_proof_from_params-ok c).1 (small, refl),
        )
        refl
