-- ===== src/Evm/Destination/Accept.antt =====
-- Which EVM destinations are accepted, and what a release is read from.
use enclave_signer.Prelude.{
  ℕ, ◌≤◌, ◌<◌, ◌≡◌, ◌↔◌, ◌⊎◌, ◌∙◌, sym, ap, subst, refl, Bool, true, false, not, Option, none, some,
  length, take, ltb, ◌==◌, arith, inl, inr, ok, Bytes, same_bytes, Bool-cases, bind-ok,
  refuse_if_past,
}
use enclave_signer.Config.{BridgeConfig}
use enclave_signer.Error.{cross_check}
use enclave_signer.Evm.Relay.{ReleaseIdentity}
use enclave_signer.Evm.Destination.{
  FundsOutParams, LzReleaseParams, EvmDestination, RouteProof, Abi, funds_out_selector_pools,
  max_funds_out_call_data_len, max_tee_deadline_secs, route_mismatch, check_pins, saturating_add,
  check_deadline, is_allowed, is_entrypoint, decode_release, validate_destination,
}
use enclave_signer.Evm.Destination.Pins.{
  same_bytes_iff, check_deadline_iff, IsPinned, check_pins_iff, triple, kept,
}
use enclave_signer.Evm.Destination.Decoded.{
  proof_of, IsDecoded, decode_release-ok, decode_release-decoded,
}

module _ (abi : Abi) where
  open abi use {
    lz_funds_out_selector, funds_out_decode, funds_out_encode, lz_funds_out_decode,
    lz_funds_out_encode,
  }

  -- `lz_release` comes with the LayerZero route and only with it.
  abbrev pub IsRouted : Bool → Option LzReleaseParams → Type 0
  IsRouted true lz = (l : LzReleaseParams) × (lz ≡ some l)
  IsRouted false lz = lz ≡ none

  IsRouted-iff :
      (entrypoint : Bool) (lz : Option LzReleaseParams)
      → (route_mismatch entrypoint lz ≡ false) ↔ IsRouted entrypoint lz
  IsRouted-iff true none = (λ h. cc, λ h. cc (h.1))
  IsRouted-iff true (some l) = (λ h. (l, refl), λ h. refl)
  IsRouted-iff false none = (λ h. refl, λ h. refl)
  IsRouted-iff false (some l) = (λ h. cc, λ h. cc)

  is_allowed_iff :
      (selector : Bytes)
      → (is_allowed abi selector ≡ true)
        ↔ ((selector ≡ funds_out_selector_pools) ⊎ (selector ≡ lz_funds_out_selector))
  is_allowed_iff selector =
      let pools = same_bytes_iff selector funds_out_selector_pools in
      let lz = same_bytes_iff selector lz_funds_out_selector in
      (
        λ h. elim (Bool-cases (same_bytes selector funds_out_selector_pools)) [
          | inl same ↦ inl (pools.0 same)
          | inr other ↦ inr (lz.0 (ground arith))
        ],
        λ h. elim h [ inl e ↦ ground (arith, pools.1 e) | inr e ↦ ground (arith, lz.1 e) ],
      )

  -- What an accepted destination has. The route is the LayerZero one where the selector is that of
  -- `lzFundsOut`.
  pub record IsAccepted (destination : EvmDestination) (cfg : BridgeConfig) (now : Option ℕ)
      (params : Option FundsOutParams) (release : ReleaseIdentity) : Type 0 where
    pub has_selector : 4 ≤ length destination.call_data
    pub short : length destination.call_data ≤ max_funds_out_call_data_len
    pub allowed :
        (take 4 destination.call_data ≡ funds_out_selector_pools)
        ⊎ (take 4 destination.call_data ≡ lz_funds_out_selector)
    pub routed : IsRouted (is_entrypoint abi destination) destination.lz_release
    pub decoded : IsDecoded abi (is_entrypoint abi destination) destination.call_data params release
    pub amount : release.amount ≡ destination.calldata_amount
    pub pinned :
        IsPinned (is_entrypoint abi destination) release.destination_chain_id destination cfg
    pub time : ℕ
    pub clock : now ≡ some time
    pub live : time < destination.deadline
    pub soon : destination.deadline ≤ saturating_add time max_tee_deadline_secs

  accepted_sound :
      (destination : EvmDestination) (cfg : BridgeConfig) (now : Option ℕ) {proof : RouteProof}
      {params : Option FundsOutParams} {release : ReleaseIdentity}
      → validate_destination abi destination cfg now ≡ ok (proof, params, release)
      → IsAccepted destination cfg now params release × (proof ≡ proof_of abi release)
  unfolding validate_destination
  accepted_sound d cfg now {proof} {params} {release} h =
      let (long, h1) = refuse_if_past (ltb (length d.call_data) 4) cross_check _ h in
      let (short, h2) =
        refuse_if_past (ltb max_funds_out_call_data_len (length d.call_data)) cross_check _ h1 in
      let (allowed, h3) =
        refuse_if_past (not (is_allowed abi (take 4 d.call_data))) cross_check _ h2 in
      let (routed, h4) =
        refuse_if_past (route_mismatch (is_entrypoint abi d) d.lz_release) cross_check _ h3 in
      let ((p, x, r), is_decoded, h5) =
        bind-ok (decode_release abi (is_entrypoint abi d) d.call_data) _ h4 in
      let (amount, h6) = refuse_if_past (not (p.amount == d.calldata_amount)) cross_check _ h5 in
      let (_, pinned, h7) =
        bind-ok (check_pins (is_entrypoint abi d) r.destination_chain_id d cfg) _ h6 in
      let (_, deadline, h8) = bind-ok (check_deadline d.deadline now) _ h7 in
      let (e0, e1, e2) = triple h8 in
      let (decoded, proof_is) =
        decode_release-ok abi (is_entrypoint abi d) d.call_data is_decoded in
      let (time, clock, live, soon) = (check_deadline_iff d.deadline now).0 deadline in
      let here : IsAccepted d cfg now x r = record {
        has_selector = ground (arith, long);
        short = ground (arith, short);
        allowed = (is_allowed_iff (take 4 d.call_data)).0 (kept allowed);
        routed = (IsRouted-iff (is_entrypoint abi d) d.lz_release).0 routed;
        decoded = decoded;
        amount = ground (arith, amount, proof_is);
        pinned = (check_pins_iff (is_entrypoint abi d) r.destination_chain_id d cfg).0 pinned;
        time = time;
        clock = clock;
        live = live;
        soon = soon;
      } in
      (
        subst (λ (s : Option FundsOutParams × ReleaseIdentity). IsAccepted d cfg now s.0 s.1)
            (λ i. (e1 i, e2 i)) here,
        sym e0 ∙ proof_is ∙ ap (proof_of abi) e2,
      )

  accepted_complete :
      (destination : EvmDestination) (cfg : BridgeConfig) (now : Option ℕ)
      (params : Option FundsOutParams) (release : ReleaseIdentity)
      → IsAccepted destination cfg now params release
      → validate_destination abi destination cfg now ≡ ok (proof_of abi release, params, release)
  unfolding validate_destination
  accepted_complete d cfg now params release a =
      let long : ltb (length d.call_data) 4 ≡ false = ground (arith, a.has_selector) in
      let short : ltb max_funds_out_call_data_len (length d.call_data) ≡ false =
        ground (arith, a.short) in
      let amount : (release.amount == d.calldata_amount) ≡ true = ground (arith, a.amount) in
      rw
        (
          long,
          short,
          (is_allowed_iff (take 4 d.call_data)).1 a.allowed,
          (IsRouted-iff (is_entrypoint abi d) d.lz_release).1 a.routed,
          decode_release-decoded abi (is_entrypoint abi d) d.call_data params release a.decoded,
          amount,
          (check_pins_iff (is_entrypoint abi d) release.destination_chain_id d cfg).1 a.pinned,
          (check_deadline_iff d.deadline now).1 (a.time, a.clock, a.live, a.soon),
        )
        refl

  -- A destination is accepted exactly when: its calldata have a selector that is allowed and are
  -- not too long; they are the canonical encoding of a call, whose amount fits 64 bits and is the
  -- one the request declares; LayerZero parameters come with the LayerZero route and only with it,
  -- and that route has a floor that can be met and options within their limits; the
  -- configuration has its pins and the request has the pinned chain and contract; a direct payout settles on the
  -- pinned chain and a LayerZero payout on another that is not zero; and the deadline is after the
  -- clock and a day after it at most. The answer is then the amount, the parameters of the direct
  -- route and the release of that call.
  pub validate_destination_iff :
      (destination : EvmDestination) (cfg : BridgeConfig) (now : Option ℕ) (proof : RouteProof)
      (params : Option FundsOutParams) (release : ReleaseIdentity)
      → (validate_destination abi destination cfg now ≡ ok (proof, params, release))
        ↔ (IsAccepted destination cfg now params release × (proof ≡ proof_of abi release))
  validate_destination_iff destination cfg now proof params release = (
    accepted_sound destination cfg now,
    λ h.
        accepted_complete destination cfg now params release h.0
        ∙ ap (λ p. ok (p, params, release)) (sym h.1),
  )
