-- ===== src/Sign/Burn/Steps.antt =====
-- What each step of the burn signer has shown when it lets the request go on.
use enclave_signer.Prelude.{
  ◌≡◌, sym, ap, refl, ◌∙◌, Bool, true, false, Option, List, [], ◌∷◌, ok, err, ◌>>◌, bind-ok,
  refuse_if_past, refuse_if-ok, Bytes, not, ◌==◌, arith,
}
use enclave_signer.Config.{is_empty}
use enclave_signer.Error.{EnclaveResult, cross_check}
use enclave_signer.Spv.CrossCheck.{ValidatedConsignment, ChainPins, assert_unchanged}
use enclave_signer.Evm.Relay.{ReleaseIdentity}
use enclave_signer.Evm.Relay.Agreement.{Agrees}
use enclave_signer.Evm.Release.{apply_funds_out_binding}
use enclave_signer.Evm.Release.Bound.{IsBound}
use enclave_signer.Evm.Destination.{
  EvmDestination, FundsOutParams, rgb_chain_id, validate_rgb_source_identity,
}
use enclave_signer.Evm.Destination.Accept.{IsAccepted}
use enclave_signer.Evm.Signing.{digest_of, validate_burn_id}
use enclave_signer.Rgb.Source.{RgbSource, with_pins}
use enclave_signer.Rgb.Source.Bind.{with_pins-ok, IsSourced}
use enclave_signer.Sign.Route.{rgb_source}
use enclave_signer.State.Enclave.{Keys, Phase, active, with_active}
use enclave_signer.Sign.Burn.{
  Signer, Moments, EvmSignatureResponse, sign_with_chain_pins_unchanged, bind_release,
  handle_sign_evm,
}

kept : {b : Bool} → not b ≡ false → b ≡ true
kept h = ground (arith, h)

is_empty-true : {A : Type 0} (xs : List A) → is_empty xs ≡ true → xs ≡ []
is_empty-true [] h = refl
is_empty-true (x ∷ xs) h = cc

pub the_ok : {A : Type 0} {a b : A} → ◌≡◌ {A = EnclaveResult A} (ok a) (ok b) → a ≡ b
the_ok h = cc

module _ (k : Keys) (signer : Signer k) (m : Moments k signer.btc) where
  open signer use {btc, sha256d, keccak256, prefix, codecs, abi, validator, sign_evm, cfg}

  unchanged_first :
      {T : Type 0} (checked : EnclaveResult (Unit {0})) (sign : EnclaveResult T) {t : T}
      → (checked >> sign) ≡ ok t
      → (checked ≡ ok tt) × (sign ≡ ok t)
  unchanged_first (ok u) sign h = (refl, h)
  unchanged_first (err e) sign h = cc

  sign_with_chain_pins_unchanged-ok :
      {T : Type 0} (pins : ChainPins) (sign : EnclaveResult T) {t : T}
      → sign_with_chain_pins_unchanged pins m.signing sign ≡ ok t
      → (assert_unchanged pins m.signing ≡ ok tt) × (sign ≡ ok t)
  unfolding sign_with_chain_pins_unchanged
  sign_with_chain_pins_unchanged-ok [] sign h = (unfold assert_unchanged in refl, h)
  sign_with_chain_pins_unchanged-ok (p ∷ pins) sign h =
      unchanged_first (assert_unchanged (p ∷ pins) m.signing) sign h

  phase_ok :
      {T : Type 0} (p : Phase k) (f : k.KeyManager → EnclaveResult T) {t : T}
      → with_active k (record (m.signing_state) { inner = p }) f ≡ ok t
      → (keys : k.KeyManager) × (p ≡ active keys) × (f keys ≡ ok t)
  unfolding with_active
  phase_ok Phase.initial f h = cc
  phase_ok Phase.initializing f h = cc
  phase_ok (Phase.cloning session) f h = cc
  phase_ok (active keys) f h = (keys, refl, h)

  with_active-ok :
      {T : Type 0} (f : k.KeyManager → EnclaveResult T) {t : T}
      → with_active k m.signing_state f ≡ ok t
      → (keys : k.KeyManager) × (m.signing_state.inner ≡ active keys) × (f keys ≡ ok t)
  unfolding with_active
  with_active-ok f h = phase_ok m.signing_state.inner f h

  identity-ok :
      (release : ReleaseIdentity)
      → validate_rgb_source_identity release ≡ ok tt
      → (release.source_chain_id ≡ rgb_chain_id) × (release.source_address ≡ [])
  unfolding validate_rgb_source_identity
  identity-ok release h =
      let (chain, h1) =
        refuse_if_past (not (release.source_chain_id == rgb_chain_id)) cross_check _ h in
      (
        ground (arith, chain),
        is_empty-true release.source_address
            (kept (refuse_if-ok (not (is_empty release.source_address)) cross_check h1)),
      )

  -- What the release has shown before the signature.
  pub record IsChecked (source : RgbSource) (d : EvmDestination) (params : Option FundsOutParams)
      (release : ReleaseIdentity) (validated : ValidatedConsignment) : Type 0 where
    pub sourced :
        (pins : ChainPins) × IsSourced btc sha256d keccak256 prefix validator source cfg m.proving
          m.sourcing m.source_clock [] pins validated
    pub accepted : IsAccepted abi d cfg m.destination_clock params release
    pub source_chain : release.source_chain_id ≡ rgb_chain_id
    pub no_source_address : release.source_address ≡ []
    pub burn_id : validate_burn_id keccak256 cfg release ≡ ok tt
    pub mined : validated.non_mined_witness_txids ≡ []
    pub agrees :
        Agrees btc sha256d keccak256 release validated source.merkle_proofs m.binding
          cfg.btc_relay_mode cfg.spv_min_confirmations
    pub bound : IsBound codecs release validated d.burn_destination

  -- The signature is that of the request's digest, by the active key, on a chain that still has the
  -- pins.
  pub record IsSigned (d : EvmDestination) (params : Option FundsOutParams) (pins : ChainPins)
      (response : EvmSignatureResponse) : Type 0 where
    pub digest : Bytes
    pub digest_is : digest_of keccak256 abi d params ≡ ok digest
    pub keys : k.KeyManager
    pub active_keys : m.signing_state.inner ≡ active keys
    pub signature : sign_evm keys digest ≡ ok response.signature
    pub call_data : response.call_data ≡ d.call_data
    pub unchanged : assert_unchanged pins m.signing ≡ ok tt

  pub handle_sign_evm-IsSigned :
      (d : EvmDestination) (params : Option FundsOutParams) (pins : ChainPins)
      {response : EvmSignatureResponse}
      → handle_sign_evm k signer m d params pins ≡ ok response
      → IsSigned d params pins response
  unfolding handle_sign_evm
  handle_sign_evm-IsSigned d params pins {response} h =
      let (digest, digest_is, h1) = bind-ok (digest_of keccak256 abi d params) _ h in
      let signing = with_active k m.signing_state (λ keys. sign_evm keys digest) in
      let (signature, is_signed, h2) =
        bind-ok (sign_with_chain_pins_unchanged pins m.signing signing) _ h1 in
      let (unchanged, signs) = sign_with_chain_pins_unchanged-ok pins signing is_signed in
      let (keys, active_keys, signature_is) = with_active-ok (λ keys. sign_evm keys digest) signs in
      let answer = the_ok h2 in
      record {
        digest = digest;
        digest_is = digest_is;
        keys = keys;
        active_keys = active_keys;
        signature = signature_is ∙ ap (λ r. ok r.signature) answer;
        call_data = ap (λ r. r.call_data) (sym answer);
        unchanged = unchanged;
      }

  pub bind_release-ok :
      (source : RgbSource) (d : EvmDestination) (release : ReleaseIdentity)
      (validated : Option ValidatedConsignment) (pins : ChainPins) {later : ChainPins}
      → bind_release k signer m (rgb_source source) d release validated pins ≡ ok later
      → (release.source_chain_id ≡ rgb_chain_id)
        × (release.source_address ≡ [])
        × (validate_burn_id keccak256 cfg release ≡ ok tt)
        × ((apply_funds_out_binding codecs btc sha256d keccak256 m.binding cfg.btc_relay_mode
              cfg.spv_min_confirmations release validated source.merkle_proofs pins
              d.burn_destination).1
            ≡ ok tt)
        × ((apply_funds_out_binding codecs btc sha256d keccak256 m.binding cfg.btc_relay_mode
              cfg.spv_min_confirmations release validated source.merkle_proofs pins
              d.burn_destination).0
            ≡ later)
  unfolding bind_release
  bind_release-ok source d release validated pins h =
      let (_, identity, h1) = bind-ok (validate_rgb_source_identity release) _ h in
      let (_, burn_id, h2) = bind-ok (validate_burn_id keccak256 cfg release) _ h1 in
      let bound =
        apply_funds_out_binding codecs btc sha256d keccak256 m.binding cfg.btc_relay_mode
          cfg.spv_min_confirmations release validated source.merkle_proofs pins
          d.burn_destination in
      let ((p, u), binds, h3) = bind-ok (with_pins bound) _ h2 in
      let (chain, address) = identity-ok release identity in
      let (pins_are, is_bound) = with_pins-ok bound binds in
      (chain, address, burn_id, is_bound, pins_are ∙ the_ok h3)
