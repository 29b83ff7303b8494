-- ===== src/Sign/Burn/Released.antt =====
-- What a signature of the burn signer has behind it.
use enclave_signer.Prelude.{
  ◌≡◌, sym, ap, subst, refl, ◌∙◌, ◌⊎◌, inl, inr, Bool, true, false, Option, some, List, [], ◌++◌,
  ok, ok_or, ok_or-ok, bind-ok, Bytes, AreBytes,
}
use enclave_signer.Error.{invalid_request}
use enclave_signer.Spv.Chain.Links.{IsValid}
use enclave_signer.Spv.CrossCheck.{
  ValidatedConsignment, ChainPins, assert_unchanged, validate_spv_proofs,
}
use enclave_signer.Spv.CrossCheck.Later.{Submission, after_all, after_all-append, after_all-IsValid}
use enclave_signer.Spv.CrossCheck.Again.{HeaderCollision, AllPinned}
use enclave_signer.Spv.CrossCheck.Unchanged.{validate_source_chain-AllPinned, proofs_again}
use enclave_signer.Evm.Relay.{ReleaseIdentity}
use enclave_signer.Evm.Relay.Agreement.{Agrees}
use enclave_signer.Evm.Release.Bound.{IsBound, apply_funds_out_binding-ok}
use enclave_signer.Evm.Destination.{
  EvmDestination, FundsOutParams, RouteProof, validate_destination,
}
use enclave_signer.Evm.Destination.Accept.{validate_destination_iff}
use enclave_signer.Rgb.Source.{RgbSource, validate_source, route_proof_from_validated_consignment}
use enclave_signer.Rgb.Source.Bind.{validate_source-IsSourced}
use enclave_signer.Sign.Route.{
  SourceNetwork, evm_source, rgb_source, DestinationNetwork, evm_destination, rgb_destination,
  SignRequest, validate_route_proofs,
}
use enclave_signer.State.Enclave.{Keys, with_active}
use enclave_signer.Sign.Burn.{
  Signer, Moments, EvmSignatureResponse, check_signer_role, validate_source_network,
  validate_destination_network, bind_release, handle_sign_evm, sign_destination, sign_route,
  handle_sign,
}
use enclave_signer.Sign.Burn.Kept.{binding-AllPinned}
use enclave_signer.Evm.Destination.{from_funds_out, from_lz_funds_out, is_entrypoint, Abi}
use enclave_signer.Evm.Destination.Decoded.{IsDecoded}
use enclave_signer.Evm.Signing.Binding.{IsAbi}
use enclave_signer.Sign.Burn.Steps.{
  the_ok, IsChecked, IsSigned, handle_sign_evm-IsSigned, bind_release-ok,
}

same_some : {A : Type 0} {a b : A} → some a ≡ some b → b ≡ a
same_some e = cc

-- The proof of a decoded release consists of bytes.
proof-AreBytes :
    (abi : Abi)
    → IsAbi abi
    → (entrypoint : Bool) (call_data : Bytes) (params : Option FundsOutParams)
      (release : ReleaseIdentity)
    → IsDecoded abi entrypoint call_data params release
    → AreBytes release.proof
unfolding from_funds_out from_lz_funds_out
proof-AreBytes abi w false call_data params release (p, is_some, decoded) =
    subst (λ r. AreBytes r.proof) (sym decoded.3) ((w.direct call_data p decoded.0).proof)
proof-AreBytes abi w true call_data params release (c, is_none, decoded) =
    subst (λ r. AreBytes r.proof) (sym decoded.6) ((w.lz call_data c decoded.0).proof)

module _ (k : Keys) (signer : Signer k) (m : Moments k signer.btc) where
  open signer use {btc, sha256d, keccak256, prefix, codecs, abi, validator, cfg}

  -- All that a signature has behind it.
  pub record Released (req : SignRequest) (response : EvmSignatureResponse) : Type 0 where
    pub source : RgbSource
    pub is_source : req.source_network ≡ some (rgb_source source)
    pub destination : EvmDestination
    pub is_destination : req.destination_network ≡ some (evm_destination destination)
    pub params : Option FundsOutParams
    pub release : ReleaseIdentity
    pub validated : ValidatedConsignment
    pub pins : ChainPins
    pub checked : IsChecked k signer m source destination params release validated
    pub signed : IsSigned k signer m destination params pins response
    pub still_proven :
        validate_spv_proofs btc sha256d m.signing validated.witness_txids source.merkle_proofs
          cfg.spv_min_confirmations
        ≡ ok tt

  -- The steps of a request of this route, past the checks of the request's form.
  pub record Steps (source : RgbSource) (d : EvmDestination) (response : EvmSignatureResponse)
      : Type 0 where
    pub pins : ChainPins
    pub validated : ValidatedConsignment
    pub is_sourced :
        validate_source btc sha256d keccak256 prefix validator source cfg m.proving m.sourcing
          m.source_clock []
        ≡ ok (pins, validated)
    pub proof : RouteProof
    pub params : Option FundsOutParams
    pub release : ReleaseIdentity
    pub is_accepted :
        validate_destination abi d cfg m.destination_clock ≡ ok (proof, params, release)
    pub later : ChainPins
    pub binds :
        bind_release k signer m (rgb_source source) d release (some validated) pins ≡ ok later
    pub signs : handle_sign_evm k signer m d params later ≡ ok response

  source_steps :
      (source : RgbSource) {pins : ChainPins} {proof : RouteProof}
      {consignment : Option ValidatedConsignment}
      → validate_source_network k signer m (rgb_source source) ≡ ok (pins, proof, consignment)
      → (validated : ValidatedConsignment) × (consignment ≡ some validated)
        × (validate_source btc sha256d keccak256 prefix validator source cfg m.proving m.sourcing
              m.source_clock []
            ≡ ok (pins, validated))
  unfolding validate_source_network
  source_steps source h =
      let ((p, w), is_sourced, h1) =
        bind-ok
          (validate_source btc sha256d keccak256 prefix validator source cfg m.proving m.sourcing
            m.source_clock [])
          _ h in
      let (proof, is_proof, h2) = bind-ok (route_proof_from_validated_consignment codecs w) _ h1 in
      let e = the_ok h2 in (w, sym (ap (λ x. x.2) e), is_sourced ∙ ap (λ x. ok (x.0, w)) e)

  sign_route-Steps :
      (source : RgbSource) (d : EvmDestination) {response : EvmSignatureResponse}
      → sign_route k signer m (rgb_source source) (evm_destination d) ≡ ok response
      → Steps source d response
  unfolding sign_route validate_destination_network sign_destination
  sign_route-Steps source d h =
      let (_, ready, h1) = bind-ok (with_active k m.ready (λ keys. ok tt)) _ h in
      let ((pins, proof, consignment), is_source, h2) =
        bind-ok (validate_source_network k signer m (rgb_source source)) _ h1 in
      let ((proof', params, release), is_accepted, h3) =
        bind-ok (validate_destination abi d cfg m.destination_clock) _ h2 in
      let (_, covers, h4) =
        bind-ok (validate_route_proofs (rgb_source source) (evm_destination d) proof proof') _ h3 in
      let (later, binds, signs) =
        bind-ok (bind_release k signer m (rgb_source source) d release consignment pins) _ h4 in
      let (validated, is_some, is_sourced) = source_steps source is_source in
      record {
        pins = pins;
        validated = validated;
        is_sourced = is_sourced;
        proof = proof';
        params = params;
        release = release;
        is_accepted = is_accepted;
        later = later;
        binds =
            subst (λ c. bind_release k signer m (rgb_source source) d release c pins ≡ ok later)
              is_some binds;
        signs = signs;
      }

  -- The only route that the role lets through.
  role-Steps :
      (source : SourceNetwork) (d : DestinationNetwork) {response : EvmSignatureResponse}
      → check_signer_role source d ≡ ok tt
      → sign_route k signer m source d ≡ ok response
      → (s : RgbSource) × (source ≡ rgb_source s)
        × (e : EvmDestination) × (d ≡ evm_destination e)
        × Steps s e response
  unfolding check_signer_role
  role-Steps (evm_source s) d role h = cc
  role-Steps (rgb_source s) (rgb_destination d) role h = cc
  role-Steps (rgb_source s) (evm_destination d) role h = (s, refl, d, refl, sign_route-Steps s d h)

  module _ (before after : List Submission) (v : IsValid btc m.sourcing) (is_abi : IsAbi abi)
      (binding_is : m.binding ≡ after_all btc m.sourcing before)
      (signing_is : m.signing ≡ after_all btc m.binding after) where
    signing_chain : m.signing ≡ after_all btc m.sourcing (before ++ after)
    signing_chain =
        signing_is
        ∙ ap (λ c. after_all btc c after) binding_is
        ∙ sym (after_all-append btc m.sourcing before after)

    binding-IsValid : IsValid btc m.binding
    binding-IsValid =
        subst (IsValid btc) (sym binding_is) (after_all-IsValid btc m.sourcing v before)

    Steps-Released :
        (req : SignRequest) (source : RgbSource) (d : EvmDestination)
        {response : EvmSignatureResponse}
        → req.source_network ≡ some (rgb_source source)
        → req.destination_network ≡ some (evm_destination d)
        → Steps source d response
        → Released req response ⊎ HeaderCollision btc
    Steps-Released req source d is_source is_destination s =
        let w = s.validated in
        let sourced =
          validate_source-IsSourced btc sha256d keccak256 prefix validator source cfg m.proving
            m.sourcing m.source_clock [] s.is_sourced in
        let accepted =
          ((validate_destination_iff abi d cfg m.destination_clock s.proof s.params s.release).0
            s.is_accepted).0 in
        let (chain, address, burn_id, binds, pins_are) =
          bind_release-ok k signer m source d s.release (some w) s.pins s.binds in
        let signed = handle_sign_evm-IsSigned k signer m d s.params s.later s.signs in
        let (u, is_u, mined, agrees, bound) =
          apply_funds_out_binding-ok codecs btc sha256d keccak256 m.binding cfg.btc_relay_mode
            cfg.spv_min_confirmations s.release (some w) source.merkle_proofs s.pins
            d.burn_destination binding-IsValid
            (proof-AreBytes abi is_abi (is_entrypoint abi d) d.call_data s.params s.release
              accepted.decoded)
            binds in
        let same : u ≡ w = same_some is_u in
        let n = cfg.spv_min_confirmations in
        let proofs = source.merkle_proofs in
        let pinned =
          validate_source_chain-AllPinned btc sha256d prefix m.sourcing v w proofs m.source_clock []
            n sourced.on_chain in
        let first = subst (λ p. AllPinned m.sourcing p n proofs) sourced.pins_are pinned in
        let still =
          subst (λ p. AllPinned m.sourcing p n proofs) pins_are
            (binding-AllPinned codecs btc sha256d keccak256 m.sourcing m.binding cfg.btc_relay_mode
              n s.release proofs proofs (some w) s.pins d.burn_destination first) in
        let unchanged =
          subst (λ c. assert_unchanged s.later c ≡ ok tt) signing_chain signed.unchanged in
        let checked : IsChecked k signer m source d s.params s.release w = record {
          sourced = (s.pins, sourced);
          accepted = accepted;
          source_chain = chain;
          no_source_address = address;
          burn_id = burn_id;
          mined = subst (λ x. x.non_mined_witness_txids ≡ []) same mined;
          agrees =
              subst
                (λ x.
                  Agrees btc sha256d keccak256 s.release x proofs m.binding cfg.btc_relay_mode n)
                same agrees;
          bound = subst (λ x. IsBound codecs s.release x d.burn_destination) same bound;
        } in
        elim (proofs_again btc sha256d prefix m.sourcing v w proofs m.source_clock [] n
          (before ++ after) s.later sourced.on_chain still unchanged) [
            | inr clash ↦ inr clash
            | inl proven ↦ inl (record {
              source = source;
              is_source = is_source;
              destination = d;
              is_destination = is_destination;
              params = s.params;
              release = s.release;
              validated = w;
              pins = s.later;
              checked = checked;
              signed = signed;
              still_proven =
                  subst (λ c. validate_spv_proofs btc sha256d c w.witness_txids proofs n ≡ ok tt)
                    (sym signing_chain) proven;
            })
          ]

  -- Where the chain is valid when the source is checked, and only the header submissions of other
  -- requests change it from there to the signature, a signature of the burn signer has all of this
  -- behind it, unless two headers have one hash and different Merkle roots. The request has an RGB
  -- source and an EVM destination; its consignment is of the declared hash, and the validator has
  -- validated this consignment, with the positions of the witnesses that the request's Merkle
  -- proofs prove, as one of the declared asset. For the consignment so validated, the source
  -- chain's check has passed, no witness is unmined, the proof of the release agrees with the chain
  -- of the binding, and the release pays what its settling burn says. The destination is accepted;
  -- the release names the RGB network, no source address and the burn id of its fields. The
  -- signature is by the keys active at its time, of the digest of this destination; the reply has
  -- the calldata of the request; and on the chain at that time the Merkle proofs still prove the
  -- witnesses at the required depth. The ABI's decoders are taken to give values of its types.
  pub handle_sign-Released :
      (before after : List Submission) (req : SignRequest) (response : EvmSignatureResponse)
      → IsValid btc m.sourcing
      → IsAbi abi
      → m.binding ≡ after_all btc m.sourcing before
      → m.signing ≡ after_all btc m.binding after
      → handle_sign k signer m req ≡ ok response
      → Released req response ⊎ HeaderCollision btc
  unfolding handle_sign
  handle_sign-Released before after req response v is_abi binding_is signing_is h =
      let (source, is_source, h1) = bind-ok (ok_or req.source_network invalid_request) _ h in
      let (d, is_d, h2) = bind-ok (ok_or req.destination_network invalid_request) _ h1 in
      let (_, role, h3) = bind-ok (check_signer_role source d) _ h2 in
      let (s, source_is, e, d_is, steps) = role-Steps source d role h3 in
      Steps-Released before after v is_abi binding_is signing_is req s e
        (ok_or-ok req.source_network invalid_request is_source ∙ ap some source_is)
        (ok_or-ok req.destination_network invalid_request is_d ∙ ap some d_is) steps
