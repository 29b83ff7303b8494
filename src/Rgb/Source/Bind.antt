-- ===== src/Rgb/Source/Bind.antt =====
-- What an accepted RGB source has shown.
use enclave_signer.Prelude.{
  ℕ, ◌≤◌, ◌≡◌, subst, Bool, true, false, not, Option, some, List, arith, ok, err, refuse_if,
  bind-ok, refuse_if-ok, refuse_if_past, Bytes, same_bytes, same_bytes→≡, length, ltb,
}
use enclave_signer.Config.{BridgeConfig, is_configured, is_empty}
use enclave_signer.Error.{EnclaveResult, cross_check}
use enclave_signer.Spv.Types.{Bitcoin, ChainNet}
use enclave_signer.Spv.Chain.{HeaderChain}
use enclave_signer.Spv.CrossCheck.{ValidatedConsignment, ChainPins, validate_source_chain}
use enclave_signer.Rgb.Source.{
  RgbSource, AssetBindMode, proof_bytes, RgbValidator, bind_pin, assert_asset_binding,
  assert_consignment_size, validate_source_payload, proven_witnesses, with_pins, validate_source,
}

pub with_pins-ok :
    {A : Type 0} (x : ChainPins × EnclaveResult A) {pins : ChainPins} {a : A}
    → with_pins x ≡ ok (pins, a)
    → (x.0 ≡ pins) × (x.1 ≡ ok a)
with_pins-ok (p, ok b) h = (cc, cc)
with_pins-ok (p, err e) h = cc

pair_is :
    {A : Type 0} {p q : ChainPins} {a b : A}
    → ◌≡◌ {A = EnclaveResult (ChainPins × A)} (ok (p, a)) (ok (q, b))
    → ◌≡◌ {A = ChainPins × A} (p, a) (q, b)
pair_is h = cc

kept : {b : Bool} → not b ≡ false → b ≡ true
kept h = ground (arith, h)

-- The asset is the declared one, and the pinned one where the pins are configured.
pub assert_asset_binding-ok :
    (contract_id declared : Bytes) (cfg : BridgeConfig)
    → assert_asset_binding contract_id declared cfg AssetBindMode.source ≡ ok tt
    → (contract_id ≡ declared) × (is_configured cfg ≡ true → contract_id ≡ cfg.rgb_asset_id)
unfolding assert_asset_binding
assert_asset_binding-ok contract_id declared cfg h =
    let (_, h1) = refuse_if_past (is_empty contract_id) cross_check _ h in
    let (same, h2) = refuse_if_past (not (same_bytes contract_id declared)) cross_check _ h1 in
    (
      same_bytes→≡ contract_id declared (kept same),
      λ configured.
          let (_, _, h3) =
            bind-ok (refuse_if (is_empty cfg.rgb_asset_id) cross_check) _
              (rw (configured, bind_pin) at h2) in
          same_bytes→≡ contract_id cfg.rgb_asset_id
            (kept (refuse_if-ok (not (same_bytes contract_id cfg.rgb_asset_id)) cross_check h3)),
    )

module _ (btc : Bitcoin) (sha256d keccak256 : Bytes → Bytes) (prefix : ChainNet → Bytes)
    (validator : RgbValidator) (source : RgbSource) (cfg : BridgeConfig) where
  -- What the source carries, and that `validated` is the validator's answer for its consignment, with
  -- the positions of the witnesses that its proofs prove and the binding of its asset.
  pub record IsSourced (proving chain : HeaderChain btc.Header) (now : Option ℕ)
      (earlier pins : ChainPins) (validated : ValidatedConsignment) : Type 0 where
    pub small : length source.consignment ≤ cfg.max_consignment_bytes
    pub hash : keccak256 source.consignment ≡ source.consignment_hash
    pub proven : List (Bytes × validator.WitnessPos)
    pub is_proven :
        proven_witnesses btc sha256d validator proving source.merkle_proofs
          cfg.spv_min_confirmations
        ≡ ok proven
    pub answer :
        validator.validate_consignment source.consignment proven
          (λ contract_id. assert_asset_binding contract_id source.asset_id cfg AssetBindMode.source)
        ≡ ok validated
    pub declared : validated.contract_id ≡ source.asset_id
    pub pinned : is_configured cfg ≡ true → validated.contract_id ≡ cfg.rgb_asset_id
    pub on_chain :
        (validate_source_chain btc sha256d prefix chain
          (some validated)
          source.merkle_proofs
          now
          earlier
          cfg.spv_min_confirmations).1
        ≡ ok tt
    pub pins_are :
        (validate_source_chain btc sha256d prefix chain
          (some validated)
          source.merkle_proofs
          now
          earlier
          cfg.spv_min_confirmations).0
        ≡ pins

  consignment_fits :
      {u : Unit {0}}
      → assert_consignment_size source.consignment cfg ≡ ok u
      → length source.consignment ≤ cfg.max_consignment_bytes
  unfolding assert_consignment_size
  consignment_fits h = ground arith

  payload :
      validate_source_payload keccak256 source cfg ≡ ok tt
      → (length source.consignment ≤ cfg.max_consignment_bytes)
        × (keccak256 source.consignment ≡ source.consignment_hash)
  unfolding validate_source_payload
  payload h =
      let (_, h1) = refuse_if_past (is_empty source.consignment) cross_check _ h in
      let (_, size, h2) = bind-ok (assert_consignment_size source.consignment cfg) _ h1 in
      let (_, h3) =
        refuse_if_past (ltb cfg.max_merkle_proofs (length source.merkle_proofs)) cross_check _ h2 in
      let (_, h4) =
        refuse_if_past (ltb cfg.max_total_proof_bytes (proof_bytes source.merkle_proofs))
          cross_check _ h3 in
      let (_, h5) = refuse_if_past (is_empty source.consignment_hash) cross_check _ h4 in
      let (same, h6) =
        refuse_if_past (not (same_bytes (keccak256 source.consignment) source.consignment_hash))
          cross_check _ h5 in
      (
        consignment_fits size,
        same_bytes→≡ (keccak256 source.consignment) source.consignment_hash (kept same),
      )

  pub validate_source-IsSourced :
      (proving chain : HeaderChain btc.Header) (now : Option ℕ) (earlier : ChainPins)
      {pins : ChainPins} {validated : ValidatedConsignment}
      → validate_source btc sha256d keccak256 prefix validator source cfg proving chain now earlier
        ≡ ok (pins, validated)
      → IsSourced proving chain now earlier pins validated
  unfolding validate_source
  validate_source-IsSourced proving chain now earlier {pins} {validated} h =
      let (_, is_payload, h1) = bind-ok (validate_source_payload keccak256 source cfg) _ h in
      let (proven, is_proven, h2) =
        bind-ok
          (proven_witnesses btc sha256d validator proving source.merkle_proofs
            cfg.spv_min_confirmations)
          _ h1 in
      let (w, is_w, h3) =
        bind-ok
          (validator.validate_consignment source.consignment proven (λ contract_id.
            assert_asset_binding contract_id source.asset_id cfg AssetBindMode.source))
          _ h2 in
      let (_, asset, h4) =
        bind-ok (assert_asset_binding w.contract_id source.asset_id cfg AssetBindMode.source) _
          h3 in
      let ((p, u), chained, h5) =
        bind-ok
          (with_pins (
            validate_source_chain btc sha256d prefix chain (some w) source.merkle_proofs now earlier
              cfg.spv_min_confirmations))
          _ h4 in
      let (small, hash) = payload is_payload in
      let (declared, pinned) = assert_asset_binding-ok w.contract_id source.asset_id cfg asset in
      let (pins_are, on_chain) =
        with_pins-ok
          (validate_source_chain btc sha256d prefix chain (some w) source.merkle_proofs now earlier
            cfg.spv_min_confirmations)
          chained in
      let here : IsSourced proving chain now earlier p w = record {
        small = small;
        hash = hash;
        proven = proven;
        is_proven = is_proven;
        answer = is_w;
        declared = declared;
        pinned = pinned;
        on_chain = on_chain;
        pins_are = pins_are;
      } in
      subst (λ (x : ChainPins × ValidatedConsignment). IsSourced proving chain now earlier x.0 x.1)
        (pair_is h5) here
