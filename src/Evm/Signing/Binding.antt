-- ===== src/Evm/Signing/Binding.antt =====
-- What a digest that the bridge key signs commits to.
use enclave_signer.Prelude.{
  ℕ, ◌^◌, ◌<◌, ◌≡◌, refl, sym, ap, subst, ◌∙◌, ◌⊎◌, inl, inr, Bool, List, All, length, arith, Bytes,
  range, Option, some, none, true, false, not, ltb, leb, ◌==◌, ok, refuse_if_past, bind-ok,
  same_bytes, Collision, onwards,
}
use enclave_signer.Error.{EnclaveResult, cross_check}
use enclave_signer.Config.{BridgeConfig}
use enclave_signer.Evm.Relay.{ReleaseIdentity}
use enclave_signer.Evm.Destination.{
  FundsOutParams, LzFundsOutCall, LzReleaseParams, EvmDestination, RouteProof, Abi,
  decode_lz_funds_out_params, validate_destination, is_entrypoint,
}
use enclave_signer.Evm.Destination.Decoded.{
  decode_lz_funds_out_params-ok, IsDecoded, IsLz, IsDirect,
}
use enclave_signer.Evm.Destination.Accept.{IsRouted, validate_destination_iff}
use enclave_signer.Evm.Signing.{
  Eip712Domain, joined, build_evm_domain, eip712_digest, funds_out_words, funds_out_digest,
  lz_funds_out_words, lz_funds_out_digest, route_digest, digest_of,
}
use enclave_signer.Evm.Signing.Words.{IsWord}
use enclave_signer.Evm.Signing.Structs.{
  IsDomain, IsParams, eip712_digest_injective, funds_out_words-AreWords, funds_out_words_injective,
}
use enclave_signer.Evm.Signing.LzStruct.{
  IsLzCall, lz_funds_out_words-AreWords, lz_funds_out_words_injective, routes_differ,
}

-- What the ABI's decoders give has the widths of its types.
pub record IsAbi (abi : Abi) : Type 0 where
  pub direct :
      (call_data : Bytes) (p : FundsOutParams)
      → abi.funds_out_decode call_data ≡ some p
      → IsParams p
  pub lz :
      (call_data : Bytes) (c : LzFundsOutCall)
      → abi.lz_funds_out_decode call_data ≡ some c
      → IsLzCall c

-- The numbers of a request have 64 bits.
abbrev pub IsU64 : EvmDestination → Type 0
IsU64 r = (r.chain_id < range 8) × (r.nonce < range 8) × (r.deadline < range 8)

-- Two requests for one release on one contract.
abbrev pub SameRequest : EvmDestination → EvmDestination → Type 0
SameRequest r s =
    (r.call_data ≡ s.call_data)
    × (r.chain_id ≡ s.chain_id)
    × (r.proxy_contract ≡ s.proxy_contract)
    × (r.nonce ≡ s.nonce)
    × (r.deadline ≡ s.deadline)

the_digest : {a b : Bytes} → ◌≡◌ {A = EnclaveResult Bytes} (ok a) (ok b) → a ≡ b
the_digest h = cc

module _ (keccak256 : Bytes → Bytes) (hash_length : (m : Bytes) → length (keccak256 m) ≡ 32)
    (abi : Abi) (is_abi : IsAbi abi) where
  -- The words of the struct that is hashed for a request, whose calldata encode them.
  abbrev Encodes : EvmDestination → List Bytes → Type 0
  Encodes r ws =
      ((p : FundsOutParams) × IsParams p
        × (abi.funds_out_encode p ≡ r.call_data)
        × (ws ≡ funds_out_words keccak256 p r.nonce r.deadline))
      ⊎ ((c : LzFundsOutCall) × IsLzCall c
          × (abi.lz_funds_out_encode c ≡ r.call_data)
          × (ws ≡ lz_funds_out_words keccak256 c r.nonce r.deadline))

  Encodes-AreWords : (r : EvmDestination) (ws : List Bytes) → Encodes r ws → All IsWord ws
  Encodes-AreWords r ws (inl (p, v, e, w)) =
      subst (All IsWord) (sym w)
        (funds_out_words-AreWords keccak256 hash_length p r.nonce r.deadline v)
  Encodes-AreWords r ws (inr (c, v, e, w)) =
      subst (All IsWord) (sym w)
        (lz_funds_out_words-AreWords keccak256 hash_length c r.nonce r.deadline v)

  -- One struct is that of one calldata, nonce and deadline.
  Encodes-injective :
      (r s : EvmDestination) (ws : List Bytes)
      → IsU64 r
      → IsU64 s
      → Encodes r ws
      → Encodes s ws
      → ((r.call_data ≡ s.call_data) × (r.nonce ≡ s.nonce) × (r.deadline ≡ s.deadline))
        ⊎ Collision keccak256
  Encodes-injective r s ws a b (inl (p, v, e, w)) (inl (q, u, f, x)) =
      onwards
        (funds_out_words_injective keccak256 hash_length p q r.nonce s.nonce r.deadline s.deadline v
          u (a.1, b.1) (a.2, b.2) (sym w ∙ x))
        λ same. inl (sym e ∙ ap abi.funds_out_encode same.0 ∙ f, same.1, same.2)
  Encodes-injective r s ws a b (inr (p, v, e, w)) (inr (q, u, f, x)) =
      onwards
        (lz_funds_out_words_injective keccak256 hash_length p q r.nonce s.nonce r.deadline
          s.deadline v u (a.1, b.1) (a.2, b.2) (sym w ∙ x))
        λ same. inl (sym e ∙ ap abi.lz_funds_out_encode same.0 ∙ f, same.1, same.2)
  Encodes-injective r s ws a b (inl (p, v, e, w)) (inr (q, u, f, x)) =
      absurd (routes_differ keccak256 p q r.nonce s.nonce r.deadline s.deadline (sym w ∙ x))
  Encodes-injective r s ws a b (inr (p, v, e, w)) (inl (q, u, f, x)) =
      absurd (routes_differ keccak256 q p s.nonce r.nonce s.deadline r.deadline (sym x ∙ w))

  build_evm_domain-ok :
      (r : EvmDestination) {d : Eip712Domain}
      → IsU64 r
      → build_evm_domain r ≡ ok d
      → IsDomain d × (d.chain_id ≡ r.chain_id) × (d.verifying_contract ≡ r.proxy_contract)
  unfolding build_evm_domain
  build_evm_domain-ok r a h = ground arith

  lz_funds_out_digest-ok :
      (d : Eip712Domain) (r : EvmDestination) (lz : LzReleaseParams) (c : LzFundsOutCall)
      {digest : Bytes}
      → abi.lz_funds_out_decode r.call_data ≡ some c
      → lz_funds_out_digest keccak256 abi d r.call_data lz r.nonce r.deadline ≡ ok digest
      → digest
        ≡ eip712_digest keccak256 d
            (keccak256 (joined (lz_funds_out_words keccak256 c r.nonce r.deadline)))
  unfolding lz_funds_out_digest
  lz_funds_out_digest-ok d r lz c is_c h =
      let (_, h1) = refuse_if_past (ltb (length r.call_data) 4) cross_check _ h in
      let (p, is_p, h2) = bind-ok (decode_lz_funds_out_params abi r.call_data) _ h1 in
      let (_, h3) = refuse_if_past (not (lz.dst_eid == p.dst_eid)) cross_check _ h2 in
      let (_, h4) = refuse_if_past (not (same_bytes lz.recipient p.recipient)) cross_check _ h3 in
      let (_, h5) = refuse_if_past (leb (2 ^ 64) p.min_amount_ld) cross_check _ h4 in
      let (_, h6) = refuse_if_past (not (lz.min_amount_ld == p.min_amount_ld)) cross_check _ h5 in
      let decoded = (decode_lz_funds_out_params-ok abi r.call_data is_p).0 in
      let same : p ≡ c = cc in
      sym (the_digest h6)
      ∙ ap
          (λ q.
            eip712_digest keccak256 d
              (keccak256 (joined (lz_funds_out_words keccak256 q r.nonce r.deadline))))
          same

  -- The digest of an accepted request is that of one struct, which its calldata encode.
  pub record Digested (r : EvmDestination) (digest : Bytes) : Type 0 where
    pub domain : Eip712Domain
    pub is_domain : IsDomain domain
    pub chain_id : domain.chain_id ≡ r.chain_id
    pub contract : domain.verifying_contract ≡ r.proxy_contract
    pub words : List Bytes
    pub encodes : Encodes r words
    pub digest_is : digest ≡ eip712_digest keccak256 domain (keccak256 (joined words))

  Digested-direct :
      (r : EvmDestination) (d : Eip712Domain) (p : FundsOutParams) (release : ReleaseIdentity)
      {digest : Bytes}
      → IsDomain d × (d.chain_id ≡ r.chain_id) × (d.verifying_contract ≡ r.proxy_contract)
      → IsDirect abi r.call_data p release
      → route_digest keccak256 abi d r (some p) r.lz_release ≡ ok digest
      → r.lz_release ≡ none
      → Digested r digest
  unfolding route_digest funds_out_digest
  Digested-direct r d p release (is_domain, chain, contract) decoded h routed = record {
    domain = d;
    is_domain = is_domain;
    chain_id = chain;
    contract = contract;
    words = funds_out_words keccak256 p r.nonce r.deadline;
    encodes = inl (p, is_abi.direct r.call_data p decoded.0, decoded.1, refl);
    digest_is = sym (the_digest (rw routed at h));
  }

  Digested-lz :
      (r : EvmDestination) (d : Eip712Domain) (c : LzFundsOutCall) (l : LzReleaseParams)
      (release : ReleaseIdentity) {digest : Bytes}
      → IsDomain d × (d.chain_id ≡ r.chain_id) × (d.verifying_contract ≡ r.proxy_contract)
      → IsLz abi r.call_data c release
      → route_digest keccak256 abi d r none r.lz_release ≡ ok digest
      → r.lz_release ≡ some l
      → Digested r digest
  unfolding route_digest
  Digested-lz r d c l release (is_domain, chain, contract) decoded h routed = record {
    domain = d;
    is_domain = is_domain;
    chain_id = chain;
    contract = contract;
    words = lz_funds_out_words keccak256 c r.nonce r.deadline;
    encodes = inr (c, is_abi.lz r.call_data c decoded.0, decoded.1, refl);
    digest_is = lz_funds_out_digest-ok d r l c decoded.0 (rw routed at h);
  }

  Digested-route :
      (entrypoint : Bool) (r : EvmDestination) (d : Eip712Domain) (params : Option FundsOutParams)
      (release : ReleaseIdentity) {digest : Bytes}
      → IsDomain d × (d.chain_id ≡ r.chain_id) × (d.verifying_contract ≡ r.proxy_contract)
      → IsDecoded abi entrypoint r.call_data params release
      → IsRouted abi entrypoint r.lz_release
      → route_digest keccak256 abi d r params r.lz_release ≡ ok digest
      → Digested r digest
  Digested-route false r d params release is_domain (p, is_some, decoded) routed h =
      Digested-direct r d p release is_domain decoded (rw is_some at h) routed
  Digested-route true r d params release is_domain (c, is_none, decoded) (l, routed) h =
      Digested-lz r d c l release is_domain decoded (rw is_none at h) routed

  digest_of-Digested :
      (r : EvmDestination) (cfg : BridgeConfig) (now : Option ℕ) (proof : RouteProof)
      (params : Option FundsOutParams) (release : ReleaseIdentity) {digest : Bytes}
      → IsU64 r
      → validate_destination abi r cfg now ≡ ok (proof, params, release)
      → digest_of keccak256 abi r params ≡ ok digest
      → Digested r digest
  unfolding digest_of
  digest_of-Digested r cfg now proof params release u v h =
      let (d, is_d, h1) = bind-ok (build_evm_domain r) _ h in
      let a = ((validate_destination_iff abi r cfg now proof params release).0 v).0 in
      Digested-route (is_entrypoint abi r) r d params release (build_evm_domain-ok r u is_d)
        a.decoded a.routed h1

  -- Two accepted requests with one digest have the same calldata, chain, contract, nonce and
  -- deadline, whatever their routes and whenever they were accepted, or Keccak-256 collides. The
  -- ABI's decoders are taken to give values of its types, and Keccak-256 to give 32 bytes.
  pub digest_of_injective :
      (r s : EvmDestination) (cfg : BridgeConfig) (now later : Option ℕ) (proof proof' : RouteProof)
      (params params' : Option FundsOutParams) (release release' : ReleaseIdentity) (digest : Bytes)
      → IsU64 r
      → IsU64 s
      → validate_destination abi r cfg now ≡ ok (proof, params, release)
      → validate_destination abi s cfg later ≡ ok (proof', params', release')
      → digest_of keccak256 abi r params ≡ ok digest
      → digest_of keccak256 abi s params' ≡ ok digest
      → SameRequest r s ⊎ Collision keccak256
  digest_of_injective r s cfg now later proof proof' params params' release release' digest u w v v'
        h h' =
      let a = digest_of-Digested r cfg now proof params release u v h in
      let b = digest_of-Digested s cfg later proof' params' release' w v' h' in
      onwards
        (eip712_digest_injective keccak256 hash_length a.domain b.domain a.words b.words a.is_domain
          b.is_domain (Encodes-AreWords r a.words a.encodes) (Encodes-AreWords s b.words b.encodes)
          (sym a.digest_is ∙ b.digest_is))
        λ same.
          onwards
            (Encodes-injective r s a.words u w a.encodes (subst (Encodes s) (sym same.2) b.encodes))
            λ request. inl (
              request.0,
              sym a.chain_id ∙ same.0 ∙ b.chain_id,
              sym a.contract ∙ same.1 ∙ b.contract,
              request.1,
              request.2,
            )
