-- ===== src/Spv/CrossCheck/Again.antt =====
-- The proofs of one chain on a later one that passes the second check.
use enclave_signer.Prelude.{
  ℕ, ◌<◌, ◌≡◌, ◌≢◌, ◌⊎◌, sym, subst, Option, some, List, [], ◌∷◌, All, arith, ok, err, inl, inr,
  Result-cases, Bytes, bytes_discrete,
}
use enclave_signer.Error.{EnclaveError, EnclaveResult}
use enclave_signer.Spv.Types.{Bitcoin}
use enclave_signer.Spv.Chain.{HeaderChain, hash_at}
use enclave_signer.Spv.Chain.Links.{IsValid}
use enclave_signer.Spv.Chain.Reads.{header_at-IsStored, hash_at-below, confirmations_stored}
use enclave_signer.Spv.CrossCheck.{
  ChainPins, MerkleProofEntry, pin, pin_all, assert_unchanged, check_pin,
}
use enclave_signer.Spv.CrossCheck.Proven.{IsIncluded}
use enclave_signer.Spv.CrossCheck.Pins.{IsPinned, pin-IsPinned_self, pin-IsPinned}
use enclave_signer.Spv.CrossCheck.Recheck.{
  check_pin-hash, check_pin-ok, assert_unchanged-All, lookup-All,
}
use enclave_signer.Spv.CrossCheck.Later.{fits}

err_ok : {e : EnclaveError} → ◌≢◌ {A = EnclaveResult (Unit {0})} (err e) (ok tt)
err_ok h = cc

one_hash :
    (a b pinned held : ℕ) {o : Option ℕ}
    → o ≡ some pinned
    → o ≡ some a
    → pinned ≡ held
    → held ≡ b
    → a ≡ b
one_hash a b pinned held e f g h = cc

one_header : {A : Type 0} (f : A → ℕ) {o : Option A} {g h : A} → o ≡ some g → o ≡ some h → f g ≡ f h
one_header f e g = cc

module _ {Header : Type 0} (c : HeaderChain Header) where
  pin_all-IsPinned :
      (pins : ChainPins) (confirmations : ℕ) (proofs : List MerkleProofEntry) {other hash least : ℕ}
      → IsPinned pins other hash least
      → IsPinned (pin_all pins c confirmations proofs).0 other hash least
  unfolding pin_all
  pin_all-IsPinned pins confirmations [] i = i
  pin_all-IsPinned pins confirmations (p ∷ proofs) i =
      let first = pin-IsPinned c pins p.block_height confirmations i in
      elim (Result-cases (pin pins c p.block_height confirmations).1) [
        | inr (e, failed) ↦ rw (failed, pin_all) first
        | inl (u, written) ↦
            rw (written, pin_all)
              (pin_all-IsPinned (pin pins c p.block_height confirmations).0 confirmations proofs
                first)
      ]

  -- Every proof's block is in the pins.
  abbrev pub AllPinned : ChainPins → ℕ → List MerkleProofEntry → Type 0
  AllPinned pins confirmations = All (λ p.
      (hash : ℕ)
      → hash_at c p.block_height ≡ some hash
      → IsPinned pins p.block_height hash confirmations)

  pub pin_all-pinned :
      (pins : ChainPins) (confirmations : ℕ) (proofs : List MerkleProofEntry)
      → (pin_all pins c confirmations proofs).1 ≡ ok tt
      → AllPinned (pin_all pins c confirmations proofs).0 confirmations proofs
  unfolding pin_all
  pin_all-pinned pins confirmations [] h = tt
  pin_all-pinned pins confirmations (p ∷ proofs) h =
      elim (Result-cases (pin pins c p.block_height confirmations).1) [
        | inr (e, failed) ↦ absurd (err_ok (rw (failed, pin_all) at h))
        | inl (u, written) ↦
            let pins1 = (pin pins c p.block_height confirmations).0 in
            let same : pin_all pins c confirmations (p ∷ proofs)
                ≡ pin_all pins1 c confirmations proofs =
              rw (written, pin_all) in
            subst (λ r. AllPinned r.0 confirmations (p ∷ proofs)) (sym same)
              (
                λ hash found.
                    pin_all-IsPinned pins1 confirmations proofs
                      (pin-IsPinned_self c pins p.block_height confirmations hash found written),
                pin_all-pinned pins1 confirmations proofs (rw (written, pin_all) at h),
              )
      ]

module _ (btc : Bitcoin) where
  open btc use {Header, block_hash, merkle_root}

  -- Two headers with one hash and different Merkle roots.
  pub record HeaderCollision : Type 0 where
    pub one : Header
    pub other : Header
    pub same_hash : block_hash one ≡ block_hash other
    pub different : merkle_root one ≢ merkle_root other

  module _ (sha256d : Bytes → Bytes) where
    -- A proof of the first chain whose block is pinned is a proof of any later chain that passes
    -- the second check.
    IsIncluded-again :
        (c d : HeaderChain Header) (vc : IsValid btc c) (vd : IsValid btc d)
        → d.base_height ≡ c.base_height
        → (pins : ChainPins) (confirmations : ℕ) (p : MerkleProofEntry)
        → assert_unchanged pins d ≡ ok tt
        → IsIncluded btc sha256d c confirmations p
        → ((hash : ℕ)
            → hash_at c p.block_height ≡ some hash
            → IsPinned pins p.block_height hash confirmations)
        → IsIncluded btc sha256d d confirmations p ⊎ HeaderCollision
    IsIncluded-again c d vc vd base pins confirmations p unchanged i is_pinned =
        let stored = header_at-IsStored btc c vc p.block_height confirmations i.found in
        let (h, h_is, hash_is, _) =
          confirmations_stored btc c vc p.block_height confirmations stored in
        let pin = is_pinned (block_hash h) hash_is in
        let checked =
          lookup-All (λ e. check_pin d e ≡ ok tt) p.block_height pins
            (assert_unchanged-All d pins unchanged) pin.found in
        let above : d.base_height < p.block_height = omega (arith, stored, base) in
        let found = check_pin-hash d p.block_height pin.pinned checked in
        let below = hash_at-below btc d vd p.block_height confirmations above found in
        let (_, deep) = check_pin-ok d (fits btc d vd) p.block_height pin.pinned below checked in
        let (g, g_is, g_hash, _) =
          confirmations_stored btc d vd p.block_height confirmations (above, below) in
        let same_hash : block_hash g ≡ block_hash i.header =
          one_hash (block_hash g) (block_hash i.header) pin.pinned.hash (block_hash h) found g_hash
            pin.same (one_header block_hash h_is i.found) in
        elim (bytes_discrete (merkle_root g) (merkle_root i.header)) [
          | no differ ↦
              inr (record { one = g; other = i.header; same_hash = same_hash; different = differ })
          | yes same ↦ inl (record {
            header = g;
            found = g_is;
            deep = omega (arith, deep, pin.deep);
            txid_32 = i.txid_32;
            path_32 = i.path_32;
            merkle = rw same i.merkle;
          })
        ]

    pub All-again :
        (c d : HeaderChain Header) (vc : IsValid btc c) (vd : IsValid btc d)
        → d.base_height ≡ c.base_height
        → (pins : ChainPins) (confirmations : ℕ) (proofs : List MerkleProofEntry)
        → assert_unchanged pins d ≡ ok tt
        → All (IsIncluded btc sha256d c confirmations) proofs
        → AllPinned c pins confirmations proofs
        → All (IsIncluded btc sha256d d confirmations) proofs ⊎ HeaderCollision
    All-again c d vc vd base pins confirmations [] unchanged i pinned = inl tt
    All-again c d vc vd base pins confirmations (p ∷ proofs) unchanged (i, rest) (pinned, more) =
        elim (IsIncluded-again c d vc vd base pins confirmations p unchanged i pinned) [
          | inr clash ↦ inr clash
          | inl again ↦
              elim (All-again c d vc vd base pins confirmations proofs unchanged rest more) [
                | inr clash ↦ inr clash
                | inl others ↦ inl (again, others)
              ]
        ]
