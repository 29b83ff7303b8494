-- ===== src/Spv/CrossCheck/Source.antt =====
-- When the source of a release is accepted.
use enclave_signer.Prelude.{
  ℕ, ◌+◌, ◌≤◌, ◌≡◌, ◌≢◌, ◌↔◌, refl, Option, none, some, List, [], ◌∷◌, All, arith, ok, err, bind-ok,
  ok_or, ok_or-ok, Bytes, same_bytes→≡, same_bytes_refl, inl, inr, Result-cases,
}
use enclave_signer.Error.{EnclaveError, EnclaveResult, spv}
use enclave_signer.Spv.Types.{Bitcoin, ChainNet, Network, chain_net}
use enclave_signer.Spv.Chain.{HeaderChain, tip_height, tip_time}
use enclave_signer.Spv.Chain.Links.{IsValid}
use enclave_signer.Spv.Chain.Reads.{header_at-IsStored, confirmations_stored}
use enclave_signer.Spv.CrossCheck.{
  ChainPins, MerkleProofEntry, ValidatedConsignment, spv_max_tip_age_secs, spv_max_tip_future_secs,
  pin, pin_all, assert_chain_not_stale, assert_chain_fresh, assert_chain_net, check_source_chain,
  validate_source_chain,
}
use enclave_signer.Spv.CrossCheck.Proven.{IsIncluded}
use enclave_signer.Spv.CrossCheck.Accept.{
  IsProven, validate_spv_proofs_sound, validate_spv_proofs_complete,
}
use enclave_signer.Spv.CrossCheck.Pins.{Written, pin-Written, pin-writes}
use enclave_signer.Spv.CrossCheck.Recheck.{Holds, insert-All, lookup-All}

-- The time of the tip is at most two hours before or after now.
pub record IsFresh (tip_time : ℕ) (now : Option ℕ) : Type 0 where
  pub seconds : ℕ
  pub now_is : now ≡ some seconds
  pub not_old : seconds ≤ tip_time + spv_max_tip_age_secs
  pub not_ahead : tip_time ≤ seconds + spv_max_tip_future_secs

module _ (btc : Bitcoin) (c : HeaderChain btc.Header) where
  assert_chain_fresh_sound :
      (now : Option ℕ) → assert_chain_fresh btc c now ≡ ok tt → IsFresh (tip_time btc c) now
  unfolding assert_chain_fresh assert_chain_not_stale
  assert_chain_fresh_sound none h = cc
  assert_chain_fresh_sound (some s) h = record {
    seconds = s;
    now_is = refl;
    not_old = ground arith;
    not_ahead = ground arith;
  }

  assert_chain_fresh_complete :
      (now : Option ℕ) → IsFresh (tip_time btc c) now → assert_chain_fresh btc c now ≡ ok tt
  unfolding assert_chain_fresh assert_chain_not_stale
  assert_chain_fresh_complete now f = ground (arith, f.now_is, f.not_old, f.not_ahead)

assert_chain_net_iff :
    (prefix : ChainNet → Bytes) (net : Bytes) (network : Network)
    → (assert_chain_net prefix net network ≡ ok tt) ↔ (net ≡ prefix (chain_net network))
unfolding assert_chain_net
assert_chain_net_iff prefix net network =
    let expected = prefix (chain_net network) in
    (
      λ h. same_bytes→≡ net expected (ground arith),
      λ e. ground (arith, e, same_bytes_refl expected),
    )

same_hash : {o : Option ℕ} {a b : ℕ} → o ≡ some a → o ≡ some b → a ≡ b
same_hash e f = cc

err_ok : {e : EnclaveError} → ◌≢◌ {A = EnclaveResult (Unit {0})} (err e) (ok tt)
err_ok h = cc

module _ (btc : Bitcoin) (c : HeaderChain btc.Header) (v : IsValid btc c) where
  Written-Holds :
      (pins : ChainPins) (height depth hash : ℕ) {new : ChainPins}
      → All (Holds c) pins
      → Holds c (height, record { hash = hash; depth = depth })
      → Written pins height depth hash new
      → All (Holds c) new
  Written-Holds pins height depth hash holds here w = rw w.new_is (
      insert-All (Holds c) height (record { hash = hash; depth = w.kept }) pins
        (record { above = here.above; hash_is = here.hash_is; below = here.below; deep = deep })
        holds)
    where
      deep : height + w.kept ≤ tip_height c + 1
      deep = elim w.source [
        | inl asked ↦ omega (arith, asked, here.deep)
        | inr (q, found, is) ↦
            omega (arith, is, (lookup-All (Holds c) height pins holds found).deep)
      ]

  -- On the chain that the pins are right about, an included proof is pinned.
  pin-included :
      (sha256d : Bytes → Bytes) (pins : ChainPins) (confirmations : ℕ) (p : MerkleProofEntry)
      → All (Holds c) pins
      → IsIncluded btc sha256d c confirmations p
      → ((pin pins c p.block_height confirmations).1 ≡ ok tt)
        × All (Holds c) (pin pins c p.block_height confirmations).0
  pin-included sha256d pins confirmations p holds i =
      let stored = header_at-IsStored btc c v p.block_height confirmations i.found in
      let (h, _, hash_is, _) = confirmations_stored btc c v p.block_height confirmations stored in
      let here : Holds c
          (p.block_height, record { hash = btc.block_hash h; depth = confirmations }) =
        record { above = stored.0; hash_is = hash_is; below = stored.1; deep = i.deep } in
      let written =
        pin-writes c pins p.block_height confirmations (btc.block_hash h) hash_is (λ q found.
          same_hash (lookup-All (Holds c) p.block_height pins holds found).hash_is hash_is) in
      (
        written,
        Written-Holds pins p.block_height confirmations (btc.block_hash h) holds here
            (pin-Written c pins p.block_height confirmations (btc.block_hash h) hash_is written),
      )

  pub pin_all-included :
      (sha256d : Bytes → Bytes) (pins : ChainPins) (confirmations : ℕ)
      (proofs : List MerkleProofEntry)
      → All (Holds c) pins
      → All (IsIncluded btc sha256d c confirmations) proofs
      → ((pin_all pins c confirmations proofs).1 ≡ ok tt)
        × All (Holds c) (pin_all pins c confirmations proofs).0
  unfolding pin_all
  pin_all-included sha256d pins confirmations [] holds i = (refl, holds)
  pin_all-included sha256d pins confirmations (p ∷ proofs) holds (i, rest) =
      let (written, holds1) = pin-included sha256d pins confirmations p holds i in
      let pins1 = (pin pins c p.block_height confirmations).0 in
      rw (written, pin_all) (pin_all-included sha256d pins1 confirmations proofs holds1 rest)

-- The source of a release is right about the chain.
pub record IsSource (btc : Bitcoin) (sha256d : Bytes → Bytes) (prefix : ChainNet → Bytes)
    (c : HeaderChain btc.Header) (consignment : Option ValidatedConsignment)
    (proofs : List MerkleProofEntry) (now : Option ℕ) (confirmations : ℕ) : Type 0 where
  pub validated : ValidatedConsignment
  pub is_some : consignment ≡ some validated
  pub fresh : IsFresh (tip_time btc c) now
  pub network : validated.chain_net ≡ prefix (chain_net c.network)
  pub proven : IsProven btc sha256d c validated.witness_txids proofs confirmations

module _ (btc : Bitcoin) (sha256d : Bytes → Bytes) (prefix : ChainNet → Bytes)
    (c : HeaderChain btc.Header) (v : IsValid btc c) (consignment : Option ValidatedConsignment)
    (proofs : List MerkleProofEntry) (now : Option ℕ) (confirmations : ℕ) where
  pub check_source_chain_sound :
      check_source_chain btc sha256d prefix c consignment proofs now confirmations ≡ ok tt
      → IsSource btc sha256d prefix c consignment proofs now confirmations
  unfolding check_source_chain
  check_source_chain_sound h =
      let (validated, is_validated, h1) = bind-ok (ok_or consignment spv) _ h in
      let (_, fresh, h2) = bind-ok (assert_chain_fresh btc c now) _ h1 in
      let (_, network, h3) = bind-ok (assert_chain_net prefix validated.chain_net c.network) _ h2 in
      record {
        validated = validated;
        is_some = ok_or-ok consignment spv is_validated;
        fresh = assert_chain_fresh_sound btc c now fresh;
        network = (assert_chain_net_iff prefix validated.chain_net c.network).0 network;
        proven =
            validate_spv_proofs_sound btc sha256d c v confirmations validated.witness_txids proofs
              h3;
      }

  check_source_chain_complete :
      IsSource btc sha256d prefix c consignment proofs now confirmations
      → check_source_chain btc sha256d prefix c consignment proofs now confirmations ≡ ok tt
  unfolding check_source_chain
  check_source_chain_complete s =
      rw
        (
          s.is_some,
          assert_chain_fresh_complete btc c now s.fresh,
          (assert_chain_net_iff prefix s.validated.chain_net c.network).1 s.network,
        )
        (validate_spv_proofs_complete btc sha256d c v confirmations s.validated.witness_txids proofs
          s.proven)

  -- On a valid chain, with pins that are right about it, the source is accepted exactly when there
  -- is a validated consignment of the chain's network, the tip's time is within two hours of now,
  -- and the proofs are for its witness transactions, one for each, none with more than 32
  -- siblings, each leading to the root of a stored header that has the required number of blocks
  -- from it to the tip.
  pub validate_source_chain_iff :
      (pins : ChainPins)
      → All (Holds c) pins
      → ((validate_source_chain btc sha256d prefix c consignment proofs now pins confirmations).1
          ≡ ok tt)
        ↔ IsSource btc sha256d prefix c consignment proofs now confirmations
  unfolding validate_source_chain
  validate_source_chain_iff pins holds = (
    λ h.
        elim (Result-cases
          (check_source_chain btc sha256d prefix c consignment proofs now confirmations)) [
            | inl (u, checked) ↦ check_source_chain_sound checked
            | inr (e, failed) ↦ absurd (err_ok (rw (failed, validate_source_chain) at h))
          ],
    λ s.
        rw (check_source_chain_complete s, validate_source_chain)
          (pin_all-included btc c v sha256d pins confirmations proofs holds s.proven.included).0,
  )
