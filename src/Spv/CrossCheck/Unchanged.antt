-- ===== src/Spv/CrossCheck/Unchanged.antt =====
-- The second check of the pins, after other requests have submitted headers.
use enclave_signer.Prelude.{
  ℕ, ◌≡◌, ◌≢◌, ◌⊎◌, sym, subst, Option, some, List, All, ok, err, inl, inr, Result-cases, Bytes,
}
use enclave_signer.Error.{EnclaveError, EnclaveResult}
use enclave_signer.Spv.Types.{Bitcoin, ChainNet}
use enclave_signer.Spv.Chain.{HeaderChain}
use enclave_signer.Spv.Chain.Links.{IsValid}
use enclave_signer.Spv.CrossCheck.{
  ChainPins, MerkleProofEntry, ValidatedConsignment, pin_all, assert_unchanged, validate_spv_proofs,
  check_source_chain, validate_source_chain,
}
use enclave_signer.Spv.CrossCheck.Accept.{IsProven, validate_spv_proofs_complete}
use enclave_signer.Spv.CrossCheck.Recheck.{Holds, assert_unchanged-Holds}
use enclave_signer.Spv.CrossCheck.Source.{IsSource, check_source_chain_sound, pin_all-included}
use enclave_signer.Spv.CrossCheck.Later.{
  Submission, after_all, AllAbove, after_all-IsValid, base_height-after_all, after_all-above, fits,
  All-Holds,
}
use enclave_signer.Spv.CrossCheck.Again.{HeaderCollision, AllPinned, pin_all-pinned, All-again}

err_ok : {e : EnclaveError} → ◌≢◌ {A = EnclaveResult (Unit {0})} (err e) (ok tt)
err_ok h = cc

same_some : {A : Type 0} {a b : A} → some a ≡ some b → b ≡ a
same_some e = cc

module _ (btc : Bitcoin) where
  open btc use {Header, block_hash, merkle_root}

  module _ (sha256d : Bytes → Bytes) where
    module _ (prefix : ChainNet → Bytes) (c : HeaderChain Header) (v : IsValid btc c)
        (validated : ValidatedConsignment) (proofs : List MerkleProofEntry) (now : Option ℕ)
        (pins : ChainPins) (confirmations : ℕ) where
      source-IsProven :
          IsSource btc sha256d prefix c (some validated) proofs now confirmations
          → IsProven btc sha256d c validated.witness_txids proofs confirmations
      source-IsProven s =
          subst (λ w. IsProven btc sha256d c w.witness_txids proofs confirmations)
            (same_some s.is_some) s.proven

      accepted :
          (validate_source_chain btc sha256d prefix c
              (some validated)
              proofs
              now
              pins
              confirmations).1
            ≡ ok tt
          → IsSource btc sha256d prefix c (some validated) proofs now confirmations
            × ((pin_all pins c confirmations proofs).1 ≡ ok tt)
            × ((validate_source_chain btc sha256d prefix c
                  (some validated)
                  proofs
                  now
                  pins
                  confirmations).0
                ≡ (pin_all pins c confirmations proofs).0)
      unfolding validate_source_chain
      accepted h =
          elim (Result-cases
            (check_source_chain btc sha256d prefix c (some validated) proofs now confirmations)) [
              | inr (e, failed) ↦ absurd (err_ok (rw (failed, validate_source_chain) at h))
              | inl (u, checked) ↦
                  let source =
                    check_source_chain_sound btc sha256d prefix c v (some validated) proofs now
                      confirmations checked in
                  (
                    source,
                    rw (checked, validate_source_chain) at h,
                    rw (checked, validate_source_chain),
                  )
            ]

      -- The blocks of the proofs of an accepted source are pinned.
      pub validate_source_chain-AllPinned :
          (validate_source_chain btc sha256d prefix c
              (some validated)
              proofs
              now
              pins
              confirmations).1
            ≡ ok tt
          → AllPinned c
              (validate_source_chain btc sha256d prefix c
                (some validated)
                proofs
                now
                pins
                confirmations).0
              confirmations
              proofs
      validate_source_chain-AllPinned h =
          let (_, pinned, new_pins) = accepted h in
          subst (λ p. AllPinned c p confirmations proofs) (sym new_pins)
            (pin_all-pinned c pins confirmations proofs pinned)

      -- Pins that have the blocks of the proofs of an accepted source, and pass the second check on
      -- a later chain, keep the proofs valid.
      pub proofs_again :
          (submissions : List Submission) (later : ChainPins)
          → (validate_source_chain btc sha256d prefix c
              (some validated)
              proofs
              now
              pins
              confirmations).1
            ≡ ok tt
          → AllPinned c later confirmations proofs
          → assert_unchanged later (after_all btc c submissions) ≡ ok tt
          → (validate_spv_proofs btc sha256d
                (after_all btc c submissions)
                validated.witness_txids
                proofs
                confirmations
              ≡ ok tt)
            ⊎ HeaderCollision btc
      proofs_again submissions later h pinned unchanged =
          let d = after_all btc c submissions in
          let vd = after_all-IsValid btc c v submissions in
          let proven = source-IsProven (accepted h).0 in
          elim (All-again btc sha256d c d v vd (base_height-after_all btc c v submissions) later
            confirmations proofs unchanged proven.included pinned) [
              | inr clash ↦ inr clash
              | inl again ↦ inl (
                  validate_spv_proofs_complete btc sha256d d vd confirmations
                    validated.witness_txids proofs
                    (record {
                      bounded = proven.bounded;
                      once = proven.once;
                      covers = proven.covers;
                      included = again;
                    }))
            ]

      -- When the source of a release was accepted on a valid chain, and other requests then
      -- submitted any headers, the second check of the pins passes only on a chain on which the
      -- same proofs are valid for the same witness transactions with the same number of
      -- confirmations; or two headers have one hash and different Merkle roots.
      pub assert_unchanged-validate_source_chain :
          (submissions : List Submission)
          → (validate_source_chain btc sha256d prefix c
              (some validated)
              proofs
              now
              pins
              confirmations).1
            ≡ ok tt
          → assert_unchanged
              (validate_source_chain btc sha256d prefix c
                (some validated)
                proofs
                now
                pins
                confirmations).0
              (after_all btc c submissions)
            ≡ ok tt
          → (validate_spv_proofs btc sha256d
                (after_all btc c submissions)
                validated.witness_txids
                proofs
                confirmations
              ≡ ok tt)
            ⊎ HeaderCollision btc
      assert_unchanged-validate_source_chain submissions h unchanged =
          proofs_again submissions
            (validate_source_chain btc sha256d prefix c (some validated) proofs now pins
              confirmations).0
            h (validate_source_chain-AllPinned h) unchanged

      -- When the source of a release was accepted on a valid chain, with pins that were right about
      -- it, and the headers that other requests then submit only go above the tip, the second check
      -- of the pins passes.
      pub assert_unchanged_extension :
          All (Holds c) pins
          → (submissions : List Submission) → AllAbove btc c submissions
          → (validate_source_chain btc sha256d prefix c
              (some validated)
              proofs
              now
              pins
              confirmations).1
            ≡ ok tt
          → assert_unchanged
              (validate_source_chain btc sha256d prefix c
                (some validated)
                proofs
                now
                pins
                confirmations).0
              (after_all btc c submissions)
            ≡ ok tt
      assert_unchanged_extension holds submissions above h =
          let d = after_all btc c submissions in
          let vd = after_all-IsValid btc c v submissions in
          let (source, pinned, new_pins) = accepted h in
          let (added, longer) = after_all-above btc c v submissions above in
          let held =
            (pin_all-included btc c v sha256d pins confirmations proofs holds
              source.proven.included).1 in
          rw new_pins (
            assert_unchanged-Holds d (fits btc d vd) (pin_all pins c confirmations proofs).0 (
              All-Holds btc c d v vd added (base_height-after_all btc c v submissions) longer
                (pin_all pins c confirmations proofs).0 held))
