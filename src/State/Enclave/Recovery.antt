-- ===== src/State/Enclave/Recovery.antt =====
-- KMS recovery, in one piece and with other calls between its sections.
use enclave_signer.Prelude.{ℕ, ◌+◌, ◌<◌, ◌≡◌, min, true, List, [], ◌∷◌, arith, ok, err, All}
use enclave_signer.Error.{EnclaveError, EnclaveResult}
use enclave_signer.State.Enclave.{
  Keys, initial, initializing, active, EnclaveState, begin_recovery, activate, recovery_timeout,
  initialize_from_persistence_until, initialize_from_mnemonic, initialize_from_seed,
  initialize_from_entropy, set_donor_cloning_secret, enter_cloning_at, complete_cloning,
}
use enclave_signer.State.Enclave.Phases.{
  Call, mnemonic, seed, entropy, begin, activation, release, donor_secret, enter, complete, apply,
  run,
}

module _ (k : Keys) where
  open k use {KeyManager}

  -- A recovery that nothing interrupts and that succeeds has started from `initial`, with a seed
  -- source set and before the deadline; the source has answered with keys, before the earlier of
  -- the deadline and the recovery timeout; and those keys are active, with nothing else changed.
  pub recovery-ok :
      (s : EnclaveState k) (deadline now : ℕ) (loaded : EnclaveResult KeyManager) (now' : ℕ)
      → (initialize_from_persistence_until k s deadline now loaded now').1 ≡ ok tt
      → (manager : KeyManager) × (s.inner ≡ initial)
        × (s.seed_source ≡ true)
        × (now < deadline)
        × (now' < min deadline (now + recovery_timeout))
        × (loaded ≡ ok manager)
        × ((initialize_from_persistence_until k s deadline now loaded now').0
            ≡ record s { inner = active manager })
  unfolding initialize_from_persistence_until
  recovery-ok s deadline now loaded now' h = ground arith

  -- A recovery that fails, at any of its sections, leaves the state as it was.
  pub recovery-err :
      (s : EnclaveState k) (deadline now : ℕ) (loaded : EnclaveResult KeyManager) (now' : ℕ)
      {e : EnclaveError}
      → (initialize_from_persistence_until k s deadline now loaded now').1 ≡ err e
      → (initialize_from_persistence_until k s deadline now loaded now').0 ≡ s
  unfolding initialize_from_persistence_until
  recovery-err s deadline now loaded now' h = ground arith

  -- The calls of other requests: all but the recovery's own activation and release.
  abbrev pub IsOther : Call k → Type 0
  IsOther (activation manager deadline now) = ⊥
  IsOther release = ⊥
  IsOther c = Unit

  reserved :
      (s : EnclaveState k) (c : Call k)
      → IsOther c
      → s.inner ≡ initializing
      → (apply k s c).inner ≡ initializing
  unfolding apply initialize_from_mnemonic initialize_from_seed initialize_from_entropy
      begin_recovery set_donor_cloning_secret enter_cloning_at complete_cloning
  reserved s release o h = absurd o
  reserved s (activation manager deadline now) o h = absurd o
  reserved s (mnemonic m) o h = ground arith
  reserved s (seed m) o h = ground arith
  reserved s (entropy m) o h = ground arith
  reserved s (begin deadline now) o h = ground arith
  reserved s (donor_secret secret) o h = ground arith
  reserved s (enter session now) o h = ground arith
  reserved s (complete f) o h = ground arith

  run_reserved :
      (s : EnclaveState k) (calls : List (Call k))
      → All IsOther calls
      → s.inner ≡ initializing
      → (run k s calls).inner ≡ initializing
  unfolding run
  run_reserved s [] o h = h
  run_reserved s (c ∷ calls) o h = run_reserved (apply k s c) calls o.1 (reserved s c o.0 h)

  begin-initializing :
      (s : EnclaveState k) (deadline now : ℕ)
      → (begin_recovery k s deadline now).1 ≡ ok tt
      → (begin_recovery k s deadline now).0.inner ≡ initializing
  unfolding begin_recovery
  begin-initializing s deadline now h = ground arith

  activate_initializing :
      (s : EnclaveState k) (manager : KeyManager) (deadline now : ℕ)
      → s.inner ≡ initializing
      → now < deadline
      → (activate k s manager deadline now).0.inner ≡ active manager
  unfolding activate
  activate_initializing s manager deadline now h early = ground arith

  -- Once a recovery holds the reservation, no calls of other requests take it away: keys that the
  -- source loads in time become active.
  pub recovery_interleaved :
      (s : EnclaveState k) (deadline now limit now' : ℕ) (manager : KeyManager)
      (calls : List (Call k))
      → (begin_recovery k s deadline now).1 ≡ ok tt
      → All IsOther calls
      → now' < limit
      → (activate k (run k (begin_recovery k s deadline now).0 calls) manager limit now').0.inner
        ≡ active manager
  recovery_interleaved s deadline now limit now' manager calls h others early =
      activate_initializing (run k (begin_recovery k s deadline now).0 calls) manager limit now'
        (run_reserved (begin_recovery k s deadline now).0 calls others
          (begin-initializing s deadline now h))
        early
