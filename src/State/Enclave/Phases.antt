-- ===== src/State/Enclave/Phases.antt =====
-- The phase machine over sequences of calls.
use enclave_signer.Prelude.{
  ℕ, ◌≡◌, refl, Option, none, some, List, [], ◌∷◌, arith, ok, err, ◌⊎◌, ◌-◌, ◌<◌,
}
use enclave_signer.Error.{EnclaveError, EnclaveResult}
use enclave_signer.State.Enclave.{
  cloning_session_ttl, Keys, Secret, CloningSession, Phase, initial, initializing, cloning, active,
  EnclaveState, initialize_from_mnemonic, initialize_from_seed, initialize_from_entropy,
  begin_recovery, activate, drop_initialization, set_donor_cloning_secret, enter_cloning_at,
  complete_cloning,
}

abbrev pub error_of : {A : Type 0} → EnclaveResult A → Option EnclaveError
error_of (ok a) = none
error_of (err e) = some e

module _ (k : Keys) where
  open k use {KeyManager}

  -- Every method that changes the phase or the donor secret, with its arguments. A completion
  -- carries what its closure makes of the pending session.
  pub data Call : Type 0 where
    mnemonic seed entropy : List ℕ → Call
    begin : ℕ → ℕ → Call
    activation : KeyManager → ℕ → ℕ → Call
    release : Call
    donor_secret : Secret → Call
    enter : CloningSession k → ℕ → Call
    complete : (CloningSession k → EnclaveResult KeyManager) → Call

  unfoldable pub apply : EnclaveState k → Call → EnclaveState k
  apply s (mnemonic m) = (initialize_from_mnemonic k s m).0
  apply s (seed m) = (initialize_from_seed k s m).0
  apply s (entropy m) = (initialize_from_entropy k s m).0
  apply s (begin deadline now) = (begin_recovery k s deadline now).0
  apply s (activation manager deadline now) = (activate k s manager deadline now).0
  apply s release = drop_initialization k s
  apply s (donor_secret secret) = (set_donor_cloning_secret k s secret).0
  apply s (enter session now) = (enter_cloning_at k s session now).0
  apply s (complete f) = (complete_cloning k s f).0

  -- The error that a call answers with.
  unfoldable pub error : EnclaveState k → Call → Option EnclaveError
  error s (mnemonic m) = error_of (initialize_from_mnemonic k s m).1
  error s (seed m) = error_of (initialize_from_seed k s m).1
  error s (entropy m) = error_of (initialize_from_entropy k s m).1
  error s (begin deadline now) = error_of (begin_recovery k s deadline now).1
  error s (activation manager deadline now) = error_of (activate k s manager deadline now).1
  error s release = none
  error s (donor_secret secret) = error_of (set_donor_cloning_secret k s secret).1
  error s (enter session now) = error_of (enter_cloning_at k s session now).1
  error s (complete f) = error_of (complete_cloning k s f).1

  -- A call that answers with an error has changed nothing.
  pub error_unchanged :
      (s : EnclaveState k) (c : Call) {e : EnclaveError} → error s c ≡ some e → apply s c ≡ s
  unfolding apply error initialize_from_mnemonic initialize_from_seed initialize_from_entropy
      begin_recovery activate set_donor_cloning_secret enter_cloning_at complete_cloning
  error_unchanged s release h = cc
  error_unchanged s (mnemonic m) h = ground arith
  error_unchanged s (seed m) h = ground arith
  error_unchanged s (entropy m) h = ground arith
  error_unchanged s (begin deadline now) h = ground arith
  error_unchanged s (activation manager deadline now) h = ground arith
  error_unchanged s (donor_secret secret) h = ground arith
  error_unchanged s (enter session now) h = ground arith
  error_unchanged s (complete f) h = ground arith

  -- The transitions of the lifecycle. From `initial` every phase may come next; active keys stay.
  abbrev pub Allowed : Phase k → Phase k → Type 0
  Allowed initial next = Unit
  Allowed initializing (cloning session) = ⊥
  Allowed initializing next = Unit
  Allowed (cloning session) initial = ⊥
  Allowed (cloning session) initializing = ⊥
  Allowed (cloning session) next = Unit
  Allowed (active manager) next = next ≡ active manager

  active_kept :
      (s : EnclaveState k) (manager : KeyManager) (c : Call)
      → s.inner ≡ active manager
      → (apply s c).inner ≡ active manager
  unfolding apply initialize_from_mnemonic initialize_from_seed initialize_from_entropy
      begin_recovery activate drop_initialization set_donor_cloning_secret enter_cloning_at
      complete_cloning
  active_kept s manager release h = ground arith
  active_kept s manager (mnemonic m) h = ground arith
  active_kept s manager (seed m) h = ground arith
  active_kept s manager (entropy m) h = ground arith
  active_kept s manager (begin deadline now) h = ground arith
  active_kept s manager (activation other deadline now) h = ground arith
  active_kept s manager (donor_secret secret) h = ground arith
  active_kept s manager (enter session now) h = ground arith
  active_kept s manager (complete f) h = ground arith

  unfoldable pub run : EnclaveState k → List Call → EnclaveState k
  run s [] = s
  run s (c ∷ calls) = run (apply s c) calls

  -- Once keys are active, no sequence of calls replaces or removes them.
  pub run_active :
      (s : EnclaveState k) (manager : KeyManager) (calls : List Call)
      → s.inner ≡ active manager
      → (run s calls).inner ≡ active manager
  unfolding run
  run_active s manager [] h = h
  run_active s manager (c ∷ calls) h =
      run_active (apply s c) manager calls (active_kept s manager c h)

  allowed :
      (p : Phase k) (s : EnclaveState k) (c : Call)
      → Allowed p (apply (record s { inner = p }) c).inner
  unfolding apply initialize_from_mnemonic initialize_from_seed initialize_from_entropy
      begin_recovery activate drop_initialization set_donor_cloning_secret enter_cloning_at
      complete_cloning
  allowed initial s c = tt
  allowed (active manager) s c = active_kept (record s { inner = active manager }) manager c refl
  allowed initializing s release = ground arith
  allowed initializing s (mnemonic m) = ground arith
  allowed initializing s (seed m) = ground arith
  allowed initializing s (entropy m) = ground arith
  allowed initializing s (begin deadline now) = ground arith
  allowed initializing s (activation manager deadline now) = ground arith
  allowed initializing s (donor_secret secret) = ground arith
  allowed initializing s (enter session now) = ground arith
  allowed initializing s (complete f) = ground arith
  allowed (cloning pending) s release = ground arith
  allowed (cloning pending) s (mnemonic m) = ground arith
  allowed (cloning pending) s (seed m) = ground arith
  allowed (cloning pending) s (entropy m) = ground arith
  allowed (cloning pending) s (begin deadline now) = ground arith
  allowed (cloning pending) s (activation manager deadline now) = ground arith
  allowed (cloning pending) s (donor_secret secret) = ground arith
  allowed (cloning pending) s (enter session now) = ground arith
  allowed (cloning pending) s (complete f) = ground arith

  -- Every call moves the phase along the lifecycle: from `initializing` to no handshake, from a
  -- handshake to another or to active keys, and from active keys nowhere.
  pub apply-Allowed : (s : EnclaveState k) (c : Call) → Allowed s.inner (apply s c).inner
  apply-Allowed s c = allowed s.inner s c

  -- The time at which a call may replace a handshake, if it is an `enter_cloning`.
  abbrev pub IsEarly : CloningSession k → Call → Type 0
  IsEarly session (enter other now) = now - session.created_at < cloning_session_ttl
  IsEarly session c = Unit

  -- Until its time limit a pending handshake is not replaced: after any call it is still pending,
  -- or its completion has made keys active, with its own credential as the donor's.
  pub apply_pending :
      (s : EnclaveState k) (session : CloningSession k) (c : Call)
      → s.inner ≡ cloning session
      → IsEarly session c
      → ((apply s c).inner ≡ cloning session)
        ⊎ ((manager : KeyManager) × ((apply s c).inner ≡ active manager)
            × ((apply s c).donor_cloning_secret ≡ some (session.donor_cloning_secret)))
  unfolding apply initialize_from_mnemonic initialize_from_seed initialize_from_entropy
      begin_recovery activate drop_initialization set_donor_cloning_secret enter_cloning_at
      complete_cloning
  apply_pending s session release h early = ground arith
  apply_pending s session (mnemonic m) h early = ground arith
  apply_pending s session (seed m) h early = ground arith
  apply_pending s session (entropy m) h early = ground arith
  apply_pending s session (begin deadline now) h early = ground arith
  apply_pending s session (activation manager deadline now) h early = ground arith
  apply_pending s session (donor_secret secret) h early = ground arith
  apply_pending s session (enter other now) h early = ground arith
  apply_pending s session (complete f) h early = ground arith
