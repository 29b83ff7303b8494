-- ===== src/State/Enclave.antt =====
-- enclave/src/state/enclave.rs and cloning_session.rs, and the secret check of
-- enclave/src/cloning.rs: the phases of the enclave, the keys they guard and the export quota.
-- A method is one critical section of the phase lock; KMS recovery, which gives the lock up while
-- it waits, is the three sections that it consists of. Times are in seconds. Key derivation and
-- the handshake's key pair are parameters.
pub mod Phases
pub mod Recovery
pub mod Quota
pub mod Strength
use enclave_signer.Prelude.{
  ℕ, suc, ◌+◌, ◌-◌, ◌*◌, ◌%◌, ◌^◌, min, Bool, true, false, not, Option, none, some, List, [], ◌∷◌,
  length, ltb, leb, ◌==◌, if◌then◌else◌, ok, err, ◌>>=◌, ◌>>◌, refuse_if,
}
use enclave_signer.Error.{
  EnclaveResult, already_initialized, not_ready, invalid_request, io, key_not_initialized,
  export_cap_reached,
}

abbrev pub Secret : Type 0
Secret = List ℕ

abbrev pub min_cloning_secret_bytes : ℕ
min_cloning_secret_bytes = 32

abbrev pub min_cloning_secret_distinct_bytes : ℕ
min_cloning_secret_distinct_bytes = 8

-- The loop over the bytes, with the array of the bytes seen.
unfoldable pub count_distinct : (ℕ → Bool) → ℕ → Secret → ℕ
count_distinct seen distinct [] = distinct
count_distinct seen distinct (b ∷ bytes) =
    count_distinct (λ c. if c == b then true else seen c)
      (if seen b then distinct else distinct + 1) bytes

unfoldable pub validate_cloning_secret : Secret → EnclaveResult (Unit {0})
validate_cloning_secret bytes = do
  refuse_if (length bytes == 0) invalid_request
  refuse_if (ltb (length bytes) min_cloning_secret_bytes) invalid_request
  refuse_if (ltb (count_distinct (λ _. false) 0 bytes) min_cloning_secret_distinct_bytes)
      invalid_request

abbrev pub cloning_session_ttl : ℕ
cloning_session_ttl = 5 * 60

abbrev pub recovery_timeout : ℕ
recovery_timeout = 25

abbrev pub u64_mod : ℕ
u64_mod = 2 ^ 64

-- What the state uses of key derivation (`KeyManager`) and of the handshake.
pub record Keys : Type 1 where
  pub BtcNetwork : Type 0
  pub KeyManager : Type 0
  pub Mnemonic : Type 0
  pub CloneSession : Type 0
  pub generate : List ℕ → BtcNetwork → EnclaveResult (KeyManager × Mnemonic)
  pub from_mnemonic : List ℕ → BtcNetwork → EnclaveResult KeyManager
  pub from_seed : List ℕ → BtcNetwork → EnclaveResult KeyManager

pub record ExportQuotaReservation : Type 0 where
  pub reserved : Bool

module _ (k : Keys) where
  open k use {BtcNetwork, KeyManager, Mnemonic, CloneSession, generate, from_mnemonic, from_seed}

  pub record CloningSession : Type 0 where
    pub session : CloneSession
    pub cluster_public_key : ℕ
    pub donor_cloning_secret : Secret
    pub created_at : ℕ

  pub data Phase : Type 0 where
    initial initializing : Phase
    cloning : CloningSession → Phase
    active : KeyManager → Phase

  -- Without the replay guards, the result cache and the refill limit, which no method here touches.
  -- `seed_source` says whether a source is set.
  pub record EnclaveState : Type 0 where
    pub inner : Phase
    pub network : BtcNetwork
    pub seed_source : Bool
    pub donor_cloning_secret : Option Secret
    pub seed_export_count : ℕ
    pub seed_export_slots : ℕ
    pub seed_export_soft_cap : ℕ
    pub seed_export_hard_cap : ℕ

  -- `CloningSession::new_at`
  unfoldable pub new_session : CloneSession → ℕ → Secret → ℕ → EnclaveResult CloningSession
  new_session session cluster_public_key secret created_at = do
    validate_cloning_secret secret
    ok (record {
      session = session;
      cluster_public_key = cluster_public_key;
      donor_cloning_secret = secret;
      created_at = created_at;
    })

  unfoldable pub is_expired : CloningSession → ℕ → Bool
  is_expired s now = leb cloning_session_ttl (now - s.created_at)

  -- The caps are those of the environment, zero where it sets none.
  unfoldable pub new : BtcNetwork → ℕ → ℕ → EnclaveState
  new network soft_cap hard_cap = record {
    inner = initial;
    network = network;
    seed_source = false;
    donor_cloning_secret = none;
    seed_export_count = 0;
    seed_export_slots = 0;
    seed_export_soft_cap = soft_cap;
    seed_export_hard_cap = hard_cap;
  }

  -- The export quota.
  unfoldable pub reserve_export_quota :
      EnclaveState → EnclaveState × EnclaveResult ExportQuotaReservation
  reserve_export_quota s =
      let cap = s.seed_export_hard_cap in
      if ltb 0 cap
      then (if ltb s.seed_export_slots cap
          then (
            record s { seed_export_slots = s.seed_export_slots + 1 },
            ok (record { reserved = true }),
          )
          else (s, err (export_cap_reached s.seed_export_slots cap)))
      else (s, ok (record { reserved = false }))

  unfoldable pub record_seed_export : EnclaveState → EnclaveState × ℕ
  record_seed_export s = (
    record s { seed_export_count = (s.seed_export_count + 1) % u64_mod },
    (s.seed_export_count + 1) % u64_mod,
  )

  -- `Drop for ExportQuotaReservation`
  unfoldable pub drop_export : EnclaveState → ExportQuotaReservation → EnclaveState
  drop_export s r =
      if r.reserved
      then record s { seed_export_slots = (s.seed_export_slots + u64_mod - 1) % u64_mod }
      else s

  -- `commit`: the reservation is dropped with its slot kept.
  unfoldable pub commit_export : EnclaveState → ExportQuotaReservation → EnclaveState × ℕ
  unfolding record_seed_export drop_export
  commit_export s r =
      let r' : ExportQuotaReservation = record { reserved = false } in
      let (s', count) = record_seed_export s in (drop_export s' r', count)

  unfoldable pub ensure_initial : Phase → EnclaveResult (Unit {0})
  ensure_initial initial = ok tt
  ensure_initial initializing = err not_ready
  ensure_initial _ = err already_initialized

  -- The end of the three initialisers: the derived keys become active, an error changes nothing.
  abbrev install : EnclaveState → EnclaveResult KeyManager → EnclaveState × EnclaveResult (Unit {0})
  install s (ok manager) = (record s { inner = active manager }, ok tt)
  install s (err e) = (s, err e)

  unfoldable pub initialize_from_mnemonic :
      EnclaveState → List ℕ → EnclaveState × EnclaveResult (Unit {0})
  unfolding ensure_initial
  initialize_from_mnemonic s mnemonic =
      install s (do ensure_initial s.inner; from_mnemonic mnemonic s.network)

  unfoldable pub initialize_from_seed :
      EnclaveState → List ℕ → EnclaveState × EnclaveResult (Unit {0})
  unfolding ensure_initial
  initialize_from_seed s seed = install s (do ensure_initial s.inner; from_seed seed s.network)

  abbrev install_generated :
      EnclaveState → EnclaveResult (KeyManager × Mnemonic) → EnclaveState × EnclaveResult Mnemonic
  install_generated s (ok (manager, mnemonic)) = (record s { inner = active manager }, ok mnemonic)
  install_generated s (err e) = (s, err e)

  unfoldable pub initialize_from_entropy :
      EnclaveState → List ℕ → EnclaveState × EnclaveResult Mnemonic
  unfolding ensure_initial
  initialize_from_entropy s entropy =
      install_generated s (do ensure_initial s.inner; generate entropy s.network)

  -- KMS recovery: the checks and the reservation of the phase.
  abbrev reserve : EnclaveState → EnclaveResult (Unit {0}) → EnclaveState × EnclaveResult (Unit {0})
  reserve s (ok u) = (record s { inner = initializing }, ok tt)
  reserve s (err e) = (s, err e)

  unfoldable pub begin_recovery : EnclaveState → ℕ → ℕ → EnclaveState × EnclaveResult (Unit {0})
  unfolding ensure_initial
  begin_recovery s deadline now = reserve s (do
    refuse_if (min deadline (now + recovery_timeout) - now == 0) io
    refuse_if (not s.seed_source) invalid_request
    ensure_initial s.inner)

  -- The activation, at the time when the keys are loaded.
  unfoldable pub activate :
      EnclaveState → KeyManager → ℕ → ℕ → EnclaveState × EnclaveResult (Unit {0})
  activate s manager deadline now = if deadline - now == 0 then (s, err io) else elim s.inner [
    | initializing ↦ (record s { inner = active manager }, ok tt)
    | _ ↦ (s, err not_ready)
  ]

  -- `Drop for SeedInitialization`
  unfoldable pub drop_initialization : EnclaveState → EnclaveState
  drop_initialization s = elim s.inner [ initializing ↦ record s { inner = initial } | _ ↦ s ]

  abbrev finish :
      EnclaveState → EnclaveResult KeyManager → ℕ → ℕ → EnclaveState × EnclaveResult (Unit {0})
  finish s (err e) deadline now = (s, err e)
  finish s (ok manager) deadline now = activate s manager deadline now

  abbrev after_begin :
      EnclaveState × EnclaveResult (Unit {0})
      → EnclaveResult KeyManager
      → ℕ
      → ℕ
      → EnclaveState × EnclaveResult (Unit {0})
  after_begin (s, err e) loaded deadline now = (s, err e)
  after_begin (s, ok u) loaded deadline now =
      let done = finish s loaded deadline now in (drop_initialization done.0, done.1)

  -- `initialize_from_persistence_until` when no other request comes between its sections; `loaded`
  -- is what the source answers, and `now'` the time when it does.
  unfoldable pub initialize_from_persistence_until :
      EnclaveState → ℕ → ℕ → EnclaveResult KeyManager → ℕ → EnclaveState × EnclaveResult (Unit {0})
  unfolding begin_recovery activate drop_initialization
  initialize_from_persistence_until s deadline now loaded now' =
      after_begin (begin_recovery s deadline now) loaded (min deadline (now + recovery_timeout))
        now'

  unfoldable pub set_donor_cloning_secret :
      EnclaveState → Secret → EnclaveState × EnclaveResult (Unit {0})
  set_donor_cloning_secret s secret = elim (validate_cloning_secret secret) [
    | ok _ ↦ (record s { donor_cloning_secret = some secret }, ok tt)
    | err e ↦ (s, err e)
  ]

  -- The guard of `enter_cloning_at`.
  unfoldable pub may_enter : Phase → ℕ → Bool
  unfolding is_expired
  may_enter initial now = true
  may_enter (cloning existing) now = is_expired existing now
  may_enter _ now = false

  unfoldable pub enter_cloning_at :
      EnclaveState → CloningSession → ℕ → EnclaveState × EnclaveResult (Unit {0})
  unfolding may_enter
  enter_cloning_at s session now =
      if may_enter s.inner now
      then (record s { inner = cloning session }, ok tt)
      else (s, err already_initialized)

  abbrev complete :
      EnclaveState
      → CloningSession
      → EnclaveResult KeyManager
      → EnclaveState × EnclaveResult (Unit {0})
  complete s session (err e) = (s, err e)
  complete s session (ok manager) = (
    record s { inner = active manager; donor_cloning_secret = some (session.donor_cloning_secret) },
    ok tt,
  )

  unfoldable pub complete_cloning :
      EnclaveState
      → (CloningSession → EnclaveResult KeyManager)
      → EnclaveState × EnclaveResult (Unit {0})
  complete_cloning s f = elim s.inner [
    | cloning session ↦ complete s session (f session)
    | _ ↦ (s, err not_ready)
  ]

  -- Every signing and key request runs on the active keys.
  unfoldable pub with_active :
      {T : Type 0} → EnclaveState → (KeyManager → EnclaveResult T) → EnclaveResult T
  with_active s f = elim s.inner [ active manager ↦ f manager | _ ↦ err key_not_initialized ]
