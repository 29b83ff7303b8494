-- ===== src/Tests/Phases.antt =====
-- The phase machine and the export quota at concrete inputs, with toy keys that are numbers.
use enclave_signer.Prelude.{
  ◌↔◌, length, ℕ, ◌+◌, ◌≤◌, ◌<◌, ◌≡◌, refl, ◌⊎◌, true, some, none, List, [], ◌∷◌, min, arith, ok,
  err,
}
use enclave_signer.Error.{EnclaveResult, not_ready, io}
use enclave_signer.State.Enclave.{
  Secret, validate_cloning_secret, Keys, CloningSession, initial, cloning, active, EnclaveState,
  recovery_timeout, complete_cloning, ensure_initial, begin_recovery, activate, drop_initialization,
  initialize_from_persistence_until,
}
use enclave_signer.State.Enclave.Phases.{
  begin, seed, enter, complete, apply, error, error_unchanged, Allowed, apply-Allowed, run,
  run_active, apply_pending,
}
use enclave_signer.State.Enclave.Recovery.{recovery-ok, recovery_interleaved}
use enclave_signer.State.Enclave.Strength.{distinct_bytes, validate_cloning_secret_iff}
use enclave_signer.State.Enclave.Quota.{ExportStep, exports, exports_capped}

abbrev pub toy : Keys
toy = record {
  BtcNetwork = ℕ;
  KeyManager = ℕ;
  Mnemonic = ℕ;
  CloneSession = ℕ;
  generate = λ entropy network. ok (1, 2);
  from_mnemonic = λ words network. ok 3;
  from_seed = λ bytes network. ok 4;
}

abbrev pub start : EnclaveState toy
start = record {
  inner = initial;
  network = 0;
  seed_source = true;
  donor_cloning_secret = none;
  seed_export_count = 0;
  seed_export_slots = 0;
  seed_export_soft_cap = 0;
  seed_export_hard_cap = 2;
}

abbrev handshake : CloningSession toy
handshake = record {
  session = 1;
  cluster_public_key = 2;
  donor_cloning_secret = 3 ∷ [];
  created_at = 100;
}

abbrev later : CloningSession toy
later = record handshake { created_at = 200 }

abbrev pending : EnclaveState toy
pending = record start { inner = cloning handshake }

abbrev ready : EnclaveState toy
ready = record start { inner = active 9 }

run_active_example :
    (run toy ready (seed (1 ∷ []) ∷ begin 50 10 ∷ enter later 900 ∷ [])).inner ≡ active 9
run_active_example =
    run_active toy ready 9 (seed (1 ∷ []) ∷ begin 50 10 ∷ enter later 900 ∷ []) refl

apply_pending_example :
    ((apply toy pending (enter later 200)).inner ≡ cloning handshake)
    ⊎ ((manager : ℕ) × ((apply toy pending (enter later 200)).inner ≡ active manager)
        × ((apply toy pending (enter later 200)).donor_cloning_secret ≡ some (3 ∷ [])))
apply_pending_example = apply_pending toy pending handshake (enter later 200) refl (omega arith)

apply-Allowed_example :
    Allowed toy (cloning handshake) (apply toy pending (complete (λ session. ok 5))).inner
apply-Allowed_example = apply-Allowed toy pending (complete (λ session. ok 5))

fails : error toy start (complete (λ session. ok 5)) ≡ some not_ready
unfolding error complete_cloning
fails = refl

error_unchanged_example : apply toy start (complete (λ session. ok 5)) ≡ start
error_unchanged_example = error_unchanged toy start (complete (λ session. ok 5)) fails

abbrev loaded : EnclaveResult ℕ
loaded = ok 6

recovers : (initialize_from_persistence_until toy start 40 10 loaded 20).1 ≡ ok tt
unfolding initialize_from_persistence_until begin_recovery ensure_initial activate
    drop_initialization
recovers = refl

recovery-ok_example :
    (manager : ℕ) × (start.inner ≡ initial)
    × (start.seed_source ≡ true)
    × (10 < 40)
    × (20 < min 40 (10 + recovery_timeout))
    × (loaded ≡ ok manager)
    × ((initialize_from_persistence_until toy start 40 10 loaded 20).0
        ≡ record start { inner = active manager })
recovery-ok_example = recovery-ok toy start 40 10 loaded 20 recovers

late : (initialize_from_persistence_until toy start 40 10 loaded 36).1 ≡ err io
unfolding initialize_from_persistence_until begin_recovery ensure_initial activate
    drop_initialization
late = refl

begins : (begin_recovery toy start 40 10).1 ≡ ok tt
unfolding begin_recovery ensure_initial
begins = refl

recovery_interleaved_example :
    (activate toy
      (run toy (begin_recovery toy start 40 10).0 (seed (1 ∷ []) ∷ enter later 12 ∷ []))
      6
      35
      20).0.inner
    ≡ active 6
recovery_interleaved_example =
    recovery_interleaved toy start 40 10 35 20 6 (seed (1 ∷ []) ∷ enter later 12 ∷ []) begins
      (tt, (tt, tt)) (omega arith)

abbrev steps : List (ExportStep toy)
steps =
    ExportStep.reserve ∷ ExportStep.reserve ∷ ExportStep.fail ∷ ExportStep.commit
    ∷ ExportStep.reserve ∷ ExportStep.reserve ∷ []

exports_capped_example :
    (exports toy start 0 steps).state.seed_export_count + (exports toy start 0 steps).held ≤ 2
exports_capped_example = exports_capped toy start steps (omega arith) (omega arith) refl refl

-- 32 bytes, of which eight are different.
abbrev credential : Secret
credential =
    1 ∷ 2 ∷ 3 ∷ 4 ∷ 5 ∷ 6 ∷ 7 ∷ 8 ∷ 1 ∷ 1 ∷ 1 ∷ 1 ∷ 1 ∷ 1 ∷ 1 ∷ 1 ∷ 1 ∷ 1 ∷ 1 ∷ 1 ∷ 1 ∷ 1 ∷ 1 ∷ 1
    ∷ 1 ∷ 1 ∷ 1 ∷ 1 ∷ 1 ∷ 1 ∷ 1 ∷ 1 ∷ []

validate_cloning_secret_iff_example :
    (validate_cloning_secret credential ≡ ok tt)
    ↔ ((32 ≤ length credential) × (8 ≤ distinct_bytes credential))
validate_cloning_secret_iff_example = validate_cloning_secret_iff credential
