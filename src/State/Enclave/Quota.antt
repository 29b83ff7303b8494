-- ===== src/State/Enclave/Quota.antt =====
-- The export quota under any sequence of reservations, commits and failures.
use enclave_signer.Prelude.{
  ℕ, zero, suc, ◌+◌, ◌≤◌, ◌<◌, ◌≡◌, refl, true, List, [], ◌∷◌, arith, ok, err,
}
use enclave_signer.Error.{EnclaveResult}
use enclave_signer.State.Enclave.{
  Keys, EnclaveState, ExportQuotaReservation, u64_mod, reserve_export_quota, commit_export,
  drop_export,
}

module _ (k : Keys) where
  -- The state, with the number of reservations that are held.
  pub record World : Type 0 where
    pub state : EnclaveState k
    pub held : ℕ

  pub data ExportStep : Type 0 where
    reserve commit fail : ExportStep

  abbrev held_after : EnclaveResult ExportQuotaReservation → ℕ → ℕ
  held_after (ok r) held = suc held
  held_after (err e) held = held

  abbrev taken : ExportQuotaReservation
  taken = record { reserved = true }

  -- A commit or a failure ends one of the reservations held; without one there is none to end.
  pub export : EnclaveState k → ℕ → ExportStep → World
  export s held reserve =
      let (s', r) = reserve_export_quota k s in record { state = s'; held = held_after r held }
  export s zero commit = record { state = s; held = zero }
  export s (suc held) commit = record { state = (commit_export k s taken).0; held = held }
  export s zero fail = record { state = s; held = zero }
  export s (suc held) fail = record { state = drop_export k s taken; held = held }

  pub exports : EnclaveState k → ℕ → List ExportStep → World
  exports s held [] = record { state = s; held = held }
  exports s held (e ∷ es) = let w = export s held e in exports w.state w.held es

  -- The slots are the exports done and those in progress, and they stay within a positive cap.
  record IsCounted (cap : ℕ) (w : World) : Type 0 where
    cap_is : w.state.seed_export_hard_cap ≡ cap
    slots : w.state.seed_export_slots ≡ w.state.seed_export_count + w.held
    within : w.state.seed_export_slots ≤ cap

  export-IsCounted :
      (cap : ℕ) (s : EnclaveState k) (held : ℕ) (e : ExportStep)
      → 0 < cap
      → cap < u64_mod
      → IsCounted cap (record { state = s; held = held })
      → IsCounted cap (export s held e)
  unfolding export reserve_export_quota commit_export drop_export
  export-IsCounted cap s held reserve pos small c = ground arith
  export-IsCounted cap s zero commit pos small c = c
  export-IsCounted cap s (suc held) commit pos small c = omega arith
  export-IsCounted cap s zero fail pos small c = c
  export-IsCounted cap s (suc held) fail pos small c = omega arith

  exports-IsCounted :
      (cap : ℕ) (s : EnclaveState k) (held : ℕ) (es : List ExportStep)
      → 0 < cap
      → cap < u64_mod
      → IsCounted cap (record { state = s; held = held })
      → IsCounted cap (exports s held es)
  unfolding exports
  exports-IsCounted cap s held [] pos small c = c
  exports-IsCounted cap s held (e ∷ es) pos small c =
      let w = export s held e in
      exports-IsCounted cap w.state w.held es pos small (export-IsCounted cap s held e pos small c)

  -- With a positive hard cap of 64 bits, no sequence of reservations, commits and failures from an
  -- enclave that has exported nothing completes more exports than the cap, and the exports done and
  -- in progress together stay within it.
  pub exports_capped :
      (s : EnclaveState k) (es : List ExportStep)
      → 0 < s.seed_export_hard_cap
      → s.seed_export_hard_cap < u64_mod
      → s.seed_export_count ≡ 0
      → s.seed_export_slots ≡ 0
      → (exports s 0 es).state.seed_export_count + (exports s 0 es).held ≤ s.seed_export_hard_cap
  exports_capped s es pos small none_done none_held =
      let c =
        exports-IsCounted s.seed_export_hard_cap s 0 es pos small
          (record { cap_is = refl; slots = omega arith; within = omega arith }) in
      omega (arith, c.slots, c.within)
