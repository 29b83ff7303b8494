-- ===== src/State/RefillRate.antt =====
-- enclave/src/state/refill_rate.rs: the sliding one-hour window of admitted rights refills, in
-- seconds. A call is one critical section of the lock.
pub mod Window
use enclave_signer.Prelude.{
  ℕ, ◌+◌, ◌-◌, ◌*◌, List, [], ◌∷◌, ◌++◌, length, leb, if◌then◌else◌, ok, err,
}
use enclave_signer.Error.{EnclaveResult, cross_check}

abbrev pub max_refills_per_hour : ℕ
max_refills_per_hour = 12

abbrev pub window : ℕ
window = 60 * 60

-- The instants admitted, oldest first.
pub record RefillRateLimit : Type 0 where
  pub admitted : List ℕ

-- The loop that pops the front while it is out of the window.
unfoldable pub prune : ℕ → List ℕ → List ℕ
prune now [] = []
prune now (t ∷ admitted) =
    let rest = prune now admitted in if leb window (now - t) then rest else t ∷ admitted

unfoldable pub admit : RefillRateLimit → ℕ → RefillRateLimit × EnclaveResult (Unit {0})
unfolding prune
admit limit now =
    let admitted = prune now limit.admitted in
    if leb max_refills_per_hour (length admitted)
    then (record { admitted = admitted }, err cross_check)
    else (record { admitted = admitted ++ now ∷ [] }, ok tt)
