-- ===== src/State/Enclave/Strength.antt =====
-- What the check of a cloning credential guarantees.
use enclave_signer.Prelude.{
  ℕ, ◌+◌, ◌≤◌, ◌≡◌, ◌↔◌, refl, Bool, true, false, ◌&&◌, ◌||◌, not, [], ◌∷◌, length, arith, ◌==◌,
  if◌then◌else◌, ok, Bool-cases, inl, inr,
}
use enclave_signer.Prelude.Assoc.{member}
use enclave_signer.State.Enclave.{
  Secret, min_cloning_secret_bytes, min_cloning_secret_distinct_bytes, count_distinct,
  validate_cloning_secret,
}

-- How many different bytes there are: those that do not come again.
abbrev pub distinct_bytes : Secret → ℕ
distinct_bytes [] = 0
distinct_bytes (b ∷ bytes) = (if member b bytes then 0 else 1) + distinct_bytes bytes

-- The same, of the bytes that are not seen yet.
abbrev unseen : (ℕ → Bool) → Secret → ℕ
unseen seen [] = 0
unseen seen (b ∷ bytes) = (if member b bytes || seen b then 0 else 1) + unseen seen bytes

abbrev also : (ℕ → Bool) → ℕ → ℕ → Bool
also seen b c = if c == b then true else seen c

itself : (b : ℕ) → (b == b) ≡ true
itself b = ground arith

unseen-also :
    (seen : ℕ → Bool) (b : ℕ) (bytes : Secret)
    → unseen seen bytes
      ≡ unseen (also seen b) bytes + (if member b bytes && not (seen b) then 1 else 0)
unseen-also seen b [] = ground arith
unseen-also seen b (c ∷ bytes) = elim (Bool-cases (c == b)) [
  | inl e ↦
      let here : c ≡ b = ground arith in
      rw (here, itself b) (ground (arith, unseen-also seen b bytes))
  | inr e ↦ rw e (ground (arith, unseen-also seen b bytes))
]

count_distinct-unseen :
    (seen : ℕ → Bool) (n : ℕ) (bytes : Secret) → count_distinct seen n bytes ≡ n + unseen seen bytes
unfolding count_distinct
count_distinct-unseen seen n [] = omega arith
count_distinct-unseen seen n (b ∷ bytes) = ground (
  arith,
  count_distinct-unseen (also seen b) n bytes,
  count_distinct-unseen (also seen b) (n + 1) bytes,
  unseen-also seen b bytes,
)

unseen_none : (bytes : Secret) → unseen (λ _. false) bytes ≡ distinct_bytes bytes
unseen_none [] = refl
unseen_none (b ∷ bytes) = ground (arith, unseen_none bytes)

-- A credential passes exactly when it has at least 32 bytes, of which at least 8 are different.
pub validate_cloning_secret_iff :
    (bytes : Secret)
    → (validate_cloning_secret bytes ≡ ok tt) ↔ (
        (min_cloning_secret_bytes ≤ length bytes)
        × (min_cloning_secret_distinct_bytes ≤ distinct_bytes bytes))
unfolding validate_cloning_secret
validate_cloning_secret_iff bytes =
    let counted = count_distinct-unseen (λ _. false) 0 bytes in
    let same = unseen_none bytes in
    (λ h. ground (arith, counted, same), λ h. ground (arith, counted, same))
