-- ===== src/Prelude/Hashes.antt =====
-- A hash as a function on byte strings, of which only collisions are known.
use mathlib.Core.Path.{◌≡◌}
use mathlib.Core.Logic.{◌≢◌, ◌⊎◌, inl, inr}
use enclave_signer.Prelude.ByteStrings.{Bytes, bytes_discrete}

module _ (hash : Bytes → Bytes) where
  -- Two different messages of one hash.
  abbrev pub Collision : Type 0
  Collision = (x : Bytes) × (y : Bytes) × (x ≢ y) × (hash x ≡ hash y)

  -- Messages of one hash are equal, or they are a collision.
  pub same_or_collision : (x y : Bytes) → hash x ≡ hash y → (x ≡ y) ⊎ Collision
  same_or_collision x y h = elim (bytes_discrete x y) [ yes e ↦ inl e | no n ↦ inr (x, y, n, h) ]

-- The next step, unless there is a collision by now.
pub onwards {ℓ} : {A B : Type ℓ} {C : Type 0} → A ⊎ C → (A → B ⊎ C) → B ⊎ C
onwards (inl a) f = f a
onwards (inr c) f = inr c
