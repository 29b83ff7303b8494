-- ===== src/Spv/Chain/Reads.antt =====
-- What the chain answers about a height.
use native.Mathlib.Decide.{dec_le}
use enclave_signer.Prelude.{
  ℕ, zero, suc, ◌+◌, ◌-◌, ◌≤◌, ◌<◌, min, ◌≡◌, ◌⊎◌, inl, inr, refl, ap, ◌∙◌, true, false, none, some,
  List, Option, ◌≢◌, length-map, [], ◌∷◌, map, length, get_elem?, arith, leb, ltb, ◌==◌,
}
use enclave_signer.Spv.Types.{Bitcoin, add32, sub32}
use enclave_signer.Spv.Chain.{HeaderChain, tip_height, header_at, hash_at, confirmations}
use enclave_signer.Spv.Chain.Links.{IsValid}
use enclave_signer.Spv.Chain.Passed.{tip_height_lem}

get_in {ℓ} :
    {A : Type ℓ} (xs : List A) (i : ℕ) → i < length xs → (x : A) × (get_elem? xs i ≡ some x)
get_in [] i h = absurd (omega arith)
get_in (x ∷ xs) zero h = (x, refl)
get_in (x ∷ xs) (suc i) h = get_in xs i (omega arith)

get_past {ℓ} : {A : Type ℓ} (xs : List A) (i : ℕ) → length xs ≤ i → get_elem? xs i ≡ none
get_past [] i h = refl
get_past (x ∷ xs) zero h = absurd (omega arith)
get_past (x ∷ xs) (suc i) h = get_past xs i (omega arith)

get_map :
    {A B : Type 0} (f : A → B) (xs : List A) (i : ℕ) {x : A}
    → get_elem? xs i ≡ some x
    → get_elem? (map f xs) i ≡ some (f x)
get_map f [] i h = cc
get_map f (x ∷ xs) zero h = ground arith
get_map f (x ∷ xs) (suc i) h = get_map f xs i h

none-some : {A : Type 0} {o : Option A} {a : A} → o ≡ none → o ≢ some a
none-some missing found = cc

pub confirmations_count :
    (tip height : ℕ)
    → height ≤ tip
    → tip < 4_294_967_295
    → add32 (sub32 tip height) 1 ≡ tip + 1 - height
unfolding add32 sub32
confirmations_count tip height below bound = omega arith

module _ {Header : Type 0} (c : HeaderChain Header) (height : ℕ) where
  header_at_above :
      c.base_height < height → header_at c height ≡ get_elem? c.headers (height - c.base_height - 1)
  unfolding header_at
  header_at_above above =
      let over : leb height c.base_height ≡ false = ground (arith, above) in rw over

  pub hash_at_above :
      c.base_height < height → hash_at c height ≡ get_elem? c.hashes (height - c.base_height - 1)
  unfolding hash_at
  hash_at_above above =
      let not_base : (height == c.base_height) ≡ false = ground (arith, above) in
      let not_below : ltb height c.base_height ≡ false = ground (arith, above) in
      rw (not_base, not_below)

  header_at_base : height ≤ c.base_height → header_at c height ≡ none
  unfolding header_at
  header_at_base low = let over : leb height c.base_height ≡ true = ground (arith, low) in rw over

  confirmations-some :
      (cap : ℕ) {h : Header}
      → header_at c height ≡ some h
      → confirmations c height cap ≡ min (add32 (sub32 (tip_height c) height) 1) cap
  unfolding confirmations
  confirmations-some cap found = ground arith

  confirmations-none : (cap : ℕ) → header_at c height ≡ none → confirmations c height cap ≡ 0
  unfolding confirmations
  confirmations-none cap missing = ground arith

module _ (btc : Bitcoin) (c : HeaderChain btc.Header) (v : IsValid btc c) (height cap : ℕ) where
  open btc use {Header, block_hash}

  -- The height is above the checkpoint and not above the tip.
  abbrev pub IsStored : Type 0
  IsStored = (c.base_height < height) × (height ≤ tip_height c)

  -- On a valid chain, a height above the checkpoint and up to the tip has a header, the hash kept
  -- for it is that header's, and it has one confirmation for itself and each block above it, up to
  -- the cap.
  pub confirmations_stored :
      IsStored
      → (h : Header) × (header_at c height ≡ some h)
        × (hash_at c height ≡ some (block_hash h))
        × (confirmations c height cap ≡ min (tip_height c + 1 - height) cap)
  confirmations_stored (above, below) =
      let tip = tip_height_lem btc c v in
      let index = height - c.base_height - 1 in
      let (h, found) = get_in c.headers index (omega (arith, tip)) in
      let header_is = header_at_above c height above ∙ found in
      let bound : tip_height c < 4_294_967_295 = omega (arith, tip, v.bounded, v.fits) in
      (
        h,
        header_is,
        hash_at_above c height above
            ∙ ap (λ hashes. get_elem? hashes index) v.cached
            ∙ get_map block_hash c.headers index found,
        confirmations-some c height cap header_is
            ∙ ap (λ n. min n cap) (confirmations_count (tip_height c) height below bound),
      )

  -- On a valid chain, any other height has no header and no confirmations.
  pub confirmations_missing :
      (height ≤ c.base_height) ⊎ (tip_height c < height)
      → (header_at c height ≡ none) × (confirmations c height cap ≡ 0)
  confirmations_missing outside =
      let missing = no_header outside in (missing, confirmations-none c height cap missing)
    where
      no_header : (height ≤ c.base_height) ⊎ (tip_height c < height) → header_at c height ≡ none
      no_header (inl low) = header_at_base c height low
      no_header (inr top) =
          let tip = tip_height_lem btc c v in
          header_at_above c height (omega (arith, tip, top))
          ∙ get_past c.headers (height - c.base_height - 1) (omega (arith, tip, top))

  -- A height with a header is stored.
  pub header_at-IsStored : {h : Header} → header_at c height ≡ some h → IsStored
  header_at-IsStored found = elim (dec_le height c.base_height) [
    | yes low ↦ absurd (none-some (confirmations_missing (inl low)).0 found)
    | no above ↦ elim (dec_le height (tip_height c)) [
      | yes below ↦ (omega arith, below)
      | no past ↦ absurd (none-some (confirmations_missing (inr (omega arith))).0 found)
    ]
  ]

  -- A height above the base with a hash is not above the tip.
  pub hash_at-below :
      {hash : ℕ} → c.base_height < height → hash_at c height ≡ some hash → height ≤ tip_height c
  hash_at-below above found = elim (dec_le height (tip_height c)) [
    | yes below ↦ below
    | no past ↦
        let tip = tip_height_lem btc c v in
        let size : length c.hashes ≡ length c.headers =
          ap length v.cached ∙ length-map block_hash c.headers in
        let missing =
          hash_at_above c height above
          ∙ get_past c.hashes (height - c.base_height - 1) (omega (arith, tip, size)) in
        absurd (none-some missing found)
  ]
