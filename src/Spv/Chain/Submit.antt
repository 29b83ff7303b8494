-- ===== src/Spv/Chain/Submit.antt =====
-- The theorems of `submit_headers`.
use native.Mathlib.Decide.{dec_lt}
use mathlib.Core.List.{append-nil}
use enclave_signer.Prelude.{
  ℕ, suc, ◌+◌, ◌^◌, ◌-◌, ◌%◌, ◌≤◌, ◌<◌, ◌≡◌, ◌∙◌, inl, inr, ◌⊎◌, some, List, [], ◌∷◌, ◌++◌, map,
  length, arith, ok, err, Result-cases, get_elem?,
}
use enclave_signer.Spv.Types.{Bitcoin, SpvError, u32_mod}
use enclave_signer.Spv.Chain.{
  HeaderChain, SubmitOutcome, Staged, tip_height, tip_hash, header_at, check_batch, commit,
  conclude, submit_headers, max_headers_per_submit, max_reorg_depth,
}
use enclave_signer.Spv.Chain.Links.{IsValid}
use enclave_signer.Spv.Chain.Passed.{tip_height_lem, next_height_lem, depth, check_batch-Passed}
use enclave_signer.Spv.Chain.Commit.{
  total_work, commit-IsValid, header_at-commit_below, header_at-commit_batch, total_work-commit,
  headers-commit_extension, tip_height-commit, length_staged,
}

module _ (btc : Bitcoin) (c : HeaderChain btc.Header) where
  open btc use {Header, deserialize}

  abbrev pub after : ℕ → List (List ℕ) → ℕ → HeaderChain Header
  after start raws now = (submit_headers btc c start raws now).0

  -- A call writes nothing, or commits a batch that passed the checks.
  abbrev Effect : ℕ → List (List ℕ) → ℕ → Type 0
  Effect start raws now =
      (after start raws now ≡ c)
      ⊎ ((staged : Staged btc) × (check_batch btc c start raws now ≡ ok staged)
          × (after start raws now ≡ commit btc c start staged))

  refused :
      (start : ℕ) (raws : List (List ℕ)) (now : ℕ) {e : SpvError}
      → check_batch btc c start raws now ≡ err e
      → after start raws now ≡ c
  unfolding submit_headers conclude
  refused start [] now h = ground arith
  refused start (raw ∷ raws) now h = ground arith

  accepted :
      (start : ℕ) (raw : List ℕ) (raws : List (List ℕ)) (now : ℕ) {staged : Staged btc}
      → check_batch btc c start (raw ∷ raws) now ≡ ok staged
      → (after start (raw ∷ raws) now ≡ c)
        ⊎ (after start (raw ∷ raws) now ≡ commit btc c start staged)
  unfolding submit_headers conclude
  accepted start raw raws now h = ground arith

  effect : (start : ℕ) (raws : List (List ℕ)) (now : ℕ) → Effect start raws now
  unfolding submit_headers conclude
  effect start [] now = inl (ground arith)
  effect start (raw ∷ raws) now = elim (Result-cases (check_batch btc c start (raw ∷ raws) now)) [
    | inl (staged, passed) ↦ elim (accepted start raw raws now passed) [
      | inl same ↦ inl same
      | inr written ↦ inr (staged, passed, written)
    ]
    | inr (e, failed) ↦ inl (refused start (raw ∷ raws) now failed)
  ]

  -- An accepted call with a batch has committed it, and reports on the new chain.
  outcome :
      (start : ℕ) (raw : List ℕ) (raws : List (List ℕ)) (now : ℕ) {out : SubmitOutcome}
      → (submit_headers btc c start (raw ∷ raws) now).1 ≡ ok out
      → (staged : Staged btc) × (check_batch btc c start (raw ∷ raws) now ≡ ok staged)
        × (after start (raw ∷ raws) now ≡ commit btc c start staged)
        × (out ≡ record {
          last_block_height = tip_height (after start (raw ∷ raws) now);
          last_block_hash = tip_hash (after start (raw ∷ raws) now);
          headers_accepted = length staged % u32_mod;
          reorg_depth = depth btc c start;
        })
        × (suc (length raws) ≤ max_headers_per_submit)
  unfolding submit_headers conclude
  outcome start raw raws now h = ground arith

  module _ (v : IsValid btc c) (start : ℕ) (raws : List (List ℕ)) (now : ℕ) where
    -- Every call keeps a valid chain valid: its cached hashes are those of its headers, each
    -- header links to the one below it and the first to the checkpoint, on a network that
    -- enforces it each header has its proof of work, and the retention cap is kept.
    pub submit_headers-IsValid : IsValid btc (submit_headers btc c start raws now).0
    submit_headers-IsValid = elim (effect start raws now) [
      | inl same ↦ rw same v
      | inr (staged, passed, written) ↦
          rw written
            (commit-IsValid btc c start raws v (check_batch-Passed btc c start raws now v passed))
    ]

    pub base_height-submit_headers : (after start raws now).base_height ≡ c.base_height
    unfolding commit
    base_height-submit_headers = elim (effect start raws now) [
      | inl same ↦ rw same
      | inr (staged, passed, written) ↦ rw written
    ]

    -- A batch that starts above the tip displaces nothing.
    pub submit_headers_above :
        tip_height c < start
        → (added : List Header) × ((after start raws now).headers ≡ c.headers ++ added)
    submit_headers_above above = elim (effect start raws now) [
      | inl same ↦ ([], rw (same, append-nil))
      | inr (staged, passed, written) ↦
          let p = check_batch-Passed btc c start raws now v passed in
          let next = next_height_lem btc c v in
          let tip = tip_height_lem btc c v in
          (
            map (λ e. e.0) staged,
            rw written (headers-commit_extension btc c start raws v p (omega (arith, next, tip))),
          )
    ]

    -- On a valid chain no call changes a header that is at least `max_reorg_depth` (100) blocks
    -- below the tip.
    pub submit_headers_final :
        (height : ℕ)
        → height + max_reorg_depth ≤ tip_height c
        → header_at (submit_headers btc c start raws now).0 height ≡ header_at c height
    submit_headers_final height deep = elim (effect start raws now) [
      | inl same ↦ rw same
      | inr (staged, passed, written) ↦
          let p = check_batch-Passed btc c start raws now v passed in
          rw written (
            header_at-commit_below btc c start raws v p height
              (omega (arith, p.shallow, next_height_lem btc c v, tip_height_lem btc c v)))
    ]

    -- On a valid chain a call only appends to the stored headers, or it leaves headers whose total
    -- work is strictly greater than before, unless the total work of the one or the other headers
    -- is 2 ^ 256 or more, so that the 256 bits of `Work` are not enough for it.
    pub submit_headers_work :
        (((added : List Header) × ((submit_headers btc c start raws now).0.headers
              ≡ c.headers ++ added))
          ⊎ (total_work btc c.headers
              < total_work btc (submit_headers btc c start raws now).0.headers))
        ⊎ ((2 ^ 256 ≤ total_work btc c.headers)
            ⊎ (2 ^ 256 ≤ total_work btc (submit_headers btc c start raws now).0.headers))
    submit_headers_work = elim (effect start raws now) [
      | inl same ↦ inl (inl ([], rw (same, append-nil)))
      | inr (staged, passed, written) ↦
          let p = check_batch-Passed btc c start raws now v passed in
          let later = total_work btc (commit btc c start staged).headers in
          elim (dec_lt 0 (depth btc c start)) [
            | no plain ↦ inl (
                inl (
                  map (λ e. e.0) staged,
                  rw written (headers-commit_extension btc c start raws v p (omega arith)),
                ))
            | yes reorg ↦ elim (dec_lt (total_work btc c.headers) (2 ^ 256)) [
              | no wide ↦ inr (inl (omega (arith, wide)))
              | yes small ↦ elim (dec_lt later (2 ^ 256)) [
                | no wide ↦ inr (inr (rw written (omega (arith, wide))))
                | yes small' ↦
                    inl
                      (inr (rw written (total_work-commit btc c start raws v p reorg small small')))
              ]
            ]
          ]
    ]

  -- On a valid chain, an accepted batch that is not empty becomes the chain from `start_height` on:
  -- every header below it is as before, the header at `start_height + i` is the parse of the i-th
  -- of the batch, the tip is the last of the batch, and the outcome reports that tip, the length of
  -- the batch and how many headers it displaced.
  pub submit_headers-ok :
      IsValid btc c
      → (start : ℕ) (raws : List (List ℕ)) (now : ℕ) {out : SubmitOutcome} → 0 < length raws
      → (submit_headers btc c start raws now).1 ≡ ok out
      → ((height : ℕ)
          → height < start
          → header_at (submit_headers btc c start raws now).0 height ≡ header_at c height)
        × ((i : ℕ)
            → i < length raws
            → get_elem? (map deserialize raws) i
              ≡ some (header_at (submit_headers btc c start raws now).0 (start + i)))
        × (tip_height (submit_headers btc c start raws now).0 + 1 ≡ start + length raws)
        × (out ≡ record {
          last_block_height = tip_height (submit_headers btc c start raws now).0;
          last_block_hash = tip_hash (submit_headers btc c start raws now).0;
          headers_accepted = length raws;
          reorg_depth = tip_height c + 1 - start;
        })
  submit_headers-ok v start [] now some_raws h = elim some_raws [ ]
  submit_headers-ok v start (raw ∷ raws) now some_raws h =
      let (staged, passed, written, reported, small) = outcome start raw raws now h in
      let p = check_batch-Passed btc c start (raw ∷ raws) now v passed in
      let next = next_height_lem btc c v in
      let same_length = length_staged btc c start (raw ∷ raws) v p in
      let fits : length staged % u32_mod ≡ suc (length raws) = omega (arith, same_length, small) in
      let displaced : depth btc c start ≡ tip_height c + 1 - start =
        omega (arith, next, tip_height_lem btc c v) in
      (
        λ height below.
            rw written (header_at-commit_below btc c start (raw ∷ raws) v p height below),
        λ i below. rw written (header_at-commit_batch btc c start (raw ∷ raws) v p i below),
        rw written (tip_height-commit btc c start (raw ∷ raws) v p),
        reported ∙ (λ i. record {
          last_block_height = tip_height (after start (raw ∷ raws) now);
          last_block_hash = tip_hash (after start (raw ∷ raws) now);
          headers_accepted = fits i;
          reorg_depth = displaced i;
        }),
      )
