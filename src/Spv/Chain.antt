-- ===== src/Spv/Chain.antt =====
-- enclave/src/networks/rgb/spv/chain.rs: the header chain above a checkpoint, and the submission
-- of a batch of headers. The proofs are in the modules below.
pub mod Links
pub mod Stage
pub mod Passed
pub mod Commit
pub mod Submit
pub mod Reads
use enclave_signer.Prelude.{
  ℕ, zero, suc, ◌+◌, ◌^◌, ◌-◌, ◌%◌, min, Bool, true, false, Option, none, some, List, [], ◌∷◌, ◌++◌,
  map, length, get_elem?, last?, take, drop, ltb, leb, ◌==◌, if◌then◌else◌, ok, err, ◌>>=◌, ◌>>◌,
  refuse_if, ok_or,
}
use enclave_signer.Spv.Types.{
  Network, Bitcoin, u32_mod, add32, sub32, enforces_pow, allows_min_difficulty, SpvResult,
  header_parse, non_contiguous, below_checkpoint, reorg_too_deep, weaker_chain, batch_too_large,
  chain_too_long, header_not_found,
}
use enclave_signer.Spv.Validation.{
  retarget_interval, median_time_span, is_retarget_height, BitsInput, median_time_past,
  expected_bits, validate_header_full,
}

abbrev pub max_reorg_depth : ℕ
max_reorg_depth = 100

abbrev pub max_stored_headers_default : ℕ
max_stored_headers_default = 1_000_000

abbrev pub max_headers_per_submit : ℕ
max_headers_per_submit = 10_000

pub record Checkpoint : Type 0 where
  pub height : ℕ
  pub hash : ℕ
  pub bits : ℕ
  pub time : ℕ
  pub is_real : Bool
  pub chain_work : Option ℕ

pub record SubmitOutcome : Type 0 where
  pub last_block_height : ℕ
  pub last_block_hash : ℕ
  pub headers_accepted : ℕ
  pub reorg_depth : ℕ

pub record HeaderChain (Header : Type 0) : Type 0 where
  pub network : Network
  pub checkpoint : Checkpoint
  pub base_height : ℕ
  pub base_hash : ℕ
  pub base_bits : ℕ
  pub base_time : ℕ
  pub headers : List Header
  pub hashes : List ℕ
  pub max_stored_headers : ℕ

-- `height.checked_sub(first)`
abbrev pub checked_sub : ℕ → ℕ → Option ℕ
checked_sub a b = if ltb a b then none else some (a - b)

abbrev is_nil : List (List ℕ) → Bool
is_nil [] = true
is_nil (x ∷ xs) = false

module _ {Header : Type 0} where
  unfoldable pub new : Network → Checkpoint → HeaderChain Header
  new network checkpoint = record {
    network = network;
    checkpoint = checkpoint;
    base_height = checkpoint.height;
    base_hash = checkpoint.hash;
    base_bits = checkpoint.bits;
    base_time = checkpoint.time;
    headers = [];
    hashes = [];
    max_stored_headers = max_stored_headers_default;
  }

  unfoldable pub tip_height : HeaderChain Header → ℕ
  unfolding add32
  tip_height c = add32 c.base_height (length c.headers % u32_mod)

  unfoldable pub tip_hash : HeaderChain Header → ℕ
  tip_hash c = elim (last? c.hashes) [ some last ↦ last | none ↦ c.checkpoint.hash ]

  unfoldable pub header_at : HeaderChain Header → ℕ → Option Header
  header_at c height =
      if leb height c.base_height then none else get_elem? c.headers (height - c.base_height - 1)

  unfoldable pub hash_at : HeaderChain Header → ℕ → Option ℕ
  hash_at c height =
      if height == c.base_height
      then some c.base_hash
      else if ltb height c.base_height
      then none
      else get_elem? c.hashes (height - c.base_height - 1)

  unfoldable pub confirmations : HeaderChain Header → ℕ → ℕ → ℕ
  unfolding add32 sub32
  confirmations c height cap = elim (header_at c height) [
    | none ↦ 0
    | some _ ↦ min (add32 (sub32 (tip_height c) height) 1) cap
  ]

module _ (btc : Bitcoin) where
  open btc use {Header, deserialize, time, bits, block_hash, work}

  unfoldable pub tip_time : HeaderChain Header → ℕ
  tip_time c = elim (last? c.headers) [ some last ↦ time last | none ↦ c.checkpoint.time ]

  abbrev pub Staged : Type 0
  Staged = List (Header × ℕ)

  -- `staged.get(i).map(|(h, _)| h)`, on an index that may be missing
  abbrev staged_at : Option ℕ → Staged → Option Header
  staged_at none staged = none
  staged_at (some i) staged = get_elem? (map (λ e. e.0) staged) i

  abbrev or_else : Option Header → Option Header → Option Header
  or_else none o = o
  or_else (some h) o = some h

  -- `(time, bits)` of the block at `height`: the staged batch, then the chain, then the checkpoint.
  unfoldable pub block_at : HeaderChain Header → ℕ → ℕ → Staged → SpvResult (ℕ × ℕ)
  block_at c height batch_start_height staged =
      elim (or_else (staged_at (checked_sub height batch_start_height) staged)
        (header_at c height)) [
          | some h ↦ ok (time h, bits h)
          | none ↦
              if height == c.base_height
              then ok (c.base_time, c.base_bits)
              else err (header_not_found height)
        ]

  -- The loop `for h in first..height`, over the blocks that are left.
  unfoldable pub times_from : HeaderChain Header → ℕ → ℕ → ℕ → Staged → SpvResult (List ℕ)
  times_from c zero h batch_start_height staged = ok []
  times_from c (suc count) h batch_start_height staged = do
    block ← block_at c h batch_start_height staged
    rest ← times_from c count (h + 1) batch_start_height staged
    ok (block.0 ∷ rest)

  unfoldable pub median_time_past_below : HeaderChain Header → ℕ → ℕ → Staged → SpvResult (Option ℕ)
  median_time_past_below c height batch_start_height staged =
      let first = height - median_time_span in
      if ltb first c.base_height then ok none else (do
        times ← times_from c (height - first) first batch_start_height staged
        ok (some (median_time_past times)))

  unfoldable pub bits_input : HeaderChain Header → ℕ → ℕ → ℕ × ℕ → ℕ → Staged → SpvResult BitsInput
  bits_input c height header_time (prev_bits, prev_time) batch_start_height staged =
      let input : BitsInput = record {
        height = height;
        header_time = header_time;
        prev_bits = prev_bits;
        prev_time = prev_time;
        period_bits = 0;
        epoch_first_bits = 0;
        epoch_first_time = 0;
      } in
      if is_retarget_height height
      then (do
        first ← ok_or (checked_sub height retarget_interval) (header_not_found 0)
        block ← block_at c first batch_start_height staged
        ok (record input { epoch_first_time = block.0; epoch_first_bits = block.1 }))
      else if allows_min_difficulty btc c.network
      then (do
        block ← block_at c (height - height % retarget_interval) batch_start_height staged
        ok (record input { period_bits = block.1 }))
      else ok input

  -- The `expected_bits_value` of the loop.
  unfoldable pub required_bits :
      HeaderChain Header → ℕ → ℕ → ℕ × ℕ → ℕ → Staged → SpvResult (Option ℕ)
  required_bits c height header_time prev batch_start_height staged =
      if enforces_pow c.network
      then (do
        input ← bits_input c height header_time prev batch_start_height staged
        ok (expected_bits btc input c.network))
      else ok none

  -- Hash, bits and time of the block below the header at hand.
  unfoldable pub previous : ℕ × ℕ × ℕ → Staged → ℕ × ℕ × ℕ
  previous pred staged = elim (last? staged) [
    | some (prev, prev_hash) ↦ (prev_hash, bits prev, time prev)
    | none ↦ pred
  ]

  -- The loop over the raw headers; `i` counts the headers before the one at hand.
  unfoldable pub stage :
      HeaderChain Header → ℕ → ℕ × ℕ × ℕ → ℕ → ℕ → Staged → List (List ℕ) → SpvResult Staged
  stage c start_height pred now_unix i staged [] = ok staged
  stage c start_height pred now_unix i staged (raw ∷ rest) = do
    header ← ok_or (deserialize raw) (header_parse i)
    let height = add32 start_height (i % u32_mod)
    let prev = previous pred staged
    expected ← required_bits c height (time header) (prev.1, prev.2) start_height staged
    median ← median_time_past_below c height start_height staged
    validate_header_full btc header height (record { hash = prev.0; time = prev.2 }) median expected
        c.network now_unix
    stage c start_height pred now_unix (i + 1) (staged ++ (header, block_hash header) ∷ []) rest

  unfoldable pub predecessor : HeaderChain Header → ℕ → SpvResult (ℕ × ℕ × ℕ)
  predecessor c pred_height =
      if pred_height == c.base_height then ok (c.base_hash, c.base_bits, c.base_time) else (do
        h ← ok_or (header_at c pred_height) (header_not_found pred_height)
        hash ← ok_or (hash_at c pred_height) (header_not_found pred_height)
        ok (hash, bits h, time h))

  -- `Work` has 256 bits, and its sum wraps.
  abbrev pub add_work : ℕ → ℕ → ℕ
  add_work a b = (a + b) % 2 ^ 256

  -- `sum_work` folds from the first header; `none` for no header at all.
  unfoldable pub sum_from : ℕ → List Header → ℕ
  sum_from acc [] = acc
  sum_from acc (h ∷ hs) = sum_from (add_work acc (work h)) hs

  unfoldable pub sum_work : List Header → Option ℕ
  unfolding sum_from
  sum_work [] = none
  sum_work (h ∷ hs) = some (sum_from (work h) hs)

  -- `new_work <= existing_work`. An empty side is a panic in the source (`expect`); the work check
  -- runs on a reorg alone, where neither is empty.
  abbrev pub not_heavier : Option ℕ → Option ℕ → Bool
  not_heavier (some new) (some existing) = leb new existing
  not_heavier _ _ = true

  -- All that `submit_headers` checks before it writes: the bounds of the batch, its headers one
  -- by one, and for a reorg the work.
  unfoldable pub check_batch : HeaderChain Header → ℕ → List (List ℕ) → ℕ → SpvResult Staged
  check_batch c start_height raw_headers now_unix = do
    let tip = tip_height c
    refuse_if (leb start_height c.checkpoint.height)
        (below_checkpoint start_height c.checkpoint.height)
    refuse_if (ltb (add32 tip 1) start_height) (non_contiguous start_height tip)
    let reorg_depth = add32 tip 1 - start_height
    refuse_if (ltb max_reorg_depth reorg_depth) (reorg_too_deep reorg_depth max_reorg_depth)
    let projected_len = start_height - 1 - c.base_height + length raw_headers
    refuse_if (ltb c.max_stored_headers projected_len)
        (chain_too_long projected_len c.max_stored_headers)
    pred ← predecessor c (start_height - 1)
    staged ← stage c start_height pred now_unix 0 [] raw_headers
    let truncate_idx = start_height - 1 - c.base_height
    refuse_if
        (if ltb 0 reorg_depth
          then not_heavier (sum_work (map (λ e. e.0) staged))
              (sum_work (drop truncate_idx c.headers))
          else false)
        weaker_chain
    ok staged

  -- The writes: the displaced tail goes, the batch is appended.
  unfoldable pub commit : HeaderChain Header → ℕ → Staged → HeaderChain Header
  commit c start_height staged =
      let truncate_idx = start_height - 1 - c.base_height in
      let reorg = ltb 0 (add32 (tip_height c) 1 - start_height) in
      record c {
        headers =
            (if reorg then take truncate_idx c.headers else c.headers) ++ map (λ e. e.0) staged;
        hashes = (if reorg then take truncate_idx c.hashes else c.hashes) ++ map (λ e. e.1) staged;
      }

  unfoldable pub conclude :
      HeaderChain Header → ℕ → SpvResult Staged → HeaderChain Header × SpvResult SubmitOutcome
  conclude c start_height (err e) = (c, err e)
  conclude c start_height (ok staged) =
      let c' = commit c start_height staged in
      (
        c',
        ok (record {
          last_block_height = tip_height c';
          last_block_hash = tip_hash c';
          headers_accepted = length staged % u32_mod;
          reorg_depth = add32 (tip_height c) 1 - start_height;
        }),
      )

  unfoldable pub submit_headers :
      HeaderChain Header → ℕ → List (List ℕ) → ℕ → HeaderChain Header × SpvResult SubmitOutcome
  submit_headers c start_height raw_headers now_unix =
      if ltb max_headers_per_submit (length raw_headers)
      then (c, err (batch_too_large (length raw_headers) max_headers_per_submit))
      else if is_nil raw_headers
      then (
        c,
        ok (record {
          last_block_height = tip_height c;
          last_block_hash = tip_hash c;
          headers_accepted = 0;
          reorg_depth = 0;
        }),
      )
      else conclude c start_height (check_batch c start_height raw_headers now_unix)
