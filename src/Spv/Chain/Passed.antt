-- ===== src/Spv/Chain/Passed.antt =====
-- What a batch has met when `check_batch` lets it through, and the chain that `commit` writes.
use native.Mathlib.Decide.{dec_lt}
use enclave_signer.Prelude.{
  get_elem?, ℕ, suc, ◌+◌, ◌-◌, ◌≤◌, ◌<◌, ◌≡◌, sym, false, some, List, [], length, take, drop, arith,
  ok,
}
use enclave_signer.Spv.Types.{Bitcoin, add32}
use enclave_signer.Spv.Chain.{
  HeaderChain, Staged, tip_height, hash_at, predecessor, stage, sum_work, not_heavier, check_batch,
  max_reorg_depth,
}
use enclave_signer.Spv.Chain.Links.{end_hash, end_hash-take, IsValid}
use enclave_signer.Spv.Chain.Stage.{staged_headers, Extends, stage-Extends}

module _ (btc : Bitcoin) (c : HeaderChain btc.Header) where
  open btc use {Header, block_hash}

  -- No height wraps.
  pub tip_height_lem : IsValid btc c → tip_height c ≡ c.base_height + length c.headers
  unfolding tip_height
  tip_height_lem v = omega (arith, v.fits, v.bounded)

  pub next_height_lem :
      IsValid btc c → add32 (tip_height c) 1 ≡ c.base_height + length c.headers + 1
  unfolding add32
  next_height_lem v = omega (arith, v.fits, v.bounded, tip_height_lem v)

  module _ (start : ℕ) where
    -- How many stored headers stay below the batch.
    abbrev pub kept : ℕ
    kept = start - 1 - c.base_height

    abbrev pub depth : ℕ
    depth = add32 (tip_height c) 1 - start

    predecessor_at_base :
        {pred : ℕ × ℕ × ℕ}
        → start - 1 ≡ c.base_height
        → predecessor btc c (start - 1) ≡ ok pred
        → pred.0 ≡ c.base_hash
    unfolding predecessor
    predecessor_at_base e h = ground arith

    predecessor_above :
        {pred : ℕ × ℕ × ℕ}
        → c.base_height < start - 1
        → predecessor btc c (start - 1) ≡ ok pred
        → get_elem? c.hashes (start - 1 - c.base_height - 1) ≡ some pred.0
    unfolding predecessor hash_at
    predecessor_above above h = ground arith

    predecessor-hash :
        {pred : ℕ × ℕ × ℕ}
        → IsValid btc c
        → c.base_height < start
        → predecessor btc c (start - 1) ≡ ok pred
        → pred.0 ≡ end_hash btc c.base_hash (take kept c.headers)
    predecessor-hash v above h = elim (dec_lt c.base_height (start - 1)) [
      | yes over ↦
          let some_kept : kept ≡ suc (kept - 1) = omega arith in
          rw some_kept (
            sym (
              end_hash-take btc c.base_hash (kept - 1) c.headers
                (rw v.cached at (predecessor_above over h))))
      | no at ↦
          let none_kept : kept ≡ 0 = omega arith in
          rw none_kept (predecessor_at_base (omega arith) h)
    ]

  -- The facts that an accepted batch comes with.
  pub record Passed (start : ℕ) (raws : List (List ℕ)) (staged : Staged btc) : Type 0 where
    pub above : c.checkpoint.height < start
    pub contiguous : start ≤ c.base_height + length c.headers + 1
    pub shallow : depth start ≤ max_reorg_depth
    pub room : kept start + length raws ≤ c.max_stored_headers
    pub extends :
        Extends btc c.network
          (end_hash btc c.base_hash (take (kept start) c.headers))
          raws
          []
          staged
    pub heavier :
        0 < depth start
        → not_heavier btc
            (sum_work btc (staged_headers btc staged))
            (sum_work btc (drop (kept start) c.headers))
          ≡ false

  module _ (start : ℕ) (raws : List (List ℕ)) (now : ℕ) {staged : Staged btc} where
    ran :
        check_batch btc c start raws now ≡ ok staged
        → (pred : ℕ × ℕ × ℕ) × (predecessor btc c (start - 1) ≡ ok pred)
          × (stage btc c start pred now 0 [] raws ≡ ok staged)
    unfolding check_batch
    ran h = ground arith

    bounds :
        check_batch btc c start raws now ≡ ok staged
        → (c.checkpoint.height < start)
          × (start ≤ add32 (tip_height c) 1)
          × (depth start ≤ max_reorg_depth)
          × (kept start + length raws ≤ c.max_stored_headers)
    unfolding check_batch
    bounds h = ground arith

    outweighs :
        check_batch btc c start raws now ≡ ok staged
        → 0 < depth start
        → not_heavier btc
            (sum_work btc (staged_headers btc staged))
            (sum_work btc (drop (kept start) c.headers))
          ≡ false
    unfolding check_batch
    outweighs h = ground arith

    pub check_batch-Passed :
        IsValid btc c → check_batch btc c start raws now ≡ ok staged → Passed start raws staged
    check_batch-Passed v h =
        let (pred, found, staging) = ran h in
        let (above, contiguous, shallow, room) = bounds h in
        let base : c.base_height < start = omega (arith, above, v.height_is) in
        record {
          above = above;
          contiguous = omega (arith, contiguous, next_height_lem v);
          shallow = shallow;
          room = room;
          extends =
              rw (predecessor-hash start v base found) at
                (stage-Extends btc c start pred now 0 [] raws tt staging);
          heavier = outweighs h;
        }
