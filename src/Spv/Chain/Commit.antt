-- ===== src/Spv/Chain/Commit.antt =====
-- The chain that an accepted batch leaves.
use mathlib.Core.List.{map-append}
use enclave_signer.Prelude.{
  ℕ, zero, suc, ◌+◌, ◌-◌, ◌%◌, ◌^◌, ◌≤◌, ◌<◌, ◌≡◌, refl, sym, ap, ◌∙◌, inl, inr, true, false, some,
  List, [], ◌∷◌, ◌++◌, map, length, take, drop, arith, take_all, map-take, length-map, length-take,
  length-append, Bool-cases, All, All-append, All-take, ltb, get_elem?, get_elem?-append_left,
  get_elem?-append_right, get_elem?-take, take-append-drop, leb, leb_false→lt,
}
use enclave_signer.Spv.Types.{Bitcoin, enforces_pow}
use enclave_signer.Spv.Chain.{
  HeaderChain, Staged, tip_height, header_at, commit, sum_work, sum_from, not_heavier,
}
use enclave_signer.Spv.Chain.Links.{end_hash, Linked, Linked-append, Linked-take, IsValid}
use enclave_signer.Spv.Chain.Stage.{staged_headers, IsHashed}
use enclave_signer.Spv.Chain.Passed.{tip_height_lem, next_height_lem, kept, depth, Passed}

module _ (btc : Bitcoin) where
  open btc use {Header, deserialize, block_hash, work}

  hashes-staged :
      (s : Staged btc) → IsHashed btc s → map (λ e. e.1) s ≡ map block_hash (staged_headers btc s)
  hashes-staged [] a = refl
  hashes-staged (e ∷ s) a = cc (a.0, hashes-staged s a.1)

  pub total_work : List Header → ℕ
  total_work [] = 0
  total_work (h ∷ hs) = work h + total_work hs

  -- Short of the width of `Work`, the sum does not wrap.
  sum_from-total :
      (acc : ℕ) (hs : List Header)
      → acc + total_work hs < 2 ^ 256
      → sum_from btc acc hs ≡ acc + total_work hs
  unfolding sum_from total_work
  sum_from-total acc [] small = omega arith
  sum_from-total acc (h ∷ hs) small =
      let whole : (acc + work h) % 2 ^ 256 ≡ acc + work h = omega (arith, small) in
      ap (λ a. sum_from btc a hs) whole
      ∙ omega (arith, sum_from-total (acc + work h) hs (omega (arith, small)))

  pub total_work-append :
      (xs ys : List Header) → total_work (xs ++ ys) ≡ total_work xs + total_work ys
  unfolding total_work
  total_work-append [] ys = omega arith
  total_work-append (x ∷ xs) ys = omega (arith, total_work-append xs ys)

  -- The work check compares the sums, where neither wraps.
  pub heavier_lem :
      (xs ys : List Header)
      → not_heavier btc (sum_work btc xs) (sum_work btc ys) ≡ false
      → total_work xs < 2 ^ 256
      → total_work ys < 2 ^ 256
      → total_work ys < total_work xs
  unfolding sum_work total_work
  heavier_lem [] ys h u v = cc
  heavier_lem (x ∷ xs) [] h u v = cc
  heavier_lem (x ∷ xs) (y ∷ ys) h u v =
      omega (arith, leb_false→lt _ _ h, sum_from-total (work x) xs u, sum_from-total (work y) ys v)

  module _ (c : HeaderChain Header) (start : ℕ) (raws : List (List ℕ)) {staged : Staged btc}
      (v : IsValid btc c) (p : Passed btc c start raws staged) where
    abbrev batch : List Header
    batch = staged_headers btc staged

    not_reorg : ltb 0 (depth btc c start) ≡ false → length c.headers ≤ kept btc c start
    not_reorg h = ground (arith, p.contiguous, next_height_lem btc c v)

    pub headers-commit :
        (commit btc c start staged).headers ≡ take (kept btc c start) c.headers ++ batch
    unfolding commit
    headers-commit = elim (Bool-cases (ltb 0 (depth btc c start))) [
      | inl e ↦ rw e
      | inr e ↦ rw (e, take_all (kept btc c start) c.headers (not_reorg e))
    ]

    hashes-commit :
        (commit btc c start staged).hashes
        ≡ take (kept btc c start) c.hashes ++ map (λ e. e.1) staged
    unfolding commit
    hashes-commit = elim (Bool-cases (ltb 0 (depth btc c start))) [
      | inl e ↦ rw e
      | inr e ↦ rw (
        e,
        take_all (kept btc c start) c.hashes
            (omega (arith, not_reorg e, ap length v.cached, length-map block_hash c.headers)),
      )
    ]

    staged_is : staged ≡ p.extends.batch
    staged_is = p.extends.appended

    pub length_staged : length staged ≡ length raws
    length_staged = omega (
      arith,
      ap length staged_is,
      ap length p.extends.parsed,
      length-map deserialize raws,
      length-map (λ e. some e.0) p.extends.batch,
    )

    kept-le : kept btc c start ≤ length c.headers
    kept-le = omega (arith, p.contiguous)

    pub length-commit : length (commit btc c start staged).headers ≡ kept btc c start + length raws
    length-commit = omega (
      arith,
      ap length headers-commit,
      length-append (take (kept btc c start) c.headers) batch,
      length-take (kept btc c start) c.headers,
      length-map (λ e. e.0) staged,
      length_staged,
      kept-le,
    )

    Linked-batch : Linked btc (end_hash btc c.base_hash (take (kept btc c start) c.headers)) batch
    Linked-batch = rw staged_is p.extends.linked

    IsHashed-batch : IsHashed btc staged
    IsHashed-batch = rw staged_is p.extends.hashed

    cached-commit :
        (commit btc c start staged).hashes ≡ map block_hash (commit btc c start staged).headers
    cached-commit = rw (
      hashes-commit,
      headers-commit,
      v.cached,
      map-append,
      map-take,
      hashes-staged staged IsHashed-batch,
    )

    Linked-commit : Linked btc c.base_hash (commit btc c start staged).headers
    Linked-commit = rw headers-commit (
        Linked-append btc c.base_hash (take (kept btc c start) c.headers) batch
          (Linked-take btc c.base_hash (kept btc c start) c.headers v.linked) Linked-batch)

    pow-commit :
        enforces_pow c.network ≡ true
        → All (λ h. btc.validate_pow h ≡ true) (commit btc c start staged).headers
    pow-commit enforced = rw headers-commit (
        All-append _ (take (kept btc c start) c.headers) batch
          (All-take _ (kept btc c start) c.headers (v.pow enforced))
          (rw staged_is (p.extends.pow enforced)))

    pub commit-IsValid : IsValid btc (commit btc c start staged)
    unfolding commit
    commit-IsValid = record {
      height_is = v.height_is;
      hash_is = v.hash_is;
      cached = cached-commit;
      linked = Linked-commit;
      pow = pow-commit;
      bounded = omega (arith, length-commit, p.room);
      fits = v.fits;
    }

    -- Below the batch nothing changes.
    pub header_at-commit_below :
        (height : ℕ)
        → height < start
        → header_at (commit btc c start staged) height ≡ header_at c height
    unfolding header_at commit
    header_at-commit_below height below = elim (Bool-cases (leb height c.base_height)) [
      | inl e ↦ rw e
      | inr e ↦
          let i = height - c.base_height - 1 in
          let i-lt : i < kept btc c start = ground arith in
          rw e (
            ap (λ l. get_elem? l i) headers-commit
            ∙ get_elem?-append_left (take (kept btc c start) c.headers) batch i
                (omega (arith, length-take (kept btc c start) c.headers, kept-le))
            ∙ get_elem?-take (kept btc c start) c.headers i i-lt)
    ]

    get_parsed :
        (rs : List (List ℕ)) (s : Staged btc) (i : ℕ)
        → map deserialize rs ≡ map (λ e. some e.0) s
        → i < length rs
        → get_elem? (map deserialize rs) i ≡ some (get_elem? (staged_headers btc s) i)
    get_parsed [] s i e below = elim below [ ]
    get_parsed (r ∷ rs) [] i e below = cc
    get_parsed (r ∷ rs) (x ∷ s) zero e below = ground arith
    get_parsed (r ∷ rs) (x ∷ s) (suc i) e below = get_parsed rs s i (ground arith) (omega arith)

    -- From `start` on the chain is the batch, parsed.
    pub header_at-commit_batch :
        (i : ℕ)
        → i < length raws
        → get_elem? (map deserialize raws) i
          ≡ some (header_at (commit btc c start staged) (start + i))
    unfolding header_at commit
    header_at-commit_batch i below =
        let over : leb (start + i) c.base_height ≡ false = ground (arith, p.above, v.height_is) in
        let index : start + i - c.base_height - 1 ≡ length (take (kept btc c start) c.headers) + i =
          omega (arith, p.above, v.height_is, length-take (kept btc c start) c.headers, kept-le) in
        get_parsed raws staged i (p.extends.parsed ∙ ap (map (λ e. some e.0)) (sym staged_is)) below
        ∙ ap some (rw (over, index, headers-commit, get_elem?-append_right))

    -- The work only grows: a batch that displaces headers is heavier than they are.
    pub total_work-commit :
        0 < depth btc c start
        → total_work c.headers < 2 ^ 256
        → total_work (commit btc c start staged).headers < 2 ^ 256
        → total_work c.headers < total_work (commit btc c start staged).headers
    total_work-commit reorg small small' =
        let new = ap total_work headers-commit in
        let parts = total_work-append (take (kept btc c start) c.headers) batch in
        let old =
          total_work-append (take (kept btc c start) c.headers)
            (drop (kept btc c start) c.headers) in
        let whole = ap total_work (take-append-drop (kept btc c start) c.headers) in
        omega (
          arith,
          new,
          parts,
          heavier_lem batch (drop (kept btc c start) c.headers) (p.heavier reorg)
              (omega (arith, small', new, parts)) (omega (arith, small, old, whole)),
          old,
          whole,
        )

    pub headers-commit_extension :
        depth btc c start ≡ 0 → (commit btc c start staged).headers ≡ c.headers ++ batch
    headers-commit_extension e =
        headers-commit
        ∙ ap (λ l. l ++ batch)
            (take_all (kept btc c start) c.headers (omega (arith, next_height_lem btc c v)))

    base_height-commit : (commit btc c start staged).base_height ≡ c.base_height
    unfolding commit
    base_height-commit = refl

    pub tip_height-commit : tip_height (commit btc c start staged) + 1 ≡ start + length raws
    tip_height-commit = omega (
      arith,
      tip_height_lem btc (commit btc c start staged) commit-IsValid,
      base_height-commit,
      length-commit,
      p.above,
      v.height_is,
    )
