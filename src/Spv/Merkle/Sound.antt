-- ===== src/Spv/Merkle/Sound.antt =====
-- An accepted proof is about a transaction of the block, whatever the length of its path.
use enclave_signer.Prelude.{
  Collision, same_or_collision, onwards, Bytes, ℕ, zero, suc, ◌+◌, ◌*◌, ◌/◌, ◌%◌, ◌<◌, ◌≤◌, ◌≡◌,
  ◌≢◌, ◌∙◌, ap, sym, refl, subst, ◌⊎◌, inl, inr, true, false, some, List, [], ◌∷◌, ◌++◌, map, All,
  length, get_elem?, arith, ok, append_cancel, length-append, length-map, Bool-cases,
  refuse_if_past, not, ◌==◌,
}
use native.Mathlib.Decide.{ℕ_discrete, dec_lt}
use enclave_signer.Spv.Merkle.{
  bad_sibling_length, transaction_shaped_node, is_64_byte_transaction, buffer, climb,
  verify_merkle_proof,
}
use enclave_signer.Spv.Merkle.Tree.{
  Is32, NoTransaction, IsClean, level_up, levels_up, level_up-Is32,
}

-- Bytes that are not mistaken for two hashes: of 64 bytes only where the verifier knows them as a
-- transaction.
abbrev pub IsKnown : Bytes → Type 0
IsKnown tx = length tx ≡ 64 → is_64_byte_transaction tx ≡ true

known : (tx : Bytes) → IsKnown tx → length tx ≡ 64 → is_64_byte_transaction tx ≢ false
known tx k l = λ h. cc (k l, h)

-- The node of a row that stands at an index: the last of an odd row stands at two.
abbrev IsAt : {A : Type 0} → List A → ℕ → A → Type 0
IsAt row idx x = (i : ℕ) × (get_elem? row i ≡ some x) × ((i ≡ idx) ⊎ (length row ≤ idx))

module _ (sha256d : Bytes → Bytes) where
  -- The side of `current` in the pair that the verifier hashes.
  halves :
      (a b : Bytes) (idx : ℕ) (current sibling : Bytes)
      → length a ≡ 32
      → length current ≡ 32
      → length sibling ≡ 32
      → a ++ b ≡ buffer idx current sibling
      → ((idx % 2 ≡ 0) × (a ≡ current)) ⊎ ((idx % 2 ≡ 1) × (b ≡ current))
  unfolding buffer
  halves a b idx current sibling la lc ls e = elim (Bool-cases (idx % 2 == 0)) [
    | inl left ↦ inl (
      ground (arith, left),
      (append_cancel a b current sibling (omega (arith, la, lc)) (rw left at e)).0,
    )
    | inr right ↦ inr (
      ground (arith, right),
      (append_cancel a b sibling current (omega (arith, la, ls)) (rw right at e)).1,
    )
  ]

  -- One level: a node of the upper row fixes both hashes below it.
  pair_sound :
      (row : List Bytes) (k idx : ℕ) (current sibling : Bytes)
      → get_elem? (level_up sha256d row) k ≡ some (sha256d (buffer idx current sibling))
      → Is32 row
      → length current ≡ 32
      → length sibling ≡ 32
      → ((i : ℕ) × (get_elem? row i ≡ some current)
          × ((i ≡ 2 * k + idx % 2) ⊎ ((idx % 2 ≡ 1) × (length row ≡ 2 * k + 1))))
        ⊎ Collision sha256d
  unfolding level_up buffer
  pair_sound [] k idx current sibling e r l m = cc
  pair_sound (a ∷ []) (suc k) idx current sibling e r l m = cc
  pair_sound (a ∷ []) zero idx current sibling e r l m =
      onwards (same_or_collision sha256d (a ++ a) (buffer idx current sibling) (ground arith))
        λ same. elim (halves a a idx current sibling r.0 l m same) [
          | inl side ↦ inl (0, ap some side.1, inl (omega (arith, side.0)))
          | inr side ↦ inl (0, ap some side.1, inr (side.0, omega arith))
        ]
  pair_sound (a ∷ b ∷ row) zero idx current sibling e r l m =
      onwards (same_or_collision sha256d (a ++ b) (buffer idx current sibling) (ground arith))
        λ same. elim (halves a b idx current sibling r.0 l m same) [
          | inl side ↦ inl (0, ap some side.1, inl (omega (arith, side.0)))
          | inr side ↦ inl (1, ap some side.1, inl (omega (arith, side.0)))
        ]
  pair_sound (a ∷ b ∷ row) (suc k) idx current sibling e r l m =
      onwards (pair_sound row k idx current sibling e r.1.1 l m) λ (i, at, place). inl (
        suc (suc i),
        at,
        elim place [ inl e ↦ inl (omega (arith, e)) | inr dup ↦ inr (dup.0, omega (arith, dup.1)) ],
      )

  length-buffer :
      (idx : ℕ) (current sibling : Bytes)
      → length current ≡ 32
      → length sibling ≡ 32
      → length (buffer idx current sibling) ≡ 64
  unfolding buffer
  length-buffer idx current sibling l m =
      ground (arith, length-append current sibling, length-append sibling current)

  -- The first turn of the loop.
  climb-cons :
      (i idx : ℕ) (current sibling : Bytes) (path : List Bytes) {end : Bytes × ℕ}
      → climb sha256d i idx current (sibling ∷ path) ≡ ok end
      → (length sibling ≡ 32)
        × (is_64_byte_transaction (buffer idx current sibling) ≡ false)
        × (climb sha256d (suc i) (idx / 2) (sha256d (buffer idx current sibling)) path ≡ ok end)
  unfolding climb
  climb-cons i idx current sibling path h =
      let (size, h1) =
        refuse_if_past (not (length sibling == 32)) (bad_sibling_length i (length sibling)) _ h in
      let (clean, h2) =
        refuse_if_past (is_64_byte_transaction (buffer idx current sibling))
          (transaction_shaped_node i) _ h1 in
      (ground (arith, size), clean, h2)

  -- The number of leaves that a path of this length can reach.
  abbrev pub leaves : ℕ → ℕ
  leaves zero = 1
  leaves (suc depth) = 2 * leaves depth

  climb_reach :
      (path : List Bytes) (i idx : ℕ) (current root : Bytes)
      → climb sha256d i idx current path ≡ ok (root, 0)
      → idx < leaves (length path)
  climb_reach [] i idx current root h = unfold climb in ground (arith, h)
  climb_reach (sibling ∷ path) i idx current root h =
      let (size, clean, rest) = climb-cons i idx current sibling path h in
      omega
        (arith, climb_reach path (suc i) (idx / 2) (sha256d (buffer idx current sibling)) root rest)

  -- A node above the row of a clean tree is the hash of 64 bytes that are no transaction.
  level_up-pair :
      (row : List Bytes) (k : ℕ) (node : Bytes)
      → Is32 row
      → NoTransaction row
      → get_elem? (level_up sha256d row) k ≡ some node
      → (m : Bytes) × (node ≡ sha256d m) × (length m ≡ 64) × (is_64_byte_transaction m ≡ false)
  unfolding level_up
  level_up-pair [] k node r c e = cc
  level_up-pair (a ∷ []) (suc k) node r c e = cc
  level_up-pair (a ∷ []) zero node r c e =
      (a ++ a, ground arith, omega (arith, length-append a a, r.0), c)
  level_up-pair (a ∷ b ∷ row) zero node r c e =
      (a ++ b, ground arith, omega (arith, length-append a b, r.0, r.1.0), c.0)
  level_up-pair (a ∷ b ∷ row) (suc k) node r c e = level_up-pair row k node r.1.1 c.1 e

  get_elem?-hashes :
      (txs : List Bytes) (i : ℕ) (h : Bytes)
      → get_elem? (map sha256d txs) i ≡ some h
      → (tx : Bytes) × (get_elem? txs i ≡ some tx) × (sha256d tx ≡ h)
  get_elem?-hashes [] i h e = cc
  get_elem?-hashes (tx ∷ txs) zero h e = (tx, refl, ground arith)
  get_elem?-hashes (tx ∷ txs) (suc i) h e = get_elem?-hashes txs i h e

  All-get :
      (txs : List Bytes) (i : ℕ) (tx : Bytes)
      → All IsKnown txs
      → get_elem? txs i ≡ some tx
      → IsKnown tx
  All-get [] i tx a e = cc
  All-get (t ∷ txs) zero tx a e = subst IsKnown (some_is e) a.0
    where
      some_is : some t ≡ some tx → t ≡ tx
      some_is e = ground arith
  All-get (t ∷ txs) (suc i) tx a e = All-get txs i tx a.1 e

  -- Two known messages of one hash, one of them 64 bytes that are no transaction.
  confused :
      (tx m : Bytes)
      → IsKnown tx
      → length m ≡ 64
      → is_64_byte_transaction m ≡ false
      → sha256d tx ≡ sha256d m
      → Collision sha256d
  confused tx m k size clean e = elim (same_or_collision sha256d tx m e) [
    | inr c ↦ c
    | inl same ↦ absurd (known m (subst IsKnown same k) size clean)
  ]

  module _ (hash_length : (m : Bytes) → length (sha256d m) ≡ 32) where
    length-level_up : (row : List Bytes) → length (level_up sha256d row) ≡ (length row + 1) / 2
    unfolding level_up
    length-level_up [] = omega arith
    length-level_up (a ∷ []) = omega arith
    length-level_up (a ∷ b ∷ row) = omega (arith, length-level_up row)

    hashes-Is32 : (txs : List Bytes) → Is32 (map sha256d txs)
    hashes-Is32 [] = tt
    hashes-Is32 (tx ∷ txs) = (hash_length tx, hashes-Is32 txs)

    -- A path as long as the tree is deep.
    climb_sound :
        (path : List Bytes) (i idx : ℕ) (current : Bytes) (row : List Bytes) (root : Bytes)
        → climb sha256d i idx current path ≡ ok (root, 0)
        → levels_up sha256d (length path) row ≡ root ∷ []
        → Is32 row
        → length current ≡ 32
        → IsAt row idx current ⊎ Collision sha256d
    unfolding climb levels_up
    climb_sound [] i idx current row root h up r l = inl (0, ground arith, inl (ground arith))
    climb_sound (sibling ∷ path) i idx current row root h up r l =
        let (size, clean, rest) = climb-cons i idx current sibling path h in
        onwards
          (climb_sound path (suc i) (idx / 2) (sha256d (buffer idx current sibling))
            (level_up sha256d row) root rest up (level_up-Is32 sha256d hash_length row)
            (hash_length _))
          λ (k, above, place).
            onwards (pair_sound row k idx current sibling above r l size)
              λ (j, at, side). inl (j, at, below row idx j k place side)
      where
        below :
            (row : List Bytes) (idx j k : ℕ)
            → (k ≡ idx / 2) ⊎ (length (level_up sha256d row) ≤ idx / 2)
            → (j ≡ 2 * k + idx % 2) ⊎ ((idx % 2 ≡ 1) × (length row ≡ 2 * k + 1))
            → (j ≡ idx) ⊎ (length row ≤ idx)
        below row idx j k (inl p) (inl q) = inl (omega (arith, p, q))
        below row idx j k (inl p) (inr q) = inr (omega (arith, p, q.0, q.1))
        below row idx j k (inr p) q = inr (omega (arith, p, length-level_up row))

    -- A shorter path takes a node of the tree for a transaction.
    too_short :
        (depth : ℕ) (path : List Bytes) (idx : ℕ) (tx : Bytes) (row : List Bytes) (root : Bytes)
        → climb sha256d 0 idx (sha256d tx) path ≡ ok (root, 0)
        → length path < depth
        → levels_up sha256d depth row ≡ root ∷ []
        → IsClean sha256d depth row
        → Is32 row
        → IsKnown tx
        → Collision sha256d
    unfolding levels_up
    too_short zero path idx tx row root h short up c r k = absurd (omega arith)
    too_short (suc depth) path idx tx row root h short up c r k =
        let upper = level_up-Is32 sha256d hash_length row in
        elim (ℕ_discrete (length path) depth) [
          | no other ↦
              too_short depth path idx tx (level_up sha256d row) root h (omega (arith, other)) up
                c.1 upper k
          | yes same ↦
              elim (climb_sound path 0 idx (sha256d tx) (level_up sha256d row) root h
                (subst (λ d. levels_up sha256d d (level_up sha256d row) ≡ root ∷ []) (sym same) up)
                upper (hash_length tx)) [
                  | inr clash ↦ clash
                  | inl (j, at, place) ↦
                      let (m, node, size, clean) = level_up-pair row j (sha256d tx) r c.0 at in
                      confused tx m k size clean node
                ]
        ]

    -- A longer path takes a transaction for a node of the tree.
    too_long :
        (path : List Bytes) (depth i idx : ℕ) (current : Bytes) (txs : List Bytes) (root : Bytes)
        → climb sha256d i idx current path ≡ ok (root, 0)
        → depth < length path
        → levels_up sha256d depth (map sha256d txs) ≡ root ∷ []
        → All IsKnown txs
        → length current ≡ 32
        → Collision sha256d
    too_long [] depth i idx current txs root h long up a l = absurd (omega arith)
    too_long (sibling ∷ path) depth i idx current txs root h long up a l =
        let (size, clean, rest) = climb-cons i idx current sibling path h in
        let node = buffer idx current sibling in
        elim (ℕ_discrete (length path) depth) [
          | no other ↦
              too_long path depth (suc i) (idx / 2) (sha256d node) txs root rest
                (omega (arith, other)) up a (hash_length node)
          | yes same ↦
              elim (climb_sound path (suc i) (idx / 2) (sha256d node) (map sha256d txs) root rest
                (subst (λ d. levels_up sha256d d (map sha256d txs) ≡ root ∷ []) (sym same) up)
                (hashes-Is32 txs) (hash_length node)) [
                  | inr clash ↦ clash
                  | inl (j, at, place) ↦
                      let (tx, is_tx, same_hash) = get_elem?-hashes txs j (sha256d node) at in
                      confused tx node (All-get txs j tx a is_tx)
                        (length-buffer idx current sibling l size) clean same_hash
                ]
        ]

    accepted_climb :
        (txid : Bytes) (position : ℕ) (path : List Bytes) (merkle_root : Bytes)
        → verify_merkle_proof sha256d txid position path merkle_root ≡ ok tt
        → climb sha256d 0 position txid path ≡ ok (merkle_root, 0)
    unfolding verify_merkle_proof
    accepted_climb txid position path merkle_root h = ground arith

    -- Let a block have these transactions, and a Merkle root that is reached after so many levels,
    -- none of which pairs two hashes that are a 64-byte transaction; and let the verifier know
    -- every 64-byte one of these transactions, and of the claimed one, as such. An accepted proof
    -- for the claimed transaction's id, whatever the length of its path, is then for a transaction
    -- of the block: it has one sibling for each level, its position is one that a path of this
    -- length reaches, and the transaction stands there, or anywhere in the block where the position
    -- is past its end. Otherwise two different messages have the same double SHA-256, whose results
    -- are taken to have 32 bytes.
    pub verify_merkle_proof_sound :
        (txs : List Bytes) (tx : Bytes) (depth position : ℕ) (path : List Bytes)
        (merkle_root : Bytes)
        → All IsKnown txs
        → IsKnown tx
        → IsClean sha256d depth (map sha256d txs)
        → levels_up sha256d depth (map sha256d txs) ≡ merkle_root ∷ []
        → verify_merkle_proof sha256d (sha256d tx) position path merkle_root ≡ ok tt
        → ((i : ℕ) × (get_elem? txs i ≡ some tx)
            × ((i ≡ position) ⊎ (length txs ≤ position))
            × (length path ≡ depth)
            × (position < leaves depth))
          ⊎ Collision sha256d
    verify_merkle_proof_sound txs tx depth position path merkle_root a k c up h =
        let climbs = accepted_climb (sha256d tx) position path merkle_root h in
        elim (dec_lt (length path) depth) [
          | yes short ↦ inr (
              too_short depth path position tx (map sha256d txs) merkle_root climbs short up c
                (hashes-Is32 txs) k)
          | no long ↦ elim (dec_lt depth (length path)) [
            | yes longer ↦ inr (
                too_long path depth 0 position (sha256d tx) txs merkle_root climbs longer up a
                  (hash_length tx))
            | no same ↦
                let same_depth : length path ≡ depth = omega (arith, long, same) in
                onwards
                  (climb_sound path 0 position (sha256d tx) (map sha256d txs) merkle_root climbs
                    (subst (λ d. levels_up sha256d d (map sha256d txs) ≡ merkle_root ∷ [])
                      (sym same_depth) up)
                    (hashes-Is32 txs) (hash_length tx))
                  λ (j, at, place).
                    let (t, is_t, same_hash) = get_elem?-hashes txs j (sha256d tx) at in
                    onwards (same_or_collision sha256d t tx same_hash) λ same_tx. inl (
                      j,
                      is_t ∙ ap some same_tx,
                      elim place [
                        | inl e ↦ inl e
                        | inr past ↦ inr (omega (arith, past, length-map sha256d txs))
                      ],
                      same_depth,
                      subst (λ d. position < leaves d) same_depth
                          (climb_reach path 0 position (sha256d tx) merkle_root climbs),
                    )
          ]
        ]
