-- ===== src/Spv/Chain/Links.antt =====
-- Lists of headers in which each header names the hash of the one before it.
use enclave_signer.Prelude.{
  ℕ, zero, suc, ◌+◌, ◌≤◌, ◌<◌, ◌≡◌, refl, some, List, [], ◌∷◌, ◌++◌, map, length, take, get_elem?,
  All, true, arith,
}
use enclave_signer.Spv.Types.{Bitcoin, enforces_pow}
use enclave_signer.Spv.Chain.{HeaderChain}

module _ (btc : Bitcoin) where
  open btc use {Header, prev_blockhash, block_hash, validate_pow}

  -- The hash at the end of a list of headers above a block of hash `p`.
  abbrev pub end_hash : ℕ → List Header → ℕ
  end_hash p [] = p
  end_hash p (h ∷ hs) = end_hash (block_hash h) hs

  abbrev pub Linked : ℕ → List Header → Type 0
  Linked p [] = Unit
  Linked p (h ∷ hs) = (prev_blockhash h ≡ p) × Linked (block_hash h) hs

  pub end_hash-append :
      (p : ℕ) (xs ys : List Header) → end_hash p (xs ++ ys) ≡ end_hash (end_hash p xs) ys
  end_hash-append p [] ys = refl
  end_hash-append p (x ∷ xs) ys = end_hash-append (block_hash x) xs ys

  pub Linked-append :
      (p : ℕ) (xs ys : List Header) → Linked p xs → Linked (end_hash p xs) ys → Linked p (xs ++ ys)
  Linked-append p [] ys l r = r
  Linked-append p (x ∷ xs) ys l r = (l.0, Linked-append (block_hash x) xs ys l.1 r)

  pub Linked-take : (p : ℕ) (n : ℕ) (xs : List Header) → Linked p xs → Linked p (take n xs)
  Linked-take p zero xs l = tt
  Linked-take p (suc n) [] l = tt
  Linked-take p (suc n) (x ∷ xs) l = (l.0, Linked-take (block_hash x) n xs l.1)

  -- The stored hash at index `n` is the hash at the end of the first `n + 1` headers.
  pub end_hash-take :
      (p : ℕ) (n : ℕ) (xs : List Header) {k : ℕ}
      → get_elem? (map block_hash xs) n ≡ some k
      → end_hash p (take (suc n) xs) ≡ k
  end_hash-take p n [] e = cc
  end_hash-take p zero (x ∷ xs) e = ground arith
  end_hash-take p (suc n) (x ∷ xs) e = end_hash-take (block_hash x) n xs e

  -- What holds of every chain: the base is the checkpoint, the cached hashes are those of the
  -- headers, each header links to the one below it, the first to the checkpoint, on a network that
  -- enforces it every header has its proof of work, the retention cap is kept, and no height
  -- reaches the end of a `u32`.
  pub record IsValid (c : HeaderChain Header) : Type 0 where
    pub height_is : c.base_height ≡ c.checkpoint.height
    pub hash_is : c.base_hash ≡ c.checkpoint.hash
    pub cached : c.hashes ≡ map block_hash c.headers
    pub linked : Linked c.base_hash c.headers
    pub pow : enforces_pow c.network ≡ true → All (λ h. validate_pow h ≡ true) c.headers
    pub bounded : length c.headers ≤ c.max_stored_headers
    pub fits : c.base_height + c.max_stored_headers + 1 < 4_294_967_296
