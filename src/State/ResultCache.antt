-- ===== src/State/ResultCache.antt =====
-- enclave/src/state/result_cache.rs: the signed mint results that answer a repeated request. A
-- call is one critical section of the lock and is given its own time; 32-byte keys and digests are
-- the numbers that their bytes spell, and a reply is of any type.
pub mod Put
pub mod Replies
use enclave_signer.Prelude.{
  ℕ, ◌+◌, ◌-◌, ◌*◌, Bool, true, false, ◌&&◌, ◌||◌, not, Option, none, some, List, [], ◌∷◌, ◌++◌,
  length, ltb, leb, ◌==◌, if◌then◌else◌,
}
use enclave_signer.Prelude.Assoc.{member, keys, lookup, insert, remove}

abbrev pub default_result_ttl : ℕ
default_result_ttl = 24 * 60 * 60

abbrev pub default_result_max : ℕ
default_result_max = 1_024

pub record Entry (R : Type 0) : Type 0 where
  pub at : ℕ
  pub request : ℕ
  pub response : R

pub record SignedResultCache (R : Type 0) : Type 0 where
  pub map : List (ℕ × Entry R)
  pub order : List ℕ
  pub max : ℕ
  pub ttl : ℕ

-- `order.retain(|k| k != op_key)`
unfoldable pub retain_ne : ℕ → List ℕ → List ℕ
retain_ne op_key [] = []
retain_ne op_key (k ∷ order) =
    let rest = retain_ne op_key order in if k == op_key then rest else k ∷ rest

module _ {R : Type 0} where
  unfoldable pub with_capacity : ℕ → ℕ → SignedResultCache R
  with_capacity max ttl = record { map = []; order = []; max = max; ttl = ttl }

  -- `(live && entry.request == request).then(..)`
  abbrev pub answer : ℕ → ℕ → ℕ → Option (Entry R) → Option R
  answer ttl request now none = none
  answer ttl request now (some entry) =
      if ltb (now - entry.at) ttl && entry.request == request then some entry.response else none

  unfoldable pub get_at : SignedResultCache R → ℕ → ℕ → ℕ → Option R
  get_at c op_key request now = answer c.ttl request now (lookup op_key c.map)

  abbrev pub is_expired : ℕ → ℕ → Option (Entry R) → Bool
  is_expired ttl now none = true
  is_expired ttl now (some entry) = leb ttl (now - entry.at)

  -- The loop that evicts expired entries, then the oldest while the cache is full.
  unfoldable pub evict : ℕ → ℕ → ℕ → List (ℕ × Entry R) → List ℕ → List (ℕ × Entry R) × List ℕ
  evict max ttl now map [] = (map, [])
  evict max ttl now map (oldest ∷ order) =
      let rest = evict max ttl now (remove oldest map) order in
      if not (is_expired ttl now (lookup oldest map)) && ltb (length map) max
      then (map, oldest ∷ order)
      else rest

  -- Forget the old entry of the key.
  unfoldable pub forget : ℕ → List (ℕ × Entry R) → List ℕ → List (ℕ × Entry R) × List ℕ
  unfolding retain_ne
  forget op_key map order =
      if member op_key (keys map) then (remove op_key map, retain_ne op_key order) else (map, order)

  unfoldable pub put_at : SignedResultCache R → ℕ → ℕ → R → ℕ → SignedResultCache R
  put_at c op_key request response now =
      let forgotten = forget op_key c.map c.order in
      let kept = evict c.max c.ttl now forgotten.0 forgotten.1 in
      record c {
        map = insert op_key (record { at = now; request = request; response = response }) kept.0;
        order = kept.1 ++ op_key ∷ [];
      }
