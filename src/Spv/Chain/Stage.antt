-- ===== src/Spv/Chain/Stage.antt =====
-- What the loop over a batch has established of the headers that it staged.
use mathlib.Core.List.{map-append, append_assoc, append-nil}
use enclave_signer.Prelude.{
  ℕ, ◌+◌, ◌%◌, ◌≡◌, refl, ◌∙◌, some, List, [], ◌∷◌, ◌++◌, map, All, true, arith, ok, bind-ok, ok_or,
  ok_or-ok, All-append,
}
use enclave_signer.Spv.Types.{Network, Bitcoin, u32_mod, add32, enforces_pow, header_parse}
use enclave_signer.Spv.Validation.{validate_header_full}
use enclave_signer.Spv.Validation.Accept.{validate_header_full_iff}
use enclave_signer.Spv.Chain.{
  HeaderChain, Staged, previous, required_bits, median_time_past_below, stage,
}
use enclave_signer.Spv.Chain.Links.{end_hash, Linked, end_hash-append}

module _ (btc : Bitcoin) where
  open btc use {Header, deserialize, time, block_hash, validate_pow}

  abbrev pub staged_headers : Staged btc → List Header
  staged_headers = map (λ e. e.0)

  abbrev pub IsHashed : Staged btc → Type 0
  IsHashed = All (λ e. e.1 ≡ block_hash e.0)

  previous-hash :
      (pred : ℕ × ℕ × ℕ) (d : ℕ) (e : Header × ℕ) (staged : Staged btc)
      → IsHashed (e ∷ staged)
      → (previous btc pred (e ∷ staged)).0 ≡ end_hash btc d (staged_headers (e ∷ staged))
  unfolding previous
  previous-hash pred d e [] a = a.0
  previous-hash pred d e (f ∷ staged) a = previous-hash pred (block_hash e.0) f staged a.1

  -- The loop's predecessor is the end of what is staged.
  previous-end_hash :
      (pred : ℕ × ℕ × ℕ) (staged : Staged btc)
      → IsHashed staged
      → (previous btc pred staged).0 ≡ end_hash btc pred.0 (staged_headers staged)
  unfolding previous
  previous-end_hash pred [] a = refl
  previous-end_hash pred (e ∷ staged) a = previous-hash pred pred.0 e staged a

  -- What the loop adds to a staged list that ends in the hash `p`.
  pub record Extends (network : Network) (p : ℕ) (raws : List (List ℕ)) (staged s : Staged btc)
      : Type 0 where
    pub batch : Staged btc
    pub appended : s ≡ staged ++ batch
    pub parsed : map deserialize raws ≡ map (λ e. some e.0) batch
    pub linked : Linked btc p (staged_headers batch)
    pub hashed : IsHashed batch
    pub pow : enforces_pow network ≡ true → All (λ h. validate_pow h ≡ true) (staged_headers batch)

  module _ (c : HeaderChain Header) (start_height : ℕ) (pred : ℕ × ℕ × ℕ) (now : ℕ) where
    pub stage-Extends :
        (i : ℕ) (staged : Staged btc) (raws : List (List ℕ)) {s : Staged btc}
        → IsHashed staged
        → stage btc c start_height pred now i staged raws ≡ ok s
        → Extends c.network (end_hash btc pred.0 (staged_headers staged)) raws staged s
    unfolding stage
    stage-Extends i staged [] {s} a h = record {
      batch = [];
      appended = ground (arith, append-nil staged);
      parsed = refl;
      linked = tt;
      hashed = tt;
      pow = λ _. tt;
    }
    stage-Extends i staged (raw ∷ rest) {s} a h =
        let (header, read, h₁) = bind-ok (ok_or (deserialize raw) (header_parse i)) _ h in
        let height = add32 start_height (i % u32_mod) in
        let prev = previous btc pred staged in
        let (expected, _, h₂) =
          bind-ok (required_bits btc c height (time header) (prev.1, prev.2) start_height staged) _
            h₁ in
        let (median, _, h₃) =
          bind-ok (median_time_past_below btc c height start_height staged) _ h₂ in
        let (_, valid, h₄) =
          bind-ok
            (validate_header_full btc header height (record { hash = prev.0; time = prev.2 }) median
              expected c.network now)
            _ h₃ in
        let accepted =
          (validate_header_full_iff btc header height _ median expected c.network now).0 valid in
        let e : Header × ℕ = (header, block_hash header) in
        let end_here : end_hash btc pred.0 (staged_headers (staged ++ e ∷ [])) ≡ block_hash header =
          rw map-append (end_hash-append btc pred.0 (staged_headers staged) (header ∷ [])) in
        let more =
          stage-Extends (i + 1) (staged ++ e ∷ []) rest
            (All-append (λ x. x.1 ≡ block_hash x.0) staged (e ∷ []) a (refl, tt)) h₄ in
        record {
          batch = e ∷ more.batch;
          appended = more.appended ∙ append_assoc staged (e ∷ []) more.batch;
          parsed = cc (ok_or-ok (deserialize raw) (header_parse i) read, more.parsed);
          linked = (accepted.linked ∙ previous-end_hash pred staged a, rw end_here at more.linked);
          hashed = (refl, more.hashed);
          pow = λ enforced. (accepted.pow enforced, more.pow enforced);
        }
