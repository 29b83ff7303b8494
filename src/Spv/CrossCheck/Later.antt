-- ===== src/Spv/CrossCheck/Later.antt =====
-- The chain after other requests have submitted headers.
use mathlib.Core.List.{append-nil, append_assoc, map-append}
use enclave_signer.Prelude.{
  ℕ, ◌+◌, ◌-◌, ◌<◌, ◌≡◌, ◌∙◌, sym, ap, refl, List, [], ◌∷◌, ◌++◌, map, length, All, arith,
  length-append, length-map, get_elem?, get_elem?-append_left,
}
use enclave_signer.Spv.Types.{Bitcoin}
use enclave_signer.Spv.Chain.{HeaderChain, tip_height, submit_headers}
use enclave_signer.Spv.Chain.Links.{IsValid}
use enclave_signer.Spv.Chain.Passed.{tip_height_lem}
use enclave_signer.Spv.Chain.Submit.{
  submit_headers-IsValid, base_height-submit_headers, submit_headers_above,
}
use enclave_signer.Spv.Chain.Reads.{hash_at_above}
use enclave_signer.Spv.CrossCheck.{Pin, ChainPins}
use enclave_signer.Spv.CrossCheck.Recheck.{Holds}

-- A call of `submit_headers`: the start, the headers and the clock.
pub record Submission : Type 0 where
  pub start_height : ℕ
  pub raw_headers : List (List ℕ)
  pub now_unix : ℕ

module _ (btc : Bitcoin) where
  open btc use {Header, block_hash, merkle_root}

  -- The chain after the calls.
  abbrev pub after_all : HeaderChain Header → List Submission → HeaderChain Header
  after_all c [] = c
  after_all c (s ∷ submissions) =
      after_all (submit_headers btc c s.start_height s.raw_headers s.now_unix).0 submissions

  -- Each call starts above the tip that it finds.
  abbrev pub AllAbove : HeaderChain Header → List Submission → Type 0
  AllAbove c [] = Unit
  AllAbove c (s ∷ submissions) =
      (tip_height c < s.start_height)
      × AllAbove (submit_headers btc c s.start_height s.raw_headers s.now_unix).0 submissions

  pub after_all-append :
      (c : HeaderChain Header) (s t : List Submission)
      → after_all c (s ++ t) ≡ after_all (after_all c s) t
  after_all-append c [] t = refl
  after_all-append c (x ∷ s) t =
      after_all-append (submit_headers btc c x.start_height x.raw_headers x.now_unix).0 s t

  pub after_all-IsValid :
      (c : HeaderChain Header) → IsValid btc c → (s : List Submission) → IsValid btc (after_all c s)
  after_all-IsValid c v [] = v
  after_all-IsValid c v (s ∷ submissions) =
      after_all-IsValid (submit_headers btc c s.start_height s.raw_headers s.now_unix).0
        (submit_headers-IsValid btc c v s.start_height s.raw_headers s.now_unix) submissions

  pub base_height-after_all :
      (c : HeaderChain Header)
      → IsValid btc c
      → (s : List Submission) → (after_all c s).base_height ≡ c.base_height
  base_height-after_all c v [] = refl
  base_height-after_all c v (s ∷ submissions) =
      base_height-after_all (submit_headers btc c s.start_height s.raw_headers s.now_unix).0
        (submit_headers-IsValid btc c v s.start_height s.raw_headers s.now_unix) submissions
      ∙ base_height-submit_headers btc c v s.start_height s.raw_headers s.now_unix

  pub after_all-above :
      (c : HeaderChain Header)
      → IsValid btc c
      → (s : List Submission) → AllAbove c s
      → (added : List Header) × ((after_all c s).headers ≡ c.headers ++ added)
  after_all-above c v [] a = ([], sym (append-nil c.headers))
  after_all-above c v (s ∷ submissions) (above, rest) =
      let (first, first_is) =
        submit_headers_above btc c v s.start_height s.raw_headers s.now_unix above in
      let (later, later_is) =
        after_all-above (submit_headers btc c s.start_height s.raw_headers s.now_unix).0
          (submit_headers-IsValid btc c v s.start_height s.raw_headers s.now_unix) submissions
          rest in
      (
        first ++ later,
        later_is ∙ ap (λ l. l ++ later) first_is ∙ append_assoc c.headers first later,
      )

  pub fits : (c : HeaderChain Header) → IsValid btc c → tip_height c < 4_294_967_295
  fits c v = omega (arith, tip_height_lem btc c v, v.bounded, v.fits)

  -- A pin that is right stays right when headers are appended.
  Holds-append :
      (c d : HeaderChain Header) (vc : IsValid btc c) (vd : IsValid btc d) (added : List Header)
      → d.base_height ≡ c.base_height
      → d.headers ≡ c.headers ++ added
      → (entry : ℕ × Pin) → Holds c entry
      → Holds d entry
  Holds-append c d vc vd added base longer entry h =
      let tc = tip_height_lem btc c vc in
      let td = tip_height_lem btc d vd in
      let size : length d.headers ≡ length c.headers + length added =
        ap length longer ∙ length-append c.headers added in
      let index = entry.0 - c.base_height - 1 in
      let same_size : length c.hashes ≡ length c.headers =
        ap length vc.cached ∙ length-map block_hash c.headers in
      let hashes : d.hashes ≡ c.hashes ++ map block_hash added =
        vd.cached
        ∙ ap (map block_hash) longer
        ∙ map-append block_hash c.headers added
        ∙ ap (λ l. l ++ map block_hash added) (sym vc.cached) in
      record {
        above = omega (arith, h.above, base);
        hash_is =
            hash_at_above d entry.0 (omega (arith, h.above, base))
            ∙ ap (λ b. get_elem? d.hashes (entry.0 - b - 1)) base
            ∙ ap (λ l. get_elem? l index) hashes
            ∙ get_elem?-append_left c.hashes (map block_hash added) index
                (omega (arith, same_size, tc, h.below, h.above))
            ∙ sym (hash_at_above c entry.0 h.above)
            ∙ h.hash_is;
        below = omega (arith, h.below, tc, td, size, base);
        deep = omega (arith, h.deep, tc, td, size, base);
      }

  pub All-Holds :
      (c d : HeaderChain Header) (vc : IsValid btc c) (vd : IsValid btc d) (added : List Header)
      → d.base_height ≡ c.base_height
      → d.headers ≡ c.headers ++ added
      → (pins : ChainPins) → All (Holds c) pins
      → All (Holds d) pins
  All-Holds c d vc vd added base longer [] h = tt
  All-Holds c d vc vd added base longer (entry ∷ pins) (here, rest) = (
    Holds-append c d vc vd added base longer entry here,
    All-Holds c d vc vd added base longer pins rest,
  )
