-- ===== src/Tests/Chain.antt =====
-- The header chain at concrete inputs: a toy header is four numbers, its parent's hash, its time,
-- its bits and its own hash, and its work is its bits.
use enclave_signer.Prelude.{
  ℕ, zero, suc, ◌+◌, ◌*◌, ◌^◌, ◌-◌, All, ◌≤◌, ◌<◌, ◌≡◌, refl, ◌↔◌, ◌⊎◌, true, Option, none, some,
  List, [], ◌∷◌, ◌++◌, length, map, get_elem?, arith, ok,
}
use enclave_signer.Spv.Types.{Bitcoin, Network, add32, sub32, allows_min_difficulty, pow_limit_bits}
use enclave_signer.Spv.Validation.{
  Predecessor, is_retarget_height, check_timewarp, check_future_time, insert, sort,
  median_time_past, check_time_too_old, check_linkage, check_pow, expected_bits, check_bits,
  validate_header_full,
}
use enclave_signer.Spv.Validation.Accept.{IsAcceptable, validate_header_full_iff}
use enclave_signer.Spv.Chain.{
  Checkpoint, SubmitOutcome, HeaderChain, max_reorg_depth, tip_height, tip_hash, header_at, hash_at,
  block_at, times_from, median_time_past_below, bits_input, required_bits, previous, stage,
  predecessor, sum_from, sum_work, check_batch, commit, conclude, submit_headers,
}
use enclave_signer.Spv.Chain.Links.{IsValid, Linked}
use enclave_signer.Spv.Chain.Commit.{total_work}
use enclave_signer.Spv.Chain.Submit.{
  submit_headers-IsValid, submit_headers_final, submit_headers_work, submit_headers-ok,
}

pub record ToyHeader : Type 0 where
  parent : ℕ
  stamp : ℕ
  target : ℕ
  id : ℕ

abbrev parse : List ℕ → Option ToyHeader
parse (p ∷ t ∷ b ∷ h ∷ []) = some (record { parent = p; stamp = t; target = b; id = h })
parse _ = none

-- 32 times the same byte.
abbrev pub thirty_two : ℕ → List ℕ
thirty_two b =
    b ∷ b ∷ b ∷ b ∷ b ∷ b ∷ b ∷ b ∷ b ∷ b ∷ b ∷ b ∷ b ∷ b ∷ b ∷ b ∷ b ∷ b ∷ b ∷ b ∷ b ∷ b ∷ b ∷ b
    ∷ b ∷ b ∷ b ∷ b ∷ b ∷ b ∷ b ∷ b ∷ []

abbrev pub toy : Bitcoin
toy = record {
  Header = ToyHeader;
  deserialize = parse;
  serialize = λ h. h.parent ∷ h.stamp ∷ h.target ∷ h.id ∷ [];
  prev_blockhash = λ h. h.parent;
  time = λ h. h.stamp;
  bits = λ h. h.target;
  merkle_root = λ h. thirty_two h.id;
  block_hash = λ h. h.id;
  work = λ h. h.target;
  validate_pow = λ _. true;
  pow_target_spacing = λ _. 600;
  allow_min_difficulty_blocks = λ _. true;
  max_attainable_bits = λ _. 1;
  from_next_work_required = λ bits _ _. bits;
}

abbrev anchor : Checkpoint
anchor = record { height = 5; hash = 50; bits = 1; time = 1000; is_real = true; chain_work = none }

abbrev pub three : HeaderChain ToyHeader
three = record {
  network = Network.signet;
  checkpoint = anchor;
  base_height = 5;
  base_hash = 50;
  base_bits = 1;
  base_time = 1000;
  headers =
      record { parent = 50; stamp = 1600; target = 1; id = 51 }
      ∷ record { parent = 51; stamp = 2200; target = 1; id = 52 }
      ∷ [];
  hashes = 51 ∷ 52 ∷ [];
  max_stored_headers = 1_000_000;
}

-- A heavier branch from height 7 on.
abbrev branch : List (List ℕ)
branch = (51 ∷ 2300 ∷ 3 ∷ 62 ∷ []) ∷ (62 ∷ 2900 ∷ 3 ∷ 63 ∷ []) ∷ []

program : Unit {0}
unfolding add32 sub32 allows_min_difficulty pow_limit_bits is_retarget_height check_timewarp
    check_future_time insert sort median_time_past check_time_too_old check_linkage check_pow
    expected_bits check_bits validate_header_full tip_height tip_hash header_at hash_at block_at
    times_from median_time_past_below bits_input required_bits previous stage predecessor sum_from
    sum_work check_batch commit conclude submit_headers
program = tt

abbrev switched : SubmitOutcome
switched = record {
  last_block_height = 8;
  last_block_hash = 63;
  headers_accepted = 2;
  reorg_depth = 1;
}

switches : (submit_headers toy three 7 branch 5000).1 ≡ ok switched
unfolding program
switches = refl

pub three-IsValid : IsValid toy three
three-IsValid = record {
  height_is = refl;
  hash_is = refl;
  cached = refl;
  linked = (refl, (refl, tt));
  pow = λ _. (refl, (refl, tt));
  bounded = omega arith;
  fits = omega arith;
}

submit_headers-IsValid_example : IsValid toy (submit_headers toy three 7 branch 5000).0
submit_headers-IsValid_example = submit_headers-IsValid toy three three-IsValid 7 branch 5000

submit_headers-ok_example :
    ((height : ℕ)
      → height < 7
      → header_at (submit_headers toy three 7 branch 5000).0 height ≡ header_at three height)
    × ((i : ℕ)
        → i < length branch
        → get_elem? (map parse branch) i
          ≡ some (header_at (submit_headers toy three 7 branch 5000).0 (7 + i)))
    × (tip_height (submit_headers toy three 7 branch 5000).0 + 1 ≡ 7 + length branch)
    × (switched ≡ record {
      last_block_height = tip_height (submit_headers toy three 7 branch 5000).0;
      last_block_hash = tip_hash (submit_headers toy three 7 branch 5000).0;
      headers_accepted = length branch;
      reorg_depth = tip_height three + 1 - 7;
    })
submit_headers-ok_example =
    submit_headers-ok toy three three-IsValid 7 branch 5000 (omega arith) switches

submit_headers_work_example :
    (((added : List ToyHeader) × ((submit_headers toy three 7 branch 5000).0.headers
          ≡ three.headers ++ added))
      ⊎ (total_work toy three.headers
          < total_work toy (submit_headers toy three 7 branch 5000).0.headers))
    ⊎ ((2 ^ 256 ≤ total_work toy three.headers)
        ⊎ (2 ^ 256 ≤ total_work toy (submit_headers toy three 7 branch 5000).0.headers))
submit_headers_work_example = submit_headers_work toy three three-IsValid 7 branch 5000

-- `n` headers above a block of hash `p`.
abbrev pub chained : ℕ → ℕ → List ToyHeader
chained p zero = []
chained p (suc n) =
    record { parent = p; stamp = 1000 + 10 * p; target = 1; id = p + 1 } ∷ chained (p + 1) n

pub chained-Linked : (p n : ℕ) → Linked toy p (chained p n)
chained-Linked p zero = tt
chained-Linked p (suc n) = (refl, chained-Linked (p + 1) n)

pub chained_pow : (p n : ℕ) → All (λ h. toy.validate_pow h ≡ true) (chained p n)
chained_pow p zero = tt
chained_pow p (suc n) = (refl, chained_pow (p + 1) n)

abbrev deep : HeaderChain ToyHeader
deep = record three { headers = chained 50 102; hashes = map toy.block_hash (chained 50 102) }

deep-IsValid : IsValid toy deep
deep-IsValid = record {
  height_is = refl;
  hash_is = refl;
  cached = refl;
  linked = chained-Linked 50 102;
  pow = λ _. chained_pow 50 102;
  bounded = omega arith;
  fits = omega arith;
}

-- A heavier tip above height 106.
abbrev other_tip : List (List ℕ)
other_tip = (151 ∷ 3000 ∷ 7 ∷ 900 ∷ []) ∷ []

replaces_tip :
    (submit_headers toy deep 107 other_tip 5000).1
    ≡ ok (record {
      last_block_height = 107;
      last_block_hash = 900;
      headers_accepted = 1;
      reorg_depth = 1;
    })
unfolding program
replaces_tip = refl

deep_enough : 7 + max_reorg_depth ≤ tip_height deep
unfolding tip_height add32
deep_enough = omega arith

submit_headers_final_example :
    header_at (submit_headers toy deep 107 other_tip 5000).0 7 ≡ header_at deep 7
submit_headers_final_example =
    submit_headers_final toy deep deep-IsValid 107 other_tip 5000 7 deep_enough

abbrev next_header : ToyHeader
next_header = record { parent = 52; stamp = 2800; target = 1; id = 53 }

abbrev last_block : Predecessor
last_block = record { hash = 52; time = 2200 }

validate_header_full_iff_example :
    (validate_header_full toy next_header 8 last_block (some 1600) (some 1) Network.signet 5000
      ≡ ok tt)
    ↔ IsAcceptable toy next_header 8 last_block (some 1600) (some 1) Network.signet 5000
validate_header_full_iff_example =
    validate_header_full_iff toy next_header 8 last_block (some 1600) (some 1) Network.signet 5000
