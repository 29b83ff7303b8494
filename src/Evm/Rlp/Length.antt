-- ===== src/Evm/Rlp/Length.antt =====
-- The length of a long form is the one that its bytes spell.
use mathlib.Core.List.{append-nil}
use enclave_signer.Prelude.{
  AreBytes, ℕ, zero, suc, ◌+◌, ◌-◌, ◌*◌, ◌/◌, ◌%◌, ◌≤◌, ◌<◌, ◌≡◌, refl, sym, ap, ◌∙◌, false, List,
  [], ◌∷◌, ◌++◌, arith, length, take, drop, leb, ◌==◌, ok, length-take, All-take,
}
use enclave_signer.Evm.Rlp.{first_or_zero, accumulate, read_long_len, usize_mod}
use enclave_signer.Evm.Rlp.Encode.{big_endian}

-- The values that stay within a word when `n` more bytes are read.
abbrev room_for : ℕ → ℕ
room_for zero = usize_mod
room_for (suc n) = room_for n / 256

room_for-le : (n : ℕ) → room_for n ≤ usize_mod
room_for-le zero = omega arith
room_for-le (suc n) = omega (arith, room_for-le n)

room_for_eight : (n : ℕ) → n ≤ 8 → 0 < room_for n
room_for_eight zero h = omega arith
room_for_eight (suc zero) h = omega arith
room_for_eight (suc (suc zero)) h = omega arith
room_for_eight (suc (suc (suc zero))) h = omega arith
room_for_eight (suc (suc (suc (suc zero)))) h = omega arith
room_for_eight (suc (suc (suc (suc (suc zero))))) h = omega arith
room_for_eight (suc (suc (suc (suc (suc (suc zero)))))) h = omega arith
room_for_eight (suc (suc (suc (suc (suc (suc (suc zero))))))) h = omega arith
room_for_eight (suc (suc (suc (suc (suc (suc (suc (suc zero)))))))) h = omega arith
room_for_eight (suc (suc (suc (suc (suc (suc (suc (suc (suc n))))))))) h = absurd (omega arith)

-- The accumulated number has the bytes that were read, when they have no leading zero.
big_endian-accumulate :
    (bytes : List ℕ) (a fuel : ℕ) (acc : List ℕ) {n : ℕ}
    → AreBytes bytes
    → 0 < a + first_or_zero bytes
    → a < room_for (length bytes)
    → accumulate a bytes ≡ ok n
    → big_endian (length bytes + fuel) n acc ≡ big_endian fuel a (bytes ++ acc)
unfolding accumulate big_endian
big_endian-accumulate [] a fuel acc p pos fits h = ground arith
big_endian-accumulate (b ∷ bytes) a fuel acc {n} p pos fits h =
    let cap = room_for-le (length bytes) in
    let no_wrap : a * 256 % usize_mod ≡ a * 256 = omega (arith, cap) in
    let shift : suc (length bytes) + fuel ≡ length bytes + suc fuel = omega arith in
    let digit : (a * 256 + b) % 256 ≡ b = omega (arith, p.0) in
    let rest : (a * 256 + b) / 256 ≡ a = omega (arith, p.0) in
    let nonzero : ((a * 256 + b) == 0) ≡ false = ground arith in
    let small : leb usize_mod (a * 256 + b) ≡ false = ground (arith, cap, p.0) in
    rw shift (
      big_endian-accumulate bytes (a * 256 + b) (suc fuel) acc p.1 (omega arith)
        (omega (arith, p.0)) (rw (no_wrap, small) at h)
      ∙ rw (nonzero, digit, rest))

big_endian_zero : (fuel : ℕ) (acc : List ℕ) → big_endian fuel 0 acc ≡ acc
unfolding big_endian
big_endian_zero zero acc = refl
big_endian_zero (suc fuel) acc = refl

big_endian_whole :
    (bytes : List ℕ) {n : ℕ}
    → AreBytes bytes
    → 0 < first_or_zero bytes
    → length bytes ≤ 8
    → accumulate 0 bytes ≡ ok n
    → big_endian 8 n [] ≡ bytes
big_endian_whole bytes {n} p nonzero small h =
    let eight : 8 ≡ length bytes + (8 - length bytes) = omega arith in
    ap (λ fuel. big_endian fuel n []) eight
    ∙ big_endian-accumulate bytes 0 (8 - length bytes) [] p (omega arith)
        (room_for_eight (length bytes) small) h
    ∙ big_endian_zero (8 - length bytes) (bytes ++ [])
    ∙ append-nil bytes

take_nil : (n : ℕ) → take {A = ℕ} n [] ≡ []
take_nil zero = refl
take_nil (suc n) = refl

pub take_add : (a b : ℕ) (xs : List ℕ) → take (a + b) xs ≡ take a xs ++ take b (drop a xs)
take_add zero b xs = ap (λ n. take n xs) (omega arith)
take_add (suc a) b [] = take_nil (suc a + b) ∙ sym (take_nil b)
take_add (suc a) b (x ∷ xs) =
    let shift : suc a + b ≡ suc (a + b) = omega arith in rw shift (ap (◌∷◌ x) (take_add a b xs))

pub read_long_len-big_endian :
    (b0 : ℕ) (rest : List ℕ) (len_of_len : ℕ) {len end : ℕ}
    → AreBytes rest
    → len_of_len ≤ 8
    → read_long_len (b0 ∷ rest) len_of_len ≡ ok (len, end)
    → (end ≡ 1 + len_of_len)
      × (55 < len)
      × (len_of_len ≤ length rest)
      × (big_endian 8 len [] ≡ take len_of_len rest)
unfolding read_long_len
read_long_len-big_endian b0 rest len_of_len {len} p small h =
    let enough : len_of_len ≤ length rest = ground arith in
    let measured : length (take len_of_len rest) ≡ len_of_len =
      omega (arith, length-take len_of_len rest) in
    let nonzero : 0 < first_or_zero (take len_of_len rest) = ground arith in
    let read : accumulate 0 (take len_of_len rest) ≡ ok len = ground arith in
    (
      ground arith,
      ground arith,
      enough,
      big_endian_whole (take len_of_len rest) (All-take _ len_of_len rest p) nonzero (omega arith)
          read,
    )
