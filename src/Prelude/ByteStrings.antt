-- ===== src/Prelude/ByteStrings.antt =====
-- Bytes as numbers: a byte string is a list of them.
use Prim.Native.Nat.{ℕ, zero, suc, ◌+◌, ◌*◌, ◌/◌, ◌%◌, ◌<◌}
use mathlib.Core.Path.{◌≡◌, refl, ap, ◌∙◌}
use mathlib.Core.Logic.{◌≢◌}
use mathlib.Core.Bool.{Bool, true, false, ◌&&◌, ◌||◌}
use mathlib.Core.Option.{Option, none, some}
use mathlib.Core.List.{List, [], ◌∷◌, ◌++◌, append-nil}
use native.Mathlib.Decide.{ℕ_discrete}
use native.Mathlib.Omega.{arith}
use enclave_signer.Prelude.Tests.{ltb, ◌==◌, if◌then◌else◌}
use enclave_signer.Prelude.Lists.{length, take, drop, All}

abbrev pub Bytes : Type 0
Bytes = List ℕ

unfoldable pub bytes_discrete : Discrete Bytes
unfolding ℕ_discrete
bytes_discrete = hlevel ℕ_discrete

abbrev pub AreBytes : Bytes → Type 0
AreBytes = All (λ b. b < 256)

-- `v = (v << 8) | b` for each byte, on a number whose width is checked before the loop.
abbrev pub be_value : ℕ → Bytes → ℕ
be_value v [] = v
be_value v (b ∷ bytes) = be_value (v * 256 + b) bytes

-- The last `width` big-endian bytes of a number, put before `acc`.
unfoldable pub to_be_bytes : ℕ → ℕ → Bytes → Bytes
to_be_bytes zero n acc = acc
to_be_bytes (suc width) n acc = to_be_bytes width (n / 256) (n % 256 ∷ acc)

-- `split_first_chunk`
abbrev pub split_first_chunk : ℕ → Bytes → Option (Bytes × Bytes)
split_first_chunk n bytes = if ltb (length bytes) n then none else some (take n bytes, drop n bytes)

-- `split_first`
abbrev pub split_first : Bytes → Option (ℕ × Bytes)
split_first [] = none
split_first (b ∷ bytes) = some (b, bytes)

-- Equality of byte slices.
unfoldable pub same_bytes : Bytes → Bytes → Bool
same_bytes [] [] = true
same_bytes [] (c ∷ cs) = false
same_bytes (b ∷ bs) [] = false
same_bytes (b ∷ bs) (c ∷ cs) = b == c && same_bytes bs cs

unfoldable pub starts_with : Bytes → Bytes → Bool
starts_with bytes [] = true
starts_with [] (p ∷ prefix) = false
starts_with (b ∷ bytes) (p ∷ prefix) = b == p && starts_with bytes prefix

unfoldable pub contains : List Bytes → Bytes → Bool
contains [] key = false
contains (k ∷ ks) key = same_bytes k key || contains ks key

pub same_bytes→≡ : (bs cs : Bytes) → same_bytes bs cs ≡ true → bs ≡ cs
unfolding same_bytes
same_bytes→≡ [] [] h = refl
same_bytes→≡ [] (c ∷ cs) h = cc
same_bytes→≡ (b ∷ bs) [] h = cc
same_bytes→≡ (b ∷ bs) (c ∷ cs) h = ground (arith, same_bytes→≡ bs cs)

pub same_bytes_refl : (bs : Bytes) → same_bytes bs bs ≡ true
unfolding same_bytes
same_bytes_refl [] = refl
same_bytes_refl (b ∷ bs) = ground (arith, same_bytes_refl bs)

pub same_bytes-false : (bs cs : Bytes) → same_bytes bs cs ≡ false → bs ≢ cs
same_bytes-false bs cs h e = ground (arith, same_bytes_refl bs)

zero_add : (n : ℕ) → 0 + n ≡ n
zero_add n = omega arith

to_be_bytes-value :
    (bytes : Bytes) (a width : ℕ) (acc : Bytes)
    → AreBytes bytes
    → to_be_bytes (length bytes + width) (be_value a bytes) acc ≡ to_be_bytes width a (bytes ++ acc)
unfolding to_be_bytes
to_be_bytes-value [] a width acc p = ap (λ w. to_be_bytes w a acc) (zero_add width)
to_be_bytes-value (b ∷ bytes) a width acc p =
    let shift : suc (length bytes) + width ≡ length bytes + suc width = omega arith in
    let digit : (a * 256 + b) % 256 ≡ b = omega (arith, p.0) in
    let rest : (a * 256 + b) / 256 ≡ a = omega (arith, p.0) in
    rw shift (to_be_bytes-value bytes (a * 256 + b) (suc width) acc p.1 ∙ rw (digit, rest))

-- Bytes are those of the number that they spell.
pub to_be_bytes-be_value :
    (bytes : Bytes) → AreBytes bytes → to_be_bytes (length bytes) (be_value 0 bytes) [] ≡ bytes
unfolding to_be_bytes
to_be_bytes-be_value bytes p =
    let whole : length bytes ≡ length bytes + 0 = omega arith in
    ap (λ width. to_be_bytes width (be_value 0 bytes) []) whole
    ∙ to_be_bytes-value bytes 0 0 [] p
    ∙ append-nil bytes

-- How many numbers so many bytes can spell.
abbrev pub range : ℕ → ℕ
range zero = 1
range (suc width) = 256 * range width

be_value-bytes :
    (width n : ℕ) (acc : Bytes)
    → n < range width
    → be_value 0 (to_be_bytes width n acc) ≡ be_value n acc
unfolding to_be_bytes
be_value-bytes zero n acc small =
    let none_left : 0 ≡ n = omega arith in ap (λ v. be_value v acc) none_left
be_value-bytes (suc width) n acc small =
    let whole : n / 256 * 256 + n % 256 ≡ n = omega arith in
    be_value-bytes width (n / 256) (n % 256 ∷ acc) (omega arith) ∙ ap (λ v. be_value v acc) whole

pub be_value-to_be_bytes : (width n : ℕ) → n < range width → be_value 0 (to_be_bytes width n []) ≡ n
be_value-to_be_bytes width n small = be_value-bytes width n [] small

pub length-to_be_bytes :
    (width n : ℕ) (acc : Bytes) → length (to_be_bytes width n acc) ≡ width + length acc
unfolding to_be_bytes
length-to_be_bytes zero n acc = omega arith
length-to_be_bytes (suc width) n acc =
    omega (arith, length-to_be_bytes width (n / 256) (n % 256 ∷ acc))
