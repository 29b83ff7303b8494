-- ===== src/Evm/Signing/Words.antt =====
-- A buffer of 32-byte words determines its words, and each word what it encodes, unless Keccak-256
-- collides.
use enclave_signer.Prelude.{
  ℕ, zero, suc, ◌+◌, ◌<◌, ◌≡◌, refl, sym, ap, ◌∙◌, List, [], ◌∷◌, ◌++◌, All, length, length-append,
  arith, Bytes, be_value, to_be_bytes, range, be_value-to_be_bytes, length-to_be_bytes,
  append_cancel,
}
use enclave_signer.Evm.Release.{zero_bytes}
use enclave_signer.Evm.Signing.{abi_encode_u256, abi_encode_u32, abi_encode_address, word, joined}

abbrev pub IsWord : Bytes → Type 0
IsWord bytes = length bytes ≡ 32

-- The proofs for the words of a list, one after the other.
infixr 5 ◌&◌
abbrev pub ◌&◌ : {P Q : Type 0} → P → Q → P × Q
p & q = (p, q)

pub joined_injective :
    (ws vs : List Bytes) → All IsWord ws → All IsWord vs → joined ws ≡ joined vs → ws ≡ vs
joined_injective [] [] p q e = refl
joined_injective [] (v ∷ vs) p q e =
    absurd (omega (arith, q.0, length-append v (joined vs), ap length e))
joined_injective (w ∷ ws) [] p q e =
    absurd (omega (arith, p.0, length-append w (joined ws), ap length e))
joined_injective (w ∷ ws) (v ∷ vs) p q e =
    let (same, rest) = append_cancel w (joined ws) v (joined vs) (p.0 ∙ sym q.0) e in
    λ i. same i ∷ joined_injective ws vs p.1 q.1 rest i

pub to_be_bytes_injective :
    (width a b : ℕ)
    → a < range width
    → b < range width
    → to_be_bytes width a [] ≡ to_be_bytes width b []
    → a ≡ b
to_be_bytes_injective width a b p q e =
    sym (be_value-to_be_bytes width a p) ∙ ap (be_value 0) e ∙ be_value-to_be_bytes width b q

length-zero_bytes : (n : ℕ) → length (zero_bytes n) ≡ n
length-zero_bytes zero = refl
length-zero_bytes (suc n) = ap suc (length-zero_bytes n)

pub padded_injective : (n : ℕ) (a b : Bytes) → zero_bytes n ++ a ≡ zero_bytes n ++ b → a ≡ b
padded_injective n a b e = (append_cancel (zero_bytes n) a (zero_bytes n) b refl e).1

pub word-IsWord : (n : ℕ) → IsWord (word n)
word-IsWord n = omega (arith, length-to_be_bytes 32 n [])

padded-length : (n : ℕ) (a : Bytes) → length (zero_bytes n ++ a) ≡ n + length a
padded-length n a = length-append (zero_bytes n) a ∙ ap (λ m. m + length a) (length-zero_bytes n)

pub u256-IsWord : (n : ℕ) → IsWord (abi_encode_u256 n)
u256-IsWord n = omega (arith, padded-length 24 (to_be_bytes 8 n []), length-to_be_bytes 8 n [])

pub u32-IsWord : (n : ℕ) → IsWord (abi_encode_u32 n)
u32-IsWord n = omega (arith, padded-length 28 (to_be_bytes 4 n []), length-to_be_bytes 4 n [])

pub address-IsWord : (a : Bytes) → length a ≡ 20 → IsWord (abi_encode_address a)
address-IsWord a h = omega (arith, padded-length 12 a, h)

pub u256_injective :
    (a b : ℕ) → a < range 8 → b < range 8 → abi_encode_u256 a ≡ abi_encode_u256 b → a ≡ b
u256_injective a b p q e =
    to_be_bytes_injective 8 a b p q
      (padded_injective 24 (to_be_bytes 8 a []) (to_be_bytes 8 b []) e)

pub u32_injective :
    (a b : ℕ) → a < range 4 → b < range 4 → abi_encode_u32 a ≡ abi_encode_u32 b → a ≡ b
u32_injective a b p q e =
    to_be_bytes_injective 4 a b p q
      (padded_injective 28 (to_be_bytes 4 a []) (to_be_bytes 4 b []) e)
