-- ===== src/Evm/Relay/Agreement/Decode.antt =====
-- The proof in the calldata, word by word, and the entry of a list of proofs that is found.
use enclave_signer.Prelude.{
  ℕ, zero, suc, ◌+◌, ◌≡◌, ◌≢◌, ◌∙◌, sym, ap, subst, refl, false, some, List, [], ◌∷◌, ◌++◌, not,
  ◌==◌, length, take, drop, arith, ok, err, get_elem?, bind-ok, refuse_if_past, Bytes, AreBytes,
  be_value, to_be_bytes, to_be_bytes-be_value, same_bytes, same_bytes→≡, take-append-drop, take_all,
  length-take, length-drop, All-take, All-drop, Bool-cases, inl, inr,
}
use enclave_signer.Error.{EnclaveError, EnclaveResult, cross_check}
use enclave_signer.Spv.CrossCheck.{MerkleProofEntry}
use enclave_signer.Evm.Relay.{
  ReleaseIdentity, ProofBlock, any_nonzero, proof_height, word_at, decode_funds_out_proof,
  find_proof,
}

-- The proof as the contract encodes it: each height in a word, and each commitment after it.
abbrev pub encoded : ProofBlock → ProofBlock → Bytes
encoded source latest =
    to_be_bytes 32 source.height []
    ++ (source.commitment ++ (to_be_bytes 32 latest.height [] ++ latest.commitment))

pub err_ok : {A : Type 0} {a : A} {e : EnclaveError} → ◌≢◌ {A = EnclaveResult A} (err e) (ok a)
err_ok h = cc

pub ok_is : {A : Type 0} {a b : A} → ◌≡◌ {A = EnclaveResult A} (ok a) (ok b) → a ≡ b
ok_is e = cc

zero_add : (a : ℕ) → a ≡ 0 + a
zero_add a = omega arith

some_is : {A : Type 0} {a b : A} → some a ≡ some b → a ≡ b
some_is e = cc

value_past_zeros :
    (n : ℕ) (bytes : Bytes)
    → any_nonzero (take n bytes) ≡ false
    → be_value 0 bytes ≡ be_value 0 (drop n bytes)
value_past_zeros zero bytes h = refl
value_past_zeros (suc n) [] h = refl
value_past_zeros (suc n) (b ∷ bytes) h =
    let none_left : 0 + b ≡ 0 = ground (arith, h) in
    let rest : any_nonzero (take n bytes) ≡ false = ground (arith, h) in
    ap (λ v. be_value v bytes) none_left ∙ value_past_zeros n bytes rest

-- A height word is the 32-byte encoding of the height.
proof_height-word :
    (word : Bytes) {height : ℕ}
    → AreBytes word
    → length word ≡ 32
    → proof_height word ≡ ok height
    → word ≡ to_be_bytes 32 height []
unfolding proof_height
proof_height-word word {height} p size h =
    let (small, h1) = refuse_if_past (any_nonzero (take 28 word)) cross_check _ h in
    let last : take 4 (drop 28 word) ≡ drop 28 word =
      take_all 4 (drop 28 word) (omega (arith, length-drop 28 word)) in
    let value : be_value 0 word ≡ height =
      value_past_zeros 28 word small ∙ ap (be_value 0) (sym last) ∙ ok_is h1 in
    sym (to_be_bytes-be_value word p)
    ∙ ap (λ n. to_be_bytes n (be_value 0 word) []) size
    ∙ ap (λ v. to_be_bytes 32 v []) value

drop_nil : (n : ℕ) → drop {A = ℕ} n [] ≡ []
drop_nil zero = refl
drop_nil (suc n) = refl

drop-drop : (a b : ℕ) (bytes : Bytes) → drop a (drop b bytes) ≡ drop (b + a) bytes
drop-drop a zero bytes = ap (λ n. drop n bytes) (zero_add a)
drop-drop a (suc b) [] = drop_nil a ∙ sym (drop_nil (suc b + a))
drop-drop a (suc b) (x ∷ bytes) =
    let shift : suc b + a ≡ suc (b + a) = omega arith in rw shift (drop-drop a b bytes)

split_word : (n : ℕ) (proof : Bytes) → drop n proof ≡ word_at n proof ++ drop (n + 32) proof
split_word n proof =
    sym (take-append-drop 32 (drop n proof)) ∙ ap (λ l. word_at n proof ++ l) (drop-drop 32 n proof)

sized_is : (n : ℕ) → not (n == 128) ≡ false → n ≡ 128
sized_is n h = ground arith

pub equal_heights : (a b : ℕ) → not (a == b) ≡ false → a ≡ b
equal_heights a b h = ground arith

four_words :
    (proof : Bytes)
    → length proof ≡ 128
    → proof ≡ word_at 0 proof ++ (word_at 32 proof ++ (word_at 64 proof ++ word_at 96 proof))
four_words proof size =
    split_word 0 proof
    ∙ ap (λ l. word_at 0 proof ++ l)
        (split_word 32 proof
          ∙ ap (λ l. word_at 32 proof ++ l)
              (split_word 64 proof
                ∙ ap (λ l. word_at 64 proof ++ l)
                    (sym
                      (take_all 32 (drop 96 proof) (omega (arith, size, length-drop 96 proof))))))

pub decode_funds_out_proof-ok :
    (release : ReleaseIdentity) {source latest : ProofBlock}
    → AreBytes release.proof
    → decode_funds_out_proof release ≡ ok (source, latest)
    → release.proof ≡ encoded source latest
unfolding decode_funds_out_proof
decode_funds_out_proof-ok release {source} {latest} p h =
    let (_, h1) = refuse_if_past (length release.proof == 0) cross_check _ h in
    let (sized, h2) = refuse_if_past (not (length release.proof == 128)) cross_check _ h1 in
    let (s, is_s, h3) = bind-ok (proof_height (word_at 0 release.proof)) _ h2 in
    let (l, is_l, h4) = bind-ok (proof_height (word_at 64 release.proof)) _ h3 in
    let all : length release.proof ≡ 128 = sized_is (length release.proof) sized in
    let source_word =
      proof_height-word (word_at 0 release.proof) (All-take _ 32 release.proof p)
        (omega (arith, all, length-take 32 release.proof)) is_s in
    let latest_word =
      proof_height-word (word_at 64 release.proof)
        (All-take _ 32 (drop 64 release.proof) (All-drop _ 64 release.proof p))
        (omega (arith, all, length-take 32 (drop 64 release.proof), length-drop 64 release.proof))
        is_l in
    subst (λ x. release.proof ≡ encoded x.0 x.1) (ok_is h4)
      (four_words release.proof all ∙ (λ i.
        source_word i ++ (word_at 32 release.proof ++ (latest_word i ++ word_at 96 release.proof))))

pub find_proof-ok :
    (txid : Bytes) (proofs : List MerkleProofEntry) {p : MerkleProofEntry}
    → find_proof txid proofs ≡ some p
    → (p.txid ≡ txid) × (i : ℕ) × (get_elem? proofs i ≡ some p)
find_proof-ok txid [] h = cc
find_proof-ok txid (q ∷ proofs) h = elim (Bool-cases (same_bytes q.txid txid)) [
  | inl here ↦
      let is = some_is (rw here at h) in
      (ap (λ r. r.txid) (sym is) ∙ same_bytes→≡ q.txid txid here, 0, rw here at h)
  | inr past ↦ let (same, i, at_i) = find_proof-ok txid proofs (rw past at h) in (same, suc i, at_i)
]
