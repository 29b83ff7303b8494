-- ===== src/Kms/Ber/Parsed.antt =====
-- The nodes that the parser answers with.
use enclave_signer.Prelude.{
  ℕ, zero, suc, ◌+◌, ◌-◌, ◌/◌, ◌%◌, ◌≤◌, ◌<◌, ◌≡◌, ◌≢◌, ◌∙◌, sym, ap, refl, Bool, true, false, ◌&&◌,
  Option, none, some, [], ◌∷◌, ◌++◌, length, take, drop, length-take, arith, ok, err, ltb, ◌==◌,
  Bytes, Bool-cases, inl, inr, bind-ok, refuse_if_past, subst,
}
use enclave_signer.Kms.Ber.{
  Node, primitive, constructed, Nodes, nil, cons, BerResult, refused, max_tag_bytes, long_tag,
  tag_length, is_constructed, length_octets, Parser, parse_definite, is_end, parse_indefinite,
  parse_body, eligible, all_chunks, primitive_tag, joined, parse,
}

-- The bytes are identifier octets, of a constructed value or not, whatever follows them.
pub record IsTag (tag : Bytes) (is : Bool) : Type 0 where
  pub ends : (rest : Bytes) → tag_length (tag ++ rest) ≡ ok (length tag)
  pub form : (rest : Bytes) → is_constructed (tag ++ rest) ≡ is
  pub some_byte : 0 < length tag

-- A node that the parser can answer with, at so many levels: its tags are identifier octets, and
-- no string is left in chunks.
abbrev mutual
  pub IsNode : ℕ → Node → Type 0
  IsNode zero node = ⊥
  IsNode (suc levels) (primitive tag bytes) = IsTag tag false
  IsNode (suc levels) (constructed tag children) =
      IsTag tag true × ((eligible tag && all_chunks children) ≡ false) × AreNodes levels children

  pub AreNodes : ℕ → Nodes → Type 0
  AreNodes levels nil = Unit
  AreNodes levels (cons child children) = IsNode levels child × AreNodes levels children

refused_ok : {r : BerResult ℕ} {n : ℕ} → r ≡ err refused → r ≢ ok n
refused_ok e f = cc

pub ok_is : {A : Type 0} {a b : A} → ◌≡◌ {A = BerResult A} (ok a) (ok b) → a ≡ b
ok_is e = cc

long_tag_ends :
    (offset : ℕ) (bytes : Bytes) {n : ℕ}
    → long_tag offset bytes ≡ ok n
    → (offset < n)
      × (n - offset ≤ length bytes)
      × ((rest : Bytes) → long_tag offset (take (n - offset) bytes ++ rest) ≡ ok n)
unfolding long_tag
long_tag_ends offset [] h = cc
long_tag_ends offset (b ∷ bytes) {n} h = elim (Bool-cases (ltb max_tag_bytes (offset + 1))) [
  | inl over ↦ absurd (refused_ok refl (rw (over, long_tag) at h))
  | inr room ↦ elim (Bool-cases (ltb b 128)) [
    | inl last ↦
        let n_is : n ≡ offset + 1 = ground (arith, room, last) in
        let one : n - offset ≡ 1 = omega (arith, n_is) in
        (omega (arith, n_is), omega (arith, n_is), λ rest. rw (one, room, last, n_is))
    | inr more ↦
        let (after, enough, again) =
          long_tag_ends (offset + 1) bytes (rw (room, more, long_tag) at h) in
        let shift : n - offset ≡ suc (n - (offset + 1)) = omega (arith, after) in
        (omega (arith, after), omega (arith, enough), λ rest. rw (shift, room, more) (again rest))
  ]
]

pub tag_length-IsTag :
    (input : Bytes) {n : ℕ}
    → tag_length input ≡ ok n
    → (n ≤ length input) × IsTag (take n input) (is_constructed input)
unfolding tag_length is_constructed
tag_length-IsTag [] h = cc
tag_length-IsTag (first ∷ bytes) {n} h = elim (Bool-cases (first % 32 == 31)) [
  | inr short ↦
      let n_is : n ≡ 1 = ground (arith, short) in
      rw n_is (
        omega arith,
        record { ends = λ rest. rw short; form = λ rest. refl; some_byte = omega arith },
      )
  | inl long ↦
      let (after, enough, again) = long_tag_ends 1 bytes (rw (long, tag_length) at h) in
      let shift : n ≡ suc (n - 1) = omega (arith, after) in
      let size : n ≡ suc (length (take (n - 1) bytes)) =
        omega (arith, length-take (n - 1) bytes, enough, after) in
      rw shift (
        omega (arith, enough),
        record {
          ends = λ rest. rw long (again rest ∙ ap ok size);
          form = λ rest. refl;
          some_byte = omega arith;
        },
      )
]

-- Before it is joined.
abbrev IsBody : ℕ → Node → Type 0
IsBody levels (primitive tag bytes) = IsTag tag false
IsBody levels (constructed tag children) = IsTag tag true × AreNodes levels children

short_first : (first : ℕ) → tag_length (first ∷ []) ≡ ok 1 → (first % 32 == 31) ≡ false
unfolding tag_length long_tag
short_first first h = ground arith

primitive_tag-IsTag :
    (tag : Bytes) → IsTag tag true → eligible tag ≡ true → IsTag (primitive_tag tag) false
unfolding tag_length is_constructed
primitive_tag-IsTag [] t e = cc
primitive_tag-IsTag (first ∷ []) t e =
    let set = t.form [] in
    let odd : first / 32 % 2 ≡ 1 = ground (arith, set) in
    let short = short_first first (t.ends []) in
    let low : (first - 32) % 32 ≡ first % 32 = omega (arith, odd) in
    let even : (first - 32) / 32 % 2 ≡ 0 = omega (arith, odd) in
    rw set
      (record { ends = λ rest. rw (low, short); form = λ rest. rw even; some_byte = omega arith })
primitive_tag-IsTag (first ∷ second ∷ tag) t e = cc

joined-IsNode : (levels : ℕ) (node : Node) → IsBody levels node → IsNode (suc levels) (joined node)
unfolding joined
joined-IsNode levels (primitive tag bytes) b = b
joined-IsNode levels (constructed tag children) (t, c) =
    elim (Bool-cases (eligible tag && all_chunks children)) [
      | inl join ↦ rw join (primitive_tag-IsTag tag t (ground arith))
      | inr keep ↦ rw keep (t, keep, c)
    ]

abbrev pub Sound : ℕ → Parser → Type 0
Sound levels p =
    (input : Bytes) (node : Node) (used : ℕ) → p input ≡ ok (node, used) → IsNode levels node

module _ (levels : ℕ) (p : Parser) (sound : Sound levels p) where
  parse_definite-AreNodes :
      (fuel : ℕ) (content : Bytes) {children : Nodes}
      → parse_definite p fuel content ≡ ok children
      → AreNodes levels children
  unfolding parse_definite
  parse_definite-AreNodes fuel [] h = subst (AreNodes levels) (ok_is h) tt
  parse_definite-AreNodes zero (b ∷ content) h = cc
  parse_definite-AreNodes (suc fuel) (b ∷ content) h =
      let (first, is_first, h1) = bind-ok (p (b ∷ content)) _ h in
      let (others, is_others, h2) =
        bind-ok (parse_definite p fuel (drop first.1 (b ∷ content))) _ h1 in
      rw (sym (ok_is h2)) (
        sound (b ∷ content) first.0 first.1 is_first,
        parse_definite-AreNodes fuel (drop first.1 (b ∷ content)) is_others,
      )

  parse_indefinite-AreNodes :
      (fuel : ℕ) (rest : Bytes) {children : Nodes} {used : ℕ}
      → parse_indefinite p fuel rest ≡ ok (children, used)
      → AreNodes levels children
  unfolding parse_indefinite
  parse_indefinite-AreNodes zero rest h = cc
  parse_indefinite-AreNodes (suc fuel) rest h = elim (Bool-cases (is_end rest)) [
    | inl stop ↦
        subst (AreNodes levels) (ap (λ x. x.0) (ok_is (rw (stop, parse_indefinite) at h))) tt
    | inr more ↦
        let (first, is_first, h1) = bind-ok (p rest) _ (rw (more, parse_indefinite) at h) in
        let (others, is_others, h2) = bind-ok (parse_indefinite p fuel (drop first.1 rest)) _ h1 in
        subst (AreNodes levels) (ap (λ x. x.0) (ok_is h2)) (
          sound rest first.0 first.1 is_first,
          parse_indefinite-AreNodes fuel (drop first.1 rest) is_others,
        )
  ]

  parse_body-IsBody :
      (tag : Bytes) (is : Bool) (len : Option ℕ) (rest : Bytes) {node : Node} {used : ℕ}
      → IsTag tag is
      → parse_body p tag is len rest ≡ ok (node, used)
      → IsBody levels node
  unfolding parse_body
  parse_body-IsBody tag false (some len) rest t h =
      let (enough, h1) = refuse_if_past (ltb (length rest) len) refused _ h in
      subst (IsBody levels) (ap (λ x. x.0) (ok_is h1)) t
  parse_body-IsBody tag true (some len) rest t h =
      let (enough, h1) = refuse_if_past (ltb (length rest) len) refused _ h in
      let (children, is_children, h2) = bind-ok (parse_definite p len (take len rest)) _ h1 in
      subst (IsBody levels) (ap (λ x. x.0) (ok_is h2))
        (t, parse_definite-AreNodes len (take len rest) is_children)
  parse_body-IsBody tag false none rest t h = cc
  parse_body-IsBody tag true none rest t h =
      let (children, is_children, h1) = bind-ok (parse_indefinite p (suc (length rest)) rest) _ h in
      subst (IsBody levels) (ap (λ x. x.0) (ok_is h1))
        (t, parse_indefinite-AreNodes (suc (length rest)) rest is_children)

pub parse-IsNode : (levels : ℕ) → Sound levels (parse levels)
unfolding parse
parse-IsNode zero input node used h = cc
parse-IsNode (suc levels) input node used h =
    let (enough, h1) = refuse_if_past (ltb (length input) 2) refused _ h in
    let (offset, is_offset, h2) = bind-ok (tag_length input) _ h1 in
    let (length_is, is_length, h3) = bind-ok (length_octets (drop offset input)) _ h2 in
    let (body, is_body, h4) =
      bind-ok
        (parse_body (parse levels) (take offset input) (is_constructed input) length_is.0
          (drop length_is.1 (drop offset input)))
        _ h3 in
    let tag = (tag_length-IsTag input is_offset).1 in
    subst (IsNode (suc levels)) (ap (λ x. x.0) (ok_is h4)) (
      joined-IsNode levels body.0 (
        parse_body-IsBody levels (parse levels) (parse-IsNode levels) (take offset input)
          (is_constructed input) length_is.0 (drop length_is.1 (drop offset input)) tag is_body))
