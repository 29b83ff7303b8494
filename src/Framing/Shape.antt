-- ===== src/Framing/Shape.antt =====
-- The elements of a request, counted without the walk.
use enclave_signer.Prelude.{
  ℕ, zero, suc, ◌+◌, ◌-◌, ◌≤◌, ◌<◌, ◌≡◌, ◌≢◌, ◌⊎◌, refl, Bool, true, false, Option, none, some, [],
  ◌∷◌, length, take, drop, arith, inl, inr, err, Bytes, ok_or, Result-cases, length-take,
  length-drop,
}
use enclave_signer.Error.{EnclaveResult, framing, internal}
use enclave_signer.Framing.{
  Schema, Wire, child, is_skipped, walk_field, walk, count_request_elements, max_wire_elements,
}

-- prost takes a key of a byte at least, and never gives back more than it was given.
pub record IsWire (wire : Wire) : Type 0 where
  pub key_uses :
      (buf : Bytes) (key : ℕ × wire.WireType) (rest : Bytes)
      → wire.decode_key buf ≡ some (key, rest)
      → length rest < length buf
  pub varint_uses :
      (buf : Bytes) (n : ℕ) (rest : Bytes)
      → wire.decode_varint buf ≡ some (n, rest)
      → length rest ≤ length buf
  pub skip_uses :
      (wire_type : wire.WireType) (tag : ℕ) (buf rest : Bytes)
      → wire.skip_field wire_type tag buf ≡ some rest
      → length rest ≤ length buf

-- The fields of enclave-proto/proto/enclave.proto that are messages with other messages or repeated
-- fields inside: `sign` and `submit_headers` of a request, the `rgb_source` of a signing, and the
-- `merkle_proofs` of that source.
pub data MessageField : Schema → ℕ → Schema → Type 0 where
  sign : MessageField Schema.request 3 Schema.sign
  submit_headers : MessageField Schema.request 11 Schema.submit_headers
  rgb_source : MessageField Schema.sign 3 Schema.rgb_source
  merkle_proofs : MessageField Schema.rgb_source 6 Schema.merkle_proof_entry

module _ (wire : Wire) where
  open wire use {WireType, is_length_delimited, decode_key, decode_varint, skip_field}

  -- A field with no elements inside it: one that is not of such a message, or that has not the wire
  -- type of a message.
  abbrev pub IsPlain : Schema → ℕ → WireType → Type 0
  IsPlain schema tag wire_type =
      ((inner : Schema) → ¬ (MessageField schema tag inner))
      ⊎ (is_length_delimited wire_type ≡ false)

  -- A message of this schema with so many elements, those of the messages inside included.
  pub data Shaped : Schema → Bytes → ℕ → Type 0 where
    nothing : {schema : Schema} → Shaped schema [] 0
    skipped :
        {schema : Schema} {buf : Bytes} {n : ℕ} (tag : ℕ) (wire_type : WireType)
        (rest after : Bytes)
        → decode_key buf ≡ some ((tag, wire_type), rest)
        → IsPlain schema tag wire_type
        → skip_field wire_type tag rest ≡ some after
        → Shaped schema after n
        → Shaped schema buf (suc n)
    entered :
        {schema : Schema} {buf : Bytes} {m n : ℕ} (tag : ℕ) (wire_type : WireType) (rest : Bytes)
        (len : ℕ) (after : Bytes) (inner : Schema)
        → decode_key buf ≡ some ((tag, wire_type), rest)
        → MessageField schema tag inner
        → is_length_delimited wire_type ≡ true
        → decode_varint rest ≡ some (len, after)
        → len ≤ length after
        → Shaped inner (take len after) m
        → Shaped schema (drop len after) n
        → Shaped schema buf (suc (m + n))

  ok_or-cases :
      {A : Type 0} (o : Option A) → ((a : A) × (o ≡ some a)) ⊎ (ok_or o framing ≡ err framing)
  ok_or-cases none = inr refl
  ok_or-cases (some a) = inl (a, refl)

  walk_field_total :
      IsWire wire
      → (fuel : ℕ) (next : Bytes → Schema → ℕ → EnclaveResult ℕ)
      → ((buf : Bytes) (schema : Schema) (left : ℕ)
          → length buf ≤ fuel
          → next buf schema left ≢ err internal)
      → (skips : Bool) (wire_type : WireType) (tag : ℕ) (buf : Bytes) (schema : Schema) (left : ℕ)
      → length buf ≤ fuel
      → walk_field wire next skips wire_type tag buf schema left ≢ err internal
  unfolding walk_field
  walk_field_total w fuel next total true wire_type tag buf schema left enough =
      elim (ok_or-cases (skip_field wire_type tag buf)) [
        | inl (after, skip) ↦
            let uses = w.skip_uses wire_type tag buf after skip in
            rw skip (total after schema left (omega arith))
        | inr refused ↦ rw refused (λ h. cc h)
      ]
  walk_field_total w fuel next total false wire_type tag buf schema left enough =
      elim (ok_or-cases (decode_varint buf)) [
        | inl ((len, after), varint) ↦
            let uses = w.varint_uses buf len after varint in
            let first =
              total (take len after) (child schema tag) left
                (omega (arith, length-take len after)) in
            elim (Result-cases (next (take len after) (child schema tag) left)) [
              | inl (mid, inside) ↦
                  let second =
                    total (drop len after) schema mid (omega (arith, length-drop len after)) in
                  rw (varint, inside) (ground (arith, second))
              | inr (e, failed) ↦ rw (varint, failed) (ground (arith, failed, first))
            ]
        | inr refused ↦ rw refused (λ h. cc h)
      ]

  walk_total :
      IsWire wire
      → (fuel : ℕ) (buf : Bytes) (schema : Schema) (left : ℕ) → length buf ≤ fuel
      → walk wire fuel buf schema left ≢ err internal
  unfolding walk
  walk_total w fuel [] schema left enough = λ h. cc h
  walk_total w zero (b ∷ buf) schema left enough = absurd (omega arith)
  walk_total w (suc fuel) (b ∷ buf) schema left enough = elim (ok_or-cases (decode_key (b ∷ buf))) [
    | inl (((tag, wire_type), rest), key) ↦
        let shorter = w.key_uses (b ∷ buf) (tag, wire_type) rest key in
        let field =
          walk_field_total w fuel (walk wire fuel) (walk_total w fuel)
            (is_skipped wire schema tag wire_type) wire_type tag rest schema (left - 1)
            (omega arith) in
        rw key (ground (arith, field))
    | inr refused ↦ rw refused (λ h. cc h)
  ]

  -- The count never runs out of fuel: it answers with the number of elements or with the refusal of
  -- a frame. prost is taken to use up what it reads.
  pub count_request_elements_total :
      IsWire wire → (frame : Bytes) → count_request_elements wire frame ≢ err internal
  unfolding count_request_elements
  count_request_elements_total w frame =
      let run = walk_total w (length frame) frame Schema.request max_wire_elements (omega arith) in
      ground (arith, run)
