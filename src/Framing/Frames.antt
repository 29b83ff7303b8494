-- ===== src/Framing/Frames.antt =====
-- What is read of a stream, and that it is what was written.
use enclave_signer.Prelude.{
  ℕ, zero, suc, ◌+◌, ◌-◌, ◌*◌, ◌/◌, ◌%◌, ◌^◌, ◌≤◌, ◌<◌, ◌≡◌, ◌↔◌, ◌∙◌, sym, ap, refl, subst, false,
  some, [], ◌∷◌, ◌++◌, length, take, drop, ltb, ◌==◌, arith, ok, Bytes, AreBytes, range, bind-ok,
  refuse_if_past, take-append-drop, take-append, drop-append, length-take, length-append, All-take,
}
use enclave_signer.Error.{framing, io}
use mathlib.Core.List.{append_assoc}
use enclave_signer.Framing.{
  Sink, Codec, max_message_size, from_le_bytes, to_le_bytes, read_exact, read_frame, read_message,
  write_message,
}

from_le_bytes-to_le_bytes :
    (width n : ℕ) → n < range width → from_le_bytes (to_le_bytes width n) ≡ n
from_le_bytes-to_le_bytes zero n small = omega arith
from_le_bytes-to_le_bytes (suc width) n small =
    omega (arith, from_le_bytes-to_le_bytes width (n / 256) (omega arith))

to_le_bytes-from_le_bytes :
    (bytes : Bytes) → AreBytes bytes → to_le_bytes (length bytes) (from_le_bytes bytes) ≡ bytes
to_le_bytes-from_le_bytes [] p = refl
to_le_bytes-from_le_bytes (b ∷ bytes) p =
    let digit : (b + 256 * from_le_bytes bytes) % 256 ≡ b = omega (arith, p.0) in
    let rest : (b + 256 * from_le_bytes bytes) / 256 ≡ from_le_bytes bytes = omega (arith, p.0) in
    rw (digit, rest) (ap (◌∷◌ b) (to_le_bytes-from_le_bytes bytes p.1))

length-to_le_bytes : (width n : ℕ) → length (to_le_bytes width n) ≡ width
length-to_le_bytes zero n = refl
length-to_le_bytes (suc width) n = ap suc (length-to_le_bytes width (n / 256))

read_exact-ok :
    (n : ℕ) (stream : Bytes) {bytes rest : Bytes}
    → read_exact n stream ≡ ok (bytes, rest)
    → (stream ≡ bytes ++ rest) × (length bytes ≡ n) × (bytes ≡ take n stream)
read_exact-ok n stream {bytes} {rest} h =
    let (long, h1) = refuse_if_past (ltb (length stream) n) io _ h in
    let front : bytes ≡ take n stream = cc in
    let enough : n ≤ length stream = ground (arith, long) in
    let back : rest ≡ drop n stream = cc in
    (
      sym (take-append-drop n stream) ∙ (λ i. sym front i ++ sym back i),
      omega (arith, ap length front, length-take n stream, enough),
      front,
    )

read_exact-append :
    (bytes rest : Bytes) → read_exact (length bytes) (bytes ++ rest) ≡ ok (bytes, rest)
read_exact-append bytes rest =
    let long : ltb (length (bytes ++ rest)) (length bytes) ≡ false =
      ground (arith, length-append bytes rest) in
    rw (long, take-append bytes rest, drop-append bytes rest) refl

-- A frame: the length of its body, then the body.
abbrev pub IsFrame : Bytes → Bytes → Bytes → Type 0
IsFrame stream buf rest =
    (stream ≡ to_le_bytes 4 (length buf) ++ buf ++ rest)
    × (0 < length buf)
    × (length buf ≤ max_message_size)

read_frame-IsFrame :
    (stream buf rest : Bytes)
    → AreBytes stream
    → read_frame stream ≡ ok (buf, rest)
    → IsFrame stream buf rest
unfolding read_frame
read_frame-IsFrame stream buf rest p h =
    let ((len_buf, after), h1, h2) = bind-ok (read_exact 4 stream) _ h in
    let len = from_le_bytes len_buf in
    let (some_len, h3) = refuse_if_past (len == 0) framing _ h2 in
    let (short, h4) = refuse_if_past (ltb max_message_size len) framing _ h3 in
    let (first, four, front) = read_exact-ok 4 stream h1 in
    let (second, size, _) = read_exact-ok len after h4 in
    let prefix : to_le_bytes 4 (length buf) ≡ len_buf =
      ap (to_le_bytes 4) size
      ∙ subst (λ w. to_le_bytes w len ≡ len_buf) four
          (to_le_bytes-from_le_bytes len_buf
            (subst AreBytes (sym front) (All-take _ 4 stream p))) in
    (
      first ∙ (λ i. sym prefix i ++ second i),
      ground (arith, some_len, size),
      ground (arith, short, size),
    )

IsFrame-read :
    (stream buf rest : Bytes) → IsFrame stream buf rest → read_frame stream ≡ ok (buf, rest)
unfolding read_frame
IsFrame-read stream buf rest f =
    let header = to_le_bytes 4 (length buf) in
    let len : from_le_bytes header ≡ length buf =
      from_le_bytes-to_le_bytes 4 (length buf) (omega (arith, f.2)) in
    let some_len : (length buf == 0) ≡ false = ground (arith, f.1) in
    let short : ltb max_message_size (length buf) ≡ false = ground (arith, f.2) in
    rw
      (
        f.0,
        read_exact-append header (buf ++ rest),
        len,
        some_len,
        short,
        read_exact-append buf rest,
      )
      refl

-- A frame is read off a stream of bytes exactly when the stream starts with it: four bytes, the
-- least significant first, with the length of the body, which is from 1 to 24 MiB, then the body.
pub read_frame_iff :
    (stream buf rest : Bytes)
    → AreBytes stream
    → (read_frame stream ≡ ok (buf, rest)) ↔ IsFrame stream buf rest
read_frame_iff stream buf rest p =
    (read_frame-IsFrame stream buf rest p, IsFrame-read stream buf rest)

module _ {M : Type 0} (codec : Codec M) where
  open codec use {decode, encode}

  -- A message is read back from the bytes that it was written as, whatever follows them, and the
  -- writing adds those bytes and no others. The message's encoding is taken to decode to it and
  -- to have from 1 byte to 24 MiB, and the stream to have room for it and four bytes more.
  pub read_message-write_message :
      (sink : Sink) (msg : M) (rest : Bytes)
      → decode (encode msg) ≡ some msg
      → 0 < length (encode msg)
      → length (encode msg) ≤ max_message_size
      → 4 + length (encode msg) ≤ sink.room
      → (sent : Bytes) × (write_message codec sink msg
          ≡ ok (record { written = sink.written ++ sent; room = sink.room - length sent }))
        × (read_message codec (sent ++ rest) ≡ ok (msg, rest))
  unfolding read_message write_message
  read_message-write_message sink msg rest decodes some_len short room =
      let buf = encode msg in
      let header = to_le_bytes 4 (length buf) in
      let whole : length buf % 2 ^ 32 ≡ length buf = omega (arith, short) in
      let fits : ltb sink.room 4 ≡ false = ground (arith, room) in
      let fits' : ltb (sink.room - 4) (length buf) ≡ false = ground (arith, room) in
      let frame : IsFrame ((header ++ buf) ++ rest) buf rest =
        (append_assoc header buf rest, some_len, short) in
      let left : sink.room - 4 - length buf ≡ sink.room - length (header ++ buf) =
        omega (arith, length-append header buf, length-to_le_bytes 4 (length buf)) in
      (
        header ++ buf,
        rw (whole, length-to_le_bytes 4 (length buf), fits, fits')
            (λ i. ok (record { written = append_assoc sink.written header buf i; room = left i })),
        rw (IsFrame-read ((header ++ buf) ++ rest) buf rest frame, decodes) refl,
      )
