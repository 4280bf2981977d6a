-- ===== src/Backend/Frame.antt =====
-- About the frames that `Message::parse_with_mode` takes off the buffer.
use rust_opengauss.Prelude.{
  ℕ, ◌+◌, ◌≤◌, ◌<◌, ◌≡◌, ◌≢◌, refl, sym, ap, ◌∙◌, none, some, [], ◌∷◌, ◌++◌, arith, Bytes, length,
  take, drop, get_or, length-append, take_append, drop_append, take-append_le, drop-append_le,
  append_assoc, le→ltb, lt→ltb, length-drop,
}
use rust_opengauss.Outcome.{ok, err, invalid_input}
use rust_opengauss.Crates.{Crates}
use rust_opengauss.Read.{is_empty}
use rust_opengauss.Backend.Message.{AuthMode, Message}
use rust_opengauss.Backend.Parse.{parse_frame, parse_with_mode}
use rust_opengauss.Backend.InRange.{len_of, parsed, parse_with_mode_lem}
use rust_opengauss.Backend.Wire.{Fits, encode, frame, render, IsU32}
use native.Mathlib.Decide.{dec_lt}
use rust_opengauss.Backend.RoundTrip.{parse_frame-encode}

module _ ⦃c : Crates⦄ where
  pub length-frame : (tag : ℕ) (body : Bytes) → length (frame tag body) ≡ 5 + length body
  length-frame tag body =
      omega (
        arith,
        length-append (c.to_be 4 (4 + length body)) body,
        c.to_be_length 4 (4 + length body),
      )

  -- The length field of a buffer that begins with the length's four bytes behind the tag.
  pub frame_len :
      (tag n : ℕ) (rest : Bytes)
      → IsU32 n
      → c.from_be (take 4 (drop 1 (tag ∷ (c.to_be 4 n ++ rest)))) ≡ n
  frame_len tag n rest h =
      rw (take_append 4 (c.to_be 4 n) rest (c.to_be_length 4 n), c.from_be_inverse 4 n h)

  body_of_frame : (tag : ℕ) (body : Bytes) → drop 5 (frame tag body) ≡ body
  body_of_frame tag body = drop_append 4 _ body (c.to_be_length 4 (4 + length body))

  whole :
      (mode : AuthMode) (buf : Bytes) (n : ℕ)
      → len_of buf ≡ n
      → 5 ≤ length buf
      → 4 ≤ n
      → n + 1 ≤ length buf
      → parse_with_mode mode buf
        ≡ (parse_frame mode (get_or buf 0 0) (drop 5 (take (n + 1) buf)), drop (n + 1) buf)
  whole mode buf n e h k l =
      parse_with_mode_lem mode buf
      ∙ rw (le→ltb (length buf) 5 h, e, le→ltb n 4 k, le→ltb (length buf) (n + 1) l)

  waiting :
      (mode : AuthMode) (buf : Bytes) (n : ℕ)
      → len_of buf ≡ n
      → 5 ≤ length buf
      → 4 ≤ n
      → length buf < n + 1
      → parse_with_mode mode buf ≡ (ok none, buf)
  waiting mode buf n e h k l =
      parse_with_mode_lem mode buf
      ∙ rw (le→ltb (length buf) 5 h, e, le→ltb n 4 k, lt→ltb (length buf) (n + 1) l)

  short :
      (mode : AuthMode) (buf : Bytes) → length buf < 5 → parse_with_mode mode buf ≡ (ok none, buf)
  short mode buf h = parse_with_mode_lem mode buf ∙ rw (lt→ltb (length buf) 5 h)

  malformed :
      (mode : AuthMode) (buf : Bytes) (n : ℕ)
      → len_of buf ≡ n
      → 5 ≤ length buf
      → n < 4
      → parse_with_mode mode buf ≡ (err (invalid_input "invalid message length: parsing u32"), buf)
  malformed mode buf n e h k =
      parse_with_mode_lem mode buf ∙ rw (le→ltb (length buf) 5 h, e, lt→ltb n 4 k)

  -- A whole frame is taken off the buffer, whatever follows it, and only its body is read.
  pub parse_with_mode-frame :
      (mode : AuthMode) (tag : ℕ) (body rest : Bytes)
      → IsU32 (4 + length body)
      → parse_with_mode mode (frame tag body ++ rest) ≡ (parse_frame mode tag body, rest)
  parse_with_mode-frame mode tag body rest h =
      let buf : Bytes = frame tag body ++ rest in
      let size : length (frame tag body) ≡ (4 + length body) + 1 =
        omega (arith, length-frame tag body) in
      let long : (4 + length body) + 1 ≤ length buf =
        omega (arith, size, length-append (frame tag body) rest) in
      whole mode buf (4 + length body)
        (rw append_assoc (frame_len tag (4 + length body) (body ++ rest) h)) (omega (arith, long))
        (omega arith) long
      ∙ rw (
        take_append _ (frame tag body) rest size,
        drop_append _ (frame tag body) rest size,
        body_of_frame tag body,
      )

  len_of-append : (buf more : Bytes) → 5 ≤ length buf → len_of (buf ++ more) ≡ len_of buf
  len_of-append buf more h =
      ap (λ s. c.from_be (take 4 s)) (drop-append_le 1 buf more (omega arith))
      ∙ ap c.from_be (take-append_le 4 (drop 1 buf) more (omega (arith, length-drop 1 buf)))

  first-append : (buf more : Bytes) → 1 ≤ length buf → get_or (buf ++ more) 0 0 ≡ get_or buf 0 0
  first-append [] more h = absurd (omega arith)
  first-append (x ∷ buf) more h = refl

  length-append_le : (buf more : Bytes) → length buf ≤ length (buf ++ more)
  length-append_le buf more = omega (arith, length-append buf more)

  whole-append :
      (mode : AuthMode) (buf more : Bytes)
      → 5 ≤ length buf
      → 4 ≤ len_of buf
      → len_of buf + 1 ≤ length buf
      → parse_with_mode mode (buf ++ more)
        ≡ ((parse_with_mode mode buf).0, (parse_with_mode mode buf).1 ++ more)
  whole-append mode buf more h k l =
      whole mode (buf ++ more) (len_of buf) (len_of-append buf more h)
        (omega (arith, length-append_le buf more)) k (omega (arith, length-append_le buf more))
      ∙ rw (
        whole mode buf (len_of buf) refl h k l,
        first-append buf more (omega arith),
        take-append_le (len_of buf + 1) buf more l,
        drop-append_le (len_of buf + 1) buf more l,
      )

  malformed-append :
      (mode : AuthMode) (buf more : Bytes)
      → 5 ≤ length buf
      → len_of buf < 4
      → parse_with_mode mode (buf ++ more)
        ≡ ((parse_with_mode mode buf).0, (parse_with_mode mode buf).1 ++ more)
  malformed-append mode buf more h k =
      malformed mode (buf ++ more) (len_of buf) (len_of-append buf more h)
        (omega (arith, length-append_le buf more)) k
      ∙ rw (malformed mode buf (len_of buf) refl h k)

  -- Behind what it takes, the parser does not look: its answer to a message, and to an error,
  -- stays when more bytes arrive, and they stay in the buffer.
  pub parse_with_mode-append :
      (mode : AuthMode) (buf more : Bytes)
      → (parse_with_mode mode buf).0 ≢ ok none
      → parse_with_mode mode (buf ++ more)
        ≡ ((parse_with_mode mode buf).0, (parse_with_mode mode buf).1 ++ more)
  parse_with_mode-append mode buf more h = elim (dec_lt (length buf) 5) [
    | yes s ↦ absurd (h (ap (λ p. p.0) (short mode buf s)))
    | no s ↦ elim (dec_lt (len_of buf) 4) [
      | yes k ↦ malformed-append mode buf more (omega arith) k
      | no k ↦ elim (dec_lt (length buf) (len_of buf + 1)) [
        | yes l ↦
            absurd
              (h (ap (λ p. p.0) (waiting mode buf (len_of buf) refl (omega arith) (omega arith) l)))
        | no l ↦ whole-append mode buf more (omega arith) (omega arith) (omega arith)
      ]
    ]
  ]

  -- A proper prefix of a frame gives no message yet, and stays in the buffer.
  pub parse_with_mode_waits :
      (mode : AuthMode) (tag x : ℕ) (body front back : Bytes)
      → IsU32 (4 + length body)
      → frame tag body ≡ front ++ (x ∷ back)
      → parse_with_mode mode front ≡ (ok none, front)
  parse_with_mode_waits mode tag x body front back h e = elim (dec_lt (length front) 5) [
    | yes s ↦ short mode front s
    | no s ↦
        let n : len_of front ≡ 4 + length body =
          sym (len_of-append front (x ∷ back) (omega arith))
          ∙ ap len_of (sym e)
          ∙ frame_len tag (4 + length body) body h in
        waiting mode front (4 + length body) n (omega arith) (omega arith)
          (omega (arith, length-frame tag body, ap length e, length-append front (x ∷ back)))
  ]

  pub parse_frame-ne-none :
      (mode : AuthMode) (tag : ℕ) (body : Bytes) → parse_frame mode tag body ≢ ok none
  unfolding parse_frame is_empty
  parse_frame-ne-none mode tag body e = ground arith

  parsed_keeps :
      (mode : AuthMode) (buf : Bytes) → (parsed mode buf).0 ≡ ok none → (parsed mode buf).1 ≡ buf
  parsed_keeps mode buf h =
      ground (arith, parse_frame-ne-none mode (get_or buf 0 0) (drop 5 (take (len_of buf + 1) buf)))

  -- With no message for an answer, the buffer is as it was.
  pub parse_with_mode_keeps :
      (mode : AuthMode) (buf : Bytes)
      → (parse_with_mode mode buf).0 ≡ ok none
      → (parse_with_mode mode buf).1 ≡ buf
  parse_with_mode_keeps mode buf h =
      let e = parse_with_mode_lem mode buf in
      ap (λ r. r.1) e ∙ parsed_keeps mode buf (ap (λ r. r.0) (sym e) ∙ h)

  -- A rendered message is read back, and what follows it stays.
  pub parse_with_mode-render :
      (mode : AuthMode) (m : Message) (rest : Bytes)
      → Fits mode m
      → IsU32 (4 + length (encode m).1)
      → parse_with_mode mode (render m ++ rest) ≡ (ok (some m), rest)
  parse_with_mode-render mode m rest h size =
      parse_with_mode-frame mode (encode m).0 (encode m).1 rest size
      ∙ ap (λ r. (r, rest)) (parse_frame-encode mode m h)
