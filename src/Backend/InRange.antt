-- ===== src/Backend/InRange.antt =====
-- About the slices of `Header::parse` and `Message::parse_with_mode` (backend.rs): what these come to
-- where every slice is in range, which their tests of the length see to.
use rust_opengauss.Prelude.{
  ℕ, ◌+◌, ◌≤◌, ◌≡◌, refl, inl, inr, Option, none, some, ◌∷◌, [], arith, Bytes, length, take, drop,
  get_or, ltb, ◌||◌, is_negative_i32, if◌then◌else◌, Bool-cases, ltb→le, length-take, length-drop,
}
use rust_opengauss.Outcome.{Outcome, ok, err, invalid_input, invalid_data}
use rust_opengauss.Crates.{Crates}
use rust_opengauss.Slice.{
  slice_from, on_buffer, index_lt, slice_le, slice_from_le, read_word_le, split_to_le,
}
use rust_opengauss.Backend.Message.{AuthMode, Message}
use rust_opengauss.Backend.Parse.{Header, parse_header, tag_len, parse_frame, parse_with_mode}

module _ ⦃c : Crates⦄ where
  -- The length field of a buffer.
  abbrev pub len_of : Bytes → ℕ
  len_of buf = c.from_be (take 4 (drop 1 buf))

  field_lem : (buf : Bytes) → take 4 (drop 1 (take 5 buf)) ≡ take 4 (drop 1 buf)
  field_lem [] = refl
  field_lem (t ∷ []) = refl
  field_lem (t ∷ x ∷ []) = refl
  field_lem (t ∷ x ∷ y ∷ []) = refl
  field_lem (t ∷ x ∷ y ∷ z ∷ []) = refl
  field_lem (t ∷ x ∷ y ∷ z ∷ w ∷ buf) = refl

  tag_len_lem : (buf : Bytes) → 5 ≤ length buf → tag_len buf ≡ ok (get_or buf 0 0, len_of buf)
  unfolding tag_len
  tag_len_lem buf h =
      rw
        (
          index_lt buf 0 (omega arith),
          slice_le buf 1 5 (omega arith) h,
          read_word_le (drop 1 (take 5 buf))
              (omega (arith, length-drop 1 (take 5 buf), length-take 5 buf)),
          field_lem buf,
        )
        refl

  -- The parser on a frame of which no slice is out of range.
  abbrev pub parsed : AuthMode → Bytes → Outcome (Option Message) × Bytes
  parsed mode buf =
      if ltb (length buf) 5
      then (ok none, buf)
      else if ltb (len_of buf) 4
      then (err (invalid_input "invalid message length: parsing u32"), buf)
      else if ltb (length buf) (len_of buf + 1)
      then (ok none, buf)
      else (
        parse_frame mode (get_or buf 0 0) (drop 5 (take (len_of buf + 1) buf)),
        drop (len_of buf + 1) buf,
      )

  body_lem :
      (buf : Bytes) (n : ℕ)
      → 4 ≤ n
      → n + 1 ≤ length buf
      → slice_from (take (n + 1) buf) 5 ≡ ok (drop 5 (take (n + 1) buf))
  body_lem buf n h l = slice_from_le (take (n + 1) buf) 5 (omega (arith, length-take (n + 1) buf))

  pub parse_with_mode_lem :
      (mode : AuthMode) (buf : Bytes) → parse_with_mode mode buf ≡ parsed mode buf
  unfolding parse_with_mode on_buffer
  parse_with_mode_lem mode buf = elim (Bool-cases (ltb (length buf) 5)) [
    | inl a ↦ rw a refl
    | inr a ↦
        rw (a, tag_len_lem buf (ltb→le _ _ a))
          (elim (Bool-cases (ltb (len_of buf) 4)) [
            | inl b ↦ rw b refl
            | inr b ↦ rw b (elim (Bool-cases (ltb (length buf) (len_of buf + 1))) [
              | inl d ↦ rw d refl
              | inr d ↦
                  rw
                    (
                      d,
                      split_to_le buf (len_of buf + 1) (ltb→le _ _ d),
                      body_lem buf (len_of buf) (ltb→le _ _ b) (ltb→le _ _ d),
                    )
                    refl
            ])
          ])
  ]

  abbrev pub header_parsed : Bytes → Outcome (Option Header)
  header_parsed buf =
      if ltb (length buf) 5
      then ok none
      else if is_negative_i32 (len_of buf) || ltb (len_of buf) 4
      then err (invalid_data "invalid message length: header length < 4")
      else ok (some (record { tag = get_or buf 0 0; len = len_of buf }))

  pub parse_header_lem : (buf : Bytes) → parse_header buf ≡ header_parsed buf
  unfolding parse_header
  parse_header_lem buf = elim (Bool-cases (ltb (length buf) 5)) [
    | inl a ↦ rw a refl
    | inr a ↦
        rw
          (
            a,
            index_lt buf 0 (omega (arith, ltb→le (length buf) 5 a)),
            slice_from_le buf 1 (omega (arith, ltb→le (length buf) 5 a)),
            read_word_le (drop 1 buf) (omega (arith, length-drop 1 buf, ltb→le (length buf) 5 a)),
          )
          refl
  ]
