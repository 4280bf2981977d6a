-- ===== src/Types/Range/Laws.antt =====
-- About the ranges of opengauss-protocol/src/types/mod.rs.
use rust_opengauss.Prelude.{
  small_nonneg, ℕ, ◌+◌, ◌^◌, ◌<◌, ◌≡◌, refl, sym, ◌∙◌, true, false, Option, none, some, [], ◌∷◌,
  ◌++◌, arith, Bytes, length, length-append, take_append, drop_append, append_assoc, append-nil,
  ◌==◌, le→ltb, minus_one_i32, bit_and,
}
use rust_opengauss.Outcome.{Outcome, ok, ◌>>=◌ as bind}
use rust_opengauss.Crates.{Crates}
use rust_opengauss.Read.{read_be, read_u8, is_empty}
use rust_opengauss.Read.Laws.{read_be-to_be}
use rust_opengauss.Write.{Writer, IsNull, null, not_null, value_size, put, len, patch, i32_max}
use rust_opengauss.Write.Laws.{Writes, patch-append, from_usize_ok, len_from-append}
use rust_opengauss.Types.Range.{
  range_upper_unbounded, range_lower_unbounded, range_upper_inclusive, range_lower_inclusive,
  range_empty, RangeBound, inclusive, exclusive, unbounded, nonempty, truncate, mark, close_bound,
  write_bound, range_to_sql, bound_value, read_bound, read_bounds, range_from_sql,
}

-- The writer answers with this bound, and writes its value.
abbrev WritesValue :
    Writer (RangeBound IsNull) → (IsNull → RangeBound IsNull) → Option Bytes → Type 0
WritesValue w bound none = Writes w (bound null) []
WritesValue w bound (some v) = Writes w (bound not_null) v × (length v < 2 ^ 31)

-- What a writer of no bound has written is cut off again.
abbrev pub WritesBound : Writer (RangeBound IsNull) → RangeBound (Option Bytes) → Type 0
WritesBound w (inclusive v) = WritesValue w inclusive v
WritesBound w (exclusive v) = WritesValue w exclusive v
WritesBound w unbounded = (s : Bytes) × Writes w unbounded s

abbrev Fits : RangeBound (Option Bytes) → Type 0
Fits (inclusive (some v)) = length v < 2 ^ 31
Fits (exclusive (some v)) = length v < 2 ^ 31
Fits _ = Unit {0}

WritesBound-Fits :
    (w : Writer (RangeBound IsNull)) (b : RangeBound (Option Bytes)) → WritesBound w b → Fits b
WritesBound-Fits w (inclusive none) h = tt
WritesBound-Fits w (inclusive (some v)) h = h.1
WritesBound-Fits w (exclusive none) h = tt
WritesBound-Fits w (exclusive (some v)) h = h.1
WritesBound-Fits w unbounded h = tt

-- The bound without its value.
abbrev side : RangeBound (Option Bytes) → RangeBound (Unit {0})
side (inclusive v) = inclusive tt
side (exclusive v) = exclusive tt
side unbounded = unbounded

abbrev tag_of : (lower upper : RangeBound (Option Bytes)) → ℕ
tag_of l u =
    mark range_upper_unbounded range_upper_inclusive (side u)
      (mark range_lower_unbounded range_lower_inclusive (side l) 0)

-- What a tag says of a bound.
abbrev Says : (tag unbounded_bit inclusive_bit : ℕ) → RangeBound (Option Bytes) → Type 0
Says tag ub ib (inclusive v) = ((bit_and tag ub == 0) ≡ true) × ((bit_and tag ib == 0) ≡ false)
Says tag ub ib (exclusive v) = ((bit_and tag ub == 0) ≡ true) × ((bit_and tag ib == 0) ≡ true)
Says tag ub ib unbounded = (bit_and tag ub == 0) ≡ false

tag_Says :
    (l u : RangeBound (Option Bytes))
    → Says (tag_of l u) range_lower_unbounded range_lower_inclusive l
      × Says (tag_of l u) range_upper_unbounded range_upper_inclusive u
      × ((tag_of l u == range_empty) ≡ false)
unfolding mark
tag_Says (inclusive v) (inclusive w) = ((refl, refl), (refl, refl), refl)
tag_Says (inclusive v) (exclusive w) = ((refl, refl), (refl, refl), refl)
tag_Says (inclusive v) unbounded = ((refl, refl), refl, refl)
tag_Says (exclusive v) (inclusive w) = ((refl, refl), (refl, refl), refl)
tag_Says (exclusive v) (exclusive w) = ((refl, refl), (refl, refl), refl)
tag_Says (exclusive v) unbounded = ((refl, refl), refl, refl)
tag_Says unbounded (inclusive w) = (refl, (refl, refl), refl)
tag_Says unbounded (exclusive w) = (refl, (refl, refl), refl)
tag_Says unbounded unbounded = (refl, refl, refl)

module _ ⦃c : Crates⦄ where
  abbrev encode_value : Option Bytes → Bytes
  encode_value none = c.to_be 4 minus_one_i32
  encode_value (some v) = c.to_be 4 (length v) ++ v

  abbrev encode_bound : RangeBound (Option Bytes) → Bytes
  encode_bound (inclusive v) = encode_value v
  encode_bound (exclusive v) = encode_value v
  encode_bound unbounded = []

  size_of_value :
      (buf v : Bytes)
      → length v < 2 ^ 31
      → value_size (length buf) not_null ((buf ++ c.to_be 4 0) ++ v)
        ≡ (ok (length v), (buf ++ c.to_be 4 0) ++ v)
  unfolding value_size
  size_of_value buf v small = rw (
    len_from-append (buf ++ c.to_be 4 0) v (length buf + 4)
        (omega (arith, length-append buf (c.to_be 4 0), c.to_be_length 4 0)),
    from_usize_ok i32_max (length v) (omega arith),
  )

  -- The size in front of a value is filled in.
  patched :
      (buf v : Bytes) (size : ℕ)
      → patch (length buf) (c.to_be 4 size) ((buf ++ c.to_be 4 0) ++ v)
        ≡ (ok tt, buf ++ (c.to_be 4 size ++ v))
  patched buf v size = rw (append_assoc buf (c.to_be 4 0) v) (
      patch-append buf (c.to_be 4 0) (c.to_be 4 size) v
        (c.to_be_length 4 0 ∙ sym (c.to_be_length 4 size)))

  write_bound-Writes :
      (w : Writer (RangeBound IsNull)) (b : RangeBound (Option Bytes))
      → WritesBound w b
      → Writes (write_bound w) (side b) (encode_bound b)
  unfolding write_bound close_bound truncate put len
  write_bound-Writes w (inclusive none) h buf =
      unfold value_size in rw (h (buf ++ c.to_be 4 0), patched buf [] minus_one_i32, append-nil)
  write_bound-Writes w (inclusive (some v)) h buf =
      rw (h.0 (buf ++ c.to_be 4 0), size_of_value buf v h.1, patched buf v (length v))
  write_bound-Writes w (exclusive none) h buf =
      unfold value_size in rw (h (buf ++ c.to_be 4 0), patched buf [] minus_one_i32, append-nil)
  write_bound-Writes w (exclusive (some v)) h buf =
      rw (h.0 (buf ++ c.to_be 4 0), size_of_value buf v h.1, patched buf v (length v))
  write_bound-Writes w unbounded (s, h) buf = rw (
    h (buf ++ c.to_be 4 0),
    append_assoc buf (c.to_be 4 0) s,
    take_append (length buf) buf (c.to_be 4 0 ++ s) refl,
    append-nil,
  )

  value_back :
      (v rest : Bytes) → length v < 2 ^ 31 → bound_value (length v) (v ++ rest) ≡ ok (some v, rest)
  unfolding bound_value
  value_back v rest h = rw (
    small_nonneg (length v) h,
    le→ltb (length (v ++ rest)) (length v) (omega (arith, length-append v rest)),
    take_append (length v) v rest refl,
    drop_append (length v) v rest refl,
  )

  read_value_bound :
      (bound : Option Bytes → RangeBound (Option Bytes)) (v : Option Bytes) (rest : Bytes)
      → Fits (exclusive v)
      → (k : Option Bytes × Bytes → Outcome (RangeBound (Option Bytes) × Bytes))
      → k (v, rest) ≡ ok (bound v, rest)
      → bind (read_be 4 (encode_value v ++ rest)) (λ p. bind (bound_value p.0 p.1) k)
        ≡ ok (bound v, rest)
  read_value_bound bound none rest h k e =
      unfold bound_value in rw (read_be-to_be 4 minus_one_i32 rest (omega arith)) e
  read_value_bound bound (some v) rest h k e =
      rw
        (
          append_assoc (c.to_be 4 (length v)) v rest,
          read_be-to_be 4 (length v) (v ++ rest) (omega arith),
        )
        (rw (value_back v rest h) e)

  read_bound-encode :
      (tag ub ib : ℕ) (b : RangeBound (Option Bytes)) (rest : Bytes)
      → Says tag ub ib b
      → Fits b
      → read_bound tag ub ib (encode_bound b ++ rest) ≡ ok (b, rest)
  unfolding read_bound
  read_bound-encode tag ub ib (inclusive v) rest h fits =
      rw (h.0, h.1) (read_value_bound inclusive v rest (Fits_side v fits) _ refl)
    where
      Fits_side : (v : Option Bytes) → Fits (inclusive v) → Fits (exclusive v)
      Fits_side none h = tt
      Fits_side (some v) h = h
  read_bound-encode tag ub ib (exclusive v) rest h fits =
      rw (h.0, h.1) (read_value_bound exclusive v rest fits _ refl)
  read_bound-encode tag ub ib unbounded rest h fits = rw h

  read_bounds-encode :
      (l u : RangeBound (Option Bytes))
      → Fits l
      → Fits u
      → read_bounds (tag_of l u) (encode_bound l ++ encode_bound u) ≡ ok (nonempty l u)
  unfolding read_bounds
  read_bounds-encode l u hl hu =
      let says = tag_Says l u in
      rw
        (
          read_bound-encode (tag_of l u) range_lower_unbounded range_lower_inclusive l
              (encode_bound u) says.0 hl,
          rw append-nil at (
              read_bound-encode (tag_of l u) range_upper_unbounded range_upper_inclusive u [] says.1
                hu),
        )
        (unfold is_empty in refl)

  range_to_sql-Writes :
      (lower upper : Writer (RangeBound IsNull)) (l u : RangeBound (Option Bytes))
      → WritesBound lower l
      → WritesBound upper u
      → Writes
          (range_to_sql lower upper)
          tt
          ((tag_of l u ∷ []) ++ (encode_bound l ++ encode_bound u))
  unfolding range_to_sql put len
  range_to_sql-Writes lower upper l u hl hu buf =
      rw
        (
          write_bound-Writes lower l hl (buf ++ (0 ∷ [])),
          write_bound-Writes upper u hu ((buf ++ (0 ∷ [])) ++ encode_bound l),
          append_assoc (buf ++ (0 ∷ [])) (encode_bound l) (encode_bound u),
          append_assoc buf (0 ∷ []) (encode_bound l ++ encode_bound u),
        )
        (patch-append buf (0 ∷ []) (tag_of l u ∷ []) (encode_bound l ++ encode_bound u) refl)

  -- A range with any kinds of bounds, values and nulls in them, is appended to the buffer in a form
  -- that is read back, for any functions that write the bounds' values.
  pub range_roundtrip :
      (lower upper : Writer (RangeBound IsNull)) (l u : RangeBound (Option Bytes))
      → WritesBound lower l
      → WritesBound upper u
      → (s : Bytes) × Writes (range_to_sql lower upper) tt s
        × (range_from_sql s ≡ ok (nonempty l u))
  range_roundtrip lower upper l u hl hu = (
    (tag_of l u ∷ []) ++ (encode_bound l ++ encode_bound u),
    range_to_sql-Writes lower upper l u hl hu,
    unfold range_from_sql read_u8 in
        rw ((tag_Says l u).2)
          (read_bounds-encode l u (WritesBound-Fits lower l hl) (WritesBound-Fits upper u hu)),
  )
