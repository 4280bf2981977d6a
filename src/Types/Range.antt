-- ===== src/Types/Range.antt =====
-- Ranges of opengauss-protocol/src/types/mod.rs.
pub mod Laws
use rust_opengauss.Prelude.{
  ℕ, zero, suc, ◌+◌, ◌-◌, ◌^◌, Bool, true, false, not, Option, none, some, List, [], ◌∷◌, Bytes,
  length, take, drop, ltb, ◌==◌, is_negative_i32, bit_and, bit_or, if◌then◌else◌,
}
use rust_opengauss.Outcome.{Outcome, ok, err, panicked, other, ◌>>=◌ as bind}
use rust_opengauss.Crates.{Crates}
use rust_opengauss.Read.{Reader, ◌>>=◌, pure, read_u8, read_be, is_empty}
use rust_opengauss.Write
use rust_opengauss.Write.{◌>>>◌, Writer, IsNull, value_size, put, len, patch}

abbrev pub range_upper_unbounded : ℕ
range_upper_unbounded = 16

abbrev pub range_lower_unbounded : ℕ
range_lower_unbounded = 8

abbrev pub range_upper_inclusive : ℕ
range_upper_inclusive = 4

abbrev pub range_lower_inclusive : ℕ
range_lower_inclusive = 2

abbrev pub range_empty : ℕ
range_empty = 1

pub data RangeBound {ℓ} (T : Type ℓ) : Type ℓ where
  inclusive : T → RangeBound T
  exclusive : T → RangeBound T
  unbounded : RangeBound T

pub data Range : Type 0 where
  empty : Range
  nonempty : RangeBound (Option Bytes) → RangeBound (Option Bytes) → Range

-- `BytesMut::truncate`
unfoldable pub truncate : ℕ → Writer (Unit {0})
truncate n buf = (ok tt, take n buf)

unfoldable pub empty_range_to_sql : Writer (Unit {0})
empty_range_to_sql = put (range_empty ∷ [])

-- `tag |= …` for the bound that was written
unfoldable pub mark : ℕ → ℕ → RangeBound (Unit {0}) → ℕ → ℕ
mark unbounded_bit inclusive_bit (inclusive _) tag = bit_or tag inclusive_bit
mark unbounded_bit inclusive_bit (exclusive _) tag = tag
mark unbounded_bit inclusive_bit unbounded tag = bit_or tag unbounded_bit

-- `[T]::split_at_checked`
abbrev split_at_checked : ℕ → Reader Bytes
split_at_checked n s =
    if ltb (length s) n then err (other "invalid message size") else ok (take n s, drop n s)

module _ ⦃c : Crates⦄ where
  -- the second half of `write_bound`
  unfoldable pub close_bound : ℕ → RangeBound IsNull → Writer (RangeBound (Unit {0}))
  close_bound base (inclusive is_null) =
      Write.◌>>=◌ (value_size base is_null)
        λ size. patch base (c.to_be 4 size) >>> Write.pure (inclusive tt)
  close_bound base (exclusive is_null) =
      Write.◌>>=◌ (value_size base is_null)
        λ size. patch base (c.to_be 4 size) >>> Write.pure (exclusive tt)
  close_bound base unbounded = truncate base >>> Write.pure unbounded

  unfoldable pub write_bound : Writer (RangeBound IsNull) → Writer (RangeBound (Unit {0}))
  write_bound bound =
      Write.◌>>=◌ len λ base. put (c.to_be 4 0) >>> Write.◌>>=◌ bound λ b. close_bound base b

  unfoldable pub range_to_sql : (lower upper : Writer (RangeBound IsNull)) → Writer (Unit {0})
  range_to_sql lower upper = Write.◌>>=◌ len λ tag_idx.
      put (0 ∷ [])
      >>> Write.◌>>=◌ (write_bound lower) λ l. Write.◌>>=◌ (write_bound upper) λ u. patch tag_idx (
          mark range_upper_unbounded range_upper_inclusive u
            (mark range_lower_unbounded range_lower_inclusive l 0)
          ∷ [])

  unfoldable pub bound_value : ℕ → Reader (Option Bytes)
  bound_value len s =
      if is_negative_i32 len
      then ok (none, s)
      else bind (split_at_checked len s) λ p. ok (some p.0, p.1)

  unfoldable pub read_bound :
      (tag unbounded_bit inclusive_bit : ℕ) → Reader (RangeBound (Option Bytes))
  read_bound tag unbounded_bit inclusive_bit s =
      if not (bit_and tag unbounded_bit == 0)
      then ok (unbounded, s)
      else bind (read_be 4 s) λ p. bind (bound_value p.0 p.1) λ q.
        if not (bit_and tag inclusive_bit == 0)
        then ok (inclusive q.0, q.1)
        else ok (exclusive q.0, q.1)

  -- a range that is not empty, behind its tag
  unfoldable pub read_bounds : ℕ → Bytes → Outcome Range
  read_bounds tag s = bind (read_bound tag range_lower_unbounded range_lower_inclusive s) λ lower.
      bind (read_bound tag range_upper_unbounded range_upper_inclusive lower.1) λ upper.
        if not (is_empty upper.1)
        then err (other "invalid message size")
        else ok (nonempty lower.0 upper.0)

  unfoldable pub range_from_sql : Bytes → Outcome Range
  range_from_sql buf = bind (read_u8 buf) λ p.
      if p.0 == range_empty
      then (if not (is_empty p.1) then err (other "invalid message size") else ok empty)
      else read_bounds p.0 p.1
