-- ===== src/Types/Array.antt =====
-- Arrays of opengauss-protocol/src/types/mod.rs.
pub mod Wire
pub mod RoundTrip
pub mod Safe
use rust_opengauss.Prelude.{
  ℕ, zero, suc, ◌+◌, ◌-◌, ◌*◌, ◌^◌, Bool, true, false, not, Option, none, some, List, [], ◌∷◌,
  Bytes, length, take, drop, ltb, ◌==◌, is_negative_i32, if◌then◌else◌,
}
use rust_opengauss.Outcome.{Outcome, ok, err, panicked, other, ◌>>=◌ as bind}
use rust_opengauss.Crates.{Crates}
use rust_opengauss.Read.{Reader, ◌>>=◌, pure, read_be, is_empty}
use rust_opengauss.Iterate.{Next}
use rust_opengauss.Write
use rust_opengauss.Write.{
  ◌>>>◌, Writer, IsNull, null, not_null, write_nullable_as, put, len, patch, i32_max, from_usize,
}

pub record ArrayDimension : Type 0 where
  pub len : ℕ
  pub lower_bound : ℕ

pub record Array : Type 0 where
  pub dimensions : ℕ
  pub has_nulls : Bool
  pub element_type : ℕ
  pub elements : ℕ
  pub buf : Bytes

pub record ArrayDimensions : Type 0 where
  pub rest : Bytes

pub record ArrayValues : Type 0 where
  pub remaining : ℕ
  pub buf : Bytes

-- what the closure in the loop of `array_to_sql` notes
abbrev pub note : IsNull → Bool → Bool
note null has_nulls = true
note not_null has_nulls = has_nulls

-- `Array::dimensions`, whose slice panics past the end
unfoldable pub dimensions_of : Array → Outcome ArrayDimensions
dimensions_of a =
    if ltb (length a.buf) (a.dimensions * 8)
    then panicked
    else ok (record { rest = take (a.dimensions * 8) a.buf })

-- `Array::values`, whose slice panics past the end
unfoldable pub values_of : Array → Outcome ArrayValues
values_of a =
    if ltb (length a.buf) (a.dimensions * 8)
    then panicked
    else ok (record { remaining = a.elements; buf = drop (a.dimensions * 8) a.buf })

module _ ⦃c : Crates⦄ where
  -- the loop over the dimensions, with the count so far
  unfoldable pub write_dimensions : List ArrayDimension → ℕ → Writer ℕ
  write_dimensions [] num_dimensions = Write.pure num_dimensions
  write_dimensions (d ∷ ds) num_dimensions =
      put (c.to_be 4 d.len)
      >>> (put (c.to_be 4 d.lower_bound) >>> write_dimensions ds (num_dimensions + 1))

  -- the loop over the elements, with `has_nulls` so far
  unfoldable pub write_elements {ℓ} :
      {T : Type ℓ} → (T → Writer IsNull) → List T → Bool → Writer Bool
  write_elements serializer [] has_nulls = Write.pure has_nulls
  write_elements serializer (x ∷ xs) has_nulls =
      Write.◌>>=◌ (write_nullable_as (serializer x))
        λ is_null. write_elements serializer xs (note is_null has_nulls)

  unfoldable pub array_to_sql {ℓ} :
      {T : Type ℓ} → List ArrayDimension → ℕ → List T → (T → Writer IsNull) → Writer (Unit {0})
  array_to_sql dimensions element_type elements serializer = Write.◌>>=◌ len λ dimensions_idx.
      put (c.to_be 4 0)
      >>> Write.◌>>=◌ len λ flags_idx.
        put (c.to_be 4 0)
        >>> (put (c.to_be 4 element_type)
            >>> Write.◌>>=◌ (write_dimensions dimensions 0) λ n.
              Write.◌>>=◌ (Write.lift (from_usize i32_max n)) λ num_dimensions.
                patch dimensions_idx (c.to_be 4 num_dimensions)
                >>> Write.◌>>=◌ (write_elements serializer elements false)
                    λ has_nulls. patch flags_idx (c.to_be 4 (if has_nulls then 1 else 0)))

  -- `i32::checked_mul` of numbers that are not negative, and the rest of the loop
  unfoldable pub count_more : (ℕ → Outcome ℕ) → ℕ → Outcome ℕ
  count_more more elements =
      if ltb i32_max elements then err (other "too many array elements") else more elements

  -- the loop over the dimensions in `array_from_sql`
  unfoldable pub count_elements : ℕ → ℕ → Bytes → Outcome ℕ
  count_elements zero elements r = ok elements
  count_elements (suc dimensions) elements r = bind (read_be 4 r) λ p.
      if is_negative_i32 p.0
      then err (other "invalid dimension size")
      else bind (read_be 4 p.1)
          λ q. count_more (λ n. count_elements dimensions n q.1) (elements * p.0)

  -- behind the dimension count
  unfoldable pub array_rest : ℕ → Bytes → Outcome Array
  array_rest dimensions s = bind (read_be 4 s) λ p. bind (read_be 4 p.1) λ q.
      bind (count_elements dimensions 1 q.1) λ elements. ok (record {
        dimensions = dimensions;
        has_nulls = not (p.0 == 0);
        element_type = q.0;
        elements = if dimensions == 0 then 0 else elements;
        buf = q.1;
      })

  unfoldable pub array_from_sql : Bytes → Outcome Array
  array_from_sql buf =
      bind (read_be 4 buf) λ p.
        if is_negative_i32 p.0 then err (other "invalid dimension count") else array_rest p.0 p.1

  -- `ArrayDimensions::next`
  unfoldable pub next_dimension : Next ArrayDimensions ArrayDimension
  next_dimension it =
      if is_empty it.rest
      then ok (none, it)
      else bind (read_be 4 it.rest) λ p.
        bind (read_be 4 p.1)
          λ q. ok (some (record { len = p.0; lower_bound = q.0 }), record { rest = q.1 })

  -- a value behind its length
  unfoldable pub array_value : ℕ → Reader (Option Bytes)
  array_value len s =
      if is_negative_i32 len
      then ok (none, s)
      else if ltb (length s) len
      then err (other "invalid value length")
      else ok (some (take len s), drop len s)

  -- `ArrayValues::next`; `remaining` starts at `elements`, which is not negative
  unfoldable pub next_value : Next ArrayValues (Option Bytes)
  next_value it =
      if it.remaining == 0
      then (if not (is_empty it.buf)
          then err (other "invalid message length: arrayvalue not drained")
          else ok (none, it))
      else bind (read_be 4 it.buf) λ p.
        bind (array_value p.0 p.1)
          λ q. ok (some q.0, record { remaining = it.remaining - 1; buf = q.1 })
