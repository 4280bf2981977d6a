-- ===== src/Backend/Iter/Row.antt =====
-- About `DataRowRanges` of opengauss-protocol/src/message/backend.rs.
use mathlib.Core.List.{map}
use rust_opengauss.Prelude.{
  ℕ, suc, ◌+◌, ◌-◌, ◌^◌, ◌≤◌, ◌<◌, ◌≡◌, refl, sym, ap, ap₂, subst, ◌∙◌, false, Option, none, some,
  List, [], ◌∷◌, ◌++◌, arith, Bytes, All, length, take, drop, ◌==◌, append_assoc, length-append,
  drop_append, take_append, length-drop, minus_one_i32,
}
use rust_opengauss.Outcome.{ok, ◌>>=◌ as bind}
use rust_opengauss.Crates.{Crates}
use rust_opengauss.Read.{read_be, read_exact}
use rust_opengauss.Read.Laws.{read_be-to_be}
use rust_opengauss.Iterate.{Yields}
use rust_opengauss.Backend.Iter.{DataRowRanges, ranges, next_range, take_range}

-- The bytes that a range names.
abbrev pub slice : Bytes → Option (ℕ × ℕ) → Option Bytes
slice s none = none
slice s (some (from, to)) = some (take (to - from) (drop from s))

-- A column's value fits its `i32` length.
abbrev pub IsColumn : Option Bytes → Type 0
IsColumn none = Unit {0}
IsColumn (some v) = length v < 2 ^ 31

abbrev range_at : ℕ → Option Bytes → Option (ℕ × ℕ)
range_at off none = none
range_at off (some v) = some (off + 4, off + 4 + length v)

module _ ⦃c : Crates⦄ where
  abbrev pub column : Option Bytes → Bytes
  column none = c.to_be 4 minus_one_i32
  column (some v) = c.to_be 4 (length v) ++ v

  -- The columns of a row on the wire.
  abbrev pub row : List (Option Bytes) → Bytes
  row [] = []
  row (v ∷ vs) = column v ++ row vs

  abbrev offsets : ℕ → List (Option Bytes) → List (Option (ℕ × ℕ))
  offsets off [] = []
  offsets off (v ∷ vs) = range_at off v ∷ offsets (off + length (column v)) vs

  nonzero : (n : ℕ) → (suc n == 0) ≡ false
  nonzero n = ground arith

  take_range-some :
      (it : DataRowRanges) (v rest : Bytes)
      → length v < 2 ^ 31
      → take_range it (length v) (v ++ rest)
        ≡ ok (
          some (some (it.len - length (v ++ rest), it.len - length (v ++ rest) + length v)),
          record { buf = rest; len = it.len; remaining = it.remaining - 1 },
        )
  unfolding take_range
  take_range-some it v rest h =
      ground (arith, length-append v rest, drop_append (length v) v rest refl)

  value_offset :
      (total : ℕ) (v rest : Bytes)
      → length (column (some v) ++ rest) ≤ total
      → total - length (v ++ rest) ≡ total - length (column (some v) ++ rest) + 4
  value_offset total v rest h = omega (
    arith,
    h,
    ap length (append_assoc (c.to_be 4 (length v)) v rest),
    length-append (c.to_be 4 (length v)) (v ++ rest),
    c.to_be_length 4 (length v),
  )

  next_range-column :
      (total n : ℕ) (v : Option Bytes) (rest : Bytes)
      → IsColumn v
      → length (column v ++ rest) ≤ total
      → next_range (record { buf = column v ++ rest; len = total; remaining = suc n })
        ≡ ok (
          some (range_at (total - length (column v ++ rest)) v),
          record { buf = rest; len = total; remaining = n },
        )
  unfolding next_range
  next_range-column total n none rest h fits =
      rw (nonzero n) (rw (read_be-to_be 4 minus_one_i32 rest (omega arith)) (ground arith))
  next_range-column total n (some v) rest h fits = rw (nonzero n) (
      ap
        (λ r. bind r (λ p.
          take_range (record { buf = column (some v) ++ rest; len = total; remaining = suc n }) p.0
            p.1))
        (ap (read_be 4) (append_assoc (c.to_be 4 (length v)) v rest)
          ∙ read_be-to_be 4 (length v) (v ++ rest) (omega arith))
      ∙ take_range-some (record { buf = column (some v) ++ rest; len = total; remaining = suc n }) v
          rest h
      ∙ ap
          (λ (k : ℕ). ok (
            some (some (k, k + length v)),
            record { buf = rest; len = total; remaining = suc n - 1 },
          ))
          (value_offset total v rest fits)
      ∙ ap
          (λ (k : ℕ). ok (
            some (range_at (total - length (column (some v) ++ rest)) (some v)),
            record { buf = rest; len = total; remaining = k },
          ))
          (omega arith))

  -- From any place in a row the iterator gives the ranges of the columns that are left.
  Yields-offsets :
      (total : ℕ) (vs : List (Option Bytes))
      → All IsColumn vs
      → length (row vs) ≤ total
      → Yields next_range
          (record { buf = row vs; len = total; remaining = length vs })
          (offsets (total - length (row vs)) vs)
  Yields-offsets total [] h fits =
      (record { buf = []; len = total; remaining = 0 }, unfold next_range in refl)
  Yields-offsets total (v ∷ vs) h fits = (
    record { buf = row vs; len = total; remaining = length vs },
    next_range-column total (length vs) v (row vs) h.0 fits,
    subst
        (λ (k : ℕ).
          Yields next_range (record { buf = row vs; len = total; remaining = length vs })
            (offsets k vs))
        (omega (arith, fits, length-append (column v) (row vs)))
        (Yields-offsets total vs h.1 (omega (arith, fits, length-append (column v) (row vs)))),
  )

  slice_middle :
      (n : ℕ) (a v rest : Bytes)
      → length a ≡ n
      → slice (a ++ (v ++ rest)) (some (n, n + length v)) ≡ some v
  slice_middle n a v rest h = ap some (
      ap (take (n + length v - n)) (drop_append n a (v ++ rest) h)
      ∙ take_append (n + length v - n) v rest (omega arith))

  slice-column :
      (pre : Bytes) (v : Option Bytes) (rest : Bytes)
      → slice (pre ++ (column v ++ rest)) (range_at (length pre) v) ≡ v
  slice-column pre none rest = refl
  slice-column pre (some v) rest =
      ap (λ s. slice s (range_at (length pre) (some v)))
        (ap (◌++◌ pre) (append_assoc (c.to_be 4 (length v)) v rest)
          ∙ sym (append_assoc pre (c.to_be 4 (length v)) (v ++ rest)))
      ∙ slice_middle (length pre + 4) (pre ++ c.to_be 4 (length v)) v rest
          (omega (arith, length-append pre (c.to_be 4 (length v)), c.to_be_length 4 (length v)))

  slices :
      (pre : Bytes) (vs : List (Option Bytes))
      → map (slice (pre ++ row vs)) (offsets (length pre) vs) ≡ vs
  slices pre [] = refl
  slices pre (v ∷ vs) = ap₂ ◌∷◌ (slice-column pre v (row vs)) (
      ap₂ (λ s k. map (slice s) (offsets k vs)) (sym (append_assoc pre (column v) (row vs)))
        (sym (length-append pre (column v)))
      ∙ slices (pre ++ column v) vs)

  -- A row of fewer than 2 ^ 16 columns, encoded, is read back: the iterator gives one range for
  -- each column, and the range cuts that column's value out of the row.
  pub ranges-row :
      (vs : List (Option Bytes))
      → All IsColumn vs
      → (rs : List (Option (ℕ × ℕ))) × Yields next_range
          (ranges (record { storage = row vs; len = length vs }))
          rs
        × (map (slice (row vs)) rs ≡ vs)
  ranges-row vs h = (
    offsets 0 vs,
    subst
        (λ (k : ℕ).
          Yields next_range (ranges (record { storage = row vs; len = length vs })) (offsets k vs))
        (omega arith) (Yields-offsets (length (row vs)) vs h (omega arith)),
    slices [] vs,
  )

  take_range_bounds :
      (it it' : DataRowRanges) (n from to : ℕ) (rest : Bytes)
      → length rest ≤ it.len
      → take_range it n rest ≡ ok (some (some (from, to)), it')
      → (from ≤ to) × (to ≤ it.len) × (it'.len ≡ it.len) × (length it'.buf ≡ it.len - to)
  unfolding take_range
  take_range_bounds it it' n from to rest fits e = ground (arith, length-drop n rest)

  -- On any bytes, well formed or not: a range that the iterator gives lies within the row, in front
  -- of the bytes that are left.
  pub next_range_bounds :
      (it it' : DataRowRanges) (from to : ℕ)
      → length it.buf ≤ it.len
      → next_range it ≡ ok (some (some (from, to)), it')
      → (from ≤ to) × (to ≤ it.len) × (it'.len ≡ it.len) × (length it'.buf ≡ it.len - to)
  unfolding next_range read_be read_exact
  next_range_bounds it it' from to fits e = ground (
    arith,
    length-drop 4 it.buf,
    take_range_bounds it it' (c.from_be (take 4 it.buf)) from to (drop 4 it.buf),
  )
