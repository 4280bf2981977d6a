-- ===== src/Examples/Values.antt =====
-- Points, ranges and arrays.
use mathlib.Core.List.{map}
use rust_opengauss.Prelude.{
  ℕ, ◌^◌, ◌≡◌, ◌≢◌, refl, ap, sym, Option, none, some, true, false, List, [], ◌∷◌, arith, Bytes,
  append-nil,
}
use rust_opengauss.Outcome.{ok, panicked}
use rust_opengauss.Crates.Native.{native_crates, be_value}
use rust_opengauss.Iterate.{Yields}
use rust_opengauss.Read.{read_be, read_exact}
use rust_opengauss.Write.{Writer, IsNull, null, not_null, put, pure, ◌>>◌}
use rust_opengauss.Write.Laws.{Writes}
use rust_opengauss.Types.Geo.{
  Point, Box, SqlPath, points_of, path_to_sql, path_from_sql, next_point,
}
use rust_opengauss.Types.Geo.Laws.{path_roundtrip}
use rust_opengauss.Types.Range.{
  RangeBound, inclusive, unbounded, nonempty, range_to_sql, range_from_sql,
}
use rust_opengauss.Types.Range.Laws.{range_roundtrip}
use rust_opengauss.Types.Array.{
  Array, ArrayDimension, ArrayDimensions, ArrayValues, dimensions_of, values_of, array_to_sql,
  array_from_sql, array_rest, count_elements, next_dimension, next_value,
}
use rust_opengauss.Types.Array.Safe.{array_slices-ne-panicked}
use rust_opengauss.Types.Array.Wire.{any_null}
use rust_opengauss.Types.Array.RoundTrip.{array_roundtrip}
use rust_opengauss.Read.{read_u8, is_empty}
use rust_opengauss.Types.Inet.{
  IpAddr, v4, inet_to_sql, inet_from_sql, read_inet, read_addr, read_v4,
}
use rust_opengauss.Types.Inet.Laws.{inet_roundtrip}

abbrev origin : Point
origin = record { x = 0; y = 0 }

abbrev corner : Point
corner = record { x = 2 ^ 62; y = 7 }

abbrev square : Box
square = record { upper_right = corner; lower_left = origin }

path_roundtrip_example :
    (s : Bytes) × (p : SqlPath) × Writes (path_to_sql true (origin ∷ corner ∷ [])) tt s
    × (path_from_sql s ≡ ok p)
    × (p.closed ≡ true)
    × Yields next_point (points_of p) (origin ∷ corner ∷ [])
path_roundtrip_example =
    path_roundtrip true (origin ∷ corner ∷ [])
      ((omega arith, omega arith), ((omega arith, omega arith), tt)) (omega arith)

-- Sends the bytes as the inclusive bound.
abbrev from_three : Writer (RangeBound IsNull)
from_three = put (0 ∷ 3 ∷ []) >> pure (inclusive not_null)

abbrev to_end : Writer (RangeBound IsNull)
to_end = pure unbounded

range_roundtrip_example :
    (s : Bytes) × Writes (range_to_sql from_three to_end) tt s
    × (range_from_sql s ≡ ok (nonempty (inclusive (some (0 ∷ 3 ∷ []))) unbounded))
unfolding put
range_roundtrip_example =
    range_roundtrip from_three to_end (inclusive (some (0 ∷ 3 ∷ []))) unbounded
      ((λ buf. refl), omega arith) ([], (λ buf. ap (λ s. (ok unbounded, s)) (sym (append-nil buf))))

abbrev serialize : Option Bytes → Writer IsNull
serialize none = pure null
serialize (some v) = put v >> pure not_null

abbrev pair : List ArrayDimension
pair = record { len = 2; lower_bound = 1 } ∷ []

abbrev items : List (Option Bytes)
items = some (7 ∷ []) ∷ none ∷ []

array_roundtrip_example :
    (s : Bytes) × (a : Array) × (dims : ArrayDimensions) × (values : ArrayValues) × Writes
      (array_to_sql pair 23 items serialize)
      tt
      s
    × (array_from_sql s ≡ ok a)
    × (◌≡◌ {A = ℕ} a.element_type 23)
    × (a.has_nulls ≡ any_null (map (λ (v : Option Bytes). v) items) false)
    × (dimensions_of a ≡ ok dims)
    × Yields next_dimension dims pair
    × (values_of a ≡ ok values)
    × Yields next_value values (map (λ (v : Option Bytes). v) items)
unfolding put
array_roundtrip_example =
    array_roundtrip pair 23 items serialize (λ v. v) (omega arith, omega arith)
      ((omega arith, omega arith), tt) (omega arith, tt) refl
      (((λ buf. refl), omega arith), ((λ buf. ap (λ s. (ok null, s)) (sym (append-nil buf))), tt))

abbrev no_items : Bytes
no_items = 0 ∷ 0 ∷ 0 ∷ 0 ∷ 0 ∷ 0 ∷ 0 ∷ 0 ∷ 0 ∷ 0 ∷ 0 ∷ 23 ∷ []

abbrev no_array : Array
no_array = record { dimensions = 0; has_nulls = false; element_type = 23; elements = 0; buf = [] }

read_none : array_from_sql no_items ≡ ok no_array
unfolding array_from_sql array_rest count_elements read_be read_exact be_value
read_none = refl

array_slices-ne-panicked_example :
    (dimensions_of no_array ≢ panicked) × (values_of no_array ≢ panicked)
array_slices-ne-panicked_example = array_slices-ne-panicked no_items no_array read_none

abbrev localhost : IpAddr
localhost = v4 (127 ∷ 0 ∷ 0 ∷ 1 ∷ [])

inet_roundtrip_example :
    (s : Bytes) × Writes (inet_to_sql localhost 24) tt s
    × (inet_from_sql s ≡ ok (record { addr = localhost; netmask = 24 }))
inet_roundtrip_example = inet_roundtrip localhost 24 (refl, omega arith)

abbrev localhost_bytes : Bytes
localhost_bytes = 2 ∷ 24 ∷ 0 ∷ 4 ∷ 127 ∷ 0 ∷ 0 ∷ 1 ∷ []

read_localhost : inet_from_sql localhost_bytes ≡ ok (record { addr = localhost; netmask = 24 })
unfolding inet_from_sql read_inet read_addr read_v4 read_exact read_u8 is_empty
read_localhost = refl
