-- ===== src/Types/Array/RoundTrip.antt =====
-- About reading the arrays of opengauss-protocol/src/types/mod.rs.
use mathlib.Core.List.{map}
use rust_opengauss.Prelude.{
  small_nonneg, nonzero, one_less, ℕ, suc, ◌*◌, ◌^◌, ◌<◌, ◌≡◌, refl, sym, subst, Bool, true, false,
  not, Option, none, some, List, [], ◌∷◌, ◌++◌, arith, Bytes, All, length, length-append,
  take_append, drop_append, append_assoc, ltb, ◌==◌, le→ltb, minus_one_i32, if◌then◌else◌,
}
use rust_opengauss.Outcome.{ok}
use rust_opengauss.Crates.{Crates}
use rust_opengauss.Read.{is_empty}
use rust_opengauss.Read.Laws.{read_be-to_be}
use rust_opengauss.Iterate.{Yields}
use rust_opengauss.Write.{Writer, IsNull, i32_max}
use rust_opengauss.Write.Laws.{Writes}
use rust_opengauss.Frontend.Parts.{encode_items, Serializes}
use rust_opengauss.Types.Array.{
  Array, ArrayDimension, ArrayDimensions, ArrayValues, dimensions_of, values_of, array_to_sql,
  count_more, count_elements, array_rest, array_from_sql, next_dimension, array_value, next_value,
}
use rust_opengauss.Types.Array.Wire.{
  IsDimension, IsCountable, product, element_count, any_null, encode_dimension, encode_value,
  encode_array, length-encode_dimensions, array_to_sql-Writes,
}

abbrev IsValue : Option Bytes → Type 0
IsValue none = Unit {0}
IsValue (some v) = length v < 2 ^ 31

flag : (b : Bool) → not ((if b then 1 else 0) == 0) ≡ b
flag true = refl
flag false = refl

module _ ⦃c : Crates⦄ where
  count_elements-encode :
      (ds : List ArrayDimension) (n : ℕ) (rest : Bytes)
      → All IsDimension ds
      → IsCountable n ds
      → count_elements (length ds) n (encode_items encode_dimension ds ++ rest) ≡ ok (product n ds)
  unfolding count_elements count_more
  count_elements-encode [] n rest h k = refl
  count_elements-encode (d ∷ ds) n rest h k =
      rw
        (
          append_assoc (encode_dimension d) (encode_items encode_dimension ds) rest,
          append_assoc (c.to_be 4 d.len) (c.to_be 4 d.lower_bound)
              (encode_items encode_dimension ds ++ rest),
          read_be-to_be 4 d.len
              (c.to_be 4 d.lower_bound ++ (encode_items encode_dimension ds ++ rest))
              (omega (arith, h.0.0)),
          small_nonneg d.len h.0.0,
          read_be-to_be 4 d.lower_bound (encode_items encode_dimension ds ++ rest)
              (omega (arith, h.0.1)),
          le→ltb i32_max (n * d.len) (omega (arith, k.0)),
        )
        (count_elements-encode ds (n * d.len) rest h.1 k.1)

  is_empty_long : (s : Bytes) → 0 < length s → is_empty s ≡ false
  unfolding is_empty
  is_empty_long [] h = absurd (omega arith)
  is_empty_long (b ∷ s) h = refl

  Yields-dimensions :
      (ds : List ArrayDimension)
      → All IsDimension ds
      → Yields next_dimension (record { rest = encode_items encode_dimension ds }) ds
  unfolding next_dimension
  Yields-dimensions [] h = (record { rest = [] }, unfold is_empty in refl)
  Yields-dimensions (d ∷ ds) h = (
    record { rest = encode_items encode_dimension ds },
    rw (
      is_empty_long (encode_items encode_dimension (d ∷ ds))
          (omega (arith, length-encode_dimensions (d ∷ ds))),
      append_assoc (c.to_be 4 d.len) (c.to_be 4 d.lower_bound) (encode_items encode_dimension ds),
      read_be-to_be 4 d.len (c.to_be 4 d.lower_bound ++ encode_items encode_dimension ds)
          (omega (arith, h.0.0)),
      read_be-to_be 4 d.lower_bound (encode_items encode_dimension ds) (omega (arith, h.0.1)),
    ),
    Yields-dimensions ds h.1,
  )

  next_value-encode :
      (v : Option Bytes) (vs : List (Option Bytes)) (n : ℕ)
      → IsValue v
      → next_value
          (record { remaining = suc n; buf = encode_value v ++ encode_items encode_value vs })
        ≡ ok (some v, record { remaining = n; buf = encode_items encode_value vs })
  unfolding next_value array_value
  next_value-encode none vs n h = rw (
    nonzero n,
    read_be-to_be 4 minus_one_i32 (encode_items encode_value vs) (omega arith),
    one_less n,
  )
  next_value-encode (some v) vs n h =
      let rest : Bytes = encode_items encode_value vs in
      rw (
        nonzero n,
        append_assoc (c.to_be 4 (length v)) v rest,
        read_be-to_be 4 (length v) (v ++ rest) (omega arith),
        small_nonneg (length v) h,
        le→ltb (length (v ++ rest)) (length v) (omega (arith, length-append v rest)),
        take_append (length v) v rest refl,
        drop_append (length v) v rest refl,
        one_less n,
      )

  Yields-values :
      (vs : List (Option Bytes))
      → All IsValue vs
      → Yields next_value (record { remaining = length vs; buf = encode_items encode_value vs }) vs
  Yields-values [] h = (record { remaining = 0; buf = [] }, unfold next_value is_empty in refl)
  Yields-values (v ∷ vs) h = (
    record { remaining = length vs; buf = encode_items encode_value vs },
    next_value-encode v vs (length vs) h.0,
    Yields-values vs h.1,
  )

  count_or_none :
      (ds : List ArrayDimension) → (if length ds == 0 then 0 else product 1 ds) ≡ element_count ds
  count_or_none [] = refl
  count_or_none (d ∷ ds) = rw (nonzero (length ds))

  abbrev array_of : List ArrayDimension → ℕ → List (Option Bytes) → Array
  array_of ds ty vs = record {
    dimensions = length ds;
    has_nulls = any_null vs false;
    element_type = ty;
    elements = element_count ds;
    buf = encode_items encode_dimension ds ++ encode_items encode_value vs;
  }

  flag_bound : (b : Bool) → (if b then 1 else 0) < 256 ^ 4
  flag_bound true = omega arith
  flag_bound false = omega arith

  array_from_sql-encode :
      (ds : List ArrayDimension) (ty : ℕ) (vs : List (Option Bytes))
      → length ds < 2 ^ 31
      → All IsDimension ds
      → IsCountable 1 ds
      → ty < 2 ^ 32
      → array_from_sql (encode_array ds ty vs) ≡ ok (array_of ds ty vs)
  unfolding array_from_sql array_rest
  array_from_sql-encode ds ty vs small hd hc ht =
      let flags : ℕ = if any_null vs false then 1 else 0 in
      let items : Bytes = encode_items encode_dimension ds ++ encode_items encode_value vs in
      rw (
        read_be-to_be 4 (length ds) (c.to_be 4 flags ++ (c.to_be 4 ty ++ items)) (omega arith),
        small_nonneg (length ds) small,
        read_be-to_be 4 flags (c.to_be 4 ty ++ items) (flag_bound (any_null vs false)),
        read_be-to_be 4 ty items (omega arith),
        count_elements-encode ds 1 (encode_items encode_value vs) hd hc,
        count_or_none ds,
        flag (any_null vs false),
      )

  Serializes-IsValue {ℓ} :
      {T : Type ℓ} (serializer : T → Writer IsNull) (x : T) (v : Option Bytes)
      → Serializes serializer x v
      → IsValue v
  Serializes-IsValue serializer x none h = tt
  Serializes-IsValue serializer x (some v) h = h.1

  All-IsValue {ℓ} :
      {T : Type ℓ} (serializer : T → Writer IsNull) (value : T → Option Bytes) (xs : List T)
      → All (λ x. Serializes serializer x (value x)) xs
      → All IsValue (map value xs)
  All-IsValue serializer value [] h = tt
  All-IsValue serializer value (x ∷ xs) h =
      (Serializes-IsValue serializer x (value x) h.0, All-IsValue serializer value xs h.1)

  room :
      (ds : List ArrayDimension) (rest : Bytes)
      → ltb (length (encode_items encode_dimension ds ++ rest)) (length ds * 8) ≡ false
  room ds rest = le→ltb _ _ (
      omega
        (arith, length-append (encode_items encode_dimension ds) rest, length-encode_dimensions ds))

  -- An array whose dimensions multiply up to its number of elements, at no step past an `i32`, is
  -- appended to the buffer in a form that is read back: its element type, whether it has nulls, its
  -- dimensions and its elements, for any serializer that writes the elements' values.
  pub array_roundtrip {ℓ} :
      {T : Type ℓ} (ds : List ArrayDimension) (ty : ℕ) (xs : List T)
      (serializer : T → Writer IsNull) (value : T → Option Bytes)
      → (length ds < 2 ^ 31) × (ty < 2 ^ 32)
      → All IsDimension ds
      → IsCountable 1 ds
      → element_count ds ≡ length (map value xs)
      → All (λ x. Serializes serializer x (value x)) xs
      → (s : Bytes) × (a : Array) × (dims : ArrayDimensions) × (values : ArrayValues) × Writes
          (array_to_sql ds ty xs serializer)
          tt
          s
        × (array_from_sql s ≡ ok a)
        × (a.element_type ≡ ty)
        × (a.has_nulls ≡ any_null (map value xs) false)
        × (dimensions_of a ≡ ok dims)
        × Yields next_dimension dims ds
        × (values_of a ≡ ok values)
        × Yields next_value values (map value xs)
  array_roundtrip ds ty xs serializer value sizes hd hc count h =
      let vs : List (Option Bytes) = map value xs in
      let dims : Bytes = encode_items encode_dimension ds in
      let items : Bytes = encode_items encode_value vs in
      (
        encode_array ds ty vs,
        array_of ds ty vs,
        record { rest = dims },
        record { remaining = element_count ds; buf = items },
        array_to_sql-Writes ds ty xs serializer value sizes.0 h,
        array_from_sql-encode ds ty vs sizes.0 hd hc sizes.1,
        refl,
        refl,
        unfold dimensions_of in
            rw
              (room ds items, take_append (length ds * 8) dims items (length-encode_dimensions ds)),
        Yields-dimensions ds hd,
        unfold values_of in
            rw
              (room ds items, drop_append (length ds * 8) dims items (length-encode_dimensions ds)),
        subst (λ (n : ℕ). Yields next_value (record { remaining = n; buf = items }) vs) (sym count)
            (Yields-values vs (All-IsValue serializer value xs h)),
      )
