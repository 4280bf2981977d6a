-- ===== src/Types/Array/Wire.antt =====
-- The format of an array, and proofs about `array_to_sql` of opengauss-protocol/src/types/mod.rs.
use mathlib.Core.List.{map}
use rust_opengauss.Prelude.{
  ℕ, ◌+◌, ◌*◌, ◌^◌, ◌<◌, ◌≡◌, refl, sym, ap, ap₂, ◌∙◌, Bool, false, Option, none, some, List, [],
  ◌∷◌, ◌++◌, arith, Bytes, All, length, length-append, append_assoc, append-nil, minus_one_i32,
  if◌then◌else◌,
}
use rust_opengauss.Outcome.{ok}
use rust_opengauss.Crates.{Crates}
use rust_opengauss.Write.{
  Writer, IsNull, null, not_null, write_nullable_as, put, len, patch, i32_max,
}
use rust_opengauss.Write.Laws.{
  Writes, patch-append, from_usize_ok, write_nullable_as-Writes, write_nullable_as-Writes_null,
}
use rust_opengauss.Frontend.Parts.{encode_items, Serializes}
use rust_opengauss.Types.Array.{
  ArrayDimension, note, write_dimensions, write_elements, array_to_sql,
}

abbrev pub IsDimension : ArrayDimension → Type 0
IsDimension d = (d.len < 2 ^ 31) × (d.lower_bound < 2 ^ 32)

-- The number of elements behind `n` for each, and that it fits an `i32` at every dimension.
abbrev pub product : ℕ → List ArrayDimension → ℕ
product n [] = n
product n (d ∷ ds) = product (n * d.len) ds

abbrev pub IsCountable : ℕ → List ArrayDimension → Type 0
IsCountable n [] = Unit {0}
IsCountable n (d ∷ ds) = (n * d.len < 2 ^ 31) × IsCountable (n * d.len) ds

-- An array without dimensions has no elements.
abbrev pub element_count : List ArrayDimension → ℕ
element_count [] = 0
element_count (d ∷ ds) = product 1 (d ∷ ds)

abbrev kind : Option Bytes → IsNull
kind none = null
kind (some v) = not_null

-- Whether there is a null, or was one before.
abbrev pub any_null : List (Option Bytes) → Bool → Bool
any_null [] b = b
any_null (v ∷ vs) b = any_null vs (note (kind v) b)

module _ ⦃c : Crates⦄ where
  abbrev pub encode_dimension : ArrayDimension → Bytes
  encode_dimension d = c.to_be 4 d.len ++ c.to_be 4 d.lower_bound

  abbrev pub encode_value : Option Bytes → Bytes
  encode_value none = c.to_be 4 minus_one_i32
  encode_value (some v) = c.to_be 4 (length v) ++ v

  pub length-encode_dimensions :
      (ds : List ArrayDimension) → length (encode_items encode_dimension ds) ≡ length ds * 8
  length-encode_dimensions [] = refl
  length-encode_dimensions (d ∷ ds) = omega (
    arith,
    length-append (encode_dimension d) (encode_items encode_dimension ds),
    length-append (c.to_be 4 d.len) (c.to_be 4 d.lower_bound),
    c.to_be_length 4 d.len,
    c.to_be_length 4 d.lower_bound,
    length-encode_dimensions ds,
  )

  write_dimensions-Writes :
      (ds : List ArrayDimension) (n : ℕ)
      → Writes (write_dimensions ds n) (n + length ds) (encode_items encode_dimension ds)
  unfolding write_dimensions put
  write_dimensions-Writes [] n buf =
      ap₂ (λ (k : ℕ) s. (ok k, s)) (omega arith) (sym (append-nil buf))
  write_dimensions-Writes (d ∷ ds) n buf =
      write_dimensions-Writes ds (n + 1) ((buf ++ c.to_be 4 d.len) ++ c.to_be 4 d.lower_bound)
      ∙ ap₂ (λ (k : ℕ) s. (ok k, s)) (omega arith) (simp append_assoc)

  write_dimensions_all :
      (ds : List ArrayDimension)
      → Writes (write_dimensions ds 0) (length ds) (encode_items encode_dimension ds)
  write_dimensions_all ds buf =
      write_dimensions-Writes ds 0 buf
      ∙ ap (λ (k : ℕ). (ok k, buf ++ encode_items encode_dimension ds)) (omega arith)

  module _ {ℓ} {T : Type ℓ} (serializer : T → Writer IsNull) (value : T → Option Bytes) where
    element-Writes :
        (x : T) (v : Option Bytes)
        → Serializes serializer x v
        → Writes (write_nullable_as (serializer x)) (kind v) (encode_value v)
    element-Writes x none h = write_nullable_as-Writes_null (serializer x) h
    element-Writes x (some v) h = write_nullable_as-Writes (serializer x) v h.0 h.1

    write_elements-Writes :
        (xs : List T) (b : Bool)
        → All (λ x. Serializes serializer x (value x)) xs
        → Writes
            (write_elements serializer xs b)
            (any_null (map value xs) b)
            (encode_items encode_value (map value xs))
    unfolding write_elements
    write_elements-Writes [] b h buf = ap (λ s. (ok b, s)) (sym (append-nil buf))
    write_elements-Writes (x ∷ xs) b h buf = rw (element-Writes x (value x) h.0 buf) (
        write_elements-Writes xs (note (kind (value x)) b) h.1 (buf ++ encode_value (value x))
        ∙ ap (λ s. (ok (any_null (map value xs) (note (kind (value x)) b)), s))
            (append_assoc buf _ _))

  -- The number of dimensions is filled in.
  first_patch :
      (buf flags t dims : Bytes) (n : ℕ)
      → patch (length buf) (c.to_be 4 n) ((((buf ++ c.to_be 4 0) ++ flags) ++ t) ++ dims)
        ≡ (ok tt, buf ++ (c.to_be 4 n ++ (flags ++ (t ++ dims))))
  first_patch buf flags t dims n =
      ap (patch (length buf) (c.to_be 4 n)) (simp append_assoc)
      ∙ patch-append buf (c.to_be 4 0) (c.to_be 4 n) (flags ++ (t ++ dims))
          (c.to_be_length 4 0 ∙ sym (c.to_be_length 4 n))

  -- The flags are filled in.
  second_patch :
      (buf t dims elems : Bytes) (n f : ℕ)
      → patch
          (length (buf ++ c.to_be 4 0))
          (c.to_be 4 f)
          ((buf ++ (c.to_be 4 n ++ (c.to_be 4 0 ++ (t ++ dims)))) ++ elems)
        ≡ (ok tt, buf ++ (c.to_be 4 n ++ (c.to_be 4 f ++ (t ++ (dims ++ elems)))))
  second_patch buf t dims elems n f =
      ap₂ (λ (k : ℕ) s. patch k (c.to_be 4 f) s)
        (omega (
          arith,
          length-append buf (c.to_be 4 0),
          length-append buf (c.to_be 4 n),
          c.to_be_length 4 0,
          c.to_be_length 4 n,
        ))
        (simp append_assoc)
      ∙ patch-append (buf ++ c.to_be 4 n) (c.to_be 4 0) (c.to_be 4 f) (t ++ (dims ++ elems))
          (c.to_be_length 4 0 ∙ sym (c.to_be_length 4 f))
      ∙ ap (λ s. (ok tt, s)) (append_assoc buf _ _)

  abbrev pub encode_array : List ArrayDimension → ℕ → List (Option Bytes) → Bytes
  encode_array ds ty vs =
      c.to_be 4 (length ds)
      ++ (c.to_be 4 (if any_null vs false then 1 else 0)
          ++ (c.to_be 4 ty ++ (encode_items encode_dimension ds ++ encode_items encode_value vs)))

  -- Writing an array appends its encoding.
  pub array_to_sql-Writes {ℓ} :
      {T : Type ℓ} (ds : List ArrayDimension) (ty : ℕ) (xs : List T)
      (serializer : T → Writer IsNull) (value : T → Option Bytes)
      → length ds < 2 ^ 31
      → All (λ x. Serializes serializer x (value x)) xs
      → Writes (array_to_sql ds ty xs serializer) tt (encode_array ds ty (map value xs))
  unfolding array_to_sql put len
  array_to_sql-Writes ds ty xs serializer value small h buf =
      let dims : Bytes = encode_items encode_dimension ds in
      rw
        (
          write_dimensions_all ds (((buf ++ c.to_be 4 0) ++ c.to_be 4 0) ++ c.to_be 4 ty),
          from_usize_ok i32_max (length ds) (omega arith),
          first_patch buf (c.to_be 4 0) (c.to_be 4 ty) dims (length ds),
          write_elements-Writes serializer value xs false h
              (buf ++ (c.to_be 4 (length ds) ++ (c.to_be 4 0 ++ (c.to_be 4 ty ++ dims)))),
        )
        (second_patch buf (c.to_be 4 ty) dims (encode_items encode_value (map value xs)) (length ds)
          (if any_null (map value xs) false then 1 else 0))
