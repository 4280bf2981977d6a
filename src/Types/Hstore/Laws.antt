-- ===== src/Types/Hstore/Laws.antt =====
-- About `HSTORE` and `VARBIT` of opengauss-protocol/src/types/mod.rs.
use rust_opengauss.Prelude.{
  small_nonneg, nonzero, ℕ, suc, ◌+◌, ◌/◌, ◌^◌, ◌<◌, ◌≡◌, refl, sym, ap, ap₂, ◌∙◌, true, Option,
  none, some, List, [], ◌∷◌, ◌++◌, arith, Bytes, All, length, le→ltb, lt→ltb, eq→==, minus_one_i32,
  append-nil, append_assoc, length-append, take_append, drop_append,
}
use rust_opengauss.Outcome.{ok, panicked}
use rust_opengauss.Crates.{Crates}
use rust_opengauss.Utf8.{is_utf8, from_utf8}
use rust_opengauss.Read.{is_empty}
use rust_opengauss.Read.Laws.{read_be-to_be}
use rust_opengauss.Iterate.{Yields}
use rust_opengauss.Write.{put, len, patch, i32_max}
use rust_opengauss.Write.Laws.{Writes, put-Writes, from_usize_ok, patch-append}
use rust_opengauss.Frontend.Parts.{encode_items, then-Writes}
use rust_opengauss.Types.Hstore.{
  Entry, HstoreEntries, split_at, write_pascal_string, write_value, write_entries, hstore_to_sql,
  hstore_from_sql, read_key, read_value, next_entry, read_str, key_of, value_of, varbit_to_sql,
  varbit_from_sql,
}

-- A text that fits its `i32` length.
abbrev pub IsText : Bytes → Type 0
IsText s = (is_utf8 s ≡ true) × (length s < 2 ^ 31)

abbrev pub IsEntry : Entry → Type 0
IsEntry (key, none) = IsText key
IsEntry (key, some value) = IsText key × IsText value

split_at-append : (s rest : Bytes) → split_at (length s) (s ++ rest) ≡ ok (s, rest)
unfolding split_at
split_at-append s rest =
    rw (le→ltb (length (s ++ rest)) (length s) (omega (arith, length-append s rest)))
      (rw (take_append (length s) s rest refl, drop_append (length s) s rest refl))

module _ ⦃c : Crates⦄ where
  abbrev pascal : Bytes → Bytes
  pascal s = c.to_be 4 (length s) ++ s

  abbrev encode_value : Option Bytes → Bytes
  encode_value none = c.to_be 4 minus_one_i32
  encode_value (some v) = pascal v

  abbrev pub encode_entry : Entry → Bytes
  encode_entry (key, value) = pascal key ++ encode_value value

  write_pascal_string-Writes :
      (s : Bytes) → length s < 2 ^ 31 → Writes (write_pascal_string s) tt (pascal s)
  unfolding write_pascal_string
  write_pascal_string-Writes s h buf = rw (from_usize_ok i32_max (length s) (omega arith)) (
      then-Writes (put (c.to_be 4 (length s))) (put s) tt tt _ _ (put-Writes (c.to_be 4 (length s)))
        (put-Writes s) buf)

  key_IsText : (key : Bytes) (value : Option Bytes) → IsEntry (key, value) → IsText key
  key_IsText key none h = h
  key_IsText key (some v) h = h.0

  key_fits : (key : Bytes) (value : Option Bytes) → IsEntry (key, value) → length key < 2 ^ 31
  key_fits key value h = (key_IsText key value h).1

  write_value-Writes :
      (key : Bytes) (value : Option Bytes)
      → IsEntry (key, value)
      → Writes (write_value value) tt (encode_value value)
  unfolding write_value
  write_value-Writes key none h = put-Writes (c.to_be 4 minus_one_i32)
  write_value-Writes key (some v) h = write_pascal_string-Writes v h.1.1

  write_entries-Writes :
      (vs : List Entry) (n : ℕ)
      → All IsEntry vs
      → Writes (write_entries vs n) (n + length vs) (encode_items encode_entry vs)
  unfolding write_entries
  write_entries-Writes [] n h buf =
      ap₂ (λ (k : ℕ) s. (ok k, s)) (omega arith) (sym (append-nil buf))
  write_entries-Writes ((key, value) ∷ vs) n h buf =
      then-Writes (write_pascal_string key) _ tt (n + 1 + length vs) (pascal key) _
        (write_pascal_string-Writes key (key_fits key value h.0))
        (then-Writes (write_value value) (write_entries vs (n + 1)) tt (n + 1 + length vs)
          (encode_value value) _ (write_value-Writes key value h.0)
          (write_entries-Writes vs (n + 1) h.1))
        buf
      ∙ ap₂ (λ (k : ℕ) s. (ok k, buf ++ s)) (omega arith)
          (sym (append_assoc (pascal key) (encode_value value) (encode_items encode_entry vs)))

  -- The entries of an hstore behind their number.
  abbrev pub encode_hstore : List Entry → Bytes
  encode_hstore vs = c.to_be 4 (length vs) ++ encode_items encode_entry vs

  -- An hstore of fewer than 2 ^ 31 entries is appended as its number and its entries.
  hstore_to_sql-Writes :
      (vs : List Entry)
      → All IsEntry vs
      → length vs < 2 ^ 31
      → Writes (hstore_to_sql vs) tt (encode_hstore vs)
  unfolding hstore_to_sql put len
  hstore_to_sql-Writes vs h small buf =
      rw
        (
          write_entries-Writes vs 0 h (buf ++ c.to_be 4 0),
          from_usize_ok i32_max (0 + length vs) (omega arith),
          append_assoc buf (c.to_be 4 0) (encode_items encode_entry vs),
        )
        (ap
            (λ (k : ℕ).
              patch (length buf) (c.to_be 4 k)
                (buf ++ (c.to_be 4 0 ++ encode_items encode_entry vs)))
            (omega arith)
          ∙ patch-append buf (c.to_be 4 0) (c.to_be 4 (length vs)) (encode_items encode_entry vs)
              (c.to_be_length 4 0 ∙ sym (c.to_be_length 4 (length vs))))

  read_str-append : (s rest : Bytes) → IsText s → read_str (length s) (s ++ rest) ≡ ok (s, rest)
  unfolding read_str from_utf8
  read_str-append s rest h = rw (split_at-append s rest, h.0)

  read_key-pascal : (key rest : Bytes) → IsText key → read_key (pascal key ++ rest) ≡ ok (key, rest)
  unfolding read_key key_of
  read_key-pascal key rest h = rw (
    append_assoc (c.to_be 4 (length key)) key rest,
    read_be-to_be 4 (length key) (key ++ rest) (omega (arith, h.1)),
    small_nonneg (length key) h.1,
    read_str-append key rest h,
  )

  read_value-encode :
      (key : Bytes) (value : Option Bytes) (rest : Bytes)
      → IsEntry (key, value)
      → read_value (encode_value value ++ rest) ≡ ok (value, rest)
  unfolding read_value value_of
  read_value-encode key none rest h = rw (read_be-to_be 4 minus_one_i32 rest (omega arith))
  read_value-encode key (some v) rest h = rw (
    append_assoc (c.to_be 4 (length v)) v rest,
    read_be-to_be 4 (length v) (v ++ rest) (omega (arith, h.1.1)),
    small_nonneg (length v) h.1.1,
    read_str-append v rest h.1,
  )

  next_entry-encode :
      (key : Bytes) (value : Option Bytes) (rest : Bytes) (n : ℕ)
      → IsEntry (key, value)
      → next_entry (record { remaining = suc n; buf = encode_entry (key, value) ++ rest })
        ≡ ok (some (key, value), record { remaining = n; buf = rest })
  unfolding next_entry
  next_entry-encode key value rest n h =
      rw
        (
          nonzero n,
          append_assoc (pascal key) (encode_value value) rest,
          read_key-pascal key (encode_value value ++ rest) (key_IsText key value h),
          read_value-encode key value rest h,
        )
        (ap (λ (k : ℕ). ok (some (key, value), record { remaining = k; buf = rest })) (omega arith))

  Yields-entries :
      (vs : List Entry)
      → All IsEntry vs
      → Yields next_entry (record { remaining = length vs; buf = encode_items encode_entry vs }) vs
  Yields-entries [] h = (record { remaining = 0; buf = [] }, unfold next_entry is_empty in refl)
  Yields-entries ((key, value) ∷ vs) h = (
    record { remaining = length vs; buf = encode_items encode_entry vs },
    next_entry-encode key value (encode_items encode_entry vs) (length vs) h.0,
    Yields-entries vs h.1,
  )

  -- An hstore is appended in a form that is read back to the same entries, in their order.
  pub hstore_roundtrip :
      (vs : List Entry)
      → All IsEntry vs
      → length vs < 2 ^ 31
      → (s : Bytes) × (it : HstoreEntries) × Writes (hstore_to_sql vs) tt s
        × (hstore_from_sql s ≡ ok it)
        × Yields next_entry it vs
  hstore_roundtrip vs h small = (
    encode_hstore vs,
    record { remaining = length vs; buf = encode_items encode_entry vs },
    hstore_to_sql-Writes vs h small,
    unfold hstore_from_sql in
        rw (
          read_be-to_be 4 (length vs) (encode_items encode_entry vs) (omega arith),
          small_nonneg (length vs) small,
        ),
    Yields-entries vs h,
  )

  -- A key length that is not negative, and more than the bytes that are left, makes the iterator
  -- panic, where the other readers of lengths give an error.
  pub next_entry_panics :
      (n key_len : ℕ) (rest : Bytes)
      → key_len < 2 ^ 31
      → length rest < key_len
      → next_entry (record { remaining = suc n; buf = c.to_be 4 key_len ++ rest }) ≡ panicked
  unfolding next_entry read_key key_of read_str split_at
  next_entry_panics n key_len rest h short = rw (
    nonzero n,
    read_be-to_be 4 key_len rest (omega arith),
    small_nonneg key_len h,
    lt→ltb (length rest) key_len short,
  )

  -- A bit string of `n` bits in the bytes that they need is appended in a form that is read back.
  pub varbit_roundtrip :
      (n : ℕ) (v : Bytes)
      → n < 2 ^ 31
      → length v ≡ (n + 7) / 8
      → (s : Bytes) × Writes (varbit_to_sql n v) tt s
        × (varbit_from_sql s ≡ ok (record { len = n; bytes = v }))
  varbit_roundtrip n v h size = (
    c.to_be 4 n ++ v,
    (λ buf.
        unfold varbit_to_sql in
        rw (from_usize_ok i32_max n (omega arith)) (
          then-Writes (put (c.to_be 4 n)) (put v) tt tt _ _ (put-Writes (c.to_be 4 n))
            (put-Writes v) buf)),
    unfold varbit_from_sql in
        rw (read_be-to_be 4 n v (omega arith), small_nonneg n h, eq→== _ _ size),
  )
