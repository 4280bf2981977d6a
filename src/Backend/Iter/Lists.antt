-- ===== src/Backend/Iter/Lists.antt =====
-- About the iterators of opengauss-protocol/src/message/backend.rs, but the ranges of a row.
use rust_opengauss.Prelude.{
  nonzero, one_less, ℕ, ◌<◌, ◌≡◌, ◌≢◌, refl, true, false, List, [], ◌∷◌, ◌++◌, arith, Bytes, Lacks,
  All, length, ◌==◌,
}
use rust_opengauss.Outcome.{ok}
use rust_opengauss.Crates.{Crates}
use rust_opengauss.Utf8.{is_utf8, from_utf8}
use rust_opengauss.Read.{read_u8}
use rust_opengauss.Read.Laws.{read_be-to_be, read_cstr-append}
use rust_opengauss.Iterate.{Yields}
use rust_opengauss.Backend.Wire.{IsU16, IsU32, cstr}
use rust_opengauss.Backend.Iter.{
  ErrorField, Field, next_format, next_error_field, next_parameter, next_field, next_mechanism,
  read_field,
}

nonzero_byte : (n : ℕ) → n ≢ 0 → (n == 0) ≡ false
nonzero_byte n h = ground arith

-- A field of an error: its type is not the end mark, its text has no NUL.
abbrev pub IsErrorField : ErrorField → Type 0
IsErrorField f = (f.type_ ≢ 0) × Lacks 0 f.value

abbrev pub encode_error_fields : List ErrorField → Bytes
encode_error_fields [] = 0 ∷ []
encode_error_fields (f ∷ fs) = f.type_ ∷ cstr f.value (encode_error_fields fs)

abbrev pub IsField : Field → Type 0
IsField f =
    Lacks 0 f.name
    × (is_utf8 f.name ≡ true)
    × IsU32 f.table_oid
    × IsU16 f.column_id
    × IsU32 f.type_oid
    × IsU16 f.type_size
    × IsU32 f.type_modifier
    × IsU16 f.format

-- A SASL mechanism: a text that is not empty and has no NUL.
abbrev pub IsMechanism : Bytes → Type 0
IsMechanism s = (0 < length s) × Lacks 0 s × (is_utf8 s ≡ true)

abbrev pub encode_mechanisms : List Bytes → Bytes
encode_mechanisms [] = 0 ∷ []
encode_mechanisms (s ∷ ss) = cstr s (encode_mechanisms ss)

module _ ⦃c : Crates⦄ where
  abbrev pub encode_numbers : ℕ → List ℕ → Bytes
  encode_numbers w [] = []
  encode_numbers w (n ∷ ns) = c.to_be w n ++ encode_numbers w ns

  abbrev pub encode_field : Field → Bytes → Bytes
  encode_field f rest = cstr f.name (
      c.to_be 4 f.table_oid
      ++ (c.to_be 2 f.column_id
          ++ (c.to_be 4 f.type_oid
              ++ (c.to_be 2 f.type_size
                  ++ (c.to_be 4 f.type_modifier ++ (c.to_be 2 f.format ++ rest))))))

  abbrev pub encode_fields : List Field → Bytes
  encode_fields [] = []
  encode_fields (f ∷ fs) = encode_field f (encode_fields fs)

  -- The formats of a COPY body are read back, and nothing else.
  pub Yields-formats :
      (ns : List ℕ)
      → All IsU16 ns
      → Yields next_format (record { buf = encode_numbers 2 ns; remaining = length ns }) ns
  unfolding next_format
  Yields-formats [] h = (record { buf = []; remaining = 0 }, refl)
  Yields-formats (n ∷ ns) h = (
    record { buf = encode_numbers 2 ns; remaining = length ns },
    rw (nonzero (length ns), read_be-to_be 2 n (encode_numbers 2 ns) h.0, one_less (length ns)),
    Yields-formats ns h.1,
  )

  -- The parameter types of a prepared statement are read back, and nothing else.
  pub Yields-parameters :
      (ns : List ℕ)
      → All IsU32 ns
      → Yields next_parameter (record { buf = encode_numbers 4 ns; remaining = length ns }) ns
  unfolding next_parameter
  Yields-parameters [] h = (record { buf = []; remaining = 0 }, refl)
  Yields-parameters (n ∷ ns) h = (
    record { buf = encode_numbers 4 ns; remaining = length ns },
    rw (nonzero (length ns), read_be-to_be 4 n (encode_numbers 4 ns) h.0, one_less (length ns)),
    Yields-parameters ns h.1,
  )

  -- The fields of an error or a notice are read back, up to the end mark.
  pub Yields-error_fields :
      (fs : List ErrorField)
      → All IsErrorField fs
      → Yields next_error_field (record { buf = encode_error_fields fs }) fs
  unfolding next_error_field read_u8
  Yields-error_fields [] h = (record { buf = [] }, refl)
  Yields-error_fields (f ∷ fs) h = (
    record { buf = encode_error_fields fs },
    rw (nonzero_byte f.type_ h.0.0, read_cstr-append f.value (encode_error_fields fs) h.0.1),
    Yields-error_fields fs h.1,
  )

  read_field-encode :
      (f : Field) (rest : Bytes) → IsField f → read_field (encode_field f rest) ≡ ok (f, rest)
  unfolding read_field from_utf8
  read_field-encode f rest (no_nul, utf8, table, column, type_, size, modifier, format) = rw (
    read_cstr-append f.name _ no_nul,
    utf8,
    read_be-to_be 4 f.table_oid _ table,
    read_be-to_be 2 f.column_id _ column,
    read_be-to_be 4 f.type_oid _ type_,
    read_be-to_be 2 f.type_size _ size,
    read_be-to_be 4 f.type_modifier _ modifier,
    read_be-to_be 2 f.format rest format,
  )

  -- The columns that a row description names are read back, and nothing else.
  pub Yields-fields :
      (fs : List Field)
      → All IsField fs
      → Yields next_field (record { buf = encode_fields fs; remaining = length fs }) fs
  unfolding next_field
  Yields-fields [] h = (record { buf = []; remaining = 0 }, refl)
  Yields-fields (f ∷ fs) h = (
    record { buf = encode_fields fs; remaining = length fs },
    rw (nonzero (length fs), read_field-encode f (encode_fields fs) h.0, one_less (length fs)),
    Yields-fields fs h.1,
  )

  -- The SASL mechanisms that the server offers are read back, up to the empty text.
  pub Yields-mechanisms :
      (ss : List Bytes)
      → All IsMechanism ss
      → Yields next_mechanism (record { rest = encode_mechanisms ss }) ss
  unfolding next_mechanism from_utf8
  Yields-mechanisms [] h = (record { rest = 0 ∷ [] }, rw (read_cstr-append [] [] tt))
  Yields-mechanisms (s ∷ ss) h = (
    record { rest = encode_mechanisms ss },
    rw (
      read_cstr-append s (encode_mechanisms ss) h.0.1,
      nonzero_byte (length s) (λ e. absurd (omega (arith, h.0.0))),
      h.0.2,
    ),
    Yields-mechanisms ss h.1,
  )
