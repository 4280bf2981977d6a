-- ===== src/Examples/Quotes.antt =====
-- Quoted texts and values of SQL types.
use rust_opengauss.Prelude.{
  ℕ, ◌<◌, ◌^◌, ◌≡◌, refl, none, some, true, List, [], ◌∷◌, ◌++◌, arith, Bytes, length,
}
use rust_opengauss.Outcome.{ok, panicked}
use rust_opengauss.Crates.Native.{native_crates, be_bytes, be_value}
use rust_opengauss.Utf8.{is_utf8}
use rust_opengauss.Read.{read_be, read_exact, is_empty}
use rust_opengauss.Iterate.{Yields}
use rust_opengauss.Write.Laws.{Writes}
use rust_opengauss.Escape.{
  Text, count_special, push_escaped, escape_with, escape_internal, escape_identifier,
  escape_literal,
}
use rust_opengauss.Escape.Reader.{
  read_identifier, read_literal, read_identifier-escape, read_literal-escape,
}
use rust_opengauss.Types.Scalar.{number_from_sql, int2_from_sql}
use rust_opengauss.Types.Scalar.Laws.{
  Scalar, scalar_roundtrip, read_scalar_exact, read_scalar, write_scalar, width,
}
use rust_opengauss.Types.Hstore.{Entry, HstoreEntries, next_entry, hstore_to_sql, hstore_from_sql}
use rust_opengauss.Types.Hstore.Laws.{hstore_roundtrip, next_entry_panics}

abbrev odd_name : Text
odd_name = b'a' ∷ b'"' ∷ b'\\' ∷ []

read_identifier-escape_example :
    read_identifier (escape_identifier odd_name ++ (b';' ∷ [])) ≡ some (odd_name, b';' ∷ [])
read_identifier-escape_example =
    read_identifier-escape odd_name (b';' ∷ []) (λ e. absurd (omega arith))

abbrev odd_text : Text
odd_text = b'\'' ∷ b'\\' ∷ b'"' ∷ []

read_literal-escape_example :
    read_literal true (escape_literal odd_text ++ (b';' ∷ [])) ≡ some (odd_text, b';' ∷ [])
read_literal-escape_example =
    read_literal-escape true odd_text (b';' ∷ []) (λ e. absurd (omega arith))

-- the literal that the server gets
quoted_text :
    escape_literal odd_text
    ≡ b' ' ∷ b'E' ∷ b'\'' ∷ b'\'' ∷ b'\'' ∷ b'\\' ∷ b'\\' ∷ b'"' ∷ b'\'' ∷ []
unfolding escape_literal escape_internal escape_with push_escaped count_special
quoted_text = refl

abbrev label : Bytes
label = b'a' ∷ b'.' ∷ b'b' ∷ []

scalar_roundtrip_example :
    (s : Bytes) × Writes (write_scalar Scalar.int8 300) tt s
    × (length s ≡ width Scalar.int8)
    × (read_scalar Scalar.int8 s ≡ ok 300)
scalar_roundtrip_example = scalar_roundtrip Scalar.int8 300 (omega arith)

int2_read : read_scalar Scalar.int2 (1 ∷ 44 ∷ []) ≡ ok 300
unfolding int2_from_sql number_from_sql read_be read_exact be_value is_empty
int2_read = refl

read_scalar_exact_example : (◌≡◌ {A = ℕ} 2 (width Scalar.int2)) × (300 < 256 ^ width Scalar.int2)
read_scalar_exact_example =
    read_scalar_exact Scalar.int2 300 (1 ∷ 44 ∷ []) (omega arith, (omega arith, tt)) int2_read

abbrev tags : List Entry
tags = (b'k' ∷ [], some (b'v' ∷ [])) ∷ (b'l' ∷ [], none) ∷ []

hstore_roundtrip_example :
    (s : Bytes) × (it : HstoreEntries) × Writes (hstore_to_sql tags) tt s
    × (hstore_from_sql s ≡ ok it)
    × Yields next_entry it tags
unfolding is_utf8
hstore_roundtrip_example =
    hstore_roundtrip tags (((refl, omega arith), (refl, omega arith)), ((refl, omega arith), tt))
      (omega arith)

next_entry_panics_example :
    next_entry (record { remaining = 1; buf = 0 ∷ 0 ∷ 0 ∷ 9 ∷ b'k' ∷ [] }) ≡ panicked
unfolding be_bytes
next_entry_panics_example = next_entry_panics 0 9 (b'k' ∷ []) (omega arith) (omega arith)
