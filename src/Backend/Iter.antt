-- ===== src/Backend/Iter.antt =====
-- The iterators over the bodies: column formats, row ranges, error fields, parameters, fields and
-- SASL mechanisms.
pub mod Row
pub mod Lists
use rust_opengauss.Prelude.{
  ℕ, ◌+◌, ◌-◌, String, not, Option, none, some, List, [], ◌∷◌, Bytes, length, take, drop, ltb, ◌==◌,
  is_negative_i32, if◌then◌else◌,
}
use rust_opengauss.Outcome.{
  Outcome, ok, err, invalid_input, invalid_data, unexpected_eof, ◌>>=◌ as bind,
}
use rust_opengauss.Crates.{Crates}
use rust_opengauss.Utf8.{from_utf8}
use rust_opengauss.Read.{Reader, ◌>>=◌, ◌>>◌, pure, fail, read_u8, read_be, read_cstr, is_empty}
use rust_opengauss.Iterate.{Next}
use rust_opengauss.Backend.Message.{
  CopyInResponseBody, CopyOutResponseBody, DataRowBody, ErrorResponseBody, NoticeResponseBody,
  ParameterDescriptionBody, RowDescriptionBody, AuthenticationSaslBody,
}

pub record ColumnFormats : Type 0 where
  pub buf : Bytes
  pub remaining : ℕ

pub record DataRowRanges : Type 0 where
  pub buf : Bytes
  pub len : ℕ
  pub remaining : ℕ

pub record ErrorFields : Type 0 where
  pub buf : Bytes

pub record ErrorField : Type 0 where
  pub type_ : ℕ
  pub value : Bytes

pub record Parameters : Type 0 where
  pub buf : Bytes
  pub remaining : ℕ

pub record Fields : Type 0 where
  pub buf : Bytes
  pub remaining : ℕ

pub record Field : Type 0 where
  pub name : Bytes
  pub table_oid : ℕ
  pub column_id : ℕ
  pub type_oid : ℕ
  pub type_size : ℕ
  pub type_modifier : ℕ
  pub format : ℕ

pub record SaslMechanisms : Type 0 where
  pub rest : Bytes

abbrev pub copy_in_column_formats : CopyInResponseBody → ColumnFormats
copy_in_column_formats b = record { buf = b.storage; remaining = b.len }

abbrev pub copy_out_column_formats : CopyOutResponseBody → ColumnFormats
copy_out_column_formats b = record { buf = b.storage; remaining = b.len }

abbrev pub ranges : DataRowBody → DataRowRanges
ranges b = record { buf = b.storage; len = length b.storage; remaining = b.len }

abbrev pub error_fields : ErrorResponseBody → ErrorFields
error_fields b = record { buf = b.storage }

abbrev pub notice_fields : NoticeResponseBody → ErrorFields
notice_fields b = record { buf = b.storage }

abbrev pub parameters : ParameterDescriptionBody → Parameters
parameters b = record { buf = b.storage; remaining = b.len }

abbrev pub fields : RowDescriptionBody → Fields
fields b = record { buf = b.storage; remaining = b.len }

abbrev pub mechanisms : AuthenticationSaslBody → SaslMechanisms
mechanisms b = record { rest = b.bytes }

-- The end of a counted body: all must be read.
unfoldable pub at_end {ℓ} : {S A : Type ℓ} → String → Bytes → S → Outcome (Option A × S)
unfolding is_empty
at_end message buf s = if is_empty buf then ok (none, s) else err (invalid_input message)

module _ ⦃c : Crates⦄ where
  unfoldable pub next_format : Next ColumnFormats ℕ
  unfolding at_end
  next_format it =
      if it.remaining == 0
      then at_end "invalid message length: wrong column formats" it.buf it
      else bind (read_be 2 it.buf)
          (λ p. ok (some p.0, record { buf = p.1; remaining = it.remaining - 1 }))

  -- the value behind its length: `None` for a negative one, else a range of the row's bytes
  unfoldable pub take_range :
      DataRowRanges → ℕ → Bytes → Outcome (Option (Option (ℕ × ℕ)) × DataRowRanges)
  take_range it len rest =
      if is_negative_i32 len
      then ok (some none, record { buf = rest; len = it.len; remaining = it.remaining - 1 })
      else if ltb (length rest) len
      then err unexpected_eof
      else (let base = it.len - length rest in
          ok (
            some (some (base, base + len)),
            record { buf = drop len rest; len = it.len; remaining = it.remaining - 1 },
          ))

  unfoldable pub next_range : Next DataRowRanges (Option (ℕ × ℕ))
  unfolding at_end take_range
  next_range it =
      if it.remaining == 0
      then at_end "invalid message length: datarowrange is not empty" it.buf it
      else bind (read_be 4 it.buf) (λ p. take_range it p.0 p.1)

  unfoldable pub next_error_field : Next ErrorFields ErrorField
  unfolding at_end
  next_error_field it = bind (read_u8 it.buf) (λ p.
      if p.0 == 0
      then at_end "invalid message length: error fields is not drained" p.1 (record { buf = p.1 })
      else bind (read_cstr p.1)
          (λ q. ok (some (record { type_ = p.0; value = q.0 }), record { buf = q.1 })))

  unfoldable pub next_parameter : Next Parameters ℕ
  unfolding at_end
  next_parameter it =
      if it.remaining == 0
      then at_end "invalid message length: parameters is not drained" it.buf it
      else bind (read_be 4 it.buf)
          (λ p. ok (some p.0, record { buf = p.1; remaining = it.remaining - 1 }))

  -- `get_str` on a NUL-terminated text
  unfoldable pub read_str : Reader Bytes
  read_str s = bind (read_cstr s) (λ p. bind (from_utf8 p.0) (λ name. ok (name, p.1)))

  unfoldable pub read_field : Reader Field
  unfolding read_str
  read_field = do
    name ← read_str
    table_oid ← read_be 4
    column_id ← read_be 2
    type_oid ← read_be 4
    type_size ← read_be 2
    type_modifier ← read_be 4
    format ← read_be 2
    pure (record {
      name = name;
      table_oid = table_oid;
      column_id = column_id;
      type_oid = type_oid;
      type_size = type_size;
      type_modifier = type_modifier;
      format = format;
    })

  unfoldable pub next_field : Next Fields Field
  unfolding at_end
  next_field it =
      if it.remaining == 0
      then at_end "invalid message length: field is not drained" it.buf it
      else bind (read_field it.buf)
          (λ p. ok (some p.0, record { buf = p.1; remaining = it.remaining - 1 }))

  -- an empty text ends the list, and must be its last byte
  unfoldable pub next_mechanism : Next SaslMechanisms Bytes
  next_mechanism it = bind (read_cstr it.rest) (λ p.
      if length p.0 == 0
      then (if not (length it.rest == 1)
          then err
              (invalid_data "invalid message length: expected to be at end of iterator for sasl")
          else ok (none, it))
      else bind (from_utf8 p.0) (λ value. ok (some value, record { rest = p.1 })))
