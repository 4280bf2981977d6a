-- ===== src/DbError.antt =====
-- tokio-opengauss/src/error/mod.rs: the server's errors and notices.
-- A `SqlState` is the text of its code: sqlstate.rs, a generated table, maps codes to constants and
-- keeps the others as they are.
pub mod Fields
pub mod Report
pub mod RoundTrip
use rust_opengauss.Prelude.{
  ℕ, zero, suc, ◌+◌, ◌-◌, ◌*◌, ◌^◌, String, Bool, true, false, ◌&&◌, Option, none, some, List, [],
  ◌∷◌, Bytes, length, ltb, leb, ◌==◌, if◌then◌else◌,
}
use rust_opengauss.Outcome.{Outcome, ok, err, panicked, invalid_input, ◌>>=◌}
use rust_opengauss.Crates.{Crates}
use rust_opengauss.Utf8.{Lossy}
use rust_opengauss.Backend.Iter.{ErrorFields, ErrorField, next_error_field}

pub data Severity : Type 0 where
  panic fatal error warning notice debug info log : Severity

-- `impl Display for Severity`
unfoldable pub severity_text : Severity → Bytes
severity_text panic = (b'P' ∷ b'A' ∷ b'N' ∷ b'I' ∷ b'C' ∷ [])
severity_text fatal = (b'F' ∷ b'A' ∷ b'T' ∷ b'A' ∷ b'L' ∷ [])
severity_text error = (b'E' ∷ b'R' ∷ b'R' ∷ b'O' ∷ b'R' ∷ [])
severity_text warning = (b'W' ∷ b'A' ∷ b'R' ∷ b'N' ∷ b'I' ∷ b'N' ∷ b'G' ∷ [])
severity_text notice = (b'N' ∷ b'O' ∷ b'T' ∷ b'I' ∷ b'C' ∷ b'E' ∷ [])
severity_text debug = (b'D' ∷ b'E' ∷ b'B' ∷ b'U' ∷ b'G' ∷ [])
severity_text info = (b'I' ∷ b'N' ∷ b'F' ∷ b'O' ∷ [])
severity_text log = (b'L' ∷ b'O' ∷ b'G' ∷ [])

-- `==` on texts
unfoldable pub same_text : Bytes → Bytes → Bool
same_text [] [] = true
same_text [] (b ∷ t) = false
same_text (a ∷ s) [] = false
same_text (a ∷ s) (b ∷ t) = a == b && same_text s t

-- `Severity::from_str`
unfoldable pub from_str : Bytes → Option Severity
from_str s =
    if same_text s (b'P' ∷ b'A' ∷ b'N' ∷ b'I' ∷ b'C' ∷ [])
    then some panic
    else if same_text s (b'F' ∷ b'A' ∷ b'T' ∷ b'A' ∷ b'L' ∷ [])
    then some fatal
    else if same_text s (b'E' ∷ b'R' ∷ b'R' ∷ b'O' ∷ b'R' ∷ [])
    then some error
    else if same_text s (b'W' ∷ b'A' ∷ b'R' ∷ b'N' ∷ b'I' ∷ b'N' ∷ b'G' ∷ [])
    then some warning
    else if same_text s (b'N' ∷ b'O' ∷ b'T' ∷ b'I' ∷ b'C' ∷ b'E' ∷ [])
    then some notice
    else if same_text s (b'D' ∷ b'E' ∷ b'B' ∷ b'U' ∷ b'G' ∷ [])
    then some debug
    else if same_text s (b'I' ∷ b'N' ∷ b'F' ∷ b'O' ∷ [])
    then some info
    else if same_text s (b'L' ∷ b'O' ∷ b'G' ∷ [])
    then some log
    else none

pub data ErrorPosition : Type 0 where
  original : ℕ → ErrorPosition
  internal : (position : ℕ) (query : Bytes) → ErrorPosition

pub record DbError : Type 0 where
  pub severity : Bytes
  pub parsed_severity : Option Severity
  pub code : Bytes
  pub message : Bytes
  pub detail : Option Bytes
  pub hint : Option Bytes
  pub position : Option ErrorPosition
  pub where_ : Option Bytes
  pub schema : Option Bytes
  pub table : Option Bytes
  pub column : Option Bytes
  pub datatype : Option Bytes
  pub constraint : Option Bytes
  pub file : Option Bytes
  pub line : Option ℕ
  pub routine : Option Bytes

-- the variables of `DbError::parse`
pub record Partial : Type 0 where
  pub severity : Option Bytes
  pub parsed_severity : Option Severity
  pub code : Option Bytes
  pub message : Option Bytes
  pub detail : Option Bytes
  pub hint : Option Bytes
  pub normal_position : Option ℕ
  pub internal_position : Option ℕ
  pub internal_query : Option Bytes
  pub where_ : Option Bytes
  pub schema : Option Bytes
  pub table : Option Bytes
  pub column : Option Bytes
  pub datatype : Option Bytes
  pub constraint : Option Bytes
  pub file : Option Bytes
  pub line : Option ℕ
  pub routine : Option Bytes

abbrev pub empty : Partial
empty = record {
  severity = none;
  parsed_severity = none;
  code = none;
  message = none;
  detail = none;
  hint = none;
  normal_position = none;
  internal_position = none;
  internal_query = none;
  where_ = none;
  schema = none;
  table = none;
  column = none;
  datatype = none;
  constraint = none;
  file = none;
  line = none;
  routine = none;
}

-- the digits of a number behind a front of value `n`; `checked_mul` and `checked_add` stop it at 2^32
unfoldable pub digits_u32 : ℕ → Bytes → Option ℕ
digits_u32 n [] = some n
digits_u32 n (c ∷ s) =
    let m = n * 10 + (c - b'0') in
    let rest = digits_u32 m s in if leb b'0' c && leb c b'9' && ltb m (2 ^ 32) then rest else none

unfoldable pub from_digits : Bytes → Option ℕ
from_digits [] = none
from_digits (c ∷ s) = digits_u32 0 (c ∷ s)

-- `str::parse::<u32>`, which takes a leading `+`
unfoldable pub parse_u32 : Bytes → Option ℕ
parse_u32 [] = none
parse_u32 (c ∷ s) = if c == b'+' then from_digits s else from_digits (c ∷ s)

-- `ok_or_else` with an `InvalidInput` of this message
unfoldable pub required {ℓ} : {A : Type ℓ} → String → Option A → Outcome A
required message none = err (invalid_input message)
required message (some a) = ok a

module _ ⦃c : Crates⦄ ⦃l : Lossy⦄ where
  -- the `match` on the field's type
  unfoldable pub assign : Partial → ErrorField → Outcome Partial
  assign p field =
      let value = l.from_utf8_lossy field.value in
      if field.type_ == b'S'
      then ok (record p { severity = some value })
      else if field.type_ == b'C'
      then ok (record p { code = some value })
      else if field.type_ == b'M'
      then ok (record p { message = some value })
      else if field.type_ == b'D'
      then ok (record p { detail = some value })
      else if field.type_ == b'H'
      then ok (record p { hint = some value })
      else if field.type_ == b'P'
      then (required "`P` field did not contain an integer" (parse_u32 value) >>= λ n.
          ok (record p { normal_position = some n }))
      else if field.type_ == b'p'
      then (required "`p` field did not contain an integer" (parse_u32 value) >>= λ n.
          ok (record p { internal_position = some n }))
      else if field.type_ == b'q'
      then ok (record p { internal_query = some value })
      else if field.type_ == b'W'
      then ok (record p { where_ = some value })
      else if field.type_ == b's'
      then ok (record p { schema = some value })
      else if field.type_ == b't'
      then ok (record p { table = some value })
      else if field.type_ == b'c'
      then ok (record p { column = some value })
      else if field.type_ == b'd'
      then ok (record p { datatype = some value })
      else if field.type_ == b'n'
      then ok (record p { constraint = some value })
      else if field.type_ == b'F'
      then ok (record p { file = some value })
      else if field.type_ == b'L'
      then (required "`L` field did not contain an integer" (parse_u32 value) >>= λ n.
          ok (record p { line = some n }))
      else if field.type_ == b'R'
      then ok (record p { routine = some value })
      else if field.type_ == b'V'
      then (required "`V` field contained an invalid value" (from_str value) >>= λ v.
          ok (record p { parsed_severity = some v }))
      else ok p

  -- the `while let` loop; each round that goes on passes two bytes at least, and a loop that does
  -- not end within the fuel counts as a panic
  unfoldable pub collect : ℕ → ErrorFields → Partial → Outcome Partial
  collect zero fields p = panicked
  collect (suc fuel) fields p = next_error_field fields >>= λ r. elim r.0 [
    | none ↦ ok p
    | some field ↦ assign p field >>= λ p'. collect fuel r.1 p'
  ]

  unfoldable pub position_of : Option ℕ → Option ℕ → Option Bytes → Outcome (Option ErrorPosition)
  position_of (some position) internal_position internal_query = ok (some (original position))
  position_of none none internal_query = ok none
  position_of none (some position) internal_query =
      required "`q` field missing but `p` field present" internal_query >>= λ query.
      ok (some (internal position query))

  -- what follows the loop
  unfoldable pub assemble : Partial → Outcome DbError
  assemble p = do
    severity ← required "`S` field missing" p.severity
    code ← required "`C` field missing" p.code
    message ← required "`M` field missing" p.message
    position ← position_of p.normal_position p.internal_position p.internal_query
    ok (record {
      severity = severity;
      parsed_severity = p.parsed_severity;
      code = code;
      message = message;
      detail = p.detail;
      hint = p.hint;
      position = position;
      where_ = p.where_;
      schema = p.schema;
      table = p.table;
      column = p.column;
      datatype = p.datatype;
      constraint = p.constraint;
      file = p.file;
      line = p.line;
      routine = p.routine;
    })

  -- `DbError::parse`
  unfoldable pub parse : ErrorFields → Outcome DbError
  parse fields = collect (suc (length fields.buf)) fields empty >>= assemble
