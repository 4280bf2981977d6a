-- ===== src/DbError/Report.antt =====
-- An error as a server writes it, for tokio-opengauss/src/error/mod.rs, and what its texts are.
use rust_opengauss.Prelude.{
  ℕ, ◌+◌, ◌*◌, ◌-◌, ◌^◌, ◌≤◌, ◌<◌, ◌≡◌, ◌≢◌, refl, Bool, true, ◌&&◌, Option, none, some, List, [],
  ◌∷◌, arith, Bytes, All, length, ltb, Lacks,
}
use rust_opengauss.Utf8.{is_utf8}
use rust_opengauss.Utf8.Ascii.{IsAscii, ascii-is_utf8}
use rust_opengauss.Backend.Iter.{ErrorField}
use rust_opengauss.Backend.Iter.Lists.{IsErrorField}
use rust_opengauss.DbError.{
  Severity, panic, fatal, error, warning, notice, debug, info, log, severity_text, from_str,
  same_text, ErrorPosition, original, internal, DbError, digits_u32, from_digits, parse_u32,
}

-- The number that digits stand for, behind a front of value `n`.
abbrev pub number : ℕ → Bytes → ℕ
number n [] = n
number n (c ∷ s) = number (10 * n + (c - 48)) s

abbrev IsDigit : ℕ → Type 0
IsDigit c = (48 ≤ c) × (c ≤ 57)

-- A text of digits for a `u32`.
abbrev pub IsNumeral : Bytes → ℕ → Type 0
IsNumeral text n = All IsDigit text × (0 < length text) × (number 0 text ≡ n) × (n < 2 ^ 32)

abbrev pub IsText : Bytes → Type 0
IsText s = Lacks 0 s × (is_utf8 s ≡ true)

abbrev pub IsOptText : Option Bytes → Type 0
IsOptText none = Unit
IsOptText (some s) = IsText s

abbrev pub IsOptNumeral : Bytes → Option ℕ → Type 0
IsOptNumeral text none = Unit
IsOptNumeral text (some n) = IsNumeral text n

-- The text of a number is a field of its own, so it stands beside the error.
abbrev pub IsPosition : Bytes → Option ErrorPosition → Type 0
IsPosition text none = Unit
IsPosition text (some (original n)) = IsNumeral text n
IsPosition text (some (internal n query)) = IsNumeral text n × IsText query

abbrev pub normal_of : Option ErrorPosition → Option ℕ
normal_of none = none
normal_of (some (original n)) = some n
normal_of (some (internal n query)) = none

abbrev pub internal_of : Option ErrorPosition → Option ℕ
internal_of none = none
internal_of (some (original n)) = none
internal_of (some (internal n query)) = some n

abbrev pub query_of : Option ErrorPosition → Option Bytes
query_of none = none
query_of (some (original n)) = none
query_of (some (internal n query)) = some query

abbrev pub put : ℕ → Option Bytes → List ErrorField → List ErrorField
put type_ none fs = fs
put type_ (some value) fs = record { type_ = type_; value = value } ∷ fs

abbrev pub numeral : Bytes → Option ℕ → Option Bytes
numeral text none = none
numeral text (some n) = some text

abbrev pub name_of : Option Severity → Option Bytes
name_of none = none
name_of (some v) = some (severity_text v)

-- The fields that a server sends of an error, each with its type of the documentation of the
-- protocol; `position` and `line` are the texts of the numbers.
abbrev pub place_fields : DbError → (line : Bytes) → List ErrorField
place_fields e line = put b'W' e.where_ (
    put b's' e.schema (
      put b't' e.table (
        put b'c' e.column (
          put b'd' e.datatype (
            put b'n' e.constraint
              (put b'F' e.file (put b'L' (numeral line e.line) (put b'R' e.routine []))))))))

abbrev pub report_fields : DbError → (position : Bytes) → List ErrorField → List ErrorField
report_fields e position rest = put b'S' (some e.severity) (
    put b'V' (name_of e.parsed_severity) (
      put b'C' (some e.code) (
        put b'M' (some e.message) (
          put b'D' e.detail (
            put b'H' e.hint (
              put b'P' (numeral position (normal_of e.position)) (
                put b'p' (numeral position (internal_of e.position))
                  (put b'q' (query_of e.position) rest))))))))

abbrev pub fields_of : DbError → (position line : Bytes) → List ErrorField
fields_of e position line = report_fields e position (place_fields e line)

-- The texts have no NUL and are UTF-8, and the numbers are the ones that the error has.
abbrev pub IsReport : DbError → (position line : Bytes) → Type 0
IsReport e position line =
    (IsText e.severity × IsText e.code × IsText e.message)
    × (IsOptText e.detail × IsOptText e.hint × IsPosition position e.position × IsOptText e.where_)
    × (IsOptText e.schema × IsOptText e.table × IsOptText e.column × IsOptText e.datatype)
    × (IsOptText e.constraint × IsOptText e.file × IsOptNumeral line e.line × IsOptText e.routine)

number_le : (s : Bytes) (n : ℕ) → n ≤ number n s
number_le [] n = omega arith
number_le (c ∷ s) n = omega (arith, number_le s (10 * n + (c - 48)))

digits-number :
    (s : Bytes) (n : ℕ) → All IsDigit s → number n s < 2 ^ 32 → digits_u32 n s ≡ some (number n s)
unfolding digits_u32
digits-number [] n h l = refl
digits-number (c ∷ s) n h l =
    let same : n * 10 + (c - 48) ≡ 10 * n + (c - 48) = omega arith in
    let less : 10 * n + (c - 48) < 2 ^ 32 = omega (arith, number_le s (10 * n + (c - 48))) in
    let rest = digits-number s (10 * n + (c - 48)) h.1 l in
    rw same (ground (arith, h.0.0, h.0.1, less, rest))

pub numeral-parse : (text : Bytes) (n : ℕ) → IsNumeral text n → parse_u32 text ≡ some n
unfolding parse_u32 from_digits
numeral-parse [] n h = absurd (omega (arith, h.1))
numeral-parse (c ∷ s) n h =
    let read = digits-number (c ∷ s) 0 h.0 (rw h.2 h.3) in ground (arith, h.0.0.0, read, h.2)

pub from_str-severity_text : (v : Severity) → from_str (severity_text v) ≡ some v
unfolding from_str severity_text same_text
from_str-severity_text panic = refl
from_str-severity_text fatal = refl
from_str-severity_text error = refl
from_str-severity_text warning = refl
from_str-severity_text notice = refl
from_str-severity_text debug = refl
from_str-severity_text info = refl
from_str-severity_text log = refl

-- A test for `Lacks 0`.
all_positive : Bytes → Bool
all_positive [] = true
all_positive (c ∷ s) = let rest = all_positive s in ltb 0 c && rest

positive-Lacks : (s : Bytes) → all_positive s ≡ true → Lacks 0 s
unfolding all_positive
positive-Lacks [] h = tt
positive-Lacks (c ∷ s) h = (λ e. ground arith, positive-Lacks s (ground arith))

severity_positive : (v : Severity) → all_positive (severity_text v) ≡ true
unfolding severity_text all_positive
severity_positive panic = refl
severity_positive fatal = refl
severity_positive error = refl
severity_positive warning = refl
severity_positive notice = refl
severity_positive debug = refl
severity_positive info = refl
severity_positive log = refl

severity-Lacks : (v : Severity) → Lacks 0 (severity_text v)
severity-Lacks v = positive-Lacks (severity_text v) (severity_positive v)

pub severity-is_utf8 : (v : Severity) → is_utf8 (severity_text v) ≡ true
unfolding severity_text is_utf8
severity-is_utf8 panic = refl
severity-is_utf8 fatal = refl
severity-is_utf8 error = refl
severity-is_utf8 warning = refl
severity-is_utf8 notice = refl
severity-is_utf8 debug = refl
severity-is_utf8 info = refl
severity-is_utf8 log = refl

digits-Lacks : (s : Bytes) → All IsDigit s → Lacks 0 s
digits-Lacks [] h = tt
digits-Lacks (c ∷ s) h = (λ e. omega (arith, h.0.0), digits-Lacks s h.1)

digits-IsAscii : (s : Bytes) → All IsDigit s → All IsAscii s
digits-IsAscii [] h = tt
digits-IsAscii (c ∷ s) h = (omega (arith, h.0.1), digits-IsAscii s h.1)

pub digits-IsText : (s : Bytes) → All IsDigit s → IsText s
digits-IsText s h = (digits-Lacks s h, ascii-is_utf8 s (digits-IsAscii s h))

pub name-IsOptText : (o : Option Severity) → IsOptText (name_of o)
name-IsOptText none = tt
name-IsOptText (some v) = (severity-Lacks v, severity-is_utf8 v)

pub numeral-IsOptText :
    (text : Bytes) (o : Option ℕ) → IsOptNumeral text o → IsOptText (numeral text o)
numeral-IsOptText text none h = tt
numeral-IsOptText text (some n) h = digits-IsText text h.0

pub normal-IsOptNumeral :
    (text : Bytes) (o : Option ErrorPosition) → IsPosition text o → IsOptNumeral text (normal_of o)
normal-IsOptNumeral text none h = tt
normal-IsOptNumeral text (some (original n)) h = h
normal-IsOptNumeral text (some (internal n query)) h = tt

pub internal-IsOptNumeral :
    (text : Bytes) (o : Option ErrorPosition)
    → IsPosition text o
    → IsOptNumeral text (internal_of o)
internal-IsOptNumeral text none h = tt
internal-IsOptNumeral text (some (original n)) h = tt
internal-IsOptNumeral text (some (internal n query)) h = h.0

pub query-IsOptText :
    (text : Bytes) (o : Option ErrorPosition) → IsPosition text o → IsOptText (query_of o)
query-IsOptText text none h = tt
query-IsOptText text (some (original n)) h = tt
query-IsOptText text (some (internal n query)) h = h.1

pub put-All :
    (type_ : ℕ) (o : Option Bytes) (fs : List ErrorField)
    → type_ ≢ 0
    → IsOptText o
    → All IsErrorField fs
    → All IsErrorField (put type_ o fs)
put-All type_ none fs n h k = k
put-All type_ (some value) fs n h k = ((n, h.0), k)
