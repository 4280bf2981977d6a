-- ===== src/DbError/RoundTrip.antt =====
-- About `DbError::parse` of tokio-opengauss/src/error/mod.rs, against an error as a server writes it.
use rust_opengauss.Prelude.{ℕ, ◌≡◌, refl, ap, ◌∙◌, Option, none, some, List, [], arith, Bytes, All}
use rust_opengauss.Outcome.{ok, ◌>>=◌}
use rust_opengauss.Crates.{Crates}
use rust_opengauss.Utf8.{Lossy}
use rust_opengauss.Backend.Iter.{ErrorField}
use rust_opengauss.Backend.Iter.Lists.{IsErrorField, encode_error_fields}
use rust_opengauss.DbError.{
  Severity, severity_text, ErrorPosition, original, internal, DbError, Partial, empty, parse_u32,
  required, assign, position_of, assemble, parse,
}
use rust_opengauss.DbError.Fields.{assign_all, parse-encode}
use rust_opengauss.DbError.Report.{
  IsOptText, IsOptNumeral, normal_of, internal_of, query_of, put, numeral, name_of, place_fields,
  report_fields, fields_of, IsReport, numeral-parse, from_str-severity_text, severity-is_utf8,
  digits-IsText, name-IsOptText, numeral-IsOptText, normal-IsOptNumeral, internal-IsOptNumeral,
  query-IsOptText, put-All,
}

module _ ⦃c : Crates⦄ ⦃l : Lossy⦄ where
  -- A field of text is taken into the part that `set` names.
  text_step :
      (type_ : ℕ) (set : Option Bytes → Partial) (o : Option Bytes) (fs : List ErrorField)
      → IsOptText o
      → ((value : Bytes)
          → l.from_utf8_lossy value ≡ value
          → assign (set none) (record { type_ = type_; value = value }) ≡ ok (set (some value)))
      → assign_all (put type_ o fs) (set none) ≡ assign_all fs (set o)
  text_step type_ set none fs h k = refl
  text_step type_ set (some value) fs h k =
      ap (λ r. r >>= assign_all fs) (k value (l.lossy_valid value h.1))

  number_step :
      (type_ : ℕ) (set : Option ℕ → Partial) (text : Bytes) (o : Option ℕ) (fs : List ErrorField)
      → IsOptNumeral text o
      → ((n : ℕ)
          → l.from_utf8_lossy text ≡ text
          → parse_u32 text ≡ some n
          → assign (set none) (record { type_ = type_; value = text }) ≡ ok (set (some n)))
      → assign_all (put type_ (numeral text o) fs) (set none) ≡ assign_all fs (set o)
  number_step type_ set text none fs h k = refl
  number_step type_ set text (some n) fs h k =
      ap (λ r. r >>= assign_all fs)
        (k n (l.lossy_valid text (digits-IsText text h.0).1) (numeral-parse text n h))

  severity_assign :
      (p : Partial) (v : Severity)
      → assign p (record { type_ = b'V'; value = severity_text v })
        ≡ ok (record p { parsed_severity = some v })
  unfolding assign required
  severity_assign p v =
      rw (l.lossy_valid (severity_text v) (severity-is_utf8 v), from_str-severity_text v) refl

  severity_step :
      (p : Partial) (o : Option Severity) (fs : List ErrorField)
      → p.parsed_severity ≡ none
      → assign_all (put b'V' (name_of o) fs) p ≡ assign_all fs (record p { parsed_severity = o })
  severity_step p none fs e = ap (λ v. assign_all fs (record p { parsed_severity = v })) e
  severity_step p (some v) fs e = ap (λ r. r >>= assign_all fs) (severity_assign p v)

  -- What the loop has of an error behind its report.
  abbrev report_of : DbError → Partial
  report_of e = record {
    severity = some e.severity;
    parsed_severity = e.parsed_severity;
    code = some e.code;
    message = some e.message;
    detail = e.detail;
    hint = e.hint;
    normal_position = normal_of e.position;
    internal_position = internal_of e.position;
    internal_query = query_of e.position;
    where_ = none;
    schema = none;
    table = none;
    column = none;
    datatype = none;
    constraint = none;
    file = none;
    line = none;
    routine = none;
  }

  -- What the loop has of an error once it has read all its fields.
  abbrev partial_of : DbError → Partial
  partial_of e = record {
    severity = some e.severity;
    parsed_severity = e.parsed_severity;
    code = some e.code;
    message = some e.message;
    detail = e.detail;
    hint = e.hint;
    normal_position = normal_of e.position;
    internal_position = internal_of e.position;
    internal_query = query_of e.position;
    where_ = e.where_;
    schema = e.schema;
    table = e.table;
    column = e.column;
    datatype = e.datatype;
    constraint = e.constraint;
    file = e.file;
    line = e.line;
    routine = e.routine;
  }

  assign_all-report :
      (e : DbError) (position line : Bytes) (rest : List ErrorField)
      → IsReport e position line
      → assign_all (report_fields e position rest) empty ≡ assign_all rest (report_of e)
  unfolding assign required
  assign_all-report e position line rest t =
      let fs8 : List ErrorField = put b'q' (query_of e.position) rest in
      let fs7 : List ErrorField = put b'p' (numeral position (internal_of e.position)) fs8 in
      let fs6 : List ErrorField = put b'P' (numeral position (normal_of e.position)) fs7 in
      let fs5 : List ErrorField = put b'H' e.hint fs6 in
      let fs4 : List ErrorField = put b'D' e.detail fs5 in
      let fs3 : List ErrorField = put b'M' (some e.message) fs4 in
      let fs2 : List ErrorField = put b'C' (some e.code) fs3 in
      let fs1 : List ErrorField = put b'V' (name_of e.parsed_severity) fs2 in
      let p1 : Partial = record empty { severity = some e.severity } in
      let p2 : Partial = record p1 { parsed_severity = e.parsed_severity } in
      let p3 : Partial = record p2 { code = some e.code } in
      let p4 : Partial = record p3 { message = some e.message } in
      let p5 : Partial = record p4 { detail = e.detail } in
      let p6 : Partial = record p5 { hint = e.hint } in
      let p7 : Partial = record p6 { normal_position = normal_of e.position } in
      let p8 : Partial = record p7 { internal_position = internal_of e.position } in
      text_step b'S' (λ o. record empty { severity = o }) (some e.severity) fs1 (t.0.0)
        (λ v n. rw n refl)
      ∙ severity_step p1 e.parsed_severity fs2 refl
      ∙ text_step b'C' (λ o. record p2 { code = o }) (some e.code) fs3 (t.0.1) (λ v n. rw n refl)
      ∙ text_step b'M' (λ o. record p3 { message = o }) (some e.message) fs4 (t.0.2)
          (λ v n. rw n refl)
      ∙ text_step b'D' (λ o. record p4 { detail = o }) (e.detail) fs5 (t.1.0) (λ v n. rw n refl)
      ∙ text_step b'H' (λ o. record p5 { hint = o }) (e.hint) fs6 (t.1.1) (λ v n. rw n refl)
      ∙ number_step b'P' (λ o. record p6 { normal_position = o }) position (normal_of e.position)
          fs7 (normal-IsOptNumeral position e.position t.1.2) (λ v n r. rw (n, r) refl)
      ∙ number_step b'p' (λ o. record p7 { internal_position = o }) position
          (internal_of e.position) fs8 (internal-IsOptNumeral position e.position t.1.2)
          (λ v n r. rw (n, r) refl)
      ∙ text_step b'q' (λ o. record p8 { internal_query = o }) (query_of e.position) rest
          (query-IsOptText position e.position t.1.2) (λ v n. rw n refl)

  assign_all-place :
      (e : DbError) (position line : Bytes)
      → IsReport e position line
      → assign_all (place_fields e line) (report_of e) ≡ ok (partial_of e)
  unfolding assign required
  assign_all-place e position line t =
      let none_left : List ErrorField = [] in
      let fs8 : List ErrorField = put b'R' e.routine none_left in
      let fs7 : List ErrorField = put b'L' (numeral line e.line) fs8 in
      let fs6 : List ErrorField = put b'F' e.file fs7 in
      let fs5 : List ErrorField = put b'n' e.constraint fs6 in
      let fs4 : List ErrorField = put b'd' e.datatype fs5 in
      let fs3 : List ErrorField = put b'c' e.column fs4 in
      let fs2 : List ErrorField = put b't' e.table fs3 in
      let fs1 : List ErrorField = put b's' e.schema fs2 in
      let p1 : Partial = record (report_of e) { where_ = e.where_ } in
      let p2 : Partial = record p1 { schema = e.schema } in
      let p3 : Partial = record p2 { table = e.table } in
      let p4 : Partial = record p3 { column = e.column } in
      let p5 : Partial = record p4 { datatype = e.datatype } in
      let p6 : Partial = record p5 { constraint = e.constraint } in
      let p7 : Partial = record p6 { file = e.file } in
      let p8 : Partial = record p7 { line = e.line } in
      text_step b'W' (λ o. record (report_of e) { where_ = o }) (e.where_) fs1 (t.1.3)
        (λ v n. rw n refl)
      ∙ text_step b's' (λ o. record p1 { schema = o }) (e.schema) fs2 (t.2.0) (λ v n. rw n refl)
      ∙ text_step b't' (λ o. record p2 { table = o }) (e.table) fs3 (t.2.1) (λ v n. rw n refl)
      ∙ text_step b'c' (λ o. record p3 { column = o }) (e.column) fs4 (t.2.2) (λ v n. rw n refl)
      ∙ text_step b'd' (λ o. record p4 { datatype = o }) (e.datatype) fs5 (t.2.3) (λ v n. rw n refl)
      ∙ text_step b'n' (λ o. record p5 { constraint = o }) (e.constraint) fs6 (t.3.0)
          (λ v n. rw n refl)
      ∙ text_step b'F' (λ o. record p6 { file = o }) (e.file) fs7 (t.3.1) (λ v n. rw n refl)
      ∙ number_step b'L' (λ o. record p7 { line = o }) line (e.line) fs8 (t.3.2)
          (λ v n r. rw (n, r) refl)
      ∙ text_step b'R' (λ o. record p8 { routine = o }) (e.routine) none_left (t.3.3)
          (λ v n. rw n refl)

  place_fields-All :
      (e : DbError) (position line : Bytes)
      → IsReport e position line
      → All IsErrorField (place_fields e line)
  place_fields-All e position line t =
      put-All b'W' (e.where_) _ (λ q. ground arith) (t.1.3)
        (put-All b's' (e.schema) _ (λ q. ground arith) (t.2.0)
          (put-All b't' (e.table) _ (λ q. ground arith) (t.2.1)
            (put-All b'c' (e.column) _ (λ q. ground arith) (t.2.2)
              (put-All b'd' (e.datatype) _ (λ q. ground arith) (t.2.3)
                (put-All b'n' (e.constraint) _ (λ q. ground arith) (t.3.0)
                  (put-All b'F' (e.file) _ (λ q. ground arith) (t.3.1)
                    (put-All b'L' (numeral line (e.line)) _ (λ q. ground arith)
                      (numeral-IsOptText line (e.line) (t.3.2))
                      (put-All b'R' (e.routine) _ (λ q. ground arith) (t.3.3) (tt)))))))))

  fields_of-All :
      (e : DbError) (position line : Bytes)
      → IsReport e position line
      → All IsErrorField (fields_of e position line)
  fields_of-All e position line t = (
    (λ q. ground arith, (t.0.0).0),
    put-All b'V' (name_of e.parsed_severity) _ (λ q. ground arith)
        (name-IsOptText e.parsed_severity)
        ((
          (λ q. ground arith, (t.0.1).0),
          (
            (λ q. ground arith, (t.0.2).0),
            put-All b'D' (e.detail) _ (λ q. ground arith) (t.1.0)
                (put-All b'H' (e.hint) _ (λ q. ground arith) (t.1.1)
                  (put-All b'P' (numeral position (normal_of e.position)) _ (λ q. ground arith)
                    (numeral-IsOptText position (normal_of e.position)
                      (normal-IsOptNumeral position e.position t.1.2))
                    (put-All b'p' (numeral position (internal_of e.position)) _ (λ q. ground arith)
                      (numeral-IsOptText position (internal_of e.position)
                        (internal-IsOptNumeral position e.position t.1.2))
                      (put-All b'q' (query_of e.position) _ (λ q. ground arith)
                        (query-IsOptText position e.position t.1.2)
                        (place_fields-All e position line t))))),
          ),
        )),
  )

  position_of-parts :
      (o : Option ErrorPosition) → position_of (normal_of o) (internal_of o) (query_of o) ≡ ok o
  unfolding position_of required
  position_of-parts none = refl
  position_of-parts (some (original n)) = refl
  position_of-parts (some (internal n query)) = refl

  -- An error that a server sends is read as it is: each field by its type into its own part, the
  -- position from `P`, or from `p` and `q`. Its texts have no NUL and are UTF-8, and the numbers are
  -- sent as digits of a `u32`.
  pub parse-fields_of :
      (e : DbError) (position line : Bytes)
      → IsReport e position line
      → parse (record { buf = encode_error_fields (fields_of e position line) }) ≡ ok e
  unfolding assemble required
  parse-fields_of e position line t =
      parse-encode (fields_of e position line) (fields_of-All e position line t)
      ∙ ap (λ r. r >>= assemble)
          (assign_all-report e position line (place_fields e line) t
            ∙ assign_all-place e position line t)
      ∙ rw (position_of-parts e.position) refl
