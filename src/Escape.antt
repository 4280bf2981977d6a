-- ===== src/Escape.antt =====
-- opengauss-protocol/src/escape/mod.rs: quoting literals and identifiers. A `char` is its code point
-- and a `str` its list of them.
pub mod Reader
use rust_opengauss.Prelude.{
  ℕ, zero, suc, ◌+◌, Bool, true, false, not, ◌&&◌, ◌||◌, List, [], ◌∷◌, ◌++◌, ltb, ◌==◌,
  if◌then◌else◌,
}

-- `chars()` of a `str`
abbrev pub Text : Type 0
Text = List ℕ

-- Quotes and backslashes: the counts of the first loop, from the counts so far.
unfoldable pub count_special : ℕ → Text → ℕ × ℕ → ℕ × ℕ
count_special quote [] counts = counts
count_special quote (ch ∷ input) (num_quotes, num_backslashes) = count_special quote input (
    if ch == quote
    then (num_quotes + 1, num_backslashes)
    else if ch == b'\\'
    then (num_quotes, num_backslashes + 1)
    else (num_quotes, num_backslashes))

-- the second loop, behind the output so far
unfoldable pub push_escaped : ℕ → Bool → Text → Text → Text
push_escaped quote as_ident output [] = output
push_escaped quote as_ident output (ch ∷ input) =
    push_escaped quote as_ident
      ((if ch == quote || (not as_ident && ch == b'\\') then output ++ (ch ∷ []) else output)
        ++ (ch ∷ []))
      input

unfoldable pub escape_with : Bool → ℕ → Text → ℕ × ℕ → Text
escape_with as_ident quote input (num_quotes, num_backslashes) =
    let start : Text = if not as_ident && ltb 0 num_backslashes then b' ' ∷ b'E' ∷ [] else [] in
    let opened : Text = start ++ (quote ∷ []) in
    (if num_quotes == 0 && (num_backslashes == 0 || as_ident)
      then opened ++ input
      else push_escaped quote as_ident opened input)
    ++ (quote ∷ [])

-- `escape_internal`; the capacity that it reserves is not modelled
unfoldable pub escape_internal : Text → Bool → Text
escape_internal input as_ident =
    let quote : ℕ = if as_ident then b'"' else b'\'' in
    escape_with as_ident quote input (count_special quote input (0, 0))

unfoldable pub escape_literal : Text → Text
escape_literal input = escape_internal input false

unfoldable pub escape_identifier : Text → Text
escape_identifier input = escape_internal input true
