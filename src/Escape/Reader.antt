-- ===== src/Escape/Reader.antt =====
-- What a server reads: the lexical rules for quoted texts, and proofs about
-- opengauss-protocol/src/escape/mod.rs against them.
use rust_opengauss.Prelude.{
  ℕ, zero, suc, ◌+◌, ◌≡◌, ◌≢◌, refl, sym, ◌∙◌, ◌⊎◌, inl, inr, Bool, true, false, not, ◌&&◌, ◌||◌,
  Option, none, some, [], ◌∷◌, ◌++◌, append_assoc, append-nil, arith, ltb, lt→ltb, ◌==◌,
  if◌then◌else◌, All,
}
use rust_opengauss.Escape.{
  Text, count_special, push_escaped, escape_with, escape_internal, escape_literal,
  escape_identifier,
}

-- Where the reader stands inside a quoted text: behind a plain character, behind a quote that may
-- be the first of two, behind a backslash that escapes.
pub data Place : Type 0 where
  plain quoted escaped_next : Place

abbrev prepend : ℕ → Option (Text × Text) → Option (Text × Text)
prepend ch none = none
prepend ch (some (text, rest)) = some (ch ∷ text, rest)

-- A quoted text up to its closing quote, with what follows it. A doubled quote stands for one.
-- Where backslashes escape, a backslash stands for the character behind it if that is a backslash
-- or the quote; the other escapes are refused.
unfoldable pub read_quoted : Bool → ℕ → Place → Text → Option (Text × Text)
read_quoted escapes quote plain [] = none
read_quoted escapes quote quoted [] = some ([], [])
read_quoted escapes quote escaped_next [] = none
read_quoted escapes quote plain (c ∷ s) = elim (c == quote) [
  | true ↦ read_quoted escapes quote quoted s
  | false ↦ elim (escapes && c == b'\\') [
    | true ↦ read_quoted escapes quote escaped_next s
    | false ↦ prepend c (read_quoted escapes quote plain s)
  ]
]
read_quoted escapes quote quoted (c ∷ s) = elim (c == quote) [
  | true ↦ prepend quote (read_quoted escapes quote plain s)
  | false ↦ some ([], c ∷ s)
]
read_quoted escapes quote escaped_next (c ∷ s) = elim (c == b'\\' || c == quote) [
  | true ↦ prepend c (read_quoted escapes quote plain s)
  | false ↦ none
]

-- `"…"`
unfoldable pub read_identifier : Text → Option (Text × Text)
read_identifier [] = none
read_identifier (c ∷ s) = if c == b'"' then read_quoted false b'"' plain s else none

-- A text that must go on with the character `c`.
abbrev after : ℕ → (Text → Option (Text × Text)) → Text → Option (Text × Text)
after c read [] = none
after c read (d ∷ s) = if d == c then read s else none

-- ` E'…'`, where backslashes escape, or `'…'`, where they do if `standard_conforming_strings` is off
unfoldable pub read_literal : Bool → Text → Option (Text × Text)
read_literal conforming [] = none
read_literal conforming (c ∷ s) =
    if c == b' '
    then after b'E' (after b'\'' (read_quoted true b'\'' plain)) s
    else if c == b'\''
    then read_quoted (not conforming) b'\'' plain s
    else none

-- Each quote, and each backslash where they escape, doubled.
abbrev doubled : Bool → ℕ → Text → Text
doubled escapes quote [] = []
doubled escapes quote (c ∷ s) =
    let rest = doubled escapes quote s in
    if c == quote || (escapes && c == b'\\') then c ∷ (c ∷ rest) else c ∷ rest

-- What follows does not double the closing quote.
abbrev pub IsSeparate : ℕ → Text → Type 0
IsSeparate quote [] = Unit {0}
IsSeparate quote (c ∷ s) = c ≢ quote

read_quoted-doubled :
    (escapes : Bool) (quote : ℕ) (s rest : Text)
    → IsSeparate quote rest
    → quote ≢ b'\\'
    → read_quoted escapes quote plain (doubled escapes quote s ++ (quote ∷ rest)) ≡ some (s, rest)
unfolding read_quoted
read_quoted-doubled escapes quote [] [] h q = ground arith
read_quoted-doubled escapes quote [] (c ∷ rest) h q = ground arith
read_quoted-doubled escapes quote (c ∷ s) rest h q =
    ground (arith, read_quoted-doubled escapes quote s rest h q)

push_escaped-doubled :
    (quote : ℕ) (as_ident : Bool) (output s : Text)
    → push_escaped quote as_ident output s ≡ output ++ doubled (not as_ident) quote s
unfolding push_escaped
push_escaped-doubled quote as_ident output [] = sym (append-nil output)
push_escaped-doubled quote as_ident output (c ∷ s) =
    push_escaped-doubled quote as_ident
      ((if c == quote || (not as_ident && c == b'\\') then output ++ (c ∷ []) else output)
        ++ (c ∷ []))
      s
    ∙ regroup (c == quote || (not as_ident && c == b'\\'))
  where
    regroup :
        (double : Bool)
        → ((if double then output ++ (c ∷ []) else output) ++ (c ∷ []))
            ++ doubled (not as_ident) quote s
          ≡ output
            ++ (if double
                then c ∷ (c ∷ doubled (not as_ident) quote s)
                else c ∷ doubled (not as_ident) quote s)
    regroup true = simp append_assoc
    regroup false = simp append_assoc

no_quotes :
    (quote m n : ℕ) (s : Text)
    → (count_special quote s (m, n)).0 ≡ 0
    → (m ≡ 0) × All (λ x. x ≢ quote) s
unfolding count_special
no_quotes quote m n [] h = (h, tt)
no_quotes quote m n (c ∷ s) h =
    ground (arith, no_quotes quote (m + 1) n s, no_quotes quote m (n + 1) s, no_quotes quote m n s)

no_backslashes :
    (quote m n : ℕ) (s : Text)
    → quote ≢ b'\\'
    → (count_special quote s (m, n)).1 ≡ 0
    → (n ≡ 0) × All (λ x. x ≢ b'\\') s
unfolding count_special
no_backslashes quote m n [] q h = (h, tt)
no_backslashes quote m n (c ∷ s) q h = ground (
  arith,
  no_backslashes quote (m + 1) n s,
  no_backslashes quote m (n + 1) s,
  no_backslashes quote m n s,
)

doubled_plain :
    (escapes : Bool) (quote : ℕ) (s : Text)
    → All (λ x. x ≢ quote) s
    → (escapes ≡ false) ⊎ All (λ x. x ≢ b'\\') s
    → doubled escapes quote s ≡ s
doubled_plain escapes quote [] q b = refl
doubled_plain escapes quote (c ∷ s) q (inl e) =
    ground (arith, doubled_plain escapes quote s q.1 (inl e), q.0)
doubled_plain escapes quote (c ∷ s) q (inr b) =
    ground (arith, doubled_plain escapes quote s q.1 (inr b.1), q.0, b.0)

doubled_same :
    (e f : Bool) (quote : ℕ) (s : Text)
    → All (λ x. x ≢ b'\\') s
    → doubled e quote s ≡ doubled f quote s
doubled_same e f quote [] h = refl
doubled_same e f quote (c ∷ s) h = ground (arith, doubled_same e f quote s h.1, h.0)

abbrev start : Bool → ℕ → Text
start as_ident num_backslashes =
    if not as_ident && ltb 0 num_backslashes then b' ' ∷ b'E' ∷ [] else []

slow_path :
    (as_ident : Bool) (quote : ℕ) (s pre : Text)
    → push_escaped quote as_ident (pre ++ (quote ∷ [])) s ++ (quote ∷ [])
      ≡ pre ++ (quote ∷ (doubled (not as_ident) quote s ++ (quote ∷ [])))
slow_path as_ident quote s pre =
    rw (push_escaped-doubled quote as_ident (pre ++ (quote ∷ [])) s) (simp append_assoc)

-- With true counts the fast path and the slow one write the same.
escape_with-doubled :
    (as_ident : Bool) (quote : ℕ) (s : Text) (nq nb : ℕ)
    → (nq ≡ 0 → All (λ x. x ≢ quote) s)
    → (nb ≡ 0 → All (λ x. x ≢ b'\\') s)
    → escape_with as_ident quote s (nq, nb)
      ≡ start as_ident nb ++ (quote ∷ (doubled (not as_ident) quote s ++ (quote ∷ [])))
unfolding escape_with
escape_with-doubled as_ident quote s (suc nq) nb hq hb =
    ground (arith, slow_path as_ident quote s (start as_ident nb))
escape_with-doubled true quote s zero nb hq hb =
    ground (arith, doubled_plain false quote s (hq refl) (inl refl))
escape_with-doubled false quote s zero zero hq hb =
    ground (arith, doubled_plain true quote s (hq refl) (inr (hb refl)))
escape_with-doubled false quote s zero (suc nb) hq hb =
    ground (arith, slow_path false quote s (start false (suc nb)))

-- An escaped identifier is read back whole, if no second quote follows it.
pub read_identifier-escape :
    (s rest : Text)
    → IsSeparate b'"' rest
    → read_identifier (escape_identifier s ++ rest) ≡ some (s, rest)
unfolding escape_identifier escape_internal read_identifier
read_identifier-escape s rest h =
    rw
      (
        escape_with-doubled true b'"' s _ _ (λ z. (no_quotes b'"' 0 0 s z).1)
            (λ z. (no_backslashes b'"' 0 0 s (λ e. absurd (omega arith)) z).1),
        append_assoc,
      )
      (read_quoted-doubled false b'"' s rest h (λ e. absurd (omega arith)))

read_literal_counted :
    (conforming : Bool) (s rest : Text) (nb : ℕ)
    → IsSeparate b'\'' rest
    → (nb ≡ 0 → All (λ x. x ≢ b'\\') s)
    → read_literal conforming
        ((start false nb ++ (b'\'' ∷ (doubled true b'\'' s ++ (b'\'' ∷ [])))) ++ rest)
      ≡ some (s, rest)
unfolding read_literal
read_literal_counted conforming s rest zero h hb =
    rw (append_assoc, doubled_same true (not conforming) b'\'' s (hb refl))
      (read_quoted-doubled (not conforming) b'\'' s rest h (λ e. absurd (omega arith)))
read_literal_counted conforming s rest (suc nb) h hb =
    rw (lt→ltb 0 (suc nb) (omega arith))
      (rw append_assoc (read_quoted-doubled true b'\'' s rest h (λ e. absurd (omega arith))))

-- An escaped literal is read back whole under either setting of `standard_conforming_strings`, if
-- no second quote follows it.
pub read_literal-escape :
    (conforming : Bool) (s rest : Text)
    → IsSeparate b'\'' rest
    → read_literal conforming (escape_literal s ++ rest) ≡ some (s, rest)
unfolding escape_literal escape_internal
read_literal-escape conforming s rest h =
    let backslashes = λ (z : (count_special b'\'' s (0, 0)).1 ≡ 0).
      (no_backslashes b'\'' 0 0 s (λ e. absurd (omega arith)) z).1 in
    rw (escape_with-doubled false b'\'' s _ _ (λ z. (no_quotes b'\'' 0 0 s z).1) backslashes)
      (read_literal_counted conforming s rest _ h backslashes)
