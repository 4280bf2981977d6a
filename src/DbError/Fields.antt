-- ===== src/DbError/Fields.antt =====
-- About `DbError::parse` of tokio-opengauss/src/error/mod.rs.
use rust_opengauss.Prelude.{
  ℕ, zero, suc, ◌+◌, ◌<◌, ◌≡◌, ◌≢◌, refl, ap, String, Bool, true, false, Option, none, some, List,
  [], ◌∷◌, arith, Bytes, All, length, ◌==◌, length-drop, length-append, if◌then◌else◌,
}
use rust_opengauss.Outcome.{Outcome, ok, err, panicked, ◌>>=◌}
use rust_opengauss.Outcome.Laws.{bind-ne-panicked, if-ne-panicked, ok-ne-panicked, bind_agree}
use rust_opengauss.Crates.{Crates}
use rust_opengauss.Utf8.{Lossy}
use rust_opengauss.Read.{read_u8, read_cstr, cut_cstr, is_empty}
use rust_opengauss.Iterate.{Yields}
use rust_opengauss.Backend.Iter.{ErrorFields, ErrorField, next_error_field, at_end}
use rust_opengauss.Backend.Iter.Lists.{IsErrorField, encode_error_fields, Yields-error_fields}
use rust_opengauss.DbError.{Partial, empty, required, assign, collect, position_of, assemble, parse}

required-ne-panicked {ℓ} : {A : Type ℓ} (s : String) (o : Option A) → required s o ≢ panicked
unfolding required
required-ne-panicked s none = λ q. cc
required-ne-panicked s (some a) = λ q. cc

-- A field that is read leaves fewer than `n` bytes.
Shorter : ℕ → Outcome (Option ErrorField × ErrorFields) → Type 0
Shorter n (ok (none, rest)) = Unit
Shorter n (ok (some field, rest)) = length rest.buf < n
Shorter n (err e) = Unit
Shorter n panicked = ⊥

module _ ⦃c : Crates⦄ where
  cut-Shorter :
      (b : ℕ) (s : Bytes) (pos : Option ℕ)
      → Shorter (suc (length s)) (
          cut_cstr pos s >>= λ q.
          ok (some (record { type_ = b; value = q.0 }), record { buf = q.1 }))
  unfolding cut_cstr Shorter
  cut-Shorter b s none = tt
  cut-Shorter b s (some pos) = omega (arith, length-drop (pos + 1) s)

  if-Shorter :
      (n : ℕ) (b : Bool) (x y : Outcome (Option ErrorField × ErrorFields))
      → Shorter n x
      → Shorter n y
      → Shorter n (if b then x else y)
  if-Shorter n true x y h k = h
  if-Shorter n false x y h k = k

  end-Shorter :
      (n : ℕ) (message : String) (s : Bytes) (fields : ErrorFields)
      → Shorter n (at_end message s fields)
  unfolding at_end is_empty Shorter
  end-Shorter n message [] fields = tt
  end-Shorter n message (b ∷ s) fields = tt

  next-Shorter : (buf : Bytes) → Shorter (length buf) (next_error_field (record { buf = buf }))
  unfolding next_error_field read_u8 read_cstr Shorter
  next-Shorter [] = tt
  next-Shorter (b ∷ s) =
      if-Shorter (suc (length s)) (b == 0) _ _ (end-Shorter _ _ s _)
        (cut-Shorter b s (c.memchr 0 s))

module _ ⦃c : Crates⦄ ⦃l : Lossy⦄ where
  assign-ne-panicked : (p : Partial) (f : ErrorField) → assign p f ≢ panicked
  unfolding assign
  assign-ne-panicked p f =
      search (if-ne-panicked, bind-ne-panicked, required-ne-panicked, ok-ne-panicked) depth 40

  collect_step :
      (fuel n : ℕ) (p : Partial) (r : Outcome (Option ErrorField × ErrorFields))
      → Shorter n r
      → ((rest : ErrorFields) (p' : Partial)
          → length rest.buf < n
          → collect fuel rest p' ≢ panicked)
      → (r >>= λ r. elim r.0 [
        | none ↦ ok p
        | some field ↦ assign p field >>= λ p'. collect fuel r.1 p'
      ])
        ≢ panicked
  unfolding Shorter
  collect_step fuel n p (ok (none, rest)) k h = ok-ne-panicked p
  collect_step fuel n p (ok (some field, rest)) k h =
      bind-ne-panicked (assign p field) _ (assign-ne-panicked p field) (λ p'. h rest p' k)
  collect_step fuel n p (err e) k h = λ q. cc
  collect_step fuel n p panicked k h = absurd k

  collect-ne-panicked :
      (fuel : ℕ) (fields : ErrorFields) (p : Partial)
      → length fields.buf < fuel
      → collect fuel fields p ≢ panicked
  unfolding collect
  collect-ne-panicked zero fields p h = absurd (omega arith)
  collect-ne-panicked (suc fuel) fields p h =
      collect_step fuel (length fields.buf) p (next_error_field fields) (next-Shorter fields.buf)
        (λ rest p' k. collect-ne-panicked fuel rest p' (omega arith))

  position-ne-panicked : (a b : Option ℕ) (q : Option Bytes) → position_of a b q ≢ panicked
  unfolding position_of
  position-ne-panicked (some a) b q = ok-ne-panicked _
  position-ne-panicked none none q = ok-ne-panicked _
  position-ne-panicked none (some b) q =
      bind-ne-panicked (required _ q) _ (required-ne-panicked _ q) (λ a. ok-ne-panicked _)

  assemble-ne-panicked : (p : Partial) → assemble p ≢ panicked
  unfolding assemble
  assemble-ne-panicked p =
      bind-ne-panicked (required _ p.severity) _ (required-ne-panicked _ _) λ severity.
        bind-ne-panicked (required _ p.code) _ (required-ne-panicked _ _) λ code.
          bind-ne-panicked (required _ p.message) _ (required-ne-panicked _ _) λ message.
            bind-ne-panicked _ _
              (position-ne-panicked p.normal_position p.internal_position p.internal_query)
              λ position. ok-ne-panicked _

  -- The loop over the fields of an error ends, on every body.
  pub parse-ne-panicked : (fields : ErrorFields) → parse fields ≢ panicked
  unfolding parse
  parse-ne-panicked fields =
      bind-ne-panicked (collect (suc (length fields.buf)) fields empty) assemble
        (collect-ne-panicked (suc (length fields.buf)) fields empty (omega arith))
        assemble-ne-panicked

  -- The fields one after the other.
  abbrev pub assign_all : List ErrorField → Partial → Outcome Partial
  assign_all [] p = ok p
  assign_all (f ∷ fs) p = assign p f >>= λ p'. assign_all fs p'

  collect-Yields :
      (fs : List ErrorField) (fuel : ℕ) (fields : ErrorFields) (p : Partial)
      → Yields next_error_field fields fs
      → length fs < fuel
      → collect fuel fields p ≡ assign_all fs p
  unfolding collect
  collect-Yields fs zero fields p y h = absurd (omega arith)
  collect-Yields [] (suc fuel) fields p y h = rw y.1 refl
  collect-Yields (f ∷ fs) (suc fuel) fields p (rest, e, y) h =
      rw e (bind_agree (assign p f) _ _ (λ p'. collect-Yields fs fuel rest p' y (omega arith)))

  length-encode : (fs : List ErrorField) → length fs < length (encode_error_fields fs)
  length-encode [] = omega arith
  length-encode (f ∷ fs) =
      omega (arith, length-encode fs, length-append f.value (0 ∷ encode_error_fields fs))

  -- A body is read as its fields in turn, each of which sets its part of the error; a later field
  -- of a type takes the place of an earlier one.
  pub parse-encode :
      (fs : List ErrorField)
      → All IsErrorField fs
      → parse (record { buf = encode_error_fields fs }) ≡ (assign_all fs empty >>= assemble)
  unfolding parse
  parse-encode fs h =
      ap (λ r. r >>= assemble)
        (collect-Yields fs _ _ empty (Yields-error_fields fs h) (omega (arith, length-encode fs)))
