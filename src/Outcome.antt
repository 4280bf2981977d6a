-- ===== src/Outcome.antt =====
-- What a Rust call comes to: a value, an error value, or a panic.
pub mod Laws
use rust_opengauss.Prelude.{ℕ, String}

-- `io::Error` by its kind and message, and the boxed errors of the type conversions.
pub data Error : Type 0 where
  -- `ErrorKind::UnexpectedEof`
  unexpected_eof : Error
  -- `ErrorKind::InvalidInput`, with a fixed message
  invalid_input : String → Error
  -- `ErrorKind::InvalidInput`, with a message that quotes a number
  unknown : String → ℕ → Error
  -- `ErrorKind::InvalidData`
  invalid_data : String → Error
  -- a failed `str::from_utf8`
  bad_utf8 : Error
  -- a `Box<dyn Error>` made of a text
  other : String → Error

pub data Outcome {ℓ} (A : Type ℓ) : Type ℓ where
  ok : A → Outcome A
  err : Error → Outcome A
  panicked : Outcome A

infixl 5 ◌>>=◌
abbrev pub ◌>>=◌ {ℓ κ} : {A : Type ℓ} {B : Type κ} → Outcome A → (A → Outcome B) → Outcome B
ok a >>= f = f a
err e >>= f = err e
panicked >>= f = panicked
