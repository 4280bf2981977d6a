-- ===== src/Attempt.antt =====
-- The client's errors of tokio-opengauss/src/error/mod.rs, and what a call of the client comes to.
use rust_opengauss.Prelude.{String}
use rust_opengauss.Outcome.{Outcome, ok, err, panicked, Error}
use rust_opengauss.Crates.{Crates}
use rust_opengauss.Utf8.{Lossy}
use rust_opengauss.Backend.Message.{ErrorResponseBody}
use rust_opengauss.Backend.Iter.{error_fields}
use rust_opengauss.DbError.{DbError, parse}

-- `Error`, by its `Kind` with the cause it keeps
pub data Fault : Type 0 where
  closed unexpected_message : Fault
  db : DbError → Fault
  parse_failed encode_failed io_failed : Error → Fault
  -- with a fixed text
  authentication config_failed : String → Fault
  -- with the error of a step of the exchange
  authentication_failed : Error → Fault

pub data Attempt {ℓ} (A : Type ℓ) : Type ℓ where
  done : A → Attempt A
  failed : Fault → Attempt A
  aborted : Attempt A

infixl 5 ◌>>=◌
abbrev pub ◌>>=◌ {ℓ κ} : {A : Type ℓ} {B : Type κ} → Attempt A → (A → Attempt B) → Attempt B
done a >>= f = f a
failed e >>= f = failed e
aborted >>= f = aborted

-- `map_err` of an `io::Result`
unfoldable pub map_err {ℓ} : {A : Type ℓ} → (Error → Fault) → Outcome A → Attempt A
map_err f (ok a) = done a
map_err f (err e) = failed (f e)
map_err f panicked = aborted

abbrev pub classified {ℓ} : {A : Type ℓ} → Outcome DbError → Attempt A
classified (ok e) = failed (db e)
classified (err e) = failed (parse_failed e)
classified panicked = aborted

module _ ⦃c : Crates⦄ ⦃l : Lossy⦄ where
  -- `return Err(Error::db(body))`
  unfoldable pub fail_db {ℓ} : {A : Type ℓ} → ErrorResponseBody → Attempt A
  fail_db body = classified (parse (error_fields body))
