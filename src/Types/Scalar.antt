-- ===== src/Types/Scalar.antt =====
-- opengauss-protocol/src/types/mod.rs, the values of fixed width and the texts. Numbers are bit
-- patterns, floats too.
pub mod Laws
use rust_opengauss.Prelude.{
  ℕ, Bool, true, false, not, ◌||◌, [], ◌∷◌, ◌++◌, String, Bytes, length, get_or, ◌==◌,
  if◌then◌else◌,
}
use rust_opengauss.Outcome.{Outcome, ok, err, other, ◌>>=◌}
use rust_opengauss.Crates.{Crates}
use rust_opengauss.Utf8.{from_utf8}
use rust_opengauss.Read.{read_be, is_empty}
use rust_opengauss.Write.{Writer, put}

unfoldable pub bool_to_sql : Bool → Writer (Unit {0})
bool_to_sql v = put ((if v then 1 else 0) ∷ [])

unfoldable pub bool_from_sql : Bytes → Outcome Bool
bool_from_sql buf =
    if not (length buf == 1)
    then err (other "invalid buffer size")
    else ok (not (get_or buf 0 0 == 0))

unfoldable pub bytea_to_sql : Bytes → Writer (Unit {0})
bytea_to_sql v = put v

unfoldable pub bytea_from_sql : Bytes → Bytes
bytea_from_sql buf = buf

unfoldable pub text_to_sql : Bytes → Writer (Unit {0})
text_to_sql v = put v

unfoldable pub text_from_sql : Bytes → Outcome Bytes
text_from_sql buf = from_utf8 buf

-- an array of `n` bytes
abbrev array_from_slice : ℕ → String → Bytes → Outcome Bytes
array_from_slice n message buf = if not (length buf == n) then err (other message) else ok buf

unfoldable pub macaddr_to_sql : Bytes → Writer (Unit {0})
macaddr_to_sql v = put v

unfoldable pub macaddr_from_sql : Bytes → Outcome Bytes
macaddr_from_sql buf = array_from_slice 6 "invalid message length: macaddr length mismatch" buf

unfoldable pub uuid_to_sql : Bytes → Writer (Unit {0})
uuid_to_sql v = put v

unfoldable pub uuid_from_sql : Bytes → Outcome Bytes
uuid_from_sql buf = array_from_slice 16 "invalid message length: uuid size mismatch" buf

-- a text behind the version number 1
abbrev versioned_from_sql : String → Bytes → Outcome Bytes
versioned_from_sql message [] = err (other message)
versioned_from_sql message (version ∷ rest) =
    if version == 1 then from_utf8 rest else err (other message)

unfoldable pub ltree_to_sql : Bytes → Writer (Unit {0})
ltree_to_sql v = put (1 ∷ v)

unfoldable pub ltree_from_sql : Bytes → Outcome Bytes
ltree_from_sql buf = versioned_from_sql "ltree version 1 only supported" buf

unfoldable pub lquery_to_sql : Bytes → Writer (Unit {0})
lquery_to_sql v = put (1 ∷ v)

unfoldable pub lquery_from_sql : Bytes → Outcome Bytes
lquery_from_sql buf = versioned_from_sql "lquery version 1 only supported" buf

unfoldable pub ltxtquery_to_sql : Bytes → Writer (Unit {0})
ltxtquery_to_sql v = put (1 ∷ v)

unfoldable pub ltxtquery_from_sql : Bytes → Outcome Bytes
ltxtquery_from_sql buf = versioned_from_sql "ltxtquery version 1 only supported" buf

module _ ⦃c : Crates⦄ where
  -- One number that takes the whole buffer.
  unfoldable pub number_from_sql : ℕ → String → Bytes → Outcome ℕ
  number_from_sql w message buf =
      read_be w buf >>= λ p. if not (is_empty p.1) then err (other message) else ok p.0

  unfoldable pub char_to_sql : ℕ → Writer (Unit {0})
  char_to_sql v = put (c.to_be 1 v)

  unfoldable pub char_from_sql : Bytes → Outcome ℕ
  char_from_sql buf = number_from_sql 1 "invalid buffer size" buf

  unfoldable pub int2_to_sql : ℕ → Writer (Unit {0})
  int2_to_sql v = put (c.to_be 2 v)

  unfoldable pub int2_from_sql : Bytes → Outcome ℕ
  int2_from_sql buf = number_from_sql 2 "invalid buffer size" buf

  unfoldable pub int4_to_sql : ℕ → Writer (Unit {0})
  int4_to_sql v = put (c.to_be 4 v)

  unfoldable pub int4_from_sql : Bytes → Outcome ℕ
  int4_from_sql buf = number_from_sql 4 "invalid buffer size" buf

  unfoldable pub oid_to_sql : ℕ → Writer (Unit {0})
  oid_to_sql v = put (c.to_be 4 v)

  unfoldable pub oid_from_sql : Bytes → Outcome ℕ
  oid_from_sql buf = number_from_sql 4 "invalid buffer size" buf

  unfoldable pub int8_to_sql : ℕ → Writer (Unit {0})
  int8_to_sql v = put (c.to_be 8 v)

  unfoldable pub int8_from_sql : Bytes → Outcome ℕ
  int8_from_sql buf = number_from_sql 8 "invalid buffer size" buf

  unfoldable pub lsn_to_sql : ℕ → Writer (Unit {0})
  lsn_to_sql v = put (c.to_be 8 v)

  unfoldable pub lsn_from_sql : Bytes → Outcome ℕ
  lsn_from_sql buf = number_from_sql 8 "invalid buffer size" buf

  unfoldable pub float4_to_sql : ℕ → Writer (Unit {0})
  float4_to_sql v = put (c.to_be 4 v)

  unfoldable pub float4_from_sql : Bytes → Outcome ℕ
  float4_from_sql buf = number_from_sql 4 "invalid buffer size" buf

  unfoldable pub float8_to_sql : ℕ → Writer (Unit {0})
  float8_to_sql v = put (c.to_be 8 v)

  unfoldable pub float8_from_sql : Bytes → Outcome ℕ
  float8_from_sql buf = number_from_sql 8 "invalid buffer size" buf

  unfoldable pub timestamp_to_sql : ℕ → Writer (Unit {0})
  timestamp_to_sql v = put (c.to_be 8 v)

  unfoldable pub timestamp_from_sql : Bytes → Outcome ℕ
  timestamp_from_sql buf = number_from_sql 8 "invalid message length: timestamp not drained" buf

  unfoldable pub date_to_sql : ℕ → Writer (Unit {0})
  date_to_sql v = put (c.to_be 4 v)

  unfoldable pub date_from_sql : Bytes → Outcome ℕ
  date_from_sql buf = number_from_sql 4 "invalid message length: date not drained" buf

  unfoldable pub time_to_sql : ℕ → Writer (Unit {0})
  time_to_sql v = put (c.to_be 8 v)

  unfoldable pub time_from_sql : Bytes → Outcome ℕ
  time_from_sql buf = number_from_sql 8 "invalid message length: time not drained" buf
