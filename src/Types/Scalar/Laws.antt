-- ===== src/Types/Scalar/Laws.antt =====
-- About the values of fixed width and the texts of opengauss-protocol/src/types/mod.rs.
use rust_opengauss.Prelude.{
  ℕ, ◌^◌, ◌≤◌, ◌<◌, ◌≡◌, refl, subst, Bool, true, false, [], ◌∷◌, String, arith, Bytes, IsBytes,
  length, take, drop, length-take, length-drop, All-take, IsByte,
}
use rust_opengauss.Outcome.{Outcome, ok}
use rust_opengauss.Crates.{Crates}
use rust_opengauss.Utf8.{is_utf8, from_utf8}
use rust_opengauss.Read.{read_be, read_exact, is_empty}
use rust_opengauss.Read.Laws.{read_be-to_be_end}
use rust_opengauss.Write.{Writer}
use rust_opengauss.Write.Laws.{Writes, put-Writes}
use rust_opengauss.Types.Scalar.{
  number_from_sql, char_to_sql, char_from_sql, int2_to_sql, int2_from_sql, int4_to_sql,
  int4_from_sql, oid_to_sql, oid_from_sql, int8_to_sql, int8_from_sql, lsn_to_sql, lsn_from_sql,
  float4_to_sql, float4_from_sql, float8_to_sql, float8_from_sql, timestamp_to_sql,
  timestamp_from_sql, date_to_sql, date_from_sql, time_to_sql, time_from_sql, bool_to_sql,
  bool_from_sql, text_to_sql, text_from_sql, ltree_to_sql, ltree_from_sql, lquery_to_sql,
  lquery_from_sql, ltxtquery_to_sql, ltxtquery_from_sql, bytea_to_sql, bytea_from_sql,
  macaddr_to_sql, macaddr_from_sql, uuid_to_sql, uuid_from_sql,
}

-- The types of one number.
pub data Scalar : Type 0 where
  char int2 int4 oid int8 lsn float4 float8 timestamp date time : Scalar

abbrev pub width : Scalar → ℕ
width char = 1
width int2 = 2
width int4 = 4
width oid = 4
width int8 = 8
width lsn = 8
width float4 = 4
width float8 = 8
width timestamp = 8
width date = 4
width time = 8

-- The types of bytes, with the condition on the value.
pub data Textual : Type 0 where
  bytea text macaddr uuid ltree lquery ltxtquery : Textual

abbrev pub IsValue : Textual → Bytes → Type 0
IsValue bytea v = Unit {0}
IsValue macaddr v = length v ≡ 6
IsValue uuid v = length v ≡ 16
IsValue _ v = is_utf8 v ≡ true

abbrev pub write_text : Textual → Bytes → Writer (Unit {0})
write_text bytea = bytea_to_sql
write_text text = text_to_sql
write_text macaddr = macaddr_to_sql
write_text uuid = uuid_to_sql
write_text ltree = ltree_to_sql
write_text lquery = lquery_to_sql
write_text ltxtquery = ltxtquery_to_sql

abbrev pub read_text : Textual → Bytes → Outcome Bytes
read_text bytea buf = ok (bytea_from_sql buf)
read_text text buf = text_from_sql buf
read_text macaddr buf = macaddr_from_sql buf
read_text uuid buf = uuid_from_sql buf
read_text ltree buf = ltree_from_sql buf
read_text lquery buf = lquery_from_sql buf
read_text ltxtquery buf = ltxtquery_from_sql buf

-- A text or a byte array of one of the textual types is appended to the buffer in a form that is read back.
pub text_roundtrip :
    (t : Textual) (v : Bytes)
    → IsValue t v
    → (s : Bytes) × Writes (write_text t v) tt s × (read_text t s ≡ ok v)
unfolding bytea_to_sql text_to_sql macaddr_to_sql uuid_to_sql ltree_to_sql lquery_to_sql
    ltxtquery_to_sql bytea_from_sql text_from_sql macaddr_from_sql uuid_from_sql ltree_from_sql
    lquery_from_sql ltxtquery_from_sql from_utf8
text_roundtrip bytea v h = (v, put-Writes v, refl)
text_roundtrip text v h = (v, put-Writes v, rw h)
text_roundtrip macaddr v h = (v, put-Writes v, rw h)
text_roundtrip uuid v h = (v, put-Writes v, rw h)
text_roundtrip ltree v h = (1 ∷ v, put-Writes (1 ∷ v), rw h)
text_roundtrip lquery v h = (1 ∷ v, put-Writes (1 ∷ v), rw h)
text_roundtrip ltxtquery v h = (1 ∷ v, put-Writes (1 ∷ v), rw h)

pub bool_roundtrip :
    (v : Bool) → (s : Bytes) × Writes (bool_to_sql v) tt s × (bool_from_sql s ≡ ok v)
unfolding bool_to_sql bool_from_sql
bool_roundtrip true = (1 ∷ [], put-Writes (1 ∷ []), refl)
bool_roundtrip false = (0 ∷ [], put-Writes (0 ∷ []), refl)

module _ ⦃c : Crates⦄ where
  abbrev pub write_scalar : Scalar → ℕ → Writer (Unit {0})
  write_scalar char v = char_to_sql v
  write_scalar int2 v = int2_to_sql v
  write_scalar int4 v = int4_to_sql v
  write_scalar oid v = oid_to_sql v
  write_scalar int8 v = int8_to_sql v
  write_scalar lsn v = lsn_to_sql v
  write_scalar float4 v = float4_to_sql v
  write_scalar float8 v = float8_to_sql v
  write_scalar timestamp v = timestamp_to_sql v
  write_scalar date v = date_to_sql v
  write_scalar time v = time_to_sql v

  abbrev pub read_scalar : Scalar → Bytes → Outcome ℕ
  read_scalar char buf = char_from_sql buf
  read_scalar int2 buf = int2_from_sql buf
  read_scalar int4 buf = int4_from_sql buf
  read_scalar oid buf = oid_from_sql buf
  read_scalar int8 buf = int8_from_sql buf
  read_scalar lsn buf = lsn_from_sql buf
  read_scalar float4 buf = float4_from_sql buf
  read_scalar float8 buf = float8_from_sql buf
  read_scalar timestamp buf = timestamp_from_sql buf
  read_scalar date buf = date_from_sql buf
  read_scalar time buf = time_from_sql buf

  number_back :
      (w v : ℕ) (message : String) → v < 256 ^ w → number_from_sql w message (c.to_be w v) ≡ ok v
  unfolding number_from_sql is_empty
  number_back w v message h = rw (read_be-to_be_end w v h)

  -- A number of each type is appended in its width, and read back.
  pub scalar_roundtrip :
      (t : Scalar) (v : ℕ)
      → v < 256 ^ width t
      → (s : Bytes) × Writes (write_scalar t v) tt s
        × (length s ≡ width t)
        × (read_scalar t s ≡ ok v)
  unfolding char_to_sql int2_to_sql int4_to_sql oid_to_sql int8_to_sql lsn_to_sql float4_to_sql
      float8_to_sql timestamp_to_sql date_to_sql time_to_sql char_from_sql int2_from_sql
      int4_from_sql oid_from_sql int8_from_sql lsn_from_sql float4_from_sql float8_from_sql
      timestamp_from_sql date_from_sql time_from_sql
  scalar_roundtrip char v h =
      (c.to_be 1 v, put-Writes (c.to_be 1 v), c.to_be_length 1 v, number_back 1 v _ h)
  scalar_roundtrip int2 v h =
      (c.to_be 2 v, put-Writes (c.to_be 2 v), c.to_be_length 2 v, number_back 2 v _ h)
  scalar_roundtrip int4 v h =
      (c.to_be 4 v, put-Writes (c.to_be 4 v), c.to_be_length 4 v, number_back 4 v _ h)
  scalar_roundtrip oid v h =
      (c.to_be 4 v, put-Writes (c.to_be 4 v), c.to_be_length 4 v, number_back 4 v _ h)
  scalar_roundtrip int8 v h =
      (c.to_be 8 v, put-Writes (c.to_be 8 v), c.to_be_length 8 v, number_back 8 v _ h)
  scalar_roundtrip lsn v h =
      (c.to_be 8 v, put-Writes (c.to_be 8 v), c.to_be_length 8 v, number_back 8 v _ h)
  scalar_roundtrip float4 v h =
      (c.to_be 4 v, put-Writes (c.to_be 4 v), c.to_be_length 4 v, number_back 4 v _ h)
  scalar_roundtrip float8 v h =
      (c.to_be 8 v, put-Writes (c.to_be 8 v), c.to_be_length 8 v, number_back 8 v _ h)
  scalar_roundtrip timestamp v h =
      (c.to_be 8 v, put-Writes (c.to_be 8 v), c.to_be_length 8 v, number_back 8 v _ h)
  scalar_roundtrip date v h =
      (c.to_be 4 v, put-Writes (c.to_be 4 v), c.to_be_length 4 v, number_back 4 v _ h)
  scalar_roundtrip time v h =
      (c.to_be 8 v, put-Writes (c.to_be 8 v), c.to_be_length 8 v, number_back 8 v _ h)

  number_bound :
      (w : ℕ) (buf : Bytes) → IsBytes buf → w ≤ length buf → c.from_be (take w buf) < 256 ^ w
  number_bound w buf h l =
      let size : length (take w buf) ≡ w = omega (arith, length-take w buf, l) in
      subst (λ (k : ℕ). c.from_be (take w buf) < 256 ^ k) size
        (c.from_be_bound (take w buf) (All-take IsByte w buf h))

  empty_length : (s : Bytes) → is_empty s ≡ true → length s ≡ 0
  unfolding is_empty
  empty_length [] h = refl
  empty_length (b ∷ s) h = cc

  number_exact :
      (w v : ℕ) (message : String) (buf : Bytes)
      → IsBytes buf
      → number_from_sql w message buf ≡ ok v
      → (length buf ≡ w) × (v < 256 ^ w)
  unfolding number_from_sql is_empty read_be read_exact
  number_exact w v message buf h e =
      ground (arith, number_bound w buf h, length-drop w buf, empty_length (drop w buf))

  -- Whatever bytes are read as a number of the type, they have its width, and the number fits it.
  pub read_scalar_exact :
      (t : Scalar) (v : ℕ) (buf : Bytes)
      → IsBytes buf
      → read_scalar t buf ≡ ok v
      → (length buf ≡ width t) × (v < 256 ^ width t)
  unfolding char_to_sql int2_to_sql int4_to_sql oid_to_sql int8_to_sql lsn_to_sql float4_to_sql
      float8_to_sql timestamp_to_sql date_to_sql time_to_sql char_from_sql int2_from_sql
      int4_from_sql oid_from_sql int8_from_sql lsn_from_sql float4_from_sql float8_from_sql
      timestamp_from_sql date_from_sql time_from_sql
  read_scalar_exact char v buf h e = number_exact 1 v _ buf h e
  read_scalar_exact int2 v buf h e = number_exact 2 v _ buf h e
  read_scalar_exact int4 v buf h e = number_exact 4 v _ buf h e
  read_scalar_exact oid v buf h e = number_exact 4 v _ buf h e
  read_scalar_exact int8 v buf h e = number_exact 8 v _ buf h e
  read_scalar_exact lsn v buf h e = number_exact 8 v _ buf h e
  read_scalar_exact float4 v buf h e = number_exact 4 v _ buf h e
  read_scalar_exact float8 v buf h e = number_exact 8 v _ buf h e
  read_scalar_exact timestamp v buf h e = number_exact 8 v _ buf h e
  read_scalar_exact date v buf h e = number_exact 4 v _ buf h e
  read_scalar_exact time v buf h e = number_exact 8 v _ buf h e
