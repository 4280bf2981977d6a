-- ===== src/Types/Hstore.antt =====
-- `HSTORE` and `VARBIT` of opengauss-protocol/src/types/mod.rs.
pub mod Laws
use rust_opengauss.Prelude.{
  ℕ, zero, suc, ◌+◌, ◌-◌, ◌*◌, ◌/◌, not, Option, none, some, List, [], ◌∷◌, Bytes, length, take,
  drop, ltb, ◌==◌, is_negative_i32, minus_one_i32, if◌then◌else◌,
}
use rust_opengauss.Outcome.{Outcome, ok, err, panicked, other, ◌>>=◌ as bind}
use rust_opengauss.Crates.{Crates}
use rust_opengauss.Utf8.{from_utf8}
use rust_opengauss.Read.{Reader, ◌>>=◌, read_be, is_empty}
use rust_opengauss.Iterate.{Next}
use rust_opengauss.Write
use rust_opengauss.Write.{◌>>>◌, Writer, put, len, patch, i32_max, from_usize}

-- A key and its value; a text is its UTF-8 bytes.
abbrev pub Entry : Type 0
Entry = Bytes × Option Bytes

pub record HstoreEntries : Type 0 where
  pub remaining : ℕ
  pub buf : Bytes

pub record Varbit : Type 0 where
  pub len : ℕ
  pub bytes : Bytes

-- `slice::split_at`, which panics past the end
unfoldable pub split_at : ℕ → Reader Bytes
split_at n s = if ltb (length s) n then panicked else ok (take n s, drop n s)

module _ ⦃c : Crates⦄ where
  unfoldable pub write_pascal_string : Bytes → Writer (Unit {0})
  write_pascal_string s =
      Write.◌>>=◌ (Write.lift (from_usize i32_max (length s)))
        (λ size. put (c.to_be 4 size) >>> put s)

  unfoldable pub write_value : Option Bytes → Writer (Unit {0})
  write_value none = put (c.to_be 4 minus_one_i32)
  write_value (some value) = write_pascal_string value

  -- the loop of `hstore_to_sql`, with the count so far
  unfoldable pub write_entries : List Entry → ℕ → Writer ℕ
  write_entries [] count = Write.pure count
  write_entries ((key, value) ∷ values) count =
      write_pascal_string key >>> (write_value value >>> write_entries values (count + 1))

  unfoldable pub hstore_to_sql : List Entry → Writer (Unit {0})
  hstore_to_sql values = Write.◌>>=◌ len λ base.
      put (c.to_be 4 0)
      >>> Write.◌>>=◌ (write_entries values 0)
          λ n. Write.◌>>=◌ (Write.lift (from_usize i32_max n)) λ count. patch base (c.to_be 4 count)

  unfoldable pub hstore_from_sql : Bytes → Outcome HstoreEntries
  hstore_from_sql buf = bind (read_be 4 buf) λ p.
      if is_negative_i32 p.0
      then err (other "invalid entry count")
      else ok (record { remaining = p.0; buf = p.1 })

  -- `split_at` and `str::from_utf8` at a length that is not negative
  unfoldable pub read_str : ℕ → Reader Bytes
  read_str n s = bind (split_at n s) λ p. bind (from_utf8 p.0) λ text. ok (text, p.1)

  unfoldable pub key_of : ℕ → Reader Bytes
  key_of key_len s =
      if is_negative_i32 key_len then err (other "invalid key length") else read_str key_len s

  unfoldable pub value_of : ℕ → Reader (Option Bytes)
  value_of value_len s =
      if is_negative_i32 value_len
      then ok (none, s)
      else bind (read_str value_len s) λ p. ok (some p.0, p.1)

  unfoldable pub read_key : Reader Bytes
  read_key = do key_len ← read_be 4; key_of key_len

  unfoldable pub read_value : Reader (Option Bytes)
  read_value = do value_len ← read_be 4; value_of value_len

  unfoldable pub next_entry : Next HstoreEntries Entry
  next_entry it =
      if it.remaining == 0
      then (if not (is_empty it.buf) then err (other "invalid buffer size") else ok (none, it))
      else bind (read_key it.buf) λ p.
        bind (read_value p.1)
          λ q. ok (some (p.0, q.0), record { remaining = it.remaining - 1; buf = q.1 })

  -- the loop of `varbit_to_sql` puts the bytes one by one
  unfoldable pub varbit_to_sql : ℕ → Bytes → Writer (Unit {0})
  varbit_to_sql n v =
      Write.◌>>=◌ (Write.lift (from_usize i32_max n)) λ size. put (c.to_be 4 size) >>> put v

  unfoldable pub varbit_from_sql : Bytes → Outcome Varbit
  varbit_from_sql buf = bind (read_be 4 buf) λ p.
      if is_negative_i32 p.0
      then err (other "invalid varbit length: varbit < 0")
      else if not (length p.1 == (p.0 + 7) / 8)
      then err (other "invalid message length: varbit mismatch")
      else ok (record { len = p.0; bytes = p.1 })
