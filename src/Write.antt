-- ===== src/Write.antt =====
-- Writing to the end of a `BytesMut`: the buffer is a byte string that each call takes and gives
-- back, also beside an error, since what was written before an error stays written. Here stand the
-- helpers of opengauss-protocol/src/lib.rs.
pub mod Laws
pub mod Grows
use rust_opengauss.Prelude.{
  ℕ, ◌+◌, ◌-◌, ◌^◌, ◌++◌, Bytes, length, take, drop, ltb, minus_one_i32, if◌then◌else◌,
}
use rust_opengauss.Outcome.{Outcome, ok, err, panicked, Error, invalid_input}
use rust_opengauss.Crates.{Crates}

abbrev pub Writer {ℓ} : Type ℓ → Type ℓ
Writer A = Bytes → Outcome A × Bytes

abbrev pub continue {ℓ κ} :
    {A : Type ℓ} {B : Type κ} → (A → Writer B) → Outcome A → Bytes → Outcome B × Bytes
continue f (ok a) buf = f a buf
continue f (err e) buf = (err e, buf)
continue f panicked buf = (panicked, buf)

infixl 5 ◌>>=◌ ◌>>◌
abbrev pub ◌>>=◌ {ℓ κ} : {A : Type ℓ} {B : Type κ} → Writer A → (A → Writer B) → Writer B
◌>>=◌ m f buf = continue f (m buf).0 (m buf).1

abbrev pub ◌>>◌ {ℓ κ} : {A : Type ℓ} {B : Type κ} → Writer A → Writer B → Writer B
m >> k = m >>= λ _. k

-- The same, for the modules where `>>` is the reader's.
infixl 5 ◌>>>◌
abbrev pub ◌>>>◌ {ℓ κ} : {A : Type ℓ} {B : Type κ} → Writer A → Writer B → Writer B
m >>> k = m >>= λ _. k

abbrev pub pure {ℓ} : {A : Type ℓ} → A → Writer A
pure a buf = (ok a, buf)

abbrev pub lift {ℓ} : {A : Type ℓ} → Outcome A → Writer A
lift r buf = (r, buf)

-- `put_slice`, `extend_from_slice`
unfoldable pub put : Bytes → Writer (Unit {0})
put s buf = (ok tt, buf ++ s)

-- `buf.len()`
unfoldable pub len : Writer ℕ
len buf = (ok (length buf), buf)

-- `buf.len() - base`, which panics below zero
unfoldable pub len_from : ℕ → Writer ℕ
len_from base buf = (if ltb (length buf) base then panicked else ok (length buf - base), buf)

-- `BigEndian::write_*(&mut buf[base..], …)`: the bytes at `base`, which must be there, are replaced
unfoldable pub patch : ℕ → Bytes → Writer (Unit {0})
patch base s buf =
    if ltb (length buf) (base + length s)
    then (panicked, buf)
    else (ok tt, take base buf ++ (s ++ drop (base + length s) buf))

-- `Result::unwrap`
abbrev unwrapped {ℓ} : {A : Type ℓ} → Outcome A → Outcome A
unwrapped (ok a) = ok a
unwrapped (err e) = panicked
unwrapped panicked = panicked

unfoldable pub unwrap {ℓ} : {A : Type ℓ} → Writer A → Writer A
unwrap m buf = (unwrapped (m buf).0, (m buf).1)

pub data IsNull : Type 0 where
  null not_null : IsNull

abbrev pub i32_max : ℕ
i32_max = 2 ^ 31 - 1

abbrev pub u16_max : ℕ
u16_max = 2 ^ 16 - 1

-- `FromUsize::from_usize` at the type with this greatest value
unfoldable pub from_usize : ℕ → ℕ → Outcome ℕ
from_usize max x = if ltb max x then err (invalid_input "value too large to transmit") else ok x

module _ ⦃c : Crates⦄ where
  -- the length that `write_nullable` writes: of the bytes behind the length itself, or -1
  unfoldable pub value_size : ℕ → IsNull → Writer ℕ
  value_size base null = pure minus_one_i32
  value_size base not_null = do n ← len_from (base + 4); lift (from_usize i32_max n)

  -- `write_nullable`, with what the serializer has answered
  unfoldable pub write_nullable_as : Writer IsNull → Writer IsNull
  write_nullable_as serializer = do
    base ← len
    put (c.to_be 4 0)
    is_null ← serializer
    size ← value_size base is_null
    patch base (c.to_be 4 size)
    pure is_null

  unfoldable pub write_nullable : Writer IsNull → Writer (Unit {0})
  write_nullable serializer = do write_nullable_as serializer; pure tt
