-- ===== src/Read.antt =====
-- Reading from the front of a byte slice: `Buffer` of opengauss-protocol/src/message/backend.rs,
-- and `read_*` of byteorder on `&mut &[u8]`. A `Buffer { bytes, idx }` is the slice `bytes[idx..]`
-- that all its methods work on. The slice that a failed read leaves behind is not modelled.
pub mod Laws
use rust_opengauss.Prelude.{
  ℕ, zero, suc, ◌+◌, Bool, true, false, Option, none, some, [], ◌∷◌, Bytes, length, take, drop, ltb,
  if◌then◌else◌,
}
use rust_opengauss.Outcome.{Outcome, ok, err, panicked, Error, unexpected_eof, ◌>>=◌ as bind}
use rust_opengauss.Crates.{Crates}

abbrev pub Reader {ℓ} : Type ℓ → Type ℓ
Reader A = Bytes → Outcome (A × Bytes)

infixl 5 ◌>>=◌ ◌>>◌
abbrev pub ◌>>=◌ {ℓ κ} : {A : Type ℓ} {B : Type κ} → Reader A → (A → Reader B) → Reader B
◌>>=◌ m f s = bind (m s) (λ p. f p.0 p.1)

abbrev pub ◌>>◌ {ℓ κ} : {A : Type ℓ} {B : Type κ} → Reader A → Reader B → Reader B
m >> k = m >>= λ _. k

abbrev pub pure {ℓ} : {A : Type ℓ} → A → Reader A
pure a s = ok (a, s)

abbrev pub fail {ℓ} : {A : Type ℓ} → Error → Reader A
fail e s = err e

-- `Read::read_exact` into an array of `n` bytes
unfoldable pub read_exact : ℕ → Reader Bytes
read_exact n s = if ltb (length s) n then err unexpected_eof else ok (take n s, drop n s)

unfoldable pub read_u8 : Reader ℕ
read_u8 [] = err unexpected_eof
read_u8 (b ∷ s) = ok (b, s)

-- `Buffer::read_all`
unfoldable pub read_all : Reader Bytes
read_all s = ok (s, [])

-- `[T]::is_empty`, `Buffer::is_empty`
unfoldable pub is_empty : Bytes → Bool
is_empty [] = true
is_empty (b ∷ s) = false

module _ ⦃c : Crates⦄ where
  -- `read_uN`, `read_iN` and `read_fN` at `BigEndian`, by the width in bytes
  unfoldable pub read_be : ℕ → Reader ℕ
  read_be w = do s ← read_exact w; pure (c.from_be s)

  -- the rest of `Buffer::read_cstr` once `memchr` has answered
  unfoldable pub cut_cstr : Option ℕ → Reader Bytes
  cut_cstr none s = err unexpected_eof
  cut_cstr (some pos) s = ok (take pos s, drop (pos + 1) s)

  unfoldable pub read_cstr : Reader Bytes
  unfolding cut_cstr
  read_cstr s = cut_cstr (c.memchr 0 s) s
