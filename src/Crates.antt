-- ===== src/Crates.antt =====
-- The third-party crates that the code calls for bytes, as an interface: `byteorder` and `bytes`
-- for big-endian numbers, `memchr` for a byte's first place. The laws are what they document.
pub mod Native
use rust_opengauss.Prelude.{
  ℕ, ◌+◌, ◌^◌, ◌<◌, ◌≡◌, Option, none, some, ◌∷◌, ◌++◌, Bytes, IsBytes, Lacks, FirstAt, length,
  take, drop,
}

pub record Crates : Type 0 where
  -- `put_uN`, `put_iN`, `put_fN`, `BigEndian::write_*`: the width in bytes, and the bit pattern
  pub to_be : ℕ → ℕ → Bytes
  -- `BigEndian::read_*` and `read_*::<BigEndian>` on exactly the bytes of one number
  pub from_be : Bytes → ℕ
  -- `memchr(needle, haystack)`
  pub memchr : ℕ → Bytes → Option ℕ
  pub to_be_length : (w n : ℕ) → length (to_be w n) ≡ w
  pub to_be_bytes : (w n : ℕ) → n < 256 ^ w → IsBytes (to_be w n)
  pub from_be_inverse : (w n : ℕ) → n < 256 ^ w → from_be (to_be w n) ≡ n
  pub from_be_bound : (s : Bytes) → IsBytes s → from_be s < 256 ^ length s
  pub memchr_found : (b i : ℕ) (s : Bytes) → memchr b s ≡ some i → FirstAt b i s
  pub memchr_absent : (b : ℕ) (s : Bytes) → memchr b s ≡ none → Lacks b s
