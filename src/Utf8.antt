-- ===== src/Utf8.antt =====
-- `str::from_utf8` of the standard library: a text is its UTF-8 bytes.
pub mod Ascii
pub mod Native
use rust_opengauss.Prelude.{
  ℕ, zero, suc, ◌≡◌, Bool, true, false, ◌&&◌, Option, none, some, [], ◌∷◌, Bytes, leb,
  if◌then◌else◌,
}
use rust_opengauss.Outcome.{Outcome, ok, err, bad_utf8}

abbrev within : ℕ → ℕ → ℕ → Bool
within lo hi b = leb lo b && leb b hi

-- What a first byte asks of the rest of its character: how many bytes follow, and the range of
-- the next one. No overlong form, no surrogate, nothing past U+10FFFF.
lead : ℕ → Option (ℕ × ℕ × ℕ)
lead b =
    if within 0x00 0x7f b
    then some (0, 0x80, 0xbf)
    else if within 0xc2 0xdf b
    then some (1, 0x80, 0xbf)
    else if within 0xe0 0xe0 b
    then some (2, 0xa0, 0xbf)
    else if within 0xed 0xed b
    then some (2, 0x80, 0x9f)
    else if within 0xe1 0xef b
    then some (2, 0x80, 0xbf)
    else if within 0xf0 0xf0 b
    then some (3, 0x90, 0xbf)
    else if within 0xf1 0xf3 b
    then some (3, 0x80, 0xbf)
    else if within 0xf4 0xf4 b
    then some (3, 0x80, 0x8f)
    else none

utf8_from : ℕ → ℕ → ℕ → Bytes → Bool
unfolding lead
utf8_from zero lo hi [] = true
utf8_from (suc n) lo hi [] = false
utf8_from zero lo hi (b ∷ s) = elim (lead b) [
  | none ↦ false
  | some (n, lo', hi') ↦ utf8_from n lo' hi' s
]
utf8_from (suc n) lo hi (b ∷ s) = within lo hi b && utf8_from n 0x80 0xbf s

unfoldable pub is_utf8 : Bytes → Bool
unfolding utf8_from
is_utf8 s = utf8_from 0 0 0 s

unfoldable pub from_utf8 : Bytes → Outcome Bytes
from_utf8 s = if is_utf8 s then ok s else err bad_utf8

-- `String::from_utf8_lossy`: a valid text as it is, and of any other a text with U+FFFD in the place
-- of what is not valid.
pub record Lossy : Type 0 where
  pub from_utf8_lossy : Bytes → Bytes
  pub lossy_valid : (s : Bytes) → is_utf8 s ≡ true → from_utf8_lossy s ≡ s
  pub lossy_is_utf8 : (s : Bytes) → is_utf8 (from_utf8_lossy s) ≡ true
