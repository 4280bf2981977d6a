-- ===== src/Utf8/Ascii.antt =====
-- About texts of ASCII characters.
use rust_opengauss.Prelude.{ℕ, ◌<◌, ◌≡◌, refl, ◌∙◌, true, [], ◌∷◌, arith, Bytes, All}
use rust_opengauss.Utf8.{is_utf8, utf8_from, lead}

abbrev pub IsAscii : ℕ → Type 0
IsAscii c = c < 128

ascii_char : (c : ℕ) (s : Bytes) → IsAscii c → is_utf8 (c ∷ s) ≡ is_utf8 s
unfolding is_utf8 utf8_from lead
ascii_char c s h = ground arith

pub ascii-is_utf8 : (s : Bytes) → All IsAscii s → is_utf8 s ≡ true
ascii-is_utf8 [] h = unfold is_utf8 utf8_from in refl
ascii-is_utf8 (c ∷ s) h = ascii_char c s h.0 ∙ ascii-is_utf8 s h.1
