-- ===== src/Base64.antt =====
-- The alphabet of the standard base64 encoding, with its padding.
use rust_opengauss.Prelude.{ℕ, ◌≡◌, Bool, true, ◌&&◌, ◌||◌, leb, ◌==◌}

abbrev pub between : ℕ → ℕ → ℕ → Bool
between lo hi c = leb lo c && leb c hi

unfoldable pub is_base64 : ℕ → Bool
is_base64 c =
    between b'a' b'z' c
    || (between b'A' b'Z' c || (between b'0' b'9' c || (c == b'/' || (c == b'+' || c == b'='))))

abbrev pub IsBase64 : ℕ → Type 0
IsBase64 c = is_base64 c ≡ true
