-- ===== src/Hex/Laws.antt =====
-- About opengauss-protocol/src/hex.rs: what reads the digits, and the digits themselves.
use rust_opengauss.Prelude.{
  ℕ, zero, suc, ◌+◌, ◌*◌, ◌-◌, ◌/◌, ◌%◌, ◌≤◌, ◌<◌, ◌≡◌, refl, ap, ◌⊎◌, inl, inr, ◌&&◌, Option, none,
  some, [], ◌∷◌, arith, Bytes, IsBytes, All, length, get_or, leb, if◌then◌else◌,
}
use rust_opengauss.Hex.{hex_chars, lower_nibble_to_hex, encode_byte, lower_hex}

-- The value of a digit of either case.
unfoldable pub digit_value : ℕ → Option ℕ
digit_value c =
    if leb b'0' c && leb c b'9'
    then some (c - b'0')
    else if leb b'a' c && leb c b'f'
    then some (c - b'a' + 10)
    else if leb b'A' c && leb c b'F'
    then some (c - b'A' + 10)
    else none

abbrev pub join : Option ℕ → Option ℕ → Option Bytes → Option Bytes
join (some high) (some low) (some s) = some ((high * 16 + low) ∷ s)
join _ _ _ = none

-- Pairs of digits, the high one first.
unfoldable pub read_hex : Bytes → Option Bytes
read_hex [] = some []
read_hex (h ∷ []) = none
read_hex (h ∷ l ∷ s) = join (digit_value h) (digit_value l) (read_hex s)

-- What may stand in a lower-case hexadecimal text.
abbrev pub IsHexDigit : ℕ → Type 0
IsHexDigit c = ((b'0' ≤ c) × (c ≤ b'9')) ⊎ ((b'a' ≤ c) × (c ≤ b'f'))

nibble :
    (n : ℕ)
    → n < 16
    → (digit_value (get_or hex_chars n 0) ≡ some n) × IsHexDigit (get_or hex_chars n 0)
unfolding digit_value
nibble zero h = (refl, inl (omega arith))
nibble (suc zero) h = (refl, inl (omega arith))
nibble (suc (suc zero)) h = (refl, inl (omega arith))
nibble (suc (suc (suc zero))) h = (refl, inl (omega arith))
nibble (suc (suc (suc (suc zero)))) h = (refl, inl (omega arith))
nibble (suc (suc (suc (suc (suc zero))))) h = (refl, inl (omega arith))
nibble (suc (suc (suc (suc (suc (suc zero)))))) h = (refl, inl (omega arith))
nibble (suc (suc (suc (suc (suc (suc (suc zero))))))) h = (refl, inl (omega arith))
nibble (suc (suc (suc (suc (suc (suc (suc (suc zero)))))))) h = (refl, inl (omega arith))
nibble (suc (suc (suc (suc (suc (suc (suc (suc (suc zero))))))))) h = (refl, inl (omega arith))
nibble (suc (suc (suc (suc (suc (suc (suc (suc (suc (suc zero)))))))))) h =
    (refl, inr (omega arith))
nibble (suc (suc (suc (suc (suc (suc (suc (suc (suc (suc (suc zero))))))))))) h =
    (refl, inr (omega arith))
nibble (suc (suc (suc (suc (suc (suc (suc (suc (suc (suc (suc (suc zero)))))))))))) h =
    (refl, inr (omega arith))
nibble (suc (suc (suc (suc (suc (suc (suc (suc (suc (suc (suc (suc (suc zero))))))))))))) h =
    (refl, inr (omega arith))
nibble (suc (suc (suc (suc (suc (suc (suc (suc (suc (suc (suc (suc (suc (suc zero)))))))))))))) h =
    (refl, inr (omega arith))
nibble
      (suc (suc (suc (suc (suc (suc (suc (suc (suc (suc (suc (suc (suc (suc (suc zero)))))))))))))))
      h =
    (refl, inr (omega arith))
nibble
      (suc
        (suc (suc (suc (suc (suc (suc (suc (suc (suc (suc (suc (suc (suc (suc (suc n))))))))))))))))
      h =
    absurd (omega arith)

pub length-lower_hex : (s : Bytes) → length (lower_hex s) ≡ 2 * length s
unfolding lower_hex
length-lower_hex [] = refl
length-lower_hex (b ∷ s) = omega (arith, length-lower_hex s)

pub lower_hex-IsHexDigit : (s : Bytes) → All IsHexDigit (lower_hex s)
unfolding lower_hex encode_byte lower_nibble_to_hex
lower_hex-IsHexDigit [] = tt
lower_hex-IsHexDigit (b ∷ s) = (
  (nibble (b / 16 % 16) (omega arith)).1,
  ((nibble (b % 16) (omega arith)).1, lower_hex-IsHexDigit s),
)

-- Bytes that are printed in lower-case hexadecimal are read back.
pub read_hex-lower_hex : (s : Bytes) → IsBytes s → read_hex (lower_hex s) ≡ some s
unfolding read_hex lower_hex encode_byte lower_nibble_to_hex
read_hex-lower_hex [] h = refl
read_hex-lower_hex (b ∷ s) h =
    rw
      (
        (nibble (b / 16 % 16) (omega arith)).0,
        (nibble (b % 16) (omega arith)).0,
        read_hex-lower_hex s h.1,
      )
      (ap (λ (n : ℕ). some (n ∷ s)) (whole b h.0))
  where
    whole : (b : ℕ) → b < 256 → b / 16 % 16 * 16 + b % 16 ≡ b
    whole b h = omega arith
