-- ===== src/Hex.antt =====
-- opengauss-protocol/src/hex.rs: bytes in lower-case hexadecimal.
pub mod Laws
use rust_opengauss.Prelude.{ℕ, ◌/◌, ◌%◌, [], ◌∷◌, Bytes, get_or}

abbrev pub hex_chars : Bytes
hex_chars =
    (b'0' ∷ b'1' ∷ b'2' ∷ b'3' ∷ b'4' ∷ b'5' ∷ b'6' ∷ b'7' ∷ b'8' ∷ b'9' ∷ b'a' ∷ b'b' ∷ b'c' ∷ b'd'
      ∷ b'e' ∷ b'f' ∷ [])

-- `half_byte & 0x0F` keeps the remainder by 16
unfoldable pub lower_nibble_to_hex : ℕ → ℕ
lower_nibble_to_hex half_byte = get_or hex_chars (half_byte % 16) 0

-- `byte >> 4` is the quotient by 16
unfoldable pub encode_byte : ℕ → ℕ × ℕ
encode_byte byte = (lower_nibble_to_hex (byte / 16), lower_nibble_to_hex byte)

-- `{:x}` of a `LowerHexWrapper`
unfoldable pub lower_hex : Bytes → Bytes
lower_hex [] = []
lower_hex (b ∷ s) = (encode_byte b).0 ∷ (encode_byte b).1 ∷ lower_hex s
