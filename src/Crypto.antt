-- ===== src/Crypto.antt =====
-- The third-party crates for hashes and their texts, as an interface: `sha2`, `md5`, `hmac`,
-- `pbkdf2`, `base64`, `hex` and `stringprep`. The laws are what they document.
pub mod Native
use rust_opengauss.Prelude.{
  ℕ, ◌*◌, ◌≡◌, ◌↔◌, Bool, true, Option, none, some, ◌∷◌, Bytes, IsBytes, All, length,
}
use rust_opengauss.Hex.{lower_hex}
use rust_opengauss.Base64.{IsBase64}

pub record Crypto : Type 0 where
  pub sha256 : Bytes → Bytes
  pub md5 : Bytes → Bytes
  -- `Hmac::<Sha256>`: the key, and all the bytes that `update` was given
  pub hmac : Bytes → Bytes → Bytes
  -- `verify_slice` on it: the key, the bytes, and the tag
  pub verify_hmac : Bytes → Bytes → Bytes → Bool
  -- `pbkdf2_hmac::<Sha1>`: the password, the salt, the rounds, and the length of the result
  pub pbkdf2_sha1 : Bytes → Bytes → ℕ → ℕ → Bytes
  -- `STANDARD.encode` and `Base64Display`, `STANDARD.decode`
  pub encode_base64 : Bytes → Bytes
  pub decode_base64 : Bytes → Option Bytes
  -- `hex::decode`
  pub decode_hex : Bytes → Option Bytes
  -- `saslprep`; none is its error
  pub saslprep : Bytes → Option Bytes
  pub sha256_length : (s : Bytes) → length (sha256 s) ≡ 32
  pub sha256_bytes : (s : Bytes) → IsBytes (sha256 s)
  pub md5_length : (s : Bytes) → length (md5 s) ≡ 16
  pub hmac_length : (k s : Bytes) → length (hmac k s) ≡ 32
  pub hmac_bytes : (k s : Bytes) → IsBytes (hmac k s)
  pub verify_hmac_iff : (k s tag : Bytes) → (verify_hmac k s tag ≡ true) ↔ (tag ≡ hmac k s)
  pub base64_inverse : (s : Bytes) → IsBytes s → decode_base64 (encode_base64 s) ≡ some s
  pub base64_alphabet : (s : Bytes) → All IsBase64 (encode_base64 s)
  pub hex_inverse : (s : Bytes) → IsBytes s → decode_hex (lower_hex s) ≡ some s
