-- ===== src/Authentication/Sha256.antt =====
-- opengauss-protocol/src/authentication/sha256.rs: the answers of the openGauss dialect.
pub mod Laws
use rust_opengauss.Prelude.{
  ℕ, ◌/◌, Bool, not, ◌||◌, Option, none, some, [], ◌∷◌, ◌++◌, Bytes, length, is_negative_i32, ◌==◌,
  if◌then◌else◌,
}
use rust_opengauss.Outcome.{Outcome, ok, err, invalid_input, unknown, ◌>>=◌}
use rust_opengauss.Utf8.{from_utf8}
use rust_opengauss.Bits.{xor}
use rust_opengauss.Hex.{lower_nibble_to_hex, lower_hex}
use rust_opengauss.Crypto.{Crypto}

abbrev pub default_iteration_count : ℕ
default_iteration_count = 10000

abbrev pub k_length : ℕ
k_length = 32

abbrev pub client_key_string : Bytes
client_key_string = (b'C' ∷ b'l' ∷ b'i' ∷ b'e' ∷ b'n' ∷ b't' ∷ b' ' ∷ b'K' ∷ b'e' ∷ b'y' ∷ [])

-- `format!("{:02x}", b)` for each byte
unfoldable pub hex_encode : Bytes → Bytes
hex_encode [] = []
hex_encode (b ∷ s) = lower_nibble_to_hex (b / 16) ∷ lower_nibble_to_hex b ∷ hex_encode s

-- `server_iteration > 0` of an `i32`
unfoldable pub iterations_of : ℕ → ℕ
iterations_of server_iteration =
    if server_iteration == 0 || is_negative_i32 server_iteration
    then default_iteration_count
    else server_iteration

-- the checks on the lengths
unfoldable pub check_lengths : (salt_bytes token_bytes : Bytes) → Outcome (Unit {0})
check_lengths salt_bytes token_bytes =
    if not (length salt_bytes == 32)
    then err (unknown "invalid salt length: expected 32 bytes" (length salt_bytes))
    else if not (length token_bytes == 4)
    then err (unknown "invalid token length: expected 4 bytes" (length token_bytes))
    else ok tt

module _ ⦃h : Crypto⦄ where
  abbrev decoded : Option Bytes → Outcome Bytes
  decoded none = err (invalid_input "invalid hex")
  decoded (some s) = ok s

  unfoldable pub hex_decode : Bytes → Outcome Bytes
  hex_decode hex = from_utf8 hex >>= λ hex_str. decoded (h.decode_hex hex_str)

  unfoldable pub rfc5802_algorithm : (password random64code token : Bytes) → ℕ → Outcome Bytes
  rfc5802_algorithm password random64code token server_iteration = do
    salt_bytes ← hex_decode random64code
    token_bytes ← hex_decode token
    lengths ← check_lengths salt_bytes token_bytes
    let k = h.pbkdf2_sha1 password salt_bytes (iterations_of server_iteration) k_length
    let client_key = h.hmac k client_key_string
    let stored_key = h.sha256 client_key
    let hmac_result = h.hmac stored_key token_bytes
    ok (hex_encode (xor hmac_result client_key))

  unfoldable pub md5_sha256_hash : (password salt_hex md5_salt : Bytes) → ℕ → Outcome Bytes
  md5_sha256_hash password salt_hex md5_salt iteration_count = do
    salt_bytes ← hex_decode salt_hex
    let k = h.pbkdf2_sha1 password salt_bytes (iterations_of iteration_count) k_length
    let server_key = h.hmac k (b'S' ∷ b'e' ∷ b'v' ∷ b'e' ∷ b'r' ∷ b' ' ∷ b'K' ∷ b'e' ∷ b'y' ∷ [])
    let client_key = h.hmac k client_key_string
    let stored_key = h.sha256 client_key
    salt_text ← from_utf8 salt_hex
    let sha256_hex = salt_text ++ (hex_encode server_key ++ hex_encode stored_key)
    let inner = lower_hex (h.md5 sha256_hex)
    ok ((b'm' ∷ b'd' ∷ b'5' ∷ []) ++ lower_hex (h.md5 (inner ++ md5_salt)))

  unfoldable pub sm3_algorithm : (password random64code token : Bytes) → ℕ → Outcome Bytes
  sm3_algorithm password random64code token server_iteration = do
    salt_bytes ← hex_decode random64code
    token_bytes ← hex_decode token
    lengths ← check_lengths salt_bytes token_bytes
    let k = h.pbkdf2_sha1 password salt_bytes (iterations_of server_iteration) k_length
    let client_key = h.hmac k client_key_string
    let stored_key = h.sha256 client_key
    let hmac_result = h.hmac stored_key token_bytes
    ok (hex_encode (xor hmac_result client_key))
