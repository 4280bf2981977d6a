-- ===== src/Password.antt =====
-- opengauss-protocol/src/password/mod.rs: passwords as a client encrypts them for `ALTER USER`. The
-- random salt of `scram_sha_256` is an argument, `scram_sha_256_salt`'s.
pub mod Laws
use rust_opengauss.Prelude.{ℕ, [], ◌∷◌, ◌++◌, Bytes, if◌then◌else◌}
use rust_opengauss.Utf8.{is_utf8}
use rust_opengauss.Hex.{lower_hex}
use rust_opengauss.Crypto.{Crypto}
use rust_opengauss.Authentication.Sasl.{prepared, hi}

abbrev pub scram_default_iterations : ℕ
scram_default_iterations = 4096

-- `format!` of that number
abbrev pub iterations_text : Bytes
iterations_text = (b'4' ∷ b'0' ∷ b'9' ∷ b'6' ∷ [])

module _ ⦃h : Crypto⦄ where
  unfoldable pub prepare : Bytes → Bytes
  prepare password = if is_utf8 password then prepared password (h.saslprep password) else password

  unfoldable pub scram_sha_256_salt : (password salt : Bytes) → Bytes
  scram_sha_256_salt password salt =
      let salted_password = hi (prepare password) salt scram_default_iterations in
      let client_key =
        h.hmac salted_password
          (b'C' ∷ b'l' ∷ b'i' ∷ b'e' ∷ b'n' ∷ b't' ∷ b' ' ∷ b'K' ∷ b'e' ∷ b'y' ∷ []) in
      let stored_key = h.sha256 client_key in
      let server_key =
        h.hmac salted_password
          (b'S' ∷ b'e' ∷ b'r' ∷ b'v' ∷ b'e' ∷ b'r' ∷ b' ' ∷ b'K' ∷ b'e' ∷ b'y' ∷ []) in
      (b'S' ∷ b'C' ∷ b'R' ∷ b'A' ∷ b'M' ∷ b'-' ∷ b'S' ∷ b'H' ∷ b'A' ∷ b'-' ∷ b'2' ∷ b'5' ∷ b'6'
        ∷ b'$' ∷ [])
      ++ (iterations_text
          ++ ((b':' ∷ [])
              ++ (h.encode_base64 salt
                  ++ ((b'$' ∷ [])
                      ++ (h.encode_base64 stored_key
                          ++ ((b':' ∷ []) ++ h.encode_base64 server_key))))))

  unfoldable pub md5 : (password username : Bytes) → Bytes
  md5 password username = (b'm' ∷ b'd' ∷ b'5' ∷ []) ++ lower_hex (h.md5 (password ++ username))
