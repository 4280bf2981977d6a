-- ===== src/Authentication.antt =====
-- opengauss-protocol/src/authentication: what the client answers to the server's challenges.
pub mod Sha256
pub mod Sasl
use rust_opengauss.Prelude.{◌∷◌, [], ◌++◌, Bytes}
use rust_opengauss.Hex.{lower_hex}
use rust_opengauss.Crypto.{Crypto}

module _ ⦃h : Crypto⦄ where
  -- `md5_hash` of authentication/mod.rs: an `Md5` hashes all that `update` was given
  unfoldable pub md5_hash : (username password salt : Bytes) → Bytes
  md5_hash username password salt =
      let output = lower_hex (h.md5 (password ++ username)) in
      (b'm' ∷ b'd' ∷ b'5' ∷ []) ++ lower_hex (h.md5 (output ++ salt))
