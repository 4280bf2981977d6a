-- ===== src/Password/Laws.antt =====
-- About opengauss-protocol/src/password/mod.rs: that what it encrypts is what the logins of
-- opengauss-protocol/src/authentication work with.
use rust_opengauss.Prelude.{
  ℕ, ◌≡◌, refl, ap, ◌∙◌, true, false, Option, none, some, [], ◌∷◌, ◌++◌, arith, Bytes, IsBytes, All,
  drop, drop_append, ◌==◌, if◌then◌else◌,
}
use rust_opengauss.Hex.{lower_hex}
use rust_opengauss.Base64.{IsBase64, is_base64}
use rust_opengauss.Crypto.{Crypto}
use rust_opengauss.Authentication.{md5_hash}
use rust_opengauss.Authentication.Sasl.{normalize, hi}
use rust_opengauss.Authentication.Sasl.Parser.{decimal}
use rust_opengauss.Authentication.Sasl.Server.{Stored, salted_password, stored_for}
use rust_opengauss.Authentication.Sasl.Exchange.{hi-salted}
use rust_opengauss.Password.{prepare, scram_sha_256_salt, md5}

infixl 5 ◌>>=◌
abbrev ◌>>=◌ : {A B : Type 0} → Option A → (A → Option B) → Option B
none >>= f = none
some a >>= f = f a

-- What follows a text.
unfoldable pub expect : (front s : Bytes) → Option Bytes
expect [] s = some s
expect (c ∷ front) [] = none
expect (c ∷ front) (b ∷ s) = let rest = expect front s in if b == c then rest else none

-- A text up to a separator, and what follows it.
unfoldable pub cut : ℕ → Bytes → Option (Bytes × Bytes)
cut sep [] = none
cut sep (c ∷ s) =
    let rest = cut sep s in
    if c == sep then some ([], s) else elim rest [ none ↦ none | some (a, b) ↦ some (c ∷ a, b) ]

cut-append :
    (sep : ℕ) (s rest : Bytes)
    → All (λ c. (c == sep) ≡ false) s
    → (sep == sep) ≡ true
    → cut sep (s ++ (sep ∷ rest)) ≡ some (s, rest)
unfolding cut
cut-append sep [] rest h e = rw e refl
cut-append sep (c ∷ s) rest h e = rw (h.0, cut-append sep s rest h.1 e) refl

lacks :
    (sep : ℕ)
    → ((c : ℕ) → IsBase64 c → (c == sep) ≡ false)
    → (s : Bytes) → All IsBase64 s
    → All (λ c. (c == sep) ≡ false) s
lacks sep f [] h = tt
lacks sep f (c ∷ s) h = (f c h.0, lacks sep f s h.1)

not_dollar : (c : ℕ) → IsBase64 c → (c == b'$') ≡ false
unfolding is_base64
not_dollar c h = ground arith

not_colon : (c : ℕ) → IsBase64 c → (c == b':') ≡ false
unfolding is_base64
not_colon c h = ground arith

module _ ⦃h : Crypto⦄ where
  -- A server reads the stored text: `SCRAM-SHA-256$`, the count, `:`, the salt, `$`, the stored key,
  -- `:`, and the server's key, the last three in base64.
  unfoldable pub read_stored : Bytes → Option Stored
  read_stored text = do
    behind_name ←
        expect
          ((b'S' ∷ b'C' ∷ b'R' ∷ b'A' ∷ b'M' ∷ b'-' ∷ b'S' ∷ b'H' ∷ b'A' ∷ b'-' ∷ b'2' ∷ b'5' ∷ b'6'
            ∷ b'$' ∷ []))
          text
    count ← cut b':' behind_name
    salt_text ← cut b'$' count.1
    keys ← cut b':' salt_text.1
    salt ← h.decode_base64 salt_text.0
    stored_key ← h.decode_base64 keys.0
    server_key ← h.decode_base64 keys.1
    some (record { salt = salt; count = count.0; stored_key = stored_key; server_key = server_key })

  normalize-prepare : (password : Bytes) → prepare password ≡ normalize password
  unfolding prepare normalize
  normalize-prepare password = refl

  -- The client salts the password as the server's 4096 rounds do.
  prepare-salted :
      (password salt : Bytes)
      → hi (prepare password) salt 4096
        ≡ salted_password password salt ((b'4' ∷ b'0' ∷ b'9' ∷ b'6' ∷ []))
  prepare-salted password salt =
      ap (λ p. hi p salt 4096) (normalize-prepare password)
      ∙ unfold decimal in hi-salted password salt ((b'4' ∷ b'0' ∷ b'9' ∷ b'6' ∷ [])) (omega arith)

  -- From what a client encrypts with a salt, a server reads that salt, the count 4096 and the two
  -- keys of the password, as RFC 5802 has them.
  pub read_stored-scram_sha_256_salt :
      (password salt : Bytes)
      → IsBytes salt
      → read_stored (scram_sha_256_salt password salt)
        ≡ some (stored_for password salt ((b'4' ∷ b'0' ∷ b'9' ∷ b'6' ∷ [])))
  unfolding read_stored expect scram_sha_256_salt
  read_stored-scram_sha_256_salt password salt hs =
      let s : Stored = stored_for password salt ((b'4' ∷ b'0' ∷ b'9' ∷ b'6' ∷ [])) in
      rw (
        prepare-salted password salt,
        cut-append b':' (b'4' ∷ b'0' ∷ b'9' ∷ b'6' ∷ []) _ (refl, (refl, (refl, (refl, tt)))) refl,
        cut-append b'$' (h.encode_base64 salt)
            (h.encode_base64 s.stored_key ++ ((b':' ∷ []) ++ h.encode_base64 s.server_key))
            (lacks b'$' not_dollar _ (h.base64_alphabet salt)) refl,
        cut-append b':' (h.encode_base64 s.stored_key) (h.encode_base64 s.server_key)
            (lacks b':' not_colon _ (h.base64_alphabet s.stored_key)) refl,
        h.base64_inverse salt hs,
        h.base64_inverse s.stored_key (h.sha256_bytes _),
        h.base64_inverse s.server_key (h.hmac_bytes _ _),
      )

  -- The answer to a challenge is made from the text that the server stores, without its first three
  -- characters, and the challenge's salt.
  pub md5_hash-md5 :
      (username password salt : Bytes)
      → md5_hash username password salt
        ≡ (b'm' ∷ b'd' ∷ b'5' ∷ []) ++ lower_hex (h.md5 (drop 3 (md5 password username) ++ salt))
  unfolding md5_hash md5
  md5_hash-md5 username password salt =
      rw (drop_append 3 (b'm' ∷ b'd' ∷ b'5' ∷ []) (lower_hex (h.md5 (password ++ username))) refl)
        refl
