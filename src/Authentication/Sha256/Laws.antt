-- ===== src/Authentication/Sha256/Laws.antt =====
-- About the answers of opengauss-protocol/src/authentication/sha256.rs, as a server checks them.
use rust_opengauss.Prelude.{
  ℕ, ◌^◌, ◌<◌, ◌≤◌, ◌⊎◌, inl, inr, ◌≡◌, refl, sym, ap, ◌∙◌, some, [], ◌∷◌, arith, Bytes, IsBytes,
  All, length,
}
use rust_opengauss.Outcome.{ok}
use rust_opengauss.Utf8.{from_utf8}
use rust_opengauss.Utf8.Ascii.{IsAscii, ascii-is_utf8}
use rust_opengauss.Bits.{xor, xor-twice, xor_comm, length-xor, xor-IsBytes}
use rust_opengauss.Hex.{lower_hex, encode_byte}
use rust_opengauss.Hex.Laws.{
  IsHexDigit, lower_hex-IsHexDigit, length-lower_hex, read_hex, read_hex-lower_hex,
}
use rust_opengauss.Crypto.{Crypto}
use rust_opengauss.Authentication.Sha256.{
  iterations_of, check_lengths, hex_encode, hex_decode, rfc5802_algorithm, sm3_algorithm,
}

pub hex_encode-lower_hex : (s : Bytes) → hex_encode s ≡ lower_hex s
unfolding hex_encode lower_hex encode_byte
hex_encode-lower_hex [] = refl
hex_encode-lower_hex (b ∷ s) = rw (hex_encode-lower_hex s)

digit-IsAscii : (c : ℕ) → IsHexDigit c → IsAscii c
digit-IsAscii c h = ground arith

pub All-IsAscii : (s : Bytes) → All IsHexDigit s → All IsAscii s
All-IsAscii [] h = tt
All-IsAscii (c ∷ s) h = (digit-IsAscii c h.0, All-IsAscii s h.1)

module _ ⦃h : Crypto⦄ where
  pub hex_decode-lower_hex : (s : Bytes) → IsBytes s → hex_decode (lower_hex s) ≡ ok s
  unfolding hex_decode from_utf8
  hex_decode-lower_hex s b = rw (
    ascii-is_utf8 (lower_hex s) (All-IsAscii (lower_hex s) (lower_hex-IsHexDigit s)),
    h.hex_inverse s b,
  )

  -- What the server has stored of the password for logins with `count` iterations.
  abbrev pub client_key_of : (password salt : Bytes) → (count : ℕ) → Bytes
  client_key_of password salt count =
      h.hmac (h.pbkdf2_sha1 password salt count 32)
        ((b'C' ∷ b'l' ∷ b'i' ∷ b'e' ∷ b'n' ∷ b't' ∷ b' ' ∷ b'K' ∷ b'e' ∷ b'y' ∷ []))

  abbrev pub stored_key_of : (password salt : Bytes) → (count : ℕ) → Bytes
  stored_key_of password salt count = h.sha256 (client_key_of password salt count)

  -- The count of iterations that an `i32` of the server asks for: itself if it is positive, and
  -- 10000 if it is zero or negative.
  abbrev pub AsksFor : (server_iteration count : ℕ) → Type 0
  AsksFor server_iteration count =
      ((0 < server_iteration) × (server_iteration < 2 ^ 31) × (count ≡ server_iteration))
      ⊎ (((server_iteration ≡ 0) ⊎ (2 ^ 31 ≤ server_iteration)) × (count ≡ 10000))

  iterations_of-AsksFor :
      (server_iteration count : ℕ)
      → AsksFor server_iteration count
      → iterations_of server_iteration ≡ count
  unfolding iterations_of
  iterations_of-AsksFor s count (inl h) = ground (arith, h.0, h.1, h.2)
  iterations_of-AsksFor s count (inr (inl z, e)) = ground (arith, z, e)
  iterations_of-AsksFor s count (inr (inr n, e)) = ground (arith, n, e)

  -- The server's check of an answer: the client's key comes out of it, and has the stored hash.
  abbrev pub Proves : (stored_key token answer : Bytes) → Type 0
  Proves stored_key token answer =
      (proof : Bytes) × (read_hex answer ≡ some proof)
      × (h.sha256 (xor proof (h.hmac stored_key token)) ≡ stored_key)

  lengths_ok :
      (salt token : Bytes) → length salt ≡ 32 → length token ≡ 4 → check_lengths salt token ≡ ok tt
  unfolding check_lengths
  lengths_ok salt token hs ht = rw (hs, ht)

  swap_length : (k s l t : Bytes) → length (h.hmac k s) ≡ length (h.hmac l t)
  swap_length k s l t = h.hmac_length k s ∙ sym (h.hmac_length l t)

  -- The answer to a salt of 32 bytes, a token of 4, both in hexadecimal, and an `i32` that asks for
  -- a count of iterations, is a text of 64 characters, and the server that has stored the password
  -- for that count accepts it; a zero or negative `i32` asks for 10000.
  pub rfc5802-accepted :
      (password salt token : Bytes) (server_iteration count : ℕ)
      → IsBytes salt × (length salt ≡ 32)
      → IsBytes token × (length token ≡ 4)
      → AsksFor server_iteration count
      → (answer : Bytes) × (rfc5802_algorithm password
            (lower_hex salt)
            (lower_hex token)
            server_iteration
          ≡ ok answer)
        × (length answer ≡ 64)
        × Proves (stored_key_of password salt count) token answer
  rfc5802-accepted password salt token server_iteration count hs ht asks =
      let ck : Bytes = client_key_of password salt count in
      let sk : Bytes = h.sha256 ck in
      let result : Bytes = h.hmac sk token in
      let same : length result ≡ length ck =
        swap_length sk token _
          ((b'C' ∷ b'l' ∷ b'i' ∷ b'e' ∷ b'n' ∷ b't' ∷ b' ' ∷ b'K' ∷ b'e' ∷ b'y' ∷ [])) in
      let proof : Bytes = xor result ck in
      let back : xor proof result ≡ ck = rw (xor_comm result ck) (
        xor-twice ck result
          (h.hmac_bytes _
            ((b'C' ∷ b'l' ∷ b'i' ∷ b'e' ∷ b'n' ∷ b't' ∷ b' ' ∷ b'K' ∷ b'e' ∷ b'y' ∷ [])))
          (sym same)) in
      (
        hex_encode proof,
        unfold rfc5802_algorithm in
            rw (
              hex_decode-lower_hex salt hs.0,
              hex_decode-lower_hex token ht.0,
              lengths_ok salt token hs.1 ht.1,
              iterations_of-AsksFor server_iteration count asks,
            ),
        rw (
          hex_encode-lower_hex proof,
          length-lower_hex proof,
          length-xor result ck same,
          h.hmac_length sk token,
        ),
        (
          proof,
          rw (hex_encode-lower_hex proof) (read_hex-lower_hex proof (xor-IsBytes result ck)),
          ap h.sha256 back,
        ),
      )

  -- The answer to the SM3 request is the one to the SHA256 request, on every input and with the
  -- same errors.
  pub sm3-rfc5802 :
      (password random64code token : Bytes) (server_iteration : ℕ)
      → sm3_algorithm password random64code token server_iteration
        ≡ rfc5802_algorithm password random64code token server_iteration
  unfolding sm3_algorithm rfc5802_algorithm
  sm3-rfc5802 password random64code token server_iteration = refl
