-- ===== src/Authentication/Sasl/Server.antt =====
-- The server's side of the exchange, as RFC 5802 has it: what it stores, reads, sends and checks. None
-- of it is the client's code; only the names of the channel bindings are the client's.
use rust_opengauss.Prelude.{
  ℕ, ◌+◌, ◌*◌, ◌-◌, ◌^◌, ◌≤◌, ◌<◌, ◌≡◌, ◌≢◌, Option, none, some, [], ◌∷◌, ◌++◌, Bytes, All, length,
  if◌then◌else◌,
}
use rust_opengauss.Utf8.{is_utf8}
use rust_opengauss.Bits.{xor}
use rust_opengauss.Crypto.{Crypto}
use rust_opengauss.Authentication.Sasl.{
  ChannelBinding, unrequested, unsupported, tls_server_end_point,
}
use rust_opengauss.Authentication.Sasl.Hi.{xor_all}

-- What it stores of a password.
pub record Stored : Type 0 where
  pub salt : Bytes
  -- the count of iterations in decimal
  pub count : Bytes
  pub stored_key : Bytes
  pub server_key : Bytes

-- a visible character but the comma
abbrev pub IsPrintable : ℕ → Type 0
IsPrintable c = (33 ≤ c) × (c ≤ 126) × (c ≢ 44)

abbrev pub IsDigit : ℕ → Type 0
IsDigit c = (48 ≤ c) × (c ≤ 57)

-- The number that digits stand for, behind a front of value `n`.
abbrev pub number : ℕ → Bytes → ℕ
number n [] = n
number n (c ∷ s) = number (10 * n + (c - 48)) s

-- A count is one digit or more, is not zero, and fits a `u32`.
abbrev pub IsCount : Bytes → Type 0
IsCount count =
    All IsDigit count × (0 < length count) × (0 < number 0 count) × (number 0 count < 2 ^ 32)

-- the header that tells the channel binding
abbrev pub binding_header : ChannelBinding → Bytes
binding_header unrequested = (b'y' ∷ b',' ∷ b',' ∷ [])
binding_header unsupported = (b'n' ∷ b',' ∷ b',' ∷ [])
binding_header (tls_server_end_point buf) =
    (b'p' ∷ b'=' ∷ b't' ∷ b'l' ∷ b's' ∷ b'-' ∷ b's' ∷ b'e' ∷ b'r' ∷ b'v' ∷ b'e' ∷ b'r' ∷ b'-' ∷ b'e'
      ∷ b'n' ∷ b'd' ∷ b'-' ∷ b'p' ∷ b'o' ∷ b'i' ∷ b'n' ∷ b't' ∷ b',' ∷ b',' ∷ [])

-- the header and the data of the channel itself
abbrev pub binding_input : ChannelBinding → Bytes
binding_input unrequested = (b'y' ∷ b',' ∷ b',' ∷ [])
binding_input unsupported = (b'n' ∷ b',' ∷ b',' ∷ [])
binding_input (tls_server_end_point buf) =
    (b'p' ∷ b'=' ∷ b't' ∷ b'l' ∷ b's' ∷ b'-' ∷ b's' ∷ b'e' ∷ b'r' ∷ b'v' ∷ b'e' ∷ b'r' ∷ b'-' ∷ b'e'
      ∷ b'n' ∷ b'd' ∷ b'-' ∷ b'p' ∷ b'o' ∷ b'i' ∷ b'n' ∷ b't' ∷ b',' ∷ b',' ∷ [])
    ++ buf

-- The client's first message without its header; the user is not named in it.
abbrev pub first_bare : (client_nonce : Bytes) → Bytes
first_bare client_nonce = (b'n' ∷ b'=' ∷ b',' ∷ b'r' ∷ b'=' ∷ []) ++ client_nonce

-- what an error of the preparation leaves as it is
abbrev pub or_given : Bytes → Option Bytes → Bytes
or_given password none = password
or_given password (some prepared) = prepared

module _ ⦃h : Crypto⦄ where
  -- A text is prepared, and other bytes are taken as they are.
  abbrev pub prepared_password : Bytes → Bytes
  prepared_password password =
      if is_utf8 password then or_given password (h.saslprep password) else password

  abbrev pub salted_password : (password salt count : Bytes) → Bytes
  salted_password password salt count =
      xor_all (prepared_password password) salt (number 0 count - 1)

  -- What it has stored of the password.
  abbrev pub stored_for : (password salt count : Bytes) → Stored
  stored_for password salt count = record {
    salt = salt;
    count = count;
    stored_key = h.sha256 (
        h.hmac (salted_password password salt count)
          ((b'C' ∷ b'l' ∷ b'i' ∷ b'e' ∷ b'n' ∷ b't' ∷ b' ' ∷ b'K' ∷ b'e' ∷ b'y' ∷ [])));
    server_key =
        h.hmac (salted_password password salt count)
          ((b'S' ∷ b'e' ∷ b'r' ∷ b'v' ∷ b'e' ∷ b'r' ∷ b' ' ∷ b'K' ∷ b'e' ∷ b'y' ∷ []));
  }

  -- its first message, with its own part of the nonce
  abbrev pub server_first : Stored → (client_nonce server_nonce : Bytes) → Bytes
  server_first s client_nonce server_nonce =
      (b'r' ∷ b'=' ∷ [])
      ++ ((client_nonce ++ server_nonce)
          ++ ((b',' ∷ b's' ∷ b'=' ∷ [])
              ++ (h.encode_base64 s.salt ++ ((b',' ∷ b'i' ∷ b'=' ∷ []) ++ s.count))))

  -- the client's last message up to its proof
  abbrev pub final_without_proof : ChannelBinding → (nonce : Bytes) → Bytes
  final_without_proof channel nonce =
      (b'c' ∷ b'=' ∷ [])
      ++ (h.encode_base64 (binding_input channel) ++ ((b',' ∷ b'r' ∷ b'=' ∷ []) ++ nonce))

  -- what both sides sign
  abbrev pub signed_text : ChannelBinding → Stored → (client_nonce server_nonce : Bytes) → Bytes
  signed_text channel s client_nonce server_nonce =
      first_bare client_nonce
      ++ ((b',' ∷ [])
          ++ (server_first s client_nonce server_nonce
              ++ ((b',' ∷ []) ++ final_without_proof channel (client_nonce ++ server_nonce))))

  -- The proof is good if the client's key comes out of it.
  abbrev pub Accepts : Stored → (auth_message proof : Bytes) → Type 0
  Accepts s auth_message proof =
      h.sha256 (xor proof (h.hmac s.stored_key auth_message)) ≡ s.stored_key

  -- its last message
  abbrev pub server_final : Stored → Bytes → Bytes
  server_final s auth_message =
      (b'v' ∷ b'=' ∷ []) ++ h.encode_base64 (h.hmac s.server_key auth_message)
