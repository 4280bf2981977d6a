-- ===== src/Authentication/Sasl.antt =====
-- opengauss-protocol/src/authentication/sasl.rs: the client's side of SCRAM-SHA-256. A text is its
-- UTF-8 bytes. The nonce that `ScramSha256::new` draws is an argument, `new_inner`'s.
pub mod Parser
pub mod Hi
pub mod Server
pub mod Exchange
pub mod Sound
use rust_opengauss.Prelude.{
  ℕ, zero, suc, ◌+◌, ◌-◌, Bool, true, false, ◌&&◌, Option, none, some, [], ◌∷◌, ◌++◌, Bytes, length,
  ◌==◌, if◌then◌else◌,
}
use rust_opengauss.Outcome.{Outcome, ok, err, panicked, Error, invalid_input, other}
use rust_opengauss.Utf8.{is_utf8, from_utf8}
use rust_opengauss.Bits.{xor}
use rust_opengauss.Crypto.{Crypto}
use Parser.{
  ServerFirstMessage, ServerFinalMessage, error, verifier, server_first_message,
  server_final_message,
}

abbrev pub scram_sha_256 : Bytes
scram_sha_256 =
    (b'S' ∷ b'C' ∷ b'R' ∷ b'A' ∷ b'M' ∷ b'-' ∷ b'S' ∷ b'H' ∷ b'A' ∷ b'-' ∷ b'2' ∷ b'5' ∷ b'6' ∷ [])

abbrev pub scram_sha_256_plus : Bytes
scram_sha_256_plus =
    (b'S' ∷ b'C' ∷ b'R' ∷ b'A' ∷ b'M' ∷ b'-' ∷ b'S' ∷ b'H' ∷ b'A' ∷ b'-' ∷ b'2' ∷ b'5' ∷ b'6' ∷ b'-'
      ∷ b'P' ∷ b'L' ∷ b'U' ∷ b'S' ∷ [])

-- `ChannelBindingInner`
pub data ChannelBinding : Type 0 where
  unrequested unsupported : ChannelBinding
  tls_server_end_point : Bytes → ChannelBinding

unfoldable pub gs2_header : ChannelBinding → Bytes
gs2_header unrequested = (b'y' ∷ b',' ∷ b',' ∷ [])
gs2_header unsupported = (b'n' ∷ b',' ∷ b',' ∷ [])
gs2_header (tls_server_end_point buf) =
    (b'p' ∷ b'=' ∷ b't' ∷ b'l' ∷ b's' ∷ b'-' ∷ b's' ∷ b'e' ∷ b'r' ∷ b'v' ∷ b'e' ∷ b'r' ∷ b'-' ∷ b'e'
      ∷ b'n' ∷ b'd' ∷ b'-' ∷ b'p' ∷ b'o' ∷ b'i' ∷ b'n' ∷ b't' ∷ b',' ∷ b',' ∷ [])

unfoldable pub cbind_data : ChannelBinding → Bytes
cbind_data unrequested = []
cbind_data unsupported = []
cbind_data (tls_server_end_point buf) = buf

pub data State : Type 0 where
  update_ : (nonce password : Bytes) → ChannelBinding → State
  finish_ : (salted_password auth_message : Bytes) → State
  done : State

pub record ScramSha256 : Type 0 where
  pub message : Bytes
  pub state : State

-- `str::starts_with`
unfoldable pub starts_with : Bytes → Bytes → Bool
starts_with [] s = true
starts_with (p ∷ prefix) [] = false
starts_with (p ∷ prefix) (b ∷ s) = p == b && starts_with prefix s

-- `ScramSha256::message`, which panics once the exchange is over
unfoldable pub message : ScramSha256 → Outcome Bytes
message s = elim s.state [
  | update_ nonce password channel_binding ↦ ok s.message
  | finish_ salted_password auth_message ↦ ok s.message
  | done ↦ panicked
]

module _ ⦃h : Crypto⦄ where
  abbrev pub prepared : Bytes → Option Bytes → Bytes
  prepared pass none = pass
  prepared pass (some p) = p

  unfoldable pub normalize : Bytes → Bytes
  normalize pass = if is_utf8 pass then prepared pass (h.saslprep pass) else pass

  -- the loop of `hi`, of so many rounds
  unfoldable pub hi_loop : Bytes → ℕ → (prev hi : Bytes) → Bytes
  hi_loop str zero prev hi = hi
  hi_loop str (suc n) prev hi = let next = h.hmac str prev in hi_loop str n next (xor hi next)

  unfoldable pub hi : (str salt : Bytes) → ℕ → Bytes
  hi str salt i =
      let first = h.hmac str (salt ++ (0 ∷ 0 ∷ 0 ∷ 1 ∷ [])) in hi_loop str (i - 1) first first

  unfoldable pub new_inner : Bytes → ChannelBinding → Bytes → ScramSha256
  new_inner password channel_binding nonce = record {
    message = gs2_header channel_binding ++ ((b'n' ∷ b'=' ∷ b',' ∷ b'r' ∷ b'=' ∷ []) ++ nonce);
    state = update_ nonce (normalize password) channel_binding;
  }

  -- the client's last message without its proof
  unfoldable pub without_proof : ChannelBinding → Bytes → Bytes
  without_proof channel_binding nonce =
      (b'c' ∷ b'=' ∷ [])
      ++ (h.encode_base64 (gs2_header channel_binding ++ cbind_data channel_binding)
          ++ ((b',' ∷ b'r' ∷ b'=' ∷ []) ++ nonce))

  unfoldable pub auth_message_of : (client_nonce server_first without : Bytes) → Bytes
  auth_message_of client_nonce server_first without =
      (b'n' ∷ b'=' ∷ b',' ∷ b'r' ∷ b'=' ∷ [])
      ++ (client_nonce ++ ((b',' ∷ []) ++ (server_first ++ ((b',' ∷ []) ++ without))))

  -- from the salted password on
  unfoldable pub prove : (salted_password auth_message without : Bytes) → ScramSha256
  prove salted_password auth_message without =
      let client_key =
        h.hmac salted_password
          (b'C' ∷ b'l' ∷ b'i' ∷ b'e' ∷ b'n' ∷ b't' ∷ b' ' ∷ b'K' ∷ b'e' ∷ b'y' ∷ []) in
      let stored_key = h.sha256 client_key in
      let client_signature = h.hmac stored_key auth_message in
      record {
        message =
            without
            ++ ((b',' ∷ b'p' ∷ b'=' ∷ []) ++ h.encode_base64 (xor client_key client_signature));
        state = finish_ salted_password auth_message;
      }

  -- A failed call leaves the state `done`, and the message as it was.
  abbrev failed : ScramSha256 → Error → Outcome (Unit {0}) × ScramSha256
  failed s e = (err e, record { message = s.message; state = done })

  -- what `STANDARD.decode` has given for the salt
  unfoldable pub update_salted :
      ScramSha256
      → (client_nonce password : Bytes) → ChannelBinding
      → Bytes
      → ServerFirstMessage
      → Option Bytes
      → Outcome (Unit {0}) × ScramSha256
  update_salted s client_nonce password cb text parsed none =
      failed s (invalid_input "invalid base64")
  update_salted s client_nonce password cb text parsed (some salt) =
      let without = without_proof cb parsed.nonce in
      (
        ok tt,
        prove (hi password salt parsed.iteration_count) (auth_message_of client_nonce text without)
            without,
      )

  unfoldable pub update_parsed :
      ScramSha256
      → (client_nonce password : Bytes) → ChannelBinding
      → Bytes
      → Outcome ServerFirstMessage
      → Outcome (Unit {0}) × ScramSha256
  update_parsed s client_nonce password cb text (err e) = failed s e
  update_parsed s client_nonce password cb text panicked =
      (panicked, record { message = s.message; state = done })
  update_parsed s client_nonce password cb text (ok parsed) =
      if starts_with client_nonce parsed.nonce
      then update_salted s client_nonce password cb text parsed (h.decode_base64 parsed.salt)
      else failed s (invalid_input "invalid nonce")

  unfoldable pub update : ScramSha256 → Bytes → Outcome (Unit {0}) × ScramSha256
  update s text = elim s.state [
    | update_ client_nonce password cb ↦
        if is_utf8 text
        then update_parsed s client_nonce password cb text (server_first_message text)
        else failed s (invalid_input "invalid utf-8")
    | finish_ salted_password auth_message ↦ failed s (other "invalid SCRAM state")
    | done ↦ failed s (other "invalid SCRAM state")
  ]

  -- the check of the verifier
  unfoldable pub verify : (salted_password auth_message : Bytes) → Option Bytes → Outcome (Unit {0})
  verify salted_password auth_message none = err (invalid_input "invalid base64")
  verify salted_password auth_message (some tag) =
      let server_key =
        h.hmac salted_password
          (b'S' ∷ b'e' ∷ b'r' ∷ b'v' ∷ b'e' ∷ b'r' ∷ b' ' ∷ b'K' ∷ b'e' ∷ b'y' ∷ []) in
      if h.verify_hmac server_key auth_message tag
      then ok tt
      else err (invalid_input "SCRAM verification error")

  unfoldable pub finish_parsed :
      (salted_password auth_message : Bytes) → Outcome ServerFinalMessage → Outcome (Unit {0})
  finish_parsed salted_password auth_message (err e) = err e
  finish_parsed salted_password auth_message panicked = panicked
  finish_parsed salted_password auth_message (ok (error e)) = err (other "SCRAM error")
  finish_parsed salted_password auth_message (ok (verifier v)) =
      verify salted_password auth_message (h.decode_base64 v)

  unfoldable pub finish : ScramSha256 → Bytes → Outcome (Unit {0}) × ScramSha256
  finish s text = elim s.state [
    | update_ client_nonce password cb ↦ failed s (other "invalid SCRAM state")
    | finish_ salted_password auth_message ↦ (
      (if is_utf8 text
          then finish_parsed salted_password auth_message (server_final_message text)
          else err (invalid_input "invalid utf-8")),
      record { message = s.message; state = done },
    )
    | done ↦ failed s (other "invalid SCRAM state")
  ]
