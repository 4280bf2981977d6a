-- ===== src/Startup.antt =====
-- tokio-opengauss/src/connect_raw.rs: a new connection's first messages. An `.await` waits for the answer, so
-- the server is what it will send, and past that it has closed the connection. The TLS layer is the
-- end point's hash that it offers for channel binding, where it has one.
pub mod Authenticate
pub mod Info
pub mod Total
pub mod First
pub mod Ready
pub mod Offers
pub mod Log
pub mod Binding
use rust_opengauss.Prelude.{
  ℕ, zero, suc, ◌+◌, Bool, true, false, Option, none, some, List, [], ◌∷◌, ◌++◌, Bytes, length,
}
use rust_opengauss.Outcome.{Outcome, ok, err, panicked, ◌>>=◌ as and_then}
use rust_opengauss.Crates.{Crates}
use rust_opengauss.Attempt.{Attempt, done, failed, aborted, io_failed, encode_failed, map_err}
use rust_opengauss.Loop.{Flow, again, leave, Run, loop, ◌>>=◌, ◌>>◌, pure}
use rust_opengauss.Write.{Writer}
use rust_opengauss.Frontend
use rust_opengauss.Backend.Message.{Message, negotiate_protocol_version}
use rust_opengauss.Codec.{BackendMessage, BackendMessages, normal, async, next}
use rust_opengauss.Codec.Encode.{FrontendMessage, raw}
use rust_opengauss.Connection.Parts.{Arrival, arrived, broken, ended, IoPoll, io_ok, io_error}

-- `config::ChannelBinding`
pub data ChannelBinding : Type 0 where
  disable prefer require : ChannelBinding

-- what `connect_raw` reads of a `Config`
pub record Config : Type 0 where
  pub user : Option Bytes
  pub password : Option Bytes
  pub dbname : Option Bytes
  pub options : Option Bytes
  pub application_name : Option Bytes
  pub channel_binding : ChannelBinding
  pub opengauss_compat : Bool

-- The socket is what comes in, and what `send` will answer, `Ok` once that list is at its end; what
-- has been sent is logged.
pub record StartupStream : Type 0 where
  pub buf : BackendMessages
  pub delayed : List BackendMessage
  pub incoming : List Arrival
  pub writes : List IoPoll
  pub tls_server_end_point : Option Bytes
  pub sent : List FrontendMessage

unfoldable pub lift {ℓ} : {A : Type ℓ} → Attempt A → Run StartupStream A
lift r s = (r, s)

-- `stream.send(…).await.map_err(Error::io)`
unfoldable pub send : FrontendMessage → Run StartupStream (Unit {0})
send m s = elim s.writes [
  | [] ↦ (done tt, record s { sent = s.sent ++ (m ∷ []) })
  | io_ok ∷ rest ↦ (done tt, record s { sent = s.sent ++ (m ∷ []); writes = rest })
  | io_error e ∷ rest ↦ (failed (io_failed e), record s { writes = rest })
]

-- a message written into a new buffer
unfoldable pub encoded : Writer (Unit {0}) → Attempt Bytes
encoded w = map_err encode_failed (and_then (w []).0 (λ u. ok (w []).1))

-- what the socket gives once the buffered batch is at its end
unfoldable pub poll_inner : Run StartupStream (Flow (Option Message))
poll_inner s = elim s.incoming [
  | [] ↦ (done (leave none), s)
  | arrived (normal messages request_complete) ∷ rest ↦
      (done again, record s { buf = messages; incoming = rest })
  | arrived (async m) ∷ rest ↦ (done (leave (some m)), record s { incoming = rest })
  | broken e ∷ rest ↦ (failed (io_failed e), record s { incoming = rest })
  | ended ∷ rest ↦ (done (leave none), record s { incoming = rest })
]

module _ ⦃c : Crates⦄ where
  unfoldable pub poll_buffered :
      StartupStream → Outcome (Option Message) → Attempt (Flow (Option Message)) × StartupStream
  poll_buffered s (ok (some m)) = (done (leave (some m)), s)
  poll_buffered s (ok none) = poll_inner s
  poll_buffered s (err e) = (failed (io_failed e), s)
  poll_buffered s panicked = (aborted, s)

  unfoldable pub poll_round : Run StartupStream (Flow (Option Message))
  poll_round s = let (r, rest) = next s.buf in poll_buffered (record s { buf = rest }) r

  -- `try_next`, with its error mapped; a round that goes on takes an arrival
  unfoldable pub try_next : Run StartupStream (Option Message)
  try_next s = loop (suc (length s.incoming)) poll_round s

  -- A bound for the messages still to come: one for each arrival and for each byte of a batch.
  unfoldable pub weight : List Arrival → ℕ
  weight [] = 0
  weight (arrived (normal messages request_complete) ∷ rest) =
      suc (length messages.buf) + weight rest
  weight (arrived (async m) ∷ rest) = suc (weight rest)
  weight (broken e ∷ rest) = suc (weight rest)
  weight (ended ∷ rest) = suc (weight rest)

  unfoldable pub backlog : StartupStream → ℕ
  backlog s = length s.buf.buf + weight s.incoming

  unfoldable pub skip_negotiation : Option Message → Flow (Option Message)
  skip_negotiation (some negotiate_protocol_version) = again
  skip_negotiation m = leave m

  unfoldable pub first_round : Run StartupStream (Flow (Option Message))
  first_round = do m ← try_next; pure (skip_negotiation m)

  -- the loop that passes over `NegotiateProtocolVersion`
  unfoldable pub first : Run StartupStream (Option Message)
  first s = loop (suc (backlog s)) first_round s

  abbrev optional : Bytes → Option Bytes → List (Bytes × Bytes)
  optional key none = []
  optional key (some value) = (key, value) ∷ []

  -- the parameters of `startup`
  unfoldable pub startup_params : Config → Bytes → List (Bytes × Bytes)
  startup_params config user =
      (
        (b'c' ∷ b'l' ∷ b'i' ∷ b'e' ∷ b'n' ∷ b't' ∷ b'_' ∷ b'e' ∷ b'n' ∷ b'c' ∷ b'o' ∷ b'd' ∷ b'i'
            ∷ b'n' ∷ b'g' ∷ []),
        (b'U' ∷ b'T' ∷ b'F' ∷ b'8' ∷ []),
      )
      ∷ ((b'u' ∷ b's' ∷ b'e' ∷ b'r' ∷ []), user)
      ∷ (optional (b'd' ∷ b'a' ∷ b't' ∷ b'a' ∷ b'b' ∷ b'a' ∷ b's' ∷ b'e' ∷ []) config.dbname
          ++ (optional (b'o' ∷ b'p' ∷ b't' ∷ b'i' ∷ b'o' ∷ b'n' ∷ b's' ∷ []) config.options
              ++ optional
                  (b'a' ∷ b'p' ∷ b'p' ∷ b'l' ∷ b'i' ∷ b'c' ∷ b'a' ∷ b't' ∷ b'i' ∷ b'o' ∷ b'n' ∷ b'_'
                    ∷ b'n' ∷ b'a' ∷ b'm' ∷ b'e' ∷ [])
                  config.application_name))

  unfoldable pub startup : Config → Bytes → Run StartupStream (Unit {0})
  startup config user = do
    buf ← lift (encoded (Frontend.startup_message (startup_params config user)))
    send (raw buf)
