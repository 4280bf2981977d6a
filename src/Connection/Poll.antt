-- ===== src/Connection/Poll.antt =====
-- `Connection::poll_message` of tokio-opengauss/src/connection.rs, and the calls that it makes beside
-- `poll_read` and `poll_write`.
use rust_opengauss.Prelude.{Bool, true, Option, none, some, [], ◌∷◌, Bytes, if◌then◌else◌}
use rust_opengauss.Crates.{Crates}
use rust_opengauss.Utf8.{Lossy}
use rust_opengauss.Attempt.{Attempt, done, failed, aborted, io_failed}
use rust_opengauss.Loop.{Run, ◌>>=◌, ◌>>◌, pure}
use rust_opengauss.Parameters.{get}
use rust_opengauss.Connection.Parts.{
  Connection, Poll, ready, pending, io_ok, io_error, active, terminating, closing,
}
use rust_opengauss.Connection.Read.{AsyncMessage, poll_read}
use rust_opengauss.Connection.Write.{poll_write}

-- `Connection::poll_flush`
unfoldable pub poll_flush : Run Connection (Unit {0})
poll_flush s = elim s.flushes [
  | [] ↦ (done tt, s)
  | io_ok ∷ rest ↦ (done tt, record s { flushes = rest })
  | io_error e ∷ rest ↦ (failed (io_failed e), record s { flushes = rest })
]

-- `Connection::poll_shutdown`, with `Ready(Ok(()))` as the end of the messages
unfoldable pub poll_shutdown : Run Connection (Poll (Option AsyncMessage))
poll_shutdown s = elim s.state [
  | closing ↦ elim s.closes [
    | [] ↦ (done pending, s)
    | io_ok ∷ rest ↦ (done (ready none), record s { closes = rest })
    | io_error e ∷ rest ↦ (failed (io_failed e), record s { closes = rest })
  ]
  | active ↦ (done pending, s)
  | terminating ↦ (done pending, s)
]

-- `Connection::parameter`
unfoldable pub parameter : Connection → Bytes → Option Bytes
parameter s name = get name s.parameters

unfoldable pub conclude : Option AsyncMessage → Run Connection (Poll (Option AsyncMessage))
conclude (some m) = pure (ready (some m))
conclude none = poll_shutdown

unfoldable pub flush_if : Bool → Run Connection (Unit {0})
flush_if want_flush = if want_flush then poll_flush else pure tt

unfoldable pub close : Connection → Connection
close s = record s { is_closed = true }

-- A terminal answer closes the receiver.
unfoldable pub close_on_end :
    Attempt (Poll (Option AsyncMessage)) × Connection
    → Attempt (Poll (Option AsyncMessage)) × Connection
unfolding close
close_on_end (done (ready none), s) = (done (ready none), close s)
close_on_end (done (ready (some m)), s) = (done (ready (some m)), s)
close_on_end (done pending, s) = (done pending, s)
close_on_end (failed e, s) = (failed e, close s)
close_on_end (aborted, s) = (aborted, s)

module _ ⦃c : Crates⦄ ⦃l : Lossy⦄ where
  unfoldable pub poll_message_inner : Run Connection (Poll (Option AsyncMessage))
  poll_message_inner = do
    message ← poll_read
    want_flush ← poll_write
    flush_if want_flush
    conclude message

  unfoldable pub poll_message : Run Connection (Poll (Option AsyncMessage))
  poll_message s = close_on_end (poll_message_inner s)
