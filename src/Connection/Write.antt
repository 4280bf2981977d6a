-- ===== src/Connection/Write.antt =====
-- `Connection::poll_write` of tokio-opengauss/src/connection.rs: the requests that are sent.
use rust_opengauss.Prelude.{suc, Bool, true, false, Option, none, some, [], ◌∷◌, ◌++◌, length}
use rust_opengauss.Crates.{Crates}
use rust_opengauss.Attempt.{Attempt, done, failed, io_failed}
use rust_opengauss.Loop.{Flow, again, leave, Run, loop}
use rust_opengauss.Frontend
use rust_opengauss.Codec.Encode.{FrontendMessage, raw}
use rust_opengauss.Connection.Parts.{
  Connection, Poll, ready, pending, io_ok, io_error, item, gone, RequestMessages, single, copy_in,
  CopyInReceiver, poll_next, State, active, terminating, closing,
}

-- `Connection::poll_request`
unfoldable pub poll_request : Connection → Poll (Option RequestMessages) × Connection
poll_request s = elim s.pending_request [
  | some messages ↦ (ready (some messages), record s { pending_request = none })
  | none ↦ elim s.is_terminated [
    | true ↦ (ready none, s)
    | false ↦ elim s.requests [
      | [] ↦ (pending, s)
      | item request ∷ rest ↦ (
        ready (some request.messages),
        record s {
          requests = rest;
          responses = s.responses ++ (record { sender = request.sender } ∷ []);
        },
      )
      | gone ∷ rest ↦ (ready none, record s { requests = rest; is_terminated = true })
    ]
  ]
]

-- `start_send`
unfoldable pub start_send : FrontendMessage → Connection → Connection
start_send m s = record s { sent = s.sent ++ (m ∷ []) }

unfoldable pub after_send : State → State
after_send active = active
after_send terminating = closing
after_send closing = closing

unfoldable pub write_copy :
    Connection → Poll (Option FrontendMessage) × CopyInReceiver → Attempt (Flow Bool) × Connection
unfolding start_send
write_copy s (ready (some m), receiver) =
    (done again, record (start_send m s) { pending_request = some (copy_in receiver) })
write_copy s (ready none, receiver) = (done again, s)
write_copy s (pending, receiver) =
    (done (leave true), record s { pending_request = some (copy_in receiver) })

module _ ⦃c : Crates⦄ where
  unfoldable pub write_request : Connection → RequestMessages → Attempt (Flow Bool) × Connection
  unfolding start_send
  write_request s (single m) = (done again, record (start_send m s) { state = after_send s.state })
  write_request s (copy_in receiver) = write_copy s (poll_next receiver)

  abbrev pub terminate_message : FrontendMessage
  terminate_message = raw (Frontend.terminate []).1

  -- the requests are at their end
  unfoldable pub write_eof : Connection → Attempt (Flow Bool) × Connection
  write_eof s = elim s.responses [
    | response ∷ rest ↦ (done (leave true), s)
    | [] ↦ elim s.state [
      | active ↦ write_request (record s { state = terminating }) (single terminate_message)
      | terminating ↦ (done (leave true), s)
      | closing ↦ (done (leave true), s)
    ]
  ]

  unfoldable pub write_polled :
      Poll (Option RequestMessages) × Connection → Attempt (Flow Bool) × Connection
  write_polled (ready (some request), s) = write_request s request
  write_polled (ready none, s) = write_eof s
  write_polled (pending, s) = (done (leave true), s)

  unfoldable pub write_ready : Run Connection (Flow Bool)
  write_ready s = elim s.sink [
    | [] ↦ (done (leave false), s)
    | io_error e ∷ rest ↦ (failed (io_failed e), record s { sink = rest })
    | io_ok ∷ rest ↦ write_polled (poll_request (record s { sink = rest }))
  ]

  unfoldable pub write_round : Run Connection (Flow Bool)
  write_round s = elim s.state [
    | closing ↦ (done (leave false), s)
    | active ↦ write_ready s
    | terminating ↦ write_ready s
  ]

  -- `Connection::poll_write`; a round that goes on has had an answer of the socket
  unfoldable pub poll_write : Run Connection Bool
  poll_write s = loop (suc (length s.sink)) write_round s
