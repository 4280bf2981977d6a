-- ===== src/Connection/Read.antt =====
-- `Connection::poll_read` of tokio-opengauss/src/connection.rs: what the server sends, and who gets it.
use rust_opengauss.Prelude.{
  ℕ, suc, ◌+◌, Bool, Option, none, some, List, [], ◌∷◌, ◌++◌, Bytes, length, if◌then◌else◌,
}
use rust_opengauss.Outcome.{Outcome, ok, err, panicked}
use rust_opengauss.Outcome
use rust_opengauss.Crates.{Crates}
use rust_opengauss.Utf8.{Lossy, from_utf8}
use rust_opengauss.Attempt.{
  Attempt, done, failed, aborted, Fault, closed, unexpected_message, io_failed, parse_failed,
  map_err, fail_db,
}
use rust_opengauss.Attempt
use rust_opengauss.Loop.{Flow, again, leave, Run, loop}
use rust_opengauss.DbError.{DbError, parse}
use rust_opengauss.Parameters.{insert}
use rust_opengauss.Backend.Message.{
  Message, notice_response, notification_response, parameter_status, error_response,
}
use rust_opengauss.Backend.Iter.{notice_fields}
use rust_opengauss.Codec.{BackendMessages, normal, async, next}
use rust_opengauss.Connection.Parts.{
  accepting, hung_up, Connection, Poll, ready, pending, Arrival, arrived, broken, ended, active,
  terminating, closing, Response,
}

pub record Notification : Type 0 where
  pub process_id : ℕ
  pub channel : Bytes
  pub payload : Bytes

pub data AsyncMessage : Type 0 where
  notice : DbError → AsyncMessage
  notification : Notification → AsyncMessage

-- Each round of `poll_read` takes a message from the one list or the other.
unfoldable pub unread : Connection → ℕ
unread s = length s.pending_responses + length s.incoming

-- `Connection::poll_response`, its error not yet mapped
unfoldable pub poll_response : Connection → Poll Arrival × Connection
poll_response s = elim s.pending_responses [
  | m ∷ rest ↦ (ready (arrived m), record s { pending_responses = rest })
  | [] ↦ elim s.incoming [ [] ↦ (pending, s) | a ∷ rest ↦ (ready a, record s { incoming = rest }) ]
]

unfoldable pub store :
    Connection → Attempt (Bytes × Bytes) → Attempt (Flow (Option AsyncMessage)) × Connection
store s (done (name, value)) =
    (done again, record s { parameters = insert name value s.parameters })
store s (failed e) = (failed e, s)
store s aborted = (aborted, s)

-- the batch of a response whose sender answers, or is not ready
unfoldable pub offer :
    Connection
    → Response
    → List Response
    → BackendMessages
    → Bool
    → Attempt (Flow (Option AsyncMessage)) × Connection
offer s response rest messages request_complete = elim s.senders [
  | [] ↦ (
    done (leave none),
    record s {
      responses = response ∷ rest;
      pending_responses = s.pending_responses ++ (normal messages request_complete ∷ []);
    },
  )
  -- `start_send`
  | accepting ∷ more ↦ (
    done again,
    record s {
      responses = if request_complete then rest else response ∷ rest;
      senders = more;
      delivered =
          s.delivered
          ++ (record { sender = response.sender; messages = messages; answer = accepting } ∷ []);
    },
  )
  -- Nothing is sent, and the log says so by the answer.
  | hung_up ∷ more ↦ (
    done again,
    record s {
      responses = if request_complete then rest else response ∷ rest;
      senders = more;
      delivered =
          s.delivered
          ++ (record { sender = response.sender; messages = messages; answer = hung_up } ∷ []);
    },
  )
]

module _ ⦃c : Crates⦄ ⦃l : Lossy⦄ where
  -- a batch that no request waits for
  unfoldable pub unanswered : Outcome (Option Message) → Attempt (Flow (Option AsyncMessage))
  unanswered (ok (some (error_response error))) = fail_db error
  unanswered (ok m) = failed unexpected_message
  unanswered (err e) = failed (parse_failed e)
  unanswered panicked = aborted

  unfoldable pub read_normal :
      Connection → BackendMessages → Bool → Attempt (Flow (Option AsyncMessage)) × Connection
  read_normal s messages request_complete = elim s.responses [
    | [] ↦ (unanswered (next messages).0, s)
    | response ∷ rest ↦ offer s response rest messages request_complete
  ]

  unfoldable pub read_async :
      Connection → Message → Attempt (Flow (Option AsyncMessage)) × Connection
  read_async s (notice_response body) = (
    Attempt.◌>>=◌ (map_err parse_failed (parse (notice_fields body)))
        (λ e. done (leave (some (notice e)))),
    s,
  )
  read_async s (notification_response body) = (
    map_err parse_failed (
        Outcome.◌>>=◌ (from_utf8 body.channel) λ channel.
          Outcome.◌>>=◌ (from_utf8 body.message) λ payload. ok (
            leave (
              some (
                notification (record {
                  process_id = body.process_id;
                  channel = channel;
                  payload = payload;
                }))))),
    s,
  )
  read_async s (parameter_status body) = store s (
      map_err parse_failed (
        Outcome.◌>>=◌ (from_utf8 body.name)
          λ name. Outcome.◌>>=◌ (from_utf8 body.value) λ value. ok (name, value)))
  read_async s m = (aborted, s)

  unfoldable pub read_arrival :
      Connection → Arrival → Attempt (Flow (Option AsyncMessage)) × Connection
  read_arrival s (arrived (async m)) = read_async s m
  read_arrival s (arrived (normal messages request_complete)) =
      read_normal s messages request_complete
  read_arrival s (broken e) = (failed (io_failed e), s)
  read_arrival s ended = (failed closed, s)

  unfoldable pub read_polled :
      Poll Arrival × Connection → Attempt (Flow (Option AsyncMessage)) × Connection
  read_polled (ready a, s) = read_arrival s a
  read_polled (pending, s) = (done (leave none), s)

  unfoldable pub read_round : Run Connection (Flow (Option AsyncMessage))
  read_round s = read_polled (poll_response s)

  -- `Connection::poll_read`
  unfoldable pub poll_read : Run Connection (Option AsyncMessage)
  poll_read s = elim s.state [
    | active ↦ loop (suc (unread s)) read_round s
    | terminating ↦ (done none, s)
    | closing ↦ (done none, s)
  ]
