-- ===== src/Connection/Total.antt =====
-- About the loops of tokio-opengauss/src/connection.rs: that they end, and that its `unreachable!()` is not
-- reached.
use rust_opengauss.Prelude.{
  ℕ, ◌+◌, ◌<◌, ◌≢◌, refl, Bool, Option, some, List, [], ◌∷◌, arith, Bytes, All, length,
}
use rust_opengauss.Outcome.{Outcome, ok, err, panicked, Error, bad_utf8, ◌>>=◌}
use rust_opengauss.Outcome.Laws.{if-ne-panicked, ok-ne-panicked}
use rust_opengauss.Crates.{Crates}
use rust_opengauss.Utf8.{Lossy, is_utf8, from_utf8}
use rust_opengauss.Attempt.{
  Attempt, done, failed, aborted, Fault, classified, map_err, fail_db, parse_failed,
}
use rust_opengauss.Attempt
use rust_opengauss.Loop.{Flow, leave}
use rust_opengauss.Loop.Laws.{Falls, loop-ne-aborted}
use rust_opengauss.DbError.{DbError, parse}
use rust_opengauss.DbError.Fields.{parse-ne-panicked}
use rust_opengauss.Backend.Message.{
  Message, notice_response, notification_response, parameter_status, error_response,
}
use rust_opengauss.Backend.Iter.{error_fields, notice_fields}
use rust_opengauss.Backend.Total.{parse_with_mode-ne-panicked}
use rust_opengauss.Codec.{BackendMessage, BackendMessages, normal, async, next}
use rust_opengauss.Codec.Async.{IsKnown, KnownMessage}
use rust_opengauss.Connection.Parts.{
  accepting, hung_up, Connection, Arrival, arrived, broken, ended, Response, SenderPoll, State,
  active, terminating, closing,
}
use rust_opengauss.Connection.Read.{
  AsyncMessage, notice, poll_response, store, offer, unanswered, read_normal, read_async,
  read_arrival, read_polled, read_round, unread, poll_read,
}

abbrev pub KnownArrival : Arrival → Type 0
KnownArrival (arrived m) = KnownMessage m
KnownArrival (broken e) = Unit
KnownArrival ended = Unit

abbrev pub AllKnown : Connection → Type 0
AllKnown s = All KnownMessage s.pending_responses × All KnownArrival s.incoming

pub from_utf8-ne-panicked : (s : Bytes) → from_utf8 s ≢ panicked
unfolding from_utf8
from_utf8-ne-panicked s =
    if-ne-panicked (is_utf8 s) (ok s) (err bad_utf8) (ok-ne-panicked s) (λ q. cc)

abbrev FallsTo : ℕ → Attempt (Flow (Option AsyncMessage)) × Connection → Type 0
FallsTo = Falls AllKnown unread

notice-Falls :
    (n : ℕ) (s : Connection) (f : Error → Fault) (r : Outcome DbError)
    → r ≢ panicked
    → FallsTo n (Attempt.◌>>=◌ (map_err f r) (λ e. done (leave (some (notice e)))), s)
unfolding map_err
notice-Falls n s f (ok e) h = tt
notice-Falls n s f (err e) h = tt
notice-Falls n s f panicked h = absurd (h refl)

notification-Falls :
    (n : ℕ) (s : Connection) (f : Error → Fault) (x y : Outcome Bytes)
    (k : Bytes → Bytes → Option AsyncMessage)
    → x ≢ panicked
    → y ≢ panicked
    → FallsTo n (map_err f (x >>= λ a. y >>= λ b. ok (leave (k a b))), s)
unfolding map_err
notification-Falls n s f (ok a) (ok b) k h h' = tt
notification-Falls n s f (ok a) (err e) k h h' = tt
notification-Falls n s f (ok a) panicked k h h' = absurd (h' refl)
notification-Falls n s f (err e) y k h h' = tt
notification-Falls n s f panicked y k h h' = absurd (h refl)

store-Falls :
    (n : ℕ) (s : Connection) (f : Error → Fault) (x y : Outcome Bytes)
    → x ≢ panicked
    → y ≢ panicked
    → AllKnown s
    → unread s < n
    → FallsTo n (store s (map_err f (x >>= λ a. y >>= λ b. ok (a, b))))
unfolding map_err store unread
store-Falls n s f (ok a) (ok b) h h' known less = (known, less)
store-Falls n s f (ok a) (err e) h h' known less = tt
store-Falls n s f (ok a) panicked h h' known less = absurd (h' refl)
store-Falls n s f (err e) y h h' known less = tt
store-Falls n s f panicked y h h' known less = absurd (h refl)

offer-Falls :
    (n : ℕ) (s : Connection) (r : Response) (rest : List Response) (senders : List SenderPoll)
    (messages : BackendMessages) (complete : Bool)
    → AllKnown s
    → unread s < n
    → FallsTo n (offer (record s { senders = senders }) r rest messages complete)
unfolding offer unread
offer-Falls n s r rest [] messages complete known less = tt
offer-Falls n s r rest (accepting ∷ more) messages complete known less = (known, less)
offer-Falls n s r rest (hung_up ∷ more) messages complete known less = (known, less)

module _ ⦃c : Crates⦄ ⦃l : Lossy⦄ where
  db-Falls :
      (n : ℕ) (s : Connection) (r : Outcome DbError) → r ≢ panicked → FallsTo n (classified r, s)
  db-Falls n s (ok e) h = tt
  db-Falls n s (err e) h = tt
  db-Falls n s panicked h = absurd (h refl)

  unanswered-Falls :
      (n : ℕ) (s : Connection) (m : Outcome (Option Message))
      → m ≢ panicked
      → FallsTo n (unanswered m, s)
  unfolding unanswered fail_db
  unanswered-Falls n s (ok (some (error_response error))) h =
      db-Falls n s (parse (error_fields error)) (parse-ne-panicked (error_fields error))
  unanswered-Falls n s (ok m) h = tt
  unanswered-Falls n s (err e) h = tt
  unanswered-Falls n s panicked h = absurd (h refl)

  read_normal-Falls :
      (n : ℕ) (s : Connection) (rs : List Response) (messages : BackendMessages) (complete : Bool)
      → AllKnown s
      → unread s < n
      → FallsTo n (read_normal (record s { responses = rs }) messages complete)
  unfolding read_normal next unread
  read_normal-Falls n s [] messages complete known less =
      unanswered-Falls n (record s { responses = [] }) _
        (parse_with_mode-ne-panicked messages.mode messages.buf)
  read_normal-Falls n s (r ∷ rest) messages complete known less =
      offer-Falls n (record s { responses = r ∷ rest }) r rest s.senders messages complete known
        less

  read_async-Falls :
      (n : ℕ) (s : Connection) (m : Message)
      → IsKnown m
      → AllKnown s
      → unread s < n
      → FallsTo n (read_async s m)
  unfolding read_async
  read_async-Falls n s (notice_response body) k known less =
      notice-Falls n s _ (parse (notice_fields body)) (parse-ne-panicked (notice_fields body))
  read_async-Falls n s (notification_response body) k known less =
      notification-Falls n s _ (from_utf8 body.channel) (from_utf8 body.message) _
        (from_utf8-ne-panicked body.channel) (from_utf8-ne-panicked body.message)
  read_async-Falls n s (parameter_status body) k known less =
      store-Falls n s _ (from_utf8 body.name) (from_utf8 body.value)
        (from_utf8-ne-panicked body.name) (from_utf8-ne-panicked body.value) known less
  read_async-Falls n s m k known less = absurd k

  read_arrival-Falls :
      (n : ℕ) (s : Connection) (a : Arrival)
      → KnownArrival a
      → AllKnown s
      → unread s < n
      → FallsTo n (read_arrival s a)
  unfolding read_arrival
  read_arrival-Falls n s (arrived (async m)) k known less = read_async-Falls n s m k known less
  read_arrival-Falls n s (arrived (normal messages complete)) k known less =
      read_normal-Falls n s s.responses messages complete known less
  read_arrival-Falls n s (broken e) k known less = tt
  read_arrival-Falls n s ended k known less = tt

  read_round-Falls :
      (s : Connection) (ms : List BackendMessage) (as' : List Arrival)
      → AllKnown (record s { pending_responses = ms; incoming = as' })
      → FallsTo
          (length ms + length as')
          (read_round (record s { pending_responses = ms; incoming = as' }))
  unfolding read_round read_polled poll_response unread
  read_round-Falls s [] [] known = tt
  read_round-Falls s [] (a ∷ as') known =
      read_arrival-Falls _ (record s { pending_responses = []; incoming = as' }) a known.1.0
        (known.0, known.1.1) (omega arith)
  read_round-Falls s (m ∷ ms) as' known =
      read_arrival-Falls _ (record s { pending_responses = ms; incoming = as' }) (arrived m)
        known.0.0 (known.0.1, known.1) (omega arith)

  poll_read-ends :
      (s : Connection) (state : State)
      → AllKnown s
      → (poll_read (record s { state = state })).0 ≢ aborted
  unfolding poll_read unread
  poll_read-ends s active known =
      loop-ne-aborted AllKnown unread read_round
        (λ t. read_round-Falls t t.pending_responses t.incoming) _ (record s { state = active })
        known (omega arith)
  poll_read-ends s terminating known = λ q. cc
  poll_read-ends s closing known = λ q. cc

  -- Reading comes to an end without a panic, on all messages that the codec can hand out.
  pub poll_read-ne-aborted : (s : Connection) → AllKnown s → (poll_read s).0 ≢ aborted
  poll_read-ne-aborted s known = poll_read-ends s s.state known
