-- ===== src/Connection/Written.antt =====
-- About the loop of `poll_write` (tokio-opengauss/src/connection.rs): that it ends.
use rust_opengauss.Prelude.{
  ℕ, ◌<◌, ◌≢◌, Bool, true, false, Option, none, some, List, [], ◌∷◌, arith, length,
}
use rust_opengauss.Crates.{Crates}
use rust_opengauss.Attempt.{Attempt, aborted}
use rust_opengauss.Loop.{Flow}
use rust_opengauss.Loop.Laws.{Falls, loop-ne-aborted}
use rust_opengauss.Codec.Encode.{FrontendMessage}
use rust_opengauss.Connection.Parts.{
  Connection, Poll, ready, pending, Item, item, gone, Request, RequestMessages, single, copy_in,
  CopyInReceiver, poll_next, Response, IoPoll, io_ok, io_error, State, active, terminating, closing,
}
use rust_opengauss.Connection.Write.{
  poll_request, start_send, write_copy, write_request, write_eof, write_polled, write_ready,
  write_round, poll_write,
}

abbrev Any : Connection → Type 0
Any s = Unit

abbrev answers : Connection → ℕ
answers s = length s.sink

module _ ⦃c : Crates⦄ (n : ℕ) where
  abbrev FallsTo : Attempt (Flow Bool) × Connection → Type 0
  FallsTo = Falls Any answers n

  copy-Falls :
      (s : Connection) (p : Poll (Option FrontendMessage) × CopyInReceiver)
      → answers s < n
      → FallsTo (write_copy s p)
  unfolding write_copy start_send
  copy-Falls s (ready (some m), r) h = (tt, h)
  copy-Falls s (ready none, r) h = (tt, h)
  copy-Falls s (pending, r) h = tt

  request-Falls :
      (s : Connection) (r : RequestMessages) → answers s < n → FallsTo (write_request s r)
  unfolding write_request start_send
  request-Falls s (single m) h = (tt, h)
  request-Falls s (copy_in r) h = copy-Falls s (poll_next r) h

  eof-Falls :
      (s : Connection) (rs : List Response) (state : State)
      → answers s < n
      → FallsTo (write_eof (record s { responses = rs; state = state }))
  unfolding write_eof
  eof-Falls s (r ∷ rs) state h = tt
  eof-Falls s [] active h =
      request-Falls (record s { responses = []; state = terminating }) (single _) h
  eof-Falls s [] terminating h = tt
  eof-Falls s [] closing h = tt

  polled-Falls :
      (p : Poll (Option RequestMessages) × Connection) → answers p.1 < n → FallsTo (write_polled p)
  unfolding write_polled
  polled-Falls (ready (some r), s) h = request-Falls s r h
  polled-Falls (ready none, s) h = eof-Falls s s.responses s.state h
  polled-Falls (pending, s) h = tt

  asked_answers :
      (s : Connection) (pr : Option RequestMessages) (b : Bool) (rq : List (Item Request))
      → answers s < n
      → answers
          (poll_request (record s { pending_request = pr; is_terminated = b; requests = rq })).1
        < n
  unfolding poll_request
  asked_answers s (some m) b rq h = h
  asked_answers s none true rq h = h
  asked_answers s none false [] h = h
  asked_answers s none false (item r ∷ rest) h = h
  asked_answers s none false (gone ∷ rest) h = h

module _ ⦃c : Crates⦄ where
  ready-Falls :
      (s : Connection) (sink : List IoPoll)
      → Falls Any answers (length sink) (write_ready (record s { sink = sink }))
  unfolding write_ready
  ready-Falls s [] = tt
  ready-Falls s (io_error e ∷ rest) = tt
  ready-Falls s (io_ok ∷ rest) = polled-Falls _ (poll_request (record s { sink = rest })) (
      asked_answers _ (record s { sink = rest }) s.pending_request s.is_terminated s.requests
        (omega arith))

  round-Falls :
      (s : Connection) (state : State)
      → Falls Any answers (answers s) (write_round (record s { state = state }))
  unfolding write_round
  round-Falls s closing = tt
  round-Falls s active = ready-Falls (record s { state = active }) s.sink
  round-Falls s terminating = ready-Falls (record s { state = terminating }) s.sink

  -- Writing comes to an end, whatever the channels and the socket answer.
  pub poll_write-ne-aborted : (s : Connection) → (poll_write s).0 ≢ aborted
  unfolding poll_write
  poll_write-ne-aborted s =
      loop-ne-aborted Any answers write_round (λ t u. round-Falls t t.state) _ s tt (omega arith)
