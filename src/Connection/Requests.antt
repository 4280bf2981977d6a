-- ===== src/Connection/Requests.antt =====
-- About the requests that tokio-opengauss/src/connection.rs takes in beside the responses it reads.
use rust_opengauss.Prelude.{
  ℕ, ◌≡◌, refl, sym, ap, ◌∙◌, Bool, true, false, Option, none, some, List, [], ◌∷◌, ◌++◌,
  append_assoc, append-nil,
}
use rust_opengauss.Crates.{Crates}
use rust_opengauss.Utf8.{Lossy}
use rust_opengauss.Loop.Laws.{loop-keeps}
use rust_opengauss.Codec.{BackendMessages}
use rust_opengauss.Codec.Encode.{FrontendMessage}
use rust_opengauss.Connection.Parts.{
  Connection, Poll, ready, pending, Item, item, gone, Request, RequestMessages, single, copy_in,
  CopyInReceiver, poll_next, Response, IoPoll, io_ok, io_error, State, active, terminating, closing,
}
use rust_opengauss.Connection.Read.{poll_read}
use rust_opengauss.Connection.Write.{
  poll_request, start_send, write_copy, write_request, write_eof, write_polled, write_ready,
  write_round, poll_write,
}
use rust_opengauss.Connection.Poll.{poll_message}
use rust_opengauss.Connection.Order.{
  route, recipients, batches_pending, batches_incoming, account, IsSettled, poll_read-account,
}
use rust_opengauss.Connection.Steps.{poll_message-keeps}

-- Some list stands behind `a` in the account: what was to go where still goes there.
abbrev Extends : List (ℕ × BackendMessages) → Connection → Type 0
Extends a s =
    IsSettled s.pending_responses × ((rest : List (ℕ × BackendMessages)) × (account s ≡ a ++ rest))

-- A request more changes nothing for the batches that the requests before it get.
route-append :
    (rs more : List Response) (bs : List (BackendMessages × Bool))
    → (rest : List (ℕ × BackendMessages)) × (route (rs ++ more) bs ≡ route rs bs ++ rest)
unfolding route
route-append [] more bs = (route more bs, refl)
route-append (r ∷ rs) more [] = ([], refl)
route-append (r ∷ rs) more ((messages, true) ∷ bs) =
    let (rest, e) = route-append rs more bs in (rest, ap (λ t. (r.sender, messages) ∷ t) e)
route-append (r ∷ rs) more ((messages, false) ∷ bs) =
    let (rest, e) = route-append (r ∷ rs) more bs in (rest, ap (λ t. (r.sender, messages) ∷ t) e)

append_responses :
    (a : List (ℕ × BackendMessages)) (s : Connection) (more : List Response)
    → Extends a s
    → Extends a (record s { responses = s.responses ++ more })
unfolding account
append_responses a s more (settled, (rest, e)) =
    let bs = batches_pending s.pending_responses ++ batches_incoming s.incoming in
    let (new, e') = route-append s.responses more bs in
    let moved : account (record s { responses = s.responses ++ more }) ≡ a ++ (rest ++ new) =
      ap (λ t. recipients s.delivered ++ t) e'
      ∙ sym (append_assoc (recipients s.delivered) (route s.responses bs) new)
      ∙ ap (λ t. t ++ new) e
      ∙ append_assoc a rest new in
    (settled, (rest ++ new, moved))

module _ ⦃c : Crates⦄ (a : List (ℕ × BackendMessages)) where
  write_copy-Extends :
      (s : Connection) (p : Poll (Option FrontendMessage) × CopyInReceiver)
      → Extends a s
      → Extends a (write_copy s p).1
  unfolding write_copy start_send account
  write_copy-Extends s (ready (some m), receiver) h = h
  write_copy-Extends s (ready none, receiver) h = h
  write_copy-Extends s (pending, receiver) h = h

  write_request-Extends :
      (s : Connection) (r : RequestMessages) → Extends a s → Extends a (write_request s r).1
  unfolding write_request start_send account
  write_request-Extends s (single m) h = h
  write_request-Extends s (copy_in receiver) h = write_copy-Extends s (poll_next receiver) h

  write_eof-Extends :
      (s : Connection) (rs : List Response) (state : State)
      → Extends a (record s { responses = rs; state = state })
      → Extends a (write_eof (record s { responses = rs; state = state })).1
  unfolding write_eof account
  write_eof-Extends s (r ∷ rs) state h = h
  write_eof-Extends s [] active h =
      write_request-Extends (record s { responses = []; state = terminating }) (single _) h
  write_eof-Extends s [] terminating h = h
  write_eof-Extends s [] closing h = h

  write_polled-Extends :
      (p : Poll (Option RequestMessages) × Connection)
      → Extends a p.1
      → Extends a (write_polled p).1
  unfolding write_polled
  write_polled-Extends (ready (some r), s) h = write_request-Extends s r h
  write_polled-Extends (ready none, s) h = write_eof-Extends s s.responses s.state h
  write_polled-Extends (pending, s) h = h

  poll_request-Extends :
      (s : Connection) (pr : Option RequestMessages) (b : Bool) (rq : List (Item Request))
      → Extends a s
      → Extends a
          (poll_request (record s { pending_request = pr; is_terminated = b; requests = rq })).1
  unfolding poll_request account
  poll_request-Extends s (some m) b rq h = h
  poll_request-Extends s none true rq h = h
  poll_request-Extends s none false [] h = h
  poll_request-Extends s none false (item r ∷ rest) h = append_responses a s _ h
  poll_request-Extends s none false (gone ∷ rest) h = h

  write_ready-Extends :
      (s : Connection) (sink : List IoPoll)
      → Extends a s
      → Extends a (write_ready (record s { sink = sink })).1
  unfolding write_ready account
  write_ready-Extends s [] h = h
  write_ready-Extends s (io_error e ∷ rest) h = h
  write_ready-Extends s (io_ok ∷ rest) h =
      write_polled-Extends (poll_request (record s { sink = rest })) (
        poll_request-Extends (record s { sink = rest }) s.pending_request s.is_terminated s.requests
          h)

  write_round-Extends :
      (s : Connection) (state : State)
      → Extends a (record s { state = state })
      → Extends a (write_round (record s { state = state })).1
  unfolding write_round
  write_round-Extends s closing h = h
  write_round-Extends s active h = write_ready-Extends (record s { state = active }) s.sink h
  write_round-Extends s terminating h =
      write_ready-Extends (record s { state = terminating }) s.sink h

  poll_write-Extends : (s : Connection) → Extends a s → Extends a (poll_write s).1
  unfolding poll_write
  poll_write-Extends s h =
      loop-keeps (Extends a) write_round (λ t. write_round-Extends t t.state) _ s h

  poll_read-Extends : ⦃l : Lossy⦄ (s : Connection) → Extends a s → Extends a (poll_read s).1
  poll_read-Extends s (settled, (rest, e)) =
      let (settled', e') = poll_read-account s settled in (settled', (rest, e' ∙ e))

module _ ⦃c : Crates⦄ ⦃l : Lossy⦄ where
  -- A poll of the connection keeps every routing: where the queue of requests sends the batches,
  -- delivered or unread, they still go after it, and new requests only get what comes behind.
  pub poll_message-account :
      (s : Connection)
      → IsSettled s.pending_responses
      → IsSettled (poll_message s).1.pending_responses
        × ((rest : List (ℕ × BackendMessages)) × (account (poll_message s).1 ≡ account s ++ rest))
  unfolding account
  poll_message-account s h =
      poll_message-keeps (Extends (account s)) (λ t f cl b p. p) (poll_read-Extends (account s))
        (poll_write-Extends (account s)) s (h, ([], sym (append-nil (account s))))
