-- ===== src/Connection/Closing.antt =====
-- About the end of a connection: `State` of tokio-opengauss/src/connection.rs.
use rust_opengauss.Prelude.{
  suc, ◌≡◌, refl, ap, Bool, true, false, Option, none, some, List, [], ◌∷◌, ◌++◌, sym, subst, Bytes,
}
use rust_opengauss.Crates.{Crates}
use rust_opengauss.Utf8.{Lossy}
use rust_opengauss.Attempt.{Attempt, done, failed, aborted}
use rust_opengauss.Loop.{loop, advance}
use rust_opengauss.Loop.Laws.{loop-keeps}
use rust_opengauss.Backend.Message.{Message, parameter_status}
use rust_opengauss.Codec.{BackendMessage, BackendMessages, normal, async}
use rust_opengauss.Codec.Encode.{FrontendMessage}
use rust_opengauss.Connection.Parts.{
  accepting, hung_up, Connection, Poll, ready, pending, Item, item, gone, Request, RequestMessages,
  single, copy_in, CopyInReceiver, poll_next, Response, Arrival, arrived, broken, ended, SenderPoll,
  IoPoll, io_ok, io_error, State, active, terminating, closing,
}
use rust_opengauss.Connection.Read.{
  poll_response, store, offer, read_normal, read_async, read_arrival, read_polled, read_round,
  unread, poll_read,
}
use rust_opengauss.Connection.Write.{
  poll_request, start_send, after_send, write_copy, write_request, write_eof, write_polled,
  write_ready, write_round, poll_write, terminate_message,
}
use rust_opengauss.Connection.Poll.{poll_message}
use rust_opengauss.Connection.Steps.{poll_message-keeps}

-- The half of the state that reading does not touch.
record Outgoing : Type 0 where
  state : State
  is_terminated : Bool
  pending_request : Option RequestMessages
  sent : List FrontendMessage

abbrev outgoing : Connection → Outgoing
outgoing s = record {
  state = s.state;
  is_terminated = s.is_terminated;
  pending_request = s.pending_request;
  sent = s.sent;
}

abbrev Same : Outgoing → Connection → Type 0
Same o s = outgoing s ≡ o

offer-Same :
    (o : Outgoing) (s : Connection) (r : Response) (rest : List Response)
    (senders : List SenderPoll) (messages : BackendMessages) (complete : Bool)
    → Same o s
    → Same o (offer (record s { senders = senders }) r rest messages complete).1
unfolding offer
offer-Same o s r rest [] messages complete h = h
offer-Same o s r rest (accepting ∷ more) messages complete h = h
offer-Same o s r rest (hung_up ∷ more) messages complete h = h

store-Same :
    (o : Outgoing) (s : Connection) (r : Attempt (Bytes × Bytes)) → Same o s → Same o (store s r).1
unfolding store
store-Same o s (done (name, value)) h = h
store-Same o s (failed e) h = h
store-Same o s aborted h = h

module _ ⦃c : Crates⦄ ⦃l : Lossy⦄ (o : Outgoing) where
  read_normal-Same :
      (s : Connection) (rs : List Response) (messages : BackendMessages) (complete : Bool)
      → Same o s
      → Same o (read_normal (record s { responses = rs }) messages complete).1
  unfolding read_normal
  read_normal-Same s [] messages complete h = h
  read_normal-Same s (r ∷ rest) messages complete h =
      offer-Same o (record s { responses = r ∷ rest }) r rest s.senders messages complete h

  read_async-Same : (s : Connection) (m : Message) → Same o s → Same o (read_async s m).1
  unfolding read_async
  read_async-Same s (parameter_status body) h = store-Same o s _ h
  read_async-Same s m h = h

  read_arrival-Same : (s : Connection) (a : Arrival) → Same o s → Same o (read_arrival s a).1
  unfolding read_arrival
  read_arrival-Same s (arrived (async m)) h = read_async-Same s m h
  read_arrival-Same s (arrived (normal messages complete)) h =
      read_normal-Same s s.responses messages complete h
  read_arrival-Same s (broken e) h = h
  read_arrival-Same s ended h = h

  read_round-Same :
      (s : Connection) (ms : List BackendMessage) (as' : List Arrival)
      → Same o s
      → Same o (read_round (record s { pending_responses = ms; incoming = as' })).1
  unfolding read_round read_polled poll_response
  read_round-Same s [] [] h = h
  read_round-Same s [] (a ∷ as') h =
      read_arrival-Same (record s { pending_responses = []; incoming = as' }) a h
  read_round-Same s (m ∷ ms) as' h =
      read_arrival-Same (record s { pending_responses = ms; incoming = as' }) (arrived m) h

module _ ⦃c : Crates⦄ where
  -- A connection is in a stage between two polls.
  abbrev Stage : Connection → State → Type 0
  Stage s active = Unit
  Stage s terminating = ⊥
  Stage s closing =
      (s.responses ≡ [])
      × (s.is_terminated ≡ true)
      × (s.pending_request ≡ none)
      × ((before : List FrontendMessage) × (s.sent ≡ before ++ (terminate_message ∷ [])))

  -- Where it is closing, no request and no response was outstanding, no request can come, and the
  -- last message sent is the one that terminates the session.
  unfoldable pub IsOrderly : Connection → Type 0
  IsOrderly s = Stage s s.state

  poll_read-IsOrderly :
      ⦃l : Lossy⦄ (s : Connection) (state : State)
      → IsOrderly (record s { state = state })
      → IsOrderly (poll_read (record s { state = state })).1
  unfolding poll_read IsOrderly
  poll_read-IsOrderly s terminating h = absurd h
  poll_read-IsOrderly s closing h = h
  poll_read-IsOrderly s active h =
      let t = record s { state = active } in
      let e =
        loop-keeps (Same (outgoing t)) read_round
          (λ u. read_round-Same (outgoing t) u u.pending_responses u.incoming) (suc (unread t)) t
          refl in
      rw (ap (λ (o : Outgoing). o.state) e) tt

  write_copy-IsOrderly :
      (s : Connection) (p : Poll (Option FrontendMessage) × CopyInReceiver)
      → IsOrderly (write_copy (record s { state = active }) p).1
  unfolding write_copy start_send IsOrderly
  write_copy-IsOrderly s (ready (some m), receiver) = tt
  write_copy-IsOrderly s (ready none, receiver) = tt
  write_copy-IsOrderly s (pending, receiver) = tt

  write_request-IsOrderly :
      (s : Connection) (r : RequestMessages)
      → IsOrderly (write_request (record s { state = active }) r).1
  unfolding write_request start_send after_send IsOrderly
  write_request-IsOrderly s (single m) = tt
  write_request-IsOrderly s (copy_in receiver) = write_copy-IsOrderly s (poll_next receiver)

  asked :
      (s : Connection) (pr : Option RequestMessages) (b : Bool) (rq : List (Item Request))
      (rs : List Response)
      → IsOrderly
          (write_polled (
            poll_request (record s {
              state = active;
              pending_request = pr;
              is_terminated = b;
              requests = rq;
              responses = rs;
            }))).1
  unfolding poll_request write_polled write_eof write_request start_send after_send IsOrderly
  asked s (some m) b rq rs =
      write_request-IsOrderly
        (record s { pending_request = none; is_terminated = b; requests = rq; responses = rs }) m
  asked s none true rq [] = (refl, refl, refl, (s.sent, refl))
  asked s none true rq (r ∷ rs) = tt
  asked s none false [] rs = tt
  asked s none false (item r ∷ rest) rs =
      write_request-IsOrderly
        (record s {
          pending_request = none;
          is_terminated = false;
          requests = rest;
          responses = rs ++ (record { sender = r.sender } ∷ []);
        })
        r.messages
  asked s none false (gone ∷ rest) [] = (refl, refl, refl, (s.sent, refl))
  asked s none false (gone ∷ rest) (r ∷ rs) = tt

  write_round-IsOrderly :
      (s : Connection) (state : State) (sink : List IoPoll)
      → IsOrderly (record s { state = state; sink = sink })
      → IsOrderly (write_round (record s { state = state; sink = sink })).1
  unfolding write_round write_ready IsOrderly
  write_round-IsOrderly s terminating sink h = absurd h
  write_round-IsOrderly s closing sink h = h
  write_round-IsOrderly s active [] h = tt
  write_round-IsOrderly s active (io_error e ∷ rest) h = tt
  write_round-IsOrderly s active (io_ok ∷ rest) h =
      asked (record s { sink = rest }) s.pending_request s.is_terminated s.requests s.responses

  poll_write-IsOrderly : (s : Connection) → IsOrderly s → IsOrderly (poll_write s).1
  unfolding poll_write
  poll_write-IsOrderly s h =
      loop-keeps IsOrderly write_round (λ t. write_round-IsOrderly t t.state t.sink) _ s h

  -- Every poll keeps an orderly connection orderly, whatever the channels and the socket answer.
  pub poll_message-IsOrderly :
      ⦃l : Lossy⦄ (s : Connection) → IsOrderly s → IsOrderly (poll_message s).1
  unfolding IsOrderly
  poll_message-IsOrderly s h =
      poll_message-keeps IsOrderly (λ t f cl b p. p) (λ t. poll_read-IsOrderly t t.state)
        poll_write-IsOrderly s h

  abbrev Silent : List FrontendMessage → Connection → Type 0
  Silent sent s = (s.state ≡ closing) × (s.sent ≡ sent)

  poll_write-Silent : (s : Connection) → s.state ≡ closing → (poll_write s).1 ≡ s
  unfolding poll_write loop write_round advance
  poll_write-Silent s h = rw h refl

  poll_read-Silent : ⦃l : Lossy⦄ (s : Connection) → s.state ≡ closing → (poll_read s).1 ≡ s
  unfolding poll_read
  poll_read-Silent s h = rw h refl

  -- Once closing, a connection stays closing and sends nothing more.
  pub poll_message-closing :
      ⦃l : Lossy⦄ (s : Connection)
      → s.state ≡ closing
      → ((poll_message s).1.state ≡ closing) × ((poll_message s).1.sent ≡ s.sent)
  poll_message-closing s h =
      poll_message-keeps (Silent s.sent) (λ t f cl b p. p)
        (λ t p. subst (Silent s.sent) (sym (poll_read-Silent t p.0)) p)
        (λ t p. subst (Silent s.sent) (sym (poll_write-Silent t p.0)) p) s (h, refl)
