-- ===== src/Connection/Trace.antt =====
-- About a whole life of a connection of tokio-opengauss/src/connection.rs: `Connection::new`, then polls, and
-- between them whatever the channels and the socket will answer next.
use rust_opengauss.Prelude.{◌≡◌, refl, ap, ◌∙◌, false, Option, none, some, List, [], ◌∷◌, Bytes}
use rust_opengauss.Crates.{Crates}
use rust_opengauss.Utf8.{Lossy}
use rust_opengauss.Backend.Message.{Message}
use rust_opengauss.Codec.{BackendMessage, async}
use rust_opengauss.Connection.Parts.{
  Connection, Arrival, IoPoll, Item, Request, SenderPoll, CopyInMessage, RequestMessages, single,
  copy_in, State, active, terminating, closing,
}
use rust_opengauss.Connection.Poll.{poll_message}
use rust_opengauss.Connection.Order.{IsSettled}
use rust_opengauss.Connection.Requests.{poll_message-account}
use rust_opengauss.Connection.Closing.{IsOrderly, poll_message-IsOrderly, poll_message-closing}

-- `Connection::new`
unfoldable pub new : List BackendMessage → List (Bytes × Bytes) → Connection
new pending_responses parameters = record {
  parameters = parameters;
  pending_request = none;
  pending_responses = pending_responses;
  responses = [];
  state = active;
  requests = [];
  is_terminated = false;
  is_closed = false;
  incoming = [];
  sink = [];
  flushes = [];
  closes = [];
  senders = [];
  sent = [];
  delivered = [];
}

-- What can be read from a copy's channel is what its other end will have sent.
unfoldable pub feed : List (Item CopyInMessage) → Option RequestMessages → Option RequestMessages
feed items none = none
feed items (some (single m)) = some (single m)
feed items (some (copy_in r)) = some (copy_in (record r { receiver = items }))

-- The same connection before new answers.
abbrev pub facing :
    Connection
    → List Arrival
    → List (Item Request)
    → List SenderPoll
    → (sink flushes closes : List IoPoll) → List (Item CopyInMessage)
    → Connection
facing s incoming requests senders sink flushes closes copies = record s {
  incoming = incoming;
  requests = requests;
  senders = senders;
  sink = sink;
  flushes = flushes;
  closes = closes;
  pending_request = feed copies s.pending_request;
}

pub data Step ⦃c : Crates⦄ ⦃l : Lossy⦄ : Connection → Connection → Type 0 where
  polled : (s : Connection) → Step s (poll_message s).1
  world :
      (s : Connection) (incoming : List Arrival) (requests : List (Item Request))
      (senders : List SenderPoll) (sink flushes closes : List IoPoll)
      (copies : List (Item CopyInMessage))
      → Step s (facing s incoming requests senders sink flushes closes copies)

pub data Reach ⦃c : Crates⦄ ⦃l : Lossy⦄ (s : Connection) : Connection → Type 0 where
  here : Reach s s
  later : {t u : Connection} → Reach s t → Step t u → Reach s u

module _ ⦃c : Crates⦄ where
  facing-IsOrderly :
      (s : Connection) (state : State) (incoming : List Arrival) (requests : List (Item Request))
      (senders : List SenderPoll) (sink flushes closes : List IoPoll)
      (copies : List (Item CopyInMessage))
      → IsOrderly (record s { state = state })
      → IsOrderly
          (facing (record s { state = state }) incoming requests senders sink flushes closes copies)
  unfolding IsOrderly feed
  facing-IsOrderly s active incoming requests senders sink flushes closes copies h = tt
  facing-IsOrderly s terminating incoming requests senders sink flushes closes copies h = h
  facing-IsOrderly s closing incoming requests senders sink flushes closes copies
        (rs, done, pr, sent) =
      (rs, done, ap (feed copies) pr, sent)

module _ ⦃c : Crates⦄ ⦃l : Lossy⦄ where
  abbrev pub IsSound : Connection → Type 0
  IsSound s = IsOrderly s × IsSettled s.pending_responses

  Step-IsSound : {s t : Connection} → Step s t → IsSound s → IsSound t
  Step-IsSound (polled s) h = (poll_message-IsOrderly s h.0, (poll_message-account s h.1).0)
  Step-IsSound (world s incoming requests senders sink flushes closes copies) h =
      (facing-IsOrderly s s.state incoming requests senders sink flushes closes copies h.0, h.1)

  Reach-IsSound : {s t : Connection} → IsSound s → Reach s t → IsSound t
  Reach-IsSound h here = h
  Reach-IsSound h (later r p) = Step-IsSound p (Reach-IsSound h r)

  -- the messages that `connect_raw` has put aside
  abbrev pub asyncs : List Message → List BackendMessage
  asyncs [] = []
  asyncs (m ∷ ms) = async m ∷ asyncs ms

  asyncs-IsSettled : (ms : List Message) → IsSettled (asyncs ms)
  unfolding IsSettled
  asyncs-IsSettled [] = tt
  asyncs-IsSettled (m ∷ ms) = asyncs-IsSettled ms

  -- Whatever the channels and the socket answer over its life, a new connection stays in order: it
  -- is never left half terminated; once closing, no request waits or can come, no response is
  -- outstanding, and the last message sent terminates the session; and a batch that waits for its
  -- sender has no other message behind it.
  pub new-IsSound :
      (delayed : List Message) (parameters : List (Bytes × Bytes)) (t : Connection)
      → Reach (new (asyncs delayed) parameters) t
      → IsOrderly t × IsSettled t.pending_responses
  unfolding new IsOrderly
  new-IsSound delayed parameters t r = Reach-IsSound (tt, asyncs-IsSettled delayed) r

  -- Nothing is sent any more from the poll on that has sent the end of the session.
  pub Reach-closing :
      {s t : Connection} → Reach s t → s.state ≡ closing → (t.state ≡ closing) × (t.sent ≡ s.sent)
  Reach-closing here h = (h, refl)
  Reach-closing (later r (polled t)) h =
      let (state, sent) = Reach-closing r h in
      let (state', sent') = poll_message-closing t state in (state', sent' ∙ sent)
  Reach-closing (later r (world t incoming requests senders sink flushes closes copies)) h =
      Reach-closing r h
