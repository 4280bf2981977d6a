-- ===== src/Connection/Order.antt =====
-- About the order of responses in tokio-opengauss/src/connection.rs: which request a batch of the
-- server goes to.
use rust_opengauss.Prelude.{ℕ, ◌≡◌, refl, ap, ◌∙◌, Bool, List, [], ◌∷◌, ◌++◌, if◌then◌else◌}
use rust_opengauss.Crates.{Crates}
use rust_opengauss.Utf8.{Lossy}
use rust_opengauss.Attempt.{Attempt, done, failed, aborted}
use rust_opengauss.Loop.Laws.{loop-keeps}
use rust_opengauss.Backend.Message.{Message, parameter_status}
use rust_opengauss.Codec.{BackendMessage, BackendMessages, normal, async}
use rust_opengauss.Connection.Parts.{
  accepting, hung_up, Connection, Response, Delivery, Arrival, arrived, broken, ended, SenderPoll,
  State, active, terminating, closing,
}
use rust_opengauss.Connection.Read.{
  poll_response, store, offer, read_normal, read_async, read_arrival, read_polled, read_round,
  poll_read,
}

-- The server answers the requests in their order: a batch belongs to the first request that waits,
-- and a batch that completes the request is its last.
unfoldable pub route : List Response → List (BackendMessages × Bool) → List (ℕ × BackendMessages)
route [] bs = []
route (r ∷ rs) [] = []
route (r ∷ rs) ((messages, request_complete) ∷ bs) =
    (r.sender, messages) ∷ route (if request_complete then rs else r ∷ rs) bs

unfoldable pub batches_pending : List BackendMessage → List (BackendMessages × Bool)
batches_pending [] = []
batches_pending (normal messages complete ∷ ms) = (messages, complete) ∷ batches_pending ms
batches_pending (async m ∷ ms) = batches_pending ms

unfoldable pub batches_incoming : List Arrival → List (BackendMessages × Bool)
batches_incoming [] = []
batches_incoming (arrived (normal messages complete) ∷ ms) =
    (messages, complete) ∷ batches_incoming ms
batches_incoming (arrived (async m) ∷ ms) = batches_incoming ms
batches_incoming (broken e ∷ ms) = batches_incoming ms
batches_incoming (ended ∷ ms) = batches_incoming ms

unfoldable pub recipients : List Delivery → List (ℕ × BackendMessages)
recipients [] = []
recipients (d ∷ ds) = (d.sender, d.messages) ∷ recipients ds

-- Who has been given which batch, and who is to be given which of those still unread.
unfoldable pub account : Connection → List (ℕ × BackendMessages)
account s =
    recipients s.delivered
    ++ route s.responses (batches_pending s.pending_responses ++ batches_incoming s.incoming)

-- A batch that waits for its sender has no other message behind it.
unfoldable pub IsSettled : List BackendMessage → Type 0
IsSettled [] = Unit
IsSettled (async m ∷ ms) = IsSettled ms
IsSettled (normal messages complete ∷ ms) = ms ≡ []

abbrev Keeps : List (ℕ × BackendMessages) → Connection → Type 0
Keeps a s = IsSettled s.pending_responses × (account s ≡ a)

recipients-append :
    (ds : List Delivery) (d : Delivery) (rest : List (ℕ × BackendMessages))
    → recipients (ds ++ (d ∷ [])) ++ rest ≡ recipients ds ++ ((d.sender, d.messages) ∷ rest)
unfolding recipients
recipients-append [] d rest = refl
recipients-append (x ∷ ds) d rest =
    ap (λ t. (x.sender, x.messages) ∷ t) (recipients-append ds d rest)

abbrev at : Connection → List BackendMessage → List Arrival → Connection
at s ms as' = record s { pending_responses = ms; incoming = as' }

offer-Keeps :
    (a : List (ℕ × BackendMessages)) (s : Connection) (as' : List Arrival) (r : Response)
    (rest : List Response) (senders : List SenderPoll) (messages : BackendMessages)
    (complete : Bool)
    → recipients s.delivered ++ route (r ∷ rest) ((messages, complete) ∷ batches_incoming as') ≡ a
    → Keeps a (offer (record (at s [] as') { senders = senders }) r rest messages complete).1
unfolding offer IsSettled account batches_pending route
offer-Keeps a s as' r rest [] messages complete h = (refl, h)
offer-Keeps a s as' r rest (accepting ∷ more) messages complete h =
    (tt, recipients-append s.delivered _ _ ∙ h)
offer-Keeps a s as' r rest (hung_up ∷ more) messages complete h =
    (tt, recipients-append s.delivered _ _ ∙ h)

module _ ⦃c : Crates⦄ ⦃l : Lossy⦄ where
  read_normal-Keeps :
      (a : List (ℕ × BackendMessages)) (s : Connection) (as' : List Arrival) (rs : List Response)
      (messages : BackendMessages) (complete : Bool)
      → recipients s.delivered ++ route rs ((messages, complete) ∷ batches_incoming as') ≡ a
      → Keeps a (read_normal (record (at s [] as') { responses = rs }) messages complete).1
  unfolding read_normal IsSettled account batches_pending route
  read_normal-Keeps a s as' [] messages complete h = (tt, h)
  read_normal-Keeps a s as' (r ∷ rest) messages complete h =
      offer-Keeps a (record s { responses = r ∷ rest }) as' r rest s.senders messages complete h

  store-Keeps :
      (a : List (ℕ × BackendMessages)) (s : Connection) (r : Attempt _)
      → Keeps a s
      → Keeps a (store s r).1
  unfolding store account
  store-Keeps a s (done (name, value)) h = h
  store-Keeps a s (failed e) h = h
  store-Keeps a s aborted h = h

  read_async-Keeps :
      (a : List (ℕ × BackendMessages)) (s : Connection) (m : Message)
      → Keeps a s
      → Keeps a (read_async s m).1
  unfolding read_async
  read_async-Keeps a s (parameter_status body) h = store-Keeps a s _ h
  read_async-Keeps a s m h = h

  read_round-Keeps :
      (a : List (ℕ × BackendMessages)) (s : Connection) (ms : List BackendMessage)
      (as' : List Arrival)
      → Keeps a (at s ms as')
      → Keeps a (read_round (at s ms as')).1
  unfolding read_round poll_response read_polled read_arrival IsSettled account batches_pending
      batches_incoming
  read_round-Keeps a s [] [] h = h
  read_round-Keeps a s [] (broken e ∷ as') h = h
  read_round-Keeps a s [] (ended ∷ as') h = h
  read_round-Keeps a s [] (arrived (async m) ∷ as') h = read_async-Keeps a (at s [] as') m h
  read_round-Keeps a s [] (arrived (normal messages complete) ∷ as') h =
      read_normal-Keeps a s as' s.responses messages complete h.1
  read_round-Keeps a s (async m ∷ ms) as' h = read_async-Keeps a (at s ms as') m h
  read_round-Keeps a s (normal messages complete ∷ []) as' h =
      read_normal-Keeps a s as' s.responses messages complete h.1
  read_round-Keeps a s (normal messages complete ∷ (m ∷ ms)) as' h = absurd cc

  poll_read-Keeps :
      (a : List (ℕ × BackendMessages)) (s : Connection) (state : State)
      → Keeps a (record s { state = state })
      → Keeps a (poll_read (record s { state = state })).1
  unfolding poll_read
  poll_read-Keeps a s active h =
      loop-keeps (Keeps a) read_round (λ t. read_round-Keeps a t t.pending_responses t.incoming) _
        (record s { state = active }) h
  poll_read-Keeps a s terminating h = h
  poll_read-Keeps a s closing h = h

  -- Reading neither loses nor reorders a batch, and gives none to another request: what has been
  -- delivered, followed by what is to be routed of the unread, stays the same whatever the polls
  -- answer, also where it fails; and at most one batch waits for its sender, with nothing behind it.
  pub poll_read-account :
      (s : Connection)
      → IsSettled s.pending_responses
      → IsSettled (poll_read s).1.pending_responses × (account (poll_read s).1 ≡ account s)
  poll_read-account s h = poll_read-Keeps (account s) s s.state (h, refl)
