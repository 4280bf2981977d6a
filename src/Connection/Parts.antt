-- ===== src/Connection/Parts.antt =====
-- The state of a `Connection` (tokio-opengauss/src/connection.rs), with the requests that it takes in and
-- the `CopyInReceiver` of tokio-opengauss/src/copy_in.rs.
-- A channel, the socket or a flush is what the polls of it will answer, in order; at the end of such a
-- list the poll is pending. What goes out is logged: the messages that the socket's encoder is
-- given, which never fails, and the batches for the requests' senders.
use rust_opengauss.Prelude.{ℕ, Bool, true, false, Option, none, some, List, [], ◌∷◌, Bytes}
use rust_opengauss.Outcome.{Error}
use rust_opengauss.Crates.{Crates}
use rust_opengauss.Write.{◌>>◌}
use rust_opengauss.Frontend
use rust_opengauss.Codec.{BackendMessage, BackendMessages}
use rust_opengauss.Codec.Encode.{FrontendMessage, raw}

pub data Poll {ℓ} (A : Type ℓ) : Type ℓ where
  ready : A → Poll A
  pending : Poll A

pub data CopyInMessage : Type 0 where
  message : FrontendMessage → CopyInMessage
  finished : CopyInMessage

-- what `mpsc::Receiver::poll_next` answers: a value, or that the senders are gone
pub data Item {ℓ} (A : Type ℓ) : Type ℓ where
  item : A → Item A
  gone : Item A

pub record CopyInReceiver : Type 0 where
  pub receiver : List (Item CopyInMessage)
  pub is_done : Bool

module _ ⦃c : Crates⦄ where
  -- `CopyInReceiver::poll_next`
  unfoldable pub poll_next : CopyInReceiver → Poll (Option FrontendMessage) × CopyInReceiver
  poll_next r = elim r.is_done [
    | true ↦ (ready none, r)
    | false ↦ elim r.receiver [
      | [] ↦ (pending, r)
      | item (message m) ∷ rest ↦ (ready (some m), record r { receiver = rest })
      | item finished ∷ rest ↦ (
        ready (some (raw ((Frontend.copy_done >> Frontend.sync) []).1)),
        record { receiver = rest; is_done = true },
      )
      | gone ∷ rest ↦ (
        ready (some (raw ((Frontend.copy_fail [] >> Frontend.sync) []).1)),
        record { receiver = rest; is_done = true },
      )
    ]
  ]

pub data RequestMessages : Type 0 where
  single : FrontendMessage → RequestMessages
  copy_in : CopyInReceiver → RequestMessages

-- A sender is known by its number.
pub record Request : Type 0 where
  pub messages : RequestMessages
  pub sender : ℕ

pub record Response : Type 0 where
  pub sender : ℕ

pub data State : Type 0 where
  active terminating closing : State

-- what `poll_next` of the socket answers
pub data Arrival : Type 0 where
  arrived : BackendMessage → Arrival
  broken : Error → Arrival
  ended : Arrival

-- what the socket's `poll_ready`, `poll_flush` and `poll_close` answer
pub data IoPoll : Type 0 where
  io_ok : IoPoll
  io_error : Error → IoPoll

-- what a response's `poll_ready` answers: `Ok`, or an error once the receiver has hung up
pub data SenderPoll : Type 0 where
  accepting hung_up : SenderPoll

-- A batch for a sender: given to it if it accepts, and dropped if the receiver has hung up.
pub record Delivery : Type 0 where
  pub sender : ℕ
  pub messages : BackendMessages
  pub answer : SenderPoll

pub record Connection : Type 0 where
  pub parameters : List (Bytes × Bytes)
  pub pending_request : Option RequestMessages
  pub pending_responses : List BackendMessage
  pub responses : List Response
  pub state : State
  -- the receiver of requests: its polls, whether `is_terminated`, whether `close` was called
  pub requests : List (Item Request)
  pub is_terminated : Bool
  pub is_closed : Bool
  -- the socket's polls
  pub incoming : List Arrival
  pub sink : List IoPoll
  pub flushes : List IoPoll
  pub closes : List IoPoll
  -- the polls of the responses' senders
  pub senders : List SenderPoll
  -- the logs
  pub sent : List FrontendMessage
  pub delivered : List Delivery
