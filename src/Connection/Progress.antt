-- ===== src/Connection/Progress.antt =====
-- About what tokio-opengauss/src/connection.rs brings about: requests that are taken in are sent, and a
-- connection that is no longer wanted ends.
use rust_opengauss.Prelude.{
  ℕ, zero, suc, ◌+◌, ◌<◌, ◌≡◌, refl, sym, ap, ap₂, ◌∙◌, true, false, none, List, [], ◌∷◌, ◌++◌,
  append_assoc, append-nil, arith, length,
}
use rust_opengauss.Crates.{Crates}
use rust_opengauss.Utf8.{Lossy}
use rust_opengauss.Attempt.{done}
use rust_opengauss.Loop.{advance, loop, follow}
use rust_opengauss.Codec.Encode.{FrontendMessage}
use rust_opengauss.Connection.Parts.{
  Connection, ready, Item, item, gone, Request, single, Response, IoPoll, io_ok, active, closing,
}
use rust_opengauss.Connection.Read.{poll_read, read_round, read_polled, poll_response, unread}
use rust_opengauss.Connection.Write.{
  poll_request, start_send, after_send, write_request, write_eof, write_polled, write_ready,
  write_round, poll_write, terminate_message,
}
use rust_opengauss.Connection.Poll.{
  flush_if, poll_shutdown, conclude, close, close_on_end, poll_message_inner, poll_message,
}

-- Requests of one message each, as a client makes them.
pub record Call : Type 0 where
  pub message : FrontendMessage
  pub sender : ℕ

abbrev pub calls : List Call → List (Item Request)
calls [] = []
calls (k ∷ ks) = item (record { messages = single k.message; sender = k.sender }) ∷ calls ks

abbrev pub messages : List Call → List FrontendMessage
messages [] = []
messages (k ∷ ks) = k.message ∷ messages ks

abbrev pub awaited : List Call → List Response
awaited [] = []
awaited (k ∷ ks) = record { sender = k.sender } ∷ awaited ks

abbrev pub oks : List Call → List IoPoll
oks [] = []
oks (k ∷ ks) = io_ok ∷ oks ks

module _ ⦃c : Crates⦄ where
  abbrev calling : Connection → List Call → List IoPoll → Connection
  calling s ks sink = record s {
    state = active;
    pending_request = none;
    is_terminated = false;
    requests = calls ks;
    sink = oks ks ++ (io_ok ∷ sink);
  }

  abbrev called : Connection → List Call → List IoPoll → Connection
  called s ks sink = record s {
    state = active;
    pending_request = none;
    is_terminated = false;
    requests = [];
    sink = sink;
    sent = s.sent ++ messages ks;
    responses = s.responses ++ awaited ks;
  }

  snoc :
      (s : Connection) (k : Call) (ks : List Call) (sink : List IoPoll)
      → called
          (record s {
            sent = s.sent ++ (k.message ∷ []);
            responses = s.responses ++ (record { sender = k.sender } ∷ []);
          })
          ks
          sink
        ≡ called s (k ∷ ks) sink
  snoc s k ks sink =
      ap₂ (λ a b. record (called s ks sink) { sent = a; responses = b })
        (append_assoc s.sent (k.message ∷ []) (messages ks))
        (append_assoc s.responses (record { sender = k.sender } ∷ []) (awaited ks))

  write_calls :
      (s : Connection) (ks : List Call) (sink : List IoPoll) (fuel : ℕ)
      → length ks < fuel
      → loop fuel write_round (calling s ks sink) ≡ (done true, called s ks sink)
  unfolding loop advance write_round write_ready write_polled poll_request write_request start_send
      after_send
  write_calls s ks sink zero h = absurd (omega arith)
  write_calls s [] sink (suc fuel) h =
      ap₂ (λ a b. (done true, record (called s [] sink) { sent = a; responses = b }))
        (sym (append-nil s.sent)) (sym (append-nil s.responses))
  write_calls s (k ∷ ks) sink (suc fuel) h =
      write_calls
        (record s {
          sent = s.sent ++ (k.message ∷ []);
          responses = s.responses ++ (record { sender = k.sender } ∷ []);
        })
        ks sink fuel (omega arith)
      ∙ ap (λ t. (done true, t)) (snoc s k ks sink)

  length-oks :
      (ks : List Call) (sink : List IoPoll) → length (oks ks ++ sink) ≡ length ks + length sink
  length-oks [] sink = omega arith
  length-oks (k ∷ ks) sink = omega (arith, length-oks ks sink)

  -- While the socket is ready, all calls that clients have made are sent, in their order, each is
  -- then waited for, in that order, and the socket is to be flushed.
  pub poll_write-calls :
      (s : Connection) (ks : List Call) (sink : List IoPoll)
      → poll_write (record s {
        state = active;
        pending_request = none;
        is_terminated = false;
        requests = calls ks;
        sink = oks ks ++ (io_ok ∷ sink);
      })
        ≡ (
          done true,
          record s {
            state = active;
            pending_request = none;
            is_terminated = false;
            requests = [];
            sink = sink;
            sent = s.sent ++ messages ks;
            responses = s.responses ++ awaited ks;
          },
        )
  unfolding poll_write
  poll_write-calls s ks sink = write_calls s ks sink _ (omega (arith, length-oks ks (io_ok ∷ sink)))

  -- Once the clients are gone and all responses are read, a poll on a ready socket sends the end of
  -- the session, closes the connection and is the last.
  pub poll_message-ends :
      ⦃l : Lossy⦄ (s : Connection) (requests : List (Item Request)) (sink closes : List IoPoll)
      → poll_message (record s {
        state = active;
        pending_request = none;
        pending_responses = [];
        responses = [];
        incoming = [];
        is_terminated = false;
        requests = gone ∷ requests;
        sink = io_ok ∷ sink;
        closes = io_ok ∷ closes;
      })
        ≡ (
          done (ready none),
          record s {
            state = closing;
            pending_request = none;
            pending_responses = [];
            responses = [];
            incoming = [];
            is_terminated = true;
            is_closed = true;
            requests = requests;
            sink = sink;
            closes = closes;
            sent = s.sent ++ (terminate_message ∷ []);
          },
        )
  unfolding poll_message poll_message_inner follow poll_read loop advance read_round read_polled
      poll_response unread poll_write write_round write_ready write_polled poll_request write_eof
      write_request start_send after_send flush_if conclude poll_shutdown close close_on_end
  poll_message-ends s requests sink closes = refl
