-- ===== src/Connection/Steps.antt =====
-- What a poll of tokio-opengauss/src/connection.rs keeps, from what its parts keep.
use rust_opengauss.Prelude.{Bool, true, false, Option, none, some, List, [], ◌∷◌}
use rust_opengauss.Crates.{Crates}
use rust_opengauss.Utf8.{Lossy}
use rust_opengauss.Attempt.{Attempt, done, failed, aborted}
use rust_opengauss.Loop.Laws.{follow-keeps}
use rust_opengauss.Connection.Parts.{
  Connection, Poll, ready, pending, IoPoll, io_ok, io_error, State, active, terminating, closing,
}
use rust_opengauss.Connection.Read.{AsyncMessage, poll_read}
use rust_opengauss.Connection.Write.{poll_write}
use rust_opengauss.Connection.Poll.{
  poll_flush, flush_if, poll_shutdown, conclude, close, close_on_end, poll_message_inner,
  poll_message,
}

module _ {ℓ} (P : Connection → Type ℓ) where
  module _
      (keep_socket : (s : Connection) (flushes closes : List IoPoll) (b : Bool)
        → P s
        → P (record s { flushes = flushes; closes = closes; is_closed = b })) where
    poll_flush-keeps :
        (s : Connection) (flushes : List IoPoll)
        → P (record s { flushes = flushes })
        → P (poll_flush (record s { flushes = flushes })).1
    unfolding poll_flush
    poll_flush-keeps s [] p = p
    poll_flush-keeps s (io_ok ∷ rest) p = keep_socket _ rest s.closes s.is_closed p
    poll_flush-keeps s (io_error e ∷ rest) p = keep_socket _ rest s.closes s.is_closed p

    flush_if-keeps : (want : Bool) (s : Connection) → P s → P (flush_if want s).1
    unfolding flush_if
    flush_if-keeps true s p = poll_flush-keeps s s.flushes p
    flush_if-keeps false s p = p

    poll_shutdown-keeps :
        (s : Connection) (state : State) (closes : List IoPoll)
        → P (record s { state = state; closes = closes })
        → P (poll_shutdown (record s { state = state; closes = closes })).1
    unfolding poll_shutdown
    poll_shutdown-keeps s active closes p = p
    poll_shutdown-keeps s terminating closes p = p
    poll_shutdown-keeps s closing [] p = p
    poll_shutdown-keeps s closing (io_ok ∷ rest) p = keep_socket _ s.flushes rest s.is_closed p
    poll_shutdown-keeps s closing (io_error e ∷ rest) p = keep_socket _ s.flushes rest s.is_closed p

    conclude-keeps : (m : Option AsyncMessage) (s : Connection) → P s → P (conclude m s).1
    unfolding conclude
    conclude-keeps none s p = poll_shutdown-keeps s s.state s.closes p
    conclude-keeps (some m) s p = p

    close_on_end-keeps :
        (r : Attempt (Poll (Option AsyncMessage)) × Connection) → P r.1 → P (close_on_end r).1
    unfolding close_on_end close
    close_on_end-keeps (done (ready none), s) p = keep_socket s s.flushes s.closes true p
    close_on_end-keeps (done (ready (some m)), s) p = p
    close_on_end-keeps (done pending, s) p = p
    close_on_end-keeps (failed e, s) p = keep_socket s s.flushes s.closes true p
    close_on_end-keeps (aborted, s) p = p

    -- What reading and writing keep, and flushing and closing do not touch, a poll keeps.
    pub poll_message-keeps :
        ⦃c : Crates⦄ ⦃l : Lossy⦄
        → ((s : Connection) → P s → P (poll_read s).1)
        → ((s : Connection) → P s → P (poll_write s).1)
        → (s : Connection) → P s
        → P (poll_message s).1
    unfolding poll_message poll_message_inner
    poll_message-keeps read write s p = close_on_end-keeps _ (
        follow-keeps P _ (poll_read s)
          (λ m t q.
            follow-keeps P _ (poll_write t)
              (λ want u r.
                follow-keeps P _ (flush_if want u) (λ x. conclude-keeps m)
                  (flush_if-keeps want u r))
              (write t q))
          (read s p))
