-- ===== src/Connection/Ends.antt =====
-- About a poll of tokio-opengauss/src/connection.rs as a whole: that it ends.
use rust_opengauss.Prelude.{◌≢◌, refl, Bool, true, false, Option, none, some, List, [], ◌∷◌}
use rust_opengauss.Crates.{Crates}
use rust_opengauss.Utf8.{Lossy}
use rust_opengauss.Attempt.{Attempt, done, failed, aborted}
use rust_opengauss.Loop.Laws.{follow-ne-aborted}
use rust_opengauss.Connection.Parts.{
  Connection, Poll, ready, pending, IoPoll, io_ok, io_error, State, active, terminating, closing,
}
use rust_opengauss.Connection.Read.{AsyncMessage, poll_read}
use rust_opengauss.Connection.Write.{poll_write}
use rust_opengauss.Connection.Poll.{
  poll_flush, flush_if, poll_shutdown, conclude, close_on_end, poll_message_inner, poll_message,
}
use rust_opengauss.Connection.Total.{AllKnown, poll_read-ne-aborted}
use rust_opengauss.Connection.Written.{poll_write-ne-aborted}

flush-ne-aborted :
    (s : Connection) (flushes : List IoPoll)
    → (poll_flush (record s { flushes = flushes })).0 ≢ aborted
unfolding poll_flush
flush-ne-aborted s [] = λ q. cc
flush-ne-aborted s (io_ok ∷ rest) = λ q. cc
flush-ne-aborted s (io_error e ∷ rest) = λ q. cc

flush_if-ne-aborted : (want : Bool) (s : Connection) → (flush_if want s).0 ≢ aborted
unfolding flush_if
flush_if-ne-aborted true s = flush-ne-aborted s s.flushes
flush_if-ne-aborted false s = λ q. cc

shutdown-ne-aborted :
    (s : Connection) (state : State) (closes : List IoPoll)
    → (poll_shutdown (record s { state = state; closes = closes })).0 ≢ aborted
unfolding poll_shutdown
shutdown-ne-aborted s active closes = λ q. cc
shutdown-ne-aborted s terminating closes = λ q. cc
shutdown-ne-aborted s closing [] = λ q. cc
shutdown-ne-aborted s closing (io_ok ∷ rest) = λ q. cc
shutdown-ne-aborted s closing (io_error e ∷ rest) = λ q. cc

conclude-ne-aborted : (m : Option AsyncMessage) (s : Connection) → (conclude m s).0 ≢ aborted
unfolding conclude
conclude-ne-aborted none s = shutdown-ne-aborted s s.state s.closes
conclude-ne-aborted (some m) s = λ q. cc

close-ne-aborted :
    (r : Attempt (Poll (Option AsyncMessage)) × Connection)
    → r.0 ≢ aborted
    → (close_on_end r).0 ≢ aborted
unfolding close_on_end
close-ne-aborted (done (ready none), s) h = λ q. cc
close-ne-aborted (done (ready (some m)), s) h = λ q. cc
close-ne-aborted (done pending, s) h = λ q. cc
close-ne-aborted (failed e, s) h = λ q. cc
close-ne-aborted (aborted, s) h = absurd (h refl)

-- A poll comes to an end without a panic: on all messages that the codec can hand out, and whatever
-- the channels and the socket answer.
pub poll_message-ne-aborted :
    ⦃c : Crates⦄ ⦃l : Lossy⦄ (s : Connection) → AllKnown s → (poll_message s).0 ≢ aborted
unfolding poll_message poll_message_inner
poll_message-ne-aborted s known = close-ne-aborted _ (
    follow-ne-aborted _ (poll_read s) (poll_read-ne-aborted s known) λ m t.
      follow-ne-aborted _ (poll_write t) (poll_write-ne-aborted t) λ want u.
        follow-ne-aborted _ (flush_if want u) (flush_if-ne-aborted want u)
          λ x. conclude-ne-aborted m)
