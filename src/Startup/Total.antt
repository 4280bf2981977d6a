-- ===== src/Startup/Total.antt =====
-- About the stream of tokio-opengauss/src/connect_raw.rs: that waiting for a message comes to an end.
use rust_opengauss.Prelude.{ℕ, ◌≢◌, refl, Option, none, some, List, [], ◌∷◌, arith, length}
use rust_opengauss.Outcome.{Outcome, ok, err, panicked}
use rust_opengauss.Crates.{Crates}
use rust_opengauss.Attempt.{aborted}
use rust_opengauss.Loop.Laws.{Falls, loop-ne-aborted}
use rust_opengauss.Backend.Message.{Message}
use rust_opengauss.Backend.Total.{parse_with_mode-ne-panicked}
use rust_opengauss.Codec.{normal, async, next}
use rust_opengauss.Connection.Parts.{Arrival, arrived, broken, ended}
use rust_opengauss.Startup.{StartupStream, poll_inner, poll_buffered, poll_round, try_next}

abbrev Any : StartupStream → Type 0
Any s = Unit

abbrev arrivals : StartupStream → ℕ
arrivals s = length s.incoming

inner-Falls :
    (s : StartupStream) (incoming : List Arrival)
    → Falls Any arrivals (length incoming) (poll_inner (record s { incoming = incoming }))
unfolding poll_inner
inner-Falls s [] = tt
inner-Falls s (arrived (normal messages complete) ∷ rest) = (tt, omega arith)
inner-Falls s (arrived (async m) ∷ rest) = tt
inner-Falls s (broken e ∷ rest) = tt
inner-Falls s (ended ∷ rest) = tt

module _ ⦃c : Crates⦄ where
  buffered-Falls :
      (s : StartupStream) (r : Outcome (Option Message))
      → r ≢ panicked
      → Falls Any arrivals (length s.incoming) (poll_buffered s r)
  unfolding poll_buffered
  buffered-Falls s (ok (some m)) h = tt
  buffered-Falls s (ok none) h = inner-Falls s s.incoming
  buffered-Falls s (err e) h = tt
  buffered-Falls s panicked h = absurd (h refl)

  -- Waiting for a message ends, with one, an error or the end of the stream.
  pub try_next-ne-aborted : (s : StartupStream) → (try_next s).0 ≢ aborted
  unfolding try_next poll_round next
  try_next-ne-aborted s =
      loop-ne-aborted Any arrivals poll_round
        (λ t u.
          buffered-Falls (record t { buf = (next t.buf).1 }) (next t.buf).0
            (parse_with_mode-ne-panicked t.buf.mode t.buf.buf))
        _ s tt (omega arith)
