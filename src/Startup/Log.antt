-- ===== src/Startup/Log.antt =====
-- About what the calls of tokio-opengauss/src/connect_raw.rs send: they only add to it.
use rust_opengauss.Prelude.{
  suc, ◌≡◌, ap, ◌∙◌, Option, none, some, List, [], ◌∷◌, ◌++◌, append_assoc, length,
}
use rust_opengauss.Outcome.{Outcome, ok, err, panicked}
use rust_opengauss.Crates.{Crates}
use rust_opengauss.Crypto.{Crypto}
use rust_opengauss.Utf8.{Lossy}
use rust_opengauss.Attempt.{Attempt}
use rust_opengauss.Loop.{Run, ◌>>=◌}
use rust_opengauss.Loop.Laws.{follow-keeps, loop-keeps}
use rust_opengauss.Backend.Message.{Message}
use rust_opengauss.Codec.{normal, async, next}
use rust_opengauss.Codec.Encode.{FrontendMessage}
use rust_opengauss.Connection.Parts.{Arrival, arrived, broken, ended, IoPoll, io_ok, io_error}
use rust_opengauss.Authentication.Sasl.{ScramSha256}
use rust_opengauss.Startup.{
  StartupStream, lift, send, poll_inner, poll_buffered, poll_round, try_next, first_round, first,
}
use rust_opengauss.Startup.Authenticate.{converse}

-- Sending and receiving only add to what has been sent.
abbrev pub Grows : List FrontendMessage → StartupStream → Type 0
Grows x s = (rest : List FrontendMessage) × (s.sent ≡ x ++ rest)

send-Grows :
    (x : List FrontendMessage) (m : FrontendMessage) (s : StartupStream) (writes : List IoPoll)
    → Grows x s
    → Grows x (send m (record s { writes = writes })).1
unfolding send
send-Grows x m s [] (rest, e) =
    (rest ++ (m ∷ []), ap (λ t. t ++ (m ∷ [])) e ∙ append_assoc x rest _)
send-Grows x m s (io_ok ∷ w) (rest, e) =
    (rest ++ (m ∷ []), ap (λ t. t ++ (m ∷ [])) e ∙ append_assoc x rest _)
send-Grows x m s (io_error e ∷ w) h = h

-- Receiving sends nothing: it keeps what holds of the sent messages.
module _ (P : List FrontendMessage → Type 0) where
  abbrev Sent : StartupStream → Type 0
  Sent s = P s.sent

  poll_inner-Sent :
      (s : StartupStream) (incoming : List Arrival)
      → Sent s
      → Sent (poll_inner (record s { incoming = incoming })).1
  unfolding poll_inner
  poll_inner-Sent s [] p = p
  poll_inner-Sent s (arrived (normal messages complete) ∷ rest) p = p
  poll_inner-Sent s (arrived (async m) ∷ rest) p = p
  poll_inner-Sent s (broken e ∷ rest) p = p
  poll_inner-Sent s (ended ∷ rest) p = p

  module _ ⦃c : Crates⦄ where
    poll_buffered-Sent :
        (s : StartupStream) (r : Outcome (Option Message)) → Sent s → Sent (poll_buffered s r).1
    unfolding poll_buffered
    poll_buffered-Sent s (ok (some m)) p = p
    poll_buffered-Sent s (ok none) p = poll_inner-Sent s s.incoming p
    poll_buffered-Sent s (err e) p = p
    poll_buffered-Sent s panicked p = p

    pub try_next-Sent : (s : StartupStream) → P s.sent → P (try_next s).1.sent
    unfolding try_next poll_round
    try_next-Sent s p =
        loop-keeps Sent poll_round
          (λ t. poll_buffered-Sent (record t { buf = (next t.buf).1 }) (next t.buf).0)
          (suc (length s.incoming)) s p

    pub first-Sent : (s : StartupStream) → P s.sent → P (first s).1.sent
    unfolding first first_round
    first-Sent s p =
        loop-keeps Sent first_round
          (λ t q. follow-keeps Sent _ (try_next t) (λ m u r. r) (try_next-Sent t q)) _ s p

-- A call keeps what it was given of the log, and adds to it.
pub record Adds {ℓ} {A : Type ℓ} (x : List FrontendMessage) (m : Run StartupStream A) : Type ℓ where
  pub at : (s : StartupStream) → Grows x s → Grows x (m s).1

module _ (x : List FrontendMessage) where
  bind-Adds {ℓ κ} :
      {A : Type ℓ} {B : Type κ} (m : Run StartupStream A) (f : A → Run StartupStream B)
      → Adds x m
      → ((a : A) → Adds x (f a))
      → Adds x (m >>= f)
  bind-Adds m f h k = record {
    at = λ s p. follow-keeps (Grows x) f (m s) (λ a. (k a).at) (h.at s p);
  }

  lift-Adds {ℓ} : {A : Type ℓ} (r : Attempt A) → Adds x (lift r)
  unfolding lift
  lift-Adds r = record { at = λ s p. p }

  send-Adds : (m : FrontendMessage) → Adds x (send m)
  send-Adds m = record { at = λ s. send-Grows x m s s.writes }

  module _ ⦃c : Crates⦄ where
    try_next-Adds : Adds x try_next
    try_next-Adds = record {
      at = try_next-Sent (λ sent. (rest : List FrontendMessage) × (sent ≡ x ++ rest));
    }

    ruleset adds = (bind-Adds, lift-Adds, send-Adds, try_next-Adds)

    pub converse-Adds : ⦃l : Lossy⦄ ⦃h : Crypto⦄ (scram : ScramSha256) → Adds x (converse scram)
    unfolding converse
    converse-Adds scram = search adds depth 40
