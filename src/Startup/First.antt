-- ===== src/Startup/First.antt =====
-- About the loop over `NegotiateProtocolVersion` in tokio-opengauss/src/connect_raw.rs: that it ends.
use rust_opengauss.Prelude.{
  ℕ, ◌+◌, ◌≤◌, ◌<◌, ◌≡◌, ◌≢◌, refl, Bool, true, false, Option, none, some, List, [], ◌∷◌, arith,
  Bytes, length, take, drop, get_or, length-drop, ltb, ltb→le, if◌then◌else◌,
}
use rust_opengauss.Outcome.{Outcome, ok, err, panicked}
use rust_opengauss.Crates.{Crates}
use rust_opengauss.Attempt.{Attempt, done, failed, aborted}
use rust_opengauss.Loop.{follow, pure}
use rust_opengauss.Loop.Laws.{Falls, loop-ne-aborted}
use rust_opengauss.Loop.Results.{Leads, Ends, loop-Ends}
use rust_opengauss.Backend.Message.{AuthMode, Message, negotiate_protocol_version}
use rust_opengauss.Backend.Parse.{parse_with_mode, parse_frame}
use rust_opengauss.Codec.{normal, async, next}
use rust_opengauss.Backend.InRange.{parse_with_mode_lem}
use rust_opengauss.Connection.Parts.{Arrival, arrived, broken, ended}
use rust_opengauss.Startup.{
  StartupStream, poll_inner, poll_buffered, poll_round, try_next, weight, backlog, skip_negotiation,
  first_round, first,
}
use rust_opengauss.Startup.Total.{try_next-ne-aborted}

-- A message takes bytes off the buffer, and no answer adds to it.
abbrev Shrinks : ℕ → Outcome (Option Message) × Bytes → Type 0
Shrinks n (ok (some m), rest) = length rest < n
Shrinks n (ok none, rest) = length rest ≤ n
Shrinks n (err e, rest) = Unit
Shrinks n (panicked, rest) = Unit

if-Shrinks :
    (n : ℕ) (b : Bool) (x y : Outcome (Option Message) × Bytes)
    → (b ≡ true → Shrinks n x)
    → (b ≡ false → Shrinks n y)
    → Shrinks n (if b then x else y)
if-Shrinks n true x y h k = h refl
if-Shrinks n false x y h k = k refl

cut-Shrinks :
    (n : ℕ) (r : Outcome (Option Message)) (rest : Bytes) → length rest < n → Shrinks n (r, rest)
cut-Shrinks n (ok (some m)) rest h = h
cut-Shrinks n (ok none) rest h = omega arith
cut-Shrinks n (err e) rest h = tt
cut-Shrinks n panicked rest h = tt

module _ ⦃c : Crates⦄ where
  parse-Shrinks : (mode : AuthMode) (buf : Bytes) → Shrinks (length buf) (parse_with_mode mode buf)
  parse-Shrinks mode buf = rw (parse_with_mode_lem mode buf) (
      if-Shrinks _ (ltb (length buf) 5) _ _ (λ e. omega arith)
        λ long.
          if-Shrinks _ (ltb (c.from_be (take 4 (drop 1 buf))) 4) _ _ (λ e. tt)
            λ e.
              if-Shrinks _ (ltb (length buf) (c.from_be (take 4 (drop 1 buf)) + 1)) _ _
                (λ f. omega arith)
                λ f.
                  cut-Shrinks _
                    (parse_frame mode (get_or buf 0 0)
                      (drop 5 (take (c.from_be (take 4 (drop 1 buf)) + 1) buf)))
                    _
                    (omega (
                      arith,
                      ltb→le (length buf) 5 long,
                      length-drop (c.from_be (take 4 (drop 1 buf)) + 1) buf,
                    )))

  abbrev pub Within : ℕ → StartupStream → Type 0
  Within n s = backlog s ≤ n

  -- A message lowers the bound for those still to come.
  abbrev pub Lowers : ℕ → Option Message → StartupStream → Type 0
  Lowers n none s = Unit
  Lowers n (some m) s = backlog s < n

  inner-Leads :
      (n : ℕ) (s : StartupStream) (incoming : List Arrival)
      → length s.buf.buf + weight incoming ≤ n
      → Leads (Within n) (Lowers n) (poll_inner (record s { incoming = incoming }))
  unfolding poll_inner backlog weight
  inner-Leads n s [] h = tt
  inner-Leads n s (arrived (normal messages complete) ∷ rest) h = omega arith
  inner-Leads n s (arrived (async m) ∷ rest) h = omega arith
  inner-Leads n s (broken e ∷ rest) h = tt
  inner-Leads n s (ended ∷ rest) h = tt

  buffered-Leads :
      (n k : ℕ) (s : StartupStream) (r : Outcome (Option Message))
      → Shrinks k (r, s.buf.buf)
      → k + weight s.incoming ≤ n
      → Leads (Within n) (Lowers n) (poll_buffered s r)
  unfolding poll_buffered backlog
  buffered-Leads n k s (ok (some m)) h w = omega arith
  buffered-Leads n k s (ok none) h w = inner-Leads n s s.incoming (omega arith)
  buffered-Leads n k s (err e) h w = tt
  buffered-Leads n k s panicked h w = tt

  pub try_next-Ends :
      (s : StartupStream) → Ends (Within (backlog s)) (Lowers (backlog s)) (try_next s)
  unfolding try_next poll_round next backlog
  try_next-Ends s =
      loop-Ends (Within (backlog s)) (Lowers (backlog s)) poll_round
        (λ t w.
          buffered-Leads (backlog s) (length t.buf.buf) (record t { buf = (next t.buf).1 })
            (next t.buf).0 (parse-Shrinks t.buf.mode t.buf.buf) w)
        _ s (omega arith)

  abbrev Any : StartupStream → Type 0
  Any s = Unit

  skip-Falls :
      (n : ℕ) (r : Attempt (Option Message) × StartupStream)
      → Ends (Within n) (Lowers n) r
      → r.0 ≢ aborted
      → Falls Any backlog n (follow (λ m. pure (skip_negotiation m)) r)
  unfolding follow skip_negotiation
  skip-Falls n (done (some negotiate_protocol_version), s) q h = (tt, q)
  skip-Falls n (done (some m), s) q h = tt
  skip-Falls n (done none, s) q h = tt
  skip-Falls n (failed e, s) q h = tt
  skip-Falls n (aborted, s) q h = absurd (h refl)

  -- Waiting for a first message that is no `NegotiateProtocolVersion` ends, within the fuel.
  pub first-ne-aborted : (s : StartupStream) → (first s).0 ≢ aborted
  unfolding first first_round
  first-ne-aborted s =
      loop-ne-aborted Any backlog first_round
        (λ t u. skip-Falls (backlog t) (try_next t) (try_next-Ends t) (try_next-ne-aborted t)) _ s
        tt (omega arith)
