-- ===== src/Startup/Ready.antt =====
-- About `read_info` of tokio-opengauss/src/connect_raw.rs: that it ends.
use rust_opengauss.Prelude.{ℕ, ◌≤◌, ◌<◌, ◌≢◌, refl, Option, none, some, arith, Bytes}
use rust_opengauss.Outcome.{Outcome, ok, err, panicked, Error, ◌>>=◌}
use rust_opengauss.Crates.{Crates}
use rust_opengauss.Utf8.{Lossy, from_utf8}
use rust_opengauss.Attempt.{
  Attempt, done, failed, aborted, Fault, parse_failed, map_err, classified, fail_db,
}
use rust_opengauss.Loop.{Flow, again, leave, follow, pure}
use rust_opengauss.Loop.Laws.{Falls, loop-ne-aborted}
use rust_opengauss.Loop.Results.{Leads, Ends, loop-Ends}
use rust_opengauss.DbError.{DbError, parse}
use rust_opengauss.DbError.Fields.{parse-ne-panicked}
use rust_opengauss.Backend.Message.{
  Message, negotiate_protocol_version, backend_key_data, parameter_status, notice_response,
  ready_for_query, error_response,
}
use rust_opengauss.Backend.Iter.{error_fields}
use rust_opengauss.Connection.Total.{from_utf8-ne-panicked}
use rust_opengauss.Startup.{StartupStream, try_next, backlog, skip_negotiation, first_round, first}
use rust_opengauss.Startup.First.{Within, Lowers, try_next-Ends, first-ne-aborted}
use rust_opengauss.Startup.Info.{Info, stored, note, noted, info_round, read_info}

module _ ⦃c : Crates⦄ where
  skip-Leads :
      (n k : ℕ) (r : Attempt (Option Message) × StartupStream)
      → k ≤ n
      → Ends (Within k) (Lowers k) r
      → Leads (Within n) (Lowers n) (follow (λ m. pure (skip_negotiation m)) r)
  unfolding follow skip_negotiation
  skip-Leads n k (done (some negotiate_protocol_version), s) h q = omega arith
  skip-Leads n k (done (some m), s) h q = omega arith
  skip-Leads n k (done none, s) h q = tt
  skip-Leads n k (failed e, s) h q = tt
  skip-Leads n k (aborted, s) h q = tt

  first-Ends : (s : StartupStream) → Ends (Within (backlog s)) (Lowers (backlog s)) (first s)
  unfolding first first_round
  first-Ends s =
      loop-Ends (Within (backlog s)) (Lowers (backlog s)) first_round
        (λ t w. skip-Leads (backlog s) (backlog t) (try_next t) w (try_next-Ends t)) _ s
        (omega arith)

  abbrev Any : Info × StartupStream → Type 0
  Any p = Unit

  abbrev left : Info × StartupStream → ℕ
  left p = backlog p.1

stored-ne-aborted :
    (i : Info) (f : Error → Fault) (x y : Outcome Bytes)
    → x ≢ panicked
    → y ≢ panicked
    → (stored i (map_err f (x >>= λ a. y >>= λ b. ok (a, b)))).0 ≢ aborted
unfolding map_err
stored-ne-aborted i f (ok a) (ok b) h h' = λ q. cc
stored-ne-aborted i f (ok a) (err e) h h' = λ q. cc
stored-ne-aborted i f (ok a) panicked h h' = absurd (h' refl)
stored-ne-aborted i f (err e) y h h' = λ q. cc
stored-ne-aborted i f panicked y h h' = absurd (h refl)

classified-ne-aborted {ℓ} :
    {A : Type ℓ} (r : Outcome DbError) → r ≢ panicked → classified {A = A} r ≢ aborted
classified-ne-aborted (ok e) h = λ q. cc
classified-ne-aborted (err e) h = λ q. cc
classified-ne-aborted panicked h = absurd (h refl)

module _ ⦃c : Crates⦄ ⦃l : Lossy⦄ where
  note-ne-aborted : (i : Info) (m : Option Message) → (note i m).0 ≢ aborted
  unfolding note fail_db
  note-ne-aborted i (some (backend_key_data body)) = λ q. cc
  note-ne-aborted i (some (parameter_status body)) =
      stored-ne-aborted i parse_failed (from_utf8 body.name) (from_utf8 body.value)
        (from_utf8-ne-panicked body.name) (from_utf8-ne-panicked body.value)
  note-ne-aborted i (some (notice_response body)) = λ q. cc
  note-ne-aborted i (some negotiate_protocol_version) = λ q. cc
  note-ne-aborted i (some (ready_for_query body)) = λ q. cc
  note-ne-aborted i (some (error_response body)) =
      classified-ne-aborted (parse (error_fields body)) (parse-ne-panicked (error_fields body))
  note-ne-aborted i (some m) = λ q. cc
  note-ne-aborted i none = λ q. cc

  flow-Falls :
      (n : ℕ) (r : Attempt (Flow Info)) (p : Info × StartupStream)
      → r ≢ aborted
      → left p < n
      → Falls Any left n (r, p)
  flow-Falls n (done again) p h k = (tt, k)
  flow-Falls n (done (leave i)) p h k = tt
  flow-Falls n (failed e) p h k = tt
  flow-Falls n aborted p h k = absurd (h refl)

  noted-Falls :
      (n : ℕ) (i : Info) (r : Attempt (Option Message) × StartupStream)
      → Ends (Within n) (Lowers n) r
      → r.0 ≢ aborted
      → Falls Any left n (noted i r)
  unfolding noted backlog note
  noted-Falls n i (done (some m), s) q h =
      flow-Falls n (note i (some m)).0 _ (note-ne-aborted i (some m)) q
  noted-Falls n i (done none, s) q h = tt
  noted-Falls n i (failed e, s) q h = tt
  noted-Falls n i (aborted, s) q h = absurd (h refl)

  -- Reading the server's parameters ends, within the fuel.
  pub read_info-ne-aborted : (s : StartupStream) → (read_info s).0 ≢ aborted
  unfolding read_info info_round
  read_info-ne-aborted s =
      loop-ne-aborted Any left info_round
        (λ p u. noted-Falls (backlog p.1) p.0 (first p.1) (first-Ends p.1) (first-ne-aborted p.1)) _
        (_, s) tt (omega arith)
