-- ===== src/Startup/Info.antt =====
-- `read_info` and `connect_raw` of tokio-opengauss/src/connect_raw.rs, from the open stream on. The name of the
-- system's user, for a `Config` without one, is an argument, `whoami`; so is the nonce.
use rust_opengauss.Prelude.{ℕ, suc, Option, none, some, List, [], ◌∷◌, ◌++◌, Bytes, if◌then◌else◌}
use rust_opengauss.Outcome.{ok, ◌>>=◌ as bind}
use rust_opengauss.Crates.{Crates}
use rust_opengauss.Crypto.{Crypto}
use rust_opengauss.Utf8.{Lossy, from_utf8}
use rust_opengauss.Attempt.{
  Attempt, done, failed, aborted, closed, unexpected_message, parse_failed, map_err, fail_db,
}
use rust_opengauss.Loop.{Flow, again, leave, Run, loop, ◌>>=◌, ◌>>◌}
use rust_opengauss.Parameters.{insert}
use rust_opengauss.Backend.Message.{
  AuthMode, standard, opengauss, Message, backend_key_data, parameter_status, notice_response,
  negotiate_protocol_version, ready_for_query, error_response,
}
use rust_opengauss.Codec.{BackendMessage, async}
use rust_opengauss.Connection.Parts.{Connection, Arrival, IoPoll}
use rust_opengauss.Connection.Trace.{new}
use rust_opengauss.Startup.{Config, StartupStream, lift, first, backlog, startup}
use rust_opengauss.Startup.Authenticate.{authenticate}

-- the variables of `read_info`
pub record Info : Type 0 where
  pub process_id : ℕ
  pub secret_key : ℕ
  pub parameters : List (Bytes × Bytes)

abbrev pub stored : Info → Attempt (Bytes × Bytes) → Attempt (Flow Info) × Info
stored i (done (name, value)) =
    (done again, record i { parameters = insert name value i.parameters })
stored i (failed e) = (failed e, i)
stored i aborted = (aborted, i)

module _ ⦃c : Crates⦄ ⦃l : Lossy⦄ where
  -- the `match` on a message; what is set aside goes behind `delayed`
  unfoldable pub note : Info → Option Message → Attempt (Flow Info) × Info × List BackendMessage
  note i (some (backend_key_data body)) =
      (done again, record i { process_id = body.process_id; secret_key = body.secret_key }, [])
  note i (some (parameter_status body)) =
      let (r, i') = stored i (
        map_err parse_failed (
          bind (from_utf8 body.name)
            λ name. bind (from_utf8 body.value) λ value. ok (name, value))) in
      (r, i', [])
  note i (some (notice_response body)) = (done again, i, async (notice_response body) ∷ [])
  note i (some negotiate_protocol_version) = (done again, i, [])
  note i (some (ready_for_query body)) = (done (leave i), i, [])
  note i (some (error_response body)) = (fail_db body, i, [])
  note i (some m) = (failed unexpected_message, i, [])
  note i none = (failed closed, i, [])

  unfoldable pub noted :
      Info → Attempt (Option Message) × StartupStream → Attempt (Flow Info) × (Info × StartupStream)
  noted i (done m, s) =
      let (r, i', aside) = note i m in (r, (i', record s { delayed = s.delayed ++ aside }))
  noted i (failed e, s) = (failed e, (i, s))
  noted i (aborted, s) = (aborted, (i, s))

  unfoldable pub info_round : Run (Info × StartupStream) (Flow Info)
  info_round (i, s) = noted i (first s)

  abbrev no_info : Info
  no_info = record { process_id = 0; secret_key = 0; parameters = [] }

  -- `read_info`
  unfoldable pub read_info : Run StartupStream Info
  read_info s = let (r, (i, t)) = loop (suc (backlog s)) info_round (no_info, s) in (r, t)

-- the name to log in with
unfoldable pub user_of : Config → Attempt Bytes → Attempt Bytes
user_of config whoami = elim config.user [ some user ↦ done user | none ↦ whoami ]

unfoldable pub auth_mode : Config → AuthMode
auth_mode config = if config.opengauss_compat then opengauss else standard

-- the stream before the first message, with `BackendMessages::empty()` for its buffer
unfoldable pub opened : Config → List Arrival → List IoPoll → Option Bytes → StartupStream
opened config incoming writes tls_server_end_point = record {
  buf = record { buf = []; mode = standard };
  delayed = [];
  incoming = incoming;
  writes = writes;
  tls_server_end_point = tls_server_end_point;
  sent = [];
}

-- What the `Client` is made with, and the `Connection`.
pub record Connected : Type 0 where
  pub process_id : ℕ
  pub secret_key : ℕ
  pub connection : Connection

module _ ⦃c : Crates⦄ ⦃l : Lossy⦄ ⦃h : Crypto⦄ where
  unfoldable pub connected : Info → Run StartupStream Connected
  connected i s = (
    done (record {
      process_id = i.process_id;
      secret_key = i.secret_key;
      connection = record (new s.delayed i.parameters) { incoming = s.incoming };
    }),
    s,
  )

  -- `connect_raw`, once `connect_tls` has given the stream
  unfoldable pub connect_raw :
      Config → (whoami : Attempt Bytes) → (nonce : Bytes) → Run StartupStream Connected
  connect_raw config whoami nonce = do
    user ← lift (user_of config whoami)
    startup config user
    authenticate config user nonce
    info ← read_info
    connected info
