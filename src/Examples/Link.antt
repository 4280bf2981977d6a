-- ===== src/Examples/Link.antt =====
-- A connection over a few polls, and the errors that it reads.
use rust_opengauss.Prelude.{
  ℕ, ◌≡◌, ◌≢◌, refl, ap, true, false, none, some, List, [], ◌∷◌, ◌++◌, arith,
}
use rust_opengauss.Outcome.{ok}
use rust_opengauss.Attempt.{done, aborted, map_err}
use rust_opengauss.Crates.Native.{native_crates}
use rust_opengauss.Utf8.{is_utf8, from_utf8}
use rust_opengauss.Utf8.Native.{whole_lossy}
use rust_opengauss.DbError.{DbError, panic, internal, parse}
use rust_opengauss.DbError.Report.{fields_of}
use rust_opengauss.DbError.RoundTrip.{parse-fields_of}
use rust_opengauss.Backend.Message.{standard, Message, parameter_status}
use rust_opengauss.Backend.Iter.Lists.{encode_error_fields}
use rust_opengauss.Backend.Wire.{render}
use rust_opengauss.Codec.{BackendMessages, normal, async, is_async}
use rust_opengauss.Codec.Encode.{raw}
use rust_opengauss.Codec.Messages.{decode-async}
use rust_opengauss.Codec.Async.{KnownMessage, decode-KnownMessage}
use rust_opengauss.Connection.Parts.{
  Connection, arrived, io_ok, accepting, item, single, active, closing,
}
use rust_opengauss.Loop.{loop, advance}
use rust_opengauss.Parameters.{insert}
use rust_opengauss.Connection.Read.{
  unread, read_round, read_polled, poll_response, read_arrival, read_async, store, read_normal,
  offer, poll_read,
}
use rust_opengauss.Connection.Write.{poll_write}
use rust_opengauss.Connection.Poll.{poll_message}
use rust_opengauss.Connection.Order.{account, IsSettled}
use rust_opengauss.Connection.Requests.{poll_message-account}
use rust_opengauss.Connection.Closing.{IsOrderly}
use rust_opengauss.Connection.Ends.{poll_message-ne-aborted}
use rust_opengauss.Connection.Trace.{new, here, later, polled, new-IsSound, Reach-closing}
use rust_opengauss.Connection.Progress.{Call, calls, messages, awaited, oks, poll_write-calls}

abbrev refused : DbError
refused = record {
  severity = b'E' ∷ [];
  parsed_severity = some panic;
  code = b'4' ∷ b'2' ∷ [];
  message = b'n' ∷ b'o' ∷ [];
  detail = none;
  hint = some (b'h' ∷ []);
  position = some (internal 7 (b'q' ∷ []));
  where_ = none;
  schema = some (b's' ∷ []);
  table = none;
  column = none;
  datatype = none;
  constraint = none;
  file = none;
  line = some 12;
  routine = none;
}

parse-fields_of_example :
    parse (record { buf = encode_error_fields (fields_of refused (b'7' ∷ []) (b'1' ∷ b'2' ∷ [])) })
    ≡ ok refused
unfolding is_utf8
parse-fields_of_example = parse-fields_of refused (b'7' ∷ []) (b'1' ∷ b'2' ∷ []) (
  (
    ((omega arith, tt), refl),
    ((omega arith, (omega arith, tt)), refl),
    ((omega arith, (omega arith, tt)), refl),
  ),
  (
    tt,
    ((omega arith, tt), refl),
    ((((omega arith, omega arith), tt), omega arith, refl, omega arith), ((omega arith, tt), refl)),
    tt,
  ),
  (((omega arith, tt), refl), tt, tt, tt),
  (
    tt,
    tt,
    (
      ((omega arith, omega arith), ((omega arith, omega arith), tt)),
      omega arith,
      refl,
      omega arith,
    ),
    tt,
  ),
)

abbrev changed : Message
changed = parameter_status (record { name = b'a' ∷ []; value = b'b' ∷ [] })

decode-KnownMessage_example : KnownMessage (async changed)
unfolding is_async
decode-KnownMessage_example = decode-KnownMessage standard (render changed ++ []) (async changed) (
    ap (λ p. p.0)
      (decode-async standard changed [] (((omega arith, tt), (omega arith, tt)), omega arith) refl))

abbrev batch : BackendMessages
batch = record { buf = 1 ∷ []; mode = standard }

-- One request is known, one is to come, and a batch for the first is there.
abbrev busy : Connection
busy = record (new [] []) {
  responses = record { sender = 4 } ∷ [];
  requests = item (record { messages = single (raw (2 ∷ [])); sender = 5 }) ∷ [];
  incoming = arrived (async changed) ∷ arrived (normal batch true) ∷ [];
  sink = io_ok ∷ io_ok ∷ [];
  senders = accepting ∷ [];
}

reads :
    (poll_read busy).1.delivered ≡ record { sender = 4; messages = batch; answer = accepting } ∷ []
unfolding poll_read loop advance unread read_round read_polled poll_response read_arrival read_async
    store map_err from_utf8 is_utf8 insert read_normal offer new
reads = refl

poll_message-account_example :
    IsSettled (poll_message busy).1.pending_responses
    × ((rest : List (ℕ × BackendMessages)) × (account (poll_message busy).1 ≡ account busy ++ rest))
unfolding IsSettled new
poll_message-account_example = poll_message-account busy tt

new-IsSound_example :
    IsOrderly (poll_message (new [] [])).1
    × IsSettled (poll_message (new [] [])).1.pending_responses
new-IsSound_example =
    new-IsSound [] [] (poll_message (new [] [])).1 (later here (polled (new [] [])))

abbrev ending : Connection
ending = record busy { state = closing }

Reach-closing_example :
    ((poll_message ending).1.state ≡ closing) × ((poll_message ending).1.sent ≡ ending.sent)
Reach-closing_example = Reach-closing (later here (polled ending)) refl

poll_message-ne-aborted_example : (poll_message busy).0 ≢ aborted
unfolding new
poll_message-ne-aborted_example = poll_message-ne-aborted busy (tt, (tt, (tt, tt)))

abbrev two_calls : List Call
two_calls =
    record { message = raw (2 ∷ []); sender = 5 }
    ∷ record { message = raw (3 ∷ []); sender = 6 }
    ∷ []

poll_write-calls_example :
    poll_write (record (new [] []) {
      state = active;
      pending_request = none;
      is_terminated = false;
      requests = calls two_calls;
      sink = oks two_calls ++ (io_ok ∷ io_ok ∷ []);
    })
    ≡ (
      done true,
      record (new [] []) {
        state = active;
        pending_request = none;
        is_terminated = false;
        requests = [];
        sink = io_ok ∷ [];
        sent = (new [] []).sent ++ messages two_calls;
        responses = (new [] []).responses ++ awaited two_calls;
      },
    )
poll_write-calls_example = poll_write-calls (new [] []) two_calls (io_ok ∷ [])
