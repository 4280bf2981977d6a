-- ===== src/Examples/Server.antt =====
-- Messages of the server, the codec and the iterators.
use mathlib.Core.List.{map}
use rust_opengauss.Prelude.{
  ℕ, ◌≡◌, ◌≢◌, refl, Option, none, some, List, [], ◌∷◌, ◌++◌, ◌-◌, ◌^◌, true, false, arith, Bytes,
}
use rust_opengauss.Outcome.{ok, panicked}
use rust_opengauss.Crates.Native.{native_crates, be_bytes, be_value, first_index}
use rust_opengauss.Read.{read_exact, read_be, read_cstr, is_empty}
use rust_opengauss.Iterate.{Yields}
use rust_opengauss.Backend.Message.{
  Message, standard, opengauss, authentication_sha256_password, parameter_status, command_complete,
  parse_complete,
}
use rust_opengauss.Slice
use rust_opengauss.Slice.{on_buffer, read_word, split_to, slice_from}
use rust_opengauss.Backend.Parse.{parse_with_mode, parse_frame, parse_tag, tag_len}
use rust_opengauss.Backend.Wire.{frame, render, encode}
use rust_opengauss.Backend.RoundTrip.{parse_frame-encode}
use rust_opengauss.Backend.Frame.{
  parse_with_mode-render, parse_with_mode-append, parse_with_mode_waits,
}
use rust_opengauss.Backend.Total.{parse_with_mode-ne-panicked}
use rust_opengauss.Backend.Iter.{ranges, next_range, DataRowRanges, ErrorField, next_field, Field}
use rust_opengauss.Backend.Iter.Row.{row, slice, ranges-row}
use rust_opengauss.Backend.Iter.Lists.{Yields-fields, encode_fields}
use rust_opengauss.Utf8.{is_utf8}
use rust_opengauss.Codec.{decode, is_async, normal, async}
use rust_opengauss.Codec.Batch.{stream, decode_complete, decode_stops_at_async}
use rust_opengauss.Codec.Total.{decode-ne-panicked}
use rust_opengauss.Codec.Messages
use rust_opengauss.Codec.Messages.{renders, Yields-renders, decode-async}

abbrev status : Message
status = parameter_status (record { name = b'a' ∷ []; value = b'b' ∷ [] })

abbrev done : Message
done = command_complete (record { tag = b'S' ∷ b'E' ∷ [] })

abbrev md5 : Message
md5 = authentication_sha256_password (record {
  password_stored_method = 1;
  random64code = none;
  token = none;
  server_iteration = none;
  md5_salt = some (1 ∷ 2 ∷ 3 ∷ 4 ∷ []);
})

parse-done : parse_with_mode standard (render done ++ (7 ∷ [])) ≡ (ok (some done), 7 ∷ [])
unfolding parse_with_mode parse_frame parse_tag read_cstr is_empty be_bytes be_value first_index
    on_buffer tag_len Slice.index Slice.slice read_word split_to slice_from
parse-done = refl

parse_frame-encode_example : parse_frame opengauss (encode md5).0 (encode md5).1 ≡ ok (some md5)
parse_frame-encode_example = parse_frame-encode opengauss md5 (refl, (refl, refl))

parse_with_mode-render_example :
    parse_with_mode standard (render status ++ (9 ∷ [])) ≡ (ok (some status), 9 ∷ [])
parse_with_mode-render_example =
    parse_with_mode-render standard status (9 ∷ []) (omega arith) (omega arith)

abbrev bad_length : Bytes
bad_length = b'C' ∷ 0 ∷ 0 ∷ 0 ∷ 3 ∷ []

refused : (parse_with_mode standard bad_length).0 ≢ ok none
unfolding parse_with_mode be_value on_buffer tag_len Slice.index Slice.slice read_word
refused e = cc

parse_with_mode-append_example :
    parse_with_mode standard (bad_length ++ (7 ∷ []))
    ≡ ((parse_with_mode standard bad_length).0, (parse_with_mode standard bad_length).1 ++ (7 ∷ []))
parse_with_mode-append_example = parse_with_mode-append standard bad_length (7 ∷ []) refused

parse_with_mode_waits_example :
    parse_with_mode standard (b'C' ∷ 0 ∷ 0 ∷ 0 ∷ 6 ∷ b'S' ∷ [])
    ≡ (ok none, b'C' ∷ 0 ∷ 0 ∷ 0 ∷ 6 ∷ b'S' ∷ [])
unfolding be_bytes
parse_with_mode_waits_example =
    parse_with_mode_waits standard b'C' 0 (b'S' ∷ 0 ∷ []) (b'C' ∷ 0 ∷ 0 ∷ 0 ∷ 6 ∷ b'S' ∷ []) []
      (omega arith) refl

waits : (parse_with_mode standard (b'C' ∷ 0 ∷ [])).0 ≡ ok none
unfolding parse_with_mode
waits = refl

parse_with_mode-ne-panicked_example : (parse_with_mode standard bad_length).0 ≢ panicked
parse_with_mode-ne-panicked_example = parse_with_mode-ne-panicked standard bad_length

-- A batch of one message up to `ReadyForQuery`, with one byte of the next behind it.
abbrev one_frame : List (ℕ × Bytes)
one_frame = (b'1', []) ∷ []

decode_complete_example :
    decode standard (stream one_frame ++ (frame b'Z' (b'I' ∷ []) ++ (5 ∷ []))) ≡ (
      ok (
          some (
            normal
              (record { buf = stream one_frame ++ frame b'Z' (b'I' ∷ []); mode = standard })
              true)),
      5 ∷ [],
    )
unfolding is_async
decode_complete_example =
    decode_complete standard one_frame (b'I' ∷ []) (5 ∷ []) ((refl, refl, omega arith), tt)
      (omega arith)

decode_stops_at_async_example :
    decode standard (stream one_frame ++ (frame b'N' [] ++ (5 ∷ []))) ≡ (
      ok (some (normal (record { buf = stream one_frame; mode = standard }) false)),
      frame b'N' [] ++ (5 ∷ []),
    )
unfolding is_async
decode_stops_at_async_example =
    decode_stops_at_async standard (b'1', []) [] b'N' [] (5 ∷ []) ((refl, refl, omega arith), tt)
      refl (omega arith)

decode-ne-panicked_example : (decode standard bad_length).0 ≢ panicked
decode-ne-panicked_example = decode-ne-panicked standard bad_length

decode-async_example :
    decode standard (render status ++ (9 ∷ [])) ≡ (ok (some (async status)), 9 ∷ [])
unfolding is_async
decode-async_example = decode-async standard status (9 ∷ []) (omega arith, omega arith) refl

Yields-renders_example :
    Messages.Yields
      (record { buf = renders (done ∷ parse_complete ∷ []); mode = standard })
      (done ∷ parse_complete ∷ [])
Yields-renders_example =
    Yields-renders standard (done ∷ parse_complete ∷ [])
      ((omega arith, omega arith), ((tt, omega arith), tt))

abbrev two_columns : List (Option Bytes)
two_columns = some (7 ∷ 8 ∷ []) ∷ none ∷ []

ranges-row_example :
    (rs : List (Option (ℕ × ℕ))) × Yields next_range
      (ranges (record { storage = row two_columns; len = 2 }))
      rs
    × (map (slice (row two_columns)) rs ≡ two_columns)
ranges-row_example = ranges-row two_columns (omega arith, (tt, tt))

abbrev at_value : DataRowRanges
at_value = record { buf = 0 ∷ 0 ∷ 0 ∷ 1 ∷ 9 ∷ 6 ∷ []; len = 6; remaining = 1 }

abbrev behind_value : DataRowRanges
behind_value = record { buf = 6 ∷ []; len = 6; remaining = 0 }

one_range : next_range at_value ≡ ok (some (some (4, 5)), behind_value)
unfolding next_range read_be read_exact be_value
one_range = refl

abbrev severity : ErrorField
severity = record { type_ = b'S'; value = b'F' ∷ [] }

abbrev id_field : Field
id_field = record {
  name = b'i' ∷ b'd' ∷ [];
  table_oid = 16384;
  column_id = 1;
  type_oid = 23;
  type_size = 4;
  type_modifier = 2 ^ 32 - 1;
  format = 1;
}

Yields-fields_example :
    Yields next_field
      (record { buf = encode_fields (id_field ∷ []); remaining = 1 })
      (id_field ∷ [])
unfolding is_utf8
Yields-fields_example = Yields-fields (id_field ∷ []) (
  (omega arith, refl, omega arith, omega arith, omega arith, omega arith, omega arith, omega arith),
  tt,
)

abbrev scram : List Bytes
scram = (b'S' ∷ b'C' ∷ []) ∷ []
