-- ===== src/Backend/Parse.antt =====
-- `Header::parse` and `Message::parse_with_mode`.
use rust_opengauss.Prelude.{
  ℕ, zero, suc, ◌+◌, Option, none, some, Bytes, length, ltb, ◌==◌, ◌||◌, is_negative_i32,
  if◌then◌else◌,
}
use rust_opengauss.Outcome.{Outcome, ok, err, invalid_input, invalid_data, unknown, ◌>>=◌ as bind}
use rust_opengauss.Crates.{Crates}
use rust_opengauss.Slice.{index, slice, slice_from, split_to, on_buffer, read_word}
use rust_opengauss.Read.{
  Reader, ◌>>=◌, ◌>>◌, pure, fail, read_u8, read_all, read_be, read_cstr, is_empty,
}
use rust_opengauss.Backend.Message.{
  AuthMode, Message, standard, backend_key_data, bind_complete, close_complete, command_complete,
  copy_data, copy_done, copy_in_response, copy_out_response, data_row, empty_query_response,
  error_response, no_data, notice_response, notification_response, parameter_description,
  parameter_status, parse_complete, portal_suspended, ready_for_query, row_description,
  negotiate_protocol_version,
}
use rust_opengauss.Backend.Tag.{
  parse_complete_tag, bind_complete_tag, close_complete_tag, notification_response_tag,
  copy_done_tag, command_complete_tag, copy_data_tag, data_row_tag, error_response_tag,
  copy_in_response_tag, copy_out_response_tag, empty_query_response_tag, backend_key_data_tag,
  no_data_tag, notice_response_tag, authentication_tag, portal_suspended_tag, parameter_status_tag,
  parameter_description_tag, row_description_tag, ready_for_query_tag,
  negotiate_protocol_version_tag,
}
use rust_opengauss.Backend.Auth.{parse_auth}

pub record Header : Type 0 where
  pub tag : ℕ
  pub len : ℕ

-- `for _ in 0..count` with an `i32` count: a negative one makes no round.
abbrev pub rounds : ℕ → ℕ
rounds count = if is_negative_i32 count then 0 else count

module _ ⦃c : Crates⦄ where
  -- `Header::parse`; the length is an `i32`
  unfoldable pub parse_header : Bytes → Outcome (Option Header)
  parse_header buf =
      if ltb (length buf) 5
      then ok none
      else bind (index buf 0) λ tag. bind (slice_from buf 1) λ bytes. bind (read_word bytes) λ len.
        if is_negative_i32 len || ltb len 4
        then err (invalid_data "invalid message length: header length < 4")
        else ok (some (record { tag = tag; len = len }))

  unfoldable pub skip_cstrs : ℕ → Reader (Unit {0})
  skip_cstrs zero = pure tt
  skip_cstrs (suc n) = do read_cstr; skip_cstrs n

  unfoldable pub parse_notification : Reader Message
  parse_notification = do
    process_id ← read_be 4
    channel ← read_cstr
    message ← read_cstr
    pure (
        notification_response
          (record { process_id = process_id; channel = channel; message = message }))

  unfoldable pub parse_copy_in : Reader Message
  parse_copy_in = do
    format ← read_u8
    len ← read_be 2
    storage ← read_all
    pure (copy_in_response (record { format = format; len = len; storage = storage }))

  unfoldable pub parse_copy_out : Reader Message
  parse_copy_out = do
    format ← read_u8
    len ← read_be 2
    storage ← read_all
    pure (copy_out_response (record { format = format; len = len; storage = storage }))

  unfoldable pub parse_key_data : Reader Message
  parse_key_data = do
    process_id ← read_be 4
    secret_key ← read_be 4
    read_all
    pure (backend_key_data (record { process_id = process_id; secret_key = secret_key }))

  unfoldable pub parse_parameter_status : Reader Message
  parse_parameter_status = do
    name ← read_cstr
    value ← read_cstr
    pure (parameter_status (record { name = name; value = value }))

  unfoldable pub parse_negotiate : Reader Message
  parse_negotiate = do
    read_be 4
    count ← read_be 4
    skip_cstrs (rounds count)
    pure negotiate_protocol_version

  -- the tags from `PORTAL_SUSPENDED_TAG` on
  unfoldable pub parse_tag_later : ℕ → Reader Message
  parse_tag_later tag =
      if tag == portal_suspended_tag
      then pure portal_suspended
      else if tag == parameter_status_tag
      then parse_parameter_status
      else if tag == parameter_description_tag
      then (do
        len ← read_be 2
        storage ← read_all
        pure (parameter_description (record { storage = storage; len = len })))
      else if tag == row_description_tag
      then (do
        len ← read_be 2
        storage ← read_all
        pure (row_description (record { storage = storage; len = len })))
      else if tag == ready_for_query_tag
      then (do status ← read_u8; pure (ready_for_query (record { status = status })))
      else if tag == negotiate_protocol_version_tag
      then parse_negotiate
      else fail (unknown "unknown message tag" tag)

  -- the `match` on the tag
  unfoldable pub parse_tag : AuthMode → ℕ → Reader Message
  parse_tag mode tag =
      if tag == parse_complete_tag
      then pure parse_complete
      else if tag == bind_complete_tag
      then pure bind_complete
      else if tag == close_complete_tag
      then pure close_complete
      else if tag == notification_response_tag
      then parse_notification
      else if tag == copy_done_tag
      then pure copy_done
      else if tag == command_complete_tag
      then (do s ← read_cstr; pure (command_complete (record { tag = s })))
      else if tag == copy_data_tag
      then (do s ← read_all; pure (copy_data (record { storage = s })))
      else if tag == data_row_tag
      then (do
        len ← read_be 2
        storage ← read_all
        pure (data_row (record { storage = storage; len = len })))
      else if tag == error_response_tag
      then (do s ← read_all; pure (error_response (record { storage = s })))
      else if tag == copy_in_response_tag
      then parse_copy_in
      else if tag == copy_out_response_tag
      then parse_copy_out
      else if tag == empty_query_response_tag
      then pure empty_query_response
      else if tag == backend_key_data_tag
      then parse_key_data
      else if tag == no_data_tag
      then pure no_data
      else if tag == notice_response_tag
      then (do s ← read_all; pure (notice_response (record { storage = s })))
      else if tag == authentication_tag
      then parse_auth mode
      else parse_tag_later tag

  -- the check that the message's own bytes are used up
  unfoldable pub drained : Message → Bytes → Outcome (Option Message)
  drained m rest =
      if is_empty rest
      then ok (some m)
      else err (invalid_input "invalid message length: expected buffer to be empty")

  -- the message in the frame that `split_to` has cut off
  unfoldable pub parse_frame : AuthMode → ℕ → Bytes → Outcome (Option Message)
  unfolding drained
  parse_frame mode tag body = bind (parse_tag mode tag body) (λ p. drained p.0 p.1)

  -- the tag and the length field
  unfoldable pub tag_len : Bytes → Outcome (ℕ × ℕ)
  tag_len buf =
      bind (index buf 0)
        λ tag. bind (slice buf 1 5) λ bytes. bind (read_word bytes) λ len. ok (tag, len)

  -- `Message::parse_with_mode`: the answer and what stays in the buffer. An error in a whole
  -- frame leaves the buffer behind it; `reserve` changes no content. The `Buffer` reads the frame
  -- from its index 5 on.
  unfoldable pub parse_with_mode : AuthMode → Bytes → Outcome (Option Message) × Bytes
  parse_with_mode mode buf =
      if ltb (length buf) 5
      then (ok none, buf)
      else on_buffer buf (tag_len buf) λ head.
        if ltb head.1 4
        then (err (invalid_input "invalid message length: parsing u32"), buf)
        else if ltb (length buf) (head.1 + 1)
        then (ok none, buf)
        else on_buffer buf (split_to buf (head.1 + 1))
            λ split. (bind (slice_from split.0 5) λ body. parse_frame mode head.0 body, split.1)

  -- `Message::parse`
  unfoldable pub parse : Bytes → Outcome (Option Message) × Bytes
  parse = parse_with_mode standard
