-- ===== src/Codec.antt =====
-- tokio-opengauss/src/codec.rs: the decoder that cuts the server's byte stream into batches of whole
-- messages, and the iterator over a batch.
pub mod InRange
pub mod Batch
pub mod Total
pub mod Async
pub mod Messages
pub mod Encode
use rust_opengauss.Prelude.{
  ℕ, zero, suc, ◌+◌, Bool, true, false, ◌||◌, Option, none, some, List, [], ◌∷◌, Bytes, length,
  take, drop, ltb, ◌==◌, if◌then◌else◌,
}
use rust_opengauss.Outcome.{Outcome, ok, err, panicked, ◌>>=◌}
use rust_opengauss.Crates.{Crates}
use rust_opengauss.Slice.{slice_from, split_to, on_buffer}
use rust_opengauss.Backend.Message.{AuthMode, Message}
use rust_opengauss.Backend.Tag.{
  notice_response_tag, notification_response_tag, parameter_status_tag, ready_for_query_tag,
}
use rust_opengauss.Backend.Parse.{Header, parse_header, parse_with_mode}

pub record BackendMessages : Type 0 where
  pub buf : Bytes
  pub mode : AuthMode

pub data BackendMessage : Type 0 where
  normal : BackendMessages → Bool → BackendMessage
  async : Message → BackendMessage

-- How the `while let` loop of `decode` ends: by a `break` or its condition, at `idx` with
-- `request_complete`; at an asynchronous message at the front; or not within the fuel.
pub data Scan : Type 0 where
  stopped : ℕ → Bool → Scan
  at_async : Scan
  unfinished : Scan

unfoldable pub is_async : ℕ → Bool
is_async tag =
    tag == notice_response_tag || tag == notification_response_tag || tag == parameter_status_tag

module _ ⦃c : Crates⦄ where
  -- `BackendMessages::next`
  unfoldable pub next : BackendMessages → Outcome (Option Message) × BackendMessages
  next ms =
      let (r, rest) = parse_with_mode ms.mode ms.buf in (r, record { buf = rest; mode = ms.mode })

  -- one round of the loop; `later` is the next round, at a given `idx`
  unfoldable pub round : (ℕ → Outcome Scan) → Bytes → ℕ → Option Header → Outcome Scan
  round later src idx none = ok (stopped idx false)
  round later src idx (some header) = slice_from src idx >>= λ rest.
      if ltb (length rest) (header.len + 1)
      then ok (stopped idx false)
      else if is_async header.tag
      then (if idx == 0 then ok at_async else ok (stopped idx false))
      else if header.tag == ready_for_query_tag
      then ok (stopped (idx + (header.len + 1)) true)
      else later (idx + (header.len + 1))

  unfoldable pub scan : ℕ → Bytes → ℕ → Outcome Scan
  scan zero src idx = ok unfinished
  scan (suc fuel) src idx = slice_from src idx >>= λ rest.
      parse_header rest >>= λ header. round (scan fuel src) src idx header

  -- `Message::parse_with_mode(src, mode)?.unwrap()`
  unfoldable pub unwrap_async :
      Outcome (Option Message) × Bytes → Outcome (Option BackendMessage) × Bytes
  unwrap_async (ok none, rest) = (panicked, rest)
  unwrap_async (ok (some m), rest) = (ok (some (async m)), rest)
  unwrap_async (err e, rest) = (err e, rest)
  unwrap_async (panicked, rest) = (panicked, rest)

  -- what follows the loop; a loop that does not end counts as a panic here
  unfoldable pub finish : AuthMode → Bytes → Outcome Scan → Outcome (Option BackendMessage) × Bytes
  unfolding unwrap_async
  finish mode src (ok at_async) = unwrap_async (parse_with_mode mode src)
  finish mode src (ok unfinished) = (panicked, src)
  finish mode src (ok (stopped idx complete)) =
      if idx == 0
      then (ok none, src)
      else on_buffer src (split_to src idx)
          λ split. (ok (some (normal (record { buf = split.0; mode = mode }) complete)), split.1)
  finish mode src (err e) = (err e, src)
  finish mode src panicked = (panicked, src)

  -- `PostgresCodec::decode`. Each round that goes on passes five bytes at least.
  unfoldable pub decode : AuthMode → Bytes → Outcome (Option BackendMessage) × Bytes
  decode mode src = finish mode src (scan (suc (length src)) src 0)
