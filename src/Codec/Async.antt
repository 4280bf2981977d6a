-- ===== src/Codec/Async.antt =====
-- About the messages that `PostgresCodec::decode` (tokio-opengauss/src/codec.rs) hands out by themselves.
use rust_opengauss.Prelude.{
  ℕ, zero, suc, ◌+◌, ◌≡◌, refl, ap, sym, subst, ◌∙◌, ==_iff, inl, inr, Bool, true, false, Option,
  none, some, [], ◌∷◌, arith, Bytes, length, get_or, drop, ltb, ◌==◌, Bool-cases, if◌then◌else◌,
}
use rust_opengauss.Outcome.{Outcome, ok, err, panicked, ◌>>=◌}
use rust_opengauss.Crates.{Crates}
use rust_opengauss.Read.{read_be, read_cstr, read_all, is_empty}
use rust_opengauss.Slice.{split_to, on_buffer, slice_from_elim}
use rust_opengauss.Backend.InRange.{len_of, header_parsed, parse_with_mode_lem, parse_header_lem}
use rust_opengauss.Backend.Message.{
  AuthMode, Message, notice_response, notification_response, parameter_status,
}
use rust_opengauss.Backend.Tag.{
  notice_response_tag, notification_response_tag, parameter_status_tag, ready_for_query_tag,
}
use rust_opengauss.Backend.Parse.{
  Header, parse_header, parse_tag, parse_tag_later, parse_notification, parse_parameter_status,
  parse_frame, drained, parse_with_mode,
}
use rust_opengauss.Codec.{
  BackendMessage, normal, async, Scan, stopped, at_async, unfinished, is_async, round, scan,
  unwrap_async, finish, decode,
}
use rust_opengauss.Codec.Total.{suc_nonzero}

-- The kinds of message that come by themselves.
abbrev pub IsKnown : Message → Type 0
IsKnown (notice_response body) = Unit
IsKnown (notification_response body) = Unit
IsKnown (parameter_status body) = Unit
IsKnown m = ⊥

abbrev pub KnownMessage : BackendMessage → Type 0
KnownMessage (normal messages complete) = Unit
KnownMessage (async m) = IsKnown m

-- A reader gives only such values.
abbrev Gives {ℓ} : {A : Type ℓ} → (A → Type 0) → Outcome (A × Bytes) → Type 0
Gives P (ok (a, rest)) = P a
Gives P (err e) = Unit
Gives P panicked = Unit

module _ {ℓ} {A : Type ℓ} (P : Message → Type 0) where
  after-Gives :
      (r : Outcome (A × Bytes)) (f : A × Bytes → Outcome (Message × Bytes))
      → ((p : A × Bytes) → Gives P (f p))
      → Gives P (r >>= f)
  after-Gives (ok p) f h = h p
  after-Gives (err e) f h = tt
  after-Gives panicked f h = tt

module _ ⦃c : Crates⦄ where
  notice-Gives :
      (mode : AuthMode) (body : Bytes) → Gives IsKnown (parse_tag mode notice_response_tag body)
  unfolding parse_tag
  notice-Gives mode body = after-Gives IsKnown (read_all body) _ (λ p. tt)

  notification-Gives :
      (mode : AuthMode) (body : Bytes)
      → Gives IsKnown (parse_tag mode notification_response_tag body)
  unfolding parse_tag parse_notification
  notification-Gives mode body =
      after-Gives IsKnown (read_be 4 body) _ λ p.
        after-Gives IsKnown (read_cstr p.1) _ λ q. after-Gives IsKnown (read_cstr q.1) _ λ r. tt

  status-Gives :
      (mode : AuthMode) (body : Bytes) → Gives IsKnown (parse_tag mode parameter_status_tag body)
  unfolding parse_tag parse_tag_later parse_parameter_status
  status-Gives mode body =
      after-Gives IsKnown (read_cstr body) _ λ p. after-Gives IsKnown (read_cstr p.1) _ λ q. tt

  parse_tag-Gives :
      (mode : AuthMode) (tag : ℕ) (body : Bytes)
      → is_async tag ≡ true
      → Gives IsKnown (parse_tag mode tag body)
  unfolding is_async
  parse_tag-Gives mode tag body a = elim (Bool-cases (tag == notice_response_tag)) [
    | inl n ↦ rw ((==_iff _ _).0 n) (notice-Gives mode body)
    | inr n ↦ elim (Bool-cases (tag == notification_response_tag)) [
      | inl m ↦ rw ((==_iff _ _).0 m) (notification-Gives mode body)
      | inr m ↦ rw ((==_iff _ _).0 (rw (n, m) at a)) (status-Gives mode body)
    ]
  ]

  -- An answer of the parser that is a message is one of those.
  abbrev KnownResult : Outcome (Option Message) → Type 0
  KnownResult (ok (some m)) = IsKnown m
  KnownResult (ok none) = Unit
  KnownResult (err e) = Unit
  KnownResult panicked = Unit

  drained-Known : (m : Message) (rest : Bytes) → IsKnown m → KnownResult (drained m rest)
  unfolding drained is_empty
  drained-Known m [] h = h
  drained-Known m (b ∷ rest) h = tt

  frame-Known :
      (r : Outcome (Message × Bytes)) → Gives IsKnown r → KnownResult (r >>= λ p. drained p.0 p.1)
  frame-Known (ok (m, rest)) h = drained-Known m rest h
  frame-Known (err e) h = tt
  frame-Known panicked h = tt

  if-Known :
      (b : Bool) (x y : Outcome (Option Message) × Bytes)
      → KnownResult x.0
      → KnownResult y.0
      → KnownResult (if b then x else y).0
  if-Known true x y h k = h
  if-Known false x y h k = k

  parse-Known :
      (mode : AuthMode) (src : Bytes)
      → is_async (get_or src 0 0) ≡ true
      → KnownResult (parse_with_mode mode src).0
  unfolding parse_frame
  parse-Known mode src a = rw (parse_with_mode_lem mode src) (
      if-Known (ltb (length src) 5) _ _ tt (
        if-Known (ltb (len_of src) 4) _ _ tt (
          if-Known (ltb (length src) (len_of src + 1)) _ _ tt
            (frame-Known _ (parse_tag-Gives mode (get_or src 0 0) _ a)))))

  -- The scan stops at an asynchronous message only at the front.
  abbrev IsFront : Bytes → Outcome Scan → Type 0
  IsFront src (ok at_async) = is_async (get_or src 0 0) ≡ true
  IsFront src (ok (stopped idx complete)) = Unit
  IsFront src (ok unfinished) = Unit
  IsFront src (err e) = Unit
  IsFront src panicked = Unit

  parsed_tag : (buf : Bytes) (h : Header) → header_parsed buf ≡ ok (some h) → h.tag ≡ get_or buf 0 0
  parsed_tag buf h e = ground arith

  header_tag : (buf : Bytes) (h : Header) → parse_header buf ≡ ok (some h) → h.tag ≡ get_or buf 0 0
  header_tag buf h e = parsed_tag buf h (sym (parse_header_lem buf) ∙ e)

  async-IsFront :
      (src : Bytes) (idx : ℕ) (h : Header)
      → parse_header (drop idx src) ≡ ok (some h)
      → is_async h.tag ≡ true
      → IsFront src (if idx == 0 then ok at_async else ok (stopped idx false))
  async-IsFront src zero h e a = ap is_async (sym (header_tag src h e)) ∙ a
  async-IsFront src (suc idx) h e a = rw (suc_nonzero idx) tt

  round-IsFront :
      (src : Bytes) (idx : ℕ) (later : ℕ → Outcome Scan) (o : Option Header)
      → parse_header (drop idx src) ≡ ok o
      → ((n : ℕ) → IsFront src (later n))
      → IsFront src (round later src idx o)
  unfolding round
  round-IsFront src idx later none e k = tt
  round-IsFront src idx later (some h) e k = slice_from_elim (IsFront src) src idx _ tt λ _.
      elim (Bool-cases (ltb (length (drop idx src)) (h.len + 1))) [
        | inl l ↦ rw l tt
        | inr l ↦ rw l (elim (Bool-cases (is_async h.tag)) [
          | inl a ↦ rw a (async-IsFront src idx h e a)
          | inr a ↦ rw a (elim (Bool-cases (h.tag == ready_for_query_tag)) [
            | inl z ↦ rw z tt
            | inr z ↦ rw z (k _)
          ])
        ])
      ]

  scan-IsFront : (fuel : ℕ) (src : Bytes) (idx : ℕ) → IsFront src (scan fuel src idx)
  unfolding scan
  scan-IsFront zero src idx = tt
  scan-IsFront (suc fuel) src idx =
      let next : (n : ℕ) → IsFront src (scan fuel src n) = scan-IsFront fuel src in
      slice_from_elim (IsFront src) src idx _ tt
        (λ _. by_header (parse_header (drop idx src)) refl next)
    where
      by_header :
          (r : Outcome (Option Header))
          → parse_header (drop idx src) ≡ r
          → ((n : ℕ) → IsFront src (scan fuel src n))
          → IsFront src (r >>= λ header. round (scan fuel src) src idx header)
      by_header (ok o) e k = round-IsFront src idx (scan fuel src) o e k
      by_header (err x) e k = tt
      by_header panicked e k = tt

  abbrev KnownBatch : Outcome (Option BackendMessage) → Type 0
  KnownBatch (ok (some m)) = KnownMessage m
  KnownBatch (ok none) = Unit
  KnownBatch (err e) = Unit
  KnownBatch panicked = Unit

  unwrap-Known :
      (r : Outcome (Option Message) × Bytes) → KnownResult r.0 → KnownBatch (unwrap_async r).0
  unfolding unwrap_async
  unwrap-Known (ok none, rest) h = tt
  unwrap-Known (ok (some m), rest) h = h
  unwrap-Known (err e, rest) h = tt
  unwrap-Known (panicked, rest) h = tt

  if-KnownBatch :
      (b : Bool) (x y : Outcome (Option BackendMessage) × Bytes)
      → KnownBatch x.0
      → KnownBatch y.0
      → KnownBatch (if b then x else y).0
  if-KnownBatch true x y h k = h
  if-KnownBatch false x y h k = k

  split-Known :
      (mode : AuthMode) (src : Bytes) (complete : Bool) (o : Outcome (Bytes × Bytes))
      → KnownBatch
          (on_buffer src o (λ split.
            (ok (some (normal (record { buf = split.0; mode = mode }) complete)), split.1))).0
  unfolding on_buffer
  split-Known mode src complete (ok split) = tt
  split-Known mode src complete (err e) = tt
  split-Known mode src complete panicked = tt

  finish-Known :
      (mode : AuthMode) (src : Bytes) (r : Outcome Scan)
      → IsFront src r
      → KnownBatch (finish mode src r).0
  unfolding finish
  finish-Known mode src (ok at_async) h =
      unwrap-Known (parse_with_mode mode src) (parse-Known mode src h)
  finish-Known mode src (ok unfinished) h = tt
  finish-Known mode src (ok (stopped idx complete)) h =
      if-KnownBatch (idx == 0) _ _ tt (split-Known mode src complete (split_to src idx))
  finish-Known mode src (err e) h = tt
  finish-Known mode src panicked h = tt

  -- What the decoder hands out by itself is a notice, a notification or a parameter's change.
  pub decode-KnownMessage :
      (mode : AuthMode) (src : Bytes) (m : BackendMessage)
      → (decode mode src).0 ≡ ok (some m)
      → KnownMessage m
  unfolding decode
  decode-KnownMessage mode src m e =
      subst KnownBatch e (finish-Known mode src _ (scan-IsFront (suc (length src)) src 0))
