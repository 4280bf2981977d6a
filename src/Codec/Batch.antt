-- ===== src/Codec/Batch.antt =====
-- About where `PostgresCodec::decode` (tokio-opengauss/src/codec.rs) ends a batch.
use rust_opengauss.Prelude.{
  ℕ, zero, suc, ◌+◌, ◌^◌, ◌≤◌, ◌<◌, ◌≡◌, refl, sym, ap, ◌∙◌, Bool, true, false, some, List, [], ◌∷◌,
  ◌++◌, arith, Bytes, All, length, take, drop, ltb, ◌==◌, append_assoc, length-append, length-drop,
  drop-drop, drop_append, take_append, le→ltb,
}
use rust_opengauss.Outcome.{Outcome, ok, ◌>>=◌}
use rust_opengauss.Crates.{Crates}
use rust_opengauss.Backend.Message.{AuthMode}
use rust_opengauss.Backend.Tag.{ready_for_query_tag}
use rust_opengauss.Backend.Parse.{parse_header}
use rust_opengauss.Backend.InRange.{parse_header_lem}
use rust_opengauss.Slice.{split_to_le, on_buffer}
use rust_opengauss.Codec.InRange.{scan_lem, round_lem}
use rust_opengauss.Backend.Wire.{frame}
use rust_opengauss.Backend.Frame.{frame_len, length-frame}
use rust_opengauss.Codec.{normal, Scan, stopped, is_async, round, scan, finish, decode}

module _ ⦃c : Crates⦄ where
  pub parse_header-frame :
      (tag : ℕ) (body rest : Bytes)
      → 4 + length body < 2 ^ 31
      → parse_header (frame tag body ++ rest)
        ≡ ok (some (record { tag = tag; len = 4 + length body }))
  parse_header-frame tag body rest h =
      let n : c.from_be (take 4 (drop 1 (frame tag body ++ rest))) ≡ 4 + length body =
        rw append_assoc (frame_len tag (4 + length body) (body ++ rest) (omega arith)) in
      let long : 5 ≤ length (frame tag body ++ rest) =
        omega (arith, length-append (frame tag body) rest, length-frame tag body) in
      parse_header_lem (frame tag body ++ rest) ∙ ground (arith, n, long)

  -- Frames one after the other.
  abbrev pub stream : List (ℕ × Bytes) → Bytes
  stream [] = []
  stream ((tag, body) ∷ fs) = frame tag body ++ stream fs

  -- What does not end a batch: no asynchronous message, not `ReadyForQuery`, and an `i32` length.
  abbrev pub IsOrdinary : ℕ × Bytes → Type 0
  IsOrdinary (tag, body) =
      (is_async tag ≡ false) × ((tag == ready_for_query_tag) ≡ false) × (4 + length body < 2 ^ 31)

  passed :
      (src rest : Bytes) (idx tag : ℕ) (body : Bytes)
      → drop idx src ≡ frame tag body ++ rest
      → drop (idx + (4 + length body + 1)) src ≡ rest
  passed src rest idx tag body e =
      sym (drop-drop (4 + length body + 1) idx src)
      ∙ rw e (drop_append _ (frame tag body) rest (omega (arith, length-frame tag body)))

  fits_whole :
      (src rest : Bytes) (idx tag : ℕ) (body : Bytes)
      → drop idx src ≡ frame tag body ++ rest
      → ltb (length (drop idx src)) (4 + length body + 1) ≡ false
  fits_whole src rest idx tag body e =
      rw e (le→ltb _ _ (omega (arith, length-append (frame tag body) rest, length-frame tag body)))

  inside :
      (src rest : Bytes) (idx tag : ℕ) (body : Bytes)
      → drop idx src ≡ frame tag body ++ rest
      → idx ≤ length src
  inside src rest idx tag body e = omega (
    arith,
    length-drop idx src,
    ap length e,
    length-append (frame tag body) rest,
    length-frame tag body,
  )

  -- A round over an ordinary frame goes on behind it.
  scan_ordinary :
      (fuel : ℕ) (src rest : Bytes) (idx tag : ℕ) (body : Bytes)
      → IsOrdinary (tag, body)
      → drop idx src ≡ frame tag body ++ rest
      → scan (suc fuel) src idx ≡ scan fuel src (idx + (4 + length body + 1))
  scan_ordinary fuel src rest idx tag body (na, nz, small) e =
      scan_lem fuel src idx (inside src rest idx tag body e)
      ∙ ap (λ h. h >>= λ header. round (scan fuel src) src idx header)
          (ap parse_header e ∙ parse_header-frame tag body rest small)
      ∙ round_lem (scan fuel src) src idx _ (inside src rest idx tag body e)
      ∙ rw (fits_whole src rest idx tag body e, na, nz)

  scan_ready :
      (fuel : ℕ) (src rest : Bytes) (idx : ℕ) (body : Bytes)
      → 4 + length body < 2 ^ 31
      → drop idx src ≡ frame ready_for_query_tag body ++ rest
      → scan (suc fuel) src idx ≡ ok (stopped (idx + (4 + length body + 1)) true)
  unfolding is_async
  scan_ready fuel src rest idx body small e =
      scan_lem fuel src idx (inside src rest idx ready_for_query_tag body e)
      ∙ ap (λ h. h >>= λ header. round (scan fuel src) src idx header)
          (ap parse_header e ∙ parse_header-frame ready_for_query_tag body rest small)
      ∙ round_lem (scan fuel src) src idx _ (inside src rest idx ready_for_query_tag body e)
      ∙ rw (fits_whole src rest idx ready_for_query_tag body e)

  -- The scan of ordinary frames comes down to the scan of what follows them.
  scan-stream :
      (fs : List (ℕ × Bytes)) (fuel : ℕ) (src tail : Bytes) (idx : ℕ) (r : Outcome Scan)
      → All IsOrdinary fs
      → drop idx src ≡ stream fs ++ tail
      → length (stream fs ++ tail) < fuel
      → ((f : ℕ) → length tail < f → scan f src (idx + length (stream fs)) ≡ r)
      → scan fuel src idx ≡ r
  scan-stream [] fuel src tail idx r o e long k = ap (scan fuel src) (omega arith) ∙ k fuel long
  scan-stream (f ∷ fs) zero src tail idx r o e long k = absurd (omega arith)
  scan-stream ((tag, body) ∷ fs) (suc fuel) src tail idx r o e long k =
      let e' : drop idx src ≡ frame tag body ++ (stream fs ++ tail) =
        e ∙ append_assoc (frame tag body) (stream fs) tail in
      let n : ℕ = 4 + length body + 1 in
      let size : length (frame tag body) ≡ n = omega (arith, length-frame tag body) in
      let total : length (stream ((tag, body) ∷ fs) ++ tail) ≡ n + length (stream fs ++ tail) =
        ap length (append_assoc (frame tag body) (stream fs) tail)
        ∙ length-append (frame tag body) (stream fs ++ tail)
        ∙ ap (λ m. m + length (stream fs ++ tail)) size in
      scan_ordinary fuel src (stream fs ++ tail) idx tag body o.0 e'
      ∙ scan-stream fs fuel src tail (idx + n) r o.1
          (passed src (stream fs ++ tail) idx tag body e') (omega (arith, total, long))
          (λ f h. ap (scan f src) (next_index (frame tag body) (stream fs) idx n size) ∙ k f h)
    where
      next_index :
          (a b : Bytes) (idx n : ℕ) → length a ≡ n → idx + n + length b ≡ idx + length (a ++ b)
      next_index a b idx n h = omega (arith, length-append a b, h)

  cut_batch :
      (mode : AuthMode) (batch rest : Bytes) (n : ℕ) (complete : Bool)
      → length batch ≡ n
      → 0 < n
      → finish mode (batch ++ rest) (ok (stopped n complete))
        ≡ (ok (some (normal (record { buf = batch; mode = mode }) complete)), rest)
  unfolding finish on_buffer
  cut_batch mode batch rest n complete e h = rw (
    nonzero n h,
    split_to_le (batch ++ rest) n (omega (arith, length-append batch rest)),
    take_append n batch rest e,
    drop_append n batch rest e,
  )
    where
      nonzero : (n : ℕ) → 0 < n → (n == 0) ≡ false
      nonzero n h = ground arith

  -- A batch up to `ReadyForQuery`: all whole messages to that one, which ends the request; what
  -- follows stays in the buffer.
  pub decode_complete :
      (mode : AuthMode) (fs : List (ℕ × Bytes)) (body rest : Bytes)
      → All IsOrdinary fs
      → 4 + length body < 2 ^ 31
      → decode mode (stream fs ++ (frame ready_for_query_tag body ++ rest)) ≡ (
        ok (
            some (
              normal
                (record { buf = stream fs ++ frame ready_for_query_tag body; mode = mode })
                true)),
        rest,
      )
  unfolding decode
  decode_complete mode fs body rest o small =
      ap (finish mode src) scanned
      ∙ cut (length (stream fs) + (4 + length body + 1)) size (omega arith)
    where
      src : Bytes
      src = stream fs ++ (frame ready_for_query_tag body ++ rest)

      batch : Bytes
      batch = stream fs ++ frame ready_for_query_tag body

      joined : src ≡ batch ++ rest
      joined = sym (append_assoc (stream fs) (frame ready_for_query_tag body) rest)

      size : length batch ≡ length (stream fs) + (4 + length body + 1)
      size = omega (
        arith,
        length-append (stream fs) (frame ready_for_query_tag body),
        length-frame ready_for_query_tag body,
      )

      last :
          (f : ℕ)
          → length (frame ready_for_query_tag body ++ rest) < f
          → scan f src (0 + length (stream fs))
            ≡ ok (stopped (length (stream fs) + (4 + length body + 1)) true)
      last zero h = absurd (omega arith)
      last (suc f) h =
          ap (scan (suc f) src) (omega arith)
          ∙ scan_ready f src rest (length (stream fs)) body small (drop_append _ (stream fs) _ refl)

      scanned :
          scan (suc (length src)) src 0
          ≡ ok (stopped (length (stream fs) + (4 + length body + 1)) true)
      scanned =
          scan-stream fs (suc (length src)) src (frame ready_for_query_tag body ++ rest) 0 _ o refl
            (omega arith) last

      cut :
          (n : ℕ)
          → length batch ≡ n
          → 0 < n
          → finish mode src (ok (stopped n true))
            ≡ (ok (some (normal (record { buf = batch; mode = mode }) true)), rest)
      cut n e h = rw joined (cut_batch mode batch rest n true e h)

  -- A first batch that ends without `ReadyForQuery`, if the scan stops behind `fs`.
  cut_stopped :
      (mode : AuthMode) (f : ℕ × Bytes) (fs : List (ℕ × Bytes)) (tail : Bytes)
      → All IsOrdinary (f ∷ fs)
      → ((k idx : ℕ) (src : Bytes)
          → 0 < idx
          → drop idx src ≡ tail
          → scan (suc k) src idx ≡ ok (stopped idx false))
      → decode mode (stream (f ∷ fs) ++ tail)
        ≡ (ok (some (normal (record { buf = stream (f ∷ fs); mode = mode }) false)), tail)
  unfolding decode
  cut_stopped mode (tag, body) fs tail o stops =
      ap (finish mode (batch ++ tail)) scanned
      ∙ cut_batch mode batch tail (length batch) false refl nonempty
    where
      batch : Bytes
      batch = stream ((tag, body) ∷ fs)

      nonempty : 0 < length batch
      nonempty = omega (arith, length-append (frame tag body) (stream fs), length-frame tag body)

      last :
          (k : ℕ)
          → length tail < k
          → scan k (batch ++ tail) (0 + length batch) ≡ ok (stopped (length batch) false)
      last zero h = absurd (omega arith)
      last (suc k) h =
          ap (scan (suc k) (batch ++ tail)) (omega arith)
          ∙ stops k (length batch) (batch ++ tail) nonempty (drop_append _ batch tail refl)

      scanned :
          scan (suc (length (batch ++ tail))) (batch ++ tail) 0 ≡ ok (stopped (length batch) false)
      scanned =
          scan-stream ((tag, body) ∷ fs) (suc (length (batch ++ tail))) (batch ++ tail) tail 0 _ o
            refl (omega arith) last

  -- An asynchronous message behind a batch ends the batch, and stays in the buffer.
  pub decode_stops_at_async :
      (mode : AuthMode) (f : ℕ × Bytes) (fs : List (ℕ × Bytes)) (tag : ℕ) (body rest : Bytes)
      → All IsOrdinary (f ∷ fs)
      → is_async tag ≡ true
      → 4 + length body < 2 ^ 31
      → decode mode (stream (f ∷ fs) ++ (frame tag body ++ rest)) ≡ (
        ok (some (normal (record { buf = stream (f ∷ fs); mode = mode }) false)),
        frame tag body ++ rest,
      )
  decode_stops_at_async mode f fs tag body rest o a small =
      cut_stopped mode f fs (frame tag body ++ rest) o stops
    where
      nonzero : (n : ℕ) → 0 < n → (n == 0) ≡ false
      nonzero n h = ground arith

      stops :
          (k idx : ℕ) (src : Bytes)
          → 0 < idx
          → drop idx src ≡ frame tag body ++ rest
          → scan (suc k) src idx ≡ ok (stopped idx false)
      stops k idx src h e =
          scan_lem k src idx (inside src rest idx tag body e)
          ∙ ap (λ h. h >>= λ header. round (scan k src) src idx header)
              (ap parse_header e ∙ parse_header-frame tag body rest small)
          ∙ round_lem (scan k src) src idx _ (inside src rest idx tag body e)
          ∙ rw (fits_whole src rest idx tag body e, a, nonzero idx h)
