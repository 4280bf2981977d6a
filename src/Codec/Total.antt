-- ===== src/Codec/Total.antt =====
-- About the end of the loop of `PostgresCodec::decode` (tokio-opengauss/src/codec.rs), and its `unwrap`.
use rust_opengauss.Prelude.{
  ℕ, zero, suc, ◌+◌, ◌≤◌, ◌<◌, ◌≡◌, ◌≢◌, inl, inr, refl, sym, ap, ◌∙◌, false, Option, none, some,
  arith, Bytes, get_or, length, take, drop, ltb, ◌==◌, if◌then◌else◌, length-drop, drop-drop,
  ltb→le, Bool-cases,
}
use rust_opengauss.Outcome.{Outcome, ok, err, panicked, ◌>>=◌}
use rust_opengauss.Crates.{Crates}
use rust_opengauss.Backend.Message.{AuthMode}
use rust_opengauss.Backend.Tag.{ready_for_query_tag}
use rust_opengauss.Backend.Parse.{Header, parse_header, parse_with_mode}
use rust_opengauss.Slice.{split_to_le, on_buffer}
use rust_opengauss.Backend.InRange.{
  len_of, parsed, header_parsed, parse_with_mode_lem, parse_header_lem,
}
use rust_opengauss.Codec.InRange.{scan_lem, round_lem}
use rust_opengauss.Backend.Frame.{parse_frame-ne-none}
use rust_opengauss.Backend.Total.{parse_with_mode-ne-panicked}
use rust_opengauss.Codec.{
  Scan, stopped, at_async, unfinished, is_async, round, scan, finish, decode,
}

module _ ⦃c : Crates⦄ where
  parsed_whole :
      (mode : AuthMode) (buf : Bytes) (h : Header)
      → header_parsed buf ≡ ok (some h)
      → ltb (length buf) (h.len + 1) ≡ false
      → (parsed mode buf).0 ≢ ok none
  parsed_whole mode buf h e l = λ p.
      ground (arith, parse_frame-ne-none mode (get_or buf 0 0) (drop 5 (take (len_of buf + 1) buf)))

  header_whole :
      (mode : AuthMode) (buf : Bytes) (h : Header)
      → parse_header buf ≡ ok (some h)
      → ltb (length buf) (h.len + 1) ≡ false
      → (parse_with_mode mode buf).0 ≢ ok none
  header_whole mode buf h e l p =
      parsed_whole mode buf h (sym (parse_header_lem buf) ∙ e) l
        (ap (λ r. r.0) (sym (parse_with_mode_lem mode buf)) ∙ p)

  parsed_len : (buf : Bytes) (h : Header) → header_parsed buf ≡ ok (some h) → 4 ≤ h.len
  parsed_len buf h e = ground arith

  header_len : (buf : Bytes) (h : Header) → parse_header buf ≡ ok (some h) → 4 ≤ h.len
  header_len buf h e = parsed_len buf h (sym (parse_header_lem buf) ∙ e)

  parsed-ne-panicked : (buf : Bytes) → header_parsed buf ≢ panicked
  parsed-ne-panicked buf e = ground arith

  header-ne-panicked : (buf : Bytes) → parse_header buf ≢ panicked
  header-ne-panicked buf e = parsed-ne-panicked buf (sym (parse_header_lem buf) ∙ e)

  -- What the scan of `src` may come to.
  abbrev IsSound : AuthMode → Bytes → Outcome Scan → Type 0
  IsSound mode src (ok (stopped idx complete)) = idx ≤ length src
  IsSound mode src (ok at_async) = (parse_with_mode mode src).0 ≢ ok none
  IsSound mode src (ok unfinished) = ⊥
  IsSound mode src (err e) = Unit {0}
  IsSound mode src panicked = ⊥

  pub suc_nonzero : (n : ℕ) → (suc n == 0) ≡ false
  suc_nonzero n = ground arith

  async-IsSound :
      (mode : AuthMode) (src : Bytes) (idx : ℕ) (h : Header)
      → idx ≤ length src
      → parse_header (drop idx src) ≡ ok (some h)
      → ltb (length (drop idx src)) (h.len + 1) ≡ false
      → IsSound mode src (if idx == 0 then ok at_async else ok (stopped idx false))
  async-IsSound mode src zero h i e l = header_whole mode src h e l
  async-IsSound mode src (suc idx) h i e l = rw (suc_nonzero idx) i

  passed_le :
      (src : Bytes) (idx n : ℕ)
      → idx ≤ length src
      → n ≤ length (drop idx src)
      → idx + n ≤ length src
  passed_le src idx n i h = omega (arith, length-drop idx src)

  round-IsSound :
      (mode : AuthMode) (src : Bytes) (idx : ℕ) (later : ℕ → Outcome Scan) (o : Option Header)
      → idx ≤ length src
      → parse_header (drop idx src) ≡ ok o
      → ((n : ℕ) → 4 < n → n ≤ length (drop idx src) → IsSound mode src (later (idx + n)))
      → IsSound mode src (round later src idx o)
  round-IsSound mode src idx later none i e k = unfold round in i
  round-IsSound mode src idx later (some h) i e k =
      rw (round_lem later src idx h i)
        (elim (Bool-cases (ltb (length (drop idx src)) (h.len + 1))) [
          | inl l ↦ rw l i
          | inr l ↦ rw l (elim (Bool-cases (is_async h.tag)) [
            | inl a ↦ rw a (async-IsSound mode src idx h i e l)
            | inr a ↦ rw a (elim (Bool-cases (h.tag == ready_for_query_tag)) [
              | inl z ↦ rw z (passed_le src idx (h.len + 1) i (ltb→le _ _ l))
              | inr z ↦
                  rw z (k (h.len + 1) (omega (arith, header_len (drop idx src) h e)) (ltb→le _ _ l))
            ])
          ])
        ])

  scan-IsSound :
      (mode : AuthMode) (fuel : ℕ) (src : Bytes) (idx : ℕ)
      → idx ≤ length src
      → length (drop idx src) < fuel
      → IsSound mode src (scan fuel src idx)
  scan-IsSound mode zero src idx i h = absurd (omega arith)
  scan-IsSound mode (suc fuel) src idx i h = rw (scan_lem fuel src idx i) (
      by_header (parse_header (drop idx src)) refl (λ n big fits.
        scan-IsSound mode fuel src (idx + n) (passed_le src idx n i fits)
          (omega (arith, ap length (drop-drop n idx src), length-drop n (drop idx src)))))
    where
      by_header :
          (r : Outcome (Option Header))
          → parse_header (drop idx src) ≡ r
          → ((n : ℕ)
              → 4 < n
              → n ≤ length (drop idx src)
              → IsSound mode src (scan fuel src (idx + n)))
          → IsSound mode src (r >>= λ header. round (scan fuel src) src idx header)
      by_header (ok o) e k = round-IsSound mode src idx (scan fuel src) o i e k
      by_header (err x) e k = tt
      by_header panicked e k = absurd (header-ne-panicked (drop idx src) e)

  finish-ne-panicked :
      (mode : AuthMode) (src : Bytes) (r : Outcome Scan)
      → IsSound mode src r
      → (finish mode src r).0 ≢ panicked
  unfolding finish on_buffer
  finish-ne-panicked mode src (ok (stopped idx complete)) h =
      λ e. ground (arith, split_to_le src idx h)
  finish-ne-panicked mode src (ok at_async) h =
      λ e. ground (arith, h, parse_with_mode-ne-panicked mode src)
  finish-ne-panicked mode src (ok unfinished) h = absurd h
  finish-ne-panicked mode src (err x) h = λ e. cc
  finish-ne-panicked mode src panicked h = absurd h

  -- On no buffer does the decoder panic: its slices and its split are in range, its `unwrap` has a
  -- message, and its loop ends.
  pub decode-ne-panicked : (mode : AuthMode) (src : Bytes) → (decode mode src).0 ≢ panicked
  unfolding decode
  decode-ne-panicked mode src =
      finish-ne-panicked mode src _
        (scan-IsSound mode (suc (length src)) src 0 (omega arith) (omega arith))
