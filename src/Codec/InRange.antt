-- ===== src/Codec/InRange.antt =====
-- About the slices of `PostgresCodec::decode` (tokio-opengauss/src/codec.rs), where `idx` is in range.
use rust_opengauss.Prelude.{
  ℕ, suc, ◌+◌, ◌≤◌, ◌≡◌, refl, some, Bytes, length, drop, ltb, ◌==◌, false, true, if◌then◌else◌,
}
use rust_opengauss.Outcome.{Outcome, ok, ◌>>=◌}
use rust_opengauss.Crates.{Crates}
use rust_opengauss.Slice.{slice_from_le}
use rust_opengauss.Backend.Tag.{ready_for_query_tag}
use rust_opengauss.Backend.Parse.{Header, parse_header}
use rust_opengauss.Codec.{Scan, stopped, at_async, is_async, round, scan}

module _ ⦃c : Crates⦄ where
  pub scan_lem :
      (fuel : ℕ) (src : Bytes) (idx : ℕ)
      → idx ≤ length src
      → scan (suc fuel) src idx
        ≡ (parse_header (drop idx src) >>= λ header. round (scan fuel src) src idx header)
  unfolding scan
  scan_lem fuel src idx h = rw (slice_from_le src idx h) refl

  pub round_lem :
      (later : ℕ → Outcome Scan) (src : Bytes) (idx : ℕ) (header : Header)
      → idx ≤ length src
      → round later src idx (some header) ≡ (
          if ltb (length (drop idx src)) (header.len + 1)
          then ok (stopped idx false)
          else if is_async header.tag
          then (if idx == 0 then ok at_async else ok (stopped idx false))
          else if header.tag == ready_for_query_tag
          then ok (stopped (idx + (header.len + 1)) true)
          else later (idx + (header.len + 1)))
  unfolding round
  round_lem later src idx header h = rw (slice_from_le src idx h) refl
