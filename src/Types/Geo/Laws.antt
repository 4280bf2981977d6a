-- ===== src/Types/Geo/Laws.antt =====
-- About `POINT`, `BOX` and `PATH` of opengauss-protocol/src/types/mod.rs.
use rust_opengauss.Prelude.{
  nonzero, ℕ, suc, ◌+◌, ◌^◌, ◌<◌, ◌≡◌, refl, sym, ap, ap₂, ◌∙◌, Bool, true, false, not, List, [],
  ◌∷◌, ◌++◌, arith, Bytes, All, length, append_assoc, append-nil, ◌==◌, if◌then◌else◌,
}
use rust_opengauss.Outcome.{ok}
use rust_opengauss.Crates.{Crates}
use rust_opengauss.Read.{read_u8, is_empty}
use rust_opengauss.Read.Laws.{read_be-to_be}
use rust_opengauss.Iterate.{Yields}
use rust_opengauss.Write.{put, len, patch, i32_max}
use rust_opengauss.Write.Laws.{Writes, put-Writes, patch-append, from_usize_ok}
use rust_opengauss.Frontend.Parts.{encode_items, then-Writes}
use rust_opengauss.Types.Geo.{
  Point, Box, SqlPath, pred_i32, points_of, point_to_sql, point_from_sql, read_point, box_to_sql,
  box_from_sql, write_points, path_to_sql, path_from_sql, next_point,
}

-- Coordinates are patterns of 64 bits.
abbrev pub IsPoint : Point → Type 0
IsPoint p = (p.x < 2 ^ 64) × (p.y < 2 ^ 64)

pred_i32-suc : (n : ℕ) → n + 1 < 2 ^ 31 → pred_i32 (suc n) ≡ ok n
unfolding pred_i32
pred_i32-suc n h = ground arith

flag : (b : Bool) → not ((if b then 1 else 0) == 0) ≡ b
flag true = refl
flag false = refl

module _ ⦃c : Crates⦄ where
  abbrev pub encode_point : Point → Bytes
  encode_point p = c.to_be 8 p.x ++ c.to_be 8 p.y

  read_point-encode :
      (p : Point) (rest : Bytes) → IsPoint p → read_point (encode_point p ++ rest) ≡ ok (p, rest)
  unfolding read_point
  read_point-encode p rest h = rw (
    append_assoc (c.to_be 8 p.x) (c.to_be 8 p.y) rest,
    read_be-to_be 8 p.x (c.to_be 8 p.y ++ rest) (omega (arith, h.0)),
    read_be-to_be 8 p.y rest (omega (arith, h.1)),
  )

  read_point_end : (p : Point) → IsPoint p → read_point (encode_point p) ≡ ok (p, [])
  read_point_end p h = rw append-nil at (read_point-encode p [] h)

  point_to_sql-Writes : (p : Point) → Writes (point_to_sql p.x p.y) tt (encode_point p)
  unfolding point_to_sql
  point_to_sql-Writes p =
      then-Writes (put (c.to_be 8 p.x)) (put (c.to_be 8 p.y)) tt tt _ _ (put-Writes _)
        (put-Writes _)

  -- A point is appended in 16 bytes, which are read back.
  pub point_roundtrip :
      (p : Point)
      → IsPoint p
      → (s : Bytes) × Writes (point_to_sql p.x p.y) tt s × (point_from_sql s ≡ ok p)
  point_roundtrip p h = (
    encode_point p,
    point_to_sql-Writes p,
    unfold point_from_sql is_empty in rw (read_point_end p h),
  )

  -- A box is appended as its upper right and its lower left corner, and read back.
  pub box_roundtrip :
      (b : Box)
      → IsPoint b.upper_right × IsPoint b.lower_left
      → (s : Bytes) × Writes
          (box_to_sql b.upper_right.x b.upper_right.y b.lower_left.x b.lower_left.y)
          tt
          s
        × (box_from_sql s ≡ ok b)
  box_roundtrip b h = (
    encode_point b.upper_right ++ encode_point b.lower_left,
    (λ buf. unfold box_to_sql put in simp append_assoc),
    unfold box_from_sql is_empty in
        rw (
          read_point-encode b.upper_right (encode_point b.lower_left) h.0,
          read_point_end b.lower_left h.1,
        ),
  )

  write_points-Writes :
      (ps : List Point) (n : ℕ)
      → Writes (write_points ps n) (n + length ps) (encode_items encode_point ps)
  unfolding write_points put
  write_points-Writes [] n buf = ap₂ (λ (k : ℕ) s. (ok k, s)) (omega arith) (sym (append-nil buf))
  write_points-Writes (p ∷ ps) n buf =
      write_points-Writes ps (n + 1) ((buf ++ c.to_be 8 p.x) ++ c.to_be 8 p.y)
      ∙ ap₂ (λ (k : ℕ) s. (ok k, s)) (omega arith) (simp append_assoc)

  Yields-points :
      (ps : List Point)
      → All IsPoint ps
      → length ps < 2 ^ 31
      → Yields next_point (record { remaining = length ps; buf = encode_items encode_point ps }) ps
  unfolding next_point is_empty
  Yields-points [] h small = (record { remaining = 0; buf = [] }, refl)
  Yields-points (p ∷ ps) h small = (
    record { remaining = length ps; buf = encode_items encode_point ps },
    rw (
      nonzero (length ps),
      pred_i32-suc (length ps) (omega arith),
      read_point-encode p (encode_items encode_point ps) h.0,
    ),
    Yields-points ps h.1 (omega arith),
  )

  path_to_sql-Writes :
      (closed : Bool) (ps : List Point)
      → length ps < 2 ^ 31
      → Writes (path_to_sql closed ps) tt (
          ((if closed then 1 else 0) ∷ [])
          ++ (c.to_be 4 (length ps) ++ encode_items encode_point ps))
  unfolding path_to_sql put len
  path_to_sql-Writes closed ps small buf =
      let start : Bytes = buf ++ ((if closed then 1 else 0) ∷ []) in
      rw
        (
          write_points-Writes ps 0 (start ++ c.to_be 4 0),
          from_usize_ok i32_max (0 + length ps) (omega arith),
          append_assoc start (c.to_be 4 0) (encode_items encode_point ps),
        )
        (ap
            (λ (k : ℕ).
              patch (length start) (c.to_be 4 k)
                (start ++ (c.to_be 4 0 ++ encode_items encode_point ps)))
            (omega arith)
          ∙ patch-append start (c.to_be 4 0) (c.to_be 4 (length ps)) (encode_items encode_point ps)
              (c.to_be_length 4 0 ∙ sym (c.to_be_length 4 (length ps)))
          ∙ ap (λ s. (ok tt, s)) (append_assoc buf _ _))

  -- A path of fewer than 2 ^ 31 points is appended to the buffer in a form that is read back, open
  -- or closed, point by point.
  pub path_roundtrip :
      (closed : Bool) (ps : List Point)
      → All IsPoint ps
      → length ps < 2 ^ 31
      → (s : Bytes) × (p : SqlPath) × Writes (path_to_sql closed ps) tt s
        × (path_from_sql s ≡ ok p)
        × (p.closed ≡ closed)
        × Yields next_point (points_of p) ps
  path_roundtrip closed ps h small = (
    (if closed then 1 else 0) ∷ (c.to_be 4 (length ps) ++ encode_items encode_point ps),
    record { closed = closed; points = length ps; buf = encode_items encode_point ps },
    path_to_sql-Writes closed ps small,
    unfold path_from_sql read_u8 in
        rw (read_be-to_be 4 (length ps) (encode_items encode_point ps) (omega arith), flag closed),
    refl,
    Yields-points ps h small,
  )
