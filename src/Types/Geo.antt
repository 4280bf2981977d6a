-- ===== src/Types/Geo.antt =====
-- `POINT`, `BOX` and `PATH` of opengauss-protocol/src/types/mod.rs. A coordinate is the bit pattern
-- of its `f64`.
pub mod Laws
use rust_opengauss.Prelude.{
  ℕ, zero, suc, ◌+◌, ◌-◌, ◌*◌, ◌^◌, Bool, true, false, not, Option, none, some, List, [], ◌∷◌,
  Bytes, length, ltb, ◌==◌, is_negative_i32, minus_one_i32, if◌then◌else◌,
}
use rust_opengauss.Outcome.{Outcome, ok, err, panicked, other, ◌>>=◌ as bind}
use rust_opengauss.Crates.{Crates}
use rust_opengauss.Read.{Reader, ◌>>=◌, pure, read_u8, read_be, is_empty}
use rust_opengauss.Iterate.{Next}
use rust_opengauss.Write
use rust_opengauss.Write.{◌>>>◌, Writer, put, len, patch, i32_max, from_usize}

pub record Point : Type 0 where
  pub x : ℕ
  pub y : ℕ

pub record Box : Type 0 where
  pub upper_right : Point
  pub lower_left : Point

pub record SqlPath : Type 0 where
  pub closed : Bool
  pub points : ℕ
  pub buf : Bytes

pub record PathPoints : Type 0 where
  pub remaining : ℕ
  pub buf : Bytes

-- `PathPoints::remaining - 1`, an `i32`; below zero it stays negative, and at the least value the
-- subtraction overflows.
unfoldable pub pred_i32 : ℕ → Outcome ℕ
pred_i32 n = if n == 2 ^ 31 then panicked else ok (if n == 0 then minus_one_i32 else n - 1)

-- the points of a path
abbrev pub points_of : SqlPath → PathPoints
points_of p = record { remaining = p.points; buf = p.buf }

module _ ⦃c : Crates⦄ where
  unfoldable pub point_to_sql : ℕ → ℕ → Writer (Unit {0})
  point_to_sql x y = put (c.to_be 8 x) >>> put (c.to_be 8 y)

  unfoldable pub read_point : Reader Point
  read_point = do x ← read_be 8; y ← read_be 8; pure (record { x = x; y = y })

  unfoldable pub point_from_sql : Bytes → Outcome Point
  point_from_sql buf =
      bind (read_point buf)
        λ p. if not (is_empty p.1) then err (other "invalid buffer size") else ok p.0

  unfoldable pub box_to_sql : ℕ → ℕ → ℕ → ℕ → Writer (Unit {0})
  box_to_sql x1 y1 x2 y2 =
      put (c.to_be 8 x1) >>> (put (c.to_be 8 y1) >>> (put (c.to_be 8 x2) >>> put (c.to_be 8 y2)))

  unfoldable pub box_from_sql : Bytes → Outcome Box
  box_from_sql buf = bind (read_point buf) λ p. bind (read_point p.1) λ q.
      if not (is_empty q.1)
      then err (other "invalid buffer size")
      else ok (record { upper_right = p.0; lower_left = q.0 })

  -- the loop of `path_to_sql`, with the count so far
  unfoldable pub write_points : List Point → ℕ → Writer ℕ
  write_points [] num_points = Write.pure num_points
  write_points (p ∷ points) num_points =
      put (c.to_be 8 p.x) >>> (put (c.to_be 8 p.y) >>> write_points points (num_points + 1))

  unfoldable pub path_to_sql : Bool → List Point → Writer (Unit {0})
  path_to_sql closed points =
      put ((if closed then 1 else 0) ∷ [])
      >>> Write.◌>>=◌ len λ points_idx.
        put (c.to_be 4 0)
        >>> Write.◌>>=◌ (write_points points 0) λ n.
          Write.◌>>=◌ (Write.lift (from_usize i32_max n))
            λ num_points. patch points_idx (c.to_be 4 num_points)

  unfoldable pub path_from_sql : Bytes → Outcome SqlPath
  path_from_sql buf = bind (read_u8 buf) λ p.
      bind (read_be 4 p.1) λ q. ok (record { closed = not (p.0 == 0); points = q.0; buf = q.1 })

  -- `PathPoints::next`
  unfoldable pub next_point : Next PathPoints Point
  next_point it =
      if it.remaining == 0
      then (if not (is_empty it.buf)
          then err (other "invalid message length: path points not drained")
          else ok (none, it))
      else bind (pred_i32 it.remaining) λ remaining.
        bind (read_point it.buf) λ p. ok (some p.0, record { remaining = remaining; buf = p.1 })
