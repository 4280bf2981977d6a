-- ===== src/Write/Laws.antt =====
-- About what the writers append, where they succeed.
use rust_opengauss.Prelude.{
  ℕ, ◌+◌, ◌^◌, ◌≤◌, ◌<◌, ◌≡◌, refl, sym, ap, ◌∙◌, false, [], ◌++◌, arith, Bytes, length, drop, ltb,
  le→ltb, length-append, drop-drop, take_append, drop_append, append_assoc, append-nil,
  minus_one_i32,
}
use rust_opengauss.Outcome.{ok}
use rust_opengauss.Crates.{Crates}
use rust_opengauss.Write.{
  Writer, ◌>>=◌, pure, continue, put, len, len_from, patch, IsNull, null, not_null, i32_max,
  from_usize, write_nullable, write_nullable_as, value_size,
}

-- The writer succeeds with `a` on every buffer, and appends exactly `s`.
abbrev pub Writes {ℓ} : {A : Type ℓ} → Writer A → A → Bytes → Type ℓ
Writes m a s = (buf : Bytes) → m buf ≡ (ok a, buf ++ s)

pub pure-Writes {ℓ} : {A : Type ℓ} (a : A) → Writes (pure a) a []
pure-Writes a buf = ap (λ s. (ok a, s)) (sym (append-nil buf))

pub put-Writes : (s : Bytes) → Writes (put s) tt s
unfolding put
put-Writes s buf = refl

module _ {ℓ κ} {A : Type ℓ} {B : Type κ} where
  pub bind-Writes :
      (m : Writer A) (f : A → Writer B) (a : A) (b : B) (s t : Bytes)
      → Writes m a s
      → Writes (f a) b t
      → Writes (m >>= f) b (s ++ t)
  bind-Writes m f a b s t hm hf buf =
      ap (λ p. continue f p.0 p.1) (hm buf)
      ∙ hf (buf ++ s)
      ∙ ap (λ u. (ok b, u)) (append_assoc buf s t)

pub from_usize_ok : (max x : ℕ) → x ≤ max → from_usize max x ≡ ok x
unfolding from_usize
from_usize_ok max x h = rw (le→ltb max x h)

drop_middle :
    (a b rest : Bytes) (n : ℕ) → length b ≡ n → drop (length a + n) (a ++ (b ++ rest)) ≡ rest
drop_middle a b rest n h =
    sym (drop-drop n (length a) (a ++ (b ++ rest)))
    ∙ ap (drop n) (drop_append (length a) a (b ++ rest) refl)
    ∙ drop_append n b rest h

room :
    (a b rest : Bytes) (n : ℕ)
    → length b ≡ n
    → ltb (length (a ++ (b ++ rest))) (length a + n) ≡ false
room a b rest n h = le→ltb _ _ (omega (arith, length-append a (b ++ rest), length-append b rest))

-- A patch of bytes that were put behind `buf`.
pub patch-append :
    (buf old new rest : Bytes)
    → length old ≡ length new
    → patch (length buf) new (buf ++ (old ++ rest)) ≡ (ok tt, buf ++ (new ++ rest))
unfolding patch
patch-append buf old new rest h =
    rw (room buf old rest (length new) h) (
      rw (take_append (length buf) buf (old ++ rest) refl, drop_middle buf old rest (length new) h))

pub len_from-append :
    (buf s : Bytes) (n : ℕ) → length buf ≡ n → len_from n (buf ++ s) ≡ (ok (length s), buf ++ s)
unfolding len_from
len_from-append buf s n h =
    rw (le→ltb (length (buf ++ s)) n (omega (arith, length-append buf s)))
      (ap (λ (k : ℕ). (ok k, buf ++ s)) (omega (arith, length-append buf s)))

module _ ⦃c : Crates⦄ where
  -- A value that is written in fewer than 2 ^ 31 bytes is preceded by its length.
  pub write_nullable_as-Writes :
      (serializer : Writer IsNull) (s : Bytes)
      → Writes serializer not_null s
      → length s < 2 ^ 31
      → Writes (write_nullable_as serializer) not_null (c.to_be 4 (length s) ++ s)
  unfolding write_nullable_as value_size put len
  write_nullable_as-Writes serializer s h small buf = rw (
    h (buf ++ c.to_be 4 0),
    len_from-append (buf ++ c.to_be 4 0) s (length buf + 4)
        (omega (arith, length-append buf (c.to_be 4 0), c.to_be_length 4 0)),
    from_usize_ok i32_max (length s) (omega arith),
    append_assoc buf (c.to_be 4 0) s,
    patch-append buf (c.to_be 4 0) (c.to_be 4 (length s)) s
        (c.to_be_length 4 0 ∙ sym (c.to_be_length 4 (length s))),
  )

  -- A null is the length -1, and nothing behind it.
  pub write_nullable_as-Writes_null :
      (serializer : Writer IsNull)
      → Writes serializer null []
      → Writes (write_nullable_as serializer) null (c.to_be 4 minus_one_i32)
  unfolding write_nullable_as value_size put len
  write_nullable_as-Writes_null serializer h buf = rw (
    h (buf ++ c.to_be 4 0),
    append_assoc buf (c.to_be 4 0) [],
    patch-append buf (c.to_be 4 0) (c.to_be 4 minus_one_i32) []
        (c.to_be_length 4 0 ∙ sym (c.to_be_length 4 minus_one_i32)),
    append-nil (c.to_be 4 minus_one_i32),
  )

  pub write_nullable-Writes :
      (serializer : Writer IsNull) (s : Bytes)
      → Writes serializer not_null s
      → length s < 2 ^ 31
      → Writes (write_nullable serializer) tt (c.to_be 4 (length s) ++ s)
  unfolding write_nullable
  write_nullable-Writes serializer s h small buf =
      rw (write_nullable_as-Writes serializer s h small buf)

  pub write_nullable-Writes_null :
      (serializer : Writer IsNull)
      → Writes serializer null []
      → Writes (write_nullable serializer) tt (c.to_be 4 minus_one_i32)
  unfolding write_nullable
  write_nullable-Writes_null serializer h buf = rw (write_nullable_as-Writes_null serializer h buf)
