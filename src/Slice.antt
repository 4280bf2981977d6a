-- ===== src/Slice.antt =====
-- Indexing, slicing and splitting, which panic out of range.
use rust_opengauss.Prelude.{
  ℕ, ◌≤◌, ◌<◌, ◌≡◌, refl, inl, inr, ◌||◌, Bytes, length, take, drop, get_or, ltb, if◌then◌else◌,
  le→ltb, lt→ltb, ltb→le, Bool-cases,
}
use rust_opengauss.Outcome.{Outcome, ok, err, panicked, ◌>>=◌}
use rust_opengauss.Crates.{Crates}

-- `s[i]`
unfoldable pub index : Bytes → ℕ → Outcome ℕ
index s i = if ltb i (length s) then ok (get_or s i 0) else panicked

-- `&s[from..until]`
unfoldable pub slice : Bytes → (from until : ℕ) → Outcome Bytes
slice s from until =
    if ltb until from || ltb (length s) until then panicked else ok (drop from (take until s))

-- `&s[from..]`
unfoldable pub slice_from : Bytes → ℕ → Outcome Bytes
slice_from s from = if ltb (length s) from then panicked else ok (drop from s)

-- `BytesMut::split_to`: what it takes off, and what it leaves
unfoldable pub split_to : Bytes → ℕ → Outcome (Bytes × Bytes)
split_to s n = if ltb (length s) n then panicked else ok (take n s, drop n s)

-- `and_then` on what is read of a buffer, which a panic leaves as it is
unfoldable pub on_buffer :
    {A B : Type 0} → Bytes → Outcome A → (A → Outcome B × Bytes) → Outcome B × Bytes
on_buffer buf (ok a) f = f a
on_buffer buf (err e) f = (err e, buf)
on_buffer buf panicked f = (panicked, buf)

pub index_lt : (s : Bytes) (i : ℕ) → i < length s → index s i ≡ ok (get_or s i 0)
unfolding index
index_lt s i h = rw (lt→ltb i (length s) h) refl

pub slice_le :
    (s : Bytes) (from until : ℕ)
    → from ≤ until
    → until ≤ length s
    → slice s from until ≡ ok (drop from (take until s))
unfolding slice
slice_le s from until h l = rw (le→ltb until from h, le→ltb (length s) until l) refl

pub slice_from_le : (s : Bytes) (n : ℕ) → n ≤ length s → slice_from s n ≡ ok (drop n s)
unfolding slice_from
slice_from_le s n h = rw (le→ltb (length s) n h) refl

pub split_to_le : (s : Bytes) (n : ℕ) → n ≤ length s → split_to s n ≡ ok (take n s, drop n s)
unfolding split_to
split_to_le s n h = rw (le→ltb (length s) n h) refl

-- A property of what is done with a slice holds if it holds of a panic, and of what is done in range.
pub slice_from_elim {ℓ} :
    {A : Type 0} (P : Outcome A → Type ℓ) (s : Bytes) (n : ℕ) (f : Bytes → Outcome A)
    → P panicked
    → (n ≤ length s → P (f (drop n s)))
    → P (slice_from s n >>= f)
unfolding slice_from
slice_from_elim P s n f p h = elim (Bool-cases (ltb (length s) n)) [
  | inl l ↦ rw l p
  | inr l ↦ rw l (h (ltb→le _ _ l))
]

module _ ⦃c : Crates⦄ where
  -- `read_u32().unwrap()` of a slice, and `BigEndian::read_i32`
  unfoldable pub read_word : Bytes → Outcome ℕ
  read_word s = if ltb (length s) 4 then panicked else ok (c.from_be (take 4 s))

  pub read_word_le : (s : Bytes) → 4 ≤ length s → read_word s ≡ ok (c.from_be (take 4 s))
  unfolding read_word
  read_word_le s h = rw (le→ltb (length s) 4 h) refl
