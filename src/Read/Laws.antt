-- ===== src/Read/Laws.antt =====
-- What each read takes from the front of a slice that begins with its encoding.
use rust_opengauss.Prelude.{
  ℕ, zero, suc, ◌+◌, ◌^◌, ◌<◌, ◌≡◌, refl, ap, ◌∙◌, Option, none, some, [], ◌∷◌, ◌++◌, arith, Bytes,
  Lacks, FirstAt, length, take, drop, length-append, take_append, drop_append, le→ltb, append-nil,
}
use rust_opengauss.Outcome.{ok}
use rust_opengauss.Crates.{Crates}
use rust_opengauss.Read.{read_exact, read_be, read_cstr}

pub read_exact-append :
    (n : ℕ) (s rest : Bytes) → length s ≡ n → read_exact n (s ++ rest) ≡ ok (s, rest)
unfolding read_exact
read_exact-append n s rest h = rw (
  le→ltb (length (s ++ rest)) n (omega (arith, length-append s rest)),
  take_append n s rest h,
  drop_append n s rest h,
)

-- `FirstAt` at the byte that ends a text without it.
FirstAt-append :
    (b i : ℕ) (s rest : Bytes) → Lacks b s → FirstAt b i (s ++ (b ∷ rest)) → i ≡ length s
FirstAt-append b zero [] rest h f = refl
FirstAt-append b (suc i) [] rest h f = absurd (f.0 refl)
FirstAt-append b zero (x ∷ s) rest h f = absurd (h.0 f)
FirstAt-append b (suc i) (x ∷ s) rest h f = ap suc (FirstAt-append b i s rest h.1 f.1)

not_Lacks : (b : ℕ) (s rest : Bytes) → Lacks b (s ++ (b ∷ rest)) → ⊥
not_Lacks b [] rest h = h.0 refl
not_Lacks b (x ∷ s) rest h = not_Lacks b s rest h.1

take-FirstAt :
    (b i : ℕ) (s : Bytes)
    → FirstAt b i s
    → Lacks b (take i s) × (i < length s) × (s ≡ take i s ++ (b ∷ drop (suc i) s))
take-FirstAt b i [] f = absurd f
take-FirstAt b zero (x ∷ s) f = (tt, omega arith, ap (λ y. y ∷ s) f)
take-FirstAt b (suc i) (x ∷ s) f =
    let (l, lt, e) = take-FirstAt b i s f.1 in ((f.0, l), omega arith, ap (◌∷◌ x) e)

module _ ⦃c : Crates⦄ where
  -- `memchr` finds the end of a text that lacks the byte.
  pub memchr-append :
      (b : ℕ) (s rest : Bytes) → Lacks b s → c.memchr b (s ++ (b ∷ rest)) ≡ some (length s)
  memchr-append b s rest h = by_answer (c.memchr b (s ++ (b ∷ rest))) refl
    where
      by_answer :
          (o : Option ℕ)
          → c.memchr b (s ++ (b ∷ rest)) ≡ o
          → c.memchr b (s ++ (b ∷ rest)) ≡ some (length s)
      by_answer none e = absurd (not_Lacks b s rest (c.memchr_absent b _ e))
      by_answer (some i) e = e ∙ ap some (FirstAt-append b i s rest h (c.memchr_found b i _ e))

  pub read_be-to_be :
      (w n : ℕ) (rest : Bytes) → n < 256 ^ w → read_be w (c.to_be w n ++ rest) ≡ ok (n, rest)
  unfolding read_be
  read_be-to_be w n rest h =
      rw (read_exact-append w (c.to_be w n) rest (c.to_be_length w n), c.from_be_inverse w n h)

  drop_suc : (s : Bytes) (b : ℕ) (rest : Bytes) → drop (length s + 1) (s ++ (b ∷ rest)) ≡ rest
  drop_suc [] b rest = refl
  drop_suc (x ∷ s) b rest = rw (count (length s)) (drop_suc s b rest)
    where
      count : (n : ℕ) → suc n + 1 ≡ suc (n + 1)
      count n = omega arith

  pub read_cstr-append : (s rest : Bytes) → Lacks 0 s → read_cstr (s ++ (0 ∷ rest)) ≡ ok (s, rest)
  unfolding read_cstr
  read_cstr-append s rest h =
      rw (memchr-append 0 s rest h)
        (rw (take_append (length s) s (0 ∷ rest) refl, drop_suc s 0 rest))

pub read_exact_all : (n : ℕ) (s : Bytes) → length s ≡ n → read_exact n s ≡ ok (s, [])
read_exact_all n s h = rw append-nil at (read_exact-append n s [] h)

module _ ⦃c : Crates⦄ where
  pub read_be-to_be_end : (w n : ℕ) → n < 256 ^ w → read_be w (c.to_be w n) ≡ ok (n, [])
  read_be-to_be_end w n h = rw append-nil at (read_be-to_be w n [] h)
