-- ===== src/Write/Grows.antt =====
-- About the bytes that were in the buffer before a call, on success and on an error, and panics.
use rust_opengauss.Prelude.{
  ℕ, ◌≡◌, ◌≢◌, refl, sym, ap, ◌∙◌, [], ◌++◌, arith, Bytes, length, append_assoc, append-nil,
}
use rust_opengauss.Outcome.{Outcome, ok, err, panicked, Error}
use rust_opengauss.Crates.{Crates}
use rust_opengauss.Write.{Writer, ◌>>=◌, pure, lift, put, patch, from_usize}
use rust_opengauss.Write.Laws.{Writes, patch-append}

-- The call appends, whatever it answers, and does not panic.
abbrev pub Grows {ℓ} : {A : Type ℓ} → Writer A → Type ℓ
Grows m = (buf : Bytes) → (s : Bytes) × ((m buf).1 ≡ buf ++ s) × ((m buf).0 ≢ panicked)

pub put-Grows : (s : Bytes) → Grows (put s)
unfolding put
put-Grows s buf = (s, refl, λ e. cc)

pub pure-Grows {ℓ} : {A : Type ℓ} (a : A) → Grows (pure a)
pure-Grows a buf = ([], sym (append-nil buf), λ e. cc)

pub lift-Grows {ℓ} : {A : Type ℓ} (r : Outcome A) → r ≢ panicked → Grows (lift r)
lift-Grows r h buf = ([], sym (append-nil buf), h)

pub from_usize-ne-panicked : (max x : ℕ) → from_usize max x ≢ panicked
unfolding from_usize
from_usize-ne-panicked max x e = ground arith

pub Writes-Grows {ℓ} : {A : Type ℓ} (m : Writer A) (a : A) (s : Bytes) → Writes m a s → Grows m
Writes-Grows m a s h buf =
    (s, ap (λ p. p.1) (h buf), λ e. absurd (ok_ne (sym (ap (λ p. p.0) (h buf)) ∙ e)))
  where
    ok_ne : ok a ≢ panicked
    ok_ne e = cc

pub err_ne {ℓ} : {A : Type ℓ} (x : Error) → ◌≢◌ {A = Outcome A} (err x) panicked
err_ne x e = cc

module _ {ℓ κ} {A : Type ℓ} {B : Type κ} (m : Writer A) (f : A → Writer B) where
  pub bind-Grows : Grows m → ((a : A) → Grows (f a)) → Grows (m >>= f)
  bind-Grows hm hf buf = by_answer (m buf).0 refl
    where
      by_answer :
          (r : Outcome A)
          → (m buf).0 ≡ r
          → (s : Bytes) × (((m >>= f) buf).1 ≡ buf ++ s) × (((m >>= f) buf).0 ≢ panicked)
      by_answer (ok a) e =
          let (s, hs, _) = hm buf in
          let (t, ht, np) = hf a (m buf).1 in
          (s ++ t, rw e (ht ∙ ap (λ u. u ++ t) hs ∙ append_assoc buf s t), rw e np)
      by_answer (err x) e = ((hm buf).0, rw e ((hm buf).1), rw e (err_ne x))
      by_answer panicked e = absurd ((hm buf).2 e)

-- The answer and buffer of a call that has only appended to `buf`.
abbrev pub Extends {ℓ} : {A : Type ℓ} → Bytes → Outcome A × Bytes → Type ℓ
Extends buf r = (u : Bytes) × (r.1 ≡ buf ++ u) × (r.0 ≢ panicked)

-- Behind `z`, which stays or is filled in by what follows the call.
pub behind-Grows {ℓ κ} :
    {A : Type ℓ} {B : Type κ} (m : Writer A) (k : A → Writer B) (buf z : Bytes)
    → Grows m
    → ((a : A) (s : Bytes) → Extends buf (k a (buf ++ (z ++ s))))
    → Extends buf ((m >>= k) (buf ++ z))
behind-Grows {A} m k buf z hm hk =
    let (s, hs, np) = hm (buf ++ z) in
    by_answer (m (buf ++ z)).0 refl s (hs ∙ append_assoc buf z s) np
  where
    by_answer :
        (r : Outcome A)
        → (m (buf ++ z)).0 ≡ r
        → (s : Bytes) → (m (buf ++ z)).1 ≡ buf ++ (z ++ s)
        → (m (buf ++ z)).0 ≢ panicked
        → Extends buf ((m >>= k) (buf ++ z))
    by_answer (ok a) e s hs np = rw (e, hs) (hk a s)
    by_answer (err x) e s hs np = (z ++ s, rw e hs, rw e (err_ne x))
    by_answer panicked e s hs np = absurd (np e)

module _ ⦃c : Crates⦄ where
  -- A number that may not fit, and that is filled in over as many bytes.
  pub fill-Grows :
      (w max n : ℕ) (buf z s : Bytes)
      → length z ≡ w
      → Extends buf (
          (lift (from_usize max n) >>= (λ size. patch (length buf) (c.to_be w size)))
            (buf ++ (z ++ s)))
  fill-Grows w max n buf z s h = by_size (from_usize max n) refl
    where
      ok_ne : ◌≢◌ {A = Outcome (Unit {0})} (ok tt) panicked
      ok_ne e = cc

      filled :
          (size : ℕ)
          → patch (length buf) (c.to_be w size) (buf ++ (z ++ s))
            ≡ (ok tt, buf ++ (c.to_be w size ++ s))
      filled size = patch-append buf z (c.to_be w size) s (h ∙ sym (c.to_be_length w size))

      by_size :
          (r : Outcome ℕ)
          → from_usize max n ≡ r
          → Extends buf (
              (lift (from_usize max n) >>= (λ size. patch (length buf) (c.to_be w size)))
                (buf ++ (z ++ s)))
      by_size (ok size) e = (c.to_be w size ++ s, rw (e, filled size), rw (e, filled size) ok_ne)
      by_size (err x) e = (z ++ s, rw e, rw e (err_ne x))
      by_size panicked e = absurd (from_usize-ne-panicked max n e)
