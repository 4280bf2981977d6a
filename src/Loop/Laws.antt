-- ===== src/Loop/Laws.antt =====
-- About a `loop` of rounds: what its rounds keep, and that it comes to an end.
use rust_opengauss.Prelude.{refl, ℕ, zero, suc, ◌<◌, ◌≢◌, arith}
use rust_opengauss.Attempt.{Attempt, done, failed, aborted}
use rust_opengauss.Loop.{Flow, again, leave, Run, follow, advance, loop}

module _ {ℓ κ ι} {S : Type ℓ} {A : Type κ} (P : S → Type ι) where
  advance-keeps :
      (later : Run S A) (r : Attempt (Flow A) × S)
      → ((t : S) → P t → P (later t).1)
      → P r.1
      → P (advance later r).1
  unfolding advance
  advance-keeps later (done again, s) h p = h s p
  advance-keeps later (done (leave a), s) h p = p
  advance-keeps later (failed e, s) h p = p
  advance-keeps later (aborted, s) h p = p

  -- What both steps keep a chain keeps.
  pub follow-keeps {μ} :
      {B : Type μ} (f : A → Run S B) (r : Attempt A × S)
      → ((a : A) (s : S) → P s → P (f a s).1)
      → P r.1
      → P (follow f r).1
  unfolding follow
  follow-keeps f (done a, s) h p = h a s p
  follow-keeps f (failed e, s) h p = p
  follow-keeps f (aborted, s) h p = p

  -- What each round keeps the loop keeps.
  pub loop-keeps :
      (round : Run S (Flow A))
      → ((s : S) → P s → P (round s).1)
      → (fuel : ℕ) (s : S) → P s
      → P (loop fuel round s).1
  unfolding loop
  loop-keeps round h zero s p = p
  loop-keeps round h (suc fuel) s p =
      advance-keeps (loop fuel round) (round s) (loop-keeps round h fuel) (h s p)

module _ {ℓ κ} {S : Type ℓ} {A : Type κ} (P : S → Type 0) where
  -- A round does not panic, and goes on only where the measure falls.
  abbrev pub Falls : (S → ℕ) → ℕ → Attempt (Flow A) × S → Type 0
  Falls measure m (done again, s) = P s × (measure s < m)
  Falls measure m (done (leave a), s) = Unit
  Falls measure m (failed e, s) = Unit
  Falls measure m (aborted, s) = ⊥

  advance-ne-aborted :
      (measure : S → ℕ) (later : Run S A) (m : ℕ) (r : Attempt (Flow A) × S)
      → Falls measure m r
      → ((t : S) → P t → measure t < m → (later t).0 ≢ aborted)
      → (advance later r).0 ≢ aborted
  unfolding advance
  advance-ne-aborted measure later m (done again, s) f h = h s f.0 f.1
  advance-ne-aborted measure later m (done (leave a), s) f h = λ e. cc
  advance-ne-aborted measure later m (failed e, s) f h = λ q. cc
  advance-ne-aborted measure later m (aborted, s) f h = absurd f

  -- With more fuel than the measure a loop of such rounds comes to an end.
  pub loop-ne-aborted :
      (measure : S → ℕ) (round : Run S (Flow A))
      → ((s : S) → P s → Falls measure (measure s) (round s))
      → (fuel : ℕ) (s : S) → P s
      → measure s < fuel
      → (loop fuel round s).0 ≢ aborted
  unfolding loop
  loop-ne-aborted measure round h zero s p m = absurd (omega arith)
  loop-ne-aborted measure round h (suc fuel) s p m =
      advance-ne-aborted measure (loop fuel round) (measure s) (round s) (h s p)
        (λ t q l. loop-ne-aborted measure round h fuel t q (omega arith))

-- A chain of calls that do not panic does not panic.
pub follow-ne-aborted {ℓ κ ι} :
    {S : Type ℓ} {A : Type κ} {B : Type ι} (f : A → Run S B) (r : Attempt A × S)
    → r.0 ≢ aborted
    → ((a : A) (s : S) → (f a s).0 ≢ aborted)
    → (follow f r).0 ≢ aborted
unfolding follow
follow-ne-aborted f (done a, s) h k = k a s
follow-ne-aborted f (failed e, s) h k = λ q. cc
follow-ne-aborted f (aborted, s) h k = absurd (h refl)
