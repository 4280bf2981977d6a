-- ===== src/Loop/Results.antt =====
-- About what a `loop` of rounds leaves with.
use rust_opengauss.Prelude.{ℕ, zero, suc}
use rust_opengauss.Attempt.{Attempt, done, failed, aborted}
use rust_opengauss.Loop.{Flow, again, leave, Run, advance, loop}

module _ {ℓ κ} {S : Type ℓ} {A : Type κ} (P : S → Type 0) (Q : A → S → Type 0) where
  -- A round that goes on keeps `P`, and one that leaves has `Q` of its value.
  abbrev pub Leads : Attempt (Flow A) × S → Type 0
  Leads (done again, s) = P s
  Leads (done (leave a), s) = Q a s
  Leads (failed e, s) = Unit
  Leads (aborted, s) = Unit

  abbrev pub Ends : Attempt A × S → Type 0
  Ends (done a, s) = Q a s
  Ends (failed e, s) = Unit
  Ends (aborted, s) = Unit

  advance-Ends :
      (later : Run S A) (r : Attempt (Flow A) × S)
      → Leads r
      → ((s : S) → P s → Ends (later s))
      → Ends (advance later r)
  unfolding advance
  advance-Ends later (done again, s) p h = h s p
  advance-Ends later (done (leave a), s) q h = q
  advance-Ends later (failed e, s) p h = tt
  advance-Ends later (aborted, s) p h = tt

  -- The value of the loop has what the last round gave it.
  pub loop-Ends :
      (round : Run S (Flow A))
      → ((s : S) → P s → Leads (round s))
      → (fuel : ℕ) (s : S) → P s
      → Ends (loop fuel round s)
  unfolding loop
  loop-Ends round h zero s p = tt
  loop-Ends round h (suc fuel) s p =
      advance-Ends (loop fuel round) (round s) (h s p) (loop-Ends round h fuel)
