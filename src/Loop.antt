-- ===== src/Loop.antt =====
-- A `loop` of fallible rounds over a state: a round goes on or leaves with a value.
pub mod Laws
pub mod Results
use rust_opengauss.Prelude.{ℕ, zero, suc}
use rust_opengauss.Attempt.{Attempt, done, failed, aborted}

pub data Flow {ℓ} (A : Type ℓ) : Type ℓ where
  again : Flow A
  leave : A → Flow A

-- A call on a state, which an error keeps too.
abbrev pub Run {ℓ κ} : Type ℓ → Type κ → Type (ℓ ⊔ κ)
Run S A = S → Attempt A × S

unfoldable pub follow {ℓ κ ι} :
    {S : Type ℓ} {A : Type κ} {B : Type ι} → (A → Run S B) → Attempt A × S → Attempt B × S
follow f (done a, s) = f a s
follow f (failed e, s) = (failed e, s)
follow f (aborted, s) = (aborted, s)

infixl 5 ◌>>=◌ ◌>>◌
abbrev pub ◌>>=◌ {ℓ κ ι} :
    {S : Type ℓ} {A : Type κ} {B : Type ι} → Run S A → (A → Run S B) → Run S B
◌>>=◌ m f s = follow f (m s)

abbrev pub ◌>>◌ {ℓ κ ι} : {S : Type ℓ} {A : Type κ} {B : Type ι} → Run S A → Run S B → Run S B
◌>>◌ m k s = follow (λ _. k) (m s)

abbrev pub pure {ℓ κ} : {S : Type ℓ} {A : Type κ} → A → Run S A
pure a s = (done a, s)

-- what a round comes to, with the rounds after it
unfoldable pub advance {ℓ κ} :
    {S : Type ℓ} {A : Type κ} → Run S A → Attempt (Flow A) × S → Attempt A × S
advance later (done again, s) = later s
advance later (done (leave a), s) = (done a, s)
advance later (failed e, s) = (failed e, s)
advance later (aborted, s) = (aborted, s)

-- So many rounds at most; a loop that goes on past them counts as a panic.
unfoldable pub loop {ℓ κ} : {S : Type ℓ} {A : Type κ} → ℕ → Run S (Flow A) → Run S A
loop zero round s = (aborted, s)
loop (suc fuel) round s = advance (loop fuel round) (round s)
