-- ===== src/Iterate.antt =====
-- Fallible iterators: what `next` gives in turn.
use rust_opengauss.Prelude.{◌≡◌, Option, none, some, List, [], ◌∷◌}
use rust_opengauss.Outcome.{Outcome, ok}

-- One call: an item or the end, and the iterator after it.
abbrev pub Next {ℓ} : Type ℓ → Type ℓ → Type ℓ
Next S A = S → Outcome (Option A × S)

-- From `s` on, the iterator gives exactly these items, and then its end.
abbrev pub Yields {ℓ} : {S A : Type ℓ} → Next S A → S → List A → Type ℓ
Yields {S} next s [] = (s' : S) × (next s ≡ ok (none, s'))
Yields {S} next s (a ∷ as') = (s' : S) × (next s ≡ ok (some a, s')) × Yields next s' as'
