-- ===== src/Outcome/Laws.antt =====
-- About panics in a chain of calls.
use rust_opengauss.Prelude.{◌≡◌, ◌≢◌, refl, Bool, true, false, if◌then◌else◌}
use rust_opengauss.Outcome.{Outcome, ok, err, panicked, ◌>>=◌}

pub bind-ne-panicked {ℓ κ} :
    {A : Type ℓ} {B : Type κ} (r : Outcome A) (f : A → Outcome B)
    → r ≢ panicked
    → ((a : A) → f a ≢ panicked)
    → (r >>= f) ≢ panicked
bind-ne-panicked (ok a) f h k = k a
bind-ne-panicked (err e) f h k = λ q. cc
bind-ne-panicked panicked f h k = absurd (h refl)

pub if-ne-panicked {ℓ} :
    {A : Type ℓ} (b : Bool) (x y : Outcome A)
    → x ≢ panicked
    → y ≢ panicked
    → (if b then x else y) ≢ panicked
if-ne-panicked true x y h k = h
if-ne-panicked false x y h k = k

pub bind_agree {ℓ κ} :
    {A : Type ℓ} {B : Type κ} (r : Outcome A) (f g : A → Outcome B)
    → ((a : A) → f a ≡ g a)
    → (r >>= f) ≡ (r >>= g)
bind_agree (ok a) f g h = h a
bind_agree (err e) f g h = refl
bind_agree panicked f g h = refl

pub ok-ne-panicked {ℓ} : {A : Type ℓ} (a : A) → ok a ≢ panicked
ok-ne-panicked a = λ q. cc
