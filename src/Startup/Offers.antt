-- ===== src/Startup/Offers.antt =====
-- About the loop over the mechanisms in `authenticate_sasl` (tokio-opengauss/src/connect_raw.rs): that it ends.
use rust_opengauss.Prelude.{
  ℕ, zero, suc, ◌+◌, ◌<◌, ◌≡◌, ◌≢◌, refl, Bool, true, false, not, ◌||◌, Option, none, some, arith,
  Bytes, length, take, drop, length-drop, length-take, ◌==◌, if◌then◌else◌,
}
use rust_opengauss.Outcome.{Outcome, ok, err, panicked, bad_utf8, invalid_data, ◌>>=◌}
use rust_opengauss.Crates.{Crates}
use rust_opengauss.Utf8.{is_utf8, from_utf8}
use rust_opengauss.DbError.{same_text}
use rust_opengauss.Read.{read_cstr, cut_cstr}
use rust_opengauss.Backend.Message.{AuthenticationSaslBody}
use rust_opengauss.Backend.Iter.{SaslMechanisms, mechanisms, next_mechanism}
use rust_opengauss.Authentication.Sasl.{scram_sha_256, scram_sha_256_plus}
use rust_opengauss.Startup.Authenticate.{offered, offers}

-- A mechanism that is read leaves fewer than `n` bytes.
Shorter : ℕ → Outcome (Option Bytes × SaslMechanisms) → Type 0
Shorter n (ok (none, it)) = Unit
Shorter n (ok (some m, it)) = length it.rest < n
Shorter n (err e) = Unit
Shorter n panicked = ⊥

if-Shorter :
    (n : ℕ) (b : Bool) (x y : Outcome (Option Bytes × SaslMechanisms))
    → (b ≡ true → Shorter n x)
    → (b ≡ false → Shorter n y)
    → Shorter n (if b then x else y)
if-Shorter n true x y h k = h refl
if-Shorter n false x y h k = k refl

text-Shorter :
    (n : ℕ) (b : Bool) (value rest : Bytes)
    → length rest < n
    → Shorter n
        ((if b then ok value else err bad_utf8) >>= λ v. ok (some v, record { rest = rest }))
unfolding Shorter
text-Shorter n true value rest h = h
text-Shorter n false value rest h = tt

module _ ⦃c : Crates⦄ where
  cut-Shorter :
      (it : SaslMechanisms) (pos : Option ℕ)
      → Shorter (length it.rest) (
          cut_cstr pos it.rest >>= λ p.
          if length p.0 == 0
          then (if not (length it.rest == 1)
              then err (
                  invalid_data "invalid message length: expected to be at end of iterator for sasl")
              else ok (none, it))
          else (from_utf8 p.0 >>= λ value. ok (some value, record { rest = p.1 })))
  unfolding cut_cstr Shorter from_utf8
  cut-Shorter it none = tt
  cut-Shorter it (some pos) =
      if-Shorter _ (length (take pos it.rest) == 0) _ _
        (λ e. if-Shorter _ (not (length it.rest == 1)) _ _ (λ f. tt) (λ f. tt))
        (λ e. text-Shorter _ (is_utf8 (take pos it.rest)) (take pos it.rest) _ (fewer e))
    where
      fewer :
          (length (take pos it.rest) == 0) ≡ false
          → length (drop (pos + 1) it.rest) < length it.rest
      fewer e = ground (arith, length-take pos it.rest, length-drop (pos + 1) it.rest)

  step-ne-panicked :
      (fuel n : ℕ) (a b : Bool) (r : Outcome (Option Bytes × SaslMechanisms))
      → Shorter n r
      → ((it : SaslMechanisms) (a b : Bool) → length it.rest < n → offered fuel it a b ≢ panicked)
      → ◌>>=◌ {B = Bool × Bool} r (λ r. elim r.0 [
        | none ↦ ok (a, b)
        | some m ↦
            offered fuel r.1 (a || same_text m scram_sha_256) (b || same_text m scram_sha_256_plus)
      ])
        ≢ panicked
  unfolding Shorter
  step-ne-panicked fuel n a b (ok (none, it)) k h = λ q. cc
  step-ne-panicked fuel n a b (ok (some m, it)) k h = h it _ _ k
  step-ne-panicked fuel n a b (err e) k h = λ q. cc
  step-ne-panicked fuel n a b panicked k h = absurd k

  offered-ne-panicked :
      (fuel : ℕ) (it : SaslMechanisms) (a b : Bool)
      → length it.rest < fuel
      → offered fuel it a b ≢ panicked
  unfolding offered next_mechanism read_cstr
  offered-ne-panicked zero it a b h = absurd (omega arith)
  offered-ne-panicked (suc fuel) it a b h =
      step-ne-panicked fuel (length it.rest) a b (next_mechanism it)
        (cut-Shorter it (c.memchr 0 it.rest))
        (λ it' a' b' k. offered-ne-panicked fuel it' a' b' (omega arith))

  -- Reading the offered mechanisms ends, on every body.
  pub offers-ne-panicked : (body : AuthenticationSaslBody) → offers body ≢ panicked
  unfolding offers
  offers-ne-panicked body = offered-ne-panicked _ (mechanisms body) false false (omega arith)
