-- ===== src/Authentication/Sasl/Hi.antt =====
-- About `hi` of opengauss-protocol/src/authentication/sasl.rs, against the definition of RFC 5802.
use rust_opengauss.Prelude.{
  ℕ, zero, suc, ◌+◌, ◌≡◌, refl, ap, ◌∙◌, [], ◌∷◌, ◌++◌, arith, Bytes, one_less,
}
use rust_opengauss.Bits.{xor}
use rust_opengauss.Crypto.{Crypto}
use rust_opengauss.Authentication.Sasl.{hi, hi_loop}

module _ ⦃h : Crypto⦄ where
  -- `U1` is the hash of the salt and the number one, and each next one the hash of the one before;
  -- `u str salt k` is the one behind `k` others.
  unfoldable pub u : (str salt : Bytes) → ℕ → Bytes
  u str salt zero = h.hmac str (salt ++ (0 ∷ 0 ∷ 0 ∷ 1 ∷ []))
  u str salt (suc k) = h.hmac str (u str salt k)

  -- `U1 XOR … XOR Ui`, for `i` one more than the number given
  unfoldable pub xor_all : (str salt : Bytes) → ℕ → Bytes
  xor_all str salt zero = u str salt zero
  xor_all str salt (suc k) = xor (xor_all str salt k) (u str salt (suc k))

  hi_loop-xor_all :
      (str salt : Bytes) (n k : ℕ)
      → hi_loop str n (u str salt k) (xor_all str salt k) ≡ xor_all str salt (k + n)
  unfolding hi_loop
  hi_loop-xor_all str salt zero k = ap (xor_all str salt) (omega arith)
  hi_loop-xor_all str salt (suc n) k =
      step ∙ hi_loop-xor_all str salt n (suc k) ∙ ap (xor_all str salt) (omega arith)
    where
      step :
          hi_loop str (suc n) (u str salt k) (xor_all str salt k)
          ≡ hi_loop str n (u str salt (suc k)) (xor_all str salt (suc k))
      step = unfold u xor_all in refl

  -- The loop computes the `Hi` of RFC 5802, for every count from one on.
  pub hi-xor_all : (str salt : Bytes) (k : ℕ) → hi str salt (suc k) ≡ xor_all str salt k
  unfolding hi
  hi-xor_all str salt k =
      ap (λ (n : ℕ). hi_loop str n (first str salt) (first str salt)) (one_less k)
      ∙ start
      ∙ hi_loop-xor_all str salt k 0
      ∙ ap (xor_all str salt) (omega arith)
    where
      first : Bytes → Bytes → Bytes
      first str salt = h.hmac str (salt ++ (0 ∷ 0 ∷ 0 ∷ 1 ∷ []))

      start :
          hi_loop str k (first str salt) (first str salt)
          ≡ hi_loop str k (u str salt 0) (xor_all str salt 0)
      start = unfold u xor_all in refl
