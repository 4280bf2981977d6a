-- ===== src/Bits.antt =====
-- `^` on bytes and on byte strings.
use rust_opengauss.Prelude.{
  ℕ, zero, suc, ◌+◌, ◌*◌, ◌/◌, ◌%◌, ◌^◌, ◌<◌, ◌≡◌, refl, ap, ap₂, [], ◌∷◌, arith, Bytes, IsBytes,
  length,
}
use native.Mathlib.Nat.{pow-suc}

-- `^` of two numbers of `w` bits, the lowest first
unfoldable pub xor_bits : ℕ → ℕ → ℕ → ℕ
xor_bits zero a b = 0
xor_bits (suc w) a b = (a % 2 + b % 2) % 2 + 2 * xor_bits w (a / 2) (b / 2)

-- `^` byte by byte, up to the end of the shorter one
unfoldable pub xor : Bytes → Bytes → Bytes
xor [] t = []
xor (a ∷ s) [] = []
xor (a ∷ s) (b ∷ t) = xor_bits 8 a b ∷ xor s t

xor_bits-bound : (w a b : ℕ) → xor_bits w a b < 2 ^ w
unfolding xor_bits
xor_bits-bound zero a b = omega arith
xor_bits-bound (suc w) a b = omega (arith, xor_bits-bound w (a / 2) (b / 2))

halves : (w a b : ℕ) → xor_bits (suc w) a b / 2 ≡ xor_bits w (a / 2) (b / 2)
unfolding xor_bits
halves w a b = omega arith

odd : (w a b : ℕ) → xor_bits (suc w) a b % 2 ≡ (a % 2 + b % 2) % 2
unfolding xor_bits
odd w a b = omega arith

-- The second `^` takes back the first.
xor_bits-twice : (w a b : ℕ) → a < 2 ^ w → xor_bits w (xor_bits w a b) b ≡ a
xor_bits-twice zero a b h = unfold xor_bits in omega arith
xor_bits-twice (suc w) a b h =
    step (xor_bits (suc w) a b) (halves w a b) (odd w a b)
      (xor_bits-twice w (a / 2) (b / 2) (omega (arith, pow-suc 2 w)))
  where
    step :
        (x : ℕ)
        → x / 2 ≡ xor_bits w (a / 2) (b / 2)
        → x % 2 ≡ (a % 2 + b % 2) % 2
        → xor_bits w (xor_bits w (a / 2) (b / 2)) (b / 2) ≡ a / 2
        → xor_bits (suc w) x b ≡ a
    step x e o ih = unfold xor_bits in rw (e, o, ih) (omega arith)

pub xor-twice : (s t : Bytes) → IsBytes s → length s ≡ length t → xor (xor s t) t ≡ s
unfolding xor
xor-twice [] t h e = refl
xor-twice (a ∷ s) [] h e = absurd (omega arith)
xor-twice (a ∷ s) (b ∷ t) h e =
    ap₂ ◌∷◌ (xor_bits-twice 8 a b (omega (arith, h.0))) (xor-twice s t h.1 (omega arith))

pub length-xor : (s t : Bytes) → length s ≡ length t → length (xor s t) ≡ length s
unfolding xor
length-xor [] t e = refl
length-xor (a ∷ s) [] e = absurd (omega arith)
length-xor (a ∷ s) (b ∷ t) e = ap suc (length-xor s t (omega arith))

pub xor-IsBytes : (s t : Bytes) → IsBytes (xor s t)
unfolding xor
xor-IsBytes [] t = tt
xor-IsBytes (a ∷ s) [] = tt
xor-IsBytes (a ∷ s) (b ∷ t) = (xor_bits-bound 8 a b, xor-IsBytes s t)

xor_bits_comm : (w a b : ℕ) → xor_bits w a b ≡ xor_bits w b a
unfolding xor_bits
xor_bits_comm zero a b = refl
xor_bits_comm (suc w) a b = omega (arith, xor_bits_comm w (a / 2) (b / 2))

pub xor_comm : (s t : Bytes) → xor s t ≡ xor t s
unfolding xor
xor_comm [] [] = refl
xor_comm [] (b ∷ t) = refl
xor_comm (a ∷ s) [] = refl
xor_comm (a ∷ s) (b ∷ t) = ap₂ ◌∷◌ (xor_bits_comm 8 a b) (xor_comm s t)
