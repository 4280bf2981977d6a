-- ===== src/Prelude.antt =====
-- Names that the other modules share: the libraries', passed on, and those of two children.
mod Tests
mod Lists
pub use Tests.*
pub use Lists.*
pub use Prim.Native.Nat.{ℕ, zero, suc, ◌+◌, ◌-◌, ◌*◌, ◌/◌, ◌%◌, ◌^◌, ◌≤◌, ◌<◌, bit_and, bit_or}
pub use Prim.Native.String.{String}
pub use mathlib.Core.Path.{◌≡◌, refl, sym, ap, ap₂, ◌∙◌, subst}
pub use mathlib.Core.Logic.{◌≢◌, ◌↔◌, ◌⊎◌, inl, inr}
pub use mathlib.Core.Bool.{Bool, true, false, not, ◌&&◌, ◌||◌}
pub use mathlib.Core.Option.{Option, none, some}
pub use mathlib.Core.List.{List, [], ◌∷◌, ◌++◌, append-nil, append_assoc}
pub use native.Mathlib.Omega.{arith}

-- A byte string: `BytesMut`, `Bytes`, `&[u8]` and, for its UTF-8 bytes, `&str`.
abbrev pub Bytes : Type 0
Bytes = List ℕ

abbrev pub IsByte : ℕ → Type 0
IsByte b = b < 256

abbrev pub IsBytes : Bytes → Type 0
IsBytes = All IsByte

-- The byte `b` does not occur.
abbrev pub Lacks : ℕ → Bytes → Type 0
Lacks b = All (λ x. x ≢ b)

-- The first place of the byte `b` is `i`.
abbrev pub FirstAt : ℕ → ℕ → Bytes → Type 0
FirstAt b i [] = ⊥
FirstAt b zero (x ∷ s) = x ≡ b
FirstAt b (suc i) (x ∷ s) = (x ≢ b) × FirstAt b i s

-- An `iN` is its two's complement pattern, a number below 2 ^ N; these ask whether it is negative.
abbrev pub is_negative_i32 : ℕ → Bool
is_negative_i32 w = leb (2 ^ 31) w

abbrev pub is_negative_i64 : ℕ → Bool
is_negative_i64 w = leb (2 ^ 63) w

-- The pattern of -1.
abbrev pub minus_one_i32 : ℕ
minus_one_i32 = 2 ^ 32 - 1

pub small_nonneg : (n : ℕ) → n < 2 ^ 31 → is_negative_i32 n ≡ false
small_nonneg n h = ground arith

pub nonzero : (n : ℕ) → (suc n == 0) ≡ false
nonzero n = ground arith

pub one_less : (n : ℕ) → suc n - 1 ≡ n
one_less n = omega arith
