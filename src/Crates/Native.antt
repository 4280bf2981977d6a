-- ===== src/Crates/Native.antt =====
-- One way to meet the interface: base-256 digits, highest first, and a scan from the left.
use rust_opengauss.Prelude.{
  ℕ, zero, suc, ◌+◌, ◌*◌, ◌/◌, ◌%◌, ◌^◌, ◌<◌, ◌≡◌, refl, ap, Option, none, some, [], ◌∷◌, arith,
  Bytes, IsBytes, Lacks, FirstAt, length, ◌==◌, if◌then◌else◌,
}
use rust_opengauss.Crates.{Crates}
use native.Mathlib.Nat.{pow-suc, div-add-mod, div-lt_iff_lt-mul, mod-lt}

unfoldable pub be_bytes : ℕ → ℕ → Bytes
be_bytes zero n = []
be_bytes (suc w) n = (n / 256 ^ w) ∷ be_bytes w (n % 256 ^ w)

unfoldable pub be_value : Bytes → ℕ
be_value [] = 0
be_value (b ∷ s) = b * 256 ^ length s + be_value s

unfoldable pub first_index : ℕ → Bytes → Option ℕ
first_index b [] = none
first_index b (x ∷ s) =
    let rest : Option ℕ = elim (first_index b s) [ none ↦ none | some i ↦ some (suc i) ] in
    if x == b then some 0 else rest

pow_pos : (w : ℕ) → 0 < 256 ^ w
pow_pos zero = omega arith
pow_pos (suc w) = omega (arith, pow-suc 256 w, pow_pos w)

high_digit : (n p : ℕ) → 0 < p → n < 256 * p → n / p < 256
high_digit n p h k = (div-lt_iff_lt-mul h).1 k

pub length-be_bytes : (w n : ℕ) → length (be_bytes w n) ≡ w
unfolding be_bytes
length-be_bytes zero n = refl
length-be_bytes (suc w) n = ap suc (length-be_bytes w (n % 256 ^ w))

next_bound : (w n : ℕ) → n < 256 ^ suc w → n < 256 * 256 ^ w
next_bound w n h = omega (arith, pow-suc 256 w)

pub be_bytes-IsBytes : (w n : ℕ) → n < 256 ^ w → IsBytes (be_bytes w n)
unfolding be_bytes
be_bytes-IsBytes zero n h = tt
be_bytes-IsBytes (suc w) n h = (
  high_digit n (256 ^ w) (pow_pos w) (next_bound w n h),
  be_bytes-IsBytes w (n % 256 ^ w) (mod-lt _ (pow_pos w)),
)

pub be_value-be_bytes : (w n : ℕ) → n < 256 ^ w → be_value (be_bytes w n) ≡ n
unfolding be_bytes be_value
be_value-be_bytes zero n h = omega arith
be_value-be_bytes (suc w) n h =
    rw (length-be_bytes w (n % 256 ^ w), be_value-be_bytes w (n % 256 ^ w) (mod-lt _ (pow_pos w)))
      (omega (arith, div-add-mod n (256 ^ w)))

add_digit : (b p v : ℕ) → b < 256 → v < p → b * p + v < p * 256
add_digit b p v h k = grind arith

pub be_value_bound : (s : Bytes) → IsBytes s → be_value s < 256 ^ length s
unfolding be_value
be_value_bound [] h = omega arith
be_value_bound (b ∷ s) h =
    rw pow-suc (add_digit b (256 ^ length s) (be_value s) h.0 (be_value_bound s h.1))

pub first_index-FirstAt : (b i : ℕ) (s : Bytes) → first_index b s ≡ some i → FirstAt b i s
unfolding first_index
first_index-FirstAt b i [] h = cc
first_index-FirstAt b zero (x ∷ s) h = ground (arith, first_index-FirstAt b 0 s)
first_index-FirstAt b (suc i) (x ∷ s) h = ground (arith, first_index-FirstAt b i s)

pub first_index-Lacks : (b : ℕ) (s : Bytes) → first_index b s ≡ none → Lacks b s
unfolding first_index
first_index-Lacks b [] h = tt
first_index-Lacks b (x ∷ s) h = ground (arith, first_index-Lacks b s)

instance abbrev pub native_crates : Crates
native_crates = record {
  to_be = be_bytes;
  from_be = be_value;
  memchr = first_index;
  to_be_length = length-be_bytes;
  to_be_bytes = be_bytes-IsBytes;
  from_be_inverse = be_value-be_bytes;
  from_be_bound = be_value_bound;
  memchr_found = first_index-FirstAt;
  memchr_absent = first_index-Lacks;
}
