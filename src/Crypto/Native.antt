-- ===== src/Crypto/Native.antt =====
-- One way to meet the interface, for examples: hashes that keep the first bytes, and a text of two
-- letters a byte in place of base64.
use rust_opengauss.Prelude.{
  ℕ, zero, suc, ◌+◌, ◌*◌, ◌-◌, ◌/◌, ◌%◌, ◌<◌, ◌≡◌, refl, ap, ◌↔◌, Bool, true, false, ◌&&◌, Option,
  none, some, [], ◌∷◌, ◌++◌, arith, Bytes, IsBytes, All, length, ◌==◌,
}
use rust_opengauss.Base64.{IsBase64, is_base64}
use rust_opengauss.Crypto.{Crypto}
use rust_opengauss.Hex.Laws.{read_hex, read_hex-lower_hex}

-- The first `n` bytes, and zeros behind the end.
unfoldable pub digest : ℕ → Bytes → Bytes
digest zero s = []
digest (suc n) [] = 0 ∷ digest n []
digest (suc n) (b ∷ s) = (b % 256) ∷ digest n s

pub length-digest : (n : ℕ) (s : Bytes) → length (digest n s) ≡ n
unfolding digest
length-digest zero s = refl
length-digest (suc n) [] = ap suc (length-digest n [])
length-digest (suc n) (b ∷ s) = ap suc (length-digest n s)

pub digest-IsBytes : (n : ℕ) (s : Bytes) → IsBytes (digest n s)
unfolding digest
digest-IsBytes zero s = tt
digest-IsBytes (suc n) [] = (omega arith, digest-IsBytes n [])
digest-IsBytes (suc n) (b ∷ s) = (omega arith, digest-IsBytes n s)

unfoldable pub eq_bytes : Bytes → Bytes → Bool
eq_bytes [] [] = true
eq_bytes [] (y ∷ t) = false
eq_bytes (x ∷ s) [] = false
eq_bytes (x ∷ s) (y ∷ t) = x == y && eq_bytes s t

pub eq_bytes_iff : (s t : Bytes) → (eq_bytes s t ≡ true) ↔ (s ≡ t)
unfolding eq_bytes
eq_bytes_iff [] [] = ((λ h. refl), (λ h. refl))
eq_bytes_iff [] (y ∷ t) = ((λ h. cc), (λ h. cc))
eq_bytes_iff (x ∷ s) [] = ((λ h. cc), (λ h. cc))
eq_bytes_iff (x ∷ s) (y ∷ t) = ground (arith, eq_bytes_iff s t)

-- Letters from `a` on.
unfoldable pub letters : Bytes → Bytes
letters [] = []
letters (b ∷ s) = (b'a' + b / 16 % 16) ∷ ((b'a' + b % 16) ∷ letters s)

abbrev glue : ℕ → ℕ → Option Bytes → Option Bytes
glue h l none = none
glue h l (some s) = some (((h - b'a') * 16 + (l - b'a')) ∷ s)

unfoldable pub read_letters : Bytes → Option Bytes
read_letters [] = some []
read_letters (h ∷ []) = none
read_letters (h ∷ l ∷ s) = glue h l (read_letters s)

pub read_letters-letters : (s : Bytes) → IsBytes s → read_letters (letters s) ≡ some s
unfolding letters read_letters
read_letters-letters [] h = refl
read_letters-letters (b ∷ s) h =
    rw (read_letters-letters s h.1) (ap (λ (n : ℕ). some (n ∷ s)) (whole b h.0))
  where
    whole : (b : ℕ) → b < 256 → (b'a' + b / 16 % 16 - b'a') * 16 + (b'a' + b % 16 - b'a') ≡ b
    whole b h = omega arith

is_letter : (n : ℕ) → n < 16 → IsBase64 (b'a' + n)
unfolding is_base64
is_letter n h = ground arith

pub letters-IsBase64 : (s : Bytes) → All IsBase64 (letters s)
unfolding letters
letters-IsBase64 [] = tt
letters-IsBase64 (b ∷ s) =
    (is_letter (b / 16 % 16) (omega arith), (is_letter (b % 16) (omega arith), letters-IsBase64 s))

pub verify_iff :
    (k s tag : Bytes) → (eq_bytes tag (digest 32 (s ++ k)) ≡ true) ↔ (tag ≡ digest 32 (s ++ k))
verify_iff k s tag = eq_bytes_iff tag (digest 32 (s ++ k))

instance abbrev pub native_crypto : Crypto
native_crypto = record {
  sha256 = digest 32;
  md5 = digest 16;
  hmac = λ k s. digest 32 (s ++ k);
  verify_hmac = λ k s tag. eq_bytes tag (digest 32 (s ++ k));
  pbkdf2_sha1 = λ password salt rounds n. digest n (password ++ salt);
  encode_base64 = letters;
  decode_base64 = read_letters;
  decode_hex = read_hex;
  saslprep = λ s. some s;
  sha256_length = length-digest 32;
  sha256_bytes = digest-IsBytes 32;
  md5_length = length-digest 16;
  hmac_length = λ k s. length-digest 32 (s ++ k);
  hmac_bytes = λ k s. digest-IsBytes 32 (s ++ k);
  verify_hmac_iff = verify_iff;
  base64_inverse = read_letters-letters;
  base64_alphabet = letters-IsBase64;
  hex_inverse = read_hex-lower_hex;
}
