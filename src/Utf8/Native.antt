-- ===== src/Utf8/Native.antt =====
-- A concrete `String::from_utf8_lossy`, for use at given inputs.
use rust_opengauss.Prelude.{◌≡◌, refl, Bool, true, false, [], ◌∷◌, Bytes, if◌then◌else◌}
use rust_opengauss.Utf8.{is_utf8, Lossy}

unfoldable pub replace_whole : Bytes → Bool → Bytes
replace_whole s b = if b then s else (0xef ∷ 0xbf ∷ 0xbd ∷ [])

pub valid : (s : Bytes) (b : Bool) → is_utf8 s ≡ b → is_utf8 (replace_whole s b) ≡ true
unfolding is_utf8 replace_whole
valid s true h = h
valid s false h = refl

pub same : (s : Bytes) (b : Bool) → b ≡ true → replace_whole s b ≡ s
unfolding replace_whole
same s true h = refl
same s false h = cc

-- One that replaces a text that is not valid as a whole.
instance abbrev pub whole_lossy : Lossy
whole_lossy = record {
  from_utf8_lossy = λ s. replace_whole s (is_utf8 s);
  lossy_valid = λ s h. same s (is_utf8 s) h;
  lossy_is_utf8 = λ s. valid s (is_utf8 s) refl;
}
