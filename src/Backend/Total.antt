-- ===== src/Backend/Total.antt =====
-- About panics in `Message::parse_with_mode`.
use rust_opengauss.Prelude.{
  ℕ, zero, suc, ◌≢◌, refl, sym, ap, ◌∙◌, Bool, true, false, arith, Bytes, get_or, take, drop, ◌+◌,
  if◌then◌else◌,
}
use rust_opengauss.Outcome.{Outcome, ok, err, panicked, Error, ◌>>=◌ as bind}
use rust_opengauss.Crates.{Crates}
use rust_opengauss.Read.{
  Reader, ◌>>=◌, pure, fail, read_exact, read_u8, read_all, read_be, read_cstr, is_empty,
}
use rust_opengauss.Backend.Message.{AuthMode, standard, opengauss}
use rust_opengauss.Backend.Auth.{
  parse_auth, parse_auth_code, parse_sha256_body, parse_sm3_body, parse_code_10, parse_code_11,
  parse_code_13,
}
use rust_opengauss.Backend.Parse.{
  parse_frame, parse_with_mode, parse_tag, parse_tag_later, parse_negotiate, parse_notification,
  parse_copy_in, parse_copy_out, parse_key_data, parse_parameter_status, skip_cstrs,
}
use rust_opengauss.Backend.InRange.{len_of, parsed, parse_with_mode_lem}

-- On no input does the reader panic.
pub record NeverPanics {ℓ} {A : Type ℓ} (m : Reader A) : Type ℓ where
  pub at : (s : Bytes) → m s ≢ panicked

module _ {ℓ} {A : Type ℓ} where
  pure-NeverPanics : (a : A) → NeverPanics (pure a)
  pure-NeverPanics a = record { at = λ s e. cc }

  fail-NeverPanics : (e : Error) → NeverPanics (fail {A = A} e)
  fail-NeverPanics e = record { at = λ s p. cc }

  if-NeverPanics :
      (b : Bool) (m n : Reader A) → NeverPanics m → NeverPanics n → NeverPanics (if b then m else n)
  if-NeverPanics true m n hm hn = hm
  if-NeverPanics false m n hm hn = hn

module _ {ℓ κ} {A : Type ℓ} {B : Type κ} where
  bind-NeverPanics :
      (m : Reader A) (f : A → Reader B)
      → NeverPanics m
      → ((a : A) → NeverPanics (f a))
      → NeverPanics (m >>= f)
  bind-NeverPanics m f hm hf = record { at = λ s. after s (m s) (hm.at s) }
    where
      after :
          (s : Bytes) (r : Outcome (A × Bytes)) → r ≢ panicked → bind r (λ p. f p.0 p.1) ≢ panicked
      after s (ok p) h = (hf p.0).at p.1
      after s (err e) h = λ q. cc
      after s panicked h = λ q. h refl

read_exact-NeverPanics : (n : ℕ) → NeverPanics (read_exact n)
unfolding read_exact
read_exact-NeverPanics n = record { at = λ s e. ground arith }

read_u8-NeverPanics : NeverPanics read_u8
unfolding read_u8
read_u8-NeverPanics = record { at = λ s e. ground arith }

read_all-NeverPanics : NeverPanics read_all
unfolding read_all
read_all-NeverPanics = record { at = λ s e. cc }

module _ ⦃c : Crates⦄ where
  read_be-NeverPanics : (w : ℕ) → NeverPanics (read_be w)
  unfolding read_be
  read_be-NeverPanics w =
      bind-NeverPanics (read_exact w) _ (read_exact-NeverPanics w) (λ s. pure-NeverPanics _)

  read_cstr-NeverPanics : NeverPanics read_cstr
  unfolding read_cstr
  read_cstr-NeverPanics = record { at = λ s e. ground arith }

  ruleset reads = (
    pure-NeverPanics, fail-NeverPanics, if-NeverPanics, bind-NeverPanics, read_exact-NeverPanics,
    read_u8-NeverPanics, read_all-NeverPanics, read_be-NeverPanics, read_cstr-NeverPanics,
  )

  skip_cstrs-NeverPanics : (n : ℕ) → NeverPanics (skip_cstrs n)
  unfolding skip_cstrs
  skip_cstrs-NeverPanics zero = search reads
  skip_cstrs-NeverPanics (suc n) =
      bind-NeverPanics read_cstr (λ _. skip_cstrs n) read_cstr-NeverPanics
        (λ _. skip_cstrs-NeverPanics n)

  parse_notification-NeverPanics : NeverPanics parse_notification
  unfolding parse_notification
  parse_notification-NeverPanics = search reads depth 9

  parse_copy_in-NeverPanics : NeverPanics parse_copy_in
  unfolding parse_copy_in
  parse_copy_in-NeverPanics = search reads depth 9

  parse_copy_out-NeverPanics : NeverPanics parse_copy_out
  unfolding parse_copy_out
  parse_copy_out-NeverPanics = search reads depth 9

  parse_key_data-NeverPanics : NeverPanics parse_key_data
  unfolding parse_key_data
  parse_key_data-NeverPanics = search reads depth 9

  parse_parameter_status-NeverPanics : NeverPanics parse_parameter_status
  unfolding parse_parameter_status
  parse_parameter_status-NeverPanics = search reads depth 9

  parse_negotiate-NeverPanics : NeverPanics parse_negotiate
  unfolding parse_negotiate
  parse_negotiate-NeverPanics = search (reads, skip_cstrs-NeverPanics) depth 9

  parse_sm3_body-NeverPanics : NeverPanics parse_sm3_body
  unfolding parse_sm3_body
  parse_sm3_body-NeverPanics = search reads depth 9

  parse_sha256_body-NeverPanics : (method : ℕ) → NeverPanics (parse_sha256_body method)
  unfolding parse_sha256_body
  parse_sha256_body-NeverPanics method = search reads depth 9

  parse_code_10-NeverPanics : (mode : AuthMode) → NeverPanics (parse_code_10 mode)
  unfolding parse_code_10
  parse_code_10-NeverPanics standard = search reads
  parse_code_10-NeverPanics opengauss = search (reads, parse_sha256_body-NeverPanics)

  parse_code_11-NeverPanics : (mode : AuthMode) → NeverPanics (parse_code_11 mode)
  unfolding parse_code_11
  parse_code_11-NeverPanics standard = search reads
  parse_code_11-NeverPanics opengauss = search reads depth 7

  parse_code_13-NeverPanics : (mode : AuthMode) → NeverPanics (parse_code_13 mode)
  unfolding parse_code_13
  parse_code_13-NeverPanics standard = search reads
  parse_code_13-NeverPanics opengauss = parse_sm3_body-NeverPanics

  ruleset parts = (
    reads, parse_code_10-NeverPanics, parse_code_11-NeverPanics, parse_code_13-NeverPanics,
    parse_notification-NeverPanics, parse_copy_in-NeverPanics, parse_copy_out-NeverPanics,
    parse_key_data-NeverPanics, parse_parameter_status-NeverPanics, parse_negotiate-NeverPanics,
  )

  parse_auth_code-NeverPanics :
      (mode : AuthMode) (code : ℕ) → NeverPanics (parse_auth_code mode code)
  unfolding parse_auth_code
  parse_auth_code-NeverPanics mode code = search parts depth 20

  parse_auth-NeverPanics : (mode : AuthMode) → NeverPanics (parse_auth mode)
  unfolding parse_auth
  parse_auth-NeverPanics mode = search (reads, parse_auth_code-NeverPanics)

  parse_tag_later-NeverPanics : (tag : ℕ) → NeverPanics (parse_tag_later tag)
  unfolding parse_tag_later
  parse_tag_later-NeverPanics tag = search parts depth 20

  parse_tag-NeverPanics : (mode : AuthMode) (tag : ℕ) → NeverPanics (parse_tag mode tag)
  unfolding parse_tag
  parse_tag-NeverPanics mode tag =
      search (parts, parse_auth-NeverPanics, parse_tag_later-NeverPanics) depth 30

  parse_frame-ne-panicked :
      (mode : AuthMode) (tag : ℕ) (body : Bytes) → parse_frame mode tag body ≢ panicked
  unfolding parse_frame is_empty
  parse_frame-ne-panicked mode tag body e = ground (arith, (parse_tag-NeverPanics mode tag).at body)

  parsed-ne-panicked : (mode : AuthMode) (buf : Bytes) → (parsed mode buf).0 ≢ panicked
  parsed-ne-panicked mode buf e =
      ground
        (arith, parse_frame-ne-panicked mode (get_or buf 0 0) (drop 5 (take (len_of buf + 1) buf)))

  -- On no buffer, whatever its bytes, does the parser panic: no index, slice or split is out of
  -- range, and no `unwrap` finds an error.
  pub parse_with_mode-ne-panicked :
      (mode : AuthMode) (buf : Bytes) → (parse_with_mode mode buf).0 ≢ panicked
  parse_with_mode-ne-panicked mode buf e =
      parsed-ne-panicked mode buf (ap (λ r. r.0) (sym (parse_with_mode_lem mode buf)) ∙ e)
