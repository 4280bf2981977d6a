-- ===== src/Backend/Auth.antt =====
-- The `AUTHENTICATION_TAG` arm of `Message::parse_with_mode`.
use rust_opengauss.Prelude.{ℕ, some, none, ◌==◌, ◌||◌, if◌then◌else◌}
use rust_opengauss.Outcome.{unknown}
use rust_opengauss.Crates.{Crates}
use rust_opengauss.Read.{Reader, ◌>>=◌, pure, fail, read_exact, read_all, read_be}
use rust_opengauss.Backend.Message.{
  AuthMode, plain_password, md5_password, sha256_password, Message, standard, opengauss,
  authentication_cleartext_password, authentication_gss, authentication_kerberos_v5,
  authentication_md5_password, authentication_ok, authentication_scm_credential,
  authentication_sspi, authentication_gss_continue, authentication_sasl,
  authentication_sasl_continue, authentication_sasl_final, authentication_sha256_password,
  authentication_md5_sha256_password, authentication_sm3_password,
}

module _ ⦃c : Crates⦄ where
  -- code 10 in the openGauss dialect, by the stored method
  unfoldable pub parse_sha256_body : ℕ → Reader Message
  parse_sha256_body method =
      if method == sha256_password || method == plain_password
      then (do
        random64code ← read_exact 64
        token ← read_exact 8
        server_iteration ← read_be 4
        pure (
            authentication_sha256_password (record {
              password_stored_method = method;
              random64code = some random64code;
              token = some token;
              server_iteration = some server_iteration;
              md5_salt = none;
            })))
      else if method == md5_password
      then (do
        md5_salt ← read_exact 4
        pure (
            authentication_sha256_password (record {
              password_stored_method = method;
              random64code = none;
              token = none;
              server_iteration = none;
              md5_salt = some md5_salt;
            })))
      else fail (unknown "unknown password stored method" method)

  -- code 13 in the openGauss dialect
  unfoldable pub parse_sm3_body : Reader Message
  parse_sm3_body = do
    password_stored_method ← read_be 4
    random64code ← read_exact 64
    token ← read_exact 8
    server_iteration ← read_be 4
    pure (
        authentication_sm3_password (record {
          password_stored_method = password_stored_method;
          random64code = random64code;
          token = token;
          server_iteration = server_iteration;
        }))

  unfoldable pub parse_code_10 : AuthMode → Reader Message
  parse_code_10 standard = do s ← read_all; pure (authentication_sasl (record { bytes = s }))
  parse_code_10 opengauss = do method ← read_be 4; parse_sha256_body method

  unfoldable pub parse_code_11 : AuthMode → Reader Message
  parse_code_11 standard = do
    s ← read_all
    pure (authentication_sasl_continue (record { bytes = s }))
  parse_code_11 opengauss = do
    salt ← read_exact 64
    md5_salt ← read_exact 4
    pure (authentication_md5_sha256_password (record { salt = salt; md5_salt = md5_salt }))

  unfoldable pub parse_code_13 : AuthMode → Reader Message
  parse_code_13 standard = fail (unknown "unknown authentication tag" 13)
  parse_code_13 opengauss = parse_sm3_body

  -- the `match` on the code
  unfoldable pub parse_auth_code : AuthMode → ℕ → Reader Message
  parse_auth_code mode code =
      if code == 0
      then pure authentication_ok
      else if code == 2
      then pure authentication_kerberos_v5
      else if code == 3
      then pure authentication_cleartext_password
      else if code == 5
      then (do salt ← read_exact 4; pure (authentication_md5_password (record { salt = salt })))
      else if code == 6
      then pure authentication_scm_credential
      else if code == 7
      then pure authentication_gss
      else if code == 8
      then (do s ← read_all; pure (authentication_gss_continue (record { bytes = s })))
      else if code == 9
      then pure authentication_sspi
      else if code == 10
      then parse_code_10 mode
      else if code == 11
      then parse_code_11 mode
      else if code == 12
      then (do s ← read_all; pure (authentication_sasl_final (record { bytes = s })))
      else if code == 13
      then parse_code_13 mode
      else fail (unknown "unknown authentication tag" code)

  unfoldable pub parse_auth : AuthMode → Reader Message
  parse_auth mode = do code ← read_be 4; parse_auth_code mode code
