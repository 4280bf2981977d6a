-- ===== src/Backend/RoundTrip.antt =====
-- About the `match` on the tag in `Message::parse_with_mode`, against the wire format.
use rust_opengauss.Prelude.{
  ℕ, ◌^◌, ◌<◌, ◌≡◌, inl, inr, refl, Option, none, some, [], ◌++◌, arith, Bytes,
}
use rust_opengauss.Outcome.{ok, ◌>>=◌ as bind}
use rust_opengauss.Backend.Tag.{authentication_tag}
use rust_opengauss.Crates.{Crates}
use rust_opengauss.Read.{read_u8, read_all, read_be, is_empty}
use rust_opengauss.Read.Laws.{
  read_exact-append, read_exact_all, read_be-to_be, read_be-to_be_end, read_cstr-append,
}
use rust_opengauss.Backend.Message.{
  AuthMode, standard, opengauss, Message, authentication_cleartext_password, authentication_gss,
  authentication_kerberos_v5, authentication_md5_password, authentication_ok,
  authentication_scm_credential, authentication_sspi, authentication_gss_continue,
  authentication_sasl, authentication_sasl_continue, authentication_sasl_final,
  authentication_sha256_password, authentication_md5_sha256_password, authentication_sm3_password,
  backend_key_data, bind_complete, close_complete, command_complete, copy_data, copy_done,
  copy_in_response, copy_out_response, data_row, empty_query_response, error_response, no_data,
  notice_response, notification_response, parameter_description, parameter_status, parse_complete,
  portal_suspended, ready_for_query, row_description, negotiate_protocol_version,
}
use rust_opengauss.Backend.Auth.{
  parse_auth, parse_auth_code, parse_sha256_body, parse_sm3_body, parse_code_10, parse_code_11,
  parse_code_13,
}
use rust_opengauss.Backend.Parse.{
  parse_frame, drained, parse_tag, parse_tag_later, parse_negotiate, parse_notification,
  parse_copy_in, parse_copy_out, parse_key_data, parse_parameter_status, skip_cstrs,
}
use rust_opengauss.Backend.Wire.{Fits, Sha256Fits, sha256_body, encode}

module _ ⦃c : Crates⦄ where
  -- An authentication frame is read by its code.
  parse_frame-auth :
      (mode : AuthMode) (code : ℕ) (rest : Bytes)
      → code < 256 ^ 4
      → parse_frame mode authentication_tag (c.to_be 4 code ++ rest)
        ≡ bind (parse_auth_code mode code rest) (λ p. drained p.0 p.1)
  unfolding parse_frame parse_tag parse_auth
  parse_frame-auth mode code rest h = rw (read_be-to_be 4 code rest h)

  sha256-encode :
      (method : ℕ) (code token : Option Bytes) (iteration : Option ℕ) (salt : Option Bytes)
      → Sha256Fits method code token iteration salt
      → parse_code_10 opengauss (sha256_body method code token iteration salt)
        ≡ ok (
          authentication_sha256_password (record {
            password_stored_method = method;
            random64code = code;
            token = token;
            server_iteration = iteration;
            md5_salt = salt;
          }),
          [],
        )
  unfolding parse_code_10 parse_sha256_body
  sha256-encode method (some code) (some token) (some iteration) none (inl two, lc, lt, bi) =
      rw (two, read_be-to_be 4 2 _ (omega arith))
        (rw (
          read_exact-append 64 code _ lc,
          read_exact-append 8 token _ lt,
          read_be-to_be_end 4 iteration bi,
        ))
  sha256-encode method (some code) (some token) (some iteration) none (inr zero', lc, lt, bi) =
      rw (zero', read_be-to_be 4 0 _ (omega arith))
        (rw (
          read_exact-append 64 code _ lc,
          read_exact-append 8 token _ lt,
          read_be-to_be_end 4 iteration bi,
        ))
  sha256-encode method none none none (some salt) (one, ls) =
      rw (one, read_be-to_be 4 1 _ (omega arith)) (rw (read_exact_all 4 salt ls))
  sha256-encode _ _ _ _ _ h = absurd h

  -- Each authentication message that the dialect has is read back from its frame.
  auth-encode :
      (mode : AuthMode) (m : Message)
      → Fits mode m
      → (encode m).0 ≡ authentication_tag
      → parse_frame mode (encode m).0 (encode m).1 ≡ ok (some m)
  unfolding parse_auth_code drained is_empty read_all
  auth-encode mode authentication_ok h t = rw (parse_frame-auth mode 0 [] (omega arith))
  auth-encode mode authentication_kerberos_v5 h t = rw (parse_frame-auth mode 2 [] (omega arith))
  auth-encode mode authentication_cleartext_password h t =
      rw (parse_frame-auth mode 3 [] (omega arith))
  auth-encode mode (authentication_md5_password b) h t =
      rw (parse_frame-auth mode 5 b.salt (omega arith)) (rw (read_exact_all 4 b.salt h))
  auth-encode mode authentication_scm_credential h t = rw (parse_frame-auth mode 6 [] (omega arith))
  auth-encode mode authentication_gss h t = rw (parse_frame-auth mode 7 [] (omega arith))
  auth-encode mode (authentication_gss_continue b) h t =
      rw (parse_frame-auth mode 8 b.bytes (omega arith))
  auth-encode mode authentication_sspi h t = rw (parse_frame-auth mode 9 [] (omega arith))
  auth-encode mode (authentication_sasl b) h t =
      rw (h, parse_frame-auth standard 10 b.bytes (omega arith)) (unfold parse_code_10 in refl)
  auth-encode mode (authentication_sha256_password b) h t =
      rw (h.0, parse_frame-auth opengauss 10 _ (omega arith)) (rw (sha256-encode _ _ _ _ _ h.1))
  auth-encode mode (authentication_sasl_continue b) h t =
      rw (h, parse_frame-auth standard 11 b.bytes (omega arith)) (unfold parse_code_11 in refl)
  auth-encode mode (authentication_md5_sha256_password b) h t =
      rw (h.0, parse_frame-auth opengauss 11 _ (omega arith))
        (unfold parse_code_11 in
          rw (read_exact-append 64 b.salt b.md5_salt h.1, read_exact_all 4 b.md5_salt h.2))
  auth-encode mode (authentication_sasl_final b) h t =
      rw (parse_frame-auth mode 12 b.bytes (omega arith))
  auth-encode mode (authentication_sm3_password b) h t =
      rw (h.0, parse_frame-auth opengauss 13 _ (omega arith))
        (unfold parse_code_13 parse_sm3_body in
          rw (
            read_be-to_be 4 b.password_stored_method _ h.1,
            read_exact-append 64 b.random64code _ h.2,
            read_exact-append 8 b.token _ h.3,
            read_be-to_be_end 4 b.server_iteration h.4,
          ))
  auth-encode mode _ h t = absurd (omega (arith, t))

  skip_none : read_be 4 (c.to_be 4 0 ++ c.to_be 4 0) ≡ ok (0, c.to_be 4 0)
  skip_none = read_be-to_be 4 0 _ (omega arith)

  -- Each message that the dialect has, with fields in range, is read back from its tag and body.
  pub parse_frame-encode :
      (mode : AuthMode) (m : Message)
      → Fits mode m
      → parse_frame mode (encode m).0 (encode m).1 ≡ ok (some m)
  unfolding parse_frame parse_tag parse_tag_later is_empty read_all read_u8
  parse_frame-encode mode (backend_key_data b) h =
      unfold parse_key_data in
      rw (read_be-to_be 4 b.process_id _ h.0, read_be-to_be_end 4 b.secret_key h.1)
  parse_frame-encode mode (command_complete b) h = rw (read_cstr-append b.tag [] h)
  parse_frame-encode mode (copy_in_response b) h =
      unfold parse_copy_in in rw (read_be-to_be 2 b.len b.storage h)
  parse_frame-encode mode (copy_out_response b) h =
      unfold parse_copy_out in rw (read_be-to_be 2 b.len b.storage h)
  parse_frame-encode mode (data_row b) h = rw (read_be-to_be 2 b.len b.storage h)
  parse_frame-encode mode (notification_response b) h =
      unfold parse_notification in
      rw (
        read_be-to_be 4 b.process_id _ h.0,
        read_cstr-append b.channel _ h.1,
        read_cstr-append b.message [] h.2,
      )
  parse_frame-encode mode (parameter_description b) h = rw (read_be-to_be 2 b.len b.storage h)
  parse_frame-encode mode (parameter_status b) h =
      unfold parse_parameter_status in
      rw (read_cstr-append b.name _ h.0, read_cstr-append b.value [] h.1)
  parse_frame-encode mode (row_description b) h = rw (read_be-to_be 2 b.len b.storage h)
  parse_frame-encode mode negotiate_protocol_version h =
      unfold parse_negotiate skip_cstrs in rw (skip_none, read_be-to_be_end 4 0 (omega arith))
  parse_frame-encode mode (copy_data b) h = refl
  parse_frame-encode mode (error_response b) h = refl
  parse_frame-encode mode (notice_response b) h = refl
  parse_frame-encode mode (ready_for_query b) h = refl
  parse_frame-encode mode bind_complete h = refl
  parse_frame-encode mode close_complete h = refl
  parse_frame-encode mode copy_done h = refl
  parse_frame-encode mode empty_query_response h = refl
  parse_frame-encode mode no_data h = refl
  parse_frame-encode mode parse_complete h = refl
  parse_frame-encode mode portal_suspended h = refl
  parse_frame-encode mode m h = auth-encode mode m h refl
