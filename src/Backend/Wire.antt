-- ===== src/Backend/Wire.antt =====
-- The wire format of the server's messages, written from the side of the sender: what a frame is,
-- and which bytes stand for each `Message` in each dialect.
use rust_opengauss.Prelude.{
  ℕ, ◌+◌, ◌^◌, ◌<◌, ◌≡◌, ◌⊎◌, Option, none, some, [], ◌∷◌, ◌++◌, Bytes, Lacks, length,
}
use rust_opengauss.Crates.{Crates}
use rust_opengauss.Backend.Message.{
  AuthMode, standard, opengauss, plain_password, md5_password, sha256_password, Message,
  authentication_cleartext_password, authentication_gss, authentication_kerberos_v5,
  authentication_md5_password, authentication_ok, authentication_scm_credential,
  authentication_sspi, authentication_gss_continue, authentication_sasl,
  authentication_sasl_continue, authentication_sasl_final, authentication_sha256_password,
  authentication_md5_sha256_password, authentication_sm3_password, backend_key_data, bind_complete,
  close_complete, command_complete, copy_data, copy_done, copy_in_response, copy_out_response,
  data_row, empty_query_response, error_response, no_data, notice_response, notification_response,
  parameter_description, parameter_status, parse_complete, portal_suspended, ready_for_query,
  row_description, negotiate_protocol_version,
}
use rust_opengauss.Backend.Tag.{
  parse_complete_tag, bind_complete_tag, close_complete_tag, notification_response_tag,
  copy_done_tag, command_complete_tag, copy_data_tag, data_row_tag, error_response_tag,
  copy_in_response_tag, copy_out_response_tag, empty_query_response_tag, backend_key_data_tag,
  no_data_tag, notice_response_tag, authentication_tag, portal_suspended_tag, parameter_status_tag,
  parameter_description_tag, row_description_tag, ready_for_query_tag,
  negotiate_protocol_version_tag,
}

abbrev pub IsU16 : ℕ → Type 0
IsU16 n = n < 2 ^ 16

abbrev pub IsU32 : ℕ → Type 0
IsU32 n = n < 2 ^ 32

-- What code 10 of the openGauss dialect carries: the three SHA256 fields, or an MD5 salt.
abbrev pub Sha256Fits : ℕ → Option Bytes → Option Bytes → Option ℕ → Option Bytes → Type 0
Sha256Fits method (some code) (some token) (some iteration) none =
    ((method ≡ sha256_password) ⊎ (method ≡ plain_password))
    × (length code ≡ 64)
    × (length token ≡ 8)
    × IsU32 iteration
Sha256Fits method none none none (some salt) = (method ≡ md5_password) × (length salt ≡ 4)
Sha256Fits method _ _ _ _ = ⊥

-- The messages that the dialect has, with their fields in range.
abbrev pub Fits : AuthMode → Message → Type 0
Fits mode (authentication_md5_password b) = length b.salt ≡ 4
Fits mode (authentication_sasl b) = mode ≡ standard
Fits mode (authentication_sasl_continue b) = mode ≡ standard
Fits mode (authentication_sha256_password b) =
    (mode ≡ opengauss)
    × Sha256Fits b.password_stored_method b.random64code b.token b.server_iteration b.md5_salt
Fits mode (authentication_md5_sha256_password b) =
    (mode ≡ opengauss) × (length b.salt ≡ 64) × (length b.md5_salt ≡ 4)
Fits mode (authentication_sm3_password b) =
    (mode ≡ opengauss)
    × IsU32 b.password_stored_method
    × (length b.random64code ≡ 64)
    × (length b.token ≡ 8)
    × IsU32 b.server_iteration
Fits mode (backend_key_data b) = IsU32 b.process_id × IsU32 b.secret_key
Fits mode (command_complete b) = Lacks 0 b.tag
Fits mode (copy_in_response b) = IsU16 b.len
Fits mode (copy_out_response b) = IsU16 b.len
Fits mode (data_row b) = IsU16 b.len
Fits mode (notification_response b) = IsU32 b.process_id × Lacks 0 b.channel × Lacks 0 b.message
Fits mode (parameter_description b) = IsU16 b.len
Fits mode (parameter_status b) = Lacks 0 b.name × Lacks 0 b.value
Fits mode (row_description b) = IsU16 b.len
Fits mode _ = Unit {0}

-- A NUL-terminated text.
abbrev pub cstr : Bytes → Bytes → Bytes
cstr s rest = s ++ (0 ∷ rest)

module _ ⦃c : Crates⦄ where
  -- tag, length of the rest with the length's own four bytes, body
  abbrev pub frame : ℕ → Bytes → Bytes
  frame tag body = tag ∷ (c.to_be 4 (4 + length body) ++ body)

  abbrev pub sha256_body : ℕ → Option Bytes → Option Bytes → Option ℕ → Option Bytes → Bytes
  sha256_body method (some code) (some token) (some iteration) none =
      c.to_be 4 method ++ (code ++ (token ++ c.to_be 4 iteration))
  sha256_body method none none none (some salt) = c.to_be 4 method ++ salt
  sha256_body method _ _ _ _ = []

  -- an authentication message: its code and what follows it
  abbrev pub auth : ℕ → Bytes → ℕ × Bytes
  auth code rest = (authentication_tag, c.to_be 4 code ++ rest)

  -- Tag and body of each message.
  abbrev pub encode : Message → ℕ × Bytes
  encode authentication_ok = auth 0 []
  encode authentication_kerberos_v5 = auth 2 []
  encode authentication_cleartext_password = auth 3 []
  encode (authentication_md5_password b) = auth 5 b.salt
  encode authentication_scm_credential = auth 6 []
  encode authentication_gss = auth 7 []
  encode (authentication_gss_continue b) = auth 8 b.bytes
  encode authentication_sspi = auth 9 []
  encode (authentication_sasl b) = auth 10 b.bytes
  encode (authentication_sha256_password b) =
      auth 10
        (sha256_body b.password_stored_method b.random64code b.token b.server_iteration b.md5_salt)
  encode (authentication_sasl_continue b) = auth 11 b.bytes
  encode (authentication_md5_sha256_password b) = auth 11 (b.salt ++ b.md5_salt)
  encode (authentication_sasl_final b) = auth 12 b.bytes
  encode (authentication_sm3_password b) = auth 13 (
      c.to_be 4 b.password_stored_method
      ++ (b.random64code ++ (b.token ++ c.to_be 4 b.server_iteration)))
  encode (backend_key_data b) =
      (backend_key_data_tag, c.to_be 4 b.process_id ++ c.to_be 4 b.secret_key)
  encode bind_complete = (bind_complete_tag, [])
  encode close_complete = (close_complete_tag, [])
  encode (command_complete b) = (command_complete_tag, cstr b.tag [])
  encode (copy_data b) = (copy_data_tag, b.storage)
  encode copy_done = (copy_done_tag, [])
  encode (copy_in_response b) = (copy_in_response_tag, b.format ∷ (c.to_be 2 b.len ++ b.storage))
  encode (copy_out_response b) = (copy_out_response_tag, b.format ∷ (c.to_be 2 b.len ++ b.storage))
  encode (data_row b) = (data_row_tag, c.to_be 2 b.len ++ b.storage)
  encode empty_query_response = (empty_query_response_tag, [])
  encode (error_response b) = (error_response_tag, b.storage)
  encode no_data = (no_data_tag, [])
  encode (notice_response b) = (notice_response_tag, b.storage)
  encode (notification_response b) =
      (notification_response_tag, c.to_be 4 b.process_id ++ cstr b.channel (cstr b.message []))
  encode (parameter_description b) = (parameter_description_tag, c.to_be 2 b.len ++ b.storage)
  encode (parameter_status b) = (parameter_status_tag, cstr b.name (cstr b.value []))
  encode parse_complete = (parse_complete_tag, [])
  encode portal_suspended = (portal_suspended_tag, [])
  encode (ready_for_query b) = (ready_for_query_tag, b.status ∷ [])
  encode (row_description b) = (row_description_tag, c.to_be 2 b.len ++ b.storage)
  -- the newest minor version, and no unrecognized option
  encode negotiate_protocol_version = (negotiate_protocol_version_tag, c.to_be 4 0 ++ c.to_be 4 0)

  -- The bytes of a message on the connection.
  abbrev pub render : Message → Bytes
  render m = frame (encode m).0 (encode m).1
