-- ===== src/Backend/Message.antt =====
-- Messages of the server: `Message` and the bodies of opengauss-protocol/src/message/backend.rs.
-- A `u8`, `u16` or `i32` is a number (see Prelude), a `[u8; n]` or `Bytes` a byte string.
use rust_opengauss.Prelude.{ℕ, Option, Bytes}

-- Which server dialect dispatches the authentication codes 10, 11 and 13.
pub data AuthMode : Type 0 where
  standard opengauss : AuthMode

abbrev pub plain_password : ℕ
plain_password = 0

abbrev pub md5_password : ℕ
md5_password = 1

abbrev pub sha256_password : ℕ
sha256_password = 2

pub record AuthenticationMd5PasswordBody : Type 0 where
  pub salt : Bytes

pub record AuthenticationGssContinueBody : Type 0 where
  pub bytes : Bytes

pub record AuthenticationSaslBody : Type 0 where
  pub bytes : Bytes

pub record AuthenticationSaslContinueBody : Type 0 where
  pub bytes : Bytes

pub record AuthenticationSaslFinalBody : Type 0 where
  pub bytes : Bytes

pub record AuthenticationSha256PasswordBody : Type 0 where
  pub password_stored_method : ℕ
  pub random64code : Option Bytes
  pub token : Option Bytes
  pub server_iteration : Option ℕ
  pub md5_salt : Option Bytes

pub record AuthenticationMd5Sha256PasswordBody : Type 0 where
  pub salt : Bytes
  pub md5_salt : Bytes

pub record AuthenticationSm3PasswordBody : Type 0 where
  pub password_stored_method : ℕ
  pub random64code : Bytes
  pub token : Bytes
  pub server_iteration : ℕ

pub record BackendKeyDataBody : Type 0 where
  pub process_id : ℕ
  pub secret_key : ℕ

pub record CommandCompleteBody : Type 0 where
  pub tag : Bytes

pub record CopyDataBody : Type 0 where
  pub storage : Bytes

pub record CopyInResponseBody : Type 0 where
  pub format : ℕ
  pub len : ℕ
  pub storage : Bytes

pub record CopyOutResponseBody : Type 0 where
  pub format : ℕ
  pub len : ℕ
  pub storage : Bytes

pub record DataRowBody : Type 0 where
  pub storage : Bytes
  pub len : ℕ

pub record ErrorResponseBody : Type 0 where
  pub storage : Bytes

pub record NoticeResponseBody : Type 0 where
  pub storage : Bytes

pub record NotificationResponseBody : Type 0 where
  pub process_id : ℕ
  pub channel : Bytes
  pub message : Bytes

pub record ParameterDescriptionBody : Type 0 where
  pub storage : Bytes
  pub len : ℕ

pub record ParameterStatusBody : Type 0 where
  pub name : Bytes
  pub value : Bytes

pub record ReadyForQueryBody : Type 0 where
  pub status : ℕ

pub record RowDescriptionBody : Type 0 where
  pub storage : Bytes
  pub len : ℕ

pub data Message : Type 0 where
  authentication_cleartext_password : Message
  authentication_gss : Message
  authentication_kerberos_v5 : Message
  authentication_md5_password : AuthenticationMd5PasswordBody → Message
  authentication_ok : Message
  authentication_scm_credential : Message
  authentication_sspi : Message
  authentication_gss_continue : AuthenticationGssContinueBody → Message
  authentication_sasl : AuthenticationSaslBody → Message
  authentication_sasl_continue : AuthenticationSaslContinueBody → Message
  authentication_sasl_final : AuthenticationSaslFinalBody → Message
  authentication_sha256_password : AuthenticationSha256PasswordBody → Message
  authentication_md5_sha256_password : AuthenticationMd5Sha256PasswordBody → Message
  authentication_sm3_password : AuthenticationSm3PasswordBody → Message
  backend_key_data : BackendKeyDataBody → Message
  bind_complete : Message
  close_complete : Message
  command_complete : CommandCompleteBody → Message
  copy_data : CopyDataBody → Message
  copy_done : Message
  copy_in_response : CopyInResponseBody → Message
  copy_out_response : CopyOutResponseBody → Message
  data_row : DataRowBody → Message
  empty_query_response : Message
  error_response : ErrorResponseBody → Message
  no_data : Message
  notice_response : NoticeResponseBody → Message
  notification_response : NotificationResponseBody → Message
  parameter_description : ParameterDescriptionBody → Message
  parameter_status : ParameterStatusBody → Message
  parse_complete : Message
  portal_suspended : Message
  ready_for_query : ReadyForQueryBody → Message
  row_description : RowDescriptionBody → Message
  negotiate_protocol_version : Message
