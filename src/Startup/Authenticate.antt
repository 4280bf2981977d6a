-- ===== src/Startup/Authenticate.antt =====
-- `authenticate` of tokio-opengauss/src/connect_raw.rs. The nonce of `ScramSha256::new` is an argument.
use rust_opengauss.Prelude.{
  ℕ, zero, suc, Bool, true, false, Option, none, some, Bytes, length, ◌==◌, ◌||◌, if◌then◌else◌,
}
use rust_opengauss.Outcome.{Outcome, ok, panicked, unknown, ◌>>=◌ as bind}
use rust_opengauss.Crates.{Crates}
use rust_opengauss.Crypto.{Crypto}
use rust_opengauss.Utf8.{Lossy}
use rust_opengauss.Attempt.{
  Attempt, done, failed, Fault, closed, unexpected_message, parse_failed, authentication,
  authentication_failed, config_failed, map_err, fail_db, ◌>>=◌ as and_then,
}
use rust_opengauss.Loop.{Run, ◌>>=◌, ◌>>◌, pure}
use rust_opengauss.Frontend
use rust_opengauss.DbError.{same_text}
use rust_opengauss.Backend.Message.{
  Message, AuthenticationSaslBody, AuthenticationSha256PasswordBody,
  authentication_cleartext_password, authentication_gss, authentication_kerberos_v5,
  authentication_md5_password, authentication_ok, authentication_scm_credential,
  authentication_sspi, authentication_sasl, authentication_sasl_continue, authentication_sasl_final,
  authentication_sha256_password, authentication_md5_sha256_password, authentication_sm3_password,
  error_response, plain_password, md5_password, sha256_password,
}
use rust_opengauss.Backend.Iter.{SaslMechanisms, mechanisms, next_mechanism}
use rust_opengauss.Codec.Encode.{raw}
use rust_opengauss.Authentication.{md5_hash}
use rust_opengauss.Authentication.Sha256.{
  rfc5802_algorithm, md5_sha256_hash, sm3_algorithm, default_iteration_count,
}
use rust_opengauss.Authentication.Sasl
use rust_opengauss.Authentication.Sasl.{
  scram_sha_256, scram_sha_256_plus, unrequested, unsupported, tls_server_end_point, ScramSha256,
  new_inner,
}
use rust_opengauss.Startup.{
  ChannelBinding, disable, prefer, require, Config, StartupStream, lift, send, encoded, try_next,
  first,
}

-- `can_skip_channel_binding`
unfoldable pub can_skip_channel_binding : Config → Attempt (Unit {0})
can_skip_channel_binding config = elim config.channel_binding [
  | disable ↦ done tt
  | prefer ↦ done tt
  | require ↦ failed (authentication "server did not use channel binding")
]

-- `ok_or_else`
unfoldable pub required {ℓ} : {A : Type ℓ} → Fault → Option A → Attempt A
required e none = failed e
required e (some a) = done a

unfoldable pub password_of : Config → Attempt Bytes
password_of c = required (config_failed "password missing") c.password

unfoldable pub method_fault : ℕ → Fault
method_fault method = authentication_failed (unknown "unsupported password stored method" method)

unfoldable pub or_default : Option ℕ → ℕ
or_default none = default_iteration_count
or_default (some n) = n

-- `filter` of the end point's hash
unfoldable pub binding_of : ChannelBinding → Option Bytes → Option Sasl.ChannelBinding
binding_of disable end_point = none
binding_of prefer none = none
binding_of prefer (some s) = some (tls_server_end_point s)
binding_of require none = none
binding_of require (some s) = some (tls_server_end_point s)

-- the channel binding and the mechanism, by what the server offers and the binding at hand
unfoldable pub choose :
    (has_scram has_scram_plus : Bool)
    → Option Sasl.ChannelBinding
    → Attempt (Sasl.ChannelBinding × Bytes)
choose has_scram true (some channel_binding) = done (channel_binding, scram_sha_256_plus)
choose has_scram true none = done (unsupported, scram_sha_256)
choose true false (some channel_binding) = done (unrequested, scram_sha_256)
choose true false none = done (unsupported, scram_sha_256)
choose false false channel_binding = failed (authentication "unsupported SASL mechanism")

module _ ⦃c : Crates⦄ where
  -- the `while let` loop over the mechanisms, with the two flags so far; each round that goes on
  -- passes a byte at least
  unfoldable pub offered :
      ℕ → SaslMechanisms → (has_scram has_scram_plus : Bool) → Outcome (Bool × Bool)
  offered zero it has_scram has_scram_plus = panicked
  offered (suc fuel) it has_scram has_scram_plus = bind (next_mechanism it) λ r. elim r.0 [
    | none ↦ ok (has_scram, has_scram_plus)
    | some mechanism ↦
        offered fuel r.1 (has_scram || same_text mechanism scram_sha_256)
          (has_scram_plus || same_text mechanism scram_sha_256_plus)
  ]

  unfoldable pub offers : AuthenticationSaslBody → Outcome (Bool × Bool)
  offers body = offered (suc (length body.bytes)) (mechanisms body) false false

  unfoldable pub authenticate_password : Bytes → Run StartupStream (Unit {0})
  authenticate_password password = do
    buf ← lift (encoded (Frontend.password_message password))
    send (raw buf)

module _ ⦃c : Crates⦄ ⦃l : Lossy⦄ where
  -- the three `match`es on the answer that an exchange waits for
  unfoldable pub continue_body : Option Message → Attempt Bytes
  continue_body (some (authentication_sasl_continue body)) = done body.bytes
  continue_body (some (error_response body)) = fail_db body
  continue_body (some m) = failed unexpected_message
  continue_body none = failed closed

  unfoldable pub final_body : Option Message → Attempt Bytes
  final_body (some (authentication_sasl_final body)) = done body.bytes
  final_body (some (error_response body)) = fail_db body
  final_body (some m) = failed unexpected_message
  final_body none = failed closed

  unfoldable pub confirmed : Option Message → Attempt (Unit {0})
  confirmed (some authentication_ok) = done tt
  confirmed (some (error_response body)) = fail_db body
  confirmed (some m) = failed unexpected_message
  confirmed none = failed closed

module _ ⦃c : Crates⦄ ⦃l : Lossy⦄ ⦃h : Crypto⦄ where
  -- from the sent first message of the exchange on
  unfoldable pub converse : ScramSha256 → Run StartupStream (Unit {0})
  converse scram = do
    m ← try_next
    body ← lift (continue_body m)
    let updated = Sasl.update scram body
    u ← lift (map_err authentication_failed updated.0)
    text ← lift (map_err authentication_failed (Sasl.message updated.1))
    buf ← lift (encoded (Frontend.sasl_response text))
    send (raw buf)
    m ← try_next
    body ← lift (final_body m)
    lift (map_err authentication_failed (Sasl.finish updated.1 body).0)

  -- from the choice of the mechanism on
  unfoldable pub exchange :
      Config → (password nonce : Bytes) → Sasl.ChannelBinding × Bytes → Run StartupStream (Unit {0})
  exchange config password nonce (channel_binding, mechanism) = do
    skipped ← lift (
        if same_text mechanism scram_sha_256_plus then done tt else can_skip_channel_binding config)
    let scram = new_inner password channel_binding nonce
    text ← lift (map_err authentication_failed (Sasl.message scram))
    buf ← lift (encoded (Frontend.sasl_initial_response mechanism text))
    send (raw buf)
    converse scram

  unfoldable pub authenticate_sasl :
      Config → Bytes → AuthenticationSaslBody → Run StartupStream (Unit {0})
  authenticate_sasl config nonce body s =
      (do
        password ← lift (password_of config)
        flags ← lift (map_err parse_failed (offers body))
        chosen ←
            lift (choose flags.0 flags.1 (binding_of config.channel_binding s.tls_server_end_point))
        exchange config password nonce chosen)
        s

  -- an answer that shows the password, in the clear or hashed
  unfoldable pub show : Config → (Bytes → Attempt Bytes) → Run StartupStream Bool
  show config answer = do
    skipped ← lift (can_skip_channel_binding config)
    pass ← lift (password_of config)
    output ← lift (answer pass)
    authenticate_password output
    pure false

  -- the `match` on `password_stored_method`
  unfoldable pub sha256_answer : Bytes → AuthenticationSha256PasswordBody → Bytes → Attempt Bytes
  sha256_answer user body pass =
      if body.password_stored_method == sha256_password
        || body.password_stored_method == plain_password
      then and_then (required (authentication "missing salt in SHA256 auth") body.random64code)
          (λ random64code.
            and_then (required (authentication "missing token in SHA256 auth") body.token) λ token.
              map_err authentication_failed
                (rfc5802_algorithm pass random64code token (or_default body.server_iteration)))
      else if body.password_stored_method == md5_password
      then and_then (required (authentication "missing md5_salt in SHA256 auth") body.md5_salt)
          (λ md5_salt. done (md5_hash user pass md5_salt))
      else failed (method_fault body.password_stored_method)

  -- the `match` on the first message: whether the server has let the client in with it
  unfoldable pub answer : Config → (user nonce : Bytes) → Option Message → Run StartupStream Bool
  answer config user nonce (some authentication_ok) = do
    lift (can_skip_channel_binding config)
    pure true
  answer config user nonce (some authentication_cleartext_password) = show config done
  answer config user nonce (some (authentication_md5_password body)) =
      show config (λ pass. done (md5_hash user pass body.salt))
  answer config user nonce (some (authentication_sha256_password body)) =
      show config (sha256_answer user body)
  answer config user nonce (some (authentication_md5_sha256_password body)) =
      show config
        (λ pass. map_err authentication_failed (md5_sha256_hash pass body.salt body.md5_salt 0))
  answer config user nonce (some (authentication_sm3_password body)) = show config (λ pass.
      map_err authentication_failed
        (sm3_algorithm pass body.random64code body.token body.server_iteration))
  answer config user nonce (some (authentication_sasl body)) = do
    authenticate_sasl config nonce body
    pure false
  answer config user nonce (some authentication_kerberos_v5) =
      lift (failed (authentication "unsupported authentication method"))
  answer config user nonce (some authentication_scm_credential) =
      lift (failed (authentication "unsupported authentication method"))
  answer config user nonce (some authentication_gss) =
      lift (failed (authentication "unsupported authentication method"))
  answer config user nonce (some authentication_sspi) =
      lift (failed (authentication "unsupported authentication method"))
  answer config user nonce (some (error_response body)) = lift (fail_db body)
  answer config user nonce (some m) = lift (failed unexpected_message)
  answer config user nonce none = lift (failed closed)

  unfoldable pub confirm : Run StartupStream (Unit {0})
  confirm = do m ← try_next; lift (confirmed m)

  unfoldable pub authenticate : Config → (user nonce : Bytes) → Run StartupStream (Unit {0})
  authenticate config user nonce = do
    m ← first
    is_in ← answer config user nonce m
    if is_in then pure tt else confirm
