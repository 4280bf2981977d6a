-- ===== src/Examples/Login.antt =====
-- Passwords, the exchange of SCRAM and the start of a connection, over the hashes of `Crypto.Native`.
use rust_opengauss.Prelude.{inl, ◌≡◌, refl, true, none, some, [], ◌∷◌, ◌++◌, arith, Bytes, length}
use rust_opengauss.Outcome.{ok, err, invalid_input}
use rust_opengauss.Crates.Native.{native_crates}
use rust_opengauss.Crypto.Native.{native_crypto, digest, length-digest, digest-IsBytes}
use rust_opengauss.Utf8.{is_utf8}
use rust_opengauss.Utf8.Native.{whole_lossy}
use rust_opengauss.Hex.{lower_hex}
use rust_opengauss.Backend.Message.{standard, authentication_sasl}
use rust_opengauss.Codec.{async}
use rust_opengauss.Connection.Parts.{Arrival, arrived}
use rust_opengauss.Authentication.Sha256.{rfc5802_algorithm}
use rust_opengauss.Authentication.Sha256.Laws.{rfc5802-accepted, Proves, stored_key_of}
use rust_opengauss.Authentication.Sasl.{
  ScramSha256, unsupported, finish_, update, finish, new_inner, hi,
}
use rust_opengauss.Authentication.Sasl.Parser.{is_value}
use rust_opengauss.Authentication.Sasl.Hi.{xor_all, hi-xor_all}
use rust_opengauss.Authentication.Sasl.Server.{
  Stored, stored_for, binding_header, first_bare, server_first, final_without_proof, signed_text,
  Accepts, server_final,
}
use rust_opengauss.Authentication.Sasl.Exchange.{exchange-accepted}
use rust_opengauss.Authentication.Sasl.Sound.{Signed, finish-Signed, finish-server_error}
use rust_opengauss.Password.{scram_sha_256_salt}
use rust_opengauss.Password.Laws.{read_stored, read_stored-scram_sha_256_salt}
use rust_opengauss.Startup.{Config, require, StartupStream}
use rust_opengauss.Startup.Authenticate.{authenticate}
use rust_opengauss.Startup.Binding.{Binds, authenticate-Binds}

abbrev password : Bytes
password = (b'p' ∷ b'w' ∷ [])

hi-xor_all_example : hi password (7 ∷ []) 3 ≡ xor_all password (7 ∷ []) 2
hi-xor_all_example = hi-xor_all password (7 ∷ []) 2

abbrev salt : Bytes
salt = digest 32 (1 ∷ 2 ∷ [])

abbrev token : Bytes
token = digest 4 (9 ∷ [])

rfc5802-accepted_example :
    (answer : Bytes) × (rfc5802_algorithm password (lower_hex salt) (lower_hex token) 2048
      ≡ ok answer)
    × (length answer ≡ 64)
    × Proves (stored_key_of password salt 2048) token answer
rfc5802-accepted_example =
    rfc5802-accepted password salt token 2048 2048
      (digest-IsBytes 32 (1 ∷ 2 ∷ []), length-digest 32 (1 ∷ 2 ∷ []))
      (digest-IsBytes 4 (9 ∷ []), length-digest 4 (9 ∷ [])) (inl (omega arith, omega arith, refl))

abbrev stored : Stored
stored = stored_for password (7 ∷ []) (b'2' ∷ [])

abbrev signed : Bytes
signed = signed_text unsupported stored (b'a' ∷ b'b' ∷ []) (b'c' ∷ b'd' ∷ [])

exchange-accepted_example :
    (client : ScramSha256) × (proof : Bytes) × ((new_inner password unsupported
        (b'a' ∷ b'b' ∷ [])).message
      ≡ binding_header unsupported ++ first_bare (b'a' ∷ b'b' ∷ []))
    × (update
          (new_inner password unsupported (b'a' ∷ b'b' ∷ []))
          (server_first stored (b'a' ∷ b'b' ∷ []) (b'c' ∷ b'd' ∷ []))
        ≡ (ok tt, client))
    × (client.message
        ≡ final_without_proof unsupported ((b'a' ∷ b'b' ∷ []) ++ (b'c' ∷ b'd' ∷ []))
          ++ ((b',' ∷ b'p' ∷ b'=' ∷ []) ++ native_crypto.encode_base64 proof))
    × Accepts stored signed proof
    × ((finish client (server_final stored signed)).0 ≡ ok tt)
exchange-accepted_example =
    exchange-accepted password unsupported (b'a' ∷ b'b' ∷ []) (b'c' ∷ b'd' ∷ []) (7 ∷ [])
      (b'2' ∷ [])
      (
        (omega arith, omega arith, λ e. ground arith),
        ((omega arith, omega arith, λ e. ground arith), tt),
      )
      (
        (omega arith, omega arith, λ e. ground arith),
        ((omega arith, omega arith, λ e. ground arith), tt),
      )
      (omega arith, tt) (((omega arith, omega arith), tt), omega arith, omega arith, omega arith)

-- A client at the end of this exchange.
logged_in : (client : ScramSha256) × ((finish client (server_final stored signed)).0 ≡ ok tt)
logged_in =
    let (client, proof, first, updated, answered, good, finished) =
      exchange-accepted password unsupported (b'a' ∷ b'b' ∷ []) (b'c' ∷ b'd' ∷ []) (7 ∷ [])
        (b'2' ∷ [])
        (
          (omega arith, omega arith, λ e. ground arith),
          ((omega arith, omega arith, λ e. ground arith), tt),
        )
        (
          (omega arith, omega arith, λ e. ground arith),
          ((omega arith, omega arith, λ e. ground arith), tt),
        )
        (omega arith, tt)
        (((omega arith, omega arith), tt), omega arith, omega arith, omega arith) in
    (client, finished)

finish-Signed_example :
    (sp : Bytes) × (am : Bytes) × (logged_in.0.state ≡ finish_ sp am)
    × Signed sp am (server_final stored signed)
finish-Signed_example = finish-Signed logged_in.0 (server_final stored signed) logged_in.1

abbrev waiting : ScramSha256
waiting = record { message = []; state = finish_ (5 ∷ []) (6 ∷ []) }

finish-server_error_example :
    (finish waiting (
      (b'e' ∷ b'=' ∷ [])
      ++ (b'o' ∷ b't' ∷ b'h' ∷ b'e' ∷ b'r' ∷ b'-' ∷ b'e' ∷ b'r' ∷ b'r' ∷ b'o' ∷ b'r' ∷ []))).0
    ≡ err (invalid_input "unexpected trailing data")
unfolding is_utf8 is_value
finish-server_error_example =
    finish-server_error waiting (5 ∷ []) (6 ∷ []) b'o'
      (b't' ∷ b'h' ∷ b'e' ∷ b'r' ∷ b'-' ∷ b'e' ∷ b'r' ∷ b'r' ∷ b'o' ∷ b'r' ∷ []) refl refl refl

abbrev bound_config : Config
bound_config = record {
  user = none;
  password = some password;
  dbname = none;
  options = none;
  application_name = none;
  channel_binding = require;
  opengauss_compat = true;
}

abbrev asking : Arrival → StartupStream
asking a = record {
  buf = record { buf = []; mode = standard };
  delayed = [];
  incoming = a ∷ [];
  writes = [];
  tls_server_end_point = some (3 ∷ []);
  sent = [];
}

-- A server that offers SCRAM-SHA-256-PLUS.
abbrev offering : StartupStream
offering = asking (
    arrived (
      async (
        authentication_sasl (record {
          bytes =
              (b'S' ∷ b'C' ∷ b'R' ∷ b'A' ∷ b'M' ∷ b'-' ∷ b'S' ∷ b'H' ∷ b'A' ∷ b'-' ∷ b'2' ∷ b'5'
                ∷ b'6' ∷ b'-' ∷ b'P' ∷ b'L' ∷ b'U' ∷ b'S' ∷ [])
              ++ (0 ∷ 0 ∷ []);
        }))))

authenticate-Binds_example :
    Binds [] (authenticate bound_config (b'm' ∷ b'e' ∷ []) (b'a' ∷ b'b' ∷ []) offering)
authenticate-Binds_example =
    authenticate-Binds bound_config refl (b'm' ∷ b'e' ∷ []) (b'a' ∷ b'b' ∷ []) offering

read_stored-scram_sha_256_salt_example :
    read_stored (scram_sha_256_salt password (7 ∷ []))
    ≡ some (stored_for password (7 ∷ []) (b'4' ∷ b'0' ∷ b'9' ∷ b'6' ∷ []))
read_stored-scram_sha_256_salt_example =
    read_stored-scram_sha_256_salt password (7 ∷ []) (omega arith, tt)
