-- ===== src/Startup/Binding.antt =====
-- About channel binding in tokio-opengauss/src/connect_raw.rs.
use rust_opengauss.Prelude.{
  ◌≡◌, refl, sym, ◌∙◌, subst, ◌⊎◌, inl, inr, Bool, true, false, Option, none, some, List, [], ◌∷◌,
  ◌++◌, append_assoc, append-nil, Bytes, if◌then◌else◌,
}
use rust_opengauss.Outcome.{Outcome, ok, err, panicked}
use rust_opengauss.Crates.{Crates}
use rust_opengauss.Crypto.{Crypto}
use rust_opengauss.Utf8.{Lossy}
use rust_opengauss.Attempt.{
  Attempt, done, failed, aborted, parse_failed, map_err, classified, fail_db,
}
use rust_opengauss.Loop.{Run, follow, ◌>>=◌, ◌>>◌, pure}
use rust_opengauss.Loop.Laws.{follow-keeps}
use rust_opengauss.Frontend
use rust_opengauss.DbError.{DbError, same_text, parse}
use rust_opengauss.Backend.Iter.{error_fields}
use rust_opengauss.Backend.Message.{
  Message, AuthenticationSaslBody, authentication_cleartext_password, authentication_md5_password,
  authentication_ok, authentication_sasl, authentication_sha256_password,
  authentication_md5_sha256_password, authentication_sm3_password, error_response,
}
use rust_opengauss.Codec.Encode.{FrontendMessage, raw}
use rust_opengauss.Connection.Parts.{IoPoll, io_ok, io_error}
use rust_opengauss.Authentication.Sasl
use rust_opengauss.Authentication.Sasl.{scram_sha_256, scram_sha_256_plus, ScramSha256, new_inner}
use rust_opengauss.Startup.{Config, require, StartupStream, lift, send, encoded, try_next, first}
use rust_opengauss.Startup.Authenticate.{
  can_skip_channel_binding, password_of, choose, offers, converse, exchange, authenticate_sasl,
  show, answer, confirm, authenticate,
}
use rust_opengauss.Startup.Log.{try_next-Sent, first-Sent, converse-Adds}

module _ ⦃c : Crates⦄ ⦃l : Lossy⦄ ⦃h : Crypto⦄ where
  -- Behind `x` stands the first message of an exchange with SCRAM-SHA-256-PLUS, and then others.
  abbrev pub BoundIn : List FrontendMessage → List FrontendMessage → Type 0
  BoundIn x sent =
      (text : Bytes) × (buf : Bytes) × (rest : List FrontendMessage) × (encoded
          (Frontend.sasl_initial_response scram_sha_256_plus text)
        ≡ done buf)
      × (sent ≡ x ++ (raw buf ∷ rest))

  abbrev pub BindsAfter : List FrontendMessage → StartupStream → Type 0
  BindsAfter x s = BoundIn x s.sent

  -- A call that succeeds has bound the channel, and one that fails has sent nothing or has.
  abbrev pub Binds {ℓ} : {A : Type ℓ} → List FrontendMessage → Attempt A × StartupStream → Type 0
  Binds x (done a, s) = BindsAfter x s
  Binds x (failed e, s) = (s.sent ≡ x) ⊎ BindsAfter x s
  Binds x (aborted, s) = (s.sent ≡ x) ⊎ BindsAfter x s

  bound {ℓ} :
      {A : Type ℓ} (x : List FrontendMessage) (r : Attempt A × StartupStream)
      → BindsAfter x r.1
      → Binds x r
  bound x (done a, s) h = h
  bound x (failed e, s) h = inr h
  bound x (aborted, s) h = inr h

  lift-Binds {ℓ κ} :
      {A : Type ℓ} {B : Type κ} (s : StartupStream) (r : Attempt A) (f : A → Run StartupStream B)
      → ((a : A) → Binds s.sent (f a s))
      → Binds s.sent (follow f (r, s))
  unfolding follow
  lift-Binds s (done a) f h = h a
  lift-Binds s (failed e) f h = inl refl
  lift-Binds s aborted f h = inl refl

  chain-Binds {ℓ κ} :
      {A : Type ℓ} {B : Type κ} (x : List FrontendMessage) (r : Attempt A × StartupStream)
      (f : A → Run StartupStream B)
      → Binds x r
      → ((a : A) (t : StartupStream) → BindsAfter x t → BindsAfter x (f a t).1)
      → Binds x (follow f r)
  unfolding follow
  chain-Binds x (done a, s) f h k = bound x (f a s) (k a s h)
  chain-Binds x (failed e, s) f h k = h
  chain-Binds x (aborted, s) f h k = h

  begin_after :
      (x : List FrontendMessage) (text buf : Bytes) (scram : ScramSha256) (s : StartupStream)
      → encoded (Frontend.sasl_initial_response scram_sha_256_plus text) ≡ done buf
      → s.sent ≡ x ++ (raw buf ∷ [])
      → Binds x (converse scram s)
  begin_after x text buf scram s h e =
      let (rest, e') =
        (converse-Adds (x ++ (raw buf ∷ [])) scram).at s ([], e ∙ sym (append-nil _)) in
      bound x (converse scram s) (text, buf, rest, h, e' ∙ append_assoc x (raw buf ∷ []) rest)

  begin-Binds :
      (text buf : Bytes) (scram : ScramSha256) (s : StartupStream) (writes : List IoPoll)
      → encoded (Frontend.sasl_initial_response scram_sha_256_plus text) ≡ done buf
      → Binds s.sent (follow (λ u. converse scram) (send (raw buf) (record s { writes = writes })))
  unfolding send follow
  begin-Binds text buf scram s [] h = begin_after s.sent text buf scram _ h refl
  begin-Binds text buf scram s (io_ok ∷ rest) h = begin_after s.sent text buf scram _ h refl
  begin-Binds text buf scram s (io_error e ∷ rest) h = inl refl

  encoded-Binds :
      (text : Bytes) (scram : ScramSha256) (s : StartupStream) (r : Attempt Bytes)
      → encoded (Frontend.sasl_initial_response scram_sha_256_plus text) ≡ r
      → Binds s.sent (follow (λ buf. send (raw buf) >> converse scram) (r, s))
  unfolding follow
  encoded-Binds text scram s (done buf) h = begin-Binds text buf scram s s.writes h
  encoded-Binds text scram s (failed e) h = inl refl
  encoded-Binds text scram s aborted h = inl refl

  module _ (config : Config) (must : config.channel_binding ≡ require) where
    exchange_plus :
        (password nonce : Bytes) (cb : Sasl.ChannelBinding) (s : StartupStream)
        → Binds s.sent (exchange config password nonce (cb, scram_sha_256_plus) s)
    unfolding exchange lift follow same_text Sasl.message new_inner map_err
    exchange_plus password nonce cb s = encoded-Binds _ (new_inner password cb nonce) s _ refl

    exchange_plain :
        (password nonce : Bytes) (cb : Sasl.ChannelBinding) (s : StartupStream)
        → Binds s.sent (exchange config password nonce (cb, scram_sha_256) s)
    unfolding exchange lift follow same_text can_skip_channel_binding
    exchange_plain password nonce cb s = rw must (inl refl)

    choose-Binds :
        (password nonce : Bytes) (s : StartupStream) (a b : Bool) (cb : Option Sasl.ChannelBinding)
        → Binds s.sent (follow (exchange config password nonce) (choose a b cb, s))
    unfolding choose follow
    choose-Binds password nonce s a true (some cb) = exchange_plus password nonce cb s
    choose-Binds password nonce s a true none = exchange_plain password nonce _ s
    choose-Binds password nonce s true false (some cb) = exchange_plain password nonce _ s
    choose-Binds password nonce s true false none = exchange_plain password nonce _ s
    choose-Binds password nonce s false false cb = inl refl

    sasl-Binds :
        (nonce : Bytes) (body : AuthenticationSaslBody) (s : StartupStream)
        → Binds s.sent (authenticate_sasl config nonce body s)
    unfolding authenticate_sasl lift
    sasl-Binds nonce body s = lift-Binds s (password_of config) _ λ password.
        lift-Binds s (map_err parse_failed (offers body)) _
          λ flags. choose-Binds password nonce s flags.0 flags.1 _

    show-Binds :
        (answer : Bytes → Attempt Bytes) (s : StartupStream) → Binds s.sent (show config answer s)
    unfolding show lift follow can_skip_channel_binding
    show-Binds answer s = rw must (inl refl)

    classified-Binds :
        (s : StartupStream) (r : Outcome DbError) → Binds {A = Bool} s.sent (classified r, s)
    classified-Binds s (ok e) = inl refl
    classified-Binds s (err e) = inl refl
    classified-Binds s panicked = inl refl

    answer-Binds :
        (user nonce : Bytes) (m : Option Message) (s : StartupStream)
        → Binds s.sent (answer config user nonce m s)
    unfolding answer lift follow can_skip_channel_binding fail_db
    answer-Binds user nonce (some authentication_ok) s = rw must (inl refl)
    answer-Binds user nonce (some authentication_cleartext_password) s = show-Binds _ s
    answer-Binds user nonce (some (authentication_md5_password body)) s = show-Binds _ s
    answer-Binds user nonce (some (authentication_sha256_password body)) s = show-Binds _ s
    answer-Binds user nonce (some (authentication_md5_sha256_password body)) s = show-Binds _ s
    answer-Binds user nonce (some (authentication_sm3_password body)) s = show-Binds _ s
    answer-Binds user nonce (some (authentication_sasl body)) s =
        chain-Binds s.sent (authenticate_sasl config nonce body s) _ (sasl-Binds nonce body s)
          (λ a t k. k)
    answer-Binds user nonce (some (error_response body)) s =
        classified-Binds s (parse (error_fields body))
    answer-Binds user nonce (some m) s = inl refl
    answer-Binds user nonce none s = inl refl

    finish-BindsAfter :
        (x : List FrontendMessage) (is_in : Bool) (t : StartupStream)
        → BindsAfter x t
        → BindsAfter x ((if is_in then pure tt else confirm) t).1
    unfolding confirm lift
    finish-BindsAfter x true t k = k
    finish-BindsAfter x false t k =
        follow-keeps (BindsAfter x) _ (try_next t) (λ m u q. q) (try_next-Sent (BoundIn x) t k)

    first-Binds :
        (user nonce : Bytes) (x : List FrontendMessage)
        (r : Attempt (Option Message) × StartupStream)
        → r.1.sent ≡ x
        → Binds x (
            follow
              (λ m. answer config user nonce m >>= λ is_in. if is_in then pure tt else confirm)
              r)
    unfolding follow
    first-Binds user nonce x (done m, s) e =
        subst
          (λ y.
            Binds y
              (follow (λ is_in. if is_in then pure tt else confirm) (answer config user nonce m s)))
          e
          (chain-Binds s.sent (answer config user nonce m s) _ (answer-Binds user nonce m s)
            (finish-BindsAfter s.sent))
    first-Binds user nonce x (failed f, s) e = inl e
    first-Binds user nonce x (aborted, s) e = inl e

    -- Where channel binding is required, `authenticate` succeeds only over an exchange with
    -- SCRAM-SHA-256-PLUS, and has sent no other first message whatever the server asks for: no
    -- password, no hash of one and no unbound exchange.
    pub authenticate-Binds :
        (user nonce : Bytes) (s : StartupStream) → Binds s.sent (authenticate config user nonce s)
    unfolding authenticate
    authenticate-Binds user nonce s =
        first-Binds user nonce s.sent (first s) (first-Sent (λ sent. sent ≡ s.sent) s refl)
