-- ===== src/Authentication/Sasl/Sound.antt =====
-- About what the client has checked when `finish` succeeds, and about failed calls.
use rust_opengauss.Prelude.{
  ℕ, ◌≡◌, ◌≢◌, refl, ap, ◌∙◌, Bool, true, false, Option, none, some, [], ◌∷◌, ◌++◌, arith, Bytes,
  Bool-cases, inl, inr, if◌then◌else◌,
}
use rust_opengauss.Outcome.{Outcome, ok, err, panicked, invalid_input, other}
use rust_opengauss.Utf8.{is_utf8}
use rust_opengauss.Base64.{is_base64}
use rust_opengauss.Crypto.{Crypto}
use rust_opengauss.Authentication.Sasl.Parser.{
  ServerFirstMessage, ServerFinalMessage, error, verifier, eat, span, take_while, base64, eof,
  is_value, value, peeks_e, server_error, server_verifier, final_of, final_message,
  server_first_message, server_final_message,
}
use rust_opengauss.Authentication.Sasl.{
  ChannelBinding, State, update_, finish_, done, ScramSha256, update_salted, update_parsed, update,
  verify, finish_parsed, finish,
}

span-whole : (f : ℕ → Bool) (s : Bytes) → (span f s).1 ≡ [] → (span f s).0 ≡ s
unfolding span
span-whole f [] h = refl
span-whole f (c ∷ s) h = ground (arith, span-whole f s)

-- A text that is read as a verifier is one, up to its end.
server_final_message-eq :
    (text v : Bytes) → server_final_message text ≡ ok (verifier v) → text ≡ (b'v' ∷ b'=' ∷ []) ++ v
unfolding server_final_message final_message server_error peeks_e final_of server_verifier eat value
    base64 take_while eof
server_final_message-eq [] v h = ground arith
server_final_message-eq (c ∷ []) v h = ground arith
server_final_message-eq (c ∷ d ∷ s) v h = ground (arith, span-whole is_base64 s)

module _ ⦃h : Crypto⦄ where
  verify-tag :
      (sp am : Bytes) (o : Option Bytes)
      → verify sp am o ≡ ok tt
      → (tag : Bytes) × (o ≡ some tag)
        × (tag
            ≡ h.hmac
                (h.hmac sp
                  (b'S' ∷ b'e' ∷ b'r' ∷ b'v' ∷ b'e' ∷ b'r' ∷ b' ' ∷ b'K' ∷ b'e' ∷ b'y' ∷ []))
                am)
  unfolding verify
  verify-tag sp am none e = ground arith
  verify-tag sp am (some tag) e = (
    tag,
    refl,
    (h.verify_hmac_iff
          (h.hmac sp (b'S' ∷ b'e' ∷ b'r' ∷ b'v' ∷ b'e' ∷ b'r' ∷ b' ' ∷ b'K' ∷ b'e' ∷ b'y' ∷ [])) am
          tag).0
        (ground arith),
  )

  -- What a message must hold for `finish` to succeed: the signature of the whole exchange under the
  -- key that only who knows the password or its stored keys can compute.
  abbrev pub Signed : (salted_password auth_message text : Bytes) → Type 0
  Signed sp am text =
      (v : Bytes) × (text ≡ (b'v' ∷ b'=' ∷ []) ++ v)
      × (h.decode_base64 v
          ≡ some (
              h.hmac
                (h.hmac sp
                  (b'S' ∷ b'e' ∷ b'r' ∷ b'v' ∷ b'e' ∷ b'r' ∷ b' ' ∷ b'K' ∷ b'e' ∷ b'y' ∷ []))
                am))

  parsed-Signed :
      (sp am text : Bytes) (m : Outcome ServerFinalMessage)
      → server_final_message text ≡ m
      → finish_parsed sp am m ≡ ok tt
      → Signed sp am text
  unfolding finish_parsed
  parsed-Signed sp am text (err x) e k = ground arith
  parsed-Signed sp am text panicked e k = ground arith
  parsed-Signed sp am text (ok (error x)) e k = ground arith
  parsed-Signed sp am text (ok (verifier v)) e k =
      let (tag, d, t) = verify-tag sp am (h.decode_base64 v) k in
      (v, server_final_message-eq text v e, d ∙ ap some t)

  text-Signed :
      (sp am text : Bytes)
      → (if is_utf8 text
          then finish_parsed sp am (server_final_message text)
          else err (invalid_input "invalid utf-8"))
        ≡ ok tt
      → Signed sp am text
  text-Signed sp am text e = elim (Bool-cases (is_utf8 text)) [
    | inl u ↦ parsed-Signed sp am text (server_final_message text) refl (rw u at e)
    | inr u ↦ absurd (refused (rw u at e))
  ]
    where
      refused : ◌≢◌ {A = Outcome (Unit {0})} (err (invalid_input "invalid utf-8")) (ok tt)
      refused e = cc

  finish-state :
      (message : Bytes) (state : State) (text : Bytes)
      → (finish (record { message = message; state = state }) text).0 ≡ ok tt
      → (sp : Bytes) × (am : Bytes) × (state ≡ finish_ sp am) × Signed sp am text
  unfolding finish
  finish-state message (update_ r p cb) text e = ground arith
  finish-state message (finish_ sp am) text e = (sp, am, refl, text-Signed sp am text e)
  finish-state message done text e = ground arith

  -- `finish` succeeds only in the state `finish_`, which `update` puts the client in, and only on a
  -- message that carries the server's signature of the exchange.
  pub finish-Signed :
      (client : ScramSha256) (text : Bytes)
      → (finish client text).0 ≡ ok tt
      → (sp : Bytes) × (am : Bytes) × (client.state ≡ finish_ sp am) × Signed sp am text
  finish-Signed client text e = finish-state client.message client.state text e

  update_salted-done :
      (s : ScramSha256) (r p : Bytes) (cb : ChannelBinding) (text : Bytes) (m : ServerFirstMessage)
      (o : Option Bytes)
      → (update_salted s r p cb text m o).0 ≢ ok tt
      → (update_salted s r p cb text m o).1.state ≡ done
  unfolding update_salted
  update_salted-done s r p cb text m none e = refl
  update_salted-done s r p cb text m (some salt) e = absurd (e refl)

  update_parsed-done :
      (s : ScramSha256) (r p : Bytes) (cb : ChannelBinding) (text : Bytes)
      (o : Outcome ServerFirstMessage)
      → (update_parsed s r p cb text o).0 ≢ ok tt
      → (update_parsed s r p cb text o).1.state ≡ done
  unfolding update_parsed
  update_parsed-done s r p cb text (err x) e = refl
  update_parsed-done s r p cb text panicked e = refl
  update_parsed-done s r p cb text (ok m) e =
      ground (arith, update_salted-done s r p cb text m (h.decode_base64 m.salt))

  update-state :
      (message : Bytes) (state : State) (text : Bytes)
      → (update (record { message = message; state = state }) text).0 ≢ ok tt
      → (update (record { message = message; state = state }) text).1.state ≡ done
  unfolding update
  update-state message (update_ r p cb) text e = ground (
    arith,
    update_parsed-done (record { message = message; state = update_ r p cb }) r p cb text
        (server_first_message text),
  )
  update-state message (finish_ sp am) text e = refl
  update-state message done text e = refl

  after_done :
      (message : Bytes) (state : State) (text : Bytes)
      → state ≡ done
      → let s : ScramSha256 = record { message = message; state = state } in
        ((update s text).0 ≡ err (other "invalid SCRAM state"))
        × ((finish s text).0 ≡ err (other "invalid SCRAM state"))
  unfolding update finish
  after_done message (update_ r p cb) text e = ground arith
  after_done message (finish_ sp am) text e = ground arith
  after_done message done text e = (refl, refl)

  -- Once a call of `update` has failed, no later call succeeds.
  pub update_failed :
      (client : ScramSha256) (text later : Bytes)
      → (update client text).0 ≢ ok tt
      → let next = (update client text).1 in
        ((update next later).0 ≡ err (other "invalid SCRAM state"))
        × ((finish next later).0 ≡ err (other "invalid SCRAM state"))
  update_failed client text later e =
      let next : ScramSha256 = (update client text).1 in
      after_done next.message next.state later (update-state client.message client.state text e)

  -- The error that a server reports in its last message is lost: where the client waits for that
  -- message, any report that does not begin with one of the three characters that the protocol
  -- forbids in it is refused as trailing data.
  pub finish-server_error :
      (client : ScramSha256) (sp am : Bytes) (c : ℕ) (report : Bytes)
      → client.state ≡ finish_ sp am
      → is_value c ≡ false
      → is_utf8 ((b'e' ∷ b'=' ∷ []) ++ (c ∷ report)) ≡ true
      → (finish client ((b'e' ∷ b'=' ∷ []) ++ (c ∷ report))).0
        ≡ err (invalid_input "unexpected trailing data")
  unfolding finish server_final_message final_message server_error peeks_e final_of eat value
      take_while eof span finish_parsed
  finish-server_error client sp am c report e v u = rw (e, u, v)
