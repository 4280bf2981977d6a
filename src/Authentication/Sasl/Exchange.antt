-- ===== src/Authentication/Sasl/Exchange.antt =====
-- About a whole exchange of `ScramSha256` with a server that has stored the password.
use rust_opengauss.Prelude.{
  ℕ, suc, ◌+◌, ◌*◌, ◌-◌, ◌^◌, ◌<◌, ◌≡◌, refl, Option, none, some, sym, ap, ◌∙◌, Bool, true, false,
  [], ◌∷◌, ◌++◌, arith, Bytes, IsBytes, All, All-append, lt→ltb,
}
use rust_opengauss.Outcome.{ok}
use rust_opengauss.Utf8.{is_utf8}
use rust_opengauss.Utf8.Ascii.{IsAscii, ascii-is_utf8}
use rust_opengauss.Base64.{IsBase64, is_base64}
use rust_opengauss.Bits.{xor, xor-twice}
use rust_opengauss.Crypto.{Crypto}
use rust_opengauss.Authentication.Sasl.Parser.{
  verifier, eat, span, take_while, is_printable, printable, nonce, base64, salt, is_digit, decimal,
  parse_u32, posit_number, iteration_count, eof, first_message, server_first_message, peeks_e,
  server_error, server_verifier, final_of, final_message, server_final_message,
}
use rust_opengauss.Authentication.Sasl.{
  ChannelBinding, unrequested, unsupported, tls_server_end_point, ScramSha256, gs2_header,
  cbind_data, starts_with, prepared, normalize, hi, new_inner, without_proof, auth_message_of,
  prove, update_salted, update_parsed, update, verify, finish_parsed, finish,
}
use rust_opengauss.Authentication.Sasl.Hi.{hi-xor_all}
use rust_opengauss.Authentication.Sasl.Server.{
  Stored, IsPrintable, IsDigit, number, IsCount, binding_header, binding_input, first_bare,
  or_given, prepared_password, salted_password, stored_for, server_first, final_without_proof,
  signed_text, Accepts, server_final,
}

All-map {ℓ κ} :
    {P : ℕ → Type ℓ} {Q : ℕ → Type κ} → ((c : ℕ) → P c → Q c) → (s : Bytes) → All P s → All Q s
All-map f [] h = tt
All-map f (c ∷ s) h = (f c h.0, All-map f s h.1)

-- What the server takes for such a character, the client's parser takes too.
is_printable-IsPrintable : (c : ℕ) → IsPrintable c → is_printable c ≡ true
unfolding is_printable
is_printable-IsPrintable c h = ground (arith, h.0, h.1, h.2)

is_digit-IsDigit : (c : ℕ) → IsDigit c → is_digit c ≡ true
unfolding is_digit
is_digit-IsDigit c h = ground (arith, h.0, h.1)

-- A front of such characters is taken up to one that is not.
span-append :
    (f : ℕ → Bool) (s : Bytes) (c : ℕ) (rest : Bytes)
    → All (λ x. f x ≡ true) s
    → f c ≡ false
    → span f (s ++ (c ∷ rest)) ≡ (s, c ∷ rest)
unfolding span
span-append f [] c rest h e = rw e
span-append f (x ∷ s) c rest h e = rw (h.0, span-append f s c rest h.1 e)

span-All : (f : ℕ → Bool) (s : Bytes) → All (λ x. f x ≡ true) s → span f s ≡ (s, [])
unfolding span
span-All f [] h = refl
span-All f (x ∷ s) h = rw (h.0, span-All f s h.1)

starts_with-append : (s t : Bytes) → starts_with s (s ++ t) ≡ true
unfolding starts_with
starts_with-append [] t = refl
starts_with-append (x ∷ s) t = ground (arith, starts_with-append s t)

decimal-number : (s : Bytes) (n : ℕ) → decimal n s ≡ number n s
unfolding decimal
decimal-number [] n = refl
decimal-number (c ∷ s) n =
    ap (λ m. decimal m s) (omega arith) ∙ decimal-number s (10 * n + (c - 48))

positive : (n : ℕ) → 0 < n → n ≡ suc (n - 1)
positive n h = omega arith

parse_u32_count : (s : Bytes) → IsCount s → parse_u32 s ≡ ok (decimal 0 s)
unfolding parse_u32
parse_u32_count [] h = absurd (omega (arith, h.1))
parse_u32_count (c ∷ s) h =
    rw (lt→ltb (decimal 0 (c ∷ s)) (2 ^ 32) (rw (decimal-number (c ∷ s) 0) h.3))

-- The parser reads the server's first message.
server_first_message_lem :
    (r s i : Bytes)
    → All IsPrintable r
    → All IsBase64 s
    → IsCount i
    → server_first_message (
        (b'r' ∷ b'=' ∷ [])
        ++ (r ++ ((b',' ∷ b's' ∷ b'=' ∷ []) ++ (s ++ ((b',' ∷ b'i' ∷ b'=' ∷ []) ++ i)))))
      ≡ ok (record { nonce = r; salt = s; iteration_count = decimal 0 i })
unfolding server_first_message first_message nonce salt iteration_count eat printable base64
    take_while posit_number eof
server_first_message_lem r s i hr hs hi = rw (
  span-append is_printable r b',' ((b's' ∷ b'=' ∷ []) ++ (s ++ ((b',' ∷ b'i' ∷ b'=' ∷ []) ++ i)))
      (All-map is_printable-IsPrintable r hr) (unfold is_printable in refl),
  span-append is_base64 s b',' ((b'i' ∷ b'=' ∷ []) ++ i) hs (unfold is_base64 in refl),
  span-All is_digit i (All-map is_digit-IsDigit i hi.0),
  parse_u32_count i hi,
)

-- The parser reads the server's last message.
server_final_message_lem :
    (v : Bytes) → All IsBase64 v → server_final_message ((b'v' ∷ b'=' ∷ []) ++ v) ≡ ok (verifier v)
unfolding server_final_message final_message server_error peeks_e final_of server_verifier eat
    base64 take_while eof
server_final_message_lem v h = rw (span-All is_base64 v h)

printable-IsAscii : (c : ℕ) → IsPrintable c → IsAscii c
printable-IsAscii c h = omega (arith, h.1)

base64-IsAscii : (c : ℕ) → IsBase64 c → IsAscii c
unfolding is_base64
base64-IsAscii c h = ground arith

digit-IsAscii : (c : ℕ) → IsDigit c → IsAscii c
digit-IsAscii c h = omega (arith, h.1)

module _ ⦃h : Crypto⦄ where
  same_given : (password : Bytes) (o : Option Bytes) → prepared password o ≡ or_given password o
  same_given password none = refl
  same_given password (some p) = refl

  normalize-prepared : (password : Bytes) → normalize password ≡ prepared_password password
  unfolding normalize
  normalize-prepared password = rw (same_given password (h.saslprep password)) refl

  -- The client salts the password as the server has done.
  pub hi-salted :
      (password salt count : Bytes)
      → 0 < number 0 count
      → hi (normalize password) salt (decimal 0 count) ≡ salted_password password salt count
  hi-salted password salt count k =
      ap (λ p. hi p salt (decimal 0 count)) (normalize-prepared password)
      ∙ ap (hi (prepared_password password) salt) (decimal-number count 0 ∙ positive _ k)
      ∙ hi-xor_all (prepared_password password) salt (number 0 count - 1)

  -- It names the channel as the server sees it.
  header-binding : (cb : ChannelBinding) → gs2_header cb ≡ binding_header cb
  unfolding gs2_header
  header-binding unrequested = refl
  header-binding unsupported = refl
  header-binding (tls_server_end_point buf) = refl

  input-binding : (cb : ChannelBinding) → gs2_header cb ++ cbind_data cb ≡ binding_input cb
  unfolding gs2_header cbind_data
  input-binding unrequested = refl
  input-binding unsupported = refl
  input-binding (tls_server_end_point buf) = refl

  without-final :
      (cb : ChannelBinding) (nonce : Bytes) → without_proof cb nonce ≡ final_without_proof cb nonce
  unfolding without_proof
  without-final cb nonce = rw (input-binding cb) refl

  message-first :
      (password : Bytes) (cb : ChannelBinding) (r : Bytes)
      → (new_inner password cb r).message ≡ binding_header cb ++ first_bare r
  unfolding new_inner
  message-first password cb r = rw (header-binding cb) refl

  auth_message-signed :
      (cb : ChannelBinding) (s : Stored) (r t : Bytes)
      → auth_message_of r (server_first s r t) (without_proof cb (r ++ t)) ≡ signed_text cb s r t
  unfolding auth_message_of
  auth_message-signed cb s r t = rw (without-final cb (r ++ t)) refl

  server_first-is_utf8 :
      (s : Stored) (r t : Bytes)
      → All IsPrintable r
      → All IsPrintable t
      → All IsDigit s.count
      → is_utf8 (server_first s r t) ≡ true
  server_first-is_utf8 s r t hr ht hi =
      let ascii_r : All IsAscii (r ++ t) =
        All-append IsAscii r t (All-map printable-IsAscii r hr) (All-map printable-IsAscii t ht) in
      let ascii_i : All IsAscii ((b',' ∷ b'i' ∷ b'=' ∷ []) ++ s.count) =
        (omega arith, (omega arith, (omega arith, All-map digit-IsAscii s.count hi))) in
      let ascii_s : All IsAscii (
          (b',' ∷ b's' ∷ b'=' ∷ [])
          ++ (h.encode_base64 s.salt ++ ((b',' ∷ b'i' ∷ b'=' ∷ []) ++ s.count))) =
        (
          omega arith,
          (
            omega arith,
            (
              omega arith,
              All-append IsAscii (h.encode_base64 s.salt) ((b',' ∷ b'i' ∷ b'=' ∷ []) ++ s.count)
                  (All-map base64-IsAscii (h.encode_base64 s.salt) (h.base64_alphabet s.salt))
                  ascii_i,
            ),
          ),
        ) in
      ascii-is_utf8 (server_first s r t)
        (omega arith, (omega arith, All-append IsAscii (r ++ t) _ ascii_r ascii_s))

  server_final-is_utf8 : (s : Stored) (am : Bytes) → is_utf8 (server_final s am) ≡ true
  server_final-is_utf8 s am =
      let tag : Bytes = h.hmac s.server_key am in
      ascii-is_utf8 (server_final s am) (
        omega arith,
        (omega arith, All-map base64-IsAscii (h.encode_base64 tag) (h.base64_alphabet tag)),
      )

  update_first :
      (password : Bytes) (cb : ChannelBinding) (r t salt count : Bytes)
      → All IsPrintable r
      → All IsPrintable t
      → IsBytes salt
      → IsCount count
      → let s = stored_for password salt count in
        update (new_inner password cb r) (server_first s r t) ≡ (
          ok tt,
          prove
              (salted_password password salt count)
              (signed_text cb s r t)
              (final_without_proof cb (r ++ t)),
        )
  unfolding update new_inner update_parsed update_salted
  update_first password cb r t salt count hr ht hs hc = rw (
    server_first-is_utf8 (stored_for password salt count) r t hr ht hc.0,
    server_first_message_lem (r ++ t) (h.encode_base64 salt) count
        (All-append IsPrintable r t hr ht) (h.base64_alphabet salt) hc,
    starts_with-append r t,
    h.base64_inverse salt hs,
    hi-salted password salt count hc.2,
    auth_message-signed cb (stored_for password salt count) r t,
    without-final cb (r ++ t),
  )

  finish_final :
      (password salt count am without : Bytes)
      → (finish
          (prove (salted_password password salt count) am without)
          (server_final (stored_for password salt count) am)).0
        ≡ ok tt
  unfolding finish prove finish_parsed verify
  finish_final password salt count am without =
      let key : Bytes =
        h.hmac (salted_password password salt count)
          ((b'S' ∷ b'e' ∷ b'r' ∷ b'v' ∷ b'e' ∷ b'r' ∷ b' ' ∷ b'K' ∷ b'e' ∷ b'y' ∷ [])) in
      let tag : Bytes = h.hmac key am in
      rw (
        server_final-is_utf8 (stored_for password salt count) am,
        server_final_message_lem (h.encode_base64 tag) (h.base64_alphabet tag),
        h.base64_inverse tag (h.hmac_bytes _ am),
        (h.verify_hmac_iff key am tag).1 refl,
      )

  -- A client with the password and a server that has stored it, and that sees the same channel,
  -- come to an end: the client's first message names the channel and its nonce, it takes the
  -- server's first message, its last message carries the channel's data, both nonces and a proof
  -- that the server accepts for the text it has put together itself, and the client accepts the
  -- server's last message. The nonces are printable, and the count is a decimal `u32` from one on.
  pub exchange-accepted :
      (password : Bytes) (cb : ChannelBinding) (r t salt count : Bytes)
      → All IsPrintable r
      → All IsPrintable t
      → IsBytes salt
      → IsCount count
      → let s = stored_for password salt count in
        let am = signed_text cb s r t in
        (client : ScramSha256) × (proof : Bytes) × ((new_inner password cb r).message
          ≡ binding_header cb ++ first_bare r)
        × (update (new_inner password cb r) (server_first s r t) ≡ (ok tt, client))
        × (client.message
            ≡ final_without_proof cb (r ++ t)
              ++ ((b',' ∷ b'p' ∷ b'=' ∷ []) ++ h.encode_base64 proof))
        × Accepts s am proof
        × ((finish client (server_final s am)).0 ≡ ok tt)
  exchange-accepted password cb r t salt count hr ht hs hc =
      let s : Stored = stored_for password salt count in
      let am : Bytes = signed_text cb s r t in
      let ck : Bytes =
        h.hmac (salted_password password salt count)
          ((b'C' ∷ b'l' ∷ b'i' ∷ b'e' ∷ b'n' ∷ b't' ∷ b' ' ∷ b'K' ∷ b'e' ∷ b'y' ∷ [])) in
      let signature : Bytes = h.hmac s.stored_key am in
      (
        prove (salted_password password salt count) am (final_without_proof cb (r ++ t)),
        xor ck signature,
        message-first password cb r,
        update_first password cb r t salt count hr ht hs hc,
        unfold prove in refl,
        ap h.sha256 (
            xor-twice ck signature (h.hmac_bytes _ _)
              (h.hmac_length _ _ ∙ sym (h.hmac_length s.stored_key am))),
        finish_final password salt count am (final_without_proof cb (r ++ t)),
      )
