-- ===== src/Authentication/Sasl/Parser.antt =====
-- `Parser` of opengauss-protocol/src/authentication/sasl.rs: the text that is left. All that it
-- looks for is ASCII, so it stops at the same places in the bytes as in the characters. The position
-- that the source writes into a message of its errors, and the characters found, are left out of it.
use rust_opengauss.Prelude.{
  ℕ, ◌+◌, ◌*◌, ◌-◌, ◌^◌, Bool, false, ◌||◌, Option, none, some, [], ◌∷◌, Bytes, ltb, ◌==◌,
  if◌then◌else◌,
}
use rust_opengauss.Outcome.{Outcome, ok, err, unexpected_eof, invalid_input, ◌>>=◌ as bind}
use rust_opengauss.Base64.{between, is_base64}
use rust_opengauss.Read.{Reader, ◌>>=◌, ◌>>◌, pure}

pub record ServerFirstMessage : Type 0 where
  pub nonce : Bytes
  pub salt : Bytes
  pub iteration_count : ℕ

pub data ServerFinalMessage : Type 0 where
  error verifier : Bytes → ServerFinalMessage

unfoldable pub eat : ℕ → Reader (Unit {0})
eat target [] = err unexpected_eof
eat target (c ∷ s) = if c == target then ok (tt, s) else err (invalid_input "unexpected character")

-- the longest front of such characters, and what follows it
unfoldable pub span : (ℕ → Bool) → Bytes → Bytes × Bytes
span f [] = ([], [])
span f (c ∷ s) = let rest = span f s in if f c then (c ∷ rest.0, rest.1) else ([], c ∷ s)

unfoldable pub take_while : (ℕ → Bool) → Reader Bytes
take_while f s = ok (span f s)

unfoldable pub is_printable : ℕ → Bool
is_printable c = between 0x21 0x2b c || between 0x2d 0x7e c

unfoldable pub printable : Reader Bytes
printable = take_while is_printable

unfoldable pub nonce : Reader Bytes
nonce = do eat b'r'; eat b'='; printable

unfoldable pub base64 : Reader Bytes
base64 = take_while is_base64

unfoldable pub salt : Reader Bytes
salt = do eat b's'; eat b'='; base64

unfoldable pub is_digit : ℕ → Bool
is_digit c = between b'0' b'9' c

-- the number behind a front of value `n`
unfoldable pub decimal : ℕ → Bytes → ℕ
decimal n [] = n
decimal n (c ∷ s) = decimal (n * 10 + (c - b'0')) s

-- `str::parse::<u32>` on digits: not of none, and not past the type
unfoldable pub parse_u32 : Bytes → Outcome ℕ
parse_u32 [] = err (invalid_input "cannot parse integer from empty string")
parse_u32 (c ∷ s) =
    if ltb (decimal 0 (c ∷ s)) (2 ^ 32)
    then ok (decimal 0 (c ∷ s))
    else err (invalid_input "number too large to fit in target type")

unfoldable pub posit_number : Reader ℕ
posit_number s = bind (take_while is_digit s) λ p. bind (parse_u32 p.0) λ n. ok (n, p.1)

unfoldable pub iteration_count : Reader ℕ
iteration_count = do eat b'i'; eat b'='; posit_number

unfoldable pub eof : Reader (Unit {0})
eof [] = ok (tt, [])
eof (c ∷ s) = err (invalid_input "unexpected trailing data")

unfoldable pub first_message : Reader ServerFirstMessage
first_message = do
  r ← nonce
  eat b','
  s ← salt
  eat b','
  i ← iteration_count
  eof
  pure (record { nonce = r; salt = s; iteration_count = i })

-- `Parser::new(message).server_first_message()`
unfoldable pub server_first_message : Bytes → Outcome ServerFirstMessage
server_first_message text = bind (first_message text) λ p. ok p.0

-- the characters that `value` takes
unfoldable pub is_value : ℕ → Bool
is_value c = c == 0 || (c == b'=' || c == b',')

unfoldable pub value : Reader Bytes
value = take_while is_value

-- `peek` finds an `e`
unfoldable pub peeks_e : Bytes → Bool
peeks_e [] = false
peeks_e (c ∷ s) = c == b'e'

unfoldable pub server_error : Reader (Option Bytes)
server_error s =
    if peeks_e s then (do eat b'e'; eat b'='; v ← value; pure (some v)) s else ok (none, s)

unfoldable pub server_verifier : Reader Bytes
server_verifier = do eat b'v'; eat b'='; base64

unfoldable pub final_of : Option Bytes → Reader ServerFinalMessage
final_of (some e) = pure (error e)
final_of none = do v ← server_verifier; pure (verifier v)

unfoldable pub final_message : Reader ServerFinalMessage
final_message = do e ← server_error; message ← final_of e; eof; pure message

-- `Parser::new(message).server_final_message()`
unfoldable pub server_final_message : Bytes → Outcome ServerFinalMessage
server_final_message text = bind (final_message text) λ p. ok p.0
