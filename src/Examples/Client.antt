-- ===== src/Examples/Client.antt =====
-- Messages of the client.
use rust_opengauss.Prelude.{
  ◌≡◌, refl, Option, none, some, List, [], ◌∷◌, arith, Bytes, ap, sym, append-nil,
}
use rust_opengauss.Outcome.{ok}
use rust_opengauss.Crates.Native.{native_crates, be_bytes}
use rust_opengauss.Write.{
  Writer, IsNull, null, not_null, pure, put, len, from_usize, patch, len_from, ◌>>◌,
}
use rust_opengauss.Write.Laws.{Writes}
use rust_opengauss.Frontend
use rust_opengauss.Backend.Wire.{frame}
use rust_opengauss.Frontend.Request.{Request, message}
use rust_opengauss.Frontend.Request
use rust_opengauss.Frontend.Sends.{send-Writes, bind-Writes_lem, bind_body}
use rust_opengauss.Backend.Message

abbrev parse_request : Request
parse_request = Request.parse (b's' ∷ []) (b'Q' ∷ []) (23 ∷ [])

send-Writes_example : Writes (Request.send parse_request) tt (message parse_request)
unfolding be_bytes
send-Writes_example =
    send-Writes parse_request ((omega arith, tt), (omega arith, tt), omega arith) (omega arith)

-- the call on a buffer that holds a byte
parse_bytes :
    Frontend.parse (b's' ∷ []) (b'Q' ∷ []) (23 ∷ []) (9 ∷ [])
    ≡ (ok tt, 9 ∷ b'P' ∷ 0 ∷ 0 ∷ 0 ∷ 14 ∷ b's' ∷ 0 ∷ b'Q' ∷ 0 ∷ 0 ∷ 1 ∷ 0 ∷ 0 ∷ 0 ∷ 23 ∷ [])
unfolding Frontend.parse Frontend.write_body Frontend.write_cstr Frontend.contains_nul
    Frontend.write_counted Frontend.write_items put len from_usize patch len_from be_bytes
parse_bytes = refl

-- A parameter that is NULL, or bytes that are sent as they are.
abbrev serialize : Option Bytes → Writer IsNull
serialize none = pure null
serialize (some v) = put v >> pure not_null

abbrev bound : List (Option Bytes)
bound = some (7 ∷ []) ∷ none ∷ []

bind-Writes_lem_example :
    Writes
      (Frontend.bind [] (b's' ∷ []) (1 ∷ []) bound serialize [])
      tt
      (frame b'B' (bind_body [] (b's' ∷ []) (1 ∷ []) bound (λ v. v) []))
unfolding be_bytes put
bind-Writes_lem_example =
    bind-Writes_lem [] (b's' ∷ []) (1 ∷ []) bound serialize [] (λ v. v) (tt, (omega arith, tt))
      (omega arith, omega arith, omega arith)
      (((λ buf. refl), omega arith), ((λ buf. ap (λ s. (ok null, s)) (sym (append-nil buf))), tt))
      (omega arith)

-- a text with a NUL, which fails behind the tag and the place of the length
abbrev bad_query : Request
bad_query = Request.query (b'Q' ∷ 0 ∷ [])
