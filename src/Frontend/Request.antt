-- ===== src/Frontend/Request.antt =====
-- The wire format of the client's messages: which bytes each call is to append.
use rust_opengauss.Prelude.{ℕ, ◌+◌, ◌^◌, ◌<◌, List, [], ◌∷◌, ◌++◌, Bytes, Lacks, All, length}
use rust_opengauss.Crates.{Crates}
use rust_opengauss.Write.{Writer}
use rust_opengauss.Frontend
use rust_opengauss.Frontend.Parts.{encode_items}
use rust_opengauss.Backend.Wire.{cstr}

-- A call of one of the functions of frontend.rs, but `bind` and `CopyData::write`.
pub data Request : Type 0 where
  cancel_request : ℕ → ℕ → Request
  close : ℕ → Bytes → Request
  copy_done flush sync terminate ssl_request : Request
  copy_fail password_message query sasl_response : Bytes → Request
  describe : ℕ → Bytes → Request
  execute : Bytes → ℕ → Request
  parse : Bytes → Bytes → List ℕ → Request
  sasl_initial_response : Bytes → Bytes → Request
  startup_message : List (Bytes × Bytes) → Request

abbrev IsText : Bytes → Type 0
IsText = Lacks 0

abbrev pub IsParameter : Bytes × Bytes → Type 0
IsParameter (key, value) = Lacks 0 key × Lacks 0 value

-- The first byte, which the messages before the startup lack.
abbrev pub tag : Request → Bytes
tag (cancel_request _ _) = []
tag (close _ _) = b'C' ∷ []
tag copy_done = b'c' ∷ []
tag flush = b'H' ∷ []
tag sync = b'S' ∷ []
tag terminate = b'X' ∷ []
tag ssl_request = []
tag (copy_fail _) = b'f' ∷ []
tag (password_message _) = b'p' ∷ []
tag (query _) = b'Q' ∷ []
tag (sasl_response _) = b'p' ∷ []
tag (describe _ _) = b'D' ∷ []
tag (execute _ _) = b'E' ∷ []
tag (parse _ _ _) = b'P' ∷ []
tag (sasl_initial_response _ _) = b'p' ∷ []
tag (startup_message _) = []

abbrev pub encode_parameter : Bytes × Bytes → Bytes
encode_parameter (key, value) = cstr key (cstr value [])

module _ ⦃c : Crates⦄ where
  -- What stands behind the length.
  abbrev pub body : Request → Bytes
  body (cancel_request process_id secret_key) =
      c.to_be 4 80877102 ++ (c.to_be 4 process_id ++ c.to_be 4 secret_key)
  body (close variant name) = variant ∷ cstr name []
  body copy_done = []
  body flush = []
  body sync = []
  body terminate = []
  body ssl_request = c.to_be 4 80877103
  body (copy_fail message) = cstr message []
  body (password_message password) = cstr password []
  body (query text) = cstr text []
  body (sasl_response s) = s
  body (describe variant name) = variant ∷ cstr name []
  body (execute portal max_rows) = cstr portal [] ++ c.to_be 4 max_rows
  body (parse name text types) =
      cstr name [] ++ (cstr text [] ++ (c.to_be 2 (length types) ++ encode_items (c.to_be 4) types))
  body (sasl_initial_response mechanism s) = cstr mechanism [] ++ (c.to_be 4 (length s) ++ s)
  -- The protocol version is 0x00030033, that is 196659, or 3.51; the source's comment says 196675.
  body (startup_message parameters) =
      c.to_be 4 0x00030033 ++ (encode_items encode_parameter parameters ++ (0 ∷ []))

  -- The whole message; the length counts itself.
  abbrev pub message : Request → Bytes
  message r = tag r ++ (c.to_be 4 (4 + length (body r)) ++ body r)

  -- The texts have no NUL, and the numbers of items fit their `u16`.
  abbrev pub IsWellFormed : Request → Type 0
  IsWellFormed (close variant name) = IsText name
  IsWellFormed (copy_fail text) = IsText text
  IsWellFormed (password_message password) = IsText password
  IsWellFormed (query text) = IsText text
  IsWellFormed (describe variant name) = IsText name
  IsWellFormed (execute portal max_rows) = IsText portal
  IsWellFormed (parse name text types) = IsText name × IsText text × (length types < 2 ^ 16)
  IsWellFormed (sasl_initial_response mechanism s) = IsText mechanism
  IsWellFormed (startup_message parameters) = All IsParameter parameters
  IsWellFormed _ = Unit {0}

  -- The call itself.
  abbrev pub send : Request → Writer (Unit {0})
  send (cancel_request process_id secret_key) = Frontend.cancel_request process_id secret_key
  send (close variant name) = Frontend.close variant name
  send copy_done = Frontend.copy_done
  send flush = Frontend.flush
  send sync = Frontend.sync
  send terminate = Frontend.terminate
  send ssl_request = Frontend.ssl_request
  send (copy_fail text) = Frontend.copy_fail text
  send (password_message password) = Frontend.password_message password
  send (query text) = Frontend.query text
  send (sasl_response s) = Frontend.sasl_response s
  send (describe variant name) = Frontend.describe variant name
  send (execute portal max_rows) = Frontend.execute portal max_rows
  send (parse name text types) = Frontend.parse name text types
  send (sasl_initial_response mechanism s) = Frontend.sasl_initial_response mechanism s
  send (startup_message parameters) = Frontend.startup_message parameters
