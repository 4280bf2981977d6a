-- ===== src/Frontend.antt =====
-- opengauss-protocol/src/message/frontend.rs: what the client sends. A text is its UTF-8 bytes.
-- `BindError::Conversion` and `BindError::Serialization` carry an `Error` each, and are that error.
pub mod Parts
pub mod Request
pub mod Sends
pub mod Grows
use rust_opengauss.Prelude.{
  ℕ, zero, suc, ◌+◌, ◌-◌, ◌^◌, Bool, true, false, ◌||◌, List, [], ◌∷◌, ◌++◌, Bytes, length, ltb,
  ◌==◌, if◌then◌else◌,
}
use rust_opengauss.Outcome.{Outcome, ok, err, Error, invalid_input}
use rust_opengauss.Crates.{Crates}
use rust_opengauss.Write.{
  Writer, ◌>>=◌, ◌>>◌, pure, lift, put, len, len_from, patch, unwrap, IsNull, i32_max, u16_max,
  from_usize, write_nullable,
}

-- `s.contains(&0)`
unfoldable pub contains_nul : Bytes → Bool
contains_nul [] = false
contains_nul (b ∷ s) = b == 0 || contains_nul s

unfoldable pub write_cstr : Bytes → Writer (Unit {0})
write_cstr s =
    if contains_nul s
    then lift (err (invalid_input "string contains embedded null"))
    else (do put s; put (0 ∷ []))

-- the loop of `write_counted`, with the count so far
unfoldable pub write_items {ℓ} : {T : Type ℓ} → (T → Writer (Unit {0})) → List T → ℕ → Writer ℕ
write_items serializer [] count = pure count
write_items serializer (item ∷ items) count = do
  serializer item
  write_items serializer items (count + 1)

-- the loop over the parameters of `startup_message`
unfoldable pub write_parameters : List (Bytes × Bytes) → Writer (Unit {0})
write_parameters [] = pure tt
write_parameters ((key, value) ∷ parameters) = do
  write_cstr key
  write_cstr value
  write_parameters parameters

module _ ⦃c : Crates⦄ where
  unfoldable pub write_body : Writer (Unit {0}) → Writer (Unit {0})
  write_body f = do
    base ← len
    put (0 ∷ 0 ∷ 0 ∷ 0 ∷ [])
    f
    n ← len_from base
    size ← lift (from_usize i32_max n)
    patch base (c.to_be 4 size)

  unfoldable pub write_counted {ℓ} :
      {T : Type ℓ} → List T → (T → Writer (Unit {0})) → Writer (Unit {0})
  write_counted items serializer = do
    base ← len
    put (0 ∷ 0 ∷ [])
    n ← write_items serializer items 0
    count ← lift (from_usize u16_max n)
    patch base (c.to_be 2 count)

  -- `put_i16`, `put_i32`, `put_u32`, as a serializer of items
  abbrev pub put_be : ℕ → ℕ → Writer (Unit {0})
  put_be w n = put (c.to_be w n)

  unfoldable pub bind {ℓ} :
      {T : Type ℓ}
      → (portal statement : Bytes) (formats : List ℕ) (values : List T) → (T → Writer IsNull)
      → (result_formats : List ℕ) → Writer (Unit {0})
  bind portal statement formats values serializer result_formats = do
    put (b'B' ∷ [])
    write_body (do
      write_cstr portal
      write_cstr statement
      write_counted formats (put_be 2)
      write_counted values (λ v. write_nullable (serializer v))
      write_counted result_formats (put_be 2))

  unfoldable pub cancel_request : ℕ → ℕ → Writer (Unit {0})
  cancel_request process_id secret_key =
      unwrap (write_body (do put_be 4 80877102; put_be 4 process_id; put_be 4 secret_key))

  unfoldable pub close : ℕ → Bytes → Writer (Unit {0})
  close variant name = do put (b'C' ∷ []); write_body (do put (variant ∷ []); write_cstr name)

  unfoldable pub copy_done : Writer (Unit {0})
  copy_done = do put (b'c' ∷ []); unwrap (write_body (pure tt))

  unfoldable pub copy_fail : Bytes → Writer (Unit {0})
  copy_fail message = do put (b'f' ∷ []); write_body (write_cstr message)

  unfoldable pub describe : ℕ → Bytes → Writer (Unit {0})
  describe variant name = do put (b'D' ∷ []); write_body (do put (variant ∷ []); write_cstr name)

  unfoldable pub execute : Bytes → ℕ → Writer (Unit {0})
  execute portal max_rows = do put (b'E' ∷ []); write_body (do write_cstr portal; put_be 4 max_rows)

  unfoldable pub parse : Bytes → Bytes → List ℕ → Writer (Unit {0})
  parse name query param_types = do
    put (b'P' ∷ [])
    write_body (do write_cstr name; write_cstr query; write_counted param_types (put_be 4))

  unfoldable pub password_message : Bytes → Writer (Unit {0})
  password_message password = do put (b'p' ∷ []); write_body (write_cstr password)

  unfoldable pub query : Bytes → Writer (Unit {0})
  query text = do put (b'Q' ∷ []); write_body (write_cstr text)

  unfoldable pub sasl_initial_response : Bytes → Bytes → Writer (Unit {0})
  sasl_initial_response mechanism s = do
    put (b'p' ∷ [])
    write_body
        (do write_cstr mechanism; n ← lift (from_usize i32_max (length s)); put_be 4 n; put s)

  unfoldable pub sasl_response : Bytes → Writer (Unit {0})
  sasl_response s = do put (b'p' ∷ []); write_body (put s)

  unfoldable pub ssl_request : Writer (Unit {0})
  ssl_request = unwrap (write_body (put_be 4 80877103))

  unfoldable pub startup_message : List (Bytes × Bytes) → Writer (Unit {0})
  startup_message parameters =
      write_body (do put_be 4 0x00030033; write_parameters parameters; put (0 ∷ []))

  unfoldable pub flush : Writer (Unit {0})
  flush = do put (b'H' ∷ []); unwrap (write_body (pure tt))

  unfoldable pub sync : Writer (Unit {0})
  sync = do put (b'S' ∷ []); unwrap (write_body (pure tt))

  unfoldable pub terminate : Writer (Unit {0})
  terminate = do put (b'X' ∷ []); unwrap (write_body (pure tt))

pub record CopyData : Type 0 where
  pub buf : Bytes
  pub len : ℕ

-- `CopyData::new`
unfoldable pub copy_data_new : Bytes → Outcome CopyData
copy_data_new buf =
    if ltb i32_max (length buf + 4)
    then err (invalid_input "message length overflow")
    else ok (record { buf = buf; len = length buf + 4 })

module _ ⦃c : Crates⦄ where
  -- `CopyData::write`
  unfoldable pub copy_data_write : CopyData → Writer (Unit {0})
  copy_data_write d = do put (b'd' ∷ []); put_be 4 d.len; put d.buf
