-- ===== src/Frontend/Sends.antt =====
-- About what the calls of opengauss-protocol/src/message/frontend.rs append.
use rust_opengauss.Prelude.{
  ℕ, ◌+◌, ◌^◌, ◌<◌, ◌≡◌, ap, ◌∙◌, Option, List, [], ◌∷◌, ◌++◌, arith, Bytes, Lacks, All, length,
  append_assoc, length-append,
}
use rust_opengauss.Outcome.{ok}
use rust_opengauss.Crates.{Crates}
use rust_opengauss.Write.{
  Writer, ◌>>=◌, ◌>>◌, pure, lift, put, unwrap, IsNull, i32_max, from_usize, write_nullable,
}
use rust_opengauss.Write.Laws.{Writes, pure-Writes, put-Writes, from_usize_ok}
use rust_opengauss.Frontend
use rust_opengauss.Frontend.{write_cstr, write_counted, write_body, put_be, write_parameters}
use rust_opengauss.Frontend.Parts.{
  write_cstr-Writes, then-Writes, write_counted-Writes, write_body-Writes, Serializes, value-Writes,
  encode_items,
}
use rust_opengauss.Frontend.Request.{
  Request, cancel_request, close, copy_done, flush, sync, terminate, ssl_request, copy_fail,
  password_message, query, sasl_response, describe, execute, parse, sasl_initial_response,
  startup_message, IsParameter, encode_parameter, body, message, IsWellFormed, send,
}
use rust_opengauss.Backend.Wire.{cstr, frame}
use rust_opengauss.Backend.Iter.Row.{column}

unwrap-Writes {ℓ} :
    {A : Type ℓ} (m : Writer A) (a : A) (s : Bytes) → Writes m a s → Writes (unwrap m) a s
unfolding unwrap
unwrap-Writes m a s h buf = rw (h buf)

write_parameters-Writes :
    (ps : List (Bytes × Bytes))
    → All IsParameter ps
    → Writes (write_parameters ps) tt (encode_items encode_parameter ps)
unfolding write_parameters
write_parameters-Writes [] h buf = pure-Writes tt buf
write_parameters-Writes ((key, value) ∷ ps) ((hk, hv), h) buf =
    then-Writes (write_cstr key) (write_cstr value >> write_parameters ps) tt tt _ _
      (write_cstr-Writes key hk)
      (then-Writes (write_cstr value) (write_parameters ps) tt tt _ _ (write_cstr-Writes value hv)
        (write_parameters-Writes ps h))
      buf
    ∙ ap (λ s. (ok tt, buf ++ s)) (regroup key value (encode_items encode_parameter ps))
  where
    regroup :
        (a b rest : Bytes)
        → (a ++ (0 ∷ [])) ++ ((b ++ (0 ∷ [])) ++ rest) ≡ (a ++ (0 ∷ (b ++ (0 ∷ [])))) ++ rest
    regroup a b rest = simp append_assoc

module _ ⦃c : Crates⦄ where
  -- The body of `Bind`, where the values of the parameters are as given.
  abbrev pub bind_body {ℓ} :
      {T : Type ℓ} → Bytes → Bytes → List ℕ → List T → (T → Option Bytes) → List ℕ → Bytes
  bind_body portal statement formats values value result_formats =
      cstr portal []
      ++ (cstr statement []
          ++ ((c.to_be 2 (length formats) ++ encode_items (c.to_be 2) formats)
              ++ ((c.to_be 2 (length values) ++ encode_items (λ x. column (value x)) values)
                  ++ (c.to_be 2 (length result_formats)
                      ++ encode_items (c.to_be 2) result_formats))))

  put_be-Writes : (w n : ℕ) → Unit {0} → Writes (put_be w n) tt (c.to_be w n)
  put_be-Writes w n h = put-Writes (c.to_be w n)

  -- A tag and a body that the writer `f` writes.
  tagged-Writes :
      (t : ℕ) (f : Writer (Unit {0})) (s : Bytes)
      → Writes f tt s
      → 4 + length s < 2 ^ 31
      → Writes (put (t ∷ []) >> write_body f) tt ((t ∷ []) ++ (c.to_be 4 (4 + length s) ++ s))
  tagged-Writes t f s h small =
      then-Writes (put (t ∷ [])) (write_body f) tt tt (t ∷ []) _ (put-Writes (t ∷ []))
        (write_body-Writes f s h small)

  tagged_empty :
      (t : ℕ)
      → Writes (put (t ∷ []) >> unwrap (write_body (pure tt))) tt ((t ∷ []) ++ (c.to_be 4 4 ++ []))
  tagged_empty t =
      then-Writes (put (t ∷ [])) (unwrap (write_body (pure tt))) tt tt (t ∷ []) _
        (put-Writes (t ∷ []))
        (unwrap-Writes (write_body (pure tt)) tt _
          (write_body-Writes (pure tt) [] (pure-Writes tt) (omega arith)))

  variant_name-Writes :
      (variant : ℕ) (name : Bytes)
      → Lacks 0 name
      → Writes (put (variant ∷ []) >> write_cstr name) tt (variant ∷ cstr name [])
  variant_name-Writes variant name h =
      then-Writes (put (variant ∷ [])) (write_cstr name) tt tt (variant ∷ []) _
        (put-Writes (variant ∷ [])) (write_cstr-Writes name h)

  All-numbers : (ns : List ℕ) → All (λ n. Unit {0}) ns
  All-numbers [] = tt
  All-numbers (n ∷ ns) = (tt, All-numbers ns)

  -- Numbers of `w` bytes behind their count.
  numbers-Writes :
      (w : ℕ) (ns : List ℕ)
      → length ns < 2 ^ 16
      → Writes
          (write_counted ns (put_be w))
          tt
          (c.to_be 2 (length ns) ++ encode_items (c.to_be w) ns)
  numbers-Writes w ns h =
      write_counted-Writes (put_be w) (c.to_be w) (λ n. Unit {0}) (put_be-Writes w) ns
        (All-numbers ns) h

  -- A byte string behind its length.
  abbrev sized : Bytes → Writer (Unit {0})
  sized s = lift (from_usize i32_max (length s)) >>= λ n. put_be 4 n >> put s

  sized-Writes : (s : Bytes) → length s < 2 ^ 31 → Writes (sized s) tt (c.to_be 4 (length s) ++ s)
  sized-Writes s h buf = rw (from_usize_ok i32_max (length s) (omega arith)) (
      then-Writes (put_be 4 (length s)) (put s) tt tt _ _ (put-Writes (c.to_be 4 (length s)))
        (put-Writes s) buf)

  -- Each call with texts that have no NUL, and a body that fits, appends exactly its message,
  -- a startup message with the protocol version 196659 (0x00030033).
  pub send-Writes :
      (r : Request) → IsWellFormed r → 4 + length (body r) < 2 ^ 31 → Writes (send r) tt (message r)
  send-Writes copy_done h small = unfold Frontend.copy_done in tagged_empty b'c'
  send-Writes flush h small = unfold Frontend.flush in tagged_empty b'H'
  send-Writes sync h small = unfold Frontend.sync in tagged_empty b'S'
  send-Writes terminate h small = unfold Frontend.terminate in tagged_empty b'X'
  send-Writes (query text) h small =
      unfold Frontend.query in
      tagged-Writes b'Q' (write_cstr text) _ (write_cstr-Writes text h) small
  send-Writes (cancel_request process_id secret_key) h small =
      unfold Frontend.cancel_request in
      unwrap-Writes (write_body _) tt _ (
        write_body-Writes (put_be 4 80877102 >> (put_be 4 process_id >> put_be 4 secret_key)) _
          (then-Writes (put_be 4 80877102) (put_be 4 process_id >> put_be 4 secret_key) tt tt _ _
            (put-Writes (c.to_be 4 80877102))
            (then-Writes (put_be 4 process_id) (put_be 4 secret_key) tt tt _ _
              (put-Writes (c.to_be 4 process_id)) (put-Writes (c.to_be 4 secret_key))))
          small)
  send-Writes ssl_request h small =
      unfold Frontend.ssl_request in
      unwrap-Writes (write_body _) tt _
        (write_body-Writes (put_be 4 80877103) _ (put-Writes (c.to_be 4 80877103)) small)
  send-Writes (close variant name) h small =
      unfold Frontend.close in
      tagged-Writes b'C' (put (variant ∷ []) >> write_cstr name) _
        (variant_name-Writes variant name h) small
  send-Writes (describe variant name) h small =
      unfold Frontend.describe in
      tagged-Writes b'D' (put (variant ∷ []) >> write_cstr name) _
        (variant_name-Writes variant name h) small
  send-Writes (copy_fail text) h small =
      unfold Frontend.copy_fail in
      tagged-Writes b'f' (write_cstr text) _ (write_cstr-Writes text h) small
  send-Writes (password_message password) h small =
      unfold Frontend.password_message in
      tagged-Writes b'p' (write_cstr password) _ (write_cstr-Writes password h) small
  send-Writes (sasl_response s) h small =
      unfold Frontend.sasl_response in tagged-Writes b'p' (put s) _ (put-Writes s) small
  send-Writes (execute portal max_rows) h small =
      unfold Frontend.execute in
      tagged-Writes b'E' (write_cstr portal >> put_be 4 max_rows) _
        (then-Writes (write_cstr portal) (put_be 4 max_rows) tt tt _ _ (write_cstr-Writes portal h)
          (put-Writes (c.to_be 4 max_rows)))
        small
  send-Writes (parse name text types) h small =
      unfold Frontend.parse in
      tagged-Writes b'P' (write_cstr name >> (write_cstr text >> write_counted types (put_be 4))) _
        (then-Writes (write_cstr name) (write_cstr text >> write_counted types (put_be 4)) tt tt _ _
          (write_cstr-Writes name h.0)
          (then-Writes (write_cstr text) (write_counted types (put_be 4)) tt tt _ _
            (write_cstr-Writes text h.1) (numbers-Writes 4 types h.2)))
        small
  send-Writes (sasl_initial_response mechanism s) h small =
      unfold Frontend.sasl_initial_response in
      tagged-Writes b'p' (write_cstr mechanism >> sized s) _
        (then-Writes (write_cstr mechanism) (sized s) tt tt _ _ (write_cstr-Writes mechanism h) (
          sized-Writes s (
            omega (
              arith,
              small,
              length-append (cstr mechanism []) (c.to_be 4 (length s) ++ s),
              length-append (c.to_be 4 (length s)) s,
            ))))
        small
  send-Writes (startup_message parameters) h small =
      unfold Frontend.startup_message in
      write_body-Writes (put_be 4 0x00030033 >> (write_parameters parameters >> put (0 ∷ []))) _
        (then-Writes (put_be 4 0x00030033) (write_parameters parameters >> put (0 ∷ [])) tt tt _ _
          (put-Writes (c.to_be 4 0x00030033))
          (then-Writes (write_parameters parameters) (put (0 ∷ [])) tt tt _ _
            (write_parameters-Writes parameters h) (put-Writes (0 ∷ []))))
        small

  -- `Bind` appends its message, for any serializer that writes the parameters' values.
  pub bind-Writes_lem {ℓ} :
      {T : Type ℓ} (portal statement : Bytes) (formats : List ℕ) (values : List T)
      (serializer : T → Writer IsNull) (result_formats : List ℕ) (value : T → Option Bytes)
      → Lacks 0 portal × Lacks 0 statement
      → (length formats < 2 ^ 16) × (length values < 2 ^ 16) × (length result_formats < 2 ^ 16)
      → All (λ x. Serializes serializer x (value x)) values
      → 4 + length (bind_body portal statement formats values value result_formats) < 2 ^ 31
      → Writes
          (Frontend.bind portal statement formats values serializer result_formats)
          tt
          (frame b'B' (bind_body portal statement formats values value result_formats))
  unfolding Frontend.bind
  bind-Writes_lem portal statement formats values serializer result_formats value texts counts vs
        small =
      tagged-Writes b'B' _ _
        (then-Writes (write_cstr portal) _ tt tt _ _ (write_cstr-Writes portal texts.0) (
          then-Writes (write_cstr statement) _ tt tt _ _ (write_cstr-Writes statement texts.1) (
            then-Writes (write_counted formats (put_be 2)) _ tt tt _ _
              (numbers-Writes 2 formats counts.0)
              (then-Writes (write_counted values (λ v. write_nullable (serializer v)))
                (write_counted result_formats (put_be 2)) tt tt _ _
                (write_counted-Writes (λ x. write_nullable (serializer x)) (λ x. column (value x))
                  (λ x. Serializes serializer x (value x))
                  (λ x h. value-Writes serializer x (value x) h) values vs counts.1)
                (numbers-Writes 2 result_formats counts.2)))))
        small
