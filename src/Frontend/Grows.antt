-- ===== src/Frontend/Grows.antt =====
-- About what the calls of opengauss-protocol/src/message/frontend.rs leave of the buffer.
use rust_opengauss.Prelude.{
  ℕ, ◌+◌, ◌≢◌, refl, Bool, true, false, List, [], ◌∷◌, ◌++◌, arith, Bytes, length, length-append,
  if◌then◌else◌,
}
use rust_opengauss.Outcome.{Outcome, err, panicked, invalid_input}
use rust_opengauss.Crates.{Crates}
use rust_opengauss.Write.{Writer, ◌>>=◌, ◌>>◌, lift, put, len, from_usize, i32_max, u16_max}
use rust_opengauss.Write.Laws.{len_from-append}
use rust_opengauss.Write.Grows.{
  Grows, put-Grows, pure-Grows, lift-Grows, bind-Grows, Writes-Grows, fill-Grows, behind-Grows,
  err_ne, from_usize-ne-panicked,
}
use rust_opengauss.Frontend
use rust_opengauss.Frontend.{
  contains_nul, write_cstr, write_items, write_counted, write_body, put_be, write_parameters,
}
use rust_opengauss.Frontend.Request.{
  Request, send, cancel_request, close, copy_done, flush, sync, terminate, ssl_request, copy_fail,
  password_message, query, sasl_response, describe, execute, parse, sasl_initial_response,
  startup_message,
}
use rust_opengauss.Frontend.Sends.{send-Writes}

then-Grows : (m k : Writer (Unit {0})) → Grows m → Grows k → Grows (m >> k)
then-Grows m k hm hk = bind-Grows m (λ _. k) hm (λ _. hk)

invalid_ne :
    ◌≢◌ {A = Outcome (Unit {0})} (err (invalid_input "string contains embedded null")) panicked
invalid_ne = err_ne (invalid_input "string contains embedded null")

write_cstr-Grows : (s : Bytes) → Grows (write_cstr s)
unfolding write_cstr
write_cstr-Grows s = by_test (contains_nul s)
  where
    by_test :
        (b : Bool)
        → Grows (
            if b
            then lift (err (invalid_input "string contains embedded null"))
            else (put s >> put (0 ∷ [])))
    by_test true = lift-Grows (err (invalid_input "string contains embedded null")) invalid_ne
    by_test false = then-Grows (put s) (put (0 ∷ [])) (put-Grows s) (put-Grows (0 ∷ []))

write_parameters-Grows : (ps : List (Bytes × Bytes)) → Grows (write_parameters ps)
unfolding write_parameters
write_parameters-Grows [] = pure-Grows tt
write_parameters-Grows ((key, value) ∷ ps) =
    then-Grows (write_cstr key) (write_cstr value >> write_parameters ps) (write_cstr-Grows key) (
      then-Grows (write_cstr value) (write_parameters ps) (write_cstr-Grows value)
        (write_parameters-Grows ps))

write_items-Grows {ℓ} :
    {T : Type ℓ} (serializer : T → Writer (Unit {0}))
    → ((x : T) → Grows (serializer x))
    → (xs : List T) (n : ℕ) → Grows (write_items serializer xs n)
unfolding write_items
write_items-Grows serializer h [] n = pure-Grows n
write_items-Grows serializer h (x ∷ xs) n =
    bind-Grows (serializer x) (λ _. write_items serializer xs (n + 1)) (h x)
      (λ _. write_items-Grows serializer h xs (n + 1))

module _ ⦃c : Crates⦄ where
  write_body-Grows : (f : Writer (Unit {0})) → Grows f → Grows (write_body f)
  unfolding write_body put len
  write_body-Grows f h buf = behind-Grows f _ buf (0 ∷ 0 ∷ 0 ∷ 0 ∷ []) h (λ a s.
      rw (len_from-append buf (0 ∷ 0 ∷ 0 ∷ 0 ∷ s) (length buf) refl)
        (fill-Grows 4 i32_max (length (0 ∷ 0 ∷ 0 ∷ 0 ∷ s)) buf (0 ∷ 0 ∷ 0 ∷ 0 ∷ []) s refl))

  write_counted-Grows {ℓ} :
      {T : Type ℓ} (xs : List T) (serializer : T → Writer (Unit {0}))
      → ((x : T) → Grows (serializer x))
      → Grows (write_counted xs serializer)
  unfolding write_counted put len
  write_counted-Grows xs serializer h buf =
      behind-Grows (write_items serializer xs 0) _ buf (0 ∷ 0 ∷ [])
        (write_items-Grows serializer h xs 0)
        (λ n s. fill-Grows 2 u16_max n buf (0 ∷ 0 ∷ []) s refl)

  put_be-Grows : (w n : ℕ) → Grows (put_be w n)
  put_be-Grows w n = put-Grows (c.to_be w n)

  tagged-Grows : (t : ℕ) (f : Writer (Unit {0})) → Grows f → Grows (put (t ∷ []) >> write_body f)
  tagged-Grows t f h =
      then-Grows (put (t ∷ [])) (write_body f) (put-Grows (t ∷ [])) (write_body-Grows f h)

  variant_name-Grows : (variant : ℕ) (name : Bytes) → Grows (put (variant ∷ []) >> write_cstr name)
  variant_name-Grows variant name =
      then-Grows (put (variant ∷ [])) (write_cstr name) (put-Grows (variant ∷ []))
        (write_cstr-Grows name)

  sized-Grows :
      (s : Bytes) → Grows (lift (from_usize i32_max (length s)) >>= λ n. put_be 4 n >> put s)
  sized-Grows s =
      bind-Grows (lift (from_usize i32_max (length s))) (λ n. put_be 4 n >> put s)
        (lift-Grows (from_usize i32_max (length s)) (from_usize-ne-panicked i32_max (length s)))
        (λ n. then-Grows (put_be 4 n) (put s) (put_be-Grows 4 n) (put-Grows s))

  -- Every call, whatever its arguments, leaves what the buffer held in front of what it appends, also
  -- when it fails in the middle of a message, and never panics.
  pub send-Grows : (r : Request) → Grows (send r)
  send-Grows copy_done = Writes-Grows (send copy_done) tt _ (send-Writes copy_done tt (omega arith))
  send-Grows flush = Writes-Grows (send flush) tt _ (send-Writes flush tt (omega arith))
  send-Grows sync = Writes-Grows (send sync) tt _ (send-Writes sync tt (omega arith))
  send-Grows terminate = Writes-Grows (send terminate) tt _ (send-Writes terminate tt (omega arith))
  send-Grows ssl_request =
      Writes-Grows (send ssl_request) tt _
        (send-Writes ssl_request tt (omega (arith, c.to_be_length 4 80877103)))
  send-Grows (cancel_request p k) = Writes-Grows (send (cancel_request p k)) tt _ (
      send-Writes (cancel_request p k) tt (
        omega (
          arith,
          length-append (c.to_be 4 80877102) (c.to_be 4 p ++ c.to_be 4 k),
          length-append (c.to_be 4 p) (c.to_be 4 k),
          c.to_be_length 4 80877102,
          c.to_be_length 4 p,
          c.to_be_length 4 k,
        )))
  send-Grows (close variant name) =
      unfold Frontend.close in
      tagged-Grows b'C' (put (variant ∷ []) >> write_cstr name) (variant_name-Grows variant name)
  send-Grows (describe variant name) =
      unfold Frontend.describe in
      tagged-Grows b'D' (put (variant ∷ []) >> write_cstr name) (variant_name-Grows variant name)
  send-Grows (copy_fail text) =
      unfold Frontend.copy_fail in tagged-Grows b'f' (write_cstr text) (write_cstr-Grows text)
  send-Grows (password_message text) =
      unfold Frontend.password_message in
      tagged-Grows b'p' (write_cstr text) (write_cstr-Grows text)
  send-Grows (query text) =
      unfold Frontend.query in tagged-Grows b'Q' (write_cstr text) (write_cstr-Grows text)
  send-Grows (sasl_response s) =
      unfold Frontend.sasl_response in tagged-Grows b'p' (put s) (put-Grows s)
  send-Grows (execute portal max_rows) =
      unfold Frontend.execute in
      tagged-Grows b'E' (write_cstr portal >> put_be 4 max_rows) (
        then-Grows (write_cstr portal) (put_be 4 max_rows) (write_cstr-Grows portal)
          (put_be-Grows 4 max_rows))
  send-Grows (parse name text types) =
      unfold Frontend.parse in
      tagged-Grows b'P' (write_cstr name >> (write_cstr text >> write_counted types (put_be 4))) (
        then-Grows (write_cstr name) (write_cstr text >> write_counted types (put_be 4))
          (write_cstr-Grows name)
          (then-Grows (write_cstr text) (write_counted types (put_be 4)) (write_cstr-Grows text)
            (write_counted-Grows types (put_be 4) (put_be-Grows 4))))
  send-Grows (sasl_initial_response mechanism s) =
      unfold Frontend.sasl_initial_response in
      tagged-Grows b'p'
        (write_cstr mechanism
          >> (lift (from_usize i32_max (length s)) >>= λ n. put_be 4 n >> put s))
        (then-Grows (write_cstr mechanism)
          (lift (from_usize i32_max (length s)) >>= λ n. put_be 4 n >> put s)
          (write_cstr-Grows mechanism) (sized-Grows s))
  send-Grows (startup_message ps) =
      unfold Frontend.startup_message in
      write_body-Grows (put_be 4 0x00030033 >> (write_parameters ps >> put (0 ∷ []))) (
        then-Grows (put_be 4 0x00030033) (write_parameters ps >> put (0 ∷ []))
          (put_be-Grows 4 0x00030033)
          (then-Grows (write_parameters ps) (put (0 ∷ [])) (write_parameters-Grows ps)
            (put-Grows (0 ∷ []))))
