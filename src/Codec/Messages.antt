-- ===== src/Codec/Messages.antt =====
-- About `BackendMessages::next` and the asynchronous messages of tokio-opengauss/src/codec.rs.
use rust_opengauss.Prelude.{
  ℕ, suc, ◌+◌, ◌^◌, ◌<◌, ◌≡◌, refl, ap, ◌∙◌, true, false, none, some, List, [], ◌∷◌, ◌++◌, arith,
  Bytes, All, length, ltb, length-append, le→ltb,
}
use rust_opengauss.Outcome.{ok, ◌>>=◌}
use rust_opengauss.Crates.{Crates}
use rust_opengauss.Backend.Message.{AuthMode, Message}
use rust_opengauss.Backend.Parse.{parse_with_mode}
use rust_opengauss.Backend.Wire.{frame, encode, render, Fits}
use rust_opengauss.Backend.Frame.{parse_with_mode-render, length-frame}
use rust_opengauss.Codec.{
  BackendMessages, async, at_async, next, is_async, round, scan, finish, decode,
}
use rust_opengauss.Codec.InRange.{scan_lem, round_lem}
use rust_opengauss.Codec.Batch.{parse_header-frame}

module _ ⦃c : Crates⦄ where
  abbrev pub renders : List Message → Bytes
  renders [] = []
  renders (m ∷ ms) = render m ++ renders ms

  -- A message of the dialect that fits the length field.
  abbrev pub IsSendable : AuthMode → Message → Type 0
  IsSendable mode m = Fits mode m × (4 + length (encode m).1 < 2 ^ 31)

  -- The iterator gives these messages, in this order, and then its end.
  abbrev pub Yields : BackendMessages → List Message → Type 0
  Yields b [] = (next b).0 ≡ ok none
  Yields b (m ∷ ms) = ((next b).0 ≡ ok (some m)) × Yields (next b).1 ms

  next-render :
      (mode : AuthMode) (m : Message) (rest : Bytes)
      → IsSendable mode m
      → next (record { buf = render m ++ rest; mode = mode })
        ≡ (ok (some m), record { buf = rest; mode = mode })
  unfolding next
  next-render mode m rest (h, small) =
      ap (λ p. (p.0, record { buf = p.1; mode = mode }))
        (parse_with_mode-render mode m rest h (omega arith))

  -- A batch of rendered messages is iterated back to them.
  pub Yields-renders :
      (mode : AuthMode) (ms : List Message)
      → All (IsSendable mode) ms
      → Yields (record { buf = renders ms; mode = mode }) ms
  Yields-renders mode [] h = unfold next parse_with_mode in refl
  Yields-renders mode (m ∷ ms) (h, hs) =
      let step = next-render mode m (renders ms) h in
      (ap (λ p. p.0) step, rw (ap (λ p. p.1) step) (Yields-renders mode ms hs))

  scan_async :
      (fuel tag : ℕ) (body rest : Bytes)
      → is_async tag ≡ true
      → 4 + length body < 2 ^ 31
      → scan (suc fuel) (frame tag body ++ rest) 0 ≡ ok at_async
  scan_async fuel tag body rest a small =
      scan_lem fuel (frame tag body ++ rest) 0 (omega arith)
      ∙ ap
          (λ h. h >>= λ header.
            round (scan fuel (frame tag body ++ rest)) (frame tag body ++ rest) 0 header)
          (parse_header-frame tag body rest small)
      ∙ round_lem (scan fuel (frame tag body ++ rest)) (frame tag body ++ rest) 0 _ (omega arith)
      ∙ rw (whole, a)
    where
      whole : ltb (length (frame tag body ++ rest)) (4 + length body + 1) ≡ false
      whole = le→ltb _ _ (omega (arith, length-append (frame tag body) rest, length-frame tag body))

  -- A notice, a notification or a parameter change at the front is handed out by itself.
  pub decode-async :
      (mode : AuthMode) (m : Message) (rest : Bytes)
      → IsSendable mode m
      → is_async (encode m).0 ≡ true
      → decode mode (render m ++ rest) ≡ (ok (some (async m)), rest)
  unfolding decode finish
  decode-async mode m rest (h, small) a =
      ap (finish mode (render m ++ rest)) (scan_async _ (encode m).0 (encode m).1 rest a small)
      ∙ rw (parse_with_mode-render mode m rest h (omega arith))
