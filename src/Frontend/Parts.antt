-- ===== src/Frontend/Parts.antt =====
-- About the helpers of opengauss-protocol/src/message/frontend.rs.
use rust_opengauss.Prelude.{
  ℕ, suc, ◌+◌, ◌^◌, ◌<◌, ◌≡◌, refl, sym, ap, ap₂, ◌∙◌, false, Option, none, some, List, [], ◌∷◌,
  ◌++◌, arith, Bytes, Lacks, All, length, append_assoc, append-nil,
}
use rust_opengauss.Outcome.{ok}
use rust_opengauss.Crates.{Crates}
use rust_opengauss.Write.{
  Writer, ◌>>◌, put, len, patch, IsNull, null, not_null, i32_max, u16_max, write_nullable,
}
use rust_opengauss.Write.Laws.{
  Writes, put-Writes, bind-Writes, from_usize_ok, patch-append, len_from-append,
  write_nullable-Writes, write_nullable-Writes_null,
}
use rust_opengauss.Backend.Iter.Row.{column}
use rust_opengauss.Frontend.{contains_nul, write_cstr, write_items, write_body, write_counted}

pub contains_nul-Lacks : (s : Bytes) → Lacks 0 s → contains_nul s ≡ false
unfolding contains_nul
contains_nul-Lacks [] h = refl
contains_nul-Lacks (b ∷ s) h = ground (arith, contains_nul-Lacks s h.1)

pub write_cstr-Writes : (s : Bytes) → Lacks 0 s → Writes (write_cstr s) tt (s ++ (0 ∷ []))
unfolding write_cstr
write_cstr-Writes s h =
    rw (contains_nul-Lacks s h) (
      bind-Writes (put s) (λ _. put (0 ∷ [])) tt tt s (0 ∷ []) (put-Writes s) (put-Writes (0 ∷ [])))

module _ {ℓ κ} {A : Type ℓ} {B : Type κ} where
  pub then-Writes :
      (m : Writer A) (k : Writer B) (a : A) (b : B) (s t : Bytes)
      → Writes m a s
      → Writes k b t
      → Writes (m >> k) b (s ++ t)
  then-Writes m k a b s t hm hk = bind-Writes m (λ _. k) a b s t hm hk

-- The encodings of the items, one after the other.
abbrev pub encode_items {ℓ} : {T : Type ℓ} → (T → Bytes) → List T → Bytes
encode_items encode [] = []
encode_items encode (x ∷ xs) = encode x ++ encode_items encode xs

module _ {ℓ} {T : Type ℓ} (serializer : T → Writer (Unit {0})) (encode : T → Bytes) (P : T → Type 0)
    (item-Writes : (x : T) → P x → Writes (serializer x) tt (encode x)) where
  write_items-Writes :
      (xs : List T) (n : ℕ)
      → All P xs
      → Writes (write_items serializer xs n) (n + length xs) (encode_items encode xs)
  unfolding write_items
  write_items-Writes [] n h buf = ap₂ (λ (k : ℕ) s. (ok k, s)) (omega arith) (sym (append-nil buf))
  write_items-Writes (x ∷ xs) n h buf =
      bind-Writes (serializer x) (λ _. write_items serializer xs (n + 1)) tt (n + 1 + length xs)
        (encode x) (encode_items encode xs) (item-Writes x h.0) (write_items-Writes xs (n + 1) h.1)
        buf
      ∙ ap (λ (k : ℕ). (ok k, buf ++ encode_items encode (x ∷ xs))) (omega arith)

  module _ ⦃c : Crates⦄ where
    -- At most 2 ^ 16 - 1 items are written behind their number.
    pub write_counted-Writes :
        (xs : List T)
        → All P xs
        → length xs < 2 ^ 16
        → Writes (write_counted xs serializer) tt (c.to_be 2 (length xs) ++ encode_items encode xs)
    unfolding write_counted put len
    write_counted-Writes xs h small buf =
        rw
          (
            write_items-Writes xs 0 h (buf ++ (0 ∷ 0 ∷ [])),
            from_usize_ok u16_max (0 + length xs) (omega arith),
            append_assoc buf (0 ∷ 0 ∷ []) (encode_items encode xs),
          )
          (ap
              (λ (k : ℕ).
                patch (length buf) (c.to_be 2 k) (buf ++ (0 ∷ 0 ∷ encode_items encode xs)))
              (omega arith)
            ∙ patch-append buf (0 ∷ 0 ∷ []) (c.to_be 2 (length xs)) (encode_items encode xs)
                (sym (c.to_be_length 2 (length xs))))

module _ ⦃c : Crates⦄ where
  -- A body that fits an `i32` with its length is written behind that length.
  pub write_body-Writes :
      (f : Writer (Unit {0})) (s : Bytes)
      → Writes f tt s
      → 4 + length s < 2 ^ 31
      → Writes (write_body f) tt (c.to_be 4 (4 + length s) ++ s)
  unfolding write_body put len
  write_body-Writes f s h small buf =
      rw
        (
          h (buf ++ (0 ∷ 0 ∷ 0 ∷ 0 ∷ [])),
          append_assoc buf (0 ∷ 0 ∷ 0 ∷ 0 ∷ []) s,
          len_from-append buf (0 ∷ 0 ∷ 0 ∷ 0 ∷ s) (length buf) refl,
          from_usize_ok i32_max (suc (suc (suc (suc (length s))))) (omega arith),
        )
        (ap (λ (k : ℕ). patch (length buf) (c.to_be 4 k) (buf ++ (0 ∷ 0 ∷ 0 ∷ 0 ∷ s))) (omega arith)
          ∙ patch-append buf (0 ∷ 0 ∷ 0 ∷ 0 ∷ []) (c.to_be 4 (4 + length s)) s
              (sym (c.to_be_length 4 (4 + length s))))

  -- The serializer writes the value of a parameter, or answers that it is null.
  abbrev pub Serializes {ℓ} : {T : Type ℓ} → (T → Writer IsNull) → T → Option Bytes → Type 0
  Serializes serializer x none = Writes (serializer x) null []
  Serializes serializer x (some v) = Writes (serializer x) not_null v × (length v < 2 ^ 31)

  pub value-Writes {ℓ} :
      {T : Type ℓ} (serializer : T → Writer IsNull) (x : T) (v : Option Bytes)
      → Serializes serializer x v
      → Writes (write_nullable (serializer x)) tt (column v)
  value-Writes serializer x none h = write_nullable-Writes_null (serializer x) h
  value-Writes serializer x (some v) h = write_nullable-Writes (serializer x) v h.0 h.1
