-- ===== src/Types/Array/Safe.antt =====
-- About the slices in `Array::dimensions` and `Array::values` of opengauss-protocol/src/types/mod.rs.
use rust_opengauss.Prelude.{
  ℕ, zero, suc, ◌*◌, ◌≤◌, ◌≡◌, ◌≢◌, refl, false, arith, Bytes, length, take, drop, length-drop, ltb,
  le→ltb,
}
use rust_opengauss.Outcome.{Outcome, ok, err, panicked}
use rust_opengauss.Crates.{Crates}
use rust_opengauss.Read.{read_be, read_exact}
use rust_opengauss.Types.Array.{
  Array, dimensions_of, values_of, count_more, count_elements, array_rest, array_from_sql,
}

module _ ⦃c : Crates⦄ where
  -- A count of the elements has read every dimension.
  count_elements-length : (k n m : ℕ) (r : Bytes) → count_elements k n r ≡ ok m → k * 8 ≤ length r
  unfolding count_elements count_more read_be read_exact
  count_elements-length zero n m r e = omega arith
  count_elements-length (suc k) n m r e = ground (
    arith,
    length-drop 4 r,
    length-drop 4 (drop 4 r),
    count_elements-length k (n * c.from_be (take 4 r)) m (drop 4 (drop 4 r)),
  )

  array_rest-length :
      (k : ℕ) (s : Bytes) (a : Array)
      → array_rest k s ≡ ok a
      → (a.dimensions ≡ k) × (k * 8 ≤ length a.buf)
  unfolding array_rest read_be read_exact
  array_rest-length k s a e = by_count (count_elements k 1 (drop 4 (drop 4 s))) refl
    where
      by_count :
          (r : Outcome ℕ)
          → count_elements k 1 (drop 4 (drop 4 s)) ≡ r
          → (a.dimensions ≡ k) × (k * 8 ≤ length a.buf)
      by_count (ok m) h = ground (arith, h, count_elements-length k 1 m (drop 4 (drop 4 s)) h)
      by_count (err x) h = ground (arith, h)
      by_count panicked h = ground (arith, h)

  -- Whatever bytes are read as an array, its dimensions and its values can be sliced out of them.
  pub array_slices-ne-panicked :
      (s : Bytes) (a : Array)
      → array_from_sql s ≡ ok a
      → (dimensions_of a ≢ panicked) × (values_of a ≢ panicked)
  unfolding array_from_sql dimensions_of values_of read_be read_exact
  array_slices-ne-panicked s a e =
      let (d, l) = array_rest-length (c.from_be (take 4 s)) (drop 4 s) a (ground (arith, e)) in
      let room : ltb (length a.buf) (a.dimensions * 8) ≡ false = rw d (le→ltb _ _ l) in
      ((λ h. ground (arith, room, h)), (λ h. ground (arith, room, h)))
