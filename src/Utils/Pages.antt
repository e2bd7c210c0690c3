-- ===== src/Utils/Pages.antt =====
-- The pages that utils.go cuts out of a slice, against `take` and `drop`.
use Prim.Native.Nat.{min}
use matrix_static.Prelude.{
  ℕ, zero, suc, ◌+◌, ◌-◌, ◌*◌, ◌^◌, ◌≤◌, ◌<◌, ◌≡◌, refl, sym, ap, ◌∙◌, false, Option, some, List,
  [], ◌∷◌, ◌++◌, arith, ◌>>=◌, length, take, drop, length-drop, take-take_add, pos,
}
use matrix_static.Utils.{page_of, out_of_range, go_slice}
use matrix_static.Utils.Bounds.{calc_pagination_start_end-pos}

in_range_ok :
    (lo hi len : ℕ) → lo ≤ hi → hi ≤ len → out_of_range (pos lo) (pos hi) (pos len) ≡ false
unfolding out_of_range
in_range_ok lo hi len h k = ground arith

module _ {ℓ} {A : Type ℓ} where
  -- Cutting at the length changes nothing.
  take-min-length : (n : ℕ) (xs : List A) → take (min n (length xs)) xs ≡ take n xs
  take-min-length zero xs = let e : min zero (length xs) ≡ 0 = omega arith in rw e refl
  take-min-length (suc n) [] = let e : min (suc n) 0 ≡ 0 = omega arith in rw e refl
  take-min-length (suc n) (x ∷ xs) =
      let e : min (suc n) (suc (length xs)) ≡ suc (min n (length xs)) = omega arith in
      rw e (ap (◌∷◌ x) (take-min-length n xs))

  drop-min-length : (n : ℕ) (xs : List A) → drop (min n (length xs)) xs ≡ drop n xs
  drop-min-length zero xs = let e : min zero (length xs) ≡ 0 = omega arith in rw e refl
  drop-min-length (suc n) [] = let e : min (suc n) 0 ≡ 0 = omega arith in rw e refl
  drop-min-length (suc n) (x ∷ xs) =
      let e : min (suc n) (suc (length xs)) ≡ suc (min n (length xs)) = omega arith in
      rw e (drop-min-length n xs)

  pub take_of_length-le : (n : ℕ) (xs : List A) → length xs ≤ n → take n xs ≡ xs
  take_of_length-le zero [] few = refl
  take_of_length-le (suc k) [] few = refl
  take_of_length-le zero (e ∷ es) few = absurd (omega arith)
  take_of_length-le (suc k) (e ∷ es) few =
      let rest : take k es ≡ es = take_of_length-le k es (omega arith) in rw rest refl

  -- A slice expression with bounds in order does not panic.
  pub go_slice-pos :
      (xs : List A) (lo hi : ℕ)
      → lo ≤ hi
      → hi ≤ length xs
      → go_slice xs (pos lo) (pos hi) ≡ some (take (hi - lo) (drop lo xs))
  unfolding go_slice
  go_slice-pos xs lo hi h k = rw (in_range_ok lo hi (length xs) h k)

  -- A slice expression whose bounds are cut at the length, as the program computes them.
  pub go_slice-clipped :
      (xs : List A) (from size : ℕ)
      → go_slice xs
          (pos (min from (length xs)))
          (pos (min (min from (length xs) + size) (length xs)))
        ≡ some (take size (drop from xs))
  go_slice-clipped xs from size =
      let l = length xs in
      let lo = min from l in
      let hi = min (lo + size) l in
      let width : hi - lo ≡ min size (length (drop from xs)) = omega (arith, length-drop from xs) in
      go_slice-pos xs lo hi (omega arith) (omega arith)
      ∙ ap some (rw (drop-min-length from xs, width) (take-min-length size (drop from xs)))

  -- Page `k + 1` holds the `size` elements from number `k * size` on, as far as there are any; the
  -- cut never panics. It is the case of page 1 and above, where no product leaves 64 bits.
  pub page_of-eq-take-drop :
      (xs : List A) (k size : ℕ)
      → k < 2 ^ 62
      → k * size < 2 ^ 63
      → length xs + size < 2 ^ 63
      → page_of xs (pos (suc k)) (pos size) ≡ some (take size (drop (k * size) xs))
  unfolding page_of
  page_of-eq-take-drop xs k size small fits room =
      rw (calc_pagination_start_end-pos k size (length xs) fits room small)
        (go_slice-clipped xs (k * size) size)

  -- The first `k` pages, one behind the other.
  unfoldable pub first_pages : List A → ℕ → ℕ → Option (List A)
  first_pages xs size zero = some []
  first_pages xs size (suc k) = do
    front ← first_pages xs size k
    page ← page_of xs (pos (suc k)) (pos size)
    some (front ++ page)

  -- The pages tile the slice: the first `k` of them, one behind the other, are its first
  -- `k * size` elements, with no element skipped or repeated.
  pub first_pages-eq-take :
      (xs : List A) (size k : ℕ)
      → k < 2 ^ 62
      → k * size < 2 ^ 63
      → length xs + size < 2 ^ 63
      → first_pages xs size k ≡ some (take (k * size) xs)
  unfolding first_pages
  first_pages-eq-take xs size zero small fits room = let e : 0 * size ≡ 0 = omega arith in rw e refl
  first_pages-eq-take xs size (suc k) small fits room =
      let e : suc k * size ≡ k * size + size = omega arith in
      rw
        (
          first_pages-eq-take xs size k (omega arith) (omega arith) room,
          page_of-eq-take-drop xs k size (omega arith) (omega arith) room,
          e,
        )
        (ap some (sym (take-take_add (k * size) size xs)))

  -- Enough pages are the whole slice.
  pub first_pages_all :
      (xs : List A) (size k : ℕ)
      → k < 2 ^ 62
      → k * size < 2 ^ 63
      → length xs + size < 2 ^ 63
      → length xs ≤ k * size
      → first_pages xs size k ≡ some xs
  first_pages_all xs size k small fits room enough =
      first_pages-eq-take xs size k small fits room ∙ ap some (take_of_length-le _ xs enough)
