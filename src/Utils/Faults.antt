-- ===== src/Utils/Faults.antt =====
-- The pages that utils.go does not cut well: page 0 and pages below 0.
use matrix_static.Prelude.{
  ℕ, suc, ◌+◌, ◌-◌, ◌*◌, ◌^◌, ◌≤◌, ◌<◌, ◌≡◌, refl, ap, ◌∙◌, ◌≢◌, true, Option, none, some, List, [],
  ◌∷◌, arith, length, take, length-take, ℤ, pos, negsuc, sub64, mul64,
}
use matrix_static.Utils.{page_of, out_of_range, calc_pagination_start_end, min_int}
use matrix_static.Utils.Bounds.{sub64-pos}
use matrix_static.Utils.Pages.{go_slice-pos}

mul64-negsuc :
    (a b : ℕ) → suc a * suc b ≤ 2 ^ 63 → mul64 (negsuc a) (pos (suc b)) ≡ negsuc (suc a * suc b - 1)
unfolding mul64
mul64-negsuc a b h = ground arith

sub64-negsuc : (k : ℕ) → k + 2 ≤ 2 ^ 63 → sub64 (negsuc k) (pos 1) ≡ negsuc (suc k)
unfolding sub64
sub64-negsuc k h = ground arith

negative_out_of_range : (n : ℕ) (hi len : ℤ) → out_of_range (negsuc n) hi len ≡ true
unfolding out_of_range
negative_out_of_range n hi len = ground arith

min_int-negsuc : (n len : ℕ) → min_int (negsuc n) (pos len) ≡ negsuc n
unfolding min_int
min_int-negsuc n len = ground arith

negative_start :
    (k size len : ℕ)
    → (k + 2) * suc size ≤ 2 ^ 63
    → (calc_pagination_start_end (negsuc k) (pos (suc size)) (pos len)).0
      ≡ negsuc (suc (suc k) * suc size - 1)
unfolding calc_pagination_start_end
negative_start k size len fits =
    let e : suc (suc k) * suc size ≡ (k + 2) * suc size = omega arith in
    let f : k + 2 ≤ 2 ^ 63 = grind arith in
    ground (
      arith,
      sub64-negsuc k f,
      mul64-negsuc (suc k) size (omega arith),
      min_int-negsuc (suc (suc k) * suc size - 1) len,
    )

module _ {ℓ} {A : Type ℓ} where
  -- All elements but the last; a panic if there is none.
  pub but_last : List A → Option (List A)
  but_last [] = none
  but_last (x ∷ xs) = some (take (length xs) (x ∷ xs))

  -- Page 0 is the slice without its last element, and a panic for the empty slice.
  pub page_of-zero :
      (xs : List A) (size : ℕ) → length xs < 2 ^ 63 → page_of xs (pos 0) (pos size) ≡ but_last xs
  unfolding page_of out_of_range sub64 but_last
  page_of-zero [] size h = refl
  page_of-zero (x ∷ xs) size h = rw (sub64-pos (suc (length xs)) 1 (omega arith) h) (
      go_slice-pos (x ∷ xs) 0 (suc (length xs) - 1) (omega arith) (omega arith)
      ∙ ap (λ n. some (take n (x ∷ xs))) (omega arith))

  -- Page 0 of a slice is never the whole slice, if the length of the slice is an `int`.
  pub page_of-zero-ne-all :
      (xs : List A) (size : ℕ) → length xs < 2 ^ 63 → page_of xs (pos 0) (pos size) ≢ some xs
  unfolding but_last
  page_of-zero-ne-all [] size h e = cc (page_of-zero [] size h)
  page_of-zero-ne-all (x ∷ xs) size h e =
      let t : take (length xs) (x ∷ xs) ≡ x ∷ xs = cc (page_of-zero (x ∷ xs) size h) in
      absurd (omega (arith, length-take (length xs) (x ∷ xs), ap length t))

  -- A page below 0 panics, whatever the slice holds, if its offset fits in 64 bits.
  pub page_of-negative :
      (xs : List A) (k size : ℕ)
      → (k + 2) * suc size ≤ 2 ^ 63
      → page_of xs (negsuc k) (pos (suc size)) ≡ none
  unfolding page_of
  page_of-negative xs k size fits =
      rw (negative_start k size (length xs) fits, negative_out_of_range)
