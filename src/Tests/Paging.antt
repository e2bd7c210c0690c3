-- ===== src/Tests/Paging.antt =====
-- Pages of short slices.
use matrix_static.Prelude.{
  ℕ, ◌≡◌, ◌≢◌, none, some, List, [], ◌∷◌, arith, pos, negsuc, codes, ◌++◌, refl,
}
use matrix_static.Utils.{page_of, str_to_int_default}
use matrix_static.Utils.Decimal.{str_to_int_default-foreign}
use matrix_static.Utils.Faults.{page_of-zero-ne-all, page_of-negative}

abbrev numbers : List ℕ
numbers = 1 ∷ 2 ∷ 3 ∷ []

page_of-zero-ne-all_example : page_of numbers (pos 0) (pos 2) ≢ some numbers
page_of-zero-ne-all_example = page_of-zero-ne-all numbers 2 (omega arith)

page_of-negative_example : page_of numbers (negsuc 0) (pos 20) ≡ none
page_of-negative_example = page_of-negative numbers 0 19 (omega arith)

-- "4x2"
str_to_int_default-foreign_example :
    str_to_int_default (codes "4" ++ 120 ∷ codes "2") (pos 1) ≡ pos 1
str_to_int_default-foreign_example =
    str_to_int_default-foreign 120 (codes "4") (codes "2") (pos 1) refl refl refl
