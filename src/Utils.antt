-- ===== src/Utils.antt =====
-- src/github.com/t3chguy/matrix-static/utils/utils.go, and Go's slice expression, which the
-- callers of `CalcPaginationStartEnd` apply to its results.
pub mod Bounds
pub mod Pages
pub mod Faults
pub mod Decimal
pub mod Itoa
use matrix_static.Prelude.{
  ℕ, suc, ◌+◌, ◌-◌, ◌*◌, ◌^◌, Bool, true, false, ◌&&◌, ◌||◌, Option, none, some, List, [], ◌∷◌, ltb,
  leb, ◌==◌, if◌then◌else◌, length, take, drop, ℤ, pos, negsuc, pos_part, neg_part, ltb_ℤ, eqb_ℤ,
  add64, sub64, mul64, Text, neg64,
}

unfoldable pub min_int : ℤ → ℤ → ℤ
min_int a b = if ltb_ℤ a b then a else b

unfoldable pub max_int : ℤ → ℤ → ℤ
max_int a b = if ltb_ℤ b a then a else b

-- `Bound(min, val, max)`
unfoldable pub bound : ℤ → ℤ → ℤ → ℤ
bound lo val hi = if ltb_ℤ hi val then hi else if ltb_ℤ val lo then lo else val

-- The offsets `(start, end)` of a page.
unfoldable pub calc_pagination_start_end : ℤ → ℤ → ℤ → ℤ × ℤ
unfolding min_int
calc_pagination_start_end page page_size len =
    if eqb_ℤ page (pos 0)
    then (pos 0, sub64 len (pos 1))
    else (let start = min_int (mul64 (sub64 page (pos 1)) page_size) len in
        (start, min_int (add64 start page_size) len))

-- Whether `xs[lo:hi]` panics on a slice of the given length. Go compares `hi` with the capacity; no
-- caller passes a `hi` above the length.
unfoldable pub out_of_range : ℤ → ℤ → ℤ → Bool
out_of_range lo hi len = ltb_ℤ lo (pos 0) || ltb_ℤ hi lo || ltb_ℤ len hi

-- `xs[lo:hi]`; `none` is a run-time panic.
unfoldable pub go_slice {ℓ} : {A : Type ℓ} → List A → ℤ → ℤ → Option (List A)
go_slice xs lo hi =
    if out_of_range lo hi (pos (length xs))
    then none
    else some (take (pos_part hi - pos_part lo) (drop (pos_part lo) xs))

-- The page of a slice, as the public room list and three of the jobs cut it.
unfoldable pub page_of {ℓ} : {A : Type ℓ} → List A → ℤ → ℤ → Option (List A)
unfolding calc_pagination_start_end go_slice
page_of xs page page_size =
    let (start, end) = calc_pagination_start_end page page_size (pos (length xs)) in
    go_slice xs start end

-- `strconv.Atoi`: an optional sign and decimal digits that denote an `int`.
is_digit : ℕ → Bool
is_digit c = leb b'0' c && leb c b'9'

unfoldable pub digits_value : ℕ → Text → Option ℕ
unfolding is_digit
digits_value acc [] = some acc
digits_value acc (c ∷ s) = if is_digit c then digits_value (acc * 10 + (c - b'0')) s else none

in_range : Bool → Option ℕ → Option ℤ
in_range negative none = none
in_range false (some n) = if ltb n (2 ^ 63) then some (pos n) else none
in_range true (some n) = if leb n (2 ^ 63) then some (neg_of n) else none
  where
    neg_of : ℕ → ℤ
    neg_of = elim [ ℕ.zero ↦ pos 0 | suc k ↦ negsuc k ]

unsigned : Bool → Text → Option ℤ
unfolding in_range digits_value
unsigned negative [] = none
unsigned negative (c ∷ s) = in_range negative (digits_value 0 (c ∷ s))

unfoldable pub atoi : Text → Option ℤ
unfolding unsigned
atoi [] = none
atoi (c ∷ s) =
    if c == b'-'
    then unsigned true s
    else if c == b'+'
    then unsigned false s
    else unsigned false (c ∷ s)

unfoldable pub str_to_int_default : Text → ℤ → ℤ
unfolding atoi
str_to_int_default str def = elim (atoi str) [ none ↦ def | some page ↦ page ]
