-- ===== src/Utils/Itoa.antt =====
-- Printing an int in decimal, as the page links and the media addresses do, and reading it again.
use matrix_static.Prelude.{
  ℕ, zero, suc, ◌+◌, ◌-◌, ◌*◌, ◌/◌, ◌%◌, ◌^◌, ◌<◌, ◌≡◌, refl, ap, ◌∙◌, subst, inl, inr, true, false,
  some, [], ◌∷◌, ◌++◌, arith, ltb, ◌==◌, if◌then◌else◌, ==_iff, Bool-cases, ℤ, pos, negsuc, Text,
}
use matrix_static.Utils.{is_digit, digits_value, in_range, unsigned, atoi, str_to_int_default}

digit : ℕ → ℕ
digit n = b'0' + n % 10

-- The decimal digits, on fuel.
digits : ℕ → ℕ → Text
unfolding digit
digits zero n = []
digits (suc fuel) n =
    let rest = digits fuel (n / 10) in if n / 10 == 0 then digit n ∷ [] else rest ++ digit n ∷ []

-- `strconv.Itoa` of an `int`; a number has no more digits than it counts, and 0 has one.
unfoldable pub itoa : ℤ → Text
unfolding digits
itoa (pos n) = digits (suc n) n
itoa (negsuc n) = b'-' ∷ digits (suc (suc n)) (suc n)

is_digit-digit : (n : ℕ) → is_digit (digit n) ≡ true
unfolding is_digit digit
is_digit-digit n = ground arith

digit-value : (n : ℕ) → digit n - b'0' ≡ n % 10
unfolding digit
digit-value n = omega arith

digits_value-snoc :
    (acc : ℕ) (s : Text) (d v : ℕ)
    → digits_value acc s ≡ some v
    → digits_value acc (s ++ digit d ∷ []) ≡ some (v * 10 + d % 10)
unfolding digits_value
digits_value-snoc acc [] d v h =
    let same : acc ≡ v = cc in rw (is_digit-digit d, digit-value d, same) refl
digits_value-snoc acc (c ∷ s) d v h = elim (Bool-cases (is_digit c)) [
  | inl e ↦ rw e (digits_value-snoc (acc * 10 + (c - b'0')) s d v (rw (e, digits_value) at h))
  | inr e ↦ absurd (cc (rw (e, digits_value) at h))
]

shrinks : (fuel n : ℕ) → n < suc fuel → (n / 10 == 0) ≡ false → n / 10 < fuel
shrinks fuel n h e = ground arith

digits_value-digits : (fuel n : ℕ) → n < fuel → digits_value 0 (digits fuel n) ≡ some n
unfolding digits_value digits
digits_value-digits zero n h = absurd (omega arith)
digits_value-digits (suc fuel) n h = elim (Bool-cases (n / 10 == 0)) [
  | inl e ↦
      let small : n / 10 ≡ 0 = (==_iff (n / 10) 0).0 e in
      rw (e, is_digit-digit n, digit-value n) (ap some (omega arith))
  | inr e ↦ rw e (
      digits_value-snoc 0 (digits fuel (n / 10)) n (n / 10)
        (digits_value-digits fuel (n / 10) (shrinks fuel n h e))
      ∙ ap some (omega arith))
]

digits-cons :
    (fuel n : ℕ) → n < fuel → (c : ℕ) × (s : Text) × (digits fuel n ≡ c ∷ s) × (is_digit c ≡ true)
unfolding digits
digits-cons zero n h = absurd (omega arith)
digits-cons (suc fuel) n h = elim (Bool-cases (n / 10 == 0)) [
  | inl e ↦
      let whole : digits (suc fuel) n ≡ digit n ∷ [] = rw e refl in
      (digit n, [], whole, is_digit-digit n)
  | inr e ↦
      let (c, s, front, d) = digits-cons fuel (n / 10) (shrinks fuel n h e) in
      let whole : digits (suc fuel) n ≡ c ∷ (s ++ digit n ∷ []) =
        rw e (ap (λ t. t ++ digit n ∷ []) front) in
      (c, s ++ digit n ∷ [], whole, d)
]

digit_first : (c : ℕ) → is_digit c ≡ true → ((c == b'-') ≡ false) × ((c == b'+') ≡ false)
unfolding is_digit
digit_first c d = (ground arith, ground arith)

str_to_int_default-digits :
    (c : ℕ) (s : Text) (v : ℕ) (def : ℤ)
    → is_digit c ≡ true
    → digits_value 0 (c ∷ s) ≡ some v
    → v < 2 ^ 63
    → str_to_int_default (c ∷ s) def ≡ pos v
unfolding str_to_int_default atoi unsigned in_range
str_to_int_default-digits c s v def d value h =
    let (minus, plus) = digit_first c d in
    let small : ltb v (2 ^ 63) ≡ true = ground arith in
    let number : atoi (c ∷ s) ≡ some (pos v) = rw (minus, plus, value, small) refl in
    rw (number, str_to_int_default) refl

-- A number below 2 ^ 63 that is printed in decimal is read as that number, whatever the default.
pub str_to_int_default-itoa :
    (n : ℕ) (def : ℤ) → n < 2 ^ 63 → str_to_int_default (itoa (pos n)) def ≡ pos n
unfolding itoa
str_to_int_default-itoa n def h =
    let (c, s, front, d) = digits-cons (suc n) n (omega arith) in
    let value : digits_value 0 (c ∷ s) ≡ some n =
      subst (λ t. digits_value 0 t ≡ some n) front (digits_value-digits (suc n) n (omega arith)) in
    rw front (str_to_int_default-digits c s n def d value h)
