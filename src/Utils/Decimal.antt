-- ===== src/Utils/Decimal.antt =====
-- `StrToIntDefault` of utils.go, which reads the page and the offset of a request.
use matrix_static.Prelude.{
  ℕ, ◌≡◌, refl, inl, inr, Bool, Bool-cases, true, false, none, [], ◌∷◌, ◌++◌, ◌==◌, ◌&&◌, ◌*◌, ◌+◌,
  ◌-◌, leb, ℤ, Text,
}
use matrix_static.Utils.{is_digit, in_range, unsigned, digits_value, atoi, str_to_int_default}

module _ (c : ℕ) (t : Text) (foreign : (leb b'0' c && leb c b'9') ≡ false) where
  digits_value-foreign : (acc : ℕ) (s : Text) → digits_value acc (s ++ c ∷ t) ≡ none
  unfolding digits_value is_digit
  digits_value-foreign acc [] = rw foreign refl
  digits_value-foreign acc (d ∷ s) =
      let rest = digits_value-foreign (acc * 10 + (d - b'0')) s in
      elim (Bool-cases (leb b'0' d && leb d b'9')) [
        | inl digit ↦ rw digit rest
        | inr other ↦ rw other refl
      ]

  unsigned-foreign : (negative : Bool) (s : Text) → unsigned negative (s ++ c ∷ t) ≡ none
  unfolding unsigned in_range
  unsigned-foreign negative [] = rw (digits_value-foreign 0 []) refl
  unsigned-foreign negative (d ∷ s) = rw (digits_value-foreign 0 (d ∷ s)) refl

  atoi-foreign : (s : Text) → (c == b'-') ≡ false → (c == b'+') ≡ false → atoi (s ++ c ∷ t) ≡ none
  unfolding atoi
  atoi-foreign [] minus plus = rw (minus, plus) (unsigned-foreign false [])
  atoi-foreign (d ∷ s) minus plus = elim (Bool-cases (d == b'-')) [
    | inl e ↦ rw e (unsigned-foreign true s)
    | inr no_minus ↦ elim (Bool-cases (d == b'+')) [
      | inl e ↦ rw (no_minus, e) (unsigned-foreign false s)
      | inr no_plus ↦ rw (no_minus, no_plus) (unsigned-foreign false (d ∷ s))
    ]
  ]

-- A text that has, at any place, a byte that is neither a digit nor a sign is read as the default,
-- whatever stands before and behind it.
pub str_to_int_default-foreign :
    (c : ℕ) (s t : Text) (def : ℤ)
    → (leb b'0' c && leb c b'9') ≡ false
    → (c == b'-') ≡ false
    → (c == b'+') ≡ false
    → str_to_int_default (s ++ c ∷ t) def ≡ def
unfolding str_to_int_default
str_to_int_default-foreign c s t def foreign minus plus =
    rw (atoi-foreign c t foreign s minus plus, str_to_int_default) refl
