-- ===== src/Sort.antt =====
-- What the program uses of Go's package sort: `sort.Sort` over a `Less`, and `sort.Strings`. The
-- algorithm is Go's; what is documented of it is that it reorders the slice and leaves it ascending.
pub mod Unique
pub mod Insertion
use mathlib.Core.List.{Perm, Pairwise}
use matrix_static.Prelude.{
  ℕ, zero, suc, ◌+◌, ◌-◌, ◌*◌, ◌/◌, ◌%◌, ◌^◌, ◌≤◌, ◌<◌, ◌≡◌, refl, sym, ap, ap₂, ◌∙◌, subst, ◌≢◌,
  ◌↔◌, ◌⊎◌, inl, inr, Bool, true, false, not, ◌&&◌, ◌||◌, Option, none, some, List, [], ◌∷◌, ◌++◌,
  map, reverse, arith, ltb, leb, ◌==◌, if◌then◌else◌, ==_iff, Bool-cases, Option-cases, ◌>>=◌,
  length, get_elem?, take, drop, last?, keep, All, length-append, length-take, length-drop,
  length-keep-le, take-append-drop, drop-drop, take-take_add, drop-append, keep-append, All-append,
  ℤ, pos, negsuc, pos_part, neg_part, sub_ℕ, ◌+ℤ◌, ◌-ℤ◌, ◌*ℤ◌, ◌≤ℤ◌, ◌<ℤ◌, ltb_ℤ, eqb_ℤ, eqb_ℤ_iff,
  IsInt64, wrap64, wrap64_of_IsInt64, wrap64-IsInt64, add64, sub64, mul64, neg64, Text, codes,
  text_eq, text_lt, text_eq_refl, text_eq_iff, text_lt_irrefl, text_lt_trans, text_lt_antisymm,
}

-- `less` is a strict weak order, which `sort.Interface` asks of `Less`.
pub record IsStrictWeak {A : Type 0} (less : A → A → Bool) : Type 0 where
  pub irrefl : (a : A) → less a a ≡ false
  pub trans : (a b c : A) → less a b ≡ true → less b c ≡ true → less a c ≡ true
  pub incomparable : (a b c : A) → less a b ≡ false → less b c ≡ false → less a c ≡ false

-- No element stands before a smaller one.
abbrev pub IsSorted : {A : Type 0} → (A → A → Bool) → List A → Type 0
IsSorted less = Pairwise (λ a b. less b a ≡ false)

-- `sort.Sort`, with its documented behaviour. It need not be stable.
pub record Sorter : Type 1 where
  pub sort : (A : Type 0) → (A → A → Bool) → List A → List A
  pub sort-perm : (A : Type 0) (less : A → A → Bool) (l : List A) → Perm (sort A less l) l
  pub sort-IsSorted :
      (A : Type 0) (less : A → A → Bool)
      → IsStrictWeak less
      → (l : List A) → IsSorted less (sort A less l)

-- The order of strings, by which `sort.Strings` sorts.
text_incomparable : (a b c : Text) → text_lt a b ≡ false → text_lt b c ≡ false → text_lt a c ≡ false
text_incomparable a b c h k = elim (Bool-cases (text_lt a c)) [
  | inl lt ↦ elim (Bool-cases (text_lt b a)) [
    | inl gt ↦ cc (text_lt_trans b a c gt lt)
    | inr e ↦ cc (text_lt_antisymm a b h e)
  ]
  | inr ge ↦ ge
]

pub text_lt-IsStrictWeak : IsStrictWeak text_lt
text_lt-IsStrictWeak = record {
  irrefl = text_lt_irrefl;
  trans = text_lt_trans;
  incomparable = text_incomparable;
}

-- A `Less` of the program's shape: high to low on a number, then low to high on a string.
module _ {A : Type 0} (rank : A → ℤ) (name : A → Text) where
  abbrev pub high_to_low : A → A → Bool
  high_to_low a b =
      if eqb_ℤ (rank a) (rank b) then text_lt (name a) (name b) else ltb_ℤ (rank b) (rank a)

  pub high_to_low-IsStrictWeak : IsStrictWeak high_to_low
  high_to_low-IsStrictWeak = record {
    irrefl = λ a. ground (arith, text_lt_irrefl (name a));
    trans = λ a b c h k. ground (arith, text_lt_trans (name a) (name b) (name c));
    incomparable = λ a b c h k. ground (arith, text_incomparable (name a) (name b) (name c));
  }

  -- Elements that it does not tell apart have one rank and one name.
  pub high_to_low_tie :
      (a b : A)
      → high_to_low a b ≡ false
      → high_to_low b a ≡ false
      → (rank a ≡ rank b) × (name a ≡ name b)
  high_to_low_tie a b h k = ground (
    arith,
    text_lt_antisymm (name a) (name b),
    eqb_ℤ_iff (rank a) (rank b),
    eqb_ℤ_iff (rank b) (rank a),
  )
