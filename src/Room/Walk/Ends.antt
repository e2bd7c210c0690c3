-- ===== src/Room/Walk/Ends.antt =====
-- When a page of the timeline says that it is at an end, where the ids of the events are unique.
use Prim.Native.Nat.{min}
use matrix_static.Prelude.{
  ℕ, zero, suc, ◌+◌, ◌-◌, ◌<◌, ◌≡◌, refl, sym, ap, ◌∙◌, inl, inr, true, false, Bool-cases, some,
  List, [], ◌∷◌, arith, ltb, leb, ◌==◌, length, length-take, length-drop, get_elem?, take, drop,
  Text, text_eq, text_eq_iff, text_eq_refl,
}
use matrix_static.Gomatrix.{Event}
use matrix_static.Room.{last, at_ends}
use matrix_static.Room.Pages.Anchors.{Without}

-- No two of the events have the same id.
abbrev pub HasUniqueIds : List Event → Type 0
HasUniqueIds [] = Unit
HasUniqueIds (e ∷ events) = Without e.id events × HasUniqueIds events

pub text_eq_comm : (s t : Text) → text_eq s t ≡ text_eq t s
text_eq_comm s t = elim (Bool-cases (text_eq s t)) [
  | inl e ↦
      let same : s ≡ t = (text_eq_iff s t).0 e in
      ap (λ u. text_eq u t) same ∙ ap (λ u. text_eq t u) (sym same)
  | inr e ↦ elim (Bool-cases (text_eq t s)) [
    | inl e' ↦ let same : t ≡ s = (text_eq_iff t s).0 e' in absurd (cc (text_eq_refl s))
    | inr e' ↦ e ∙ sym e'
  ]
]

pub get_elem-take : (n j : ℕ) (xs : List Event) → j < n → get_elem? (take n xs) j ≡ get_elem? xs j
get_elem-take zero j xs h = absurd (omega arith)
get_elem-take (suc n) j [] h = refl
get_elem-take (suc n) zero (x ∷ xs) h = refl
get_elem-take (suc n) (suc j) (x ∷ xs) h = get_elem-take n j xs (omega arith)

pub get_elem-drop : (k j : ℕ) (xs : List Event) → get_elem? (drop k xs) j ≡ get_elem? xs (k + j)
get_elem-drop zero j xs = let e : 0 + j ≡ j = omega arith in rw e refl
get_elem-drop (suc k) j [] = refl
get_elem-drop (suc k) j (x ∷ xs) =
    let e : suc k + j ≡ suc (k + j) = omega arith in rw e (get_elem-drop k j xs)

get_elem-last : (x : Event) (xs : List Event) → get_elem? (x ∷ xs) (length xs) ≡ some (last x xs)
get_elem-last x [] = refl
get_elem-last x (y ∷ xs) = get_elem-last y xs

pub get_elem-Without :
    (id : Text) (xs : List Event) (j : ℕ) {v : Event}
    → Without id xs
    → get_elem? xs j ≡ some v
    → text_eq v.id id ≡ false
get_elem-Without id [] j h there = absurd (cc)
get_elem-Without id (x ∷ xs) zero {v} (p, h) there =
    let same : x ≡ v = cc in ap (λ u. text_eq u.id id) (sym same) ∙ p
get_elem-Without id (x ∷ xs) (suc j) (p, h) there = get_elem-Without id xs j h there

-- Events at two places have two ids.
get_elem-HasUniqueIds :
    (xs : List Event) (a b : ℕ) {u v : Event}
    → HasUniqueIds xs
    → a < b
    → get_elem? xs a ≡ some u
    → get_elem? xs b ≡ some v
    → text_eq v.id u.id ≡ false
get_elem-HasUniqueIds [] a b h lt at_a at_b = absurd (cc)
get_elem-HasUniqueIds (x ∷ xs) a zero h lt at_a at_b = absurd (omega arith)
get_elem-HasUniqueIds (x ∷ xs) zero (suc b) {u} {v} (fresh, h) lt at_a at_b =
    let same : x ≡ u = cc in
    ap (λ w. text_eq v.id w.id) (sym same) ∙ get_elem-Without x.id xs b fresh at_b
get_elem-HasUniqueIds (x ∷ xs) (suc a) (suc b) (fresh, h) lt at_a at_b =
    get_elem-HasUniqueIds xs a b h (omega arith) at_a at_b

-- The comparison of the ids at two places is that of the places.
same_place :
    (xs : List Event) (a b : ℕ) {u v : Event}
    → HasUniqueIds xs
    → get_elem? xs a ≡ some u
    → get_elem? xs b ≡ some v
    → text_eq u.id v.id ≡ (a == b)
same_place xs a b {u} {v} h at_a at_b = elim (Bool-cases (ltb a b)) [
  | inl lt ↦
      let differ : (a == b) ≡ false = ground arith in
      text_eq_comm u.id v.id ∙ get_elem-HasUniqueIds xs a b h (ground arith) at_a at_b ∙ sym differ
  | inr ge ↦ elim (Bool-cases (ltb b a)) [
    | inl lt ↦
        let differ : (a == b) ≡ false = ground arith in
        get_elem-HasUniqueIds xs b a h (ground arith) at_b at_a ∙ sym differ
    | inr le ↦
        let equal : (a == b) ≡ true = ground arith in
        let place : a ≡ b = ground arith in
        let same : some u ≡ some v = sym at_a ∙ ap (get_elem? xs) place ∙ at_b in
        let event : u ≡ v = cc in
        ap (λ w. text_eq u.id w.id) (sym event) ∙ text_eq_refl u.id ∙ sym equal
  ]
]

at_ends-cut :
    (page xs : List Event) (k n : ℕ)
    → HasUniqueIds xs
    → 0 < n
    → k < length xs
    → page ≡ take n (drop k xs)
    → at_ends page xs ≡ some (leb (length xs) (k + n), k == 0)
unfolding at_ends
at_ends-cut page [] k n h some_size inside cut = absurd (omega arith)
at_ends-cut [] (x ∷ xs) k n h some_size inside cut =
    let none_left : 0 ≡ min n (length (x ∷ xs) - k) =
      ap length cut ∙ length-take n (drop k (x ∷ xs)) ∙ ap (min n) (length-drop k (x ∷ xs)) in
    absurd (omega arith)
at_ends-cut (e ∷ events) (x ∷ xs) k n h some_size inside cut =
    let size : suc (length events) ≡ min n (length (x ∷ xs) - k) =
      ap length cut ∙ length-take n (drop k (x ∷ xs)) ∙ ap (min n) (length-drop k (x ∷ xs)) in
    let place : (j : ℕ) → j < n → get_elem? (e ∷ events) j ≡ get_elem? (x ∷ xs) (k + j) = λ j lt.
      ap (λ l. get_elem? l j) cut
      ∙ get_elem-take n j (drop k (x ∷ xs)) lt
      ∙ get_elem-drop k j (x ∷ xs) in
    let first_at : get_elem? (x ∷ xs) (k + 0) ≡ some e = sym (place 0 some_size) in
    let last_at : get_elem? (x ∷ xs) (k + length events) ≡ some (last e events) =
      sym (place (length events) (omega arith)) ∙ get_elem-last e events in
    let top = same_place (x ∷ xs) (k + length events) (length xs) h last_at (get_elem-last x xs) in
    let bottom = same_place (x ∷ xs) (k + 0) 0 h first_at refl in
    let top_place : ((k + length events) == length xs) ≡ leb (suc (length xs)) (k + n) =
      ground arith in
    let bottom_place : ((k + 0) == 0) ≡ (k == 0) = ground arith in
    rw (top, bottom, top_place, bottom_place) refl

-- A page that is not empty is at the older end where it reaches the end of the list, and at the
-- newer end where it starts at its start.
pub at_ends-eq :
    (xs : List Event) (k n : ℕ)
    → HasUniqueIds xs
    → 0 < n
    → k < length xs
    → at_ends (take n (drop k xs)) xs ≡ some (leb (length xs) (k + n), k == 0)
at_ends-eq xs k n h some_size inside =
    at_ends-cut (take n (drop k xs)) xs k n h some_size inside refl
