-- ===== src/Sort/Insertion.antt =====
-- Insertion sort, a concrete sort with the documented behaviour, for tests.
use mathlib.Core.List.{Perm, Pairwise, mem-cons, not-mem-nil}
use mathlib.Core.List.Perm
use mathlib.Core.Logic.Or
use mathlib.Core.Bool.{Bool-set}
use matrix_static.Prelude.{
  ◌≡◌, inl, inr, Bool, true, false, List, [], ◌∷◌, if◌then◌else◌, Bool-cases,
}
use matrix_static.Sort.{IsStrictWeak, IsSorted, Sorter}

module _ {A : Type 0} (less : A → A → Bool) where
  unfoldable pub ordered_insert : A → List A → List A
  ordered_insert x [] = x ∷ []
  ordered_insert x (y ∷ ys) = if less y x then y ∷ ordered_insert x ys else x ∷ y ∷ ys

  unfoldable pub insertion_sort : List A → List A
  unfolding ordered_insert
  insertion_sort [] = []
  insertion_sort (x ∷ xs) = ordered_insert x (insertion_sort xs)

  ordered_insert-perm : (x : A) (l : List A) → Perm (ordered_insert x l) (x ∷ l)
  unfolding ordered_insert
  ordered_insert-perm x [] = Perm.rfl
  ordered_insert-perm x (y ∷ ys) = elim (Bool-cases (less y x)) [
    | inl h ↦ rw h (Perm.trans (Perm.cons y (ordered_insert-perm x ys)) (Perm.swap x y ys))
    | inr h ↦ rw h Perm.rfl
  ]

  pub insertion_sort-perm : (l : List A) → Perm (insertion_sort l) l
  unfolding insertion_sort
  insertion_sort-perm [] = Perm.rfl
  insertion_sort-perm (x ∷ xs) =
      Perm.trans (ordered_insert-perm x (insertion_sort xs)) (Perm.cons x (insertion_sort-perm xs))

  ordered_insert-IsSorted :
      IsStrictWeak less
      → (x : A) {l : List A} → IsSorted less l
      → IsSorted less (ordered_insert x l)
  unfolding ordered_insert
  ordered_insert-IsSorted w x Pairwise.nil =
      Pairwise.cons (λ y m. absurd (not-mem-nil m)) Pairwise.nil
  ordered_insert-IsSorted w x (Pairwise.cons {a = y} {l = ys} below s) =
      elim (Bool-cases (less y x)) [
        | inl h ↦ rw h (
            Pairwise.cons
              (λ z m.
                Or.elim (Bool-set _ _) (mem-cons.0 ((Perm.mem_iff (ordered_insert-perm x ys)).0 m))
                  (λ e. rw e (asymm y x h)) (below z))
              (ordered_insert-IsSorted w x s))
        | inr h ↦ rw h (
            Pairwise.cons
              (λ z m.
                Or.elim (Bool-set _ _) (mem-cons.0 m) (λ e. rw e h)
                  (λ k. w.incomparable z y x (below z k) h))
              (Pairwise.cons below s))
      ]
    where
      asymm : (a b : A) → less a b ≡ true → less b a ≡ false
      asymm a b h = elim (Bool-cases (less b a)) [
        | inl k ↦ cc (w.trans a b a h k, w.irrefl a)
        | inr k ↦ k
      ]

  pub insertion_sort-IsSorted : IsStrictWeak less → (l : List A) → IsSorted less (insertion_sort l)
  unfolding insertion_sort
  insertion_sort-IsSorted w [] = Pairwise.nil
  insertion_sort-IsSorted w (x ∷ xs) = ordered_insert-IsSorted w x (insertion_sort-IsSorted w xs)

abbrev pub insertion_sorter : Sorter
insertion_sorter = record {
  sort = λ A less l. insertion_sort less l;
  sort-perm = λ A less l. insertion_sort-perm less l;
  sort-IsSorted = λ A less w l. insertion_sort-IsSorted less w l;
}
