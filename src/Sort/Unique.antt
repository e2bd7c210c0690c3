-- ===== src/Sort/Unique.antt =====
-- When the result of a sort does not depend on the order of its input.
use mathlib.Core.List.{Perm, Pairwise, Mem, mem-cons_self, mem-cons_of_mem, mem-cons}
use mathlib.Core.List.Perm
use mathlib.Core.List.Pairwise
use mathlib.Core.Logic.Or
use mathlib.Core.Bool.{Bool-set}
use matrix_static.Prelude.{◌≡◌, ap₂, Bool, false, List, [], ◌∷◌}
use matrix_static.Sort.{IsStrictWeak, IsSorted, Sorter}

module _ {A : Type 0} (less : A → A → Bool) (w : IsStrictWeak less) where
  -- The head of an ascending list is not above any element of it.
  head_least : {a b : A} {l : List A} → IsSorted less (a ∷ l) → Mem b (a ∷ l) → less b a ≡ false
  head_least {a} (Pairwise.cons below s) m =
      Or.elim (Bool-set _ _) (mem-cons.0 m) (λ e. rw e (w.irrefl a)) (λ k. below _ k)

  -- Two ascending lists with the same elements are one list, if the order tells these apart.
  pub IsSorted-eq_of_perm :
      {l r : List A}
      → ((a b : A) → Mem a l → Mem b l → less a b ≡ false → less b a ≡ false → a ≡ b)
      → IsSorted less l
      → IsSorted less r
      → Perm l r
      → l ≡ r
  IsSorted-eq_of_perm {l = []} tells sl sr p = Perm.nil-eq p
  IsSorted-eq_of_perm {l = a ∷ l} {r = []} tells sl sr p = Perm.eq-nil p
  IsSorted-eq_of_perm {l = a ∷ l} {r = b ∷ r} tells sl sr p =
      let mb = (Perm.mem_iff p).1 mem-cons_self in
      let heads =
        tells a b mem-cons_self mb (head_least sr ((Perm.mem_iff p).0 mem-cons_self))
          (head_least sl mb) in
      let tails = Perm.cons_inv (Perm.trans p (Perm.symm (Perm.cons' heads Perm.rfl))) in
      ap₂ ◌∷◌ heads (
        IsSorted-eq_of_perm {l = l}
          (λ x y mx my. tells x y (mem-cons_of_mem a mx) (mem-cons_of_mem a my))
          (Pairwise.of_cons sl) (Pairwise.of_cons sr) tails)

  -- A sort forgets the order of its input, if the order tells the elements apart.
  pub sort-eq_of_perm :
      (sorter : Sorter) (l r : List A)
      → ((a b : A) → Mem a l → Mem b l → less a b ≡ false → less b a ≡ false → a ≡ b)
      → Perm l r
      → sorter.sort A less l ≡ sorter.sort A less r
  sort-eq_of_perm sorter l r tells p =
      let sl = sorter.sort-perm A less l in
      IsSorted-eq_of_perm (λ a b ma mb. tells a b ((Perm.mem_iff sl).0 ma) ((Perm.mem_iff sl).0 mb))
        (sorter.sort-IsSorted A less w l) (sorter.sort-IsSorted A less w r)
        (Perm.trans sl (Perm.trans p (Perm.symm (sorter.sort-perm A less r))))
