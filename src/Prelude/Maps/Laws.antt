-- ===== src/Prelude/Maps/Laws.antt =====
-- Maps without two entries of one key, and what can be read of them.
use mathlib.Core.Option
use mathlib.Core.Logic.Or
use mathlib.Core.List.{
  Mem, Mem-prop, Nodup, Nodup-cons, Nodup-nil, mem-cons_self, mem-cons_of_mem, not-mem-nil,
  eq-or-mem_of_mem-cons, mem-map_of_mem,
}
use matrix_static.Prelude.{
  ◌≡◌, sym, ap, ◌≢◌, inl, inr, none, some, [], ◌∷◌, Bool-cases, Option-cases, All, Text, text_eq,
  text_eq_refl, text_eq_iff,
}
use matrix_static.Prelude.Maps.{Map, lookup, insert, keys}

-- No key has two entries.
abbrev pub IsMap : {V : Type 0} → Map V → Type 0
IsMap m = Nodup (keys m)

module _ {V : Type 0} where
  -- Writing an entry adds at most its own key.
  pub mem-keys-insert :
      (j k : Text) (v : V) (m : Map V) → Mem j (keys (insert k v m)) → j ≢ k → Mem j (keys m)
  unfolding insert
  mem-keys-insert j k v [] h ne =
      Or.elim Mem-prop (eq-or-mem_of_mem-cons h) (λ e. absurd (ne e)) (λ m. absurd (not-mem-nil m))
  mem-keys-insert j k v ((i, w) ∷ m) h ne = elim (Bool-cases (text_eq i k)) [
    | inl e ↦ rw e at h
    | inr e ↦
        Or.elim Mem-prop (eq-or-mem_of_mem-cons (rw e at h)) (λ p. rw p mem-cons_self)
          (λ later. mem-cons_of_mem i (mem-keys-insert j k v m later ne))
  ]

  -- Writing an entry keeps the keys there are.
  pub mem-keys-insert_of_mem :
      (j k : Text) (v : V) (m : Map V) → Mem j (keys m) → Mem j (keys (insert k v m))
  unfolding insert
  mem-keys-insert_of_mem j k v [] h = absurd (not-mem-nil h)
  mem-keys-insert_of_mem j k v ((i, w) ∷ m) h = elim (Bool-cases (text_eq i k)) [
    | inl e ↦ rw e h
    | inr e ↦ rw e (
        Or.elim Mem-prop (eq-or-mem_of_mem-cons h) (λ p. rw p mem-cons_self)
          (λ later. mem-cons_of_mem i (mem-keys-insert_of_mem j k v m later)))
  ]

  not-mem-keys_of_lookup : (k : Text) (m : Map V) → lookup k m ≡ none → ¬ Mem k (keys m)
  unfolding lookup
  not-mem-keys_of_lookup k [] h mem = not-mem-nil mem
  not-mem-keys_of_lookup k ((i, w) ∷ m) h mem = elim (Bool-cases (text_eq i k)) [
    | inl e ↦ absurd (cc (rw e at h))
    | inr e ↦
        Or.elim (λ (a b : ⊥). absurd a) (eq-or-mem_of_mem-cons mem)
          (λ p. absurd (cc ((text_eq_iff i k).1 (sym p))))
          (λ later. not-mem-keys_of_lookup k m (rw e at h) later)
  ]

  -- A key of the map has a value.
  pub lookup-some_of_mem : (k : Text) (m : Map V) → Mem k (keys m) → (v : V) × (lookup k m ≡ some v)
  lookup-some_of_mem k m h = elim (Option-cases (lookup k m)) [
    | inl e ↦ absurd (not-mem-keys_of_lookup k m e h)
    | inr (v, e) ↦ (v, e)
  ]

  pub insert-IsMap : (k : Text) (v : V) (m : Map V) → IsMap m → IsMap (insert k v m)
  unfolding insert
  insert-IsMap k v [] h = Nodup-cons.1 (not-mem-nil, Nodup-nil)
  insert-IsMap k v ((i, w) ∷ m) h = elim (Bool-cases (text_eq i k)) [
    | inl e ↦ rw e h
    | inr e ↦
        let (fresh, rest) = Nodup-cons.0 h in
        rw e (
          Nodup-cons.1 (
            λ mem. fresh (mem-keys-insert i k v m mem (λ p. cc ((text_eq_iff i k).1 p))),
            insert-IsMap k v m rest,
          ))
  ]

  -- An entry of a map is what a lookup of its key finds.
  pub lookup_of_mem :
      IsSet V → (k : Text) (v : V) (m : Map V) → IsMap m → Mem (k, v) m → lookup k m ≡ some v
  unfolding lookup
  lookup_of_mem set k v [] h mem = absurd (not-mem-nil mem)
  lookup_of_mem set k v ((i, w) ∷ m) h mem =
      Or.elim (Option.is_set set _ _) (eq-or-mem_of_mem-cons mem)
        (λ (e : (k, v) ≡ (i, w)).
          rw (sym (ap (λ t. t.0) e), text_eq_refl k) (ap (λ t. some t.1) (sym e)))
        (λ later. elim (Bool-cases (text_eq i k)) [
          | inl p ↦
              absurd
                ((Nodup-cons.0 h).0 (rw ((text_eq_iff i k).0 p) (mem-map_of_mem (λ t. t.0) later)))
          | inr p ↦ rw p (lookup_of_mem set k v m (Nodup-cons.0 h).1 later)
        ])

  -- A lookup that finds a value is of a key of the map.
  pub mem-keys_of_lookup : (k : Text) {v : V} (m : Map V) → lookup k m ≡ some v → Mem k (keys m)
  unfolding lookup
  mem-keys_of_lookup k [] h = absurd (cc)
  mem-keys_of_lookup k ((i, w) ∷ m) h = elim (Bool-cases (text_eq i k)) [
    | inl e ↦ rw ((text_eq_iff i k).0 e) mem-cons_self
    | inr e ↦ mem-cons_of_mem i (mem-keys_of_lookup k m (rw e at h))
  ]

  pub mem_of_lookup : (k : Text) {v : V} (m : Map V) → lookup k m ≡ some v → Mem (k, v) m
  unfolding lookup
  mem_of_lookup k [] h = absurd (cc)
  mem_of_lookup k {v} ((i, w) ∷ m) h = elim (Bool-cases (text_eq i k)) [
    | inl e ↦
        let found : some w ≡ some v = rw e at h in
        let value : w ≡ v = cc in rw ((text_eq_iff i k).0 e, value) mem-cons_self
    | inr e ↦ mem-cons_of_mem (i, w) (mem_of_lookup k m (rw e at h))
  ]

  pub insert-All :
      (P : Text × V → Type 0) (k : Text) (v : V) (m : Map V)
      → P (k, v)
      → All P m
      → All P (insert k v m)
  unfolding insert
  insert-All P k v [] p all = (p, tt)
  insert-All P k v ((i, w) ∷ m) p (q, all) = elim (Bool-cases (text_eq i k)) [
    | inl e ↦ rw e (rw ((text_eq_iff i k).0 e) p, all)
    | inr e ↦ rw e (q, insert-All P k v m p all)
  ]

  pub lookup-All :
      (P : Text × V → Type 0) (k : Text) (m : Map V) {v : V}
      → All P m
      → lookup k m ≡ some v
      → P (k, v)
  unfolding lookup
  lookup-All P k [] all h = absurd (cc)
  lookup-All P k ((i, w) ∷ m) {v} (p, all) h = elim (Bool-cases (text_eq i k)) [
    | inl e ↦
        let found : some w ≡ some v = rw e at h in
        let value : w ≡ v = cc in rw (sym ((text_eq_iff i k).0 e), sym value) p
    | inr e ↦ lookup-All P k m all (rw e at h)
  ]
