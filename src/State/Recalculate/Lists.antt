-- ===== src/State/Recalculate/Lists.antt =====
-- What the recalculation leaves in the maps and in the sorted lists.
use mathlib.Core.Option
use mathlib.Core.Logic.Or
use mathlib.Core.List.Perm
use mathlib.Core.List.{
  Nodup-cons, Mem, Mem-prop, mem-cons_self, mem-cons_of_mem, eq-or-mem_of_mem-cons,
}
use matrix_static.Prelude.{
  ◌≡◌, refl, sym, ap, ◌∙◌, inl, inr, Option, none, some, List, [], ◌∷◌, if◌then◌else◌, keep,
  Bool-cases, Option-cases, Text, text_eq, text_eq_iff,
}
use matrix_static.Prelude.Maps.{Map, lookup, keys, lookup-insert}
use matrix_static.Prelude.Maps.Laws.{IsMap, insert-IsMap, mem-keys_of_lookup}
use matrix_static.Member.{PowerLevel, MemberInfo}
use matrix_static.Sort.{Sorter}
use matrix_static.State.{RoomState}
use matrix_static.State.Invariant.{IsValid, Named, insert-Named, lookup-Named}
use matrix_static.State.Update.{get_or}
use matrix_static.State.Recalculate.{
  is_join, pointer_less, sorted_members, set_power_level, set_power_levels, sort_aliases,
  recalculate_member_list_and_servers,
}

module _ (mxid : Text) (level : PowerLevel) (m : Map MemberInfo) where
  set_power_level-IsMap : IsMap m → IsMap (set_power_level mxid level m)
  unfolding set_power_level
  set_power_level-IsMap h = elim (Option-cases (lookup mxid m)) [
    | inl e ↦ rw (e, set_power_level) h
    | inr (info, e) ↦ rw (e, set_power_level) (insert-IsMap mxid _ m h)
  ]

  set_power_level-Named : Named m → Named (set_power_level mxid level m)
  unfolding set_power_level
  set_power_level-Named h = elim (Option-cases (lookup mxid m)) [
    | inl e ↦ rw (e, set_power_level) h
    | inr (info, e) ↦ rw (e, set_power_level) (insert-Named mxid _ m (lookup-Named mxid m h e) h)
  ]

set_power_levels-IsMap :
    (users : Map PowerLevel) (m : Map MemberInfo) → IsMap m → IsMap (set_power_levels users m)
unfolding set_power_levels
set_power_levels-IsMap [] m h = h
set_power_levels-IsMap ((mxid, level) ∷ users) m h =
    set_power_levels-IsMap users _ (set_power_level-IsMap mxid level m h)

set_power_levels-Named :
    (users : Map PowerLevel) (m : Map MemberInfo) → Named m → Named (set_power_levels users m)
unfolding set_power_levels
set_power_levels-Named [] m h = h
set_power_levels-Named ((mxid, level) ∷ users) m h =
    set_power_levels-Named users _ (set_power_level-Named mxid level m h)

lookup-absent :
    (k : Text) (level : PowerLevel) (users : Map PowerLevel)
    → IsMap ((k, level) ∷ users)
    → lookup k users ≡ none
lookup-absent k level users h = elim (Option-cases (lookup k users)) [
  | inl e ↦ e
  | inr (l, e) ↦ absurd ((Nodup-cons.0 h).0 (mem-keys_of_lookup k users e))
]

-- The member with its power level set, if the list of users names one.
abbrev pub with_level : Option PowerLevel → MemberInfo → MemberInfo
with_level level info = record info { power_level = get_or level info.power_level }

with_level-none : (o : Option MemberInfo) → Option.map (with_level none) o ≡ o
unfolding get_or
with_level-none none = refl
with_level-none (some info) = refl

with_level-none-some :
    (level : PowerLevel) (o : Option MemberInfo)
    → Option.map (with_level none) (Option.map (with_level (some level)) o)
      ≡ Option.map (with_level (some level)) o
unfolding get_or
with_level-none-some level none = refl
with_level-none-some level (some info) = refl

lookup-set_power_level :
    (k j : Text) (level : PowerLevel) (m : Map MemberInfo)
    → lookup j (set_power_level k level m)
      ≡ (if text_eq k j then Option.map (with_level (some level)) (lookup j m) else lookup j m)
unfolding set_power_level get_or
lookup-set_power_level k j level m = elim (Option-cases (lookup k m)) [
  | inl e ↦ elim (Bool-cases (text_eq k j)) [
    | inl t ↦
        let p : lookup j m ≡ none = rw ((text_eq_iff k j).0 t) at e in rw (e, set_power_level, t, p)
    | inr t ↦ rw (e, set_power_level, t)
  ]
  | inr (info, e) ↦ elim (Bool-cases (text_eq k j)) [
    | inl t ↦
        let p : lookup j m ≡ some info = rw ((text_eq_iff k j).0 t) at e in
        rw (e, set_power_level, t, p) (lookup-insert k j _ m ∙ rw t)
    | inr t ↦ rw (e, set_power_level, t) (lookup-insert k j _ m ∙ rw t)
  ]
]

-- After the loop each known member has the power level that `users` gives it, and keeps the one it
-- had if `users` gives it none; nobody is added.
pub lookup-set_power_levels :
    (users : Map PowerLevel) (m : Map MemberInfo) (j : Text)
    → IsMap users
    → lookup j (set_power_levels users m) ≡ Option.map (with_level (lookup j users)) (lookup j m)
unfolding set_power_levels lookup
lookup-set_power_levels [] m j h = sym (with_level-none (lookup j m))
lookup-set_power_levels ((k, level) ∷ users) m j h = elim (Bool-cases (text_eq k j)) [
  | inl t ↦
      let absent : lookup j users ≡ none =
        rw ((text_eq_iff k j).0 t) at (lookup-absent k level users h) in
      lookup-set_power_levels users (set_power_level k level m) j (Nodup-cons.0 h).1
      ∙ rw (absent, lookup-set_power_level k j level m, t) (with_level-none-some level (lookup j m))
  | inr t ↦
      lookup-set_power_levels users (set_power_level k level m) j (Nodup-cons.0 h).1
      ∙ rw (lookup-set_power_level k j level m, t)
]

keys-sort_aliases : (sorter : Sorter) (m : Map (List Text)) → keys (sort_aliases sorter m) ≡ keys m
unfolding sort_aliases
keys-sort_aliases sorter [] = refl
keys-sort_aliases sorter (e ∷ m) = ap (◌∷◌ e.0) (keys-sort_aliases sorter m)

pub mem-keys-keep : (k : Text) (m : Map MemberInfo) → Mem k (keys (keep is_join m)) → Mem k (keys m)
unfolding keep
mem-keys-keep k [] mem = mem
mem-keys-keep k ((i, info) ∷ m) mem = elim (Bool-cases (is_join (i, info))) [
  | inl e ↦
      Or.elim Mem-prop (eq-or-mem_of_mem-cons (rw e at mem)) (λ q. rw q mem-cons_self)
        (λ later. mem-cons_of_mem i (mem-keys-keep k m later))
  | inr e ↦ mem-cons_of_mem i (mem-keys-keep k m (rw e at mem))
]

module _ (sorter : Sorter) where
  -- The recalculation keeps the state valid.
  pub recalculate-IsValid :
      (rs : RoomState) → IsValid rs → IsValid (recalculate_member_list_and_servers sorter rs)
  unfolding recalculate_member_list_and_servers sorted_members
  recalculate-IsValid rs v = record {
    members = set_power_levels-IsMap rs.power_levels.users rs.member_map v.members;
    named = set_power_levels-Named rs.power_levels.users rs.member_map v.named;
    aliases = rw (keys-sort_aliases sorter rs.alias_map) v.aliases;
    listed = λ k mem. mem-keys-keep k (set_power_levels rs.power_levels.users rs.member_map) (
        (Perm.mem_iff (
            Perm.map (λ (e : Text × MemberInfo). e.0)
              (sorter.sort-perm (Text × MemberInfo) pointer_less
                (keep is_join (set_power_levels rs.power_levels.users rs.member_map))))).0
          mem);
  }
