-- ===== src/State/Recalculate/Members.antt =====
-- The member list after a recalculation, seen through its pointers.
use mathlib.Core.List.{
  Pairwise, Mem, Mem-prop, Perm, Pairwise-map, mem-cons_self, mem-cons_of_mem,
  eq-or-mem_of_mem-cons,
}
use mathlib.Core.List.Perm
use mathlib.Core.List.Pairwise
use mathlib.Core.Bool.{Bool-set}
use mathlib.Core.Logic.Or
use matrix_static.Prelude.{
  ◌≤ℤ◌, sym, ap₂, ◌∙◌, arith, text_eq, text_lt, if◌then◌else◌, ◌≡◌, refl, inl, inr, Bool, false,
  some, List, [], ◌∷◌, map, Bool-cases, keep, Text,
}
use matrix_static.Prelude.Maps.{Map, keys}
use matrix_static.Prelude.Maps.Laws.{IsMap, lookup_of_mem}
use matrix_static.Member.{MemberInfo, get_name, member_less}
use matrix_static.Member.Roles.{member_less-IsStrictWeak}
use matrix_static.Sort.{Sorter, IsStrictWeak}
use matrix_static.State.{RoomState, members, deref}
use matrix_static.State.Invariant.{IsValid}
use matrix_static.State.Recalculate.{
  is_join, pointer_less, sorted_members, recalculate_member_list_and_servers,
}
use matrix_static.State.Recalculate.Lists.{recalculate-IsValid}

MemberInfo-set : IsSet MemberInfo
MemberInfo-set = hlevel

pub mem_of_mem-keep : {A : Type 0} (p : A → Bool) {x : A} (l : List A) → Mem x (keep p l) → Mem x l
unfolding keep
mem_of_mem-keep p [] m = m
mem_of_mem-keep p (y ∷ l) m = elim (Bool-cases (p y)) [
  | inl e ↦
      Or.elim Mem-prop (eq-or-mem_of_mem-cons (rw e at m)) (λ q. rw q mem-cons_self)
        (λ k. mem-cons_of_mem y (mem_of_mem-keep p l k))
  | inr e ↦ mem-cons_of_mem y (mem_of_mem-keep p l (rw e at m))
]

-- Pointers to entries of a map lead to the values of these entries.
deref-keys :
    (m l : Map MemberInfo)
    → IsMap m
    → ((e : Text × MemberInfo) → Mem e l → Mem e m)
    → deref m (keys l) ≡ some (map (λ e. e.1) l)
unfolding deref
deref-keys m [] h sub = refl
deref-keys m ((k, info) ∷ l) h sub = rw (
  lookup_of_mem MemberInfo-set k info m h (sub (k, info) mem-cons_self),
  deref-keys m l h (λ e k. sub e (mem-cons_of_mem _ k)),
)

pointer_less-IsStrictWeak : IsStrictWeak pointer_less
pointer_less-IsStrictWeak = record {
  irrefl = λ a. member_less-IsStrictWeak.irrefl a.1;
  trans = λ a b c. member_less-IsStrictWeak.trans a.1 b.1 c.1;
  incomparable = λ a b c. member_less-IsStrictWeak.incomparable a.1 b.1 c.1;
}

-- The name that a member is listed under: the display name, or else the id.
abbrev pub listed_name : MemberInfo → Text
listed_name info = elim info.display_name [ [] ↦ info.mxid | c ∷ name ↦ c ∷ name ]

-- The order of the member list: from high to low power level, and within one level by name.
abbrev pub Precedes : MemberInfo → MemberInfo → Type 0
Precedes a b =
    (b.power_level ≤ℤ a.power_level)
    × (a.power_level ≡ b.power_level → text_lt (listed_name b) (listed_name a) ≡ false)

name_or :
    (name mxid : Text)
    → (if text_eq name [] then mxid else name) ≡ (elim name [ [] ↦ mxid | c ∷ rest ↦ c ∷ rest ])
unfolding text_eq
name_or [] mxid = refl
name_or (c ∷ rest) mxid = refl

get_name-listed_name : (info : MemberInfo) → get_name info ≡ listed_name info
unfolding get_name text_eq
get_name-listed_name info = name_or info.display_name info.mxid

member_less-Precedes : (a b : MemberInfo) → member_less b a ≡ false → Precedes a b
unfolding member_less
member_less-Precedes a b h = (
  ground arith,
  λ same.
      let by_name : text_lt (get_name b) (get_name a) ≡ false = ground (arith, same) in
      ap₂ text_lt (sym (get_name-listed_name b)) (sym (get_name-listed_name a)) ∙ by_name,
)

module _ (sorter : Sorter) where
  -- After a recalculation of a valid state every pointer of the member list leads to a member. The
  -- members that they lead to are those of the map whose membership is "join", each once, from high
  -- to low power level and, within one level, in the order of their names.
  pub members-recalculate :
      (rs : RoomState)
      → IsValid rs
      → (infos : List MemberInfo) × (deref
            (recalculate_member_list_and_servers sorter rs).member_map
            (members (recalculate_member_list_and_servers sorter rs))
          ≡ some infos)
        × Pairwise Precedes infos
        × Perm infos (
            map
              (λ e. e.1)
              (keep is_join (recalculate_member_list_and_servers sorter rs).member_map))
  unfolding recalculate_member_list_and_servers members sorted_members
  members-recalculate rs v =
      let m = (recalculate_member_list_and_servers sorter rs).member_map in
      let joined = keep is_join m in
      let perm = sorter.sort-perm (Text × MemberInfo) pointer_less joined in
      (
        map (λ e. e.1) (sorted_members sorter m),
        deref-keys m (sorted_members sorter m) (recalculate-IsValid sorter rs v).members
            (λ e k. mem_of_mem-keep is_join m ((Perm.mem_iff perm).0 k)),
        Pairwise.imp (λ a b h. member_less-Precedes a b h)
            ((Pairwise-map (λ (a b : MemberInfo). Bool-set (member_less b a) false)
                (λ (e : Text × MemberInfo). e.1)).1
              (sorter.sort-IsSorted (Text × MemberInfo) pointer_less pointer_less-IsStrictWeak
                joined)),
        Perm.map (λ (e : Text × MemberInfo). e.1) perm,
      )
