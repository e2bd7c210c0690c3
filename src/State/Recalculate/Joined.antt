-- ===== src/State/Recalculate/Joined.antt =====
-- Who is in the member list after a recalculation.
use mathlib.Core.Option
use mathlib.Core.Logic.Or
use mathlib.Core.List.{
  Mem, Perm, mem-cons_self, mem-cons_of_mem, not-mem-nil, eq-or-mem_of_mem-cons, Nodup-cons,
}
use mathlib.Core.List.Perm
use matrix_static.Prelude.{
  ◌≡◌, refl, sym, ◌∙◌, ◌↔◌, inl, inr, true, Option, some, [], ◌∷◌, Bool-cases, Option-cases, keep,
  Text, codes, text_eq, text_eq_iff,
}
use matrix_static.Prelude.Maps.{Map, lookup, keys, lookup-insert}
use matrix_static.Prelude.Maps.Laws.{IsMap}
use matrix_static.Member.{MemberInfo, PowerLevel}
use matrix_static.Sort.{Sorter}
use matrix_static.State.{RoomState, members}
use matrix_static.State.Invariant.{IsValid}
use matrix_static.State.History.Membership.{membership}
use matrix_static.State.Recalculate.{
  is_join, pointer_less, sorted_members, set_power_level, set_power_levels,
  recalculate_member_list_and_servers,
}
use matrix_static.State.Recalculate.Lists.{mem-keys-keep, recalculate-IsValid}

abbrev membership_in : Text → Map MemberInfo → Option Text
membership_in k m = Option.map (λ (info : MemberInfo). info.membership) (lookup k m)

Text-set : IsSet (Option Text)
Text-set = hlevel

joined-of_mem :
    (k : Text) (m : Map MemberInfo)
    → IsMap m
    → Mem k (keys (keep is_join m))
    → membership_in k m ≡ some (codes "join")
unfolding keep lookup
joined-of_mem k [] h mem = absurd (not-mem-nil mem)
joined-of_mem k ((i, info) ∷ m) h mem =
    let (fresh, rest) = Nodup-cons.0 h in
    elim (Bool-cases (text_eq i k)) [
      | inl e ↦ elim (Bool-cases (is_join (i, info))) [
        | inl j ↦
            let joined : info.membership ≡ codes "join" =
              (text_eq_iff info.membership (codes "join")).0 (unfold is_join in j) in
            rw (e, joined) refl
        | inr j ↦ absurd (fresh (rw ((text_eq_iff i k).0 e) (mem-keys-keep k m (rw j at mem))))
      ]
      | inr e ↦ elim (Bool-cases (is_join (i, info))) [
        | inl j ↦
            Or.elim (Text-set _ _) (eq-or-mem_of_mem-cons (rw j at mem))
              (λ q. absurd (cc ((text_eq_iff i k).1 (sym q))))
              (λ later. rw e (joined-of_mem k m rest later))
        | inr j ↦ rw e (joined-of_mem k m rest (rw j at mem))
      ]
    ]

mem-of_joined :
    (k : Text) (m : Map MemberInfo)
    → membership_in k m ≡ some (codes "join")
    → Mem k (keys (keep is_join m))
unfolding keep lookup
mem-of_joined k [] h = absurd (cc)
mem-of_joined k ((i, info) ∷ m) h = elim (Bool-cases (text_eq i k)) [
  | inl e ↦
      let found : some info.membership ≡ some (codes "join") = rw e at h in
      let value : info.membership ≡ codes "join" = cc in
      let kept : is_join (i, info) ≡ true =
        unfold is_join in (text_eq_iff info.membership (codes "join")).1 value in
      rw (kept, (text_eq_iff i k).0 e) mem-cons_self
  | inr e ↦ elim (Bool-cases (is_join (i, info))) [
    | inl j ↦ rw j (mem-cons_of_mem i (mem-of_joined k m (rw e at h)))
    | inr j ↦ rw j (mem-of_joined k m (rw e at h))
  ]
]

membership-set_power_level :
    (k mxid : Text) (level : PowerLevel) (m : Map MemberInfo)
    → membership_in k (set_power_level mxid level m) ≡ membership_in k m
unfolding set_power_level
membership-set_power_level k mxid level m = elim (Option-cases (lookup mxid m)) [
  | inl e ↦ rw (e, set_power_level) refl
  | inr (info, e) ↦
      rw (e, set_power_level, lookup-insert mxid k (record info { power_level = level }) m)
        (elim (Bool-cases (text_eq mxid k)) [
          | inl t ↦ rw (t, sym ((text_eq_iff mxid k).0 t), e) refl
          | inr t ↦ rw t refl
        ])
]

membership-set_power_levels :
    (k : Text) (users : Map PowerLevel) (m : Map MemberInfo)
    → membership_in k (set_power_levels users m) ≡ membership_in k m
unfolding set_power_levels
membership-set_power_levels k [] m = refl
membership-set_power_levels k ((mxid, level) ∷ users) m =
    membership-set_power_levels k users (set_power_level mxid level m)
    ∙ membership-set_power_level k mxid level m

module _ (sorter : Sorter) where
  -- After a recalculation of a valid state, exactly the users whose membership is "join" are in
  -- the member list.
  pub mem-members-recalculate :
      (k : Text) (rs : RoomState)
      → IsValid rs
      → Mem k (members (recalculate_member_list_and_servers sorter rs))
        ↔ (membership k rs ≡ some (codes "join"))
  unfolding members recalculate_member_list_and_servers sorted_members
  mem-members-recalculate k rs v =
      let m = set_power_levels rs.power_levels.users rs.member_map in
      let valid : IsMap m = (recalculate-IsValid sorter rs v).members in
      let perm : Perm (keys (sorter.sort (Text × MemberInfo) pointer_less (keep is_join m)))
          (keys (keep is_join m)) =
        Perm.map (λ (e : Text × MemberInfo). e.0)
          (sorter.sort-perm (Text × MemberInfo) pointer_less (keep is_join m)) in
      let same = membership-set_power_levels k rs.power_levels.users rs.member_map in
      (
        λ mem. sym same ∙ joined-of_mem k m valid ((Perm.mem_iff perm).0 mem),
        λ joined. (Perm.mem_iff perm).1 (mem-of_joined k m (same ∙ joined)),
      )
