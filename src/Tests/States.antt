-- ===== src/Tests/States.antt =====
-- Runs of the state of a room.
use mathlib.Core.List.{Perm, Pairwise, Nodup-nil, Nodup-cons, not-mem-nil, Mem}
use mathlib.Core.Option
use matrix_static.Prelude.{◌≡◌, refl, ◌↔◌, some, List, [], ◌∷◌, map, keep, codes}
use matrix_static.Prelude.Maps.{Map, lookup}
use matrix_static.Sort.Insertion.{insertion_sorter}
use matrix_static.Member.{MemberInfo}
use matrix_static.State.{deref, members}
use matrix_static.State.Invariant.{IsValid}
use matrix_static.State.Recalculate.{set_power_levels, recalculate_member_list_and_servers, is_join}
use matrix_static.State.Recalculate.Lists.{with_level, lookup-set_power_levels}
use matrix_static.State.Recalculate.Members.{Precedes, members-recalculate}
use matrix_static.Tests.{alice, bob, levels, state}
use matrix_static.State.History.Membership.{membership}
use matrix_static.State.Recalculate.Joined.{mem-members-recalculate}

pub state-IsValid : IsValid state
state-IsValid = record {
  members = Nodup-cons.1 (not-mem-nil, Nodup-nil);
  named = (refl, tt);
  aliases = Nodup-nil;
  listed = λ k mem. mem;
}

abbrev joined_members : Map MemberInfo
joined_members = (codes "@a:x", alice) ∷ (codes "@b:y", bob) ∷ []

lookup-set_power_levels_example :
    lookup (codes "@b:y") (set_power_levels levels.users joined_members)
    ≡ Option.map
        (with_level (lookup (codes "@b:y") levels.users))
        (lookup (codes "@b:y") joined_members)
lookup-set_power_levels_example =
    lookup-set_power_levels levels.users joined_members (codes "@b:y")
      (Nodup-cons.1 (not-mem-nil, Nodup-nil))

members-recalculate_example :
    (infos : List MemberInfo) × (deref
        (recalculate_member_list_and_servers insertion_sorter state).member_map
        (members (recalculate_member_list_and_servers insertion_sorter state))
      ≡ some infos)
    × Pairwise Precedes infos
    × Perm infos (
        map
          (λ e. e.1)
          (keep is_join (recalculate_member_list_and_servers insertion_sorter state).member_map))
members-recalculate_example = members-recalculate insertion_sorter state state-IsValid

mem-members-recalculate_example :
    Mem (codes "@a:x") (members (recalculate_member_list_and_servers insertion_sorter state))
    ↔ (membership (codes "@a:x") state ≡ some (codes "join"))
mem-members-recalculate_example =
    mem-members-recalculate insertion_sorter (codes "@a:x") state state-IsValid
