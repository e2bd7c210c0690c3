-- ===== src/State/Recalculate.antt =====
-- `RecalculateMemberListAndServers`: the lists that are kept sorted beside the maps.
pub mod Lists
pub mod Counts
pub mod Members
pub mod Joined
pub mod Servers
use matrix_static.Prelude.{
  ℕ, zero, suc, ◌+◌, ◌-◌, ◌*◌, ◌/◌, ◌%◌, ◌^◌, ◌≤◌, ◌<◌, ◌≡◌, refl, sym, ap, ap₂, ◌∙◌, subst, ◌≢◌,
  ◌↔◌, ◌⊎◌, inl, inr, Bool, true, false, not, ◌&&◌, ◌||◌, Option, none, some, List, [], ◌∷◌, ◌++◌,
  map, reverse, arith, ltb, leb, ◌==◌, if◌then◌else◌, ==_iff, Bool-cases, Option-cases, ◌>>=◌,
  length, get_elem?, take, drop, last?, keep, All, length-append, length-take, length-drop,
  length-keep-le, take-append-drop, drop-drop, take-take_add, drop-append, keep-append, All-append,
  ℤ, pos, negsuc, pos_part, neg_part, sub_ℕ, ◌+ℤ◌, ◌-ℤ◌, ◌*ℤ◌, ◌≤ℤ◌, ◌<ℤ◌, ltb_ℤ, eqb_ℤ, eqb_ℤ_iff,
  IsInt64, wrap64, wrap64_of_IsInt64, wrap64-IsInt64, add64, sub64, mul64, neg64, Text, codes,
  text_eq, text_lt, text_eq_refl, text_eq_iff, text_lt_irrefl, text_lt_trans, text_lt_antisymm,
}
use matrix_static.Prelude.Maps.{
  Map, lookup, insert, delete, keys, lookup-insert, lookup-insert_self,
}
use matrix_static.Member.{PowerLevel, MemberInfo, member_less}
use matrix_static.Sort.{Sorter}
use matrix_static.State.{RoomState, ServerUserCount, RoomServerAliases}
use matrix_static.State.Update.{get_or}

-- One round of the loop over `PowerLevels.Users`, and the loop: known members get their level.
unfoldable pub set_power_level : Text → PowerLevel → Map MemberInfo → Map MemberInfo
unfolding lookup insert
set_power_level mxid level m = elim (lookup mxid m) [
  | none ↦ m
  | some info ↦ insert mxid (record info { power_level = level }) m
]

unfoldable pub set_power_levels : Map PowerLevel → Map MemberInfo → Map MemberInfo
unfolding set_power_level
set_power_levels [] m = m
set_power_levels ((mxid, level) ∷ users) m = set_power_levels users (set_power_level mxid level m)

-- The members with Membership=join.
unfoldable pub is_join : Text × MemberInfo → Bool
is_join e = text_eq e.1.membership (codes "join")

-- `strings.SplitN(mxid, ":", 2)`: what stands behind the first colon, if there is one.
unfoldable pub server_of : Text → Option Text
server_of [] = none
server_of (c ∷ s) = if c == b':' then some s else server_of s

-- `serverMap[server]++`
unfoldable pub count_server : Option Text → Map ℕ → Map ℕ
unfolding lookup insert get_or
count_server none counts = counts
count_server (some server) counts = insert server (get_or (lookup server counts) 0 + 1) counts

unfoldable pub count_servers : List (Text × MemberInfo) → Map ℕ → Map ℕ
unfolding count_server server_of
count_servers [] counts = counts
count_servers (e ∷ es) counts = count_servers es (count_server (server_of e.1.mxid) counts)

-- `ServerUserCounts.Less`
unfoldable pub server_less : ServerUserCount → ServerUserCount → Bool
server_less a b =
    if eqb_ℤ a.num_users b.num_users
    then text_lt a.server_name b.server_name
    else ltb_ℤ b.num_users a.num_users

-- `RoomAliases.Less`
unfoldable pub aliases_less : RoomServerAliases → RoomServerAliases → Bool
aliases_less a b =
    let num_a = pos (length a.aliases) in
    let num_b = pos (length b.aliases) in
    if eqb_ℤ num_a num_b then text_lt a.server_name b.server_name else ltb_ℤ num_b num_a

-- The `Less` of the member list looks through the pointers.
abbrev pub pointer_less : Text × MemberInfo → Text × MemberInfo → Bool
pointer_less a b = member_less a.1 b.1

module _ (sorter : Sorter) where
  unfoldable pub server_counts : List (Text × MemberInfo) → List ServerUserCount
  unfolding count_servers server_less
  server_counts joined =
      sorter.sort ServerUserCount server_less
        (map (λ e. record { server_name = e.0; num_users = pos e.1 }) (count_servers joined []))

  -- `sort.Strings` sorts each list of the map in place.
  unfoldable pub sort_aliases : Map (List Text) → Map (List Text)
  sort_aliases = map (λ e. (e.0, sorter.sort Text text_lt e.1))

  unfoldable pub room_aliases_of : Map (List Text) → List RoomServerAliases
  unfolding aliases_less
  room_aliases_of m =
      sorter.sort RoomServerAliases aliases_less
        (map (λ e. record { server_name = e.0; aliases = e.1 }) m)

  unfoldable pub sorted_members : Map MemberInfo → List (Text × MemberInfo)
  unfolding is_join keep
  sorted_members m = sorter.sort (Text × MemberInfo) pointer_less (keep is_join m)

  unfoldable pub recalculate_member_list_and_servers : RoomState → RoomState
  unfolding set_power_levels server_counts sort_aliases room_aliases_of sorted_members is_join keep
  recalculate_member_list_and_servers rs =
      let m = set_power_levels rs.power_levels.users rs.member_map in
      let alias_map = sort_aliases rs.alias_map in
      record rs {
        member_map = m;
        server_list = server_counts (keep is_join m);
        member_list = map (λ e. e.0) (sorted_members m);
        alias_map = alias_map;
        aliases = room_aliases_of alias_map;
      }
