-- ===== src/State.antt =====
-- src/github.com/t3chguy/matrix-static/mxclient/room-state.go: what is known of a room's state, and
-- the two operations that change it. A `*MemberInfo` is named by the key under which `MemberMap`
-- holds it: an entry is created once for a key and never replaced or removed.
pub mod Update
pub mod Recalculate
pub mod Invariant
pub mod History
use matrix_static.Prelude.{
  ℕ, zero, suc, ◌+◌, ◌-◌, ◌*◌, ◌/◌, ◌%◌, ◌^◌, ◌≤◌, ◌<◌, ◌≡◌, refl, sym, ap, ap₂, ◌∙◌, subst, ◌≢◌,
  ◌↔◌, ◌⊎◌, inl, inr, Bool, true, false, not, ◌&&◌, ◌||◌, Option, none, some, List, [], ◌∷◌, ◌++◌,
  map, reverse, arith, ltb, leb, ◌==◌, if◌then◌else◌, ==_iff, Bool-cases, Option-cases, ◌>>=◌,
  length, get_elem?, take, drop, last?, keep, All, length-append, length-take, length-drop,
  length-keep-le, take-append-drop, drop-drop, take-take_add, drop-append, keep-append, All-append,
  ℤ, pos, negsuc, pos_part, neg_part, sub_ℕ, ◌+ℤ◌, ◌-ℤ◌, ◌*ℤ◌, ◌≤ℤ◌, ◌<ℤ◌, ltb_ℤ, eqb_ℤ, eqb_ℤ_iff,
  IsInt64, wrap64, wrap64_of_IsInt64, wrap64-IsInt64, add64, sub64, mul64, neg64, Text, codes,
  text_eq, text_lt, text_eq_refl, text_eq_iff, text_lt_irrefl, text_lt_trans, text_lt_antisymm,
}
use matrix_static.Prelude.Maps.{
  Map, lookup, insert, delete, keys, lookup-insert, lookup-insert_self,
}
use matrix_static.Gomatrix.{Json, Items, Event, Content}
use matrix_static.Member.{MxcUrl, PowerLevel, MemberInfo, zero_url, new_member_info, get_name}

pub record PowerLevels : Type 0 where
  pub ban : PowerLevel
  pub events : Map PowerLevel
  pub events_default : PowerLevel
  pub invite : PowerLevel
  pub kick : PowerLevel
  pub redact : PowerLevel
  pub state_default : PowerLevel
  pub users : Map PowerLevel
  pub users_default : PowerLevel

pub record ServerUserCount : Type 0 where
  pub server_name : Text
  pub num_users : ℤ

pub record RoomServerAliases : Type 0 where
  pub server_name : Text
  pub aliases : List Text

-- The part of `Client` that is no request.
pub record Client : Type 0 where
  pub media_base_url : Text

pub record RoomState : Type 0 where
  pub client : Client
  pub creator : Text
  pub topic : Text
  pub name : Text
  pub canonical_alias : Text
  pub avatar_url : MxcUrl
  pub alias_map : Map (List Text)
  pub aliases : List RoomServerAliases
  pub power_levels : PowerLevels
  pub server_list : List ServerUserCount
  pub member_list : List Text
  pub member_map : Map MemberInfo

abbrev pub zero_power_levels : PowerLevels
zero_power_levels = record {
  ban = pos 0;
  events = [];
  events_default = pos 0;
  invite = pos 0;
  kick = pos 0;
  redact = pos 0;
  state_default = pos 0;
  users = [];
  users_default = pos 0;
}

unfoldable pub new_room_state : Client → RoomState
new_room_state client = record {
  client = client;
  creator = [];
  topic = [];
  name = [];
  canonical_alias = [];
  avatar_url = zero_url;
  alias_map = [];
  aliases = [];
  power_levels = zero_power_levels;
  server_list = [];
  member_list = [];
  member_map = [];
}

unfoldable pub num_members : RoomState → ℕ
num_members rs = length rs.member_list

unfoldable pub get_num_member_events : RoomState → ℕ
get_num_member_events rs = length rs.member_map

-- `Members`: the pointers, and what they point to.
unfoldable pub members : RoomState → List Text
members rs = rs.member_list

unfoldable pub deref : Map MemberInfo → List Text → Option (List MemberInfo)
unfolding lookup
deref m [] = some []
deref m (k ∷ ks) = do info ← lookup k m; infos ← deref m ks; some (info ∷ infos)

unfoldable pub servers : RoomState → List ServerUserCount
servers rs = rs.server_list

unfoldable pub calculate_name : RoomState → Text
calculate_name rs =
    if text_eq rs.name []
    then (if text_eq rs.canonical_alias [] then codes "Empty Room" else rs.canonical_alias)
    else rs.name
