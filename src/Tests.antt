-- ===== src/Tests.antt =====
-- Data for the tests of the modules below: two users, four events, a room, and what a homeserver
-- might answer.
pub mod Paging
pub mod States
pub mod Timelines
pub mod Pages
pub mod Workers
pub mod Lists
pub mod Addresses
pub mod Sites
pub mod Channels
pub mod Configs
pub mod Servers
pub mod Links
use matrix_static.Prelude.{
  ℕ, zero, suc, ◌+◌, ◌-◌, ◌*◌, ◌/◌, ◌%◌, ◌^◌, ◌≤◌, ◌<◌, ◌≡◌, refl, sym, ap, ap₂, ◌∙◌, subst, ◌≢◌,
  ◌↔◌, ◌⊎◌, inl, inr, Bool, true, false, not, ◌&&◌, ◌||◌, Option, none, some, List, [], ◌∷◌, ◌++◌,
  map, reverse, arith, ltb, leb, ◌==◌, if◌then◌else◌, ==_iff, Bool-cases, Option-cases, if_cases,
  ◌>>=◌, length, get_elem?, take, drop, last?, keep, All, length-append, length-take, length-drop,
  length-keep-le, take-append-drop, drop-drop, take-take_add, drop-append, keep-append, All-append,
  ℤ, pos, negsuc, pos_part, neg_part, sub_ℕ, ◌+ℤ◌, ◌-ℤ◌, ◌*ℤ◌, ◌≤ℤ◌, ◌<ℤ◌, ltb_ℤ, eqb_ℤ, eqb_ℤ_iff,
  IsInt64, wrap64, wrap64_of_IsInt64, wrap64-IsInt64, add64, sub64, mul64, neg64, Text, codes,
  text_eq, text_lt, text_eq_refl, text_eq_iff, text_lt_irrefl, text_lt_trans, text_lt_antisymm,
}
use matrix_static.Prelude.Maps.{
  Map, lookup, insert, delete, keys, lookup-insert, lookup-insert_self,
}
use matrix_static.Gomatrix.{
  Json, str, Content, Event, RespMessages, Result, ok, err, GoError, other, PublicRoomsChunk,
}
use matrix_static.Member.{MemberInfo, MxcUrl, zero_url, new_member_info}
use matrix_static.State.{
  PowerLevels, RoomState, Client, ServerUserCount, zero_power_levels, new_room_state,
}
use matrix_static.Timeline.{Room, Messages, Direction, backward, forward, RespInitialSync}

abbrev pub no_levels : Content → Option PowerLevels
no_levels content = none

abbrev pub client : Client
client = record { media_base_url = codes "https://h" }

abbrev pub alice : MemberInfo
alice = record {
  mxid = codes "@a:x";
  membership = codes "join";
  display_name = codes "Alice";
  avatar_url = zero_url;
  power_level = pos 0;
}

abbrev pub bob : MemberInfo
bob = record {
  mxid = codes "@b:y";
  membership = codes "join";
  display_name = [];
  avatar_url = zero_url;
  power_level = pos 0;
}

abbrev pub message : Text → Event
message id = record {
  state_key = none;
  sender = codes "@a:x";
  type = codes "m.room.message";
  timestamp = pos 0;
  id = id;
  room_id = codes "!r";
  content = [];
  prev_content = [];
}

-- A join, and a change of the canonical alias.
abbrev pub join : Event
join = record {
  state_key = some (codes "@b:y");
  sender = codes "@b:y";
  type = codes "m.room.member";
  timestamp = pos 0;
  id = codes "$j";
  room_id = codes "!r";
  content = (codes "membership", str (codes "join")) ∷ [];
  prev_content = [];
}

abbrev pub new_alias : Event
new_alias = record {
  state_key = some [];
  sender = codes "@a:x";
  type = codes "m.room.canonical_alias";
  timestamp = pos 0;
  id = codes "$c";
  room_id = codes "!r";
  content = (codes "alias", str (codes "#new")) ∷ [];
  prev_content = [];
}

abbrev pub levels : PowerLevels
levels = record zero_power_levels { users = (codes "@b:y", pos 100) ∷ [] }

abbrev pub state : RoomState
state = record {
  client = client;
  creator = [];
  topic = [];
  name = [];
  canonical_alias = codes "#old";
  avatar_url = zero_url;
  alias_map = [];
  aliases = [];
  power_levels = levels;
  server_list = record { server_name = codes "x"; num_users = pos 1 } ∷ [];
  member_list = codes "@a:x" ∷ [];
  member_map = (codes "@a:x", alice) ∷ [];
}

abbrev pub room : Room
room = record {
  client = client;
  id = codes "!r";
  back_pagination_token = codes "b";
  forward_pagination_token = codes "f";
  event_list = message (codes "$2") ∷ message (codes "$1") ∷ [];
  latest_room_state = state;
  has_reached_historic_end_of_timeline = false;
  last_access = 0;
}

abbrev pub ended_room : Room
ended_room = record room { has_reached_historic_end_of_timeline = true }

abbrev pub older_events : RespMessages
older_events = record {
  start = codes "b";
  chunk = new_alias ∷ message (codes "$0") ∷ [];
  end_token = codes "e";
}

abbrev pub newer_events : RespMessages
newer_events = record {
  start = codes "f";
  chunk = join ∷ new_alias ∷ message (codes "$3") ∷ [];
  end_token = codes "g";
}

abbrev pub homeserver : Messages
homeserver id token backward limit = ok older_events
homeserver id token forward limit = ok newer_events

abbrev pub initial : RespInitialSync
initial = record { messages = newer_events; state = join ∷ [] }

abbrev pub sync_with : Text → ℤ → Result RespInitialSync
sync_with id limit = ok initial
