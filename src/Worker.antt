-- ===== src/Worker.antt =====
-- src/github.com/t3chguy/matrix-static/job-room-*.go and the Worker of workers.go: one job at a time on
-- the rooms that a worker holds. The log lines have no model.
pub mod Rooms
pub mod Serving
pub mod Pages
pub mod Members
pub mod Discard
pub mod Fresh
pub mod Pool
pub mod Answers
pub mod Channels
use matrix_static.Prelude.{
  ℕ, zero, suc, ◌+◌, ◌-◌, ◌*◌, ◌/◌, ◌%◌, ◌^◌, ◌≤◌, ◌<◌, ◌≡◌, refl, sym, ap, ap₂, ◌∙◌, subst, ◌≢◌,
  ◌↔◌, ◌⊎◌, inl, inr, Bool, true, false, not, ◌&&◌, ◌||◌, Option, none, some, List, [], ◌∷◌, ◌++◌,
  map, reverse, arith, ltb, leb, ◌==◌, if◌then◌else◌, ==_iff, Bool-cases, Option-cases, if_cases,
  ◌>>=◌, length, get_elem?, take, drop, last?, keep, All, length-append, length-take, length-drop,
  length-keep-le, take-append-drop, drop-drop, take-take_add, drop-append, keep-append, All-append,
  ℤ, pos, negsuc, pos_part, neg_part, sub_ℕ, ◌+ℤ◌, ◌-ℤ◌, ◌*ℤ◌, ◌≤ℤ◌, ◌<ℤ◌, ltb_ℤ, eqb_ℤ, eqb_ℤ_iff,
  IsInt64, wrap64, wrap64_of_IsInt64, wrap64-IsInt64, add64, sub64, mul64, neg64, Text, codes,
  text_eq, text_lt, text_eq_refl, text_eq_iff, text_lt_irrefl, text_lt_trans, text_lt_antisymm,
}
use matrix_static.Prelude.Maps.{
  Map, lookup, insert, delete, keys, lookup-insert, lookup-insert_self,
}
use matrix_static.Gomatrix.{Event, Content, GoError, Result, ok, err}
use matrix_static.Sort.{Sorter}
use matrix_static.Member.{MemberInfo}
use matrix_static.State.{
  PowerLevels, ServerUserCount, RoomServerAliases, RoomState, Client, servers, members, deref,
}
use matrix_static.Timeline.{
  Room, RoomInfo, RespInitialSync, Messages, access, new_room, forward_paginate_room, room_info,
}
use matrix_static.Room.{EventPage, get_event_page}
use matrix_static.Utils.{page_of}

-- The channels of a worker are not part of its state here: a job is run to its response.
pub record Worker : Type 0 where
  pub id : ℕ
  pub client : Client
  pub rooms : Map Room

-- `RoomMemberNotFoundError`
pub record RoomMemberNotFoundError : Type 0 where
  pub room_id : Text
  pub mxid : Text

pub data Job : Type 0 where
  room_initial_sync_job : Text → Job
  room_servers_job room_aliases_job room_members_job : Text → ℤ → ℤ → Job
  room_member_info_job : Text → Text → Job
  room_power_levels_job : Text → Job
  room_events_job : Text → Text → ℤ → ℤ → Job
  room_forward_paginate_job : Job

-- What the job sends on `Output`; `done` is the `Done` of the wait group.
pub data JobResp : Type 0 where
  room_initial_sync_resp : Option GoError → JobResp
  room_servers_resp : RoomInfo → List ServerUserCount → ℤ → ℤ → JobResp
  room_aliases_resp : RoomInfo → List RoomServerAliases → ℤ → ℤ → JobResp
  room_members_resp : RoomInfo → List MemberInfo → ℤ → ℤ → JobResp
  room_member_info_resp : RoomInfo → Option MemberInfo → Option RoomMemberNotFoundError → JobResp
  room_power_levels_resp : RoomInfo → PowerLevels → JobResp
  room_events_resp : RoomInfo → Map MemberInfo → EventPage → JobResp
  done : JobResp

-- `Error` of `RoomMemberNotFoundError`
unfoldable pub member_not_found_text : RoomMemberNotFoundError → Text
member_not_found_text e =
    codes "Member " ++ e.mxid ++ codes " not found in " ++ e.room_id ++ codes "."

-- `LastAccessDiscardDuration`, in nanoseconds
abbrev pub last_access_discard_duration : ℕ
last_access_discard_duration = 30 * 60 * 1000000000

-- `room.LastAccess.Before(time.Now().Add(-LastAccessDiscardDuration))`
unfoldable pub is_stale : ℕ → Room → Bool
is_stale now room = ltb (room.last_access + last_access_discard_duration) now

-- The loop that discards rooms.
unfoldable pub discard : ℕ → Map Room → Map Room
unfolding is_stale
discard now [] = []
discard now ((id, room) ∷ rooms) =
    if is_stale now room then discard now rooms else (id, room) ∷ discard now rooms

module _ (now : ℕ) where
  -- What the jobs on one room have in common: `w.rooms[job.roomID]`, whose nil panics on its first
  -- use, the response, and `Access`.
  unfoldable pub serve :
      Text → (Room → Option (Room × JobResp)) → Worker → Option (Worker × JobResp)
  unfolding access
  serve room_id body w = do
    room ← lookup room_id w.rooms
    (room', resp) ← body room
    some (record w { rooms = insert room_id (access now room') w.rooms }, resp)

unfoldable pub answer_servers : ℤ → ℤ → Room → Option (Room × JobResp)
unfolding servers page_of room_info
answer_servers page page_size room = do
  part ← page_of (servers room.latest_room_state) page page_size
  some (room, room_servers_resp (room_info room) part page_size page)

unfoldable pub answer_aliases : ℤ → ℤ → Room → Option (Room × JobResp)
unfolding page_of room_info
answer_aliases page page_size room = do
  part ← page_of room.latest_room_state.aliases page page_size
  some (room, room_aliases_resp (room_info room) part page_size page)

-- A nil pointer in the page would panic.
unfoldable pub answer_members : ℤ → ℤ → Room → Option (Room × JobResp)
unfolding members deref page_of room_info
answer_members page page_size room = do
  part ← page_of (members room.latest_room_state) page page_size
  infos ← deref room.latest_room_state.member_map part
  some (room, room_members_resp (room_info room) infos page_size page)

unfoldable pub answer_member_info : Text → Text → Room → Option (Room × JobResp)
unfolding lookup room_info
answer_member_info room_id mxid room = elim (lookup mxid room.latest_room_state.member_map) [
  | none ↦ some (
    room,
    room_member_info_resp (room_info room) none (some (record { room_id = room_id; mxid = mxid })),
  )
  | some member ↦ some (room, room_member_info_resp (room_info room) (some member) none)
]

unfoldable pub answer_power_levels : Room → Option (Room × JobResp)
unfolding room_info
answer_power_levels room =
    some (room, room_power_levels_resp (room_info room) room.latest_room_state.power_levels)

module _ (sorter : Sorter) (unmarshal : Content → Option PowerLevels) (messages : Messages) where
  unfoldable pub answer_events : Text → ℤ → ℤ → Room → Option (Room × JobResp)
  unfolding get_event_page room_info
  answer_events anchor offset page_size room = do
    (room', page) ← get_event_page sorter unmarshal messages room anchor offset page_size
    some (room', room_events_resp (room_info room') room'.latest_room_state.member_map page)

  -- The loop that asks for the new events of every room.
  unfoldable pub forward_paginate_rooms : Map Room → Map Room
  unfolding forward_paginate_room
  forward_paginate_rooms [] = []
  forward_paginate_rooms ((id, room) ∷ rooms) =
      (id, forward_paginate_room sorter unmarshal messages room) ∷ forward_paginate_rooms rooms

  module _ (sync : Text → ℤ → Result RespInitialSync) where
    unfoldable pub initial_sync : ℕ → Text → Worker → Worker × JobResp
    unfolding lookup insert new_room
    initial_sync now room_id w = elim (lookup room_id w.rooms) [
      | some room ↦ (w, room_initial_sync_resp none)
      | none ↦ elim (new_room sorter unmarshal sync w.client room_id now) [
        | ok room ↦ (record w { rooms = insert room_id room w.rooms }, room_initial_sync_resp none)
        | err e ↦ (w, room_initial_sync_resp (some e))
      ]
    ]

    -- `Work` of every job, at the time `now`; `none` is a run-time panic.
    unfoldable pub work : ℕ → Job → Worker → Option (Worker × JobResp)
    unfolding serve answer_servers answer_aliases answer_members answer_member_info
        answer_power_levels answer_events forward_paginate_rooms discard initial_sync
    work now (room_initial_sync_job room_id) w = some (initial_sync now room_id w)
    work now (room_servers_job room_id page page_size) w =
        serve now room_id (answer_servers page page_size) w
    work now (room_aliases_job room_id page page_size) w =
        serve now room_id (answer_aliases page page_size) w
    work now (room_members_job room_id page page_size) w =
        serve now room_id (answer_members page page_size) w
    work now (room_member_info_job room_id mxid) w =
        serve now room_id (answer_member_info room_id mxid) w
    work now (room_power_levels_job room_id) w = serve now room_id answer_power_levels w
    work now (room_events_job room_id anchor offset page_size) w =
        serve now room_id (answer_events anchor offset page_size) w
    work now room_forward_paginate_job w =
        some (record w { rooms = forward_paginate_rooms (discard now w.rooms) }, done)
