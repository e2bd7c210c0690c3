-- ===== src/Site.antt =====
-- src/github.com/t3chguy/matrix-static/matrix-static.go: the routes, as functions of the query to the
-- page that is written. Templates, headers and the page cache have no model; `none` is a panic.
pub mod Rooms
pub mod Errors
pub mod Answered
pub mod Lists
pub mod Chat
pub mod Reach
pub mod Index
pub mod Server
pub mod Links
pub mod Anchors
use matrix_static.Prelude.{
  ℕ, zero, suc, ◌+◌, ◌-◌, ◌*◌, ◌/◌, ◌%◌, ◌^◌, ◌≤◌, ◌<◌, ◌≡◌, refl, sym, ap, ap₂, ◌∙◌, subst, ◌≢◌,
  ◌↔◌, ◌⊎◌, inl, inr, Bool, true, false, not, ◌&&◌, ◌||◌, Option, none, some, List, [], ◌∷◌, ◌++◌,
  map, reverse, arith, ltb, leb, ◌==◌, if◌then◌else◌, ==_iff, Bool-cases, Option-cases, if_cases,
  ◌>>=◌, length, get_elem?, take, drop, last?, keep, All, length-append, length-take, length-drop,
  length-keep-le, take-append-drop, drop-drop, take-take_add, drop-append, keep-append, All-append,
  ℤ, pos, negsuc, pos_part, neg_part, sub_ℕ, ◌+ℤ◌, ◌-ℤ◌, ◌*ℤ◌, ◌≤ℤ◌, ◌<ℤ◌, ltb_ℤ, eqb_ℤ, eqb_ℤ_iff,
  IsInt64, wrap64, wrap64_of_IsInt64, wrap64-IsInt64, add64, sub64, mul64, neg64, Text, codes,
  text_eq, text_lt, text_eq_refl, text_eq_iff, text_lt_irrefl, text_lt_trans, text_lt_antisymm,
}
use matrix_static.Prelude.Maps.{Map}
use matrix_static.Gomatrix.{Event, Content, GoError, PublicRoomsChunk, Result, ok, err}
use matrix_static.Member.{MemberInfo}
use matrix_static.Sort.{Sorter}
use matrix_static.State.{PowerLevels}
use matrix_static.Timeline.{RoomInfo, RespInitialSync, Messages}
use matrix_static.Room.{EventPage}
use matrix_static.Utils.{str_to_int_default}
use matrix_static.PublicRooms.{WorldReadableRooms, get_page}
use matrix_static.Replies.{reverse_events_copy, unwrap_resp_error, text_for_resp_error}
use matrix_static.Worker.{
  Job, JobResp, room_initial_sync_job, room_servers_job, room_aliases_job, room_members_job,
  room_member_info_job, room_power_levels_job, room_events_job, room_forward_paginate_job,
  room_initial_sync_resp, room_servers_resp, room_aliases_resp, room_members_resp,
  room_member_info_resp, room_power_levels_resp, room_events_resp,
}
use matrix_static.Worker.Pool.{Workers, run_for_room, run_for_all}

abbrev pub public_rooms_page_size : ℤ
public_rooms_page_size = pos 20

abbrev pub room_timeline_size : ℤ
room_timeline_size = pos 30

abbrev pub room_members_page_size : ℤ
room_members_page_size = pos 20

abbrev pub room_servers_page_size : ℤ
room_servers_page_size = pos 30

abbrev pub room_aliases_page_size : ℤ
room_aliases_page_size = pos 10

-- `GetQuery` of the request, with its `ok`.
abbrev pub Query : Type 0
Query = Text → Option Text

unfoldable pub default_query : Query → Text → Text → Text
default_query query key def = elim (query key) [ none ↦ def | some value ↦ value ]

-- `templates.RoomChatPage`, but for the sanitizer and the address of the media repository, which are
-- the same on every page.
pub record ChatPage : Type 0 where
  pub room_info : RoomInfo
  pub member_map : Map MemberInfo
  pub events : List Event
  pub page_size : ℤ
  pub current_offset : ℤ
  pub anchor : Text
  pub at_top_end : Bool
  pub at_bottom_end : Bool
  pub highlight : Bool

-- What a route writes: a page, with what the template is given, or a redirect.
pub data Page : Type 0 where
  rooms_page : List PublicRoomsChunk → ℤ → ℤ → Page
  error_page : Text → Option Text → Option GoError → Page
  room_error_page : Text → RoomInfo → Page
  chat_page : ChatPage → Page
  list_page : JobResp → Page
  redirect : Text → Page

-- The route "/".
unfoldable pub index_route : WorldReadableRooms → Query → Option Page
unfolding default_query str_to_int_default get_page
index_route rooms query = do
  let page = str_to_int_default (default_query query (codes "page") (codes "1")) (pos 1)
  part ← get_page rooms page public_rooms_page_size
  some (rooms_page part public_rooms_page_size page)

pub record RespRoomDirectoryAlias : Type 0 where
  pub room_id : Text
  pub servers : List Text

-- The route "/alias/:roomAlias", with the answer of the homeserver; the answer `null`, which leaves
-- the pointer nil, is not among those of the parameter.
unfoldable pub alias_route : Result RespRoomDirectoryAlias → Page
alias_route (err e) = error_page (codes "Unable to resolve Room Alias.") none (some e)
alias_route (ok resp) =
    if text_eq resp.room_id []
    then error_page (codes "Unable to resolve Room Alias.") none none
    else redirect (codes "/room/" ++ (resp.room_id ++ codes "/"))

-- The route "/room/:roomID/$:eventID".
unfoldable pub event_route : Text → Text → Page
event_route room_id event_id =
    redirect
      (codes "/room/" ++ (room_id ++ (codes "/?anchor=$" ++ (event_id ++ codes "&highlight"))))

-- The letter of a generated avatar, before it is turned into a capital; `identifier[0]` panics on the
-- empty text. `decode_rune_in_string` is the one of package utf8, of which the first result counts.
unfoldable pub avatar_char : (Text → ℕ) → Text → Option ℕ
avatar_char decode_rune_in_string [] = none
avatar_char decode_rune_in_string (c ∷ []) = some (decode_rune_in_string (c ∷ []))
avatar_char decode_rune_in_string (c ∷ d ∷ identifier) = some (
    decode_rune_in_string
      (if c == b'#' || c == b'!' || c == b'@' then d ∷ identifier else c ∷ d ∷ identifier))

-- The routes below "/room/:roomID/".
pub data Route : Type 0 where
  chat servers_list aliases_list members_list power_levels : Route
  member_info : Text → Route

-- The job that a route sends.
unfoldable pub job_of : Route → Text → Query → Job
unfolding default_query str_to_int_default
job_of chat room_id query =
    room_events_job room_id (default_query query (codes "anchor") [])
      (str_to_int_default (default_query query (codes "offset") (codes "0")) (pos 0))
      room_timeline_size
job_of servers_list room_id query =
    room_servers_job room_id
      (str_to_int_default (default_query query (codes "page") (codes "1")) (pos 1))
      room_servers_page_size
job_of aliases_list room_id query =
    room_aliases_job room_id
      (str_to_int_default (default_query query (codes "page") (codes "1")) (pos 1))
      room_aliases_page_size
job_of members_list room_id query =
    room_members_job room_id
      (str_to_int_default (default_query query (codes "page") (codes "1")) (pos 1))
      room_members_page_size
job_of power_levels room_id query = room_power_levels_job room_id
job_of (member_info mxid) room_id query = room_member_info_job room_id mxid

-- The anchor of the links on a page: the one of the request, or else its newest event.
unfoldable pub page_anchor : Text → List Event → Text
page_anchor event_id [] = event_id
page_anchor event_id (event ∷ events) = if text_eq event_id [] then event.id else event_id

-- The rest of the route "/" of a room, after the answer.
unfoldable pub render_events : Query → RoomInfo → Map MemberInfo → EventPage → Option Page
unfolding default_query str_to_int_default page_anchor reverse_events_copy
render_events query info member_map page = elim page.err [
  | some e ↦ some (room_error_page (codes "Some error has occurred") info)
  | none ↦ do
    events ← reverse_events_copy page.events
    some (
        chat_page (record {
          room_info = info;
          member_map = member_map;
          events = events;
          page_size = room_timeline_size;
          current_offset =
              str_to_int_default (default_query query (codes "offset") (codes "0")) (pos 0);
          anchor = page_anchor (default_query query (codes "anchor") []) page.events;
          at_top_end = page.at_top_end;
          at_bottom_end = page.at_bottom_end;
          highlight = elim (query (codes "highlight")) [ none ↦ false | some _ ↦ true ];
        }))
]

-- What a route does with the answer: the type assertion, which panics if it fails, and the page.
unfoldable pub render : Route → Query → JobResp → Option Page
unfolding render_events
render chat query (room_events_resp info member_map page) = render_events query info member_map page
render servers_list query (room_servers_resp info part size page) =
    some (list_page (room_servers_resp info part size page))
render aliases_list query (room_aliases_resp info part size page) =
    some (list_page (room_aliases_resp info part size page))
render members_list query (room_members_resp info part size page) =
    some (list_page (room_members_resp info part size page))
render power_levels query (room_power_levels_resp info levels) =
    some (list_page (room_power_levels_resp info levels))
render (member_info mxid) query (room_member_info_resp info member e) =
    some (list_page (room_member_info_resp info member e))
render _ query resp = none

-- The page for a failed initial sync. The page of the last case is given the `err` of `main`, which is
-- nil there, and not the error of the response.
unfoldable pub sync_error_page : GoError → Page
unfolding unwrap_resp_error text_for_resp_error
sync_error_page e = elim (unwrap_resp_error e) [
  | some resp_err ↦
      error_page (codes "Unable to Join Room.") (some (text_for_resp_error resp_err)) none
  | none ↦ error_page (codes "Cannot Load Room. Internal Server Error.") none none
]

-- Whether the handlers before the route let the request through.
pub data Loaded : Type 0 where
  through : Loaded
  aborted : Page → Loaded

unfoldable pub after_sync : JobResp → Option Loaded
unfolding sync_error_page
after_sync (room_initial_sync_resp none) = some through
after_sync (room_initial_sync_resp (some e)) = some (aborted (sync_error_page e))
after_sync _ = none

module _ (hash : Text → ℕ) (sorter : Sorter) (unmarshal : Content → Option PowerLevels)
    (messages : Messages) (sync : Text → ℤ → Result RespInitialSync) where
  -- The handler that loads the room; `room_id[0]` panics on the empty id.
  unfoldable pub load_room : ℕ → Text → Workers → Option (Workers × Loaded)
  unfolding run_for_room after_sync
  load_room now [] ws = none
  load_room now (c ∷ room_id) ws =
      if c == b'!'
      then (do
        (ws', resp) ←
            run_for_room hash sorter unmarshal messages sync now (c ∷ room_id)
              (room_initial_sync_job (c ∷ room_id)) ws
        loaded ← after_sync resp
        some (ws', loaded))
      else some (
        ws,
        aborted (
            error_page (codes "Unable to Load Room.") (some (codes "Room ID must start with a '!'"))
              none),
      )

  -- A request for a room, no other one coming between its two jobs.
  unfoldable pub room_route : ℕ → Route → Text → Query → Workers → Option (Workers × Page)
  unfolding load_room run_for_room job_of render
  room_route now route room_id query ws = do
    (ws', loaded) ← load_room now room_id ws
    elim loaded [
      | aborted page ↦ some (ws', page)
      | through ↦ do
        (ws'', resp) ←
            run_for_room hash sorter unmarshal messages sync now room_id
              (job_of route room_id query) ws'
        page ← render route query resp
        some (ws'', page)
    ]

  -- One round of `startForwardPaginator`.
  unfoldable pub forward_paginate_all : ℕ → Workers → Option Workers
  unfolding run_for_all
  forward_paginate_all now ws = do
    workers ←
        run_for_all hash sorter unmarshal messages sync now room_forward_paginate_job ws.workers
    some (record ws { workers = workers })
