-- ===== src/Timeline.antt =====
-- src/github.com/t3chguy/matrix-static/mxclient/room.go, `ShouldHideEvent` of utils.go, and the
-- paginations of mxclient.go: how the timeline of a room, newest event first, is loaded.
pub mod Concat
pub mod Stale
pub mod History
pub mod Invariant
use matrix_static.Prelude.{
  ℕ, zero, suc, ◌+◌, ◌-◌, ◌*◌, ◌/◌, ◌%◌, ◌^◌, ◌≤◌, ◌<◌, ◌≡◌, refl, sym, ap, ap₂, ◌∙◌, subst, ◌≢◌,
  ◌↔◌, ◌⊎◌, inl, inr, Bool, true, false, not, ◌&&◌, ◌||◌, Option, none, some, List, [], ◌∷◌, ◌++◌,
  map, reverse, arith, ltb, leb, ◌==◌, if◌then◌else◌, ==_iff, Bool-cases, Option-cases, ◌>>=◌,
  length, get_elem?, take, drop, last?, keep, All, length-append, length-take, length-drop,
  length-keep-le, take-append-drop, drop-drop, take-take_add, drop-append, keep-append, All-append,
  ℤ, pos, negsuc, pos_part, neg_part, sub_ℕ, ◌+ℤ◌, ◌-ℤ◌, ◌*ℤ◌, ◌≤ℤ◌, ◌<ℤ◌, ltb_ℤ, eqb_ℤ, eqb_ℤ_iff,
  IsInt64, wrap64, wrap64_of_IsInt64, wrap64-IsInt64, add64, sub64, mul64, neg64, Text, codes,
  text_eq, text_lt, text_eq_refl, text_eq_iff, text_lt_irrefl, text_lt_trans, text_lt_antisymm,
}
use matrix_static.Gomatrix.{Event, Content, RespMessages, GoError, Result, ok, err}
use matrix_static.Member.{MxcUrl}
use matrix_static.Sort.{Sorter}
use matrix_static.State.{
  PowerLevels, RoomState, Client, new_room_state, calculate_name, num_members,
  get_num_member_events, servers,
}
use matrix_static.State.Update.{update_on_event}
use matrix_static.State.Recalculate.{recalculate_member_list_and_servers}
use matrix_static.Utils.{min_int, max_int, bound, go_slice}

-- The state events that the timeline shows.
is_shown_state_type : Text → Bool
is_shown_state_type t =
    text_eq t (codes "m.room.history_visibility")
    || text_eq t (codes "m.room.join_rules")
    || text_eq t (codes "m.room.member")
    || text_eq t (codes "m.room.power_levels")
    || text_eq t (codes "m.room.name")
    || text_eq t (codes "m.room.topic")
    || text_eq t (codes "m.room.avatar")

-- Whether an event is hidden, by its state key and its type.
unfoldable pub should_hide : Option Text → Text → Bool
unfolding is_shown_state_type
should_hide none t = if text_eq t (codes "m.room.message") then false else true
should_hide (some key) t =
    if is_shown_state_type t
    then false
    else if text_eq t (codes "im.vector.modular.widgets")
    then false
    else true

unfoldable pub should_hide_event : Event → Bool
unfolding should_hide
should_hide_event ev = should_hide ev.state_key ev.type

pub data Direction : Type 0 where
  backward forward : Direction

-- `Messages(roomID, from, "", dir, limit)` of the homeserver.
abbrev pub Messages : Type 0
Messages = Text → Text → Direction → ℤ → Result RespMessages

pub record RespInitialSync : Type 0 where
  pub messages : RespMessages
  pub state : List Event

pub record RoomInfo : Type 0 where
  pub room_id : Text
  pub name : Text
  pub canonical_alias : Text
  pub topic : Text
  pub avatar_url : MxcUrl
  pub num_member_events : ℕ
  pub num_members : ℕ
  pub num_servers : ℕ

pub record Room : Type 0 where
  pub client : Client
  pub id : Text
  pub back_pagination_token : Text
  pub forward_pagination_token : Text
  pub event_list : List Event
  pub latest_room_state : RoomState
  pub has_reached_historic_end_of_timeline : Bool
  pub last_access : ℕ

-- `Access`, at the time `now`
unfoldable pub access : ℕ → Room → Room
access now r = record r { last_access = now }

abbrev pub minimum_pagination : ℤ
minimum_pagination = pos 64

abbrev pub overcompensate_backpagination_by : ℤ
overcompensate_backpagination_by = pos 32

abbrev pub room_initial_sync_limit : ℤ
room_initial_sync_limit = pos 256

-- The loop of `concatBackpagination`.
unfoldable pub append_shown : List Event → List Event → List Event
unfolding should_hide_event
append_shown [] event_list = event_list
append_shown (event ∷ events) event_list =
    append_shown events (if should_hide_event event then event_list else event_list ++ event ∷ [])

-- The loop of `NewRoom` over the messages.
unfoldable pub prepend_shown : List Event → List Event → List Event
unfolding should_hide_event
prepend_shown [] event_list = event_list
prepend_shown (event ∷ events) event_list =
    prepend_shown events (if should_hide_event event then event_list else event ∷ event_list)

unfoldable pub room_info : Room → RoomInfo
unfolding calculate_name num_members get_num_member_events servers
room_info r = record {
  room_id = r.id;
  name = calculate_name r.latest_room_state;
  canonical_alias = r.latest_room_state.canonical_alias;
  topic = r.latest_room_state.topic;
  avatar_url = r.latest_room_state.avatar_url;
  num_member_events = get_num_member_events r.latest_room_state;
  num_members = num_members r.latest_room_state;
  num_servers = length (servers r.latest_room_state);
}

module _ (sorter : Sorter) (unmarshal : Content → Option PowerLevels) where
  -- The loop of `concatForwardPagination`: state and timeline, event by event.
  unfoldable pub forward_events : List Event → RoomState → List Event → RoomState × List Event
  unfolding should_hide_event update_on_event
  forward_events [] rs event_list = (rs, event_list)
  forward_events (event ∷ events) rs event_list = elim (should_hide_event event) [
    | true ↦ forward_events events rs event_list
    | false ↦ forward_events events (update_on_event unmarshal event false rs) (event ∷ event_list)
  ]

  unfoldable pub concat_forward_pagination : List Event → Text → Room → Room
  unfolding forward_events recalculate_member_list_and_servers
  concat_forward_pagination new_events new_token r =
      let (rs, event_list) = forward_events new_events r.latest_room_state r.event_list in
      record r {
        event_list = event_list;
        forward_pagination_token = new_token;
        latest_room_state = recalculate_member_list_and_servers sorter rs;
      }

  unfoldable pub concat_backpagination : List Event → Text → Room → Room
  unfolding append_shown recalculate_member_list_and_servers
  concat_backpagination old_events new_token r = record r {
    event_list = append_shown old_events r.event_list;
    back_pagination_token = new_token;
    latest_room_state = recalculate_member_list_and_servers sorter r.latest_room_state;
  }

  -- The loop of `NewRoom` over the state.
  unfoldable pub initial_state : List Event → RoomState → RoomState
  unfolding update_on_event
  initial_state [] rs = rs
  initial_state (event ∷ events) rs = initial_state events (update_on_event unmarshal event true rs)

  -- The room that `NewRoom` makes of a response.
  unfoldable pub synced_room : Client → Text → ℕ → RespInitialSync → Room
  unfolding prepend_shown initial_state recalculate_member_list_and_servers new_room_state
  synced_room client room_id now resp = record {
    client = client;
    id = room_id;
    back_pagination_token = resp.messages.start;
    forward_pagination_token = resp.messages.end_token;
    event_list = prepend_shown resp.messages.chunk [];
    latest_room_state =
        recalculate_member_list_and_servers sorter
          (initial_state resp.state (new_room_state client));
    has_reached_historic_end_of_timeline = false;
    last_access = now;
  }

  -- `NewRoom`; `sync` is `RoomInitialSync`, with the limit. The answers of `sync` and `messages` are an
  -- error or a value: the nil pointer that the JSON value `null` leaves, at which the code panics, is
  -- not among them.
  unfoldable pub new_room : (Text → ℤ → Result RespInitialSync) → Client → Text → ℕ → Result Room
  unfolding synced_room
  new_room sync client room_id now = elim (sync room_id room_initial_sync_limit) [
    | err e ↦ err e
    | ok resp ↦ ok (synced_room client room_id now resp)
  ]

  module _ (messages : Messages) where
    -- `backpaginateRoom`: the room, the number of events and the error, if any.
    unfoldable pub backpaginate_room : Room → ℤ → Room × ℤ × Option GoError
    unfolding max_int concat_backpagination
    backpaginate_room room amount =
        let resp =
          messages room.id room.back_pagination_token backward
            (max_int amount minimum_pagination) in
        elim resp [
          | err e ↦ (room, negsuc 0, some e)
          | ok resp ↦
              (concat_backpagination resp.chunk resp.end_token room, pos (length resp.chunk), none)
        ]

    unfoldable pub forwardpaginate_room : Room → ℤ → Room × ℤ × Option GoError
    unfolding max_int concat_forward_pagination
    forwardpaginate_room room amount =
        let resp =
          messages room.id room.forward_pagination_token forward
            (max_int amount minimum_pagination) in
        elim resp [
          | err e ↦ (room, negsuc 0, some e)
          | ok resp ↦ (
            concat_forward_pagination resp.chunk resp.end_token room,
            pos (length resp.chunk),
            none,
          )
        ]

    -- `ForwardPaginateRoom`
    unfoldable pub forward_paginate_room : Room → Room
    unfolding forwardpaginate_room
    forward_paginate_room r = (forwardpaginate_room r (pos 0)).0
