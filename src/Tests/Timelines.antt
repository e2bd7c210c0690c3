-- ===== src/Tests/Timelines.antt =====
-- Runs of the timeline of a room.
use matrix_static.Prelude.{◌≡◌, refl, ◌++◌, reverse, codes, text_eq}
use matrix_static.Sort.Insertion.{insertion_sorter}
use matrix_static.State.Recalculate.{recalculate_member_list_and_servers, sort_aliases}
use matrix_static.Timeline.{concat_forward_pagination, should_hide_event}
use matrix_static.Timeline.Concat.{shown, state_after, concat_forward_pagination-eq}
use matrix_static.Timeline.Invariant.{IsLoaded}
use matrix_static.Timeline.Stale.{concat_forward_pagination-stale}
use matrix_static.Tests.States.{state-IsValid}
use matrix_static.Tests.{no_levels, client, state, room, newer_events, initial}
use mathlib.Core.List.{Mem}
use matrix_static.Prelude.{◌↔◌, true, false, none, some}
use matrix_static.State.{new_room_state, members}
use matrix_static.State.History.{summary, summary_after}
use matrix_static.State.History.Membership.{membership, membership_after}
use matrix_static.Timeline.{synced_room}
use matrix_static.Timeline.History.{synced_room-refines, concat_forward_pagination-refines}

pub room-IsLoaded : IsLoaded room
unfolding should_hide_event text_eq
room-IsLoaded = record { state = state-IsValid; timeline = (refl, (refl, tt)) }

concat_forward_pagination-eq_example :
    concat_forward_pagination insertion_sorter no_levels newer_events.chunk (codes "g") room
    ≡ record room {
      event_list = reverse (shown newer_events.chunk) ++ room.event_list;
      forward_pagination_token = codes "g";
      latest_room_state =
          recalculate_member_list_and_servers insertion_sorter
            (state_after no_levels (shown newer_events.chunk) state);
    }
concat_forward_pagination-eq_example =
    concat_forward_pagination-eq insertion_sorter no_levels newer_events.chunk (codes "g") room

concat_forward_pagination-stale_example :
    ((concat_forward_pagination insertion_sorter no_levels newer_events.chunk
        (codes "g")
        room).latest_room_state.creator
      ≡ state.creator)
    × ((concat_forward_pagination insertion_sorter no_levels newer_events.chunk
          (codes "g")
          room).latest_room_state.canonical_alias
        ≡ codes "#old")
    × ((concat_forward_pagination insertion_sorter no_levels newer_events.chunk
          (codes "g")
          room).latest_room_state.alias_map
        ≡ sort_aliases insertion_sorter state.alias_map)
concat_forward_pagination-stale_example =
    concat_forward_pagination-stale no_levels insertion_sorter newer_events.chunk (codes "g") room

synced_room-refines_example :
    (summary
        (synced_room insertion_sorter no_levels client (codes "!r") 0 initial).latest_room_state
      ≡ summary_after no_levels initial.state (summary (new_room_state client)))
    × (Mem (codes "@b:y") (
          members
            (synced_room insertion_sorter no_levels client
              (codes "!r")
              0
              initial).latest_room_state)
        ↔ (membership_after true (codes "@b:y") initial.state none ≡ some (codes "join")))
synced_room-refines_example =
    synced_room-refines insertion_sorter no_levels client (codes "!r") 0 initial (codes "@b:y")

concat_forward_pagination-refines_example :
    (summary
        (concat_forward_pagination insertion_sorter no_levels newer_events.chunk
          (codes "g")
          room).latest_room_state
      ≡ summary_after no_levels (shown newer_events.chunk) (summary state))
    × (Mem (codes "@b:y") (
          members
            (concat_forward_pagination insertion_sorter no_levels newer_events.chunk
              (codes "g")
              room).latest_room_state)
        ↔ (membership_after false
              (codes "@b:y")
              (shown newer_events.chunk)
              (membership (codes "@b:y") state)
            ≡ some (codes "join")))
concat_forward_pagination-refines_example =
    concat_forward_pagination-refines insertion_sorter no_levels newer_events.chunk (codes "g") room
      (codes "@b:y") state-IsValid
