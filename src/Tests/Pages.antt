-- ===== src/Tests/Pages.antt =====
-- Requests for pages of the timeline.
use matrix_static.Prelude.{
  ◌+◌, ◌^◌, ◌<◌, ◌≡◌, refl, none, some, List, ◌++◌, arith, length, take, drop, pos, codes, text_eq,
}
use matrix_static.Gomatrix.{Event}
use matrix_static.Sort.Insertion.{insertion_sorter}
use matrix_static.Timeline.{Room, concat_forward_pagination}
use matrix_static.Room.{EventPage, get_event_page, index_from, backpaginate_if_needed}
use matrix_static.Room.Pages.{anchor_index, backpaginated, get_event_page-older}
use matrix_static.Room.Pages.Anchors.{get_event_page-forward}
use matrix_static.Tests.{no_levels, room, ended_room, newer_events, homeserver}

found : anchor_index room (codes "$1") ≡ some 1
unfolding anchor_index index_from text_eq
found = refl

three_events :
    length (backpaginated insertion_sorter no_levels homeserver room 1 0 2).event_list + 2 < 2 ^ 63
unfolding backpaginate_if_needed text_eq
three_events = omega arith

get_event_page-older_example :
    (r' : Room) × (page : EventPage) × (get_event_page insertion_sorter no_levels homeserver room
        (codes "$1")
        (pos 0)
        (pos 2)
      ≡ some (r', page))
    × (page.events ≡ take 2 (drop 1 r'.event_list))
    × (page.err ≡ none)
    × ((older : List Event) × (r'.event_list ≡ room.event_list ++ older))
get_event_page-older_example =
    get_event_page-older insertion_sorter no_levels homeserver room (codes "$1") 1 0 2 found
      (omega arith) three_events

found_at_end : anchor_index ended_room (codes "$1") ≡ some 1
unfolding anchor_index index_from text_eq
found_at_end = refl

get_event_page-forward_example :
    (before : EventPage) × (after : EventPage) × (get_event_page insertion_sorter no_levels
        homeserver ended_room
        (codes "$1")
        (pos 0)
        (pos 2)
      ≡ some (ended_room, before))
    × (get_event_page insertion_sorter no_levels homeserver
          (concat_forward_pagination insertion_sorter no_levels newer_events.chunk
            (codes "g")
            ended_room)
          (codes "$1")
          (pos 0)
          (pos 2)
        ≡ some (
          concat_forward_pagination insertion_sorter no_levels newer_events.chunk
              (codes "g")
              ended_room,
          after,
        ))
    × (after.events ≡ before.events)
unfolding text_eq
get_event_page-forward_example =
    get_event_page-forward insertion_sorter no_levels homeserver newer_events.chunk (codes "g")
      ended_room (codes "$1") 1 0 2 refl (refl, (refl, (refl, tt))) refl found_at_end (omega arith)
      (omega arith)
