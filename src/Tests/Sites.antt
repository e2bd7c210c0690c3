-- ===== src/Tests/Sites.antt =====
-- Requests for a room that one of two workers holds, and for a room that cannot be synced.
use matrix_static.Prelude.{
  ◌*◌, ◌≡◌, refl, none, some, List, [], ◌∷◌, map, arith, if◌then◌else◌, length, take, drop, ℤ, pos,
  Text, codes, text_eq,
}
use matrix_static.Prelude.Maps.{lookup, insert}
use matrix_static.Gomatrix.{other, Result, err}
use matrix_static.Member.{MemberInfo}
use matrix_static.Sort.Insertion.{insertion_sorter}
use matrix_static.State.{members}
use matrix_static.Timeline.{RespInitialSync, access, room_info}
use matrix_static.Utils.Itoa.{itoa, str_to_int_default-itoa}
use matrix_static.Utils.{str_to_int_default}
use matrix_static.Worker.{room_members_resp}
use matrix_static.Worker.Pool.{Workers, new_worker, mod32, get_worker_for_room_id, set_worker}
use matrix_static.Site.{
  Query, Page, members_list, power_levels, list_page, job_of, render, room_route,
}
use matrix_static.Site.Rooms.{room_route-held}
use matrix_static.Site.Errors.{refusal_page, room_route-failed_sync}
use matrix_static.Site.Lists.{members_route-page}
use matrix_static.Tests.{no_levels, client, state, room, homeserver, sync_with}
use matrix_static.Tests.Workers.{
  worker, worker-IsServing, hash, room_found, served, power_levels_resp, power_levels_worked,
}
use matrix_static.Gomatrix.{Event}
use matrix_static.Timeline.{Room}
use matrix_static.Room.{index_from, backpaginate_if_needed}
use matrix_static.Room.Pages.{anchor_index, backpaginated}
use matrix_static.Site.{ChatPage, chat, chat_page, room_error_page, default_query}
use matrix_static.Site.Anchors.{chat_route-page_anchor}
use matrix_static.Room.Walk.Ends.{HasUniqueIds}
use matrix_static.Prelude.{All, false}
use matrix_static.Site.Chat.{chat_route-not_found}

abbrev pool : Workers
pool = record { num_workers = 2; workers = worker ∷ new_worker 1 client ∷ [] }

chosen : get_worker_for_room_id hash (codes "!r") pool ≡ some (0, worker)
unfolding get_worker_for_room_id mod32
chosen = refl

abbrev pub no_query : Query
no_query key = none

-- "?page=1"
abbrev first_page : Query
first_page key = if text_eq key (codes "page") then some (itoa (pos 1)) else none

first_page_asked : first_page (codes "page") ≡ some (itoa (pos 1))
unfolding text_eq
first_page_asked = refl

abbrev pub refuse : Text → ℤ → Result RespInitialSync
refuse id limit = err (other (codes "refused"))

room_route-held_example :
    (page : Page) × (render power_levels no_query power_levels_resp ≡ some page)
    × (room_route hash insertion_sorter no_levels homeserver sync_with 7 power_levels
          (codes "!r")
          no_query
          pool
        ≡ some (record pool { workers = set_worker pool.workers 0 served }, page))
unfolding job_of
room_route-held_example =
    room_route-held hash insertion_sorter no_levels homeserver sync_with 7 power_levels (codes "!r")
      no_query pool 0 worker served room power_levels_resp refl chosen room_found worker-IsServing
      power_levels_worked

chosen_empty : get_worker_for_room_id hash (codes "!rs") pool ≡ some (1, new_worker 1 client)
unfolding get_worker_for_room_id mod32
chosen_empty = refl

no_room : lookup (codes "!rs") (new_worker 1 client).rooms ≡ none
unfolding new_worker lookup
no_room = refl

room_route-failed_sync_example :
    room_route hash insertion_sorter no_levels homeserver refuse 7 power_levels
      (codes "!rs")
      no_query
      pool
    ≡ some (pool, refusal_page (other (codes "refused")))
room_route-failed_sync_example =
    room_route-failed_sync hash insertion_sorter no_levels homeserver refuse 7 power_levels
      (codes "!rs") no_query pool 1 (new_worker 1 client) (other (codes "refused")) refl
      chosen_empty no_room refl

abbrev pool_after : Workers
pool_after = record pool {
  workers =
      set_worker pool.workers 0
        (record worker { rooms = insert (codes "!r") (access 7 room) worker.rooms });
}

members_route-page_example :
    (infos : List MemberInfo) × (map (λ i. i.mxid) infos ≡ take 20 (drop (0 * 20) (members state)))
    × (room_route hash insertion_sorter no_levels homeserver sync_with 7 members_list
          (codes "!r")
          first_page
          pool
        ≡ some (pool_after, list_page (room_members_resp (room_info room) infos (pos 20) (pos 1))))
unfolding members
members_route-page_example =
    members_route-page hash insertion_sorter no_levels homeserver sync_with 7 (codes "!r")
      first_page 0 pool 0 worker room refl chosen room_found worker-IsServing (omega arith)
      first_page_asked (omega arith)

str_to_int_default-itoa_example : str_to_int_default (itoa (pos 120)) (pos 1) ≡ pos 120
str_to_int_default-itoa_example = str_to_int_default-itoa 120 (pos 1) (omega arith)

-- "?anchor=<event>&offset=0"
abbrev at_event : Text → Query
at_event event_id key =
    if text_eq key (codes "offset")
    then some (itoa (pos 0))
    else if text_eq key (codes "anchor")
    then some event_id
    else none

at_offset : (event_id : Text) → at_event event_id (codes "offset") ≡ some (itoa (pos 0))
unfolding text_eq
at_offset event_id = refl

abbrev pool_with : Room → Workers
pool_with r = record pool {
  workers =
      set_worker pool.workers 0
        (record worker { rooms = insert (codes "!r") (access 7 r) worker.rooms });
}

anchor_absent : anchor_index room (default_query (at_event (codes "$9")) (codes "anchor") []) ≡ none
unfolding anchor_index index_from default_query text_eq
anchor_absent = refl

chat_route-not_found_example :
    room_route hash insertion_sorter no_levels homeserver sync_with 7 chat
      (codes "!r")
      (at_event (codes "$9"))
      pool
    ≡ some (pool_with room, room_error_page (codes "Some error has occurred") (room_info room))
chat_route-not_found_example =
    chat_route-not_found hash insertion_sorter no_levels homeserver sync_with 7 (codes "!r")
      (at_event (codes "$9")) 0 pool 0 worker room refl chosen room_found worker-IsServing
      (omega arith) (at_offset (codes "$9")) anchor_absent

-- "?offset=1", without an anchor.
abbrev at_one : Query
at_one key = if text_eq key (codes "offset") then some (itoa (pos 1)) else none

at_one_asked : at_one (codes "offset") ≡ some (itoa (pos 1))
unfolding text_eq
at_one_asked = refl

newest : anchor_index room (default_query at_one (codes "anchor") []) ≡ some 0
unfolding anchor_index default_query text_eq
newest = refl

abbrev three : Room
three = backpaginated insertion_sorter no_levels homeserver room 0 1 30

three_events : length three.event_list ≡ 3
unfolding backpaginate_if_needed text_eq
three_events = refl

three-HasUniqueIds : HasUniqueIds three.event_list
unfolding backpaginate_if_needed text_eq
three-HasUniqueIds = ((refl, (refl, tt)), ((refl, tt), (tt, tt)))

three_named : All (λ (e : Event). text_eq e.id [] ≡ false) three.event_list
unfolding backpaginate_if_needed text_eq
three_named = (refl, (refl, (refl, tt)))

chat_route-page_anchor_example :
    (ws' : Workers) × (c : ChatPage) × (room_route hash insertion_sorter no_levels homeserver
        sync_with 7 chat
        (codes "!r")
        at_one
        pool
      ≡ some (ws', chat_page c))
    × (c.current_offset ≡ pos 1)
    × (anchor_index three c.anchor ≡ some 1)
unfolding default_query text_eq
chat_route-page_anchor_example =
    chat_route-page_anchor hash insertion_sorter no_levels homeserver sync_with 7 (codes "!r")
      at_one 1 pool 0 worker room refl chosen room_found worker-IsServing (omega arith) at_one_asked
      0 newest (omega (arith, three_events)) (omega (arith, three_events)) three-HasUniqueIds
      three_named
