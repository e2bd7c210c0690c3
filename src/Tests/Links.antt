-- ===== src/Tests/Links.antt =====
-- A visitor who follows the links of the pages, and a room that is asked for again.
use matrix_static.Prelude.{
  some_bind, ℕ, ◌+◌, ◌≡◌, refl, true, some, List, [], ◌∷◌, arith, drop, pos, codes, text_eq,
}
use matrix_static.Gomatrix.{Event, other, err}
use matrix_static.Sort.Insertion.{insertion_sorter}
use matrix_static.Timeline.{Room, Messages}
use matrix_static.PublicRooms.{WorldReadableRooms}
use matrix_static.Room.{EventPage, get_event_page, index_from}
use matrix_static.Room.Pages.{anchor_index}
use matrix_static.Room.Walk.Failed.{get_event_page-failed}
use matrix_static.Room.Walk.Ends.{HasUniqueIds}
use matrix_static.Site.Links.{walk_rooms}
use matrix_static.Site.Links.Rooms.{walk_rooms-eq}
use matrix_static.Worker.{
  discard, forward_paginate_rooms, Worker, Job, JobResp, work, room_power_levels_job,
  room_forward_paginate_job,
}
use matrix_static.Worker.Fresh.{work_all, work_all-answered}
use matrix_static.Tests.{no_levels, client, message, room, homeserver, sync_with}
use matrix_static.Tests.Lists.{directory}
use matrix_static.Tests.Workers.{worker, worker-IsServing, room_found, served, power_levels_worked}

abbrev five : List Event
five =
    message (codes "$5")
    ∷ message (codes "$4")
    ∷ message (codes "$3")
    ∷ message (codes "$2")
    ∷ message (codes "$1")
    ∷ []

five-HasUniqueIds : HasUniqueIds five
unfolding text_eq
five-HasUniqueIds = (
  (refl, (refl, (refl, (refl, tt)))),
  ((refl, (refl, (refl, tt))), ((refl, (refl, tt)), ((refl, tt), (tt, tt)))),
)

abbrev long_room : Room
long_room = record room { event_list = five; has_reached_historic_end_of_timeline = true }

abbrev out_of_reach : Messages
out_of_reach id token direction limit = err (other (codes "unreachable"))

abbrev open_room : Room
open_room = record room { event_list = five }

open_at_fourth : anchor_index open_room (codes "$4") ≡ some 1
unfolding anchor_index index_from text_eq
open_at_fourth = refl

get_event_page-failed_example :
    (page : EventPage) × (get_event_page insertion_sorter no_levels out_of_reach open_room
        (codes "$4")
        (pos 2)
        (pos 30)
      ≡ some (open_room, page))
    × (page.events ≡ drop (1 + 2) five)
    × (page.at_top_end ≡ true)
get_event_page-failed_example =
    get_event_page-failed insertion_sorter no_levels out_of_reach open_room (codes "$4") 1 2 30
      (other (codes "unreachable")) (λ size. refl) open_at_fourth five-HasUniqueIds (omega arith)
      (omega arith) (omega arith)

abbrev listed_rooms : WorldReadableRooms
listed_rooms = record { client = client; rooms = directory }

walk_rooms-eq_example : walk_rooms 4 listed_rooms (pos 1) ≡ some directory
walk_rooms-eq_example = walk_rooms-eq listed_rooms 4 (omega arith) (omega arith)

-- A request, and a round of the paginator, within half an hour of the time 0.
abbrev jobs : List (ℕ × Job)
jobs = (7, room_power_levels_job (codes "!r")) ∷ (1799999999999, room_forward_paginate_job) ∷ []

abbrev paginated : Worker
paginated = record served {
  rooms =
      forward_paginate_rooms insertion_sorter no_levels homeserver
        (discard 1799999999999 served.rooms);
}

jobs_worked : work_all insertion_sorter no_levels homeserver sync_with jobs worker ≡ some paginated
unfolding work_all work
jobs_worked = some_bind _ _ power_levels_worked refl

work_all-answered_example :
    (w'' : Worker) × (resp : JobResp) × (work insertion_sorter no_levels homeserver sync_with
        1800000000005
        (room_power_levels_job (codes "!r"))
        paginated
      ≡ some (w'', resp))
work_all-answered_example =
    work_all-answered insertion_sorter no_levels homeserver sync_with 0 1800000000005 (codes "!r")
      jobs worker paginated ((omega arith, omega arith), ((omega arith, omega arith), tt))
      worker-IsServing (room, room_found, omega arith) jobs_worked
