-- ===== src/Tests/Workers.antt =====
-- Jobs of a worker that holds one room, and of a pool.
use mathlib.Core.List.{Nodup-nil, Nodup-cons, not-mem-nil}
use matrix_static.Prelude.{
  ℕ, ◌≡◌, refl, none, some, [], ◌∷◌, arith, ◌>>=◌, length, pos, Text, codes, text_eq,
}
use matrix_static.Prelude.Maps.{lookup, insert}
use matrix_static.Prelude.Maps.Laws.{IsMap}
use matrix_static.Worker.{room_power_levels_resp}
use matrix_static.Timeline.{synced_room}
use matrix_static.Sort.Insertion.{insertion_sorter}
use matrix_static.Timeline.{access, forward_paginate_room, room_info}
use matrix_static.Worker.{
  Worker, JobResp, done, serve, work, answer_power_levels, room_initial_sync_job,
  room_initial_sync_resp, room_power_levels_job, room_events_job, room_forward_paginate_job,
}
use matrix_static.Worker.Serving.{IsServing, work-IsServing}
use matrix_static.Worker.Discard.{kept, work_forward_paginate-lookup, work-discarded_between}
use matrix_static.Worker.Pool.{Workers, new_workers, mod32, get_worker_for_room_id, run_for_room}
use matrix_static.Tests.Timelines.{room-IsLoaded}
use matrix_static.Tests.{no_levels, client, levels, room, homeserver, initial, sync_with}

abbrev pub worker : Worker
worker = record { id = 0; client = client; rooms = (codes "!r", room) ∷ [] }

worker-IsMap : IsMap worker.rooms
worker-IsMap = Nodup-cons.1 (not-mem-nil, Nodup-nil)

pub worker-IsServing : IsServing worker.rooms
worker-IsServing = record {
  rooms_IsMap = worker-IsMap;
  held = (record { loaded = room-IsLoaded; own_id = refl }, tt);
}

-- The worker after a request at the time 7.
abbrev pub served : Worker
served = record worker { rooms = (codes "!r", access 7 room) ∷ [] }

abbrev pub power_levels_resp : JobResp
power_levels_resp = room_power_levels_resp (room_info room) levels

power_levels_served :
    serve 7 (codes "!r") answer_power_levels worker ≡ some (served, power_levels_resp)
unfolding serve answer_power_levels lookup insert text_eq
power_levels_served = refl

pub power_levels_worked :
    work insertion_sorter no_levels homeserver sync_with 7
      (room_power_levels_job (codes "!r"))
      worker
    ≡ some (served, power_levels_resp)
unfolding work
power_levels_worked = power_levels_served

work-IsServing_example : IsServing served.rooms
work-IsServing_example =
    work-IsServing insertion_sorter no_levels homeserver sync_with 7
      (room_power_levels_job (codes "!r")) worker served power_levels_resp worker-IsServing
      power_levels_worked

work_forward_paginate-lookup_example :
    (w' : Worker) × (work insertion_sorter no_levels homeserver sync_with 9
        room_forward_paginate_job worker
      ≡ some (w', done))
    × (lookup (codes "!r") w'.rooms ≡ (
        (lookup (codes "!r") worker.rooms >>= kept 9) >>= λ r.
        some (forward_paginate_room insertion_sorter no_levels homeserver r)))
work_forward_paginate-lookup_example =
    work_forward_paginate-lookup insertion_sorter no_levels homeserver sync_with 9 worker
      (codes "!r") worker-IsMap

pub room_found : lookup (codes "!r") worker.rooms ≡ some room
unfolding lookup text_eq
room_found = refl

work-discarded_between_example :
    (w' : Worker) × (work insertion_sorter no_levels homeserver sync_with 1800000000001
        (room_initial_sync_job (codes "!r"))
        worker
      ≡ some (worker, room_initial_sync_resp none))
    × (work insertion_sorter no_levels homeserver sync_with 1800000000001 room_forward_paginate_job
          worker
        ≡ some (w', done))
    × (work insertion_sorter no_levels homeserver sync_with 1800000000001
          (room_events_job (codes "!r") [] (pos 0) (pos 20))
          w'
        ≡ none)
work-discarded_between_example =
    work-discarded_between insertion_sorter no_levels homeserver sync_with 1800000000001
      1800000000001 1800000000001 worker (codes "!r") [] (pos 0) (pos 20) room worker-IsMap
      room_found (omega arith)

-- A hash for the tests.
abbrev pub hash : Text → ℕ
hash = length

-- Two workers, the room having been synced by the first one.
abbrev pub answered : Workers × JobResp
answered = (
  record {
    num_workers = 2;
    workers =
        record {
          id = 0;
          client = client;
          rooms =
              (codes "!r", synced_room insertion_sorter no_levels client (codes "!r") 7 initial)
              ∷ [];
        }
        ∷ record { id = 1; client = client; rooms = [] }
        ∷ [];
  },
  room_initial_sync_resp none,
)

pub synced :
    run_for_room hash insertion_sorter no_levels homeserver sync_with 7
      (codes "!r")
      (room_initial_sync_job (codes "!r"))
      (new_workers 2 client)
    ≡ some answered
unfolding run_for_room new_workers mod32 get_worker_for_room_id
synced = refl
