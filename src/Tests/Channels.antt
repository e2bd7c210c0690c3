-- ===== src/Tests/Channels.antt =====
-- A request over the channels of a worker, and a pool after its first request.
use matrix_static.Prelude.{ℕ, ◌≡◌, refl, none, some, [], ◌∷◌, codes}
use mathlib.Core.List.{mem-cons_self}
use matrix_static.Sort.Insertion.{insertion_sorter}
use matrix_static.Timeline.{synced_room}
use matrix_static.Worker.{Worker, Job, room_power_levels_job, room_initial_sync_job}
use matrix_static.Worker.Serving.{IsServing}
use matrix_static.Worker.Answers.{IsAnswer, work-IsAnswer}
use matrix_static.Worker.Channels.{
  got, asks, waits, System, set_client, ask, accept, deliver, Reach, here, next, started,
}
use matrix_static.Worker.Channels.Progress.{LoopReach, asks-got}
use matrix_static.Worker.Pool.Reach.{made, after, request, room_of_one_worker}
use matrix_static.Tests.{no_levels, client, homeserver, initial, sync_with}
use matrix_static.Tests.Workers.{
  worker, worker-IsServing, hash, served, power_levels_resp, power_levels_worked, answered, synced,
}

abbrev job : Job
job = room_power_levels_job (codes "!r")

abbrev asking : System
asking = record {
  worker = worker;
  output = none;
  clients = set_client 3 (asks job) (started worker).clients;
}

abbrev waiting : System
waiting = record {
  worker = served;
  output = some power_levels_resp;
  clients = set_client 3 (waits job) asking.clients;
}

abbrev delivered : System
delivered = record {
  worker = served;
  output = none;
  clients = set_client 3 (got job power_levels_resp) waiting.clients;
}

asked : Reach insertion_sorter no_levels homeserver sync_with (started worker) asking
unfolding started
asked = next here (ask 3 job refl refl refl)

is_asking : asking.clients 3 ≡ asks job
unfolding set_client
is_asking = refl

is_waiting : waiting.clients 3 ≡ waits job
unfolding set_client
is_waiting = refl

run : Reach insertion_sorter no_levels homeserver sync_with (started worker) delivered
run =
    next
      (next asked (accept 3 job 7 served power_levels_resp refl is_asking power_levels_worked refl))
      (deliver 3 job power_levels_resp refl is_waiting refl)

work-IsAnswer_example :
    IsAnswer insertion_sorter no_levels homeserver sync_with worker.rooms job power_levels_resp
work-IsAnswer_example =
    work-IsAnswer insertion_sorter no_levels homeserver sync_with 7 job worker served
      power_levels_resp worker-IsServing refl power_levels_worked

asks-got_example :
    (t : System) × LoopReach insertion_sorter no_levels homeserver sync_with asking t
    × (t.clients 3 ≡ got job power_levels_resp)
asks-got_example =
    asks-got insertion_sorter no_levels homeserver sync_with worker asking 3 job 7 served
      power_levels_resp worker-IsServing asked is_asking power_levels_worked

abbrev first_worker : Worker
first_worker = record {
  id = 0;
  client = client;
  rooms = (codes "!r", synced_room insertion_sorter no_levels client (codes "!r") 7 initial) ∷ [];
}

room_of_one_worker_example : (◌≡◌ {A = ℕ} 0 0) × IsServing first_worker.rooms
room_of_one_worker_example =
    room_of_one_worker insertion_sorter no_levels homeserver sync_with hash 2 client answered.0 0 0
      first_worker first_worker (codes "!r")
      (after made
        (request 7 (codes "!r") (room_initial_sync_job (codes "!r")) answered.1 refl synced))
      refl refl mem-cons_self mem-cons_self
