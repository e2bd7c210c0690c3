-- ===== src/Tests/Servers.antt =====
-- A server that has been started, and what it answers later.
use matrix_static.Prelude.{
  keep, true, ◌<◌, ℕ, ◌*◌, ◌≡◌, refl, Option, none, some, List, [], ◌∷◌, arith, take, drop, ℤ, pos,
  negsuc, Text, codes, text_eq,
}
use matrix_static.Gomatrix.{PublicRoomsChunk, other, Result, ok, err}
use matrix_static.Sort.Insertion.{insertion_sorter}
use matrix_static.PublicRooms.{listed, new_world_readable_rooms, process_room_directory, update}
use matrix_static.State.{Client}
use matrix_static.Config.{Config, content, Files, RawClient, new_client}
use matrix_static.Worker.Pool.{new_workers}
use matrix_static.Utils.Itoa.{itoa}
use matrix_static.Worker.Pool.Hash.{hash}
use matrix_static.Site.{Query, rooms_page, power_levels, RespRoomDirectoryAlias}
use matrix_static.Site.Index.{Thumbs, shown_rooms}
use matrix_static.Site.Server.{
  ConfigVars, to_uint32, Server, serve_with, start, index_request, event_request, room_request,
  Input, request, reload, paginate, handle, step, run,
}
use matrix_static.Site.Server.Answers.{index_route-run}
use matrix_static.Site.Server.Total.{run-IsSafe, run_no_workers}
use matrix_static.Tests.{no_levels, homeserver}
use matrix_static.Tests.Lists.{entry, directory, thumb, same, first_page}
use matrix_static.Tests.Sites.{no_query, refuse}

-- The published values for "a" and for "foobar".
hash_a : hash (codes "a") ≡ 3826002220
unfolding hash
hash_a = refl

hash_foobar : hash (codes "foobar") ≡ 3214735720
unfolding hash
hash_foobar = refl

abbrev flags : ℤ → ConfigVars
flags n = record { config_file = codes "config.json"; num_workers = n }

abbrev connect : Text → Text → Text → Result Text
connect homeserver_url user_id access_token = ok homeserver_url

abbrev configure : Text → Config
configure file = record {
  access_token = [];
  device_id = [];
  home_server = file;
  refresh_token = [];
  user_id = [];
  media_base_url = [];
}

abbrev one_file : Files
one_file path = content (codes "h")

abbrev answer : RawClient Text → Result (Option (List PublicRoomsChunk))
answer raw = ok (some directory)

abbrev resolve : Text → Result RespRoomDirectoryAlias
resolve room_alias = err (other (codes "refused"))

abbrev own_client : Client
own_client = record { media_base_url = codes "h" }

abbrev server : ℕ → Server
server n = record {
  client = own_client;
  world_readable_rooms = record { client = own_client; rooms = shown_rooms same directory };
  workers = new_workers n own_client;
}

started_with : start connect configure answer thumb (flags (pos 2)) one_file ≡ some (ok (server 2))
unfolding start new_client serve_with new_world_readable_rooms process_room_directory update
    to_uint32 text_eq keep listed
started_with = refl

started_without :
    start connect configure answer thumb (flags (pos 0)) one_file ≡ some (ok (server 0))
unfolding start new_client serve_with new_world_readable_rooms process_room_directory update
    to_uint32 text_eq keep listed
started_without = refl

thumbs : Thumbs thumb (codes "h") same
unfolding text_eq
thumbs url = refl

-- A reload that fails and one that succeeds.
abbrev reloads : List Input
reloads =
    reload (err (other (codes "refused"))) ∷ reload (ok (some (entry (codes "!4") true ∷ []))) ∷ []

abbrev reloaded : ℕ → Server
reloaded n = record (server n) {
  world_readable_rooms = record {
    client = own_client;
    rooms = shown_rooms same (entry (codes "!4") true ∷ []);
  };
}

run-reloaded :
    (n : ℕ)
    → run thumb hash insertion_sorter no_levels homeserver refuse resolve reloads (server n)
      ≡ some (reloaded n)
unfolding run step process_room_directory update keep listed text_eq
run-reloaded n = refl

index_route-run_example :
    handle thumb hash insertion_sorter no_levels homeserver refuse resolve 7
      (index_request first_page)
      (reloaded 2)
    ≡ some (
      reloaded 2,
      rooms_page
          (take 20 (drop (0 * 20) (shown_rooms same (entry (codes "!4") true ∷ []))))
          (pos 20)
          (pos 1),
    )
index_route-run_example =
    index_route-run connect configure answer thumb hash insertion_sorter no_levels homeserver refuse
      resolve (flags (pos 2)) one_file (server 2) (reloaded 2) directory reloads 7 first_page 0 same
      thumbs started_with (λ raw. refl) (run-reloaded 2) (omega arith) refl (omega arith)

-- "?page=-1", which panics and is recovered.
abbrev negative_page : Query
negative_page key = some (itoa (negsuc 0))

-- A request for the power levels, a round of the paginator, a redirect, and a list of rooms.
abbrev safe_inputs : List Input
safe_inputs =
    request 7 (room_request power_levels (codes "!r") no_query)
    ∷ paginate 8
    ∷ request 9 (event_request (codes "!r") (codes "e"))
    ∷ request 9 (index_request negative_page)
    ∷ []

has_workers : 0 < to_uint32 (pos 2)
unfolding to_uint32
has_workers = omega arith

run-IsSafe_example :
    (u : Server) × (run thumb hash insertion_sorter no_levels homeserver refuse resolve safe_inputs
        (reloaded 2)
      ≡ some u)
run-IsSafe_example =
    run-IsSafe connect configure answer thumb insertion_sorter no_levels homeserver refuse resolve
      (flags (pos 2)) one_file (server 2) (reloaded 2) directory reloads safe_inputs same thumbs
      started_with (λ raw. refl) has_workers (run-reloaded 2) (refl, (tt, (tt, (tt, tt))))

no_workers : to_uint32 (pos 0) ≡ 0
unfolding to_uint32
no_workers = refl

run_no_workers_example :
    handle thumb hash insertion_sorter no_levels homeserver refuse resolve 7
      (room_request power_levels (codes "!r") no_query)
      (reloaded 0)
    ≡ none
run_no_workers_example =
    run_no_workers connect configure answer thumb insertion_sorter no_levels homeserver refuse
      resolve (flags (pos 0)) one_file (server 0) (reloaded 0) directory reloads 7 power_levels
      (codes "!r") no_query started_without (λ raw. refl) no_workers (run-reloaded 0) refl
