-- ===== src/Site/Server.antt =====
-- src/github.com/t3chguy/matrix-static/matrix-static.go: `main`, from the flags to the server that
-- runs, its router, and what reaches it: requests, and the two timers. The flags are read by package
-- flag, and requests are served one at a time here. For a handler `none` is a run-time panic; for a
-- step it is one that `gin.Recovery` does not see, in the goroutine of a worker or of a timer.
pub mod Runs
pub mod Answers
pub mod Total
use matrix_static.Prelude.{
  ℕ, zero, suc, ◌+◌, ◌-◌, ◌^◌, ◌%◌, Option, none, some, List, [], ◌∷◌, ◌++◌, if◌then◌else◌, ◌==◌,
  ◌>>=◌, ℤ, pos, negsuc, Text, codes, text_eq,
}
use matrix_static.Gomatrix.{Content, GoError, PublicRoomsChunk, Result, ok, err}
use matrix_static.Member.{MxcUrl}
use matrix_static.Sort.{Sorter}
use matrix_static.State.{PowerLevels, Client}
use matrix_static.Timeline.{RespInitialSync, Messages}
use matrix_static.PublicRooms.{WorldReadableRooms, update, new_world_readable_rooms}
use matrix_static.Worker.Pool.{Workers, new_workers, get_worker_for_room_id}
use matrix_static.Config.{Config, Files, RawClient, new_client}
use matrix_static.Site.{
  Query, Page, Route, chat, servers_list, aliases_list, members_list, power_levels, member_info,
  RespRoomDirectoryAlias, index_route, alias_route, event_route, room_route, forward_paginate_all,
}

-- `configVars`, but for the settings of the router and of the logs.
pub record ConfigVars : Type 0 where
  pub config_file : Text
  pub num_workers : ℤ

-- `uint32(config.NumWorkers)`
unfoldable pub to_uint32 : ℤ → ℕ
to_uint32 (pos n) = n % 2 ^ 32
to_uint32 (negsuc n) = (2 ^ 32 - suc (n % 2 ^ 32)) % 2 ^ 32

pub record Server : Type 0 where
  pub client : Client
  pub world_readable_rooms : WorldReadableRooms
  pub workers : Workers

-- The port to listen on.
unfoldable pub port_of : Text → Text
port_of env = if text_eq env [] then codes "8000" else env

module _ {G : Type 0} (gomatrix_client : Text → Text → Text → Result G)
    (unmarshal_config : Text → Config)
    (public_rooms : RawClient G → Result (Option (List PublicRoomsChunk)))
    (to_thumb_url : MxcUrl → ℤ → ℤ → Text → Option Text) where
  -- What `main` does with the client; the pool and the list of rooms share it.
  unfoldable pub serve_with : ConfigVars → RawClient G → Option Server
  unfolding new_world_readable_rooms new_workers to_uint32
  serve_with config raw = do
    rooms ←
        new_world_readable_rooms to_thumb_url (public_rooms raw)
          (record { media_base_url = raw.media_base_url })
    some (record {
      client = record { media_base_url = raw.media_base_url };
      world_readable_rooms = rooms;
      workers =
          new_workers (to_uint32 config.num_workers)
            (record { media_base_url = raw.media_base_url });
    })

  -- `main` up to the server; an error of `NewClient` is logged and ends it.
  unfoldable pub start : ConfigVars → Files → Option (Result Server)
  unfolding new_client serve_with
  start config files = do
    client ← new_client gomatrix_client unmarshal_config config.config_file files
    elim client [
      | err e ↦ some (err e)
      | ok raw ↦ do server ← serve_with config raw; some (ok server)
    ]

-- A request that the router has matched with one of the routes below the public prefix, with the
-- parameters of its path and its query.
pub data Request : Type 0 where
  index_request : Query → Request
  alias_request : Text → Request
  event_request : Text → Text → Request
  room_request : Route → Text → Query → Request

-- What happens to a running server.
pub data Input : Type 0 where
  request : ℕ → Request → Input
  reload : Result (Option (List PublicRoomsChunk)) → Input
  paginate : ℕ → Input

module _ (to_thumb_url : MxcUrl → ℤ → ℤ → Text → Option Text) (hash : Text → ℕ) (sorter : Sorter)
    (unmarshal : Content → Option PowerLevels) (messages : Messages)
    (sync : Text → ℤ → Result RespInitialSync)
    (resolve : Text → Result RespRoomDirectoryAlias) where
  unfoldable pub handle : ℕ → Request → Server → Option (Server × Page)
  unfolding index_route alias_route event_route room_route
  handle now (index_request query) server = do
    page ← index_route server.world_readable_rooms query
    some (server, page)
  handle now (alias_request room_alias) server = some (server, alias_route (resolve room_alias))
  handle now (event_request room_id event_id) server = some (server, event_route room_id event_id)
  handle now (room_request route room_id query) server = do
    (workers, page) ←
        room_route hash sorter unmarshal messages sync now route room_id query server.workers
    some (record server { workers = workers }, page)

  -- What `gin.Recovery` makes of a request whose handler has panicked. The list of rooms has released
  -- its lock by `defer` when a page of it panics; the empty id, and the choice of the worker, panic
  -- before a job is sent. Where a job was sent, it is the worker that has panicked, in a goroutine
  -- of its own, and that ends the program.
  unfoldable pub recovery : Request → Server → Option Server
  unfolding get_worker_for_room_id
  recovery (room_request route [] query) server = some server
  recovery (room_request route (c ∷ room_id) query) server =
      elim (get_worker_for_room_id hash (c ∷ room_id) server.workers) [
        | none ↦ some server
        | some _ ↦ none
      ]
  recovery req server = some server

  -- One request, one reload by `startPublicRoomListTimer`, or one round of `startForwardPaginator`.
  unfoldable pub step : Input → Server → Option Server
  unfolding handle recovery update forward_paginate_all
  step (request now req) server = elim (handle now req server) [
    | some (server', page) ↦ some server'
    | none ↦ recovery req server
  ]
  step (reload resp) server = do
    (rooms, error) ← update to_thumb_url resp server.world_readable_rooms
    some (record server { world_readable_rooms = rooms })
  step (paginate now) server = do
    workers ← forward_paginate_all hash sorter unmarshal messages sync now server.workers
    some (record server { workers = workers })

  unfoldable pub run : List Input → Server → Option Server
  unfolding step
  run [] server = some server
  run (input ∷ inputs) server = do server' ← step input server; run inputs server'
