-- ===== src/Site/Server/Runs.antt =====
-- A server from its start on: what its pages show after any inputs.
use matrix_static.Prelude.{
  ℕ, ◌≡◌, refl, sym, ◌>>=◌, ap, ◌∙◌, subst, inl, inr, Option, Option-cases, none, some, List, [],
  ◌∷◌, ℤ, Text,
}
use matrix_static.Gomatrix.{Content, PublicRoomsChunk, Result, Result-cases, ok, err}
use matrix_static.Member.{MxcUrl}
use matrix_static.Sort.{Sorter}
use matrix_static.State.{PowerLevels, Client}
use matrix_static.Timeline.{RespInitialSync, Messages}
use matrix_static.PublicRooms.{
  WorldReadableRooms, update, new_world_readable_rooms, process_room_directory,
}
use matrix_static.Worker.Rooms.{bind_some, some_room}
use matrix_static.Worker.Pool.{Workers, new_workers, get_worker_for_room_id}
use matrix_static.Config.{Config, Files, RawClient, new_client}
use matrix_static.Site.{Page, RespRoomDirectoryAlias, index_route, room_route, forward_paginate_all}
use matrix_static.Site.Reach.{SiteReach, visited, refreshed}
use matrix_static.Site.Server.{
  ConfigVars, to_uint32, Server, serve_with, start, Request, index_request, alias_request,
  event_request, room_request, Input, request, reload, paginate, handle, recovery, step, run,
}

some_server : {s t : Server} → some s ≡ some t → s ≡ t
some_server h = cc

-- The directory that the last successful reload has brought, or else the given one.
abbrev pub last_directory : List Input → List PublicRoomsChunk → List PublicRoomsChunk
last_directory [] chunk = chunk
last_directory (reload (ok (some new)) ∷ inputs) chunk = last_directory inputs new
last_directory (input ∷ inputs) chunk = last_directory inputs chunk

module _ {G : Type 0} (gomatrix_client : Text → Text → Text → Result G)
    (unmarshal_config : Text → Config)
    (public_rooms : RawClient G → Result (Option (List PublicRoomsChunk)))
    (to_thumb_url : MxcUrl → ℤ → ℤ → Text → Option Text) where
  abbrev started_server : ConfigVars → RawClient G → List PublicRoomsChunk → Server
  started_server config raw rooms = record {
    client = record { media_base_url = raw.media_base_url };
    world_readable_rooms = record {
      client = record { media_base_url = raw.media_base_url };
      rooms = rooms;
    };
    workers =
        new_workers (to_uint32 config.num_workers) (record { media_base_url = raw.media_base_url });
  }

  -- A server that has been started has the pool that the flags ask for, none of whose workers holds a
  -- room, and the list of the directory that the homeserver answered.
  pub record IsStarted (config : ConfigVars) (server : Server) : Type 0 where
    pub raw : RawClient G
    pub directory : List PublicRoomsChunk
    pub answered : public_rooms raw ≡ ok (some directory)
    pub pool : server.workers ≡ new_workers (to_uint32 config.num_workers) server.client
    pub list :
        process_room_directory to_thumb_url server.client.media_base_url directory
        ≡ some server.world_readable_rooms.rooms
    pub owner : server.world_readable_rooms.client ≡ server.client

  serve_with-processed :
      (config : ConfigVars) (raw : RawClient G) (chunk : List PublicRoomsChunk)
      → public_rooms raw ≡ ok (some chunk)
      → (process_room_directory to_thumb_url raw.media_base_url chunk >>= λ rooms.
          some (started_server config raw rooms))
        ≡ serve_with gomatrix_client unmarshal_config public_rooms to_thumb_url config raw
  unfolding serve_with new_world_readable_rooms update
  serve_with-processed config raw chunk answered =
      elim (Option-cases (process_room_directory to_thumb_url raw.media_base_url chunk)) [
        | inl panicked ↦ rw (answered, panicked) refl
        | inr (rooms, processed) ↦ rw (answered, processed) refl
      ]

  serve_with-IsStarted :
      (config : ConfigVars) (raw : RawClient G) (server : Server)
      → serve_with gomatrix_client unmarshal_config public_rooms to_thumb_url config raw
        ≡ some server
      → IsStarted config server
  unfolding serve_with new_world_readable_rooms update
  serve_with-IsStarted config raw server h = elim (Result-cases (public_rooms raw)) [
    | inl (e, failed) ↦ absurd (cc (rw failed at h))
    | inr (none, answered) ↦ absurd (cc (rw answered at h))
    | inr (some chunk, answered) ↦
        let client : Client = record { media_base_url = raw.media_base_url } in
        let (rooms, processed, e) =
          bind_some (process_room_directory to_thumb_url raw.media_base_url chunk) _
            (serve_with-processed config raw chunk answered ∙ h) in
        subst (IsStarted config) (some_server e) (record {
          raw = raw;
          directory = chunk;
          answered = answered;
          pool = refl;
          list = processed;
          owner = refl;
        })
  ]

  pub start-IsStarted :
      (config : ConfigVars) (files : Files) (server : Server)
      → start gomatrix_client unmarshal_config public_rooms to_thumb_url config files
        ≡ some (ok server)
      → IsStarted config server
  unfolding start
  start-IsStarted config files server h =
      let (client, _, h₁) =
        bind_some (new_client gomatrix_client unmarshal_config config.config_file files) _ h in
      elim (Result-cases client) [
        | inl (e, failed) ↦ absurd (cc (rw failed at h₁))
        | inr (raw, made) ↦
            let (served, serves, h₂) =
              bind_some
                (serve_with gomatrix_client unmarshal_config public_rooms to_thumb_url config raw) _
                (rw made at h₁) in
            let same : served ≡ server = cc in
            serve_with-IsStarted config raw server (serves ∙ ap some same)
      ]

module _ (to_thumb_url : MxcUrl → ℤ → ℤ → Text → Option Text) (hash : Text → ℕ) (sorter : Sorter)
    (unmarshal : Content → Option PowerLevels) (messages : Messages)
    (sync : Text → ℤ → Result RespInitialSync)
    (resolve : Text → Result RespRoomDirectoryAlias) where
  -- What a request leaves of a server.
  record IsServed (ws : Workers) (before after : Server) : Type 0 where
    client : after.client ≡ before.client
    rooms : after.world_readable_rooms ≡ before.world_readable_rooms
    reached : SiteReach hash sorter unmarshal messages sync ws after.workers

  unchanged :
      {ws : Workers} (s t : Server)
      → SiteReach hash sorter unmarshal messages sync ws s.workers
      → s ≡ t
      → IsServed ws s t
  unchanged {ws} s t r same =
      subst (IsServed ws s) same (record { client = refl; rooms = refl; reached = r })

  handle-IsServed :
      {ws : Workers} (now : ℕ) (req : Request) (s t : Server) (page : Page)
      → SiteReach hash sorter unmarshal messages sync ws s.workers
      → handle to_thumb_url hash sorter unmarshal messages sync resolve now req s ≡ some (t, page)
      → IsServed ws s t
  unfolding handle
  handle-IsServed now (index_request query) s t page r h =
      let (p, _, e) = bind_some (index_route s.world_readable_rooms query) _ h in
      unchanged s t r (some_room _ e)
  handle-IsServed now (alias_request room_alias) s t page r h = unchanged s t r (some_room _ h)
  handle-IsServed now (event_request room_id event_id) s t page r h =
      unchanged s t r (some_room _ h)
  handle-IsServed {ws} now (room_request route room_id query) s t page r h =
      let ((workers, p), routed, e) =
        bind_some (room_route hash sorter unmarshal messages sync now route room_id query s.workers)
          _ h in
      subst (IsServed ws s) (some_room _ e) (record {
        client = refl;
        rooms = refl;
        reached = visited r now route room_id query p routed;
      })

  -- What a server is, that has run: the workers have been reached from those of its start, and the
  -- list is that of a directory.
  pub record IsRunning (ws : Workers) (client : Client) (directory : List PublicRoomsChunk)
      (s : Server) : Type 0 where
    pub same_client : s.client ≡ client
    pub owner : s.world_readable_rooms.client ≡ client
    pub list :
        process_room_directory to_thumb_url client.media_base_url directory
        ≡ some s.world_readable_rooms.rooms
    pub reached : SiteReach hash sorter unmarshal messages sync ws s.workers

  -- A recovered panic leaves the server as it was.
  recovery-same :
      (req : Request) (s t : Server)
      → recovery to_thumb_url hash sorter unmarshal messages sync resolve req s ≡ some t
      → s ≡ t
  unfolding recovery
  recovery-same (index_request query) s t h = some_server h
  recovery-same (alias_request name) s t h = some_server h
  recovery-same (event_request id event) s t h = some_server h
  recovery-same (room_request route [] query) s t h = some_server h
  recovery-same (room_request route (c ∷ id) query) s t h =
      elim (Option-cases (get_worker_for_room_id hash (c ∷ id) s.workers)) [
        | inl nobody ↦ some_server (rw (nobody, recovery) at h)
        | inr (worker, chosen) ↦ absurd (cc (rw (chosen, recovery) at h))
      ]

  request-IsRunning :
      {ws : Workers} {client : Client} {directory : List PublicRoomsChunk} (now : ℕ) (req : Request)
      (s t : Server)
      → IsRunning ws client directory s
      → step to_thumb_url hash sorter unmarshal messages sync resolve (request now req) s ≡ some t
      → IsRunning ws client directory t
  unfolding step
  request-IsRunning {ws} {client} {directory} now req s t v h =
      elim (Option-cases
        (handle to_thumb_url hash sorter unmarshal messages sync resolve now req s)) [
          | inl panicked ↦
              subst (IsRunning ws client directory)
                (recovery-same req s t (rw (panicked, step) at h)) v
          | inr ((u, page), handled) ↦
              let left : some u ≡ some t = rw (handled, step) at h in
              let after = handle-IsServed now req s u page v.reached handled in
              subst (IsRunning ws client directory) (some_server left) (record {
                same_client = after.client ∙ v.same_client;
                owner = ap (λ r. r.client) after.rooms ∙ v.owner;
                list = v.list ∙ ap (λ (r : WorldReadableRooms). some r.rooms) (sym after.rooms);
                reached = after.reached;
              })
        ]

  reload-IsRunning :
      {ws : Workers} {client : Client} {directory : List PublicRoomsChunk}
      (resp : Result (Option (List PublicRoomsChunk))) (s t : Server)
      → IsRunning ws client directory s
      → step to_thumb_url hash sorter unmarshal messages sync resolve (reload resp) s ≡ some t
      → IsRunning ws client (last_directory (reload resp ∷ []) directory) t
  unfolding step update
  reload-IsRunning {ws} {client} {directory} (err e) s t v h =
      subst (IsRunning ws client directory) (let same : s ≡ t = cc in same) v
  reload-IsRunning {ws} {client} {directory} (ok none) s t v h = absurd (cc)
  reload-IsRunning {ws} {client} {directory} (ok (some chunk)) s t v h =
      let ((list, error), updated, e) =
        bind_some (update to_thumb_url (ok (some chunk)) s.world_readable_rooms) _ h in
      let (rooms, processed, e₁) =
        bind_some
          (process_room_directory to_thumb_url s.world_readable_rooms.client.media_base_url chunk) _
          updated in
      let made : WorldReadableRooms = record s.world_readable_rooms { rooms = rooms } in
      let same : made ≡ list = cc in
      let left : record s { world_readable_rooms = made } ≡ t =
        ap (λ (l : WorldReadableRooms). record s { world_readable_rooms = l }) same
        ∙ some_server e in
      subst (IsRunning ws client chunk) left (record {
        same_client = v.same_client;
        owner = v.owner;
        list =
            ap (λ (c : Client). process_room_directory to_thumb_url c.media_base_url chunk)
              (sym v.owner)
            ∙ processed;
        reached = v.reached;
      })

  paginate-IsRunning :
      {ws : Workers} {client : Client} {directory : List PublicRoomsChunk} (now : ℕ) (s t : Server)
      → IsRunning ws client directory s
      → step to_thumb_url hash sorter unmarshal messages sync resolve (paginate now) s ≡ some t
      → IsRunning ws client directory t
  unfolding step
  paginate-IsRunning {ws} {client} {directory} now s t v h =
      let (workers, all, e) =
        bind_some (forward_paginate_all hash sorter unmarshal messages sync now s.workers) _ h in
      let u : Server = record s { workers = workers } in
      let same : u ≡ t = cc in
      subst (IsRunning ws client directory) same (record {
        same_client = v.same_client;
        owner = v.owner;
        list = v.list;
        reached = refreshed v.reached now all;
      })

  pub step-IsRunning :
      {ws : Workers} {client : Client} {directory : List PublicRoomsChunk} (input : Input)
      (s t : Server)
      → IsRunning ws client directory s
      → step to_thumb_url hash sorter unmarshal messages sync resolve input s ≡ some t
      → IsRunning ws client (last_directory (input ∷ []) directory) t
  step-IsRunning (request now req) s t v h = request-IsRunning now req s t v h
  step-IsRunning (reload resp) s t v h = reload-IsRunning resp s t v h
  step-IsRunning (paginate now) s t v h = paginate-IsRunning now s t v h

  last_directory-step :
      (input : Input) (inputs : List Input) (chunk : List PublicRoomsChunk)
      → last_directory inputs (last_directory (input ∷ []) chunk)
        ≡ last_directory (input ∷ inputs) chunk
  last_directory-step (request now req) inputs chunk = refl
  last_directory-step (reload (ok none)) inputs chunk = refl
  last_directory-step (reload (ok (some new))) inputs chunk = refl
  last_directory-step (reload (err e)) inputs chunk = refl
  last_directory-step (paginate now) inputs chunk = refl

  pub run-IsRunning :
      {ws : Workers} {client : Client} (directory : List PublicRoomsChunk) (inputs : List Input)
      (s t : Server)
      → IsRunning ws client directory s
      → run to_thumb_url hash sorter unmarshal messages sync resolve inputs s ≡ some t
      → IsRunning ws client (last_directory inputs directory) t
  unfolding run
  run-IsRunning {ws} {client} directory [] s t v h =
      subst (IsRunning ws client directory) (let same : s ≡ t = cc in same) v
  run-IsRunning {ws} {client} directory (input ∷ inputs) s t v h =
      let (u, stepped, h₁) =
        bind_some (step to_thumb_url hash sorter unmarshal messages sync resolve input s) _ h in
      subst (λ d. IsRunning ws client d t) (last_directory-step input inputs directory)
        (run-IsRunning (last_directory (input ∷ []) directory) inputs u t
          (step-IsRunning input s u v stepped) h₁)
