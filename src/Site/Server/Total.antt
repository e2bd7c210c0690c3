-- ===== src/Site/Server/Total.antt =====
-- A server from its start on: the inputs that it answers, and what it does without workers.
use matrix_static.Prelude.{
  some_bind, ℕ, ◌^◌, ◌<◌, ◌≡◌, refl, sym, subst, ap, ◌∙◌, inl, inr, ◌≢◌, Bool-cases, true, Option,
  Option-cases, none, some, List, [], ◌∷◌, ◌>>=◌, ◌==◌, ==_iff, get_elem?, ℤ, Text, codes, All,
}
use matrix_static.Gomatrix.{Content, PublicRoomsChunk, Result, ok, err}
use matrix_static.Member.{MxcUrl}
use matrix_static.Sort.{Sorter}
use matrix_static.State.{PowerLevels, Client}
use matrix_static.Timeline.{RespInitialSync, Messages}
use matrix_static.Worker.{JobResp, Worker, work, room_forward_paginate_job}
use matrix_static.Worker.Pool.{Workers, new_workers, run_for_all}
use matrix_static.Worker.Pool.{get_worker_for_room_id, mod32, run_for_room}
use matrix_static.Worker.Pool.Hash.{hash, hash-lt}
use matrix_static.Worker.Pool.Shape.{new_workers-IsFull, PoolReach-IsFull}
use matrix_static.Config.{Config, Files, RawClient}
use matrix_static.Site.{
  Query, Page, error_page, Route, RespRoomDirectoryAlias, room_route, load_room,
  forward_paginate_all,
}
use matrix_static.PublicRooms.{update}
use matrix_static.Site.Index.{Thumbs, process_room_directory-shown}
use matrix_static.Site.Answered.{is_pageless}
use matrix_static.Site.Reach.{SiteReach, reachable-answered, SiteReach-PoolReach}
use matrix_static.Site.Server.{
  ConfigVars, to_uint32, Server, start, index_request, alias_request, event_request, room_request,
  Request, Input, request, reload, paginate, handle, recovery, step, run,
}
use matrix_static.Site.Server.Answers.{started-IsRunning}
use matrix_static.Site.Server.Runs.{step-IsRunning, IsRunning, run-IsRunning}

-- Inputs that make no worker cut a page by a number: all but the requests for the timeline and for the
-- three lists of a room. A reload is answered with an error or with a directory.
abbrev pub IsSafe : Input → Type 0
IsSafe (request now (room_request route id query)) = is_pageless route ≡ true
IsSafe (reload (ok none)) = ⊥
IsSafe _ = Unit

module _ (to_thumb_url : MxcUrl → ℤ → ℤ → Text → Option Text) (hash : Text → ℕ) (sorter : Sorter)
    (unmarshal : Content → Option PowerLevels) (messages : Messages)
    (sync : Text → ℤ → Result RespInitialSync) (resolve : Text → Result RespRoomDirectoryAlias)
    (small : (id : Text) → hash id < 2 ^ 32) where
  forward_work-some :
      (now : ℕ) (w : Worker)
      → (w' : Worker) × (resp : JobResp) × (work sorter unmarshal messages sync now
            room_forward_paginate_job w
          ≡ some (w', resp))
  unfolding work
  forward_work-some now w = (_, _, refl)

  run_for_all-some :
      (now : ℕ) (ws : List Worker)
      → (ws' : List Worker) × (run_for_all hash sorter unmarshal messages sync now
            room_forward_paginate_job ws
          ≡ some ws')
  unfolding run_for_all
  run_for_all-some now [] = ([], refl)
  run_for_all-some now (w ∷ ws) =
      let (w', resp, ran) = forward_work-some now w in
      let (rest, later) = run_for_all-some now ws in
      (
        w' ∷ rest,
        some_bind (work sorter unmarshal messages sync now room_forward_paginate_job w)
            (λ x.
              run_for_all hash sorter unmarshal messages sync now room_forward_paginate_job ws
              >>= λ rest. some (x.0 ∷ rest))
            ran (some_bind _ (λ rest. some (w' ∷ rest)) later refl),
      )

  room_route-some :
      (n : ℕ) (client : Client) (ws : Workers) (now : ℕ) (route : Route) (id : Text) (query : Query)
      → 0 < n
      → SiteReach hash sorter unmarshal messages sync (new_workers n client) ws
      → (is_pageless route ≡ true) × (id ≢ [])
      → (ws' : Workers) × (page : Page) × (room_route hash sorter unmarshal messages sync now route
            id query ws
          ≡ some (ws', page))
  unfolding room_route load_room
  room_route-some n client ws now route [] query some_worker r (_, full) = absurd (full refl)
  room_route-some n client ws now route (c ∷ id) query some_worker r (pageless, _) =
      elim (Bool-cases (c == b'!')) [
        | inl bang ↦
            reachable-answered hash sorter unmarshal messages sync n client ws now route (c ∷ id)
              query some_worker (small (c ∷ id)) r pageless (ap some ((==_iff c b'!').0 bang))
        | inr other ↦ (
          ws,
          error_page (codes "Unable to Load Room.") (some (codes "Room ID must start with a '!'"))
              none,
          rw other refl,
        )
      ]

  handled_step :
      (now : ℕ) (req : Request) (s t : Server) (page : Page)
      → handle to_thumb_url hash sorter unmarshal messages sync resolve now req s ≡ some (t, page)
      → step to_thumb_url hash sorter unmarshal messages sync resolve (request now req) s ≡ some t
  unfolding step
  handled_step now req s t page handled = rw (handled, step) refl

  -- A request whose panic is recovered is survived.
  request-some :
      (now : ℕ) (req : Request) (s : Server)
      → ((t : Server) × (recovery to_thumb_url hash sorter unmarshal messages sync resolve req s
            ≡ some t))
      → (t : Server) × (step to_thumb_url hash sorter unmarshal messages sync resolve
            (request now req)
            s
          ≡ some t)
  unfolding step
  request-some now req s (t, recovered) =
      elim (Option-cases
        (handle to_thumb_url hash sorter unmarshal messages sync resolve now req s)) [
          | inl panicked ↦ (t, rw (panicked, step) recovered)
          | inr ((u, page), handled) ↦ (u, handled_step now req s u page handled)
        ]

  step-some :
      {n : ℕ} {client : Client} {directory : List PublicRoomsChunk} (input : Input) (s : Server)
      (thumb : Text → Text)
      → Thumbs to_thumb_url client.media_base_url thumb
      → 0 < n
      → IsSafe input
      → IsRunning to_thumb_url hash sorter unmarshal messages sync resolve
          (new_workers n client)
          client
          directory
          s
      → (t : Server) × (step to_thumb_url hash sorter unmarshal messages sync resolve input s
          ≡ some t)
  unfolding step handle recovery update forward_paginate_all
  step-some (request now (index_request query)) s thumb thumbs some_worker safe v =
      request-some now (index_request query) s (s, refl)
  step-some (request now (alias_request name)) s thumb thumbs some_worker safe v = (_, refl)
  step-some (request now (event_request id event)) s thumb thumbs some_worker safe v = (_, refl)
  step-some (request now (room_request route [] query)) s thumb thumbs some_worker safe v =
      request-some now (room_request route [] query) s (s, refl)
  step-some {n} {client} (request now (room_request route (c ∷ id) query)) s thumb thumbs
        some_worker safe v =
      let (ws, page, routed) =
        room_route-some n client s.workers now route (c ∷ id) query some_worker v.reached
          (safe, λ empty. cc) in
      (
        record s { workers = ws },
        handled_step now (room_request route (c ∷ id) query) s (record s { workers = ws }) page
            (some_bind _ _ routed refl),
      )
  step-some (reload (err e)) s thumb thumbs some_worker safe v = (_, refl)
  step-some (reload (ok none)) s thumb thumbs some_worker safe v = absurd safe
  step-some (reload (ok (some chunk))) s thumb thumbs some_worker safe v =
      let here : Thumbs to_thumb_url s.world_readable_rooms.client.media_base_url thumb =
        subst (λ (c : Client). Thumbs to_thumb_url c.media_base_url thumb) (sym v.owner) thumbs in
      let shown =
        process_room_directory-shown to_thumb_url s.world_readable_rooms.client.media_base_url thumb
          here chunk in
      (_, some_bind _ _ (some_bind _ _ shown refl) refl)
  step-some (paginate now) s thumb thumbs some_worker safe v =
      let (ws, all) = run_for_all-some now s.workers.workers in
      (_, some_bind _ _ (some_bind _ _ all refl) refl)

  run-some :
      {n : ℕ} {client : Client} {directory : List PublicRoomsChunk} (inputs : List Input)
      (s : Server) (thumb : Text → Text)
      → Thumbs to_thumb_url client.media_base_url thumb
      → 0 < n
      → All IsSafe inputs
      → IsRunning to_thumb_url hash sorter unmarshal messages sync resolve
          (new_workers n client)
          client
          directory
          s
      → (t : Server) × (run to_thumb_url hash sorter unmarshal messages sync resolve inputs s
          ≡ some t)
  unfolding run
  run-some [] s thumb thumbs some_worker safe v = (s, refl)
  run-some (input ∷ inputs) s thumb thumbs some_worker (first, rest) v =
      let (u, stepped) = step-some input s thumb thumbs some_worker first v in
      let (t, ran) = run-some inputs u thumb thumbs some_worker rest (
        step-IsRunning to_thumb_url hash sorter unmarshal messages sync resolve input s u v
          stepped) in
      (t, some_bind _ _ stepped ran)

  load_room_no_workers :
      (now : ℕ) (id : Text) (ws : Workers)
      → ws.num_workers ≡ 0
      → get_elem? id 0 ≡ some b'!'
      → load_room hash sorter unmarshal messages sync now id ws ≡ none
  unfolding load_room run_for_room get_worker_for_room_id mod32
  load_room_no_workers now [] ws nobody bang = absurd (cc)
  load_room_no_workers now (c ∷ id) ws nobody bang =
      let is_bang : (c == b'!') ≡ true = (==_iff c b'!').1 cc in rw (is_bang, nobody) refl

module _ {G : Type 0} (gomatrix_client : Text → Text → Text → Result G)
    (unmarshal_config : Text → Config)
    (public_rooms : RawClient G → Result (Option (List PublicRoomsChunk)))
    (to_thumb_url : MxcUrl → ℤ → ℤ → Text → Option Text) (sorter : Sorter)
    (unmarshal : Content → Option PowerLevels) (messages : Messages)
    (sync : Text → ℤ → Result RespInitialSync)
    (resolve : Text → Result RespRoomDirectoryAlias) where
  -- A server that was started with at least one worker, and that has run on any inputs, runs on
  -- through any further ones of these kinds, none of which ends the program: reloads of the list,
  -- rounds of the forward paginator, and requests for the list of rooms, with any number of a page,
  -- for an alias, for an event, and for the power levels or one member of a room with any id. The
  -- requests come one at a time, the homeserver answers each with an error or with a value of the
  -- type that is asked for, not with `null`, and `ToThumbURL` gives an address for every avatar: the
  -- address of the media repository can be parsed.
  pub run-IsSafe :
      (config : ConfigVars) (files : Files) (s t : Server) (directory : List PublicRoomsChunk)
      (inputs more : List Input) (thumb : Text → Text)
      → Thumbs to_thumb_url s.client.media_base_url thumb
      → start gomatrix_client unmarshal_config public_rooms to_thumb_url config files ≡ some (ok s)
      → ((raw : RawClient G) → public_rooms raw ≡ ok (some directory))
      → 0 < to_uint32 config.num_workers
      → run to_thumb_url hash sorter unmarshal messages sync resolve inputs s ≡ some t
      → All IsSafe more
      → (u : Server) × (run to_thumb_url hash sorter unmarshal messages sync resolve more t
          ≡ some u)
  run-IsSafe config files s t directory inputs more thumb thumbs begun lists some_worker ran safe =
      let first =
        started-IsRunning gomatrix_client unmarshal_config public_rooms to_thumb_url hash sorter
          unmarshal messages sync resolve config files s directory begun lists in
      let v =
        run-IsRunning to_thumb_url hash sorter unmarshal messages sync resolve directory inputs s t
          first ran in
      run-some to_thumb_url hash sorter unmarshal messages sync resolve hash-lt more t thumb thumbs
        some_worker safe v

  -- A server that was started with a number of workers that is 0 as a `uint32` panics, whatever it
  -- has run on, at every request for a room whose id begins with '!': the division by the number
  -- of workers is by zero.
  pub run_no_workers :
      (config : ConfigVars) (files : Files) (s t : Server) (directory : List PublicRoomsChunk)
      (inputs : List Input) (now : ℕ) (route : Route) (id : Text) (query : Query)
      → start gomatrix_client unmarshal_config public_rooms to_thumb_url config files ≡ some (ok s)
      → ((raw : RawClient G) → public_rooms raw ≡ ok (some directory))
      → to_uint32 config.num_workers ≡ 0
      → run to_thumb_url hash sorter unmarshal messages sync resolve inputs s ≡ some t
      → get_elem? id 0 ≡ some b'!'
      → handle to_thumb_url hash sorter unmarshal messages sync resolve now
          (room_request route id query)
          t
        ≡ none
  unfolding handle room_route
  run_no_workers config files s t directory inputs now route id query begun lists nobody ran bang =
      let first =
        started-IsRunning gomatrix_client unmarshal_config public_rooms to_thumb_url hash sorter
          unmarshal messages sync resolve config files s directory begun lists in
      let v =
        run-IsRunning to_thumb_url hash sorter unmarshal messages sync resolve directory inputs s t
          first ran in
      let full =
        PoolReach-IsFull sorter unmarshal messages sync hash _ (new_workers-IsFull _ s.client)
          (SiteReach-PoolReach hash sorter unmarshal messages sync v.reached) in
      let refused =
        load_room_no_workers to_thumb_url hash sorter unmarshal messages sync resolve hash-lt now id
          t.workers (full.count ∙ nobody) bang in
      rw refused refl
