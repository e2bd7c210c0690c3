-- ===== src/Site/Reach.antt =====
-- The site from its start on: any sequence of requests and of rounds of the forward paginator.
use matrix_static.Prelude.{
  ℕ, ◌^◌, ◌<◌, ◌≡◌, refl, subst, ◌⊎◌, inl, inr, true, Option, some, [], ◌∷◌, ◌==◌, Bool-cases,
  get_elem?, ℤ, Text,
}
use matrix_static.Gomatrix.{Content, Result}
use matrix_static.Sort.{Sorter}
use matrix_static.State.{PowerLevels, Client}
use matrix_static.Timeline.{RespInitialSync, Messages}
use matrix_static.Worker.{Job, JobResp, room_initial_sync_job, room_forward_paginate_job}
use matrix_static.Worker.Rooms.{bind_some, some_room}
use matrix_static.Worker.Pool.{Workers, new_workers, run_for_room, run_for_all}
use matrix_static.Worker.Pool.Sharding.{IsAbout, get_worker_for_room_id_lem}
use matrix_static.Worker.Pool.Reach.{
  PoolReach, request, round, made, after, new_workers-IsSound, PoolReach-IsSound,
}
use matrix_static.Worker.Pool.Shape.{
  new_workers-IsFull, get_worker_for_room_id-full, PoolReach-IsFull,
}
use matrix_static.Site.{
  Query, Page, Route, chat, servers_list, aliases_list, members_list, power_levels, member_info,
  job_of, render, Loaded, through, aborted, after_sync, load_room, room_route, forward_paginate_all,
}
use matrix_static.Site.Answered.{is_pageless, room_route-answered}

job_of-IsAbout : (route : Route) (id : Text) (query : Query) → IsAbout id (job_of route id query)
unfolding job_of
job_of-IsAbout chat id query = refl
job_of-IsAbout servers_list id query = refl
job_of-IsAbout aliases_list id query = refl
job_of-IsAbout members_list id query = refl
job_of-IsAbout power_levels id query = refl
job_of-IsAbout (member_info mxid) id query = refl

Loaded-cases : (loaded : Loaded) → (loaded ≡ through) ⊎ ((page : Page) × (loaded ≡ aborted page))
Loaded-cases through = inl refl
Loaded-cases (aborted page) = inr (page, refl)

module _ (hash : Text → ℕ) (sorter : Sorter) (unmarshal : Content → Option PowerLevels)
    (messages : Messages) (sync : Text → ℤ → Result RespInitialSync) where
  -- What the site does with its pool.
  pub data SiteReach (ws : Workers) : Workers → Type 0 where
    opened : SiteReach ws ws
    visited :
        {t u : Workers}
        → SiteReach ws t
        → (now : ℕ) (route : Route) (id : Text) (query : Query) (page : Page)
        → room_route hash sorter unmarshal messages sync now route id query t ≡ some (u, page)
        → SiteReach ws u
    refreshed :
        {t u : Workers}
        → SiteReach ws t
        → (now : ℕ) → forward_paginate_all hash sorter unmarshal messages sync now t ≡ some u
        → SiteReach ws u

  -- A job of a room is a step of the pool.
  ran :
      {ws t u : Workers} (now : ℕ) (id : Text) (job : Job) (resp : JobResp)
      → IsAbout id job
      → PoolReach sorter unmarshal messages sync hash ws t
      → run_for_room hash sorter unmarshal messages sync now id job t ≡ some (u, resp)
      → PoolReach sorter unmarshal messages sync hash ws u
  ran now id job resp about r h = after r (request now id job resp about h)

  load_room-PoolReach :
      {ws : Workers} (now : ℕ) (id : Text) (t u : Workers) (loaded : Loaded)
      → PoolReach sorter unmarshal messages sync hash ws t
      → load_room hash sorter unmarshal messages sync now id t ≡ some (u, loaded)
      → PoolReach sorter unmarshal messages sync hash ws u
  unfolding load_room
  load_room-PoolReach now [] t u loaded r h = absurd (cc)
  load_room-PoolReach {ws} now (c ∷ id) t u loaded r h = elim (Bool-cases (c == b'!')) [
    | inl bang ↦
        let ((t', resp), synced, h₁) =
          bind_some
            (run_for_room hash sorter unmarshal messages sync now (c ∷ id)
              (room_initial_sync_job (c ∷ id)) t)
            _ (rw (bang, load_room) at h) in
        let (l, _, h₂) = bind_some (after_sync resp) _ h₁ in
        subst (PoolReach sorter unmarshal messages sync hash ws) (some_room _ h₂)
          (ran now (c ∷ id) (room_initial_sync_job (c ∷ id)) resp refl r synced)
    | inr other ↦
        subst (PoolReach sorter unmarshal messages sync hash ws)
          (some_room _ (rw (other, load_room) at h)) r
  ]

  room_route-PoolReach :
      {ws : Workers} (now : ℕ) (route : Route) (id : Text) (query : Query) (t u : Workers)
      (page : Page)
      → PoolReach sorter unmarshal messages sync hash ws t
      → room_route hash sorter unmarshal messages sync now route id query t ≡ some (u, page)
      → PoolReach sorter unmarshal messages sync hash ws u
  unfolding room_route
  room_route-PoolReach {ws} now route id query t u page r h =
      let ((t₁, loaded), first, h₁) =
        bind_some (load_room hash sorter unmarshal messages sync now id t) _ h in
      let r₁ = load_room-PoolReach now id t t₁ loaded r first in
      elim (Loaded-cases loaded) [
        | inr (p, turned) ↦
            subst (PoolReach sorter unmarshal messages sync hash ws) (some_room _ (rw turned at h₁))
              r₁
        | inl let_in ↦
            let ((t₂, resp), worked, e₁) =
              bind_some
                (run_for_room hash sorter unmarshal messages sync now id (job_of route id query) t₁)
                _ (rw let_in at h₁) in
            let (p, _, e₂) = bind_some (render route query resp) _ e₁ in
            subst (PoolReach sorter unmarshal messages sync hash ws) (some_room _ e₂)
              (ran now id (job_of route id query) resp (job_of-IsAbout route id query) r₁ worked)
      ]

  forward_paginate_all-PoolReach :
      {ws : Workers} (now : ℕ) (t u : Workers)
      → PoolReach sorter unmarshal messages sync hash ws t
      → forward_paginate_all hash sorter unmarshal messages sync now t ≡ some u
      → PoolReach sorter unmarshal messages sync hash ws u
  unfolding forward_paginate_all
  forward_paginate_all-PoolReach now t u r h =
      let (workers, all, e) =
        bind_some
          (run_for_all hash sorter unmarshal messages sync now room_forward_paginate_job t.workers)
          _ h in
      let same : u ≡ record t { workers = workers } = cc in after r (round now workers all same)

  -- Requests and rounds are steps of the pool, two at most each.
  pub SiteReach-PoolReach :
      {ws t : Workers} → SiteReach ws t → PoolReach sorter unmarshal messages sync hash ws t
  SiteReach-PoolReach opened = made
  SiteReach-PoolReach (visited {t} {u} r now route id query page h) =
      room_route-PoolReach now route id query t u page (SiteReach-PoolReach r) h
  SiteReach-PoolReach (refreshed {t} {u} r now h) =
      forward_paginate_all-PoolReach now t u (SiteReach-PoolReach r) h

  -- Whatever has been requested of a site that was started with at least one worker, a request
  -- for the power levels or for one member of a room, whose id begins with '!' and has a hash of
  -- 32 bits, gets a page: neither the handlers nor the jobs panic, whatever the homeserver
  -- answers.
  pub reachable-answered :
      (n : ℕ) (client : Client) (ws : Workers) (now : ℕ) (route : Route) (id : Text) (query : Query)
      → 0 < n
      → hash id < 2 ^ 32
      → SiteReach (new_workers n client) ws
      → is_pageless route ≡ true
      → get_elem? id 0 ≡ some b'!'
      → (ws' : Workers) × (page : Page) × (room_route hash sorter unmarshal messages sync now route
            id query ws
          ≡ some (ws', page))
  reachable-answered n client ws now route id query some_worker small r pageless bang =
      let steps = SiteReach-PoolReach r in
      let full =
        PoolReach-IsFull sorter unmarshal messages sync hash n (new_workers-IsFull n client)
          steps in
      let sound =
        PoolReach-IsSound sorter unmarshal messages sync hash (new_workers-IsSound hash n client)
          steps in
      let (k, w, chosen) = get_worker_for_room_id-full hash id n ws full some_worker small in
      let (_, there) = get_worker_for_room_id_lem hash id ws k w chosen in
      room_route-answered hash sorter unmarshal messages sync now route id query ws k w pageless
        bang chosen (sound.serving k w there)
