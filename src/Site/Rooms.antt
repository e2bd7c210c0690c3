-- ===== src/Site/Rooms.antt =====
-- A request for a room, from its two jobs to the page.
use matrix_static.Prelude.{
  ℕ, zero, suc, ◌≡◌, refl, sym, ap, ◌∙◌, inl, inr, true, Option, some, List, [], ◌∷◌, ◌==◌, ==_iff,
  Option-cases, ◌>>=◌, get_elem?, ℤ, Text,
}
use matrix_static.Prelude.Maps.{Map, lookup}
use matrix_static.Gomatrix.{Content, Result}
use matrix_static.Member.{MemberInfo}
use matrix_static.Sort.{Sorter}
use matrix_static.State.{PowerLevels}
use matrix_static.Timeline.{Room, RoomInfo, RespInitialSync, Messages}
use matrix_static.Room.{EventPage}
use matrix_static.Replies.{reverse_events_copy-eq}
use matrix_static.Worker.{
  Worker, Job, JobResp, work, initial_sync, room_initial_sync_job, room_servers_resp,
  room_aliases_resp, room_members_resp, room_member_info_resp, room_power_levels_resp,
  room_events_resp,
}
use matrix_static.Worker.Answers.{IsAnswer, is_request, work-IsAnswer}
use matrix_static.Worker.Serving.{IsServing}
use matrix_static.Worker.Pool.{Workers, set_worker, get_worker_for_room_id, run_for_room}
use matrix_static.Worker.Pool.Sharding.{get_worker_for_room_id_lem}
use matrix_static.Site.{
  Query, Page, Route, chat, servers_list, aliases_list, members_list, power_levels, member_info,
  job_of, render, render_events, through, after_sync, load_room, room_route,
}

render_events-some :
    (query : Query) (info : RoomInfo) (member_map : Map MemberInfo) (page : EventPage)
    → (p : Page) × (render_events query info member_map page ≡ some p)
unfolding render_events
render_events-some query info member_map page =
    elim (Option-cases (render_events query info member_map page)) [
      | inr (p, h) ↦ (p, h)
      | inl h ↦ elim (Option-cases page.err) [
        | inl e ↦ absurd (cc (rw (e, render_events, reverse_events_copy-eq page.events) at h))
        | inr (t, e) ↦ absurd (cc (rw (e, render_events) at h))
      ]
    ]

-- What answers the job of a route passes the type assertion of the route, and makes a page.
pub render-some :
    (sorter : Sorter) (unmarshal : Content → Option PowerLevels) (messages : Messages)
    (sync : Text → ℤ → Result RespInitialSync) (rooms : Map Room) (route : Route) (id : Text)
    (query : Query) (resp : JobResp)
    → IsAnswer sorter unmarshal messages sync rooms (job_of route id query) resp
    → (page : Page) × (render route query resp ≡ some page)
unfolding render job_of
render-some _ _ _ _ rooms chat id query (room_events_resp info member_map page) a =
    render_events-some query info member_map page
render-some _ _ _ _ rooms servers_list id query (room_servers_resp info part size page) a =
    (_, refl)
render-some _ _ _ _ rooms aliases_list id query (room_aliases_resp info part size page) a =
    (_, refl)
render-some _ _ _ _ rooms members_list id query (room_members_resp info part size page) a =
    (_, refl)
render-some _ _ _ _ rooms power_levels id query (room_power_levels_resp info levels) a = (_, refl)
render-some _ _ _ _ rooms (member_info mxid) id query (room_member_info_resp info member e) a =
    (_, refl)
render-some _ _ _ _ rooms _ id query _ a = elim a [ ]

job_of-is_request :
    (route : Route) (id : Text) (query : Query) → is_request (job_of route id query) ≡ true
unfolding job_of
job_of-is_request chat id query = refl
job_of-is_request servers_list id query = refl
job_of-is_request aliases_list id query = refl
job_of-is_request members_list id query = refl
job_of-is_request power_levels id query = refl
job_of-is_request (member_info mxid) id query = refl

pub set_worker_same :
    (ws : List Worker) (n : ℕ) (w : Worker) → get_elem? ws n ≡ some w → set_worker ws n w ≡ ws
unfolding set_worker
set_worker_same [] n w h = refl
set_worker_same (v ∷ ws) zero w h = let e : v ≡ w = cc in ap (λ x. x ∷ ws) (sym e)
set_worker_same (v ∷ ws) (suc n) w h = ap (◌∷◌ v) (set_worker_same ws n w h)

get_elem-set_worker_same :
    (ws : List Worker) (n : ℕ) (v w : Worker)
    → get_elem? ws n ≡ some v
    → get_elem? (set_worker ws n w) n ≡ some w
unfolding set_worker
get_elem-set_worker_same [] n v w h = absurd (cc)
get_elem-set_worker_same (x ∷ ws) zero v w h = refl
get_elem-set_worker_same (x ∷ ws) (suc n) v w h = get_elem-set_worker_same ws n v w h

pub set_worker-set_worker :
    (ws : List Worker) (n : ℕ) (v w : Worker)
    → set_worker (set_worker ws n v) n w ≡ set_worker ws n w
unfolding set_worker
set_worker-set_worker [] n v w = refl
set_worker-set_worker (x ∷ ws) zero v w = refl
set_worker-set_worker (x ∷ ws) (suc n) v w = ap (◌∷◌ x) (set_worker-set_worker ws n v w)

module _ (hash : Text → ℕ) (sorter : Sorter) (unmarshal : Content → Option PowerLevels)
    (messages : Messages) (sync : Text → ℤ → Result RespInitialSync) where
  pub run_for_room-eq :
      (now : ℕ) (id : Text) (job : Job) (ws : Workers) (n : ℕ) (w w' : Worker) (resp : JobResp)
      → get_worker_for_room_id hash id ws ≡ some (n, w)
      → work sorter unmarshal messages sync now job w ≡ some (w', resp)
      → run_for_room hash sorter unmarshal messages sync now id job ws
        ≡ some (record ws { workers = set_worker ws.workers n w' }, resp)
  unfolding run_for_room
  run_for_room-eq now id job ws n w w' resp chosen ran = rw (chosen, ran) refl

  -- Once the worker has changed, it is still the worker of the room.
  pub get_worker-set_worker :
      (id : Text) (ws : Workers) (n : ℕ) (w w' : Worker)
      → get_worker_for_room_id hash id ws ≡ some (n, w)
      → get_worker_for_room_id hash id (record ws { workers = set_worker ws.workers n w' })
        ≡ some (n, w')
  unfolding get_worker_for_room_id
  get_worker-set_worker id ws n w w' chosen =
      let (remainder, found) = get_worker_for_room_id_lem hash id ws n w chosen in
      rw (remainder, get_elem-set_worker_same ws.workers n w w' found) refl

  -- A worker whose rooms include the room, or have come to include it, lets the request through.
  pub load_room-eq :
      (now : ℕ) (id : Text) (ws : Workers) (n : ℕ) (w : Worker)
      → get_elem? id 0 ≡ some b'!'
      → get_worker_for_room_id hash id ws ≡ some (n, w)
      → load_room hash sorter unmarshal messages sync now id ws ≡ (do
        loaded ← after_sync (initial_sync sorter unmarshal messages sync now id w).1
        some (
          record ws {
            workers =
                set_worker ws.workers n (initial_sync sorter unmarshal messages sync now id w).0;
          },
          loaded,
        ))
  unfolding load_room work
  load_room-eq now [] ws n w bang chosen = absurd (cc)
  load_room-eq now (c ∷ id) ws n w bang chosen =
      let mark : c ≡ b'!' = cc in
      let starts : (c == b'!') ≡ true = (==_iff c b'!').1 mark in
      let (w', resp) = initial_sync sorter unmarshal messages sync now (c ∷ id) w in
      rw
        (
          starts,
          run_for_room-eq now (c ∷ id) (room_initial_sync_job (c ∷ id)) ws n w w' resp chosen refl,
        )
        refl

  -- A room that its worker holds needs no sync.
  pub load_room-held :
      (now : ℕ) (id : Text) (ws : Workers) (n : ℕ) (w : Worker) (r : Room)
      → get_elem? id 0 ≡ some b'!'
      → get_worker_for_room_id hash id ws ≡ some (n, w)
      → lookup id w.rooms ≡ some r
      → load_room hash sorter unmarshal messages sync now id ws ≡ some (ws, through)
  unfolding initial_sync after_sync
  load_room-held now id ws n w r bang chosen there =
      let same : set_worker ws.workers n w ≡ ws.workers =
        set_worker_same ws.workers n w (get_worker_for_room_id_lem hash id ws n w chosen).1 in
      load_room-eq now id ws n w bang chosen
      ∙ rw (there, initial_sync, after_sync)
          (ap (λ l. some (record ws { workers = l }, through)) same)

  -- The rest of a request that is let through: the job runs at the worker of the room.
  pub room_route-through :
      (now : ℕ) (route : Route) (id : Text) (query : Query) (ws ws' : Workers) (n : ℕ)
      (w w' : Worker) (resp : JobResp)
      → load_room hash sorter unmarshal messages sync now id ws ≡ some (ws', through)
      → get_worker_for_room_id hash id ws' ≡ some (n, w)
      → IsServing w.rooms
      → work sorter unmarshal messages sync now (job_of route id query) w ≡ some (w', resp)
      → (page : Page) × (render route query resp ≡ some page)
        × (room_route hash sorter unmarshal messages sync now route id query ws
            ≡ some (record ws' { workers = set_worker ws'.workers n w' }, page))
  unfolding room_route
  room_route-through now route id query ws ws' n w w' resp loaded chosen v ran =
      let answer : IsAnswer sorter unmarshal messages sync w.rooms (job_of route id query) resp =
        work-IsAnswer sorter unmarshal messages sync now (job_of route id query) w w' resp v
          (job_of-is_request route id query) ran in
      let (page, made) =
        render-some sorter unmarshal messages sync w.rooms route id query resp answer in
      (
        page,
        made,
        rw (loaded, run_for_room-eq now id (job_of route id query) ws' n w w' resp chosen ran, made)
            refl,
      )

  -- A request for a room whose id begins with '!' and that its worker, with its rooms as they
  -- should be, holds: nothing is synced, the job of the route runs at that worker and changes
  -- that worker alone, and its answer passes the type assertion and makes the page. The handler
  -- panics only if the job does.
  pub room_route-held :
      (now : ℕ) (route : Route) (id : Text) (query : Query) (ws : Workers) (n : ℕ) (w w' : Worker)
      (r : Room) (resp : JobResp)
      → get_elem? id 0 ≡ some b'!'
      → get_worker_for_room_id hash id ws ≡ some (n, w)
      → lookup id w.rooms ≡ some r
      → IsServing w.rooms
      → work sorter unmarshal messages sync now (job_of route id query) w ≡ some (w', resp)
      → (page : Page) × (render route query resp ≡ some page)
        × (room_route hash sorter unmarshal messages sync now route id query ws
            ≡ some (record ws { workers = set_worker ws.workers n w' }, page))
  room_route-held now route id query ws n w w' r resp bang chosen there v ran =
      room_route-through now route id query ws ws n w w' resp
        (load_room-held now id ws n w r bang chosen there) chosen v ran
