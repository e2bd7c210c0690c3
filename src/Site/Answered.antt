-- ===== src/Site/Answered.antt =====
-- Requests that are answered with a page whatever the homeserver says.
use matrix_static.Prelude.{
  ℕ, ◌≡◌, refl, ◌∙◌, inl, inr, Bool, true, false, Option, none, some, Option-cases, get_elem?, ℤ,
  Text,
}
use matrix_static.Prelude.Maps.{lookup, insert, lookup-insert_self}
use matrix_static.Gomatrix.{Content, GoError, Result, Result-cases, ok, err}
use matrix_static.Sort.{Sorter}
use matrix_static.State.{PowerLevels}
use matrix_static.Timeline.{Room, RespInitialSync, Messages, new_room}
use matrix_static.Worker.{
  Worker, JobResp, work, serve, answer_member_info, answer_power_levels, initial_sync,
  room_initial_sync_resp, room_initial_sync_job,
}
use matrix_static.Worker.Serving.{IsServing, work-IsServing}
use matrix_static.Worker.Pool.{Workers, set_worker, get_worker_for_room_id}
use matrix_static.Site.{
  Query, Page, Route, power_levels, member_info, job_of, sync_error_page, through, aborted,
  after_sync, load_room, room_route,
}
use matrix_static.Site.Rooms.{
  load_room-eq, room_route-held, room_route-through, get_worker-set_worker,
}
use matrix_static.Site.Errors.{room_route-aborted}

-- The routes whose job takes no page from the query.
abbrev pub is_pageless : Route → Bool
is_pageless power_levels = true
is_pageless (member_info mxid) = true
is_pageless _ = false

module _ (hash : Text → ℕ) (sorter : Sorter) (unmarshal : Content → Option PowerLevels)
    (messages : Messages) (sync : Text → ℤ → Result RespInitialSync) where
  pageless-work-some :
      (now : ℕ) (route : Route) (id : Text) (query : Query) (w : Worker) (r : Room)
      → is_pageless route ≡ true
      → lookup id w.rooms ≡ some r
      → (w' : Worker) × (resp : JobResp) × (work sorter unmarshal messages sync now
            (job_of route id query)
            w
          ≡ some (w', resp))
  unfolding job_of work serve answer_power_levels answer_member_info
  pageless-work-some now power_levels id query w r p there = rw there (_, _, refl)
  pageless-work-some now (member_info mxid) id query w r p there =
      elim (Option-cases (lookup mxid r.latest_room_state.member_map)) [
        | inl e ↦ rw (there, e, answer_member_info) (_, _, refl)
        | inr (info, e) ↦ rw (there, e, answer_member_info) (_, _, refl)
      ]
  pageless-work-some now _ id query w r p there = absurd (cc)

  -- The first request for a room: the room is made and is then with its worker.
  load_room-made :
      (now : ℕ) (id : Text) (ws : Workers) (n : ℕ) (w : Worker) (r : Room)
      → get_elem? id 0 ≡ some b'!'
      → get_worker_for_room_id hash id ws ≡ some (n, w)
      → lookup id w.rooms ≡ none
      → new_room sorter unmarshal sync w.client id now ≡ ok r
      → load_room hash sorter unmarshal messages sync now id ws
        ≡ some (
          record ws {
            workers = set_worker ws.workers n (record w { rooms = insert id r w.rooms });
          },
          through,
        )
  unfolding initial_sync after_sync
  load_room-made now id ws n w r bang chosen missing made =
      load_room-eq hash sorter unmarshal messages sync now id ws n w bang chosen
      ∙ rw (missing, made, initial_sync, after_sync) refl

  -- The sync that made the room keeps the worker as it should be.
  made-IsServing :
      (now : ℕ) (id : Text) (w : Worker) (r : Room)
      → IsServing w.rooms
      → lookup id w.rooms ≡ none
      → new_room sorter unmarshal sync w.client id now ≡ ok r
      → IsServing (insert id r w.rooms)
  unfolding work initial_sync
  made-IsServing now id w r v missing made =
      work-IsServing sorter unmarshal messages sync now (room_initial_sync_job id) w
        (record w { rooms = insert id r w.rooms }) (room_initial_sync_resp none) v
        (rw (missing, made, initial_sync) refl)

  load_room-refused :
      (now : ℕ) (id : Text) (ws : Workers) (n : ℕ) (w : Worker) (e : GoError)
      → get_elem? id 0 ≡ some b'!'
      → get_worker_for_room_id hash id ws ≡ some (n, w)
      → lookup id w.rooms ≡ none
      → new_room sorter unmarshal sync w.client id now ≡ err e
      → load_room hash sorter unmarshal messages sync now id ws
        ≡ some (record ws { workers = set_worker ws.workers n w }, aborted (sync_error_page e))
  unfolding initial_sync after_sync
  load_room-refused now id ws n w e bang chosen missing failed =
      load_room-eq hash sorter unmarshal messages sync now id ws n w bang chosen
      ∙ rw (missing, failed, initial_sync, after_sync) refl

  -- A request for the power levels or for one member gets a page, whatever the pool holds and
  -- whatever the homeserver answers: the handlers, the sync and the job do not panic.
  pub room_route-answered :
      (now : ℕ) (route : Route) (id : Text) (query : Query) (ws : Workers) (n : ℕ) (w : Worker)
      → is_pageless route ≡ true
      → get_elem? id 0 ≡ some b'!'
      → get_worker_for_room_id hash id ws ≡ some (n, w)
      → IsServing w.rooms
      → (ws' : Workers) × (page : Page) × (room_route hash sorter unmarshal messages sync now route
            id query ws
          ≡ some (ws', page))
  room_route-answered now route id query ws n w p bang chosen v =
      elim (Option-cases (lookup id w.rooms)) [
        | inr (r, there) ↦
            let (w', resp, ran) = pageless-work-some now route id query w r p there in
            let (page, _, shown) =
              room_route-held hash sorter unmarshal messages sync now route id query ws n w w' r
                resp bang chosen there v ran in
            (_, page, shown)
        | inl missing ↦ elim (Result-cases (new_room sorter unmarshal sync w.client id now)) [
          | inl (e, failed) ↦ (
            ws,
            _,
            room_route-aborted hash sorter unmarshal messages sync now route id query ws _ _
                (load_room-refused now id ws n w e bang chosen missing failed),
          )
          | inr (r, made) ↦
              let there : lookup id (insert id r w.rooms) ≡ some r =
                lookup-insert_self id r w.rooms in
              let w₁ : Worker = record w { rooms = insert id r w.rooms } in
              let (w', resp, ran) = pageless-work-some now route id query w₁ r p there in
              let (page, _, shown) =
                room_route-through hash sorter unmarshal messages sync now route id query ws _ n w₁
                  w' resp (load_room-made now id ws n w r bang chosen missing made)
                  (get_worker-set_worker hash sorter unmarshal messages sync id ws n w w₁ chosen)
                  (made-IsServing now id w r v missing made) ran in
              (_, page, shown)
        ]
      ]
