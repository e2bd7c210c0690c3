-- ===== src/Worker/Serving.antt =====
-- The rooms of a worker under its jobs: no job breaks the map of rooms.
use mathlib.Core.Logic.Or
use mathlib.Core.List.{
  Mem, Mem-prop, Nodup-cons, mem-cons_self, mem-cons_of_mem, eq-or-mem_of_mem-cons,
}
use matrix_static.Prelude.{
  ℕ, ◌≡◌, refl, sym, ap, subst, inl, inr, Option, some, [], ◌∷◌, Bool-cases, Option-cases, All, ℤ,
  Text,
}
use matrix_static.Prelude.Maps.{Map, lookup, insert, keys}
use matrix_static.Prelude.Maps.Laws.{IsMap, insert-IsMap, insert-All, lookup-All}
use matrix_static.Gomatrix.{Content, Result, ok, Result-cases}
use matrix_static.Sort.{Sorter}
use matrix_static.State.{PowerLevels, Client, members, servers, deref}
use matrix_static.Utils.{page_of}
use matrix_static.Timeline.{
  Room, RespInitialSync, Messages, access, new_room, synced_room, room_initial_sync_limit,
}
use matrix_static.Timeline.Invariant.{IsLoaded, new_room-IsLoaded}
use matrix_static.Room.{get_event_page}
use matrix_static.Worker.{
  Worker, Job, JobResp, serve, work, initial_sync, discard, is_stale, forward_paginate_rooms,
  answer_servers, answer_aliases, answer_members, answer_member_info, answer_power_levels,
  answer_events, room_initial_sync_job, room_servers_job, room_aliases_job, room_members_job,
  room_member_info_job, room_power_levels_job, room_events_job, room_forward_paginate_job,
}
use matrix_static.Worker.Rooms.{
  bind_some, some_room, IsHeld, access-IsHeld, get_event_page-IsHeld, forward_paginate_room-IsHeld,
}

-- What a worker's map of rooms is: no id twice, and every room loaded and under its own id.
pub record IsServing (rooms : Map Room) : Type 0 where
  pub rooms_IsMap : IsMap rooms
  pub held : All (λ e. IsHeld e.0 e.1) rooms

insert-IsServing :
    (id : Text) (r : Room) (rooms : Map Room)
    → IsHeld id r
    → IsServing rooms
    → IsServing (insert id r rooms)
insert-IsServing id r rooms h v = record {
  rooms_IsMap = insert-IsMap id r rooms v.rooms_IsMap;
  held = insert-All (λ e. IsHeld e.0 e.1) id r rooms h v.held;
}

pub discard-mem :
    (now : ℕ) (j : Text) (rooms : Map Room) → Mem j (keys (discard now rooms)) → Mem j (keys rooms)
unfolding discard
discard-mem now j [] h = h
discard-mem now j ((id, r) ∷ rooms) h = elim (Bool-cases (is_stale now r)) [
  | inl e ↦ mem-cons_of_mem id (discard-mem now j rooms (rw e at h))
  | inr e ↦
      Or.elim Mem-prop (eq-or-mem_of_mem-cons (rw e at h)) (λ p. rw p mem-cons_self)
        (λ later. mem-cons_of_mem id (discard-mem now j rooms later))
]

discard-IsMap : (now : ℕ) (rooms : Map Room) → IsMap rooms → IsMap (discard now rooms)
unfolding discard
discard-IsMap now [] h = h
discard-IsMap now ((id, r) ∷ rooms) h =
    let (fresh, rest) = Nodup-cons.0 h in
    elim (Bool-cases (is_stale now r)) [
      | inl e ↦ rw e (discard-IsMap now rooms rest)
      | inr e ↦
          rw e (
            Nodup-cons.1
              (λ mem. fresh (discard-mem now id rooms mem), discard-IsMap now rooms rest))
    ]

discard-All :
    (P : Text × Room → Type 0) (now : ℕ) (rooms : Map Room)
    → All P rooms
    → All P (discard now rooms)
unfolding discard
discard-All P now [] h = h
discard-All P now ((id, r) ∷ rooms) (p, h) = elim (Bool-cases (is_stale now r)) [
  | inl e ↦ rw e (discard-All P now rooms h)
  | inr e ↦ rw e (p, discard-All P now rooms h)
]

serve-IsServing :
    (now : ℕ) (id : Text) (body : Room → Option (Room × JobResp)) (w w' : Worker) (resp : JobResp)
    → ((r r' : Room) (a : JobResp) → IsHeld id r → body r ≡ some (r', a) → IsHeld id r')
    → IsServing w.rooms
    → serve now id body w ≡ some (w', resp)
    → IsServing w'.rooms
unfolding serve
serve-IsServing now id body w w' resp keeps v h =
    let (r, found, h₁) = bind_some (lookup id w.rooms) _ h in
    let ((r', a), answered, h₂) = bind_some (body r) _ h₁ in
    let held : IsHeld id r = lookup-All (λ e. IsHeld e.0 e.1) id w.rooms v.held found in
    subst (λ (x : Worker). IsServing x.rooms) (some_room _ h₂)
      (insert-IsServing id (access now r') w.rooms
        (access-IsHeld now id r' (keeps r r' a held answered)) v)

-- The jobs that only read leave the room.
answer_servers-same :
    (page size : ℤ) (r r' : Room) (a : JobResp) → answer_servers page size r ≡ some (r', a) → r ≡ r'
unfolding answer_servers
answer_servers-same page size r r' a h =
    let (part, _, e) = bind_some (page_of (servers r.latest_room_state) page size) _ h in
    some_room _ e

answer_aliases-same :
    (page size : ℤ) (r r' : Room) (a : JobResp) → answer_aliases page size r ≡ some (r', a) → r ≡ r'
unfolding answer_aliases
answer_aliases-same page size r r' a h =
    let (part, _, e) = bind_some (page_of r.latest_room_state.aliases page size) _ h in
    some_room _ e

answer_members-same :
    (page size : ℤ) (r r' : Room) (a : JobResp) → answer_members page size r ≡ some (r', a) → r ≡ r'
unfolding answer_members
answer_members-same page size r r' a h =
    let (part, _, e) = bind_some (page_of (members r.latest_room_state) page size) _ h in
    let (infos, _, e') = bind_some (deref r.latest_room_state.member_map part) _ e in some_room _ e'

answer_member_info-same :
    (id mxid : Text) (r r' : Room) (a : JobResp)
    → answer_member_info id mxid r ≡ some (r', a)
    → r ≡ r'
unfolding answer_member_info
answer_member_info-same id mxid r r' a h =
    elim (Option-cases (lookup mxid r.latest_room_state.member_map)) [
      | inl e ↦ some_room _ (rw (e, answer_member_info) at h)
      | inr (info, e) ↦ some_room _ (rw (e, answer_member_info) at h)
    ]

answer_power_levels-same :
    (r r' : Room) (a : JobResp) → answer_power_levels r ≡ some (r', a) → r ≡ r'
unfolding answer_power_levels
answer_power_levels-same r r' a h = some_room _ h

module _ (sorter : Sorter) (unmarshal : Content → Option PowerLevels) (messages : Messages) where
  pub forward_paginate_rooms-keys :
      (rooms : Map Room)
      → keys (forward_paginate_rooms sorter unmarshal messages rooms) ≡ keys rooms
  unfolding forward_paginate_rooms
  forward_paginate_rooms-keys [] = refl
  forward_paginate_rooms-keys ((id, r) ∷ rooms) = ap (◌∷◌ id) (forward_paginate_rooms-keys rooms)

  forward_paginate_rooms-All :
      (rooms : Map Room)
      → All (λ e. IsHeld e.0 e.1) rooms
      → All (λ e. IsHeld e.0 e.1) (forward_paginate_rooms sorter unmarshal messages rooms)
  unfolding forward_paginate_rooms
  forward_paginate_rooms-All [] h = h
  forward_paginate_rooms-All ((id, r) ∷ rooms) (p, h) = (
    forward_paginate_room-IsHeld sorter unmarshal messages id r p,
    forward_paginate_rooms-All rooms h,
  )

  answer_events-IsHeld :
      (id anchor : Text) (offset size : ℤ) (r r' : Room) (a : JobResp)
      → IsHeld id r
      → answer_events sorter unmarshal messages anchor offset size r ≡ some (r', a)
      → IsHeld id r'
  unfolding answer_events
  answer_events-IsHeld id anchor offset size r r' a v h =
      let ((r₁, page), found, e) =
        bind_some (get_event_page sorter unmarshal messages r anchor offset size) _ h in
      subst (IsHeld id) (some_room _ e)
        (get_event_page-IsHeld sorter unmarshal messages id r r₁ anchor offset size page v found)

  module _ (sync : Text → ℤ → Result RespInitialSync) where
    new_room-IsHeld :
        (client : Client) (id : Text) (now : ℕ) (r : Room)
        → new_room sorter unmarshal sync client id now ≡ ok r
        → IsHeld id r
    unfolding new_room synced_room
    new_room-IsHeld client id now r h = elim (Result-cases (sync id room_initial_sync_limit)) [
      | inl (e, failed) ↦ absurd (cc (rw (failed, new_room) at h))
      | inr (resp, answered) ↦
          let (s, made, loaded, _) =
            new_room-IsLoaded sorter unmarshal sync client id now resp answered in
          let mine : ok (synced_room sorter unmarshal client id now resp) ≡ ok r =
            rw (answered, new_room) at h in
          let whole : synced_room sorter unmarshal client id now resp ≡ r = cc in
          let same : s ≡ r = cc in
          record {
            loaded = subst IsLoaded same loaded;
            own_id = sym (ap (λ (x : Room). x.id) whole);
          }
    ]

    initial_sync-IsServing :
        (now : ℕ) (id : Text) (w : Worker)
        → IsServing w.rooms
        → IsServing (initial_sync sorter unmarshal messages sync now id w).0.rooms
    unfolding initial_sync
    initial_sync-IsServing now id w v = elim (Option-cases (lookup id w.rooms)) [
      | inl missing ↦ elim (Result-cases (new_room sorter unmarshal sync w.client id now)) [
        | inl (e, failed) ↦ rw (missing, failed, initial_sync) v
        | inr (r, made) ↦
            rw (missing, made, initial_sync)
              (insert-IsServing id r w.rooms (new_room-IsHeld w.client id now r made) v)
      ]
      | inr (r, there) ↦ rw (there, initial_sync) v
    ]

    -- Every job that does not panic keeps the rooms of its worker as they should be: no id twice,
    -- each room under its own id, with a valid state and with nothing hidden in its timeline.
    pub work-IsServing :
        (now : ℕ) (job : Job) (w w' : Worker) (resp : JobResp)
        → IsServing w.rooms
        → work sorter unmarshal messages sync now job w ≡ some (w', resp)
        → IsServing w'.rooms
    unfolding work
    work-IsServing now (room_initial_sync_job id) w w' resp v h =
        subst (λ (x : Worker). IsServing x.rooms) (some_room _ h)
          (initial_sync-IsServing now id w v)
    work-IsServing now (room_servers_job id page size) w w' resp v h =
        serve-IsServing now id (answer_servers page size) w w' resp
          (λ r r' a x e. subst (IsHeld id) (answer_servers-same page size r r' a e) x) v h
    work-IsServing now (room_aliases_job id page size) w w' resp v h =
        serve-IsServing now id (answer_aliases page size) w w' resp
          (λ r r' a x e. subst (IsHeld id) (answer_aliases-same page size r r' a e) x) v h
    work-IsServing now (room_members_job id page size) w w' resp v h =
        serve-IsServing now id (answer_members page size) w w' resp
          (λ r r' a x e. subst (IsHeld id) (answer_members-same page size r r' a e) x) v h
    work-IsServing now (room_member_info_job id mxid) w w' resp v h =
        serve-IsServing now id (answer_member_info id mxid) w w' resp
          (λ r r' a x e. subst (IsHeld id) (answer_member_info-same id mxid r r' a e) x) v h
    work-IsServing now (room_power_levels_job id) w w' resp v h =
        serve-IsServing now id answer_power_levels w w' resp
          (λ r r' a x e. subst (IsHeld id) (answer_power_levels-same r r' a e) x) v h
    work-IsServing now (room_events_job id anchor offset size) w w' resp v h =
        serve-IsServing now id (answer_events sorter unmarshal messages anchor offset size) w w'
          resp (answer_events-IsHeld id anchor offset size) v h
    work-IsServing now room_forward_paginate_job w w' resp v h =
        subst (λ (x : Worker). IsServing x.rooms) (some_room _ h)
          (record {
            rooms_IsMap =
                rw (forward_paginate_rooms-keys (discard now w.rooms))
                  (discard-IsMap now w.rooms v.rooms_IsMap);
            held =
                forward_paginate_rooms-All (discard now w.rooms) (discard-All _ now w.rooms v.held);
          })
