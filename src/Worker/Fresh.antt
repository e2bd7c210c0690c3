-- ===== src/Worker/Fresh.antt =====
-- The rooms that a worker keeps: one that was accessed a short while ago stays, whatever comes in
-- between.
use matrix_static.Prelude.{
  ℕ, ◌+◌, ◌≤◌, ◌≡◌, refl, sym, ◌∙◌, subst, inl, inr, false, Bool-cases, Option, some, List, [], ◌∷◌,
  ◌>>=◌, All, arith, Option-cases, ℤ, pos, Text, text_eq, text_eq_iff,
}
use matrix_static.Prelude.Maps.{Map, lookup, lookup-insert}
use matrix_static.Gomatrix.{Content, Result, Result-cases}
use matrix_static.Sort.{Sorter}
use matrix_static.State.{PowerLevels}
use matrix_static.Utils.{max_int}
use matrix_static.Timeline.{
  Room, RespInitialSync, Messages, forward, minimum_pagination, new_room, forwardpaginate_room,
  concat_forward_pagination, forward_paginate_room,
}
use matrix_static.Worker.{
  Worker, Job, JobResp, serve, work, initial_sync, is_stale, last_access_discard_duration,
  answer_servers, answer_aliases, answer_members, answer_member_info, answer_power_levels,
  answer_events, room_initial_sync_job, room_servers_job, room_aliases_job, room_members_job,
  room_member_info_job, room_power_levels_job, room_events_job, room_forward_paginate_job,
}
use matrix_static.Worker.Rooms.{bind_some, some_room}
use matrix_static.Worker.Pages.{serve-accessed, serve-other_rooms}
use matrix_static.Worker.Serving.{IsServing, work-IsServing}
use matrix_static.Worker.Discard.{kept_recent, work_forward_paginate-lookup}

-- The worker holds the room, and it was accessed at the time or later.
abbrev pub HasFresh : ℕ → Text → Map Room → Type 0
HasFresh since id rooms = (r : Room) × (lookup id rooms ≡ some r) × (since ≤ r.last_access)

is_stale-false :
    (now : ℕ) (r : Room)
    → now ≤ r.last_access + last_access_discard_duration
    → is_stale now r ≡ false
unfolding is_stale
is_stale-false now r h = ground arith

serve-HasFresh :
    (since now : ℕ) (id j : Text) (body : Room → Option (Room × JobResp)) (w w' : Worker)
    (resp : JobResp)
    → since ≤ now
    → HasFresh since id w.rooms
    → serve now j body w ≡ some (w', resp)
    → HasFresh since id w'.rooms
serve-HasFresh since now id j body w w' resp later (r, found, fresh) h =
    elim (Bool-cases (text_eq j id)) [
      | inl e ↦
          let (r', there, at_now) = serve-accessed now j body w w' resp h in
          let same : j ≡ id = (text_eq_iff j id).0 e in
          (r', subst (λ k. lookup k w'.rooms ≡ some r') same there, omega arith)
      | inr e ↦ (r, serve-other_rooms now j id body w w' resp e h ∙ found, fresh)
    ]

module _ (sorter : Sorter) (unmarshal : Content → Option PowerLevels) (messages : Messages)
    (sync : Text → ℤ → Result RespInitialSync) where
  initial_sync-HasFresh :
      (since now : ℕ) (id j : Text) (w : Worker)
      → HasFresh since id w.rooms
      → HasFresh since id (initial_sync sorter unmarshal messages sync now j w).0.rooms
  unfolding initial_sync
  initial_sync-HasFresh since now id j w (r, found, fresh) =
      elim (Option-cases (lookup j w.rooms)) [
        | inr (r', e) ↦ rw (e, initial_sync) (r, found, fresh)
        | inl e ↦ elim (Result-cases (new_room sorter unmarshal sync w.client j now)) [
          | inl (error, failed) ↦ rw (e, failed, initial_sync) (r, found, fresh)
          | inr (r', made) ↦ elim (Bool-cases (text_eq j id)) [
            | inl same ↦
                let there : lookup j w.rooms ≡ some r =
                  subst (λ k. lookup k w.rooms ≡ some r) (sym ((text_eq_iff j id).0 same)) found in
                absurd (cc)
            | inr other ↦
                rw (e, made, initial_sync)
                  (r, lookup-insert j id r' w.rooms ∙ rw other found, fresh)
          ]
        ]
      ]

  last_access-forwardpaginate_room :
      (r : Room) (amount : ℤ)
      → (forwardpaginate_room sorter unmarshal messages r amount).0.last_access ≡ r.last_access
  unfolding forwardpaginate_room concat_forward_pagination
  last_access-forwardpaginate_room r amount =
      elim (Result-cases
        (messages r.id r.forward_pagination_token forward (max_int amount minimum_pagination))) [
          | inl (e, h) ↦ rw (h, forwardpaginate_room) refl
          | inr (resp, h) ↦ rw (h, forwardpaginate_room) refl
        ]

  last_access-forward_paginate_room :
      (r : Room) → (forward_paginate_room sorter unmarshal messages r).last_access ≡ r.last_access
  unfolding forward_paginate_room
  last_access-forward_paginate_room r = last_access-forwardpaginate_room r (pos 0)

  round-HasFresh :
      (since now : ℕ) (id : Text) (w w' : Worker) (resp : JobResp)
      → now ≤ since + last_access_discard_duration
      → IsServing w.rooms
      → HasFresh since id w.rooms
      → work sorter unmarshal messages sync now room_forward_paginate_job w ≡ some (w', resp)
      → HasFresh since id w'.rooms
  round-HasFresh since now id w w' resp soon v (r, found, fresh) h =
      let (u, ran, left) =
        work_forward_paginate-lookup sorter unmarshal messages sync now w id v.rooms_IsMap in
      let same : u ≡ w' = some_room _ (sym ran ∙ h) in
      let recent = kept_recent now r (is_stale-false now r (omega arith)) in
      let there : lookup id u.rooms ≡ some (forward_paginate_room sorter unmarshal messages r) =
        rw (found, recent) at left in
      (
        forward_paginate_room sorter unmarshal messages r,
        subst
            (λ (x : Worker).
              lookup id x.rooms ≡ some (forward_paginate_room sorter unmarshal messages r))
            same there,
        rw (last_access-forward_paginate_room r) fresh,
      )

  work-HasFresh :
      (since now : ℕ) (id : Text) (job : Job) (w w' : Worker) (resp : JobResp)
      → since ≤ now
      → now ≤ since + last_access_discard_duration
      → IsServing w.rooms
      → HasFresh since id w.rooms
      → work sorter unmarshal messages sync now job w ≡ some (w', resp)
      → HasFresh since id w'.rooms
  unfolding work
  work-HasFresh since now id (room_initial_sync_job j) w w' resp later soon v f h =
      subst (λ (x : Worker). HasFresh since id x.rooms) (some_room _ h)
        (initial_sync-HasFresh since now id j w f)
  work-HasFresh since now id (room_servers_job j page size) w w' resp later soon v f h =
      serve-HasFresh since now id j (answer_servers page size) w w' resp later f h
  work-HasFresh since now id (room_aliases_job j page size) w w' resp later soon v f h =
      serve-HasFresh since now id j (answer_aliases page size) w w' resp later f h
  work-HasFresh since now id (room_members_job j page size) w w' resp later soon v f h =
      serve-HasFresh since now id j (answer_members page size) w w' resp later f h
  work-HasFresh since now id (room_member_info_job j mxid) w w' resp later soon v f h =
      serve-HasFresh since now id j (answer_member_info j mxid) w w' resp later f h
  work-HasFresh since now id (room_power_levels_job j) w w' resp later soon v f h =
      serve-HasFresh since now id j answer_power_levels w w' resp later f h
  work-HasFresh since now id (room_events_job j anchor offset size) w w' resp later soon v f h =
      serve-HasFresh since now id j (answer_events sorter unmarshal messages anchor offset size) w
        w' resp later f h
  work-HasFresh since now id room_forward_paginate_job w w' resp later soon v f h =
      round-HasFresh since now id w w' resp soon v f h

  -- The jobs that a worker takes, one after the other.
  unfoldable pub work_all : List (ℕ × Job) → Worker → Option Worker
  unfolding work
  work_all [] w = some w
  work_all ((now, job) ∷ jobs) w = do
    (w', resp) ← work sorter unmarshal messages sync now job w
    work_all jobs w'

  work_all-HasFresh :
      (since : ℕ) (id : Text) (jobs : List (ℕ × Job)) (w w' : Worker)
      → All (λ j. (since ≤ j.0) × (j.0 ≤ since + last_access_discard_duration)) jobs
      → IsServing w.rooms
      → HasFresh since id w.rooms
      → work_all jobs w ≡ some w'
      → HasFresh since id w'.rooms
  unfolding work_all
  work_all-HasFresh since id [] w w' times v f h =
      let same : w ≡ w' = cc in subst (λ (x : Worker). HasFresh since id x.rooms) same f
  work_all-HasFresh since id ((now, job) ∷ jobs) w w' ((later, soon), times) v f h =
      let ((u, resp), ran, h₁) = bind_some (work sorter unmarshal messages sync now job w) _ h in
      work_all-HasFresh since id jobs u w' times
        (work-IsServing sorter unmarshal messages sync now job w u resp v ran)
        (work-HasFresh since now id job w u resp later soon v f ran) h₁

  -- A room that a worker holds, and that was accessed at the time `since` or later, is not lost
  -- within half an hour of `since`: whatever jobs without a panic the worker takes from then on until
  -- then, on this room or others, and rounds of the forward paginator, a request for the power levels
  -- of the room that follows is answered.
  pub work_all-answered :
      (since after : ℕ) (id : Text) (jobs : List (ℕ × Job)) (w w' : Worker)
      → All (λ j. (since ≤ j.0) × (j.0 ≤ since + last_access_discard_duration)) jobs
      → IsServing w.rooms
      → HasFresh since id w.rooms
      → work_all jobs w ≡ some w'
      → (w'' : Worker) × (resp : JobResp) × (work sorter unmarshal messages sync after
            (room_power_levels_job id)
            w'
          ≡ some (w'', resp))
  unfolding work serve answer_power_levels
  work_all-answered since after id jobs w w' times v f h =
      let (r, found, fresh) = work_all-HasFresh since id jobs w w' times v f h in
      rw found (_, _, refl)
