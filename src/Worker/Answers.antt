-- ===== src/Worker/Answers.antt =====
-- Which response answers which job: what the type assertions of the handlers rely on.
use matrix_static.Prelude.{
  ℕ, ◌≡◌, refl, ap, subst, ◌⊎◌, inl, inr, List, Bool, true, false, Option, none, some, Option-cases,
  ℤ, Text,
}
use matrix_static.Prelude.Maps.{Map, lookup}
use matrix_static.Prelude.Maps.Laws.{lookup-All}
use matrix_static.Gomatrix.{Content, Result, Result-cases, ok, err}
use matrix_static.State.Invariant.{lookup-Named}
use matrix_static.Sort.{Sorter}
use matrix_static.State.{PowerLevels, members, servers, deref}
use matrix_static.Utils.{page_of}
use matrix_static.Timeline.{
  Room, RespInitialSync, Messages, room_info, new_room, room_initial_sync_limit,
}
use matrix_static.Room.{get_event_page}
use matrix_static.Worker.{
  Worker, Job, JobResp, serve, work, initial_sync, answer_servers, answer_aliases, answer_members,
  answer_member_info, answer_power_levels, answer_events, room_initial_sync_job, room_servers_job,
  room_aliases_job, room_members_job, room_member_info_job, room_power_levels_job, room_events_job,
  room_forward_paginate_job, room_initial_sync_resp, room_servers_resp, room_aliases_resp,
  room_members_resp, room_member_info_resp, room_power_levels_resp, room_events_resp,
}
use matrix_static.Worker.Rooms.{bind_some, IsHeld}
use matrix_static.Worker.Serving.{IsServing}

-- A job that a handler sends, and for which it then reads `Output`.
abbrev pub is_request : Job → Bool
is_request room_forward_paginate_job = false
is_request _ = true

pub some_resp : {A B : Type 0} (t : A × B) {x : A} {y : B} → some t ≡ some (x, y) → t.1 ≡ y
some_resp t {x} {y} h = let e : t ≡ (x, y) = cc in ap (λ u. u.1) e

module _ (sorter : Sorter) (unmarshal : Content → Option PowerLevels) (messages : Messages)
    (sync : Text → ℤ → Result RespInitialSync) where
  -- The response, of the type that the handler asserts, to a job on a room of these: the information
  -- on it, and the part of its list, the member, the power levels or the events that the job asks for.
  -- An initial sync reports the error of the homeserver, or that the room is there or has been synced.
  abbrev pub IsAnswer : Map Room → Job → JobResp → Type 0
  IsAnswer rooms (room_initial_sync_job id) (room_initial_sync_resp none) =
      ((r : Room) × (lookup id rooms ≡ some r))
      ⊎ ((resp : RespInitialSync) × (sync id room_initial_sync_limit ≡ ok resp))
  IsAnswer rooms (room_initial_sync_job id) (room_initial_sync_resp (some e)) =
      (lookup id rooms ≡ none) × (sync id room_initial_sync_limit ≡ err e)
  IsAnswer rooms (room_servers_job id p n) (room_servers_resp info part size page) =
      (r : Room) × (lookup id rooms ≡ some r)
      × (r.id ≡ id)
      × (info ≡ room_info r)
      × (page_of (servers r.latest_room_state) p n ≡ some part)
      × (size ≡ n)
      × (page ≡ p)
  IsAnswer rooms (room_aliases_job id p n) (room_aliases_resp info part size page) =
      (r : Room) × (lookup id rooms ≡ some r)
      × (r.id ≡ id)
      × (info ≡ room_info r)
      × (page_of r.latest_room_state.aliases p n ≡ some part)
      × (size ≡ n)
      × (page ≡ p)
  IsAnswer rooms (room_members_job id p n) (room_members_resp info infos size page) =
      (r : Room) × (lookup id rooms ≡ some r)
      × (r.id ≡ id)
      × (info ≡ room_info r)
      × ((part : List Text) × (page_of (members r.latest_room_state) p n ≡ some part)
          × (deref r.latest_room_state.member_map part ≡ some infos))
      × (size ≡ n)
      × (page ≡ p)
  IsAnswer rooms (room_member_info_job id mxid) (room_member_info_resp info (some member) none) =
      (r : Room) × (lookup id rooms ≡ some r)
      × (r.id ≡ id)
      × (info ≡ room_info r)
      × (lookup mxid r.latest_room_state.member_map ≡ some member)
      × (member.mxid ≡ mxid)
  IsAnswer rooms (room_member_info_job id mxid) (room_member_info_resp info none (some e)) =
      (r : Room) × (lookup id rooms ≡ some r)
      × (r.id ≡ id)
      × (info ≡ room_info r)
      × (lookup mxid r.latest_room_state.member_map ≡ none)
      × (e.room_id ≡ id)
      × (e.mxid ≡ mxid)
  IsAnswer rooms (room_power_levels_job id) (room_power_levels_resp info levels) =
      (r : Room) × (lookup id rooms ≡ some r)
      × (r.id ≡ id)
      × (info ≡ room_info r)
      × (levels ≡ r.latest_room_state.power_levels)
  IsAnswer rooms (room_events_job id anchor offset n) (room_events_resp info member_map page) =
      (r : Room) × (r' : Room) × (lookup id rooms ≡ some r)
      × (r.id ≡ id)
      × (get_event_page sorter unmarshal messages r anchor offset n ≡ some (r', page))
      × (info ≡ room_info r')
      × (member_map ≡ r'.latest_room_state.member_map)
  IsAnswer rooms _ _ = ⊥

  -- What a served job answers is what its body answers for the room of that id.
  serve-answers :
      (P : JobResp → Type 0) (now : ℕ) (id : Text) (body : Room → Option (Room × JobResp))
      (w w' : Worker) (resp : JobResp)
      → IsServing w.rooms
      → ((r r' : Room) (a : JobResp)
          → lookup id w.rooms ≡ some r
          → IsHeld id r
          → body r ≡ some (r', a)
          → P a)
      → serve now id body w ≡ some (w', resp)
      → P resp
  unfolding serve
  serve-answers P now id body w w' resp v all h =
      let (r, found, h₁) = bind_some (lookup id w.rooms) _ h in
      let ((r', a), answered, h₂) = bind_some (body r) _ h₁ in
      let held : IsHeld id r = lookup-All (λ e. IsHeld e.0 e.1) id w.rooms v.held found in
      subst P (some_resp _ h₂) (all r r' a found held answered)

  answer_servers-IsAnswer :
      (rooms : Map Room) (id : Text) (p n : ℤ) (r r' : Room) (a : JobResp)
      → lookup id rooms ≡ some r
      → IsHeld id r
      → answer_servers p n r ≡ some (r', a)
      → IsAnswer rooms (room_servers_job id p n) a
  unfolding answer_servers
  answer_servers-IsAnswer rooms id p n r r' a found v h =
      let (part, cut, e) = bind_some (page_of (servers r.latest_room_state) p n) _ h in
      subst (IsAnswer rooms (room_servers_job id p n)) (some_resp _ e)
        (r, found, v.own_id, refl, cut, refl, refl)

  answer_aliases-IsAnswer :
      (rooms : Map Room) (id : Text) (p n : ℤ) (r r' : Room) (a : JobResp)
      → lookup id rooms ≡ some r
      → IsHeld id r
      → answer_aliases p n r ≡ some (r', a)
      → IsAnswer rooms (room_aliases_job id p n) a
  unfolding answer_aliases
  answer_aliases-IsAnswer rooms id p n r r' a found v h =
      let (part, cut, e) = bind_some (page_of r.latest_room_state.aliases p n) _ h in
      subst (IsAnswer rooms (room_aliases_job id p n)) (some_resp _ e)
        (r, found, v.own_id, refl, cut, refl, refl)

  answer_members-IsAnswer :
      (rooms : Map Room) (id : Text) (p n : ℤ) (r r' : Room) (a : JobResp)
      → lookup id rooms ≡ some r
      → IsHeld id r
      → answer_members p n r ≡ some (r', a)
      → IsAnswer rooms (room_members_job id p n) a
  unfolding answer_members
  answer_members-IsAnswer rooms id p n r r' a found v h =
      let (part, cut, e) = bind_some (page_of (members r.latest_room_state) p n) _ h in
      let (infos, read, e') = bind_some (deref r.latest_room_state.member_map part) _ e in
      subst (IsAnswer rooms (room_members_job id p n)) (some_resp _ e')
        (r, found, v.own_id, refl, (part, cut, read), refl, refl)

  answer_member_info-IsAnswer :
      (rooms : Map Room) (id mxid : Text) (r r' : Room) (a : JobResp)
      → lookup id rooms ≡ some r
      → IsHeld id r
      → answer_member_info id mxid r ≡ some (r', a)
      → IsAnswer rooms (room_member_info_job id mxid) a
  unfolding answer_member_info
  answer_member_info-IsAnswer rooms id mxid r r' a found v h =
      elim (Option-cases (lookup mxid r.latest_room_state.member_map)) [
        | inl e ↦
            subst (IsAnswer rooms (room_member_info_job id mxid))
              (some_resp _ (rw (e, answer_member_info) at h))
              (r, found, v.own_id, refl, e, refl, refl)
        | inr (info, e) ↦
            subst (IsAnswer rooms (room_member_info_job id mxid))
              (some_resp _ (rw (e, answer_member_info) at h))
              (r, found, v.own_id, refl, e, lookup-Named mxid _ v.loaded.state.named e)
      ]

  answer_power_levels-IsAnswer :
      (rooms : Map Room) (id : Text) (r r' : Room) (a : JobResp)
      → lookup id rooms ≡ some r
      → IsHeld id r
      → answer_power_levels r ≡ some (r', a)
      → IsAnswer rooms (room_power_levels_job id) a
  unfolding answer_power_levels
  answer_power_levels-IsAnswer rooms id r r' a found v h =
      subst (IsAnswer rooms (room_power_levels_job id)) (some_resp _ h)
        (r, found, v.own_id, refl, refl)

  answer_events-IsAnswer :
      (rooms : Map Room) (id anchor : Text) (offset n : ℤ) (r r' : Room) (a : JobResp)
      → lookup id rooms ≡ some r
      → IsHeld id r
      → answer_events sorter unmarshal messages anchor offset n r ≡ some (r', a)
      → IsAnswer rooms (room_events_job id anchor offset n) a
  unfolding answer_events
  answer_events-IsAnswer rooms id anchor offset n r r' a found v h =
      let ((r₁, page), cut, e) =
        bind_some (get_event_page sorter unmarshal messages r anchor offset n) _ h in
      subst (IsAnswer rooms (room_events_job id anchor offset n)) (some_resp _ e)
        (r, r₁, found, v.own_id, cut, refl, refl)

  initial_sync-IsAnswer :
      (now : ℕ) (id : Text) (w : Worker)
      → IsAnswer w.rooms
          (room_initial_sync_job id)
          (initial_sync sorter unmarshal messages sync now id w).1
  unfolding initial_sync new_room
  initial_sync-IsAnswer now id w = elim (Option-cases (lookup id w.rooms)) [
    | inl missing ↦ elim (Result-cases (sync id room_initial_sync_limit)) [
      | inl (e, failed) ↦ rw (missing, failed, initial_sync) (missing, failed)
      | inr (resp, synced) ↦ rw (missing, synced, initial_sync) (inr (resp, synced))
    ]
    | inr (r, there) ↦ rw (there, initial_sync) (inl (r, there))
  ]

  -- What a worker, with its rooms as they should be, answers to a request answers that request, from
  -- the room with its id: a list with the part that the page and the size of the job cut out, a
  -- member with the member of that id or with the error, the power levels, and the events with the
  -- page of the anchor, the offset and the size of the job; an initial sync with the error of the
  -- homeserver exactly where the room was not there and could not be synced.
  pub work-IsAnswer :
      (now : ℕ) (job : Job) (w w' : Worker) (resp : JobResp)
      → IsServing w.rooms
      → is_request job ≡ true
      → work sorter unmarshal messages sync now job w ≡ some (w', resp)
      → IsAnswer w.rooms job resp
  unfolding work
  work-IsAnswer now (room_initial_sync_job id) w w' resp v _ h =
      subst (IsAnswer w.rooms (room_initial_sync_job id)) (some_resp _ h)
        (initial_sync-IsAnswer now id w)
  work-IsAnswer now (room_servers_job id p n) w w' resp v _ h =
      serve-answers (IsAnswer w.rooms (room_servers_job id p n)) now id (answer_servers p n) w w'
        resp v (answer_servers-IsAnswer w.rooms id p n) h
  work-IsAnswer now (room_aliases_job id p n) w w' resp v _ h =
      serve-answers (IsAnswer w.rooms (room_aliases_job id p n)) now id (answer_aliases p n) w w'
        resp v (answer_aliases-IsAnswer w.rooms id p n) h
  work-IsAnswer now (room_members_job id p n) w w' resp v _ h =
      serve-answers (IsAnswer w.rooms (room_members_job id p n)) now id (answer_members p n) w w'
        resp v (answer_members-IsAnswer w.rooms id p n) h
  work-IsAnswer now (room_member_info_job id mxid) w w' resp v _ h =
      serve-answers (IsAnswer w.rooms (room_member_info_job id mxid)) now id
        (answer_member_info id mxid) w w' resp v (answer_member_info-IsAnswer w.rooms id mxid) h
  work-IsAnswer now (room_power_levels_job id) w w' resp v _ h =
      serve-answers (IsAnswer w.rooms (room_power_levels_job id)) now id (answer_power_levels) w w'
        resp v (answer_power_levels-IsAnswer w.rooms id) h
  work-IsAnswer now (room_events_job id anchor offset n) w w' resp v _ h =
      serve-answers (IsAnswer w.rooms (room_events_job id anchor offset n)) now id
        (answer_events sorter unmarshal messages anchor offset n) w w' resp v
        (answer_events-IsAnswer w.rooms id anchor offset n) h
  work-IsAnswer now room_forward_paginate_job w w' resp v request h = absurd (cc)
