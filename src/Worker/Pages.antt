-- ===== src/Worker/Pages.antt =====
-- What the jobs on one room do to the map of rooms, and the pages that they answer.
use matrix_static.Prelude.{
  ℕ, suc, ◌+◌, ◌*◌, ◌^◌, ◌<◌, ◌≡◌, refl, sym, ap, ◌∙◌, false, Option, some, length, take, drop, ℤ,
  pos, Text, text_eq,
}
use matrix_static.Prelude.Maps.{lookup, insert, lookup-insert, lookup-insert_self}
use matrix_static.Gomatrix.{Content, Result}
use matrix_static.Sort.{Sorter}
use matrix_static.State.{PowerLevels, servers}
use matrix_static.Timeline.{Room, RespInitialSync, Messages, access, room_info}
use matrix_static.Utils.Pages.{page_of-eq-take-drop}
use matrix_static.Worker.{
  Worker, JobResp, serve, work, answer_servers, answer_aliases, room_servers_job, room_aliases_job,
  room_servers_resp, room_aliases_resp,
}
use matrix_static.Worker.Rooms.{bind_some, some_room}

served_rooms :
    (now : ℕ) (id : Text) (body : Room → Option (Room × JobResp)) (w w' : Worker) (resp : JobResp)
    → serve now id body w ≡ some (w', resp)
    → (r : Room) × (w'.rooms ≡ insert id (access now r) w.rooms)
unfolding serve
served_rooms now id body w w' resp h =
    let (r, found, h₁) = bind_some (lookup id w.rooms) _ h in
    let ((r', a), answered, h₂) = bind_some (body r) _ h₁ in
    (r', ap (λ (x : Worker). x.rooms) (sym (some_room _ h₂)))

-- A request that is answered has marked its room as accessed at that time.
pub serve-accessed :
    (now : ℕ) (id : Text) (body : Room → Option (Room × JobResp)) (w w' : Worker) (resp : JobResp)
    → serve now id body w ≡ some (w', resp)
    → (r : Room) × (lookup id w'.rooms ≡ some r) × (r.last_access ≡ now)
unfolding access
serve-accessed now id body w w' resp h =
    let (r, rooms) = served_rooms now id body w w' resp h in
    (access now r, ap (lookup id) rooms ∙ lookup-insert_self id (access now r) w.rooms, refl)

-- A request that is answered has left every room alone whose id is another one.
pub serve-other_rooms :
    (now : ℕ) (id j : Text) (body : Room → Option (Room × JobResp)) (w w' : Worker) (resp : JobResp)
    → text_eq id j ≡ false
    → serve now id body w ≡ some (w', resp)
    → lookup j w'.rooms ≡ lookup j w.rooms
serve-other_rooms now id j body w w' resp other h =
    let (r, rooms) = served_rooms now id body w w' resp h in
    ap (lookup j) rooms ∙ lookup-insert id j (access now r) w.rooms ∙ rw other refl

module _ (sorter : Sorter) (unmarshal : Content → Option PowerLevels) (messages : Messages)
    (sync : Text → ℤ → Result RespInitialSync) where
  -- The job for page `k + 1` of the servers of a room that the worker holds is answered with the
  -- `size` servers from number `k * size` on, as far as there are any, where 64 bits suffice.
  pub work-servers-page :
      (now : ℕ) (id : Text) (k size : ℕ) (w : Worker) (r : Room)
      → lookup id w.rooms ≡ some r
      → k < 2 ^ 62
      → k * size < 2 ^ 63
      → length (servers r.latest_room_state) + size < 2 ^ 63
      → work sorter unmarshal messages sync now (room_servers_job id (pos (suc k)) (pos size)) w
        ≡ some (
          record w { rooms = insert id (access now r) w.rooms },
          room_servers_resp
              (room_info r)
              (take size (drop (k * size) (servers r.latest_room_state)))
              (pos size)
              (pos (suc k)),
        )
  unfolding work serve answer_servers
  work-servers-page now id k size w r found small fits room =
      rw (found, page_of-eq-take-drop (servers r.latest_room_state) k size small fits room) refl

  -- The job for page `k + 1` of the aliases, likewise.
  pub work-aliases-page :
      (now : ℕ) (id : Text) (k size : ℕ) (w : Worker) (r : Room)
      → lookup id w.rooms ≡ some r
      → k < 2 ^ 62
      → k * size < 2 ^ 63
      → length r.latest_room_state.aliases + size < 2 ^ 63
      → work sorter unmarshal messages sync now (room_aliases_job id (pos (suc k)) (pos size)) w
        ≡ some (
          record w { rooms = insert id (access now r) w.rooms },
          room_aliases_resp
              (room_info r)
              (take size (drop (k * size) r.latest_room_state.aliases))
              (pos size)
              (pos (suc k)),
        )
  unfolding work serve answer_aliases
  work-aliases-page now id k size w r found small fits room =
      rw (found, page_of-eq-take-drop r.latest_room_state.aliases k size small fits room) refl
