-- ===== src/Site/Errors.antt =====
-- Requests that the handler before the routes of a room turns away.
use matrix_static.Prelude.{
  ℕ, ◌≡◌, refl, sym, ap, ◌∙◌, inl, inr, Option, none, some, [], ◌∷◌, ◌==◌, ==_iff, Bool-cases,
  Option-cases, get_elem?, if◌then◌else◌, Bool, true, false, ◌++◌, codes, text_eq, ℤ, Text,
}
use matrix_static.Prelude.Maps.{lookup}
use matrix_static.Gomatrix.{
  Content, GoError, Result, Result-cases, err, no_error, http_error, resp_error, other,
}
use matrix_static.Sort.{Sorter}
use matrix_static.State.{PowerLevels}
use matrix_static.Timeline.{RespInitialSync, Messages, new_room, room_initial_sync_limit}
use matrix_static.Worker.{Worker, initial_sync, room_initial_sync_resp, room_initial_sync_job}
use matrix_static.Worker.Rooms.{bind_some, some_room}
use matrix_static.Worker.Pool.{Workers, set_worker, get_worker_for_room_id, run_for_room}
use matrix_static.Worker.Pool.Sharding.{get_worker_for_room_id_lem}
use matrix_static.Replies.{text_for_resp_error}
use matrix_static.Site.{
  error_page, Query, Page, Route, sync_error_page, aborted, after_sync, load_room, room_route,
}
use matrix_static.Site.Rooms.{load_room-eq, set_worker_same}
use matrix_static.Worker.Answers.{some_resp}

-- The page that is promised for each error of the homeserver: one that carries a Matrix error tells
-- it, but for the one code that stands for a room that is hidden from guests; any other error is an
-- internal one.
abbrev pub refusal_page : GoError → Page
refusal_page (http_error (resp_error e) message code) =
    if text_eq (codes "M_GUEST_ACCESS_FORBIDDEN") e.err_code
    then error_page (codes "Unable to Join Room.")
        (some (codes "This Room does not exist or does not permit guests to access it.")) none
    else error_page (codes "Unable to Join Room.")
        (some (e.err ++ codes " (" ++ e.err_code ++ codes ")")) none
refusal_page _ = error_page (codes "Cannot Load Room. Internal Server Error.") none none

if-page :
    (b : Bool) (x y : Text)
    → error_page (codes "Unable to Join Room.") (some (if b then x else y)) none ≡ (
        if b
        then error_page (codes "Unable to Join Room.") (some x) none
        else error_page (codes "Unable to Join Room.") (some y) none)
if-page true x y = refl
if-page false x y = refl

sync_error_page-refusal_page : (e : GoError) → sync_error_page e ≡ refusal_page e
unfolding sync_error_page text_for_resp_error
sync_error_page-refusal_page no_error = refl
sync_error_page-refusal_page (resp_error e) = refl
sync_error_page-refusal_page (other text) = refl
sync_error_page-refusal_page (http_error no_error message code) = refl
sync_error_page-refusal_page (http_error (other text) message code) = refl
sync_error_page-refusal_page (http_error (http_error e m c) message code) = refl
sync_error_page-refusal_page (http_error (resp_error e) message code) = if-page _ _ _

module _ (hash : Text → ℕ) (sorter : Sorter) (unmarshal : Content → Option PowerLevels)
    (messages : Messages) (sync : Text → ℤ → Result RespInitialSync) where
  -- A sync that fails leaves the worker, and its error is the answer.
  initial_sync-failed :
      (now : ℕ) (id : Text) (w : Worker) (e : GoError)
      → lookup id w.rooms ≡ none
      → sync id room_initial_sync_limit ≡ err e
      → initial_sync sorter unmarshal messages sync now id w ≡ (w, room_initial_sync_resp (some e))
  unfolding initial_sync new_room
  initial_sync-failed now id w e missing failed = rw (missing, failed, initial_sync) refl

  -- A request for a room that its worker does not hold, and that the homeserver refuses to sync,
  -- gets, whatever its route, the page "Unable to Join Room." with the error where the error of the
  -- sync carries one of Matrix, told in words of its own where guests may not join, and else the page
  -- of an internal error; and the pool is as it was.
  pub room_route-failed_sync :
      (now : ℕ) (route : Route) (id : Text) (query : Query) (ws : Workers) (n : ℕ) (w : Worker)
      (e : GoError)
      → get_elem? id 0 ≡ some b'!'
      → get_worker_for_room_id hash id ws ≡ some (n, w)
      → lookup id w.rooms ≡ none
      → sync id room_initial_sync_limit ≡ err e
      → room_route hash sorter unmarshal messages sync now route id query ws
        ≡ some (ws, refusal_page e)
  unfolding room_route after_sync
  room_route-failed_sync now route id query ws n w e bang chosen missing failed =
      let same : set_worker ws.workers n w ≡ ws.workers =
        set_worker_same ws.workers n w (get_worker_for_room_id_lem hash id ws n w chosen).1 in
      rw
        (
          load_room-eq hash sorter unmarshal messages sync now id ws n w bang chosen,
          initial_sync-failed now id w e missing failed,
          same,
        )
        (ap (λ p. some (ws, p)) (sync_error_page-refusal_page e))

  -- What `after_sync` turns away is a failed sync, which left the worker.
  after_sync-aborted :
      (now : ℕ) (id : Text) (w : Worker) (page : Page)
      → after_sync (initial_sync sorter unmarshal messages sync now id w).1 ≡ some (aborted page)
      → (initial_sync sorter unmarshal messages sync now id w).0 ≡ w
  unfolding initial_sync after_sync
  after_sync-aborted now id w page h = elim (Option-cases (lookup id w.rooms)) [
    | inl missing ↦ elim (Result-cases (new_room sorter unmarshal sync w.client id now)) [
      | inl (e, failed) ↦ rw (missing, failed, initial_sync) refl
      | inr (r, made) ↦ absurd (cc (rw (missing, made, initial_sync, after_sync) at h))
    ]
    | inr (r, there) ↦ rw (there, initial_sync) refl
  ]

  load_room-aborted :
      (now : ℕ) (id : Text) (ws ws' : Workers) (page : Page)
      → load_room hash sorter unmarshal messages sync now id ws ≡ some (ws', aborted page)
      → ws ≡ ws'
  unfolding load_room run_for_room
  load_room-aborted now [] ws ws' page h = absurd (cc)
  load_room-aborted now (c ∷ id) ws ws' page h = elim (Bool-cases (c == b'!')) [
    | inr no_bang ↦ some_room _ (rw (no_bang, load_room) at h)
    | inl bang ↦
        let (_, ran, _) =
          bind_some
            (run_for_room hash sorter unmarshal messages sync now (c ∷ id)
              (room_initial_sync_job (c ∷ id)) ws)
            _ (rw (bang, load_room) at h) in
        let ((n, w), chosen, _) = bind_some (get_worker_for_room_id hash (c ∷ id) ws) _ ran in
        let start : get_elem? (c ∷ id) 0 ≡ some b'!' = ap some ((==_iff c b'!').0 bang) in
        let (loaded, answered, rest) =
          bind_some (after_sync (initial_sync sorter unmarshal messages sync now (c ∷ id) w).1) _ (
            sym (load_room-eq hash sorter unmarshal messages sync now (c ∷ id) ws n w start chosen)
            ∙ h) in
        let turned : loaded ≡ aborted page = some_resp _ rest in
        let kept : (initial_sync sorter unmarshal messages sync now (c ∷ id) w).0 ≡ w =
          after_sync-aborted now (c ∷ id) w page (answered ∙ ap some turned) in
        let same : set_worker ws.workers n w ≡ ws.workers =
          set_worker_same ws.workers n w
            (get_worker_for_room_id_lem hash (c ∷ id) ws n w chosen).1 in
        sym (
          ap (λ x. record ws { workers = set_worker ws.workers n x }) kept
          ∙ ap (λ l. record ws { workers = l }) same)
        ∙ some_room _ rest
  ]

  -- Whatever the reason for turning a request away, the pool is as it was, and no job of the route
  -- runs.
  pub room_route-aborted :
      (now : ℕ) (route : Route) (id : Text) (query : Query) (ws ws' : Workers) (page : Page)
      → load_room hash sorter unmarshal messages sync now id ws ≡ some (ws', aborted page)
      → room_route hash sorter unmarshal messages sync now route id query ws ≡ some (ws, page)
  unfolding room_route
  room_route-aborted now route id query ws ws' page h =
      rw (h, sym (load_room-aborted now id ws ws' page h)) refl
