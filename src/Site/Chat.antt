-- ===== src/Site/Chat.antt =====
-- The page of a room's timeline, from the anchor and the offset in the URL to the events on it.
use matrix_static.Prelude.{
  ℕ, ◌^◌, ◌<◌, ◌≡◌, refl, ap, ◌∙◌, Option, none, some, [], reverse, arith, get_elem?, ℤ, pos, Text,
  codes,
}
use matrix_static.Prelude.Maps.{Map, lookup, insert}
use matrix_static.Gomatrix.{Content, Result}
use matrix_static.Member.{MemberInfo}
use matrix_static.Sort.{Sorter}
use matrix_static.State.{PowerLevels}
use matrix_static.Timeline.{Room, RoomInfo, RespInitialSync, Messages, access, room_info}
use matrix_static.Room.{EventPage, not_found, get_event_page}
use matrix_static.Room.Pages.{anchor_index, get_event_page-not_found}
use matrix_static.Replies.{reverse_events_copy-eq}
use matrix_static.Utils.{str_to_int_default}
use matrix_static.Utils.Itoa.{itoa, str_to_int_default-itoa}
use matrix_static.Worker.{Worker, serve, work, answer_events, room_events_job, room_events_resp}
use matrix_static.Worker.Serving.{IsServing}
use matrix_static.Worker.Pool.{Workers, set_worker, get_worker_for_room_id}
use matrix_static.Site.{
  Query, Page, ChatPage, chat_page, room_error_page, chat, default_query, page_anchor, job_of,
  render, render_events, room_route,
}
use matrix_static.Site.Rooms.{room_route-held}

-- The events of an answer stand on the page from the oldest to the newest.
pub render_events-chat :
    (query : Query) (info : RoomInfo) (member_map : Map MemberInfo) (page : EventPage)
    → page.err ≡ none
    → (c : ChatPage) × (render_events query info member_map page ≡ some (chat_page c))
      × (c.events ≡ reverse page.events)
      × (c.current_offset
          ≡ str_to_int_default (default_query query (codes "offset") (codes "0")) (pos 0))
      × (c.member_map ≡ member_map)
      × (c.anchor ≡ page_anchor (default_query query (codes "anchor") []) page.events)
unfolding render_events
render_events-chat query info member_map page fine =
    rw (fine, render_events, reverse_events_copy-eq page.events) (_, refl, refl, refl, refl, refl)

render_events-error :
    (query : Query) (info : RoomInfo) (member_map : Map MemberInfo) (page : EventPage) (e : Text)
    → page.err ≡ some e
    → render_events query info member_map page
      ≡ some (room_error_page (codes "Some error has occurred") info)
unfolding render_events
render_events-error query info member_map page e failed = rw (failed, render_events) refl

pub offset_of_query :
    (query : Query) (offset : ℕ)
    → offset < 2 ^ 62
    → query (codes "offset") ≡ some (itoa (pos offset))
    → str_to_int_default (default_query query (codes "offset") (codes "0")) (pos 0) ≡ pos offset
unfolding default_query
offset_of_query query offset small asked =
    let text : default_query query (codes "offset") (codes "0") ≡ itoa (pos offset) =
      rw (asked, default_query) refl in
    ap (λ t. str_to_int_default t (pos 0)) text
    ∙ str_to_int_default-itoa offset (pos 0) (omega arith)

module _ (hash : Text → ℕ) (sorter : Sorter) (unmarshal : Content → Option PowerLevels)
    (messages : Messages) (sync : Text → ℤ → Result RespInitialSync) (now : ℕ) (id : Text)
    (query : Query) (offset : ℕ) (ws : Workers) (n : ℕ) (w : Worker) (r : Room)
    (bang : get_elem? id 0 ≡ some b'!') (chosen : get_worker_for_room_id hash id ws ≡ some (n, w))
    (found : lookup id w.rooms ≡ some r) (v : IsServing w.rooms) (small : offset < 2 ^ 62)
    (asked : query (codes "offset") ≡ some (itoa (pos offset))) where
  -- The anchor of the request; none is the newest event.
  abbrev pub anchor : Text
  anchor = default_query query (codes "anchor") []

  -- The pool with the room changed and accessed.
  abbrev pub changed : Room → Workers
  changed r' = record ws {
    workers = set_worker ws.workers n (record w { rooms = insert id (access now r') w.rooms });
  }

  chat_job : job_of chat id query ≡ room_events_job id anchor (pos offset) (pos 30)
  unfolding job_of
  chat_job =
      ap (λ o. room_events_job id anchor o (pos 30)) (offset_of_query query offset small asked)

  pub chat_route-answer :
      (r' : Room) (page : EventPage)
      → get_event_page sorter unmarshal messages r anchor (pos offset) (pos 30) ≡ some (r', page)
      → (shown : Page) × (render chat query
            (room_events_resp (room_info r') r'.latest_room_state.member_map page)
          ≡ some shown)
        × (room_route hash sorter unmarshal messages sync now chat id query ws
            ≡ some (changed r', shown))
  unfolding work serve answer_events
  chat_route-answer r' page got =
      room_route-held hash sorter unmarshal messages sync now chat id query ws n w
        (record w { rooms = insert id (access now r') w.rooms }) r _ bang chosen found v
        (ap (λ j. work sorter unmarshal messages sync now j w) chat_job ∙ rw (found, got) refl)

  -- The address "/room/<id>/?anchor=<event>&offset=<offset>" of a room that the pool holds, whose
  -- timeline does not have that event, gives the error page of the room; the timeline is left
  -- alone, and the room is marked as accessed.
  pub chat_route-not_found :
      anchor_index r anchor ≡ none
      → room_route hash sorter unmarshal messages sync now chat id query ws
        ≡ some (changed r, room_error_page (codes "Some error has occurred") (room_info r))
  unfolding render
  chat_route-not_found absent =
      let (shown, made, answered) = chat_route-answer r not_found (
        get_event_page-not_found sorter unmarshal messages r anchor (pos offset) (pos 30) absent) in
      let error =
        render_events-error query (room_info r) r.latest_room_state.member_map not_found _ refl in
      let same : shown ≡ room_error_page (codes "Some error has occurred") (room_info r) = cc in
      answered ∙ ap (λ p. some (changed r, p)) same
