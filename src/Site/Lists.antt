-- ===== src/Site/Lists.antt =====
-- The pages of servers, aliases and members, from the number in the URL to what the page lists.
use matrix_static.Prelude.{
  ℕ, suc, ◌+◌, ◌*◌, ◌^◌, ◌<◌, ◌≡◌, refl, ap, ◌∙◌, Option, some, List, map, arith, length, get_elem?,
  take, drop, ℤ, pos, Text, codes,
}
use matrix_static.Prelude.Maps.{lookup, insert}
use matrix_static.Gomatrix.{Content, Result}
use matrix_static.Member.{MemberInfo}
use matrix_static.Sort.{Sorter}
use matrix_static.State.{PowerLevels, servers, members}
use matrix_static.Timeline.{Room, RespInitialSync, Messages, access, room_info}
use matrix_static.Utils.{str_to_int_default}
use matrix_static.Utils.Itoa.{itoa, str_to_int_default-itoa}
use matrix_static.Worker.{
  Worker, Job, JobResp, work, room_servers_job, room_aliases_job, room_members_job,
  room_servers_resp, room_aliases_resp, room_members_resp,
}
use matrix_static.Worker.Pages.{work-servers-page, work-aliases-page}
use matrix_static.Worker.Members.{work-members-page}
use matrix_static.Worker.Serving.{IsServing}
use matrix_static.Worker.Pool.{Workers, set_worker, get_worker_for_room_id}
use matrix_static.Site.{
  Query, Page, list_page, Route, servers_list, aliases_list, members_list, default_query, job_of,
  render, room_route,
}
use matrix_static.Site.Rooms.{room_route-held}

-- The number in the URL is the page of the job.
pub page_of_query :
    (query : Query) (k : ℕ)
    → k < 2 ^ 58
    → query (codes "page") ≡ some (itoa (pos (suc k)))
    → str_to_int_default (default_query query (codes "page") (codes "1")) (pos 1) ≡ pos (suc k)
unfolding default_query
page_of_query query k small asked =
    let text : default_query query (codes "page") (codes "1") ≡ itoa (pos (suc k)) =
      rw (asked, default_query) refl in
    ap (λ t. str_to_int_default t (pos 1)) text
    ∙ str_to_int_default-itoa (suc k) (pos 1) (omega arith)

module _ (hash : Text → ℕ) (sorter : Sorter) (unmarshal : Content → Option PowerLevels)
    (messages : Messages) (sync : Text → ℤ → Result RespInitialSync) (now : ℕ) (id : Text)
    (query : Query) (k : ℕ) (ws : Workers) (n : ℕ) (w : Worker) (r : Room)
    (bang : get_elem? id 0 ≡ some b'!') (chosen : get_worker_for_room_id hash id ws ≡ some (n, w))
    (found : lookup id w.rooms ≡ some r) (v : IsServing w.rooms) (small : k < 2 ^ 58)
    (asked : query (codes "page") ≡ some (itoa (pos (suc k)))) where
  -- The pool after the request: the room has been accessed.
  abbrev pub accessed : Workers
  accessed = record ws {
    workers = set_worker ws.workers n (record w { rooms = insert id (access now r) w.rooms });
  }

  list_route :
      (route : Route) (job : Job) (resp : JobResp) (page : Page)
      → job_of route id query ≡ job
      → work sorter unmarshal messages sync now job w
        ≡ some (record w { rooms = insert id (access now r) w.rooms }, resp)
      → render route query resp ≡ some page
      → room_route hash sorter unmarshal messages sync now route id query ws ≡ some (accessed, page)
  list_route route job resp page e ran made =
      let (shown, made', answered) =
        room_route-held hash sorter unmarshal messages sync now route id query ws n w _ r resp bang
          chosen found v (ap (λ j. work sorter unmarshal messages sync now j w) e ∙ ran) in
      let same : shown ≡ page = cc in answered ∙ ap (λ p. some (accessed, p)) same

  -- The address "/room/<id>/servers?page=<k + 1>" of a room that the pool holds shows the 30
  -- servers from number `k * 30` on, as far as there are any, and marks the room as accessed,
  -- where 64 bits suffice.
  pub servers_route-page :
      length (servers r.latest_room_state) + 30 < 2 ^ 63
      → room_route hash sorter unmarshal messages sync now servers_list id query ws
        ≡ some (
          accessed,
          list_page (
              room_servers_resp
                (room_info r)
                (take 30 (drop (k * 30) (servers r.latest_room_state)))
                (pos 30)
                (pos (suc k))),
        )
  unfolding job_of render
  servers_route-page fits =
      list_route servers_list _ _ _
        (ap (λ p. room_servers_job id p (pos 30)) (page_of_query query k small asked))
        (work-servers-page sorter unmarshal messages sync now id k 30 w r found (omega arith)
          (omega arith) fits)
        refl

  -- The address "/room/<id>/aliases?page=<k + 1>" of a room that the pool holds, likewise, with
  -- 10 servers that have aliases.
  pub aliases_route-page :
      length (r.latest_room_state.aliases) + 10 < 2 ^ 63
      → room_route hash sorter unmarshal messages sync now aliases_list id query ws
        ≡ some (
          accessed,
          list_page (
              room_aliases_resp
                (room_info r)
                (take 10 (drop (k * 10) (r.latest_room_state.aliases)))
                (pos 10)
                (pos (suc k))),
        )
  unfolding job_of render
  aliases_route-page fits =
      list_route aliases_list _ _ _
        (ap (λ p. room_aliases_job id p (pos 10)) (page_of_query query k small asked))
        (work-aliases-page sorter unmarshal messages sync now id k 10 w r found (omega arith)
          (omega arith) fits)
        refl

  -- The address "/room/<id>/members?page=<k + 1>" of a room that the pool holds shows the 20
  -- members from number `k * 20` of the member list on, as far as there are any, and marks the
  -- room as accessed, where 64 bits suffice. No pointer of the list is nil.
  pub members_route-page :
      length (members r.latest_room_state) + 20 < 2 ^ 63
      → (infos : List MemberInfo) × (map (λ i. i.mxid) infos
          ≡ take 20 (drop (k * 20) (members r.latest_room_state)))
        × (room_route hash sorter unmarshal messages sync now members_list id query ws
            ≡ some (
              accessed,
              list_page (room_members_resp (room_info r) infos (pos 20) (pos (suc k))),
            ))
  unfolding job_of render
  members_route-page fits =
      let (infos, same, ran) =
        work-members-page sorter unmarshal messages sync now id k 20 w r found v (omega arith)
          (omega arith) fits in
      (
        infos,
        same,
        list_route members_list _ _ _
            (ap (λ p. room_members_job id p (pos 20)) (page_of_query query k small asked)) ran refl,
      )
