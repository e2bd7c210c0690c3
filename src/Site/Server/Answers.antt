-- ===== src/Site/Server/Answers.antt =====
-- A server from its start on: its list of rooms.
use matrix_static.Prelude.{
  ℕ, suc, ◌+◌, ◌*◌, ◌^◌, ◌<◌, ◌≡◌, refl, sym, ap, ◌∙◌, subst, Option, some, List, arith, length,
  take, drop, ℤ, pos, Text, codes,
}
use matrix_static.Gomatrix.{Content, PublicRoomsChunk, Result, ok}
use matrix_static.Member.{MxcUrl}
use matrix_static.Sort.{Sorter}
use matrix_static.State.{PowerLevels}
use matrix_static.Timeline.{RespInitialSync, Messages}
use matrix_static.PublicRooms.{process_room_directory}
use matrix_static.Utils.Itoa.{itoa}
use matrix_static.Worker.Pool.{new_workers}
use matrix_static.Config.{Config, Files, RawClient}
use matrix_static.Site.{Query, rooms_page, RespRoomDirectoryAlias}
use matrix_static.Site.Reach.{SiteReach, opened}
use matrix_static.Site.Index.{
  Thumbs, length-shown_rooms-le, process_room_directory-shown, shown_rooms, index_route-eq,
}
use matrix_static.Site.Server.{
  ConfigVars, to_uint32, Server, start, index_request, Input, handle, run,
}
use matrix_static.Site.Server.Runs.{last_directory, start-IsStarted, IsRunning, run-IsRunning}

module _ {G : Type 0} (gomatrix_client : Text → Text → Text → Result G)
    (unmarshal_config : Text → Config)
    (public_rooms : RawClient G → Result (Option (List PublicRoomsChunk)))
    (to_thumb_url : MxcUrl → ℤ → ℤ → Text → Option Text) (hash : Text → ℕ) (sorter : Sorter)
    (unmarshal : Content → Option PowerLevels) (messages : Messages)
    (sync : Text → ℤ → Result RespInitialSync)
    (resolve : Text → Result RespRoomDirectoryAlias) where
  pub started-IsRunning :
      (config : ConfigVars) (files : Files) (server : Server) (directory : List PublicRoomsChunk)
      → start gomatrix_client unmarshal_config public_rooms to_thumb_url config files
        ≡ some (ok server)
      → ((raw : RawClient G) → public_rooms raw ≡ ok (some directory))
      → IsRunning to_thumb_url hash sorter unmarshal messages sync resolve
          (new_workers (to_uint32 config.num_workers) server.client)
          server.client
          directory
          server
  started-IsRunning config files server directory h lists =
      let made =
        start-IsStarted gomatrix_client unmarshal_config public_rooms to_thumb_url config files
          server h in
      let same : made.directory ≡ directory =
        let e : ok (some made.directory) ≡ ok (some directory) =
          sym made.answered ∙ lists made.raw in
        cc in
      record {
        same_client = refl;
        owner = made.owner;
        list =
            ap (process_room_directory to_thumb_url server.client.media_base_url) (sym same)
            ∙ made.list;
        reached =
            subst
              (SiteReach hash sorter unmarshal messages sync
                (new_workers (to_uint32 config.num_workers) server.client))
              (sym made.pool) opened;
      }

  -- Whatever a server has run on since its start, recovered panics included, "/?page=<k + 1>" shows,
  -- of the world-readable rooms of the directory that the last successful reload has brought, or else
  -- of the directory at the start, the 20 from number `k * 20` on, as far as there are any, where 64
  -- bits suffice. Each is shown under its canonical alias, or else under the first of its aliases if
  -- it has any, and with the address of its thumbnail. The directory at the start is not
  -- `null`, and `ToThumbURL` gives an address for every avatar: the address of the media repository
  -- can be parsed.
  pub index_route-run :
      (config : ConfigVars) (files : Files) (s t : Server) (directory : List PublicRoomsChunk)
      (inputs : List Input) (now : ℕ) (query : Query) (k : ℕ) (thumb : Text → Text)
      → Thumbs to_thumb_url s.client.media_base_url thumb
      → start gomatrix_client unmarshal_config public_rooms to_thumb_url config files ≡ some (ok s)
      → ((raw : RawClient G) → public_rooms raw ≡ ok (some directory))
      → run to_thumb_url hash sorter unmarshal messages sync resolve inputs s ≡ some t
      → k < 2 ^ 58
      → query (codes "page") ≡ some (itoa (pos (suc k)))
      → length (last_directory inputs directory) + 20 < 2 ^ 63
      → handle to_thumb_url hash sorter unmarshal messages sync resolve now (index_request query) t
        ≡ some (
          t,
          rooms_page
              (take 20 (drop (k * 20) (shown_rooms thumb (last_directory inputs directory))))
              (pos 20)
              (pos (suc k)),
        )
  unfolding handle
  index_route-run config files s t directory inputs now query k thumb thumbs begun lists ran small
        asked fits =
      let start_running = started-IsRunning config files s directory begun lists in
      let v =
        run-IsRunning to_thumb_url hash sorter unmarshal messages sync resolve directory inputs s t
          start_running ran in
      let d = last_directory inputs directory in
      let e : some t.world_readable_rooms.rooms ≡ some (shown_rooms thumb d) =
        sym v.list
        ∙ process_room_directory-shown to_thumb_url s.client.media_base_url thumb thumbs d in
      let list : t.world_readable_rooms.rooms ≡ shown_rooms thumb d = cc in
      let short : length t.world_readable_rooms.rooms + 20 < 2 ^ 63 =
        let le = length-shown_rooms-le thumb d in rw list (omega arith) in
      rw (index_route-eq t.world_readable_rooms query k small asked short, list) refl
