-- ===== src/Requests.antt =====
-- src/github.com/t3chguy/matrix-static/mxclient/mxclient.go: the two requests that the program makes
-- itself. `BuildURLWithQuery`, `BuildURL` and `MakeRequest` of package gomatrix are parameters, the last
-- with the answer that it has decoded; an answer `null`, which leaves the pointer nil, is not among
-- those.
use matrix_static.Prelude.{List, [], ◌∷◌, ℤ, Text, codes}
use matrix_static.Gomatrix.{Result}
use matrix_static.Timeline.{RespInitialSync}
use matrix_static.Utils.Itoa.{itoa}
use matrix_static.Site.{RespRoomDirectoryAlias}

-- `RoomInitialSync`
unfoldable pub room_initial_sync :
    (List Text → List (Text × Text) → Text)
    → (Text → Text → Result RespInitialSync)
    → Text
    → ℤ
    → Result RespInitialSync
unfolding itoa
room_initial_sync build_url_with_query make_request room_id limit =
    let url_path =
      build_url_with_query (codes "rooms" ∷ room_id ∷ codes "initialSync" ∷ [])
        ((codes "limit", itoa limit) ∷ []) in
    make_request (codes "GET") url_path

-- `GetRoomDirectoryAlias`
unfoldable pub get_room_directory_alias :
    (List Text → Text)
    → (Text → Text → Result RespRoomDirectoryAlias)
    → Text
    → Result RespRoomDirectoryAlias
get_room_directory_alias build_url make_request room_alias =
    let url_path = build_url (codes "directory" ∷ codes "room" ∷ room_alias ∷ []) in
    make_request (codes "GET") url_path
