-- ===== src/PublicRooms.antt =====
-- src/github.com/t3chguy/matrix-static/mxclient/public-rooms.go: the list of world-readable rooms. The
-- mutex has no model: a reload and a page are one step each. `ToThumbURL` of mxc.go, which is in
-- Mxc/Urls over the parameters of net/url, is a parameter here, with its panic.
use matrix_static.Prelude.{
  Option, none, some, List, [], ◌∷◌, ◌++◌, if◌then◌else◌, ◌>>=◌, ℤ, pos, Text, codes, text_eq,
}
use matrix_static.Gomatrix.{PublicRoomsChunk, GoError, Result, ok, err}
use matrix_static.Member.{MxcUrl}
use matrix_static.State.{Client}
use matrix_static.Utils.{page_of}

pub record WorldReadableRooms : Type 0 where
  pub client : Client
  pub rooms : List PublicRoomsChunk

-- The "primary alias" of a room.
unfoldable pub primary_alias : PublicRoomsChunk → Text
primary_alias room =
    if text_eq room.canonical_alias []
    then elim room.aliases [ [] ↦ room.canonical_alias | alias ∷ _ ↦ alias ]
    else room.canonical_alias

module _ (to_thumb_url : MxcUrl → ℤ → ℤ → Text → Option Text) where
  -- What an entry of the directory becomes; `none` is the panic of `ToThumbURL`.
  unfoldable pub listed : Text → PublicRoomsChunk → Option PublicRoomsChunk
  unfolding primary_alias
  listed homeserver_base_url room = do
    avatar_url ←
        to_thumb_url (record { url = room.avatar_url; homeserver_url = homeserver_base_url })
          (pos 60) (pos 60) (codes "crop")
    some (record room { canonical_alias = primary_alias room; avatar_url = avatar_url })

  -- `processRoomDirectory`, with the rooms filtered so far.
  unfoldable pub filter_rooms :
      Text → List PublicRoomsChunk → List PublicRoomsChunk → Option (List PublicRoomsChunk)
  unfolding listed
  filter_rooms homeserver_base_url [] filtered_rooms = some filtered_rooms
  filter_rooms homeserver_base_url (room ∷ room_list) filtered_rooms =
      if room.world_readable
      then (do
        entry ← listed homeserver_base_url room
        filter_rooms homeserver_base_url room_list (filtered_rooms ++ entry ∷ []))
      else filter_rooms homeserver_base_url room_list filtered_rooms

  unfoldable pub process_room_directory :
      Text → List PublicRoomsChunk → Option (List PublicRoomsChunk)
  unfolding filter_rooms
  process_room_directory homeserver_base_url room_list =
      filter_rooms homeserver_base_url room_list []

  -- `Update`, with the answer of the homeserver: an error, a directory, or the JSON value `null`, which
  -- leaves the nil pointer whose field `Chunk` panics. `none` is a run-time panic.
  unfoldable pub update :
      Result (Option (List PublicRoomsChunk))
      → WorldReadableRooms
      → Option (WorldReadableRooms × Option GoError)
  unfolding process_room_directory
  update (err e) r = some (r, some e)
  update (ok none) r = none
  update (ok (some chunk)) r = do
    filtered_rooms ← process_room_directory r.client.media_base_url chunk
    some (record r { rooms = filtered_rooms }, none)

  -- `NewWorldReadableRooms`; `none` is a panic, on an error too.
  unfoldable pub new_world_readable_rooms :
      Result (Option (List PublicRoomsChunk)) → Client → Option WorldReadableRooms
  unfolding update
  new_world_readable_rooms resp client = do
    (rooms, error) ← update resp (record { client = client; rooms = [] })
    elim error [ none ↦ some rooms | some e ↦ none ]

-- `GetPage`; `none` is a run-time panic.
unfoldable pub get_page : WorldReadableRooms → ℤ → ℤ → Option (List PublicRoomsChunk)
unfolding page_of
get_page r page page_size = page_of r.rooms page page_size
