-- ===== src/Tests/Lists.antt =====
-- The list of public rooms, and the copy of the events of a page.
use matrix_static.Prelude.{
  Bool, true, false, some, List, [], ◌∷◌, ℤ, pos, Text, codes, Option, none, some, if◌then◌else◌,
  text_eq,
}
use matrix_static.Gomatrix.{PublicRoomsChunk}
use matrix_static.Member.{MxcUrl}
use matrix_static.PublicRooms.{WorldReadableRooms}
use matrix_static.Utils.Itoa.{itoa}
use matrix_static.Site.{Query}
use matrix_static.Tests.{client}

abbrev pub entry : Text → Bool → PublicRoomsChunk
entry id world_readable = record {
  canonical_alias = [];
  name = [];
  world_readable = world_readable;
  topic = [];
  num_joined_members = pos 1;
  avatar_url = [];
  room_id = id;
  guest_can_join = false;
  aliases = codes "#a" ∷ [];
}

abbrev pub directory : List PublicRoomsChunk
directory = entry (codes "!1") true ∷ entry (codes "!2") false ∷ entry (codes "!3") true ∷ []

-- An address for every avatar, but for a media repository whose address is "%".
abbrev pub thumb : MxcUrl → ℤ → ℤ → Text → Option Text
thumb url width height method =
    if text_eq url.homeserver_url (codes "%") then none else some url.url

abbrev pub same : Text → Text
same url = url

abbrev no_rooms_yet : WorldReadableRooms
no_rooms_yet = record { client = client; rooms = [] }

-- "?page=1"
abbrev pub first_page : Query
first_page key = some (itoa (pos 1))
