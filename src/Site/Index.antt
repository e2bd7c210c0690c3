-- ===== src/Site/Index.antt =====
-- The list of public rooms, from the directory of the homeserver to the page of the route "/".
use mathlib.Core.List.{append-nil, append_assoc}
use matrix_static.Prelude.{
  ◌≤◌, ◌++◌, sym, Bool, true, false, some_bind, Option, length-keep-le, ℕ, suc, ◌+◌, ◌*◌, ◌^◌, ◌<◌,
  ◌≡◌, refl, ap, ◌∙◌, some, [], ◌∷◌, text_eq, if◌then◌else◌, List, map, arith, length, take, drop,
  keep, ℤ, pos, Text, codes,
}
use matrix_static.Gomatrix.{PublicRoomsChunk}
use matrix_static.Member.{MxcUrl}
use matrix_static.Utils.Pages.{page_of-eq-take-drop}
use matrix_static.Utils.Itoa.{itoa}
use matrix_static.PublicRooms.{
  WorldReadableRooms, listed, primary_alias, process_room_directory, get_page, filter_rooms,
}
use matrix_static.Site.{Query, rooms_page, index_route}
use matrix_static.Site.Lists.{page_of_query}

pub index_route-eq :
    (rooms : WorldReadableRooms) (query : Query) (k : ℕ)
    → k < 2 ^ 58
    → query (codes "page") ≡ some (itoa (pos (suc k)))
    → length rooms.rooms + 20 < 2 ^ 63
    → index_route rooms query
      ≡ some (rooms_page (take 20 (drop (k * 20) rooms.rooms)) (pos 20) (pos (suc k)))
unfolding index_route get_page
index_route-eq rooms query k small asked fits =
    rw
      (
        page_of_query query k small asked,
        page_of-eq-take-drop rooms.rooms k 20 (omega arith) (omega arith) fits,
      )
      refl

-- The alias that a room is shown under: its canonical alias, or else the first of its aliases.
abbrev pub shown_alias : Text → List Text → Text
shown_alias (c ∷ canonical) aliases = c ∷ canonical
shown_alias [] (alias ∷ aliases) = alias
shown_alias [] [] = []

alias_or_first :
    (canonical : Text) (aliases : List Text)
    → (if text_eq canonical []
        then elim aliases [ [] ↦ canonical | alias ∷ _ ↦ alias ]
        else canonical)
      ≡ shown_alias canonical aliases
unfolding text_eq
alias_or_first (c ∷ canonical) aliases = refl
alias_or_first [] (alias ∷ aliases) = refl
alias_or_first [] [] = refl

primary_alias-shown :
    (room : PublicRoomsChunk) → primary_alias room ≡ shown_alias room.canonical_alias room.aliases
unfolding primary_alias
primary_alias-shown room = alias_or_first room.canonical_alias room.aliases

length-map :
    (f : PublicRoomsChunk → PublicRoomsChunk) (xs : List PublicRoomsChunk)
    → length (map f xs) ≡ length xs
length-map f [] = refl
length-map f (x ∷ xs) = ap suc (length-map f xs)

-- What the route "/" shows of a directory entry: it, under its alias, with its thumbnail.
abbrev pub shown_room : (Text → Text) → PublicRoomsChunk → PublicRoomsChunk
shown_room thumb room = record room {
  canonical_alias = shown_alias room.canonical_alias room.aliases;
  avatar_url = thumb room.avatar_url;
}

abbrev pub shown_rooms : (Text → Text) → List PublicRoomsChunk → List PublicRoomsChunk
shown_rooms thumb chunk = map (shown_room thumb) (keep (λ room. room.world_readable) chunk)

pub length-shown_rooms-le :
    (thumb : Text → Text) (chunk : List PublicRoomsChunk)
    → length (shown_rooms thumb chunk) ≤ length chunk
length-shown_rooms-le thumb chunk =
    rw (length-map (shown_room thumb) (keep (λ room. room.world_readable) chunk))
      (length-keep-le (λ (x : PublicRoomsChunk). x.world_readable) chunk)

-- The two branches of the filter, one beside the other.
choose :
    (thumb : Text → Text) (b : Bool) (room : PublicRoomsChunk)
    (kept filtered : List PublicRoomsChunk) (taken left : Option (List PublicRoomsChunk))
    → taken ≡ some (filtered ++ map (shown_room thumb) (room ∷ kept))
    → left ≡ some (filtered ++ map (shown_room thumb) kept)
    → (if b then taken else left)
      ≡ some (filtered ++ map (shown_room thumb) (if b then room ∷ kept else kept))
choose thumb true room kept filtered taken left h k = h
choose thumb false room kept filtered taken left h k = k

module _ (to_thumb_url : MxcUrl → ℤ → ℤ → Text → Option Text) where
  -- `ToThumbURL` gives these addresses for the media of the homeserver, and does not panic.
  abbrev pub Thumbs : Text → (Text → Text) → Type 0
  Thumbs base thumb =
      (url : Text)
      → to_thumb_url (record { url = url; homeserver_url = base }) (pos 60) (pos 60) (codes "crop")
        ≡ some (thumb url)

  module _ (base : Text) (thumb : Text → Text) (thumbs : Thumbs base thumb) where
    listed-shown :
        (room : PublicRoomsChunk) → listed to_thumb_url base room ≡ some (shown_room thumb room)
    unfolding listed
    listed-shown room = rw (thumbs room.avatar_url, primary_alias-shown room) refl

    filter_rooms-shown :
        (chunk filtered : List PublicRoomsChunk)
        → filter_rooms to_thumb_url base chunk filtered ≡ some (filtered ++ shown_rooms thumb chunk)
    unfolding filter_rooms keep
    filter_rooms-shown [] filtered = ap some (sym (append-nil filtered))
    filter_rooms-shown (room ∷ chunk) filtered =
        choose thumb room.world_readable room (keep (λ r. r.world_readable) chunk) filtered _ _
          (some_bind _ _ (listed-shown room) (
            filter_rooms-shown chunk (filtered ++ shown_room thumb room ∷ [])
            ∙ ap some
                (append_assoc filtered (shown_room thumb room ∷ []) (shown_rooms thumb chunk))))
          (filter_rooms-shown chunk filtered)

    pub process_room_directory-shown :
        (chunk : List PublicRoomsChunk)
        → process_room_directory to_thumb_url base chunk ≡ some (shown_rooms thumb chunk)
    unfolding process_room_directory
    process_room_directory-shown chunk = filter_rooms-shown chunk []
