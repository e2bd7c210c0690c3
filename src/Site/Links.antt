-- ===== src/Site/Links.antt =====
-- src/github.com/t3chguy/matrix-static/templates/pagination-common.qtpl and `HasNextPage` of the pages
-- with lists: the link "Next Page", and what a visitor sees who follows it.
pub mod Rooms
use matrix_static.Prelude.{
  ℕ, zero, suc, ◌≡◌, Option, none, some, List, ◌++◌, if◌then◌else◌, ◌>>=◌, length, ℤ, pos, eqb_ℤ,
  add64, Bool, Text, codes, text_eq,
}
use matrix_static.Gomatrix.{PublicRoomsChunk}
use matrix_static.PublicRooms.{WorldReadableRooms}
use matrix_static.Utils.Itoa.{itoa}
use matrix_static.Site.{Query, Page, rooms_page, index_route}

-- `HasNextPage`, the same for every list.
unfoldable pub has_next_page {ℓ} : {A : Type ℓ} → List A → ℤ → Bool
has_next_page part page_size = eqb_ℤ (pos (length part)) page_size

-- The number in the link "Next Page", where the page has it.
unfoldable pub next_page {ℓ} : {A : Type ℓ} → ℤ → List A → ℤ → Option ℤ
unfolding has_next_page add64
next_page cur_page part page_size =
    if eqb_ℤ cur_page (pos 0)
    then none
    else if has_next_page part page_size
    then some (add64 cur_page (pos 1))
    else none

-- The query of the link.
abbrev pub page_query : ℤ → Query
page_query page key = if text_eq key (codes "page") then some (itoa page) else none

-- The rooms on the pages of the route "/" from one on, along the links; `none` is a panic, or more
-- pages than the fuel.
unfoldable pub walk_rooms : ℕ → WorldReadableRooms → ℤ → Option (List PublicRoomsChunk)
unfolding index_route next_page
walk_rooms zero rooms page = none
walk_rooms (suc fuel) rooms page = do
  shown ← index_route rooms (page_query page)
  elim shown [
    | rooms_page part page_size cur_page ↦ elim (next_page cur_page part page_size) [
      | none ↦ some part
      | some next ↦ do rest ← walk_rooms fuel rooms next; some (part ++ rest)
    ]
    | _ ↦ none
  ]
