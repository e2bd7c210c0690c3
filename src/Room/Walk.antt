-- ===== src/Room/Walk.antt =====
-- src/github.com/t3chguy/matrix-static/templates/room-chat.qtpl: the links of a page of the timeline to
-- the older and to the newer events, and what a visitor sees who follows them.
pub mod Ends
pub mod Places
pub mod Older
pub mod Newer
pub mod Failed
use matrix_static.Prelude.{
  ℕ, zero, suc, Option, none, some, List, ◌++◌, if◌then◌else◌, ◌>>=◌, length, ℤ, pos, add64, sub64,
  Text,
}
use matrix_static.Gomatrix.{Event, Content}
use matrix_static.Sort.{Sorter}
use matrix_static.State.{PowerLevels}
use matrix_static.Timeline.{Room, Messages}
use matrix_static.Room.{EventPage, get_event_page}
use matrix_static.Site.{page_anchor}

-- The offset in the link "Load older messages", where the page has it.
unfoldable pub older_offset : ℤ → ℤ → EventPage → Option ℤ
unfolding add64
older_offset current_offset page_size page =
    if page.at_top_end then none else some (add64 current_offset page_size)

-- The offset in the link "Show newer messages", where the page has it.
unfoldable pub newer_offset : ℤ → EventPage → Option ℤ
unfolding sub64
newer_offset current_offset page =
    if page.at_bottom_end then none else some (sub64 current_offset (pos (length page.events)))

module _ (sorter : Sorter) (unmarshal : Content → Option PowerLevels) (messages : Messages) where
  -- The events on the pages from one on, along the links to the older events, each of which names the
  -- anchor of its page; `none` is a panic, or more pages than the fuel.
  unfoldable pub walk_older : ℕ → Room → Text → ℤ → ℤ → Option (List Event)
  unfolding get_event_page older_offset page_anchor
  walk_older zero r anchor offset page_size = none
  walk_older (suc fuel) r anchor offset page_size = do
    (r', page) ← get_event_page sorter unmarshal messages r anchor offset page_size
    elim (older_offset offset page_size page) [
      | none ↦ some page.events
      | some older ↦ do
        rest ← walk_older fuel r' (page_anchor anchor page.events) older page_size
        some (page.events ++ rest)
    ]

  -- The same along the links to the newer events, the newest event first.
  unfoldable pub walk_newer : ℕ → Room → Text → ℤ → ℤ → Option (List Event)
  unfolding get_event_page newer_offset page_anchor
  walk_newer zero r anchor offset page_size = none
  walk_newer (suc fuel) r anchor offset page_size = do
    (r', page) ← get_event_page sorter unmarshal messages r anchor offset page_size
    elim (newer_offset offset page) [
      | none ↦ some page.events
      | some newer ↦ do
        rest ← walk_newer fuel r' (page_anchor anchor page.events) newer page_size
        some (rest ++ page.events)
    ]
