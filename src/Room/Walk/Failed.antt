-- ===== src/Room/Walk/Failed.antt =====
-- The end of the known timeline, where the homeserver does not give the older events.
use matrix_static.Prelude.{
  ℕ, ◌+◌, ◌^◌, ◌≤◌, ◌<◌, ◌≡◌, refl, true, some, arith, leb, ltb_ℤ, length, length-drop, Option,
  if_cases, drop, ap, negsuc, ℤ, pos, Text,
}
use matrix_static.Gomatrix.{Content, GoError, err}
use matrix_static.Sort.{Sorter}
use matrix_static.State.{PowerLevels}
use matrix_static.Timeline.{Room, Messages, backward, minimum_pagination, backpaginate_room}
use matrix_static.Room.{EventPage, amount, wanted, note_end, backpaginate_if_needed, get_event_page}
use matrix_static.Room.Pages.{anchor_index, backpaginated}
use matrix_static.Utils.{max_int}
use matrix_static.Utils.Pages.{take_of_length-le}
use matrix_static.Room.Walk.Ends.{HasUniqueIds}
use matrix_static.Room.Walk.Places.{stayed_page}

module _ (sorter : Sorter) (unmarshal : Content → Option PowerLevels) (messages : Messages) where
  backpaginate_room_failed :
      (r : Room) (size : ℤ) (e : GoError)
      → ((limit : ℤ) → messages r.id r.back_pagination_token backward limit ≡ err e)
      → note_end (backpaginate_room sorter unmarshal messages r size) ≡ r
  unfolding backpaginate_room note_end
  backpaginate_room_failed r size e fails =
      let failed : backpaginate_room sorter unmarshal messages r size ≡ (r, negsuc 0, some e) =
        rw (fails (max_int size minimum_pagination), backpaginate_room) refl in
      ap note_end failed

  backpaginated_failed :
      (r : Room) (i offset n : ℕ) (e : GoError)
      → ((size : ℤ) → messages r.id r.back_pagination_token backward size ≡ err e)
      → backpaginated sorter unmarshal messages r i offset n ≡ r
  unfolding backpaginate_if_needed
  backpaginated_failed r i offset n e fails =
      if_cases (λ x. x ≡ r) r.has_reached_historic_end_of_timeline r _ refl
        (if_cases (λ x. x ≡ r)
          (ltb_ℤ (wanted (pos i) (pos offset) (pos n)) (pos (length r.event_list))) r _ refl
          (backpaginate_room_failed r (amount r (pos i) (pos offset) (pos n)) e fails))

  -- Where the homeserver fails to give older events, a page that reaches the end of the known
  -- timeline is the rest of it, and says that it is at the older end, whether or not that is the
  -- first event of the room; the room is left as it was. Here the events have unique ids, the page
  -- starts in the timeline, and 62 bits suffice.
  pub get_event_page-failed :
      (r : Room) (anchor : Text) (i offset n : ℕ) (e : GoError)
      → ((size : ℤ) → messages r.id r.back_pagination_token backward size ≡ err e)
      → anchor_index r anchor ≡ some i
      → HasUniqueIds r.event_list
      → i + offset < length r.event_list
      → length r.event_list ≤ i + offset + n
      → length r.event_list + n < 2 ^ 62
      → (page : EventPage) × (get_event_page sorter unmarshal messages r anchor (pos offset) (pos n)
          ≡ some (r, page))
        × (page.events ≡ drop (i + offset) r.event_list)
        × (page.at_top_end ≡ true)
  get_event_page-failed r anchor i offset n e fails found unique inside last room =
      let reaches : leb (length r.event_list) (i + offset + n) ≡ true = ground arith in
      (
        _,
        stayed_page sorter unmarshal messages r anchor i n found unique (omega arith) (omega arith)
            (omega arith) (i + offset) offset (backpaginated_failed r i offset n e fails) refl
            inside,
        take_of_length-le n (drop (i + offset) r.event_list)
            (omega (arith, length-drop (i + offset) r.event_list)),
        reaches,
      )
