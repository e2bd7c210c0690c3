-- ===== src/Room.antt =====
-- src/github.com/t3chguy/matrix-static/mxclient/room.go: how a page is cut out of the timeline.
pub mod Pages
pub mod Walk
use matrix_static.Prelude.{
  ℕ, zero, suc, ◌+◌, ◌-◌, ◌*◌, ◌/◌, ◌%◌, ◌^◌, ◌≤◌, ◌<◌, ◌≡◌, refl, sym, ap, ap₂, ◌∙◌, subst, ◌≢◌,
  ◌↔◌, ◌⊎◌, inl, inr, Bool, true, false, not, ◌&&◌, ◌||◌, Option, none, some, List, [], ◌∷◌, ◌++◌,
  map, reverse, arith, ltb, leb, ◌==◌, if◌then◌else◌, ==_iff, Bool-cases, Option-cases, ◌>>=◌,
  length, get_elem?, take, drop, last?, keep, All, length-append, length-take, length-drop,
  length-keep-le, take-append-drop, drop-drop, take-take_add, drop-append, keep-append, All-append,
  ℤ, pos, negsuc, pos_part, neg_part, sub_ℕ, ◌+ℤ◌, ◌-ℤ◌, ◌*ℤ◌, ◌≤ℤ◌, ◌<ℤ◌, ltb_ℤ, eqb_ℤ, eqb_ℤ_iff,
  IsInt64, wrap64, wrap64_of_IsInt64, wrap64-IsInt64, add64, sub64, mul64, neg64, Text, codes,
  text_eq, text_lt, text_eq_refl, text_eq_iff, text_lt_irrefl, text_lt_trans, text_lt_antisymm,
}
use matrix_static.Gomatrix.{Event, Content, GoError}
use matrix_static.Sort.{Sorter}
use matrix_static.State.{PowerLevels}
use matrix_static.Timeline.{
  Room, Messages, Direction, backpaginate_room, overcompensate_backpagination_by,
}
use matrix_static.Utils.{min_int, max_int, bound, go_slice}

-- The last element of `x ∷ xs`.
abbrev pub last {ℓ} : {A : Type ℓ} → A → List A → A
last x [] = x
last x (y ∷ xs) = last y xs

pub record EventPage : Type 0 where
  pub events : List Event
  pub at_top_end : Bool
  pub at_bottom_end : Bool
  pub err : Option Text

abbrev pub not_found : EventPage
not_found = record {
  events = [];
  at_top_end = false;
  at_bottom_end = false;
  err = some (codes "Could not find event");
}

-- Whether the events rest at the older and at the newer end of the list: the comparison of ids. An
-- index into the empty list would panic.
unfoldable pub at_ends : List Event → List Event → Option (Bool × Bool)
at_ends [] event_list = some (false, false)
at_ends (e ∷ events) [] = none
at_ends (e ∷ events) (f ∷ event_list) =
    some (text_eq (last e events).id (last f event_list).id, text_eq e.id f.id)

-- The loop of `findEventIndex`.
unfoldable pub index_from : ℕ → Text → List Event → Option ℕ
index_from index anchor [] = none
index_from index anchor (event ∷ events) =
    if text_eq event.id anchor then some index else index_from (suc index) anchor events

-- Whether the request counts as having reached the first event of the room.
unfoldable pub note_end : Room × ℤ × Option GoError → Room
note_end (r, num_new, some e) = r
note_end (r, num_new, none) =
    if eqb_ℤ num_new (pos 0) then record r { has_reached_historic_end_of_timeline = true } else r

-- `delta` of `backpaginateIfNeeded`
unfoldable pub wanted : ℤ → ℤ → ℤ → ℤ
unfolding add64
wanted anchor_index offset number =
    add64 (add64 (add64 anchor_index offset) number) overcompensate_backpagination_by

-- The number of events that `backpaginateIfNeeded` asks for.
unfoldable pub amount : Room → ℤ → ℤ → ℤ → ℤ
unfolding wanted sub64
amount r anchor_index offset number =
    sub64 (wanted anchor_index offset number) (pos (length r.event_list))

-- The slice of `getBackwardEventRange`, and that of `getForwardEventRange`.
unfoldable pub backward_range : List Event → ℤ → ℤ → ℤ → Option (List Event)
unfolding min_int add64 go_slice
backward_range event_list anchor_index offset number =
    let len = pos (length event_list) in
    let start = min_int (add64 anchor_index offset) len in
    go_slice event_list start (min_int (add64 start number) len)

unfoldable pub forward_range : List Event → ℤ → ℤ → ℤ → Option (List Event)
unfolding bound max_int add64 sub64 go_slice
forward_range event_list index offset number =
    let top = bound (pos 0) (sub64 (add64 index number) offset) (pos (length event_list)) in
    go_slice event_list (max_int (sub64 top number) (pos 0)) top

unfoldable pub get_forward_event_range : Room → ℤ → ℤ → ℤ → Option (Room × List Event)
get_forward_event_range r index offset number = do
  events ← forward_range r.event_list index offset number
  some (r, events)

module _ (sorter : Sorter) (unmarshal : Content → Option PowerLevels) where
  module _ (messages : Messages) where
    -- `findEventIndex`; `none` is (0, false).
    unfoldable pub find_event_index : Room → Text → Bool → Room × Option ℕ
    unfolding index_from backpaginate_room
    find_event_index r anchor backpaginate = elim (index_from 0 anchor r.event_list) [
      | some index ↦ (r, some index)
      | none ↦
          if backpaginate
          then (let (r', num_new, error) =
                backpaginate_room sorter unmarshal messages r (pos 100) in
              (r', if ltb_ℤ (pos 0) num_new then index_from 0 anchor r'.event_list else none))
          else (r, none)
    ]

    unfoldable pub backpaginate_if_needed : Room → ℤ → ℤ → ℤ → Room
    unfolding backpaginate_room note_end wanted amount
    backpaginate_if_needed r anchor_index offset number =
        let delta = wanted anchor_index offset number in
        let len = pos (length r.event_list) in
        if r.has_reached_historic_end_of_timeline
        then r
        else if ltb_ℤ delta len
        then r
        else note_end
            (backpaginate_room sorter unmarshal messages r (amount r anchor_index offset number))

    unfoldable pub get_backward_event_range : Room → ℤ → ℤ → ℤ → Option (Room × List Event)
    get_backward_event_range r anchor_index offset number =
        let r' = backpaginate_if_needed r anchor_index offset number in
        do events ← backward_range r'.event_list anchor_index offset number; some (r', events)

    -- `GetEventPage`; `none` is a run-time panic.
    unfoldable pub page_from : Room → ℤ → ℤ → ℤ → Option (Room × EventPage)
    unfolding get_backward_event_range get_forward_event_range neg64
    page_from r anchor_index offset page_size = do
      (r', events) ←
          if ltb_ℤ offset (pos 0)
          then get_forward_event_range r anchor_index (neg64 offset) page_size
          else get_backward_event_range r anchor_index offset page_size
      ends ← at_ends events r'.event_list
      some (r', record { events = events; at_top_end = ends.0; at_bottom_end = ends.1; err = none })

    -- The page from the found anchor, or the error.
    unfoldable pub page_at : ℤ → ℤ → Room × Option ℕ → Option (Room × EventPage)
    page_at offset page_size (r, some index) = page_from r (pos index) offset page_size
    page_at offset page_size (r, none) = some (r, not_found)

    unfoldable pub get_event_page : Room → Text → ℤ → ℤ → Option (Room × EventPage)
    get_event_page r anchor offset page_size =
        if text_eq anchor []
        then page_from r (pos 0) offset page_size
        else page_at offset page_size (find_event_index r anchor false)
