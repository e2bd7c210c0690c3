-- ===== src/Room/Pages.antt =====
-- The pages of the timeline, against `take` and `drop` of the event list.
pub mod Anchors
pub mod Asked
use mathlib.Core.List.{append-nil}
use Prim.Native.Nat.{min}
use matrix_static.Prelude.{
  if_cases, ℕ, zero, suc, ◌+◌, ◌-◌, ◌*◌, ◌/◌, ◌%◌, ◌^◌, ◌≤◌, ◌<◌, ◌≡◌, refl, sym, ap, ap₂, ◌∙◌,
  subst, ◌≢◌, ◌↔◌, ◌⊎◌, inl, inr, Bool, true, false, not, ◌&&◌, ◌||◌, Option, none, some, List, [],
  ◌∷◌, ◌++◌, map, reverse, arith, ltb, leb, ◌==◌, if◌then◌else◌, ==_iff, Bool-cases, Option-cases,
  ◌>>=◌, length, get_elem?, take, drop, last?, keep, All, length-append, length-take, length-drop,
  length-keep-le, take-append-drop, drop-drop, take-take_add, drop-append, keep-append, All-append,
  ℤ, pos, negsuc, pos_part, neg_part, sub_ℕ, ◌+ℤ◌, ◌-ℤ◌, ◌*ℤ◌, ◌≤ℤ◌, ◌<ℤ◌, ltb_ℤ, eqb_ℤ, eqb_ℤ_iff,
  IsInt64, wrap64, wrap64_of_IsInt64, wrap64-IsInt64, add64, sub64, mul64, neg64, Text, codes,
  text_eq, text_lt, text_eq_refl, text_eq_iff, text_lt_irrefl, text_lt_trans, text_lt_antisymm,
}
use matrix_static.Gomatrix.{Event, Content, GoError, RespMessages, Result, ok, err, Result-cases}
use matrix_static.Sort.{Sorter}
use matrix_static.State.{PowerLevels}
use matrix_static.Timeline.{
  Room, Messages, Direction, backward, backpaginate_room, minimum_pagination,
  overcompensate_backpagination_by,
}
use matrix_static.Timeline.Concat.{shown, concat_backpagination-eq}
use matrix_static.Timeline.Invariant.{IsLoaded, backpaginate_room-IsLoaded}
use matrix_static.Room.{
  EventPage, at_ends, note_end, wanted, amount, backpaginate_if_needed, get_backward_event_range,
  backward_range, forward_range, get_forward_event_range, page_from, not_found, get_event_page,
  find_event_index, index_from, page_at,
}
use matrix_static.Utils.{min_int, max_int, bound, go_slice}
use matrix_static.Utils.Bounds.{add64-pos, min_int-pos, sub64-pos, sub64-neg}
use matrix_static.Utils.Pages.{go_slice-pos, go_slice-clipped}

at_ends-cons :
    (events : List Event) (x : Event) (xs : List Event)
    → (b : Bool × Bool) × (at_ends events (x ∷ xs) ≡ some b)
unfolding at_ends
at_ends-cons [] x xs = ((false, false), refl)
at_ends-cons (e ∷ events) x xs = (_, refl)

-- A part of a list can be compared with its ends: no index of `GetEventPage` panics.
at_ends-some :
    (n from : ℕ) (xs : List Event)
    → (b : Bool × Bool) × (at_ends (take n (drop from xs)) xs ≡ some b)
unfolding at_ends
at_ends-some zero from [] = ((false, false), refl)
at_ends-some (suc n) zero [] = ((false, false), refl)
at_ends-some (suc n) (suc from) [] = ((false, false), refl)
at_ends-some n from (x ∷ xs) = at_ends-cons (take n (drop from (x ∷ xs))) x xs

-- Where the anchor of a request stands in the timeline; no anchor is the newest event.
unfoldable pub anchor_index : Room → Text → Option ℕ
anchor_index r anchor = if text_eq anchor [] then some 0 else index_from 0 anchor r.event_list

backward_range-eq :
    (xs : List Event) (i offset number : ℕ)
    → i + offset < 2 ^ 63
    → length xs + number < 2 ^ 63
    → backward_range xs (pos i) (pos offset) (pos number)
      ≡ some (take number (drop (i + offset) xs))
unfolding backward_range
backward_range-eq xs i offset number h room =
    let l = length xs in
    rw
      (
        add64-pos i offset h,
        min_int-pos (i + offset) l,
        add64-pos (min (i + offset) l) number (omega arith),
        min_int-pos (min (i + offset) l + number) l,
      )
      (go_slice-clipped xs (i + offset) number)

offset_sign : (offset : ℕ) → ltb_ℤ (pos offset) (pos 0) ≡ false
offset_sign offset = ground arith

module _ (sorter : Sorter) (unmarshal : Content → Option PowerLevels) (messages : Messages) where
  -- The room after the request for older events that a page request makes.
  abbrev pub backpaginated : Room → ℕ → ℕ → ℕ → Room
  backpaginated r i offset number =
      backpaginate_if_needed sorter unmarshal messages r (pos i) (pos offset) (pos number)

  -- A back pagination only adds events behind the known ones.
  backpaginate_room-extends :
      (r : Room) (amount : ℤ)
      → (older : List Event) × ((backpaginate_room sorter unmarshal messages r amount).0.event_list
          ≡ r.event_list ++ older)
  unfolding backpaginate_room
  backpaginate_room-extends r amount =
      elim (Result-cases
        (messages r.id r.back_pagination_token backward (max_int amount minimum_pagination))) [
          | inl (e, h) ↦ ([], rw (h, backpaginate_room) (sym (append-nil r.event_list)))
          | inr (resp, h) ↦ (
            shown resp.chunk,
            rw (h, backpaginate_room)
                (ap (λ (x : Room). x.event_list)
                  (concat_backpagination-eq sorter unmarshal resp.chunk resp.end_token r)),
          )
        ]

  note_end-event_list : (t : Room × ℤ × Option GoError) → (note_end t).event_list ≡ t.0.event_list
  unfolding note_end
  note_end-event_list (r, n, some e) = refl
  note_end-event_list (r, n, none) = ground arith

  -- So does what a page request does first.
  pub backpaginate_if_needed-extends :
      (r : Room) (index offset number : ℤ)
      → (older : List Event) × ((backpaginate_if_needed sorter unmarshal messages r index offset
            number).event_list
          ≡ r.event_list ++ older)
  unfolding backpaginate_if_needed
  backpaginate_if_needed-extends r index offset number =
      if_cases Extends r.has_reached_historic_end_of_timeline r _ same (
        if_cases Extends (ltb_ℤ (wanted index offset number) (pos (length r.event_list))) r
          (note_end answer) same extended)
    where
      Extends : Room → Type 0
      Extends x = (older : List Event) × (x.event_list ≡ r.event_list ++ older)

      same : Extends r
      same = ([], sym (append-nil r.event_list))

      answer : Room × ℤ × Option GoError
      answer = backpaginate_room sorter unmarshal messages r (amount r index offset number)

      extended : Extends (note_end answer)
      extended =
          let (older, e) = backpaginate_room-extends r (amount r index offset number) in
          (older, note_end-event_list answer ∙ e)

  -- Where 64 bits suffice, a page of older events holds the `number` events from the index of the
  -- anchor and the offset on, of the timeline as it stands after the request for older ones.
  pub get_backward_event_range-eq :
      (r : Room) (i offset number : ℕ)
      → i + offset < 2 ^ 63
      → length (backpaginated r i offset number).event_list + number < 2 ^ 63
      → get_backward_event_range sorter unmarshal messages r (pos i) (pos offset) (pos number)
        ≡ some (
          backpaginated r i offset number,
          take number (drop (i + offset) (backpaginated r i offset number).event_list),
        )
  unfolding get_backward_event_range
  get_backward_event_range-eq r i offset number h room =
      rw (backward_range-eq (backpaginated r i offset number).event_list i offset number h room)

  pub page_from-older :
      (r : Room) (i offset number : ℕ) (ends : Bool × Bool)
      → i + offset < 2 ^ 63
      → length (backpaginated r i offset number).event_list + number < 2 ^ 63
      → at_ends
          (take number (drop (i + offset) (backpaginated r i offset number).event_list))
          (backpaginated r i offset number).event_list
        ≡ some ends
      → page_from sorter unmarshal messages r (pos i) (pos offset) (pos number)
        ≡ some (
          backpaginated r i offset number,
          record {
            events = take number (drop (i + offset) (backpaginated r i offset number).event_list);
            at_top_end = ends.0;
            at_bottom_end = ends.1;
            err = none;
          },
        )
  unfolding page_from
  page_from-older r i offset number ends h room e =
      rw (offset_sign offset, get_backward_event_range-eq r i offset number h room, e)

  pub find_event_index-false :
      (r : Room) (anchor : Text)
      → find_event_index sorter unmarshal messages r anchor false
        ≡ (r, index_from 0 anchor r.event_list)
  unfolding find_event_index
  find_event_index-false r anchor = elim (Option-cases (index_from 0 anchor r.event_list)) [
    | inl e ↦ rw (e, find_event_index)
    | inr (i, e) ↦ rw (e, find_event_index)
  ]

  pub get_event_page_found :
      (r : Room) (anchor : Text) (offset number : ℤ) {i : ℕ}
      → anchor_index r anchor ≡ some i
      → get_event_page sorter unmarshal messages r anchor offset number
        ≡ page_from sorter unmarshal messages r (pos i) offset number
  unfolding get_event_page page_at anchor_index
  get_event_page_found r anchor offset number {i} h = elim (Bool-cases (text_eq anchor [])) [
    | inl e ↦ let zero_index : some 0 ≡ some i = rw e at h in let same : 0 ≡ i = cc in rw (e, same)
    | inr e ↦ rw (e, find_event_index-false r anchor, rw e at h)
  ]

  -- The page of older events, with the room that it leaves.
  pub get_event_page-backpaginated :
      (r : Room) (anchor : Text) (i offset number : ℕ)
      → anchor_index r anchor ≡ some i
      → i + offset < 2 ^ 63
      → length (backpaginated r i offset number).event_list + number < 2 ^ 63
      → (page : EventPage) × (get_event_page sorter unmarshal messages r anchor
            (pos offset)
            (pos number)
          ≡ some (backpaginated r i offset number, page))
        × (page.events
            ≡ take number (drop (i + offset) (backpaginated r i offset number).event_list))
        × (page.err ≡ none)
  get_event_page-backpaginated r anchor i offset number found h room =
      let (ends, e) =
        at_ends-some number (i + offset) (backpaginated r i offset number).event_list in
      (
        _,
        get_event_page_found r anchor (pos offset) (pos number) found
            ∙ page_from-older r i offset number ends h room e,
        refl,
        refl,
      )

  -- A request for older events, from an anchor that is in the timeline, is answered: where 64 bits
  -- suffice nothing panics, and the page holds the `number` events from the anchor and the offset
  -- on, as far as there are any. The timeline has only grown at its old end.
  pub get_event_page-older :
      (r : Room) (anchor : Text) (i offset number : ℕ)
      → anchor_index r anchor ≡ some i
      → i + offset < 2 ^ 63
      → length (backpaginated r i offset number).event_list + number < 2 ^ 63
      → (r' : Room) × (page : EventPage) × (get_event_page sorter unmarshal messages r anchor
            (pos offset)
            (pos number)
          ≡ some (r', page))
        × (page.events ≡ take number (drop (i + offset) r'.event_list))
        × (page.err ≡ none)
        × ((older : List Event) × (r'.event_list ≡ r.event_list ++ older))
  get_event_page-older r anchor i offset number found h room =
      let (page, e, events, error) =
        get_event_page-backpaginated r anchor i offset number found h room in
      (
        backpaginated r i offset number,
        page,
        e,
        events,
        error,
        backpaginate_if_needed-extends r (pos i) (pos offset) (pos number),
      )

  -- An anchor that is not in the timeline is reported, and the room is left alone.
  pub get_event_page-not_found :
      (r : Room) (anchor : Text) (offset number : ℤ)
      → anchor_index r anchor ≡ none
      → get_event_page sorter unmarshal messages r anchor offset number ≡ some (r, not_found)
  unfolding get_event_page page_at anchor_index
  get_event_page-not_found r anchor offset number h = elim (Bool-cases (text_eq anchor [])) [
    | inl e ↦ absurd (cc (rw e at h))
    | inr e ↦ rw (e, find_event_index-false r anchor, rw e at h)
  ]
