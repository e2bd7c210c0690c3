-- ===== src/Room/Walk/Places.antt =====
-- The page of the timeline at an offset of either sign, by the place in the list where it starts.
use Prim.Native.Nat.{max}
use matrix_static.Prelude.{
  ltb_ℤ, ℕ, suc, ◌+◌, ◌-◌, ◌^◌, ◌≤◌, ◌<◌, ◌≡◌, refl, ◌∙◌, inl, inr, Bool, true, Bool-cases, Option,
  none, some, List, arith, leb, ◌==◌, length, take, drop, ℤ, pos, negsuc, sub64, neg64, Text,
}
use matrix_static.Gomatrix.{Event, Content}
use matrix_static.Sort.{Sorter}
use matrix_static.State.{PowerLevels}
use matrix_static.Timeline.{Room, Messages}
use matrix_static.Room.{
  EventPage, at_ends, page_from, forward_range, get_forward_event_range, get_event_page,
}
use matrix_static.Utils.{max_int, bound}
use matrix_static.Utils.Bounds.{add64-pos, sub64-pos, sub64-neg, max_int-pos}
use matrix_static.Utils.Pages.{go_slice-pos}
use matrix_static.Room.Pages.{anchor_index, backpaginated, get_event_page_found, page_from-older}
use matrix_static.Room.Pages.Anchors.{backpaginated_at_end}
use matrix_static.Room.Walk.Ends.{HasUniqueIds, at_ends-eq}

-- An offset from the anchor at `i` leads to the place `k`.
abbrev pub LeadsTo : ℕ → ℤ → ℕ → Type 0
LeadsTo i (pos offset) k = i + offset ≡ k
LeadsTo i (negsuc offset) k = k + suc offset ≡ i

-- The page of the events from `k` on.
abbrev pub page_of_place : List Event → ℕ → ℕ → EventPage
page_of_place xs k n = record {
  events = take n (drop k xs);
  at_top_end = leb (length xs) (k + n);
  at_bottom_end = k == 0;
  err = none;
}

neg64-negsuc : (m : ℕ) → suc m < 2 ^ 63 → neg64 (negsuc m) ≡ pos (suc m)
unfolding neg64 sub64
neg64-negsuc m h = ground arith

bound-between : (x len : ℕ) → x ≤ len → bound (pos 0) (pos x) (pos len) ≡ pos x
unfolding bound
bound-between x len h = ground arith

max_int-negsuc : (m : ℕ) → max_int (negsuc m) (pos 0) ≡ pos 0
unfolding max_int
max_int-negsuc m = ground arith

max_int-sub64 :
    (a n : ℕ) → a < 2 ^ 63 → n < 2 ^ 63 → max_int (sub64 (pos a) (pos n)) (pos 0) ≡ pos (a - n)
max_int-sub64 a n h k = elim (Bool-cases (leb n a)) [
  | inl e ↦
      let le : n ≤ a = ground arith in
      let most : max (a - n) 0 ≡ a - n = omega arith in
      rw (sub64-pos a n le h, max_int-pos (a - n) 0, most) refl
  | inr e ↦
      let lt : a < n = ground arith in
      let nothing : a - n ≡ 0 = omega arith in
      rw (sub64-neg a n lt (omega arith), max_int-negsuc (n - a - 1), nothing) refl
]

-- The newer events, in front of the anchor; `m + 1` places on.
forward_range-eq :
    (xs : List Event) (i m n : ℕ)
    → suc m ≤ i + n
    → i + n ≤ length xs + suc m
    → i + n < 2 ^ 63
    → length xs < 2 ^ 63
    → forward_range xs (pos i) (pos (suc m)) (pos n)
      ≡ some (take (i + n - suc m - (i + n - suc m - n)) (drop (i + n - suc m - n) xs))
unfolding forward_range
forward_range-eq xs i m n low high fits fits' =
    rw
      (
        add64-pos i n fits,
        sub64-pos (i + n) (suc m) low fits,
        bound-between (i + n - suc m) (length xs) (omega arith),
        max_int-sub64 (i + n - suc m) n (omega arith) (omega arith),
      )
      (go_slice-pos xs (i + n - suc m - n) (i + n - suc m) (omega arith) (omega arith))

module _ (sorter : Sorter) (unmarshal : Content → Option PowerLevels) (messages : Messages) where
  page_from-newer :
      (r : Room) (i m n : ℕ) (events : List Event) (ends : Bool × Bool)
      → suc m < 2 ^ 63
      → forward_range r.event_list (pos i) (pos (suc m)) (pos n) ≡ some events
      → at_ends events r.event_list ≡ some ends
      → page_from sorter unmarshal messages r (pos i) (negsuc m) (pos n)
        ≡ some
            (r, record { events = events; at_top_end = ends.0; at_bottom_end = ends.1; err = none })
  unfolding page_from get_forward_event_range
  page_from-newer r i m n events ends h range at =
      let sign : ltb_ℤ (negsuc m) (pos 0) ≡ true = ground arith in
      rw (sign, neg64-negsuc m h, range, at) refl

  module _ (r : Room) (anchor : Text) (i n : ℕ) (found : anchor_index r anchor ≡ some i)
      (unique : HasUniqueIds r.event_list) (some_size : 0 < n) (fits : i + n < 2 ^ 63)
      (room : length r.event_list + n < 2 ^ 63) where
    -- The page at an offset that is not negative, where the request brings no older events.
    pub stayed_page :
        (k offset : ℕ)
        → backpaginated sorter unmarshal messages r i offset n ≡ r
        → i + offset ≡ k
        → k < length r.event_list
        → get_event_page sorter unmarshal messages r anchor (pos offset) (pos n)
          ≡ some (r, page_of_place r.event_list k n)
    stayed_page k offset stays place inside =
        let ends : at_ends
              (take n (
                drop (i + offset)
                  (backpaginated sorter unmarshal messages r i offset n).event_list))
              (backpaginated sorter unmarshal messages r i offset n).event_list
            ≡ some (leb (length r.event_list) (k + n), k == 0) =
          rw (stays, place) (at_ends-eq r.event_list k n unique some_size inside) in
        let page =
          page_from-older sorter unmarshal messages r i offset n _ (omega arith) (rw stays room)
            ends in
        get_event_page_found sorter unmarshal messages r anchor (pos offset) (pos n) found
        ∙ page
        ∙ rw (stays, place) refl

    -- It brings none once the first event of the room is known.
    pub older_page :
        (k offset : ℕ)
        → r.has_reached_historic_end_of_timeline ≡ true
        → i + offset ≡ k
        → k < length r.event_list
        → get_event_page sorter unmarshal messages r anchor (pos offset) (pos n)
          ≡ some (r, page_of_place r.event_list k n)
    older_page k offset reached place inside =
        stayed_page k offset (backpaginated_at_end sorter unmarshal messages r i offset n reached)
          place inside

    -- The page at a negative offset: from `k` on, or from the newest event on where there are fewer
    -- than `n` in front of the anchor's page.
    pub newer_page :
        (k m size : ℕ)
        → suc m < i + n
        → k ≡ i - suc m
        → k + size ≡ i + n - suc m
        → k + size ≤ length r.event_list
        → get_event_page sorter unmarshal messages r anchor (negsuc m) (pos n)
          ≡ some (r, page_of_place r.event_list k size)
    newer_page k m size low place end inside =
        let start : i + n - suc m - n ≡ k = omega arith in
        let width : i + n - suc m - k ≡ size = omega arith in
        let range : forward_range r.event_list (pos i) (pos (suc m)) (pos n)
            ≡ some (take size (drop k r.event_list)) =
          forward_range-eq r.event_list i m n (omega arith) (omega arith) fits (omega arith)
          ∙ rw (start, width) refl in
        get_event_page_found sorter unmarshal messages r anchor (negsuc m) (pos n) found
        ∙ page_from-newer r i m n _ _ (omega arith) range
            (at_ends-eq r.event_list k size unique (omega arith) (omega arith))
