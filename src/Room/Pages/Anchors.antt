-- ===== src/Room/Pages/Anchors.antt =====
-- The anchor of a page, against events that come in at the newer end.
use mathlib.Core.List.{reverse-cons}
use matrix_static.Prelude.{
  ℕ, suc, ◌+◌, ◌^◌, ◌≤◌, ◌<◌, ◌≡◌, refl, sym, ap, ◌∙◌, inl, inr, true, false, Option, some, List,
  [], ◌∷◌, ◌++◌, reverse, arith, Bool-cases, length, keep, All, length-append, length-keep-le,
  drop-append, All-append, pos, Text, text_eq,
}
use matrix_static.Gomatrix.{Event, Content}
use matrix_static.Sort.{Sorter}
use matrix_static.State.{PowerLevels}
use matrix_static.Timeline.{Room, Messages, should_hide_event, concat_forward_pagination}
use matrix_static.Timeline.Concat.{shown, concat_forward_pagination-eq}
use matrix_static.Room.{EventPage, backpaginate_if_needed, get_event_page, index_from}
use matrix_static.Room.Pages.{anchor_index, backpaginated, get_event_page-backpaginated}

-- None of the events has the id.
abbrev pub Without : Text → List Event → Type 0
Without anchor = All (λ ev. text_eq ev.id anchor ≡ false)

shown-Without :
    (anchor : Text) (events : List Event) → Without anchor events → Without anchor (shown events)
unfolding keep
shown-Without anchor [] h = tt
shown-Without anchor (ev ∷ events) (p, h) = elim (Bool-cases (should_hide_event ev)) [
  | inl e ↦ rw e (shown-Without anchor events h)
  | inr e ↦ rw e (p, shown-Without anchor events h)
]

reverse-Without :
    (anchor : Text) (events : List Event) → Without anchor events → Without anchor (reverse events)
reverse-Without anchor [] h = tt
reverse-Without anchor (ev ∷ events) (p, h) = rw (reverse-cons ev events) (
    All-append (λ (e : Event). text_eq e.id anchor ≡ false) (reverse events) (ev ∷ [])
      (reverse-Without anchor events h) (p, tt))

index_from-append :
    (n : ℕ) (anchor : Text) (events xs : List Event)
    → Without anchor events
    → index_from n anchor (events ++ xs) ≡ index_from (length events + n) anchor xs
unfolding index_from
index_from-append n anchor [] xs h = let e : 0 + n ≡ n = omega arith in rw e refl
index_from-append n anchor (ev ∷ events) xs (p, h) =
    let e : length events + suc n ≡ suc (length events) + n = omega arith in
    rw p (index_from-append (suc n) anchor events xs h ∙ ap (λ m. index_from m anchor xs) e)

index_from-add :
    (k n : ℕ) (anchor : Text) (xs : List Event) {i : ℕ}
    → index_from n anchor xs ≡ some i
    → index_from (k + n) anchor xs ≡ some (k + i)
unfolding index_from
index_from-add k n anchor [] h = absurd (cc)
index_from-add k n anchor (x ∷ xs) {i} h = elim (Bool-cases (text_eq x.id anchor)) [
  | inl e ↦ let found : some n ≡ some i = rw e at h in let same : n ≡ i = cc in rw (e, same) refl
  | inr e ↦
      let next : suc (k + n) ≡ k + suc n = omega arith in
      rw (e, next) (index_from-add k (suc n) anchor xs (rw e at h))
]

length-reverse : (xs : List Event) → length (reverse xs) ≡ length xs
length-reverse [] = refl
length-reverse (x ∷ xs) =
    rw (reverse-cons x xs, length-append (reverse xs) (x ∷ []), length-reverse xs) (omega arith)

module _ (sorter : Sorter) (unmarshal : Content → Option PowerLevels) where
  -- New events move the anchor by their number.
  anchor_index-forward :
      (events : List Event) (token : Text) (r : Room) (anchor : Text) {i : ℕ}
      → text_eq anchor [] ≡ false
      → Without anchor events
      → anchor_index r anchor ≡ some i
      → anchor_index (concat_forward_pagination sorter unmarshal events token r) anchor
        ≡ some (length (reverse (shown events)) + i)
  unfolding anchor_index
  anchor_index-forward events token r anchor {i} given fresh found =
      let none_new = reverse-Without anchor (shown events) (shown-Without anchor events fresh) in
      let old : index_from 0 anchor r.event_list ≡ some i = rw given at found in
      rw
        (
          concat_forward_pagination-eq sorter unmarshal events token r,
          given,
          index_from-append 0 anchor (reverse (shown events)) r.event_list none_new,
        )
        (index_from-add (length (reverse (shown events))) 0 anchor r.event_list old)

  module _ (messages : Messages) where
    pub backpaginated_at_end :
        (r : Room) (i offset number : ℕ)
        → r.has_reached_historic_end_of_timeline ≡ true
        → backpaginated sorter unmarshal messages r i offset number ≡ r
    unfolding backpaginate_if_needed
    backpaginated_at_end r i offset number h = rw h refl

    -- A page of older events does not move when newer ones come in. Once the first event of the room
    -- is known, the page from an anchor that is in the timeline holds the same events before and
    -- after a forward pagination that brings no event with the anchor's id, where 64 bits suffice.
    pub get_event_page-forward :
        (events : List Event) (token : Text) (r : Room) (anchor : Text) (i offset number : ℕ)
        → text_eq anchor [] ≡ false
        → Without anchor events
        → r.has_reached_historic_end_of_timeline ≡ true
        → anchor_index r anchor ≡ some i
        → length events + i + offset < 2 ^ 63
        → length events + length r.event_list + number < 2 ^ 63
        → (before : EventPage) × (after : EventPage) × (get_event_page sorter unmarshal messages r
              anchor
              (pos offset)
              (pos number)
            ≡ some (r, before))
          × (get_event_page sorter unmarshal messages
                (concat_forward_pagination sorter unmarshal events token r)
                anchor
                (pos offset)
                (pos number)
              ≡ some (concat_forward_pagination sorter unmarshal events token r, after))
          × (after.events ≡ before.events)
    get_event_page-forward events token r anchor i offset number given fresh reached found h room =
        let r' = concat_forward_pagination sorter unmarshal events token r in
        let new = reverse (shown events) in
        let at_end : r'.has_reached_historic_end_of_timeline ≡ true =
          rw (concat_forward_pagination-eq sorter unmarshal events token r) reached in
        let stays = backpaginated_at_end r i offset number reached in
        let stays' = backpaginated_at_end r' (length new + i) offset number at_end in
        let few : length new ≤ length events =
          rw (length-reverse (shown events)) (length-keep-le _ events) in
        let (before, e, b, _) =
          get_event_page-backpaginated sorter unmarshal messages r anchor i offset number found
            (omega arith) (rw stays (omega arith)) in
        let (after, e', a, _) =
          get_event_page-backpaginated sorter unmarshal messages r' anchor (length new + i) offset
            number (anchor_index-forward events token r anchor given fresh found) (omega arith)
            (rw
              (
                stays',
                concat_forward_pagination-eq sorter unmarshal events token r,
                length-append new r.event_list,
              )
              (omega arith)) in
        let assoc : length new + i + offset ≡ length new + (i + offset) = omega arith in
        (
          before,
          after,
          rw stays at e,
          rw stays' at e',
          a
              ∙ rw
                  (
                    stays',
                    concat_forward_pagination-eq sorter unmarshal events token r,
                    assoc,
                    drop-append new r.event_list (i + offset),
                  )
                  refl
              ∙ sym (rw stays at b),
        )
