-- ===== src/Timeline/Concat.antt =====
-- What the paginations leave in the timeline, in one pass over the events.
use mathlib.Core.List.{reverse-cons, append_assoc, append-nil}
use matrix_static.Prelude.{
  ◌≡◌, refl, sym, ap, ◌∙◌, inl, inr, false, not, Option, List, [], ◌∷◌, ◌++◌, reverse, Bool-cases,
  keep, Text,
}
use matrix_static.Gomatrix.{Event, Content}
use matrix_static.Sort.{Sorter}
use matrix_static.State.{PowerLevels, RoomState}
use matrix_static.State.Recalculate.{recalculate_member_list_and_servers}
use matrix_static.State.Update.{update_on_event}
use matrix_static.Timeline.{
  Room, should_hide_event, append_shown, prepend_shown, forward_events, concat_forward_pagination,
  concat_backpagination,
}

-- The events that the timeline shows.
abbrev pub shown : List Event → List Event
shown = keep (λ ev. not (should_hide_event ev))

pub append_shown-eq-append :
    (events event_list : List Event) → append_shown events event_list ≡ event_list ++ shown events
unfolding append_shown keep
append_shown-eq-append [] event_list = sym (append-nil event_list)
append_shown-eq-append (ev ∷ events) event_list = elim (Bool-cases (should_hide_event ev)) [
  | inl h ↦ rw h (append_shown-eq-append events event_list)
  | inr h ↦ rw h (
      append_shown-eq-append events (event_list ++ ev ∷ [])
      ∙ append_assoc event_list (ev ∷ []) (shown events))
]

reverse-cons-append :
    {A : Type 0} (x : A) (l r : List A) → reverse l ++ x ∷ r ≡ reverse (x ∷ l) ++ r
reverse-cons-append x l r = simp (reverse-cons, append_assoc)

pub prepend_shown-eq-append :
    (events event_list : List Event)
    → prepend_shown events event_list ≡ reverse (shown events) ++ event_list
unfolding prepend_shown keep
prepend_shown-eq-append [] event_list = refl
prepend_shown-eq-append (ev ∷ events) event_list = elim (Bool-cases (should_hide_event ev)) [
  | inl h ↦ rw h (prepend_shown-eq-append events event_list)
  | inr h ↦ rw h (
      prepend_shown-eq-append events (ev ∷ event_list)
      ∙ reverse-cons-append ev (shown events) event_list)
]

module _ (unmarshal : Content → Option PowerLevels) where
  -- The state after the events, each applied with its own content only.
  unfoldable pub state_after : List Event → RoomState → RoomState
  state_after [] rs = rs
  state_after (ev ∷ events) rs = state_after events (update_on_event unmarshal ev false rs)

module _ (sorter : Sorter) (unmarshal : Content → Option PowerLevels) where
  forward_events-eq :
      (events : List Event) (rs : RoomState) (event_list : List Event)
      → forward_events sorter unmarshal events rs event_list
        ≡ (state_after unmarshal (shown events) rs, reverse (shown events) ++ event_list)
  unfolding forward_events keep state_after
  forward_events-eq [] rs event_list = refl
  forward_events-eq (ev ∷ events) rs event_list = elim (Bool-cases (should_hide_event ev)) [
    | inl h ↦ rw (h, forward_events) (forward_events-eq events rs event_list)
    | inr h ↦
        rw (h, forward_events)
          (forward_events-eq events (update_on_event unmarshal ev false rs) (ev ∷ event_list)
            ∙ ap
                (λ l.
                  (state_after unmarshal (shown events) (update_on_event unmarshal ev false rs), l))
                (reverse-cons-append ev (shown events) event_list))
  ]

  -- Forward pagination puts the shown events, newest first, before the ones that were there, applies
  -- them to the state in the order in which they happened, recalculates the lists of the state, and
  -- remembers the token for the next request; the token for older events and the rest stay.
  pub concat_forward_pagination-eq :
      (events : List Event) (token : Text) (r : Room)
      → concat_forward_pagination sorter unmarshal events token r ≡ record r {
        event_list = reverse (shown events) ++ r.event_list;
        forward_pagination_token = token;
        latest_room_state =
            recalculate_member_list_and_servers sorter
              (state_after unmarshal (shown events) r.latest_room_state);
      }
  unfolding concat_forward_pagination
  concat_forward_pagination-eq events token r =
      rw (forward_events-eq events r.latest_room_state r.event_list)

  -- Back pagination puts the shown events behind the ones that were there, in the order of the
  -- response, and touches neither what is known of the members nor the token for newer events.
  pub concat_backpagination-eq :
      (events : List Event) (token : Text) (r : Room)
      → concat_backpagination sorter unmarshal events token r ≡ record r {
        event_list = r.event_list ++ shown events;
        back_pagination_token = token;
        latest_room_state = recalculate_member_list_and_servers sorter r.latest_room_state;
      }
  unfolding concat_backpagination
  concat_backpagination-eq events token r = rw (append_shown-eq-append events r.event_list)
