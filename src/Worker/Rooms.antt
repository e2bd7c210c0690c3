-- ===== src/Worker/Rooms.antt =====
-- The rooms of a worker under its jobs: what every job leaves of them.
use matrix_static.Prelude.{
  ℕ, ◌≡◌, refl, ap, ◌∙◌, subst, inl, inr, true, Option, none, some, List, [], if◌then◌else◌,
  Bool-cases, if_cases, ◌>>=◌, length, ℤ, pos, ltb_ℤ, eqb_ℤ, neg64, Text, text_eq,
}
use matrix_static.Gomatrix.{Event, Content, GoError, Result-cases}
use matrix_static.Sort.{Sorter}
use matrix_static.State.{PowerLevels}
use matrix_static.Utils.{max_int}
use matrix_static.Timeline.{
  Room, Messages, backward, forward, access, forward_paginate_room, backpaginate_room,
  forwardpaginate_room, minimum_pagination, concat_backpagination, concat_forward_pagination,
}
use matrix_static.Timeline.Invariant.{
  IsLoaded, backpaginate_room-IsLoaded, forwardpaginate_room-IsLoaded,
}
use matrix_static.Room.{
  EventPage, get_event_page, page_from, page_at, backpaginate_if_needed, note_end, wanted, amount,
  get_backward_event_range, get_forward_event_range, forward_range, backward_range, at_ends,
  index_from,
}
use matrix_static.Room.Pages.{find_event_index-false}

-- A chain that gives a result gives one at each link.
pub bind_some {ℓ κ} :
    {A : Type ℓ} {B : Type κ} (o : Option A) (f : A → Option B) {b : B}
    → (o >>= f) ≡ some b
    → (a : A) × (o ≡ some a) × (f a ≡ some b)
bind_some none f h = absurd (cc)
bind_some (some a) f h = (a, refl, h)

pub some_room : {A B : Type 0} (t : A × B) {r' : A} {y : B} → some t ≡ some (r', y) → t.0 ≡ r'
some_room t {r'} {y} h = let e : t ≡ (r', y) = cc in ap (λ u. u.0) e

-- A room under its id.
pub record IsHeld (id : Text) (r : Room) : Type 0 where
  pub loaded : IsLoaded r
  pub own_id : r.id ≡ id

pub access-IsHeld : (now : ℕ) (id : Text) (r : Room) → IsHeld id r → IsHeld id (access now r)
unfolding access
access-IsHeld now id r v = record {
  loaded = record { state = v.loaded.state; timeline = v.loaded.timeline };
  own_id = v.own_id;
}

module _ (sorter : Sorter) (unmarshal : Content → Option PowerLevels) (messages : Messages) where
  backpaginate_room-id :
      (r : Room) (amount : ℤ) → (backpaginate_room sorter unmarshal messages r amount).0.id ≡ r.id
  unfolding backpaginate_room concat_backpagination
  backpaginate_room-id r amount =
      elim (Result-cases
        (messages r.id r.back_pagination_token backward (max_int amount minimum_pagination))) [
          | inl (e, h) ↦ rw (h, backpaginate_room) refl
          | inr (resp, h) ↦ rw (h, backpaginate_room) refl
        ]

  forwardpaginate_room-id :
      (r : Room) (amount : ℤ)
      → (forwardpaginate_room sorter unmarshal messages r amount).0.id ≡ r.id
  unfolding forwardpaginate_room concat_forward_pagination
  forwardpaginate_room-id r amount =
      elim (Result-cases
        (messages r.id r.forward_pagination_token forward (max_int amount minimum_pagination))) [
          | inl (e, h) ↦ rw (h, forwardpaginate_room) refl
          | inr (resp, h) ↦ rw (h, forwardpaginate_room) refl
        ]

  note_end-IsHeld :
      (id : Text) (t : Room × ℤ × Option GoError) → IsHeld id t.0 → IsHeld id (note_end t)
  unfolding note_end
  note_end-IsHeld id (r, n, some e) v = v
  note_end-IsHeld id (r, n, none) v =
      if_cases (IsHeld id) (eqb_ℤ n (pos 0))
        (record r { has_reached_historic_end_of_timeline = true }) r
        (record {
          loaded = record { state = v.loaded.state; timeline = v.loaded.timeline };
          own_id = v.own_id;
        })
        v

  backpaginate_if_needed-IsHeld :
      (id : Text) (r : Room) (index offset number : ℤ)
      → IsHeld id r
      → IsHeld id (backpaginate_if_needed sorter unmarshal messages r index offset number)
  unfolding backpaginate_if_needed
  backpaginate_if_needed-IsHeld id r index offset number v =
      if_cases (IsHeld id) r.has_reached_historic_end_of_timeline r _ v (
        if_cases (IsHeld id) (ltb_ℤ (wanted index offset number) (pos (length r.event_list))) r _ v
          (note_end-IsHeld id
            (backpaginate_room sorter unmarshal messages r (amount r index offset number))
            (record {
              loaded =
                  backpaginate_room-IsLoaded sorter unmarshal messages r
                    (amount r index offset number) v.loaded;
              own_id = backpaginate_room-id r (amount r index offset number) ∙ v.own_id;
            })))

  range-IsHeld :
      (id : Text) (r r' : Room) (index offset number : ℤ) (events : List Event)
      → IsHeld id r
      → (if ltb_ℤ offset (pos 0)
          then get_forward_event_range r index (neg64 offset) number
          else get_backward_event_range sorter unmarshal messages r index offset number)
        ≡ some (r', events)
      → IsHeld id r'
  unfolding get_forward_event_range get_backward_event_range
  range-IsHeld id r r' index offset number events v h = elim (Bool-cases (ltb_ℤ offset (pos 0))) [
    | inl e ↦
        let (x, _, same) =
          bind_some (forward_range r.event_list index (neg64 offset) number) _ (rw e at h) in
        subst (IsHeld id) (some_room _ same) v
    | inr e ↦
        let (x, _, same) =
          bind_some
            (backward_range
              (backpaginate_if_needed sorter unmarshal messages r index offset number).event_list
              index offset number)
            _ (rw e at h) in
        subst (IsHeld id) (some_room _ same)
          (backpaginate_if_needed-IsHeld id r index offset number v)
  ]

  page_from-IsHeld :
      (id : Text) (r r' : Room) (index offset number : ℤ) (page : EventPage)
      → IsHeld id r
      → page_from sorter unmarshal messages r index offset number ≡ some (r', page)
      → IsHeld id r'
  unfolding page_from
  page_from-IsHeld id r r' index offset number page v h =
      let ((r₁, events), range, rest) = bind_some _ _ h in
      let (ends, _, same) = bind_some (at_ends events r₁.event_list) _ rest in
      subst (IsHeld id) (some_room _ same) (range-IsHeld id r r₁ index offset number events v range)

  page_at-IsHeld :
      (id : Text) (r r' : Room) (offset number : ℤ) (found : Option ℕ) (page : EventPage)
      → IsHeld id r
      → page_at sorter unmarshal messages offset number (r, found) ≡ some (r', page)
      → IsHeld id r'
  unfolding page_at
  page_at-IsHeld id r r' offset number none page v h = subst (IsHeld id) (some_room _ h) v
  page_at-IsHeld id r r' offset number (some i) page v h =
      page_from-IsHeld id r r' (pos i) offset number page v h

  pub get_event_page-IsHeld :
      (id : Text) (r r' : Room) (anchor : Text) (offset number : ℤ) (page : EventPage)
      → IsHeld id r
      → get_event_page sorter unmarshal messages r anchor offset number ≡ some (r', page)
      → IsHeld id r'
  unfolding get_event_page
  get_event_page-IsHeld id r r' anchor offset number page v h =
      elim (Bool-cases (text_eq anchor [])) [
        | inl e ↦ page_from-IsHeld id r r' (pos 0) offset number page v (rw e at h)
        | inr e ↦
            page_at-IsHeld id r r' offset number (index_from 0 anchor r.event_list) page v
              (rw (e, find_event_index-false sorter unmarshal messages r anchor) at h)
      ]

  pub forward_paginate_room-IsHeld :
      (id : Text) (r : Room)
      → IsHeld id r
      → IsHeld id (forward_paginate_room sorter unmarshal messages r)
  unfolding forward_paginate_room
  forward_paginate_room-IsHeld id r v = record {
    loaded = forwardpaginate_room-IsLoaded sorter unmarshal messages r (pos 0) v.loaded;
    own_id = forwardpaginate_room-id r (pos 0) ∙ v.own_id;
  }
