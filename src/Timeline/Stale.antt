-- ===== src/Timeline/Stale.antt =====
-- What forward pagination can not bring up to date: the state of events that the timeline hides.
use matrix_static.Prelude.{
  ◌≡◌, refl, ap, ◌∙◌, inl, inr, true, false, Option, none, some, List, [], ◌∷◌, arith, Bool-cases,
  Option-cases, keep, Text, codes, text_eq, text_eq_iff,
}
use matrix_static.Gomatrix.{Event, Content}
use matrix_static.Sort.{Sorter}
use matrix_static.State.{PowerLevels, RoomState}
use matrix_static.State.Recalculate.{recalculate_member_list_and_servers, sort_aliases}
use matrix_static.State.Update.{
  EventType, room_aliases, room_canonical_alias, room_create, event_type, apply_state_event,
  update_on_event,
}
use matrix_static.Timeline.{Room, should_hide, should_hide_event, concat_forward_pagination}
use matrix_static.Timeline.Concat.{shown, state_after, concat_forward_pagination-eq}

-- The events that a room state keeps but a timeline hides.
abbrev Hidden : EventType → Type 0
Hidden room_aliases = Unit
Hidden room_canonical_alias = Unit
Hidden room_create = Unit
Hidden _ = ⊥

type_of_aliases : (t : Text) → event_type t ≡ room_aliases → t ≡ codes "m.room.aliases"
unfolding event_type
type_of_aliases t h = (text_eq_iff t (codes "m.room.aliases")).0 (ground arith)

type_of_canonical_alias :
    (t : Text) → event_type t ≡ room_canonical_alias → t ≡ codes "m.room.canonical_alias"
unfolding event_type
type_of_canonical_alias t h = (text_eq_iff t (codes "m.room.canonical_alias")).0 (ground arith)

type_of_create : (t : Text) → event_type t ≡ room_create → t ≡ codes "m.room.create"
unfolding event_type
type_of_create t h = (text_eq_iff t (codes "m.room.create")).0 (ground arith)

hidden_aliases : (key : Option Text) → should_hide key (codes "m.room.aliases") ≡ true
unfolding should_hide text_eq
hidden_aliases none = refl
hidden_aliases (some k) = refl

hidden_canonical_alias :
    (key : Option Text) → should_hide key (codes "m.room.canonical_alias") ≡ true
unfolding should_hide text_eq
hidden_canonical_alias none = refl
hidden_canonical_alias (some k) = refl

hidden_create : (key : Option Text) → should_hide key (codes "m.room.create") ≡ true
unfolding should_hide text_eq
hidden_create none = refl
hidden_create (some k) = refl

-- An event of one of these types is hidden, with a state key or without.
hides :
    (ev : Event) {t : Text}
    → ev.type ≡ t
    → should_hide ev.state_key t ≡ true
    → should_hide_event ev ≡ true
unfolding should_hide_event
hides ev e h = rw e h

-- Two room states agree on the creator, the canonical alias and the aliases of each server.
pub record SameAliases (a b : RoomState) : Type 0 where
  pub creator : a.creator ≡ b.creator
  pub canonical_alias : a.canonical_alias ≡ b.canonical_alias
  pub alias_map : a.alias_map ≡ b.alias_map

module _ (unmarshal : Content → Option PowerLevels) where
  -- A shown event changes none of the three.
  apply-SameAliases :
      (t : EventType) (k : Text) (ev : Event) (rs : RoomState)
      → ¬ Hidden t
      → SameAliases (apply_state_event unmarshal t k ev false rs) rs
  unfolding apply_state_event
  apply-SameAliases room_aliases k ev rs h = absurd (h tt)
  apply-SameAliases room_canonical_alias k ev rs h = absurd (h tt)
  apply-SameAliases room_create k ev rs h = absurd (h tt)
  apply-SameAliases _ k ev rs h = record {
    creator = refl;
    canonical_alias = refl;
    alias_map = refl;
  }

  shown→not-Hidden :
      (t : EventType) (ev : Event)
      → event_type ev.type ≡ t
      → should_hide_event ev ≡ false
      → ¬ Hidden t
  shown→not-Hidden room_aliases ev e h _ =
      cc (hides ev (type_of_aliases ev.type e) (hidden_aliases ev.state_key))
  shown→not-Hidden room_canonical_alias ev e h _ =
      cc (hides ev (type_of_canonical_alias ev.type e) (hidden_canonical_alias ev.state_key))
  shown→not-Hidden room_create ev e h _ =
      cc (hides ev (type_of_create ev.type e) (hidden_create ev.state_key))
  shown→not-Hidden _ ev e h hidden = hidden

  update-SameAliases :
      (ev : Event) (rs : RoomState)
      → should_hide_event ev ≡ false
      → SameAliases (update_on_event unmarshal ev false rs) rs
  unfolding update_on_event
  update-SameAliases ev rs h = elim (Option-cases ev.state_key) [
    | inl e ↦
        rw (e, update_on_event)
          (record { creator = refl; canonical_alias = refl; alias_map = refl })
    | inr (k, e) ↦
        rw (e, update_on_event)
          (apply-SameAliases (event_type ev.type) k ev rs (shown→not-Hidden _ ev refl h))
  ]

  state_after-SameAliases :
      (events : List Event) (rs : RoomState)
      → SameAliases (state_after unmarshal (shown events) rs) rs
  unfolding state_after keep
  state_after-SameAliases [] rs = record {
    creator = refl;
    canonical_alias = refl;
    alias_map = refl;
  }
  state_after-SameAliases (ev ∷ events) rs = elim (Bool-cases (should_hide_event ev)) [
    | inl h ↦ rw h (state_after-SameAliases events rs)
    | inr h ↦
        let now = update-SameAliases ev rs h in
        let later = state_after-SameAliases events (update_on_event unmarshal ev false rs) in
        rw h (record {
          creator = later.creator ∙ now.creator;
          canonical_alias = later.canonical_alias ∙ now.canonical_alias;
          alias_map = later.alias_map ∙ now.alias_map;
        })
  ]

  -- Whatever the homeserver reports of new events, forward pagination leaves the creator, the
  -- canonical alias and, but for the order within a server, the aliases as they were: the events
  -- that would change them are hidden from the timeline and skipped with it.
  pub concat_forward_pagination-stale :
      (sorter : Sorter) (events : List Event) (token : Text) (r : Room)
      → ((concat_forward_pagination sorter unmarshal events token r).latest_room_state.creator
          ≡ r.latest_room_state.creator)
        × ((concat_forward_pagination sorter unmarshal events token
              r).latest_room_state.canonical_alias
            ≡ r.latest_room_state.canonical_alias)
        × ((concat_forward_pagination sorter unmarshal events token r).latest_room_state.alias_map
            ≡ sort_aliases sorter r.latest_room_state.alias_map)
  unfolding recalculate_member_list_and_servers
  concat_forward_pagination-stale sorter events token r =
      let e = concat_forward_pagination-eq sorter unmarshal events token r in
      let same = state_after-SameAliases events r.latest_room_state in
      (
        ap (λ (x : Room). x.latest_room_state.creator) e ∙ same.creator,
        ap (λ (x : Room). x.latest_room_state.canonical_alias) e ∙ same.canonical_alias,
        ap (λ (x : Room). x.latest_room_state.alias_map) e
            ∙ ap (sort_aliases sorter) same.alias_map,
      )
