-- ===== src/State/History.antt =====
-- The state of a room after a list of events, by what the last event of each kind says.
pub mod Membership
use mathlib.Core.Option
use matrix_static.Prelude.{
  ℕ, zero, suc, ◌+◌, ◌-◌, ◌*◌, ◌/◌, ◌%◌, ◌^◌, ◌≤◌, ◌<◌, ◌≡◌, refl, sym, ap, ap₂, ◌∙◌, subst, ◌≢◌,
  ◌↔◌, ◌⊎◌, inl, inr, Bool, true, false, not, ◌&&◌, ◌||◌, Option, none, some, List, [], ◌∷◌, ◌++◌,
  map, reverse, arith, ltb, leb, ◌==◌, if◌then◌else◌, ==_iff, Bool-cases, Option-cases, if_cases,
  ◌>>=◌, length, get_elem?, take, drop, last?, keep, All, length-append, length-take, length-drop,
  length-keep-le, take-append-drop, drop-drop, take-take_add, drop-append, keep-append, All-append,
  ℤ, pos, negsuc, pos_part, neg_part, sub_ℕ, ◌+ℤ◌, ◌-ℤ◌, ◌*ℤ◌, ◌≤ℤ◌, ◌<ℤ◌, ltb_ℤ, eqb_ℤ, eqb_ℤ_iff,
  IsInt64, wrap64, wrap64_of_IsInt64, wrap64-IsInt64, add64, sub64, mul64, neg64, Text, codes,
  text_eq, text_lt, text_eq_refl, text_eq_iff, text_lt_irrefl, text_lt_trans, text_lt_antisymm,
}
use matrix_static.Prelude.Maps.{
  Map, lookup, insert, delete, keys, lookup-insert, lookup-insert_self,
}
use matrix_static.Gomatrix.{Event, Content, string_field}
use matrix_static.Member.{MxcUrl}
use matrix_static.State.{PowerLevels, RoomState}
use matrix_static.State.Update.{
  EventType, room_aliases, room_canonical_alias, room_create, room_join_rules, room_member,
  room_power_levels, room_name, room_topic, room_avatar, unknown, event_type, get_or, aliases_of,
  member_after, apply_state_event, update_on_event,
}

-- What the last of the events that say anything says.
unfoldable pub last_set {ℓ} : {A : Type ℓ} → (Event → Option A) → List Event → Option A
last_set says [] = none
last_set says (ev ∷ events) = elim (last_set says events) [ some a ↦ some a | none ↦ says ev ]

-- What an event says of a part of the state that is not about a single member.
unfoldable pub says {ℓ} : {A : Type ℓ} → (EventType → Content → Option A) → Event → Option A
unfolding event_type
says content_says ev = elim ev.state_key [
  | none ↦ none
  | some key ↦ content_says (event_type ev.type) ev.content
]

abbrev pub says_name : EventType → Content → Option Text
says_name room_name content = string_field content (codes "name")
says_name _ content = none

abbrev pub says_topic : EventType → Content → Option Text
says_topic room_topic content = string_field content (codes "topic")
says_topic _ content = none

abbrev pub says_canonical_alias : EventType → Content → Option Text
says_canonical_alias room_canonical_alias content = string_field content (codes "alias")
says_canonical_alias _ content = none

abbrev pub says_creator : EventType → Content → Option Text
says_creator room_create content = string_field content (codes "creator")
says_creator _ content = none

abbrev pub says_avatar : EventType → Content → Option Text
says_avatar room_avatar content = string_field content (codes "url")
says_avatar _ content = none

-- What a page shows of a room beside its members and aliases.
pub record Summary : Type 0 where
  pub name : Text
  pub topic : Text
  pub canonical_alias : Text
  pub creator : Text
  pub avatar : Text
  pub power_levels : PowerLevels

abbrev pub summary : RoomState → Summary
summary rs = record {
  name = rs.name;
  topic = rs.topic;
  canonical_alias = rs.canonical_alias;
  creator = rs.creator;
  avatar = rs.avatar_url.url;
  power_levels = rs.power_levels;
}

pub get_or-last_set {ℓ} :
    {A : Type ℓ} (say : Event → Option A) (ev : Event) (events : List Event) (a : A)
    → get_or (last_set say events) (get_or (say ev) a) ≡ get_or (last_set say (ev ∷ events)) a
unfolding last_set get_or
get_or-last_set say ev events a = elim (Option-cases (last_set say events)) [
  | inl e ↦ rw e refl
  | inr (b, e) ↦ rw e refl
]

says-some {ℓ} :
    {A : Type ℓ} (content_says : EventType → Content → Option A) (ev : Event) {k : Text}
    → ev.state_key ≡ some k
    → says content_says ev ≡ content_says (event_type ev.type) ev.content
unfolding says
says-some content_says ev h = rw (h, says) refl

says-none {ℓ} :
    {A : Type ℓ} (content_says : EventType → Content → Option A) (ev : Event)
    → ev.state_key ≡ none
    → says content_says ev ≡ none
unfolding says
says-none content_says ev h = rw (h, says) refl

avatar_of :
    (o : Option Text) (base : Text) (old : MxcUrl)
    → (get_or (Option.map (λ url. record { url = url; homeserver_url = base }) o) old).url
      ≡ get_or o old.url
unfolding get_or
avatar_of none base old = refl
avatar_of (some url) base old = refl

module _ (unmarshal : Content → Option PowerLevels) where
  abbrev pub says_power_levels : EventType → Content → Option PowerLevels
  says_power_levels room_power_levels content = unmarshal content
  says_power_levels _ content = none

  -- The specification: each part is what the last event about it says.
  unfoldable pub summary_after : List Event → Summary → Summary
  unfolding last_set says get_or
  summary_after events s = record {
    name = get_or (last_set (says says_name) events) s.name;
    topic = get_or (last_set (says says_topic) events) s.topic;
    canonical_alias = get_or (last_set (says says_canonical_alias) events) s.canonical_alias;
    creator = get_or (last_set (says says_creator) events) s.creator;
    avatar = get_or (last_set (says says_avatar) events) s.avatar;
    power_levels = get_or (last_set (says says_power_levels) events) s.power_levels;
  }

  -- The code: event by event.
  unfoldable pub apply_events : Bool → List Event → RoomState → RoomState
  unfolding update_on_event
  apply_events use_prev [] rs = rs
  apply_events use_prev (ev ∷ events) rs =
      apply_events use_prev events (update_on_event unmarshal ev use_prev rs)

  pub update_on_event-some :
      (ev : Event) (use_prev : Bool) (rs : RoomState) {k : Text}
      → ev.state_key ≡ some k
      → update_on_event unmarshal ev use_prev rs
        ≡ apply_state_event unmarshal (event_type ev.type) k ev use_prev rs
  unfolding update_on_event
  update_on_event-some ev use_prev rs h =
      ap
        (λ (key : Option Text). elim key as (λ _. RoomState) [
          | none ↦ rs
          | some k ↦ apply_state_event unmarshal (event_type ev.type) k ev use_prev rs
        ])
        h

  pub update_on_event-none :
      (ev : Event) (use_prev : Bool) (rs : RoomState)
      → ev.state_key ≡ none
      → update_on_event unmarshal ev use_prev rs ≡ rs
  unfolding update_on_event
  update_on_event-none ev use_prev rs h = rw (h, update_on_event) refl

  -- A part that each event sets to what it says, if it says something.
  IsLastWriterWins : {A : Type 0} → (RoomState → A) → (EventType → Content → Option A) → Type 0
  IsLastWriterWins part content_says =
      (t : EventType) (k : Text) (ev : Event) (use_prev : Bool) (rs : RoomState)
      → part (apply_state_event unmarshal t k ev use_prev rs)
        ≡ get_or (content_says t ev.content) (part rs)

  part-apply_events :
      {A : Type 0} (part : RoomState → A) (content_says : EventType → Content → Option A)
      → IsLastWriterWins part content_says
      → (use_prev : Bool) (events : List Event) (rs : RoomState)
      → part (apply_events use_prev events rs)
        ≡ get_or (last_set (says content_says) events) (part rs)
  unfolding IsLastWriterWins apply_events get_or
  part-apply_events part content_says wins use_prev [] rs = unfold last_set in refl
  part-apply_events part content_says wins use_prev (ev ∷ events) rs =
      part-apply_events part content_says wins use_prev events
        (update_on_event unmarshal ev use_prev rs)
      ∙ ap (get_or (last_set (says content_says) events)) one
      ∙ get_or-last_set (says content_says) ev events (part rs)
    where
      one :
          part (update_on_event unmarshal ev use_prev rs) ≡ get_or (says content_says ev) (part rs)
      one = elim (Option-cases ev.state_key) [
        | inl e ↦ simp (update_on_event-none ev use_prev rs e, says-none content_says ev e) refl
        | inr (k, e) ↦
            simp (update_on_event-some ev use_prev rs e, says-some content_says ev e)
              (wins (event_type ev.type) k ev use_prev rs)
      ]

  -- The aliases of a server are no part of the summary.
  pub aliases_kept :
      {A : Type 0} (part : RoomState → A)
      → ((rs : RoomState) (m : Map (List Text)) → part (record rs { alias_map = m }) ≡ part rs)
      → (k : Text) (ev : Event) (use_prev : Bool) (rs : RoomState)
      → part (apply_state_event unmarshal room_aliases k ev use_prev rs) ≡ part rs
  unfolding apply_state_event
  aliases_kept part kept k ev use_prev rs =
      elim (Option-cases (aliases_of (lookup (codes "aliases") ev.content))) [
        | inl e ↦ rw (e, apply_state_event) refl
        | inr (processed, e) ↦ rw (e, apply_state_event) (kept rs _)
      ]

  name_wins : IsLastWriterWins (λ (rs : RoomState). rs.name) says_name
  unfolding IsLastWriterWins apply_state_event get_or
  name_wins room_aliases k ev use_prev rs =
      aliases_kept (λ (x : RoomState). x.name) (λ x m. refl) k ev use_prev rs
  name_wins _ k ev use_prev rs = refl

  topic_wins : IsLastWriterWins (λ (rs : RoomState). rs.topic) says_topic
  unfolding IsLastWriterWins apply_state_event get_or
  topic_wins room_aliases k ev use_prev rs =
      aliases_kept (λ (x : RoomState). x.topic) (λ x m. refl) k ev use_prev rs
  topic_wins _ k ev use_prev rs = refl

  canonical_alias_wins :
      IsLastWriterWins (λ (rs : RoomState). rs.canonical_alias) says_canonical_alias
  unfolding IsLastWriterWins apply_state_event get_or
  canonical_alias_wins room_aliases k ev use_prev rs =
      aliases_kept (λ (x : RoomState). x.canonical_alias) (λ x m. refl) k ev use_prev rs
  canonical_alias_wins _ k ev use_prev rs = refl

  creator_wins : IsLastWriterWins (λ (rs : RoomState). rs.creator) says_creator
  unfolding IsLastWriterWins apply_state_event get_or
  creator_wins room_aliases k ev use_prev rs =
      aliases_kept (λ (x : RoomState). x.creator) (λ x m. refl) k ev use_prev rs
  creator_wins _ k ev use_prev rs = refl

  avatar_wins : IsLastWriterWins (λ (rs : RoomState). rs.avatar_url.url) says_avatar
  unfolding IsLastWriterWins apply_state_event get_or
  avatar_wins room_aliases k ev use_prev rs =
      aliases_kept (λ (x : RoomState). x.avatar_url.url) (λ x m. refl) k ev use_prev rs
  avatar_wins room_avatar k ev use_prev rs =
      avatar_of (string_field ev.content (codes "url")) rs.client.media_base_url rs.avatar_url
  avatar_wins _ k ev use_prev rs = refl

  power_levels_wins : IsLastWriterWins (λ (rs : RoomState). rs.power_levels) says_power_levels
  unfolding IsLastWriterWins apply_state_event get_or
  power_levels_wins room_aliases k ev use_prev rs =
      aliases_kept (λ (x : RoomState). x.power_levels) (λ x m. refl) k ev use_prev rs
  power_levels_wins _ k ev use_prev rs = refl

  -- The summary of the state after a list of events, applied one by one, is what the specification
  -- makes of the summary before: name, topic, canonical alias, creator, avatar and power levels are
  -- those of the last event that sets them, and those from before where none does. It does not
  -- matter whether the previous contents are read.
  pub summary-apply_events :
      (use_prev : Bool) (events : List Event) (rs : RoomState)
      → summary (apply_events use_prev events rs) ≡ summary_after events (summary rs)
  unfolding summary_after
  summary-apply_events use_prev events rs =
      rw
        (
          part-apply_events _ _ name_wins use_prev events rs,
          part-apply_events _ _ topic_wins use_prev events rs,
          part-apply_events _ _ canonical_alias_wins use_prev events rs,
          part-apply_events _ _ creator_wins use_prev events rs,
          part-apply_events _ _ avatar_wins use_prev events rs,
          part-apply_events _ _ power_levels_wins use_prev events rs,
        )
        refl
