-- ===== src/State/History/Membership.antt =====
-- The membership of a user after a list of events.
use mathlib.Core.Option
use matrix_static.Prelude.{
  ◌≡◌, refl, sym, ap, ◌∙◌, inl, inr, Bool, true, false, ◌&&◌, ◌||◌, Option, none, some, List, [],
  ◌∷◌, if◌then◌else◌, Bool-cases, Option-cases, Text, codes, text_eq, text_eq_iff,
}
use matrix_static.Prelude.Maps.{lookup, lookup-insert}
use matrix_static.Gomatrix.{Event, Content, string_field}
use matrix_static.Member.{MemberInfo, new_member_info}
use matrix_static.State.{PowerLevels, RoomState}
use matrix_static.State.Update.{
  EventType, room_aliases, room_member, event_type, get_or, member_after, apply_state_event,
  update_on_event,
}
use matrix_static.State.History.{
  last_set, apply_events, update_on_event-some, update_on_event-none, aliases_kept, get_or-last_set,
}

-- The membership that is known of a user, if there is one.
abbrev pub membership : Text → RoomState → Option Text
membership k rs = Option.map (λ (info : MemberInfo). info.membership) (lookup k rs.member_map)

-- What an event about a member says of the membership: its content, or else, where that is read, the
-- content before.
unfoldable pub content_membership : Bool → Event → Option Text
unfolding string_field
content_membership use_prev ev = elim (string_field ev.content (codes "membership")) [
  | some m ↦ some m
  | none ↦ if use_prev then string_field ev.prev_content (codes "membership") else none
]

abbrev pub is_member : EventType → Bool
is_member room_member = true
is_member _ = false

-- Whether an event is about the membership of the user `k`.
unfoldable pub is_about : Text → Event → Bool
unfolding event_type
is_about k ev = elim ev.state_key [
  | none ↦ false
  | some j ↦ is_member (event_type ev.type) && text_eq j k
]

-- What an event says of the membership of the user `k`.
unfoldable pub says_membership : Bool → Text → Event → Option Text
unfolding is_about content_membership
says_membership use_prev k ev = if is_about k ev then content_membership use_prev ev else none

-- Whether one of a list is.
unfoldable pub some_about : Text → List Event → Bool
unfolding is_about
some_about k [] = false
some_about k (ev ∷ events) = is_about k ev || some_about k events

not_about-says :
    (use_prev : Bool) (k : Text) (ev : Event)
    → is_about k ev ≡ false
    → says_membership use_prev k ev ≡ none
unfolding says_membership
not_about-says use_prev k ev h = rw h refl

is_about-some :
    (k : Text) (ev : Event) {j : Text}
    → ev.state_key ≡ some j
    → is_about k ev ≡ (is_member (event_type ev.type) && text_eq j k)
unfolding is_about
is_about-some k ev h =
    ap
      (λ (key : Option Text). elim key as (λ _. Bool) [
        | none ↦ false
        | some j ↦ is_member (event_type ev.type) && text_eq j k
      ])
      h

is_about-none : (k : Text) (ev : Event) → ev.state_key ≡ none → is_about k ev ≡ false
unfolding is_about
is_about-none k ev h = rw (h, is_about) refl

none_about-last_set :
    (use_prev : Bool) (k : Text) (events : List Event)
    → some_about k events ≡ false
    → last_set (says_membership use_prev k) events ≡ none
unfolding some_about last_set
none_about-last_set use_prev k [] h = refl
none_about-last_set use_prev k (ev ∷ events) h = elim (Bool-cases (is_about k ev)) [
  | inl e ↦ absurd (cc (rw e at h))
  | inr e ↦
      rw (none_about-last_set use_prev k events (rw e at h), not_about-says use_prev k ev e) refl
]

-- The membership after an event about the member.
member_after-membership_eq :
    (rs : RoomState) (k : Text) (ev : Event) (use_prev : Bool)
    → (member_after rs k ev use_prev).membership
      ≡ get_or
          (content_membership use_prev ev)
          (get_or (lookup k rs.member_map) (new_member_info k)).membership
unfolding member_after content_membership
member_after-membership_eq rs k ev use_prev =
    elim (Option-cases (string_field ev.content (codes "membership"))) [
      | inr (m, e) ↦ rw (e, content_membership) refl
      | inl e ↦ elim (Bool-cases use_prev) [
        | inl b ↦ rw (e, b, content_membership) refl
        | inr b ↦ rw (e, b, content_membership) refl
      ]
    ]

-- The specification: a user of whom nothing is said keeps the membership, and a user of whom
-- something is said has the last one that an event gives, or else the one from before, or has left.
unfoldable pub membership_after : Bool → Text → List Event → Option Text → Option Text
unfolding some_about last_set says_membership get_or
membership_after use_prev k events before =
    if some_about k events
    then some
        (get_or (last_set (says_membership use_prev k) events) (get_or before (codes "leave")))
    else before

abbrev told : Bool → Text → Event → Option Text → Option Text
told use_prev k ev before =
    if is_about k ev
    then some (get_or (content_membership use_prev ev) (get_or before (codes "leave")))
    else before

membership_after-cons :
    (use_prev : Bool) (k : Text) (ev : Event) (events : List Event) (before : Option Text)
    → membership_after use_prev k events (told use_prev k ev before)
      ≡ membership_after use_prev k (ev ∷ events) before
unfolding membership_after some_about get_or
membership_after-cons use_prev k ev events before =
    let old = get_or before (codes "leave") in
    let last = get_or-last_set (says_membership use_prev k) ev events old in
    elim (Bool-cases (is_about k ev)) [
      | inr e ↦ rw (e, sym last, not_about-says use_prev k ev e) refl
      | inl e ↦
          let said : says_membership use_prev k ev ≡ content_membership use_prev ev =
            unfold says_membership in rw e refl in
          elim (Bool-cases (some_about k events)) [
            | inl later ↦ rw (e, later, sym last, said) refl
            | inr none_later ↦
                rw (e, none_later, sym last, said, none_about-last_set use_prev k events none_later)
                  refl
          ]
    ]

known_or_left :
    (k : Text) (rs : RoomState)
    → (get_or (lookup k rs.member_map) (new_member_info k)).membership
      ≡ get_or (membership k rs) (codes "leave")
unfolding get_or new_member_info
known_or_left k rs = elim (Option-cases (lookup k rs.member_map)) [
  | inl e ↦ rw e refl
  | inr (info, e) ↦ rw e refl
]

module _ (unmarshal : Content → Option PowerLevels) where
  membership-apply_state_event :
      (t : EventType) (j k : Text) (ev : Event) (use_prev : Bool) (rs : RoomState)
      → membership k (apply_state_event unmarshal t j ev use_prev rs) ≡ (
          if is_member t && text_eq j k
          then some
              (get_or (content_membership use_prev ev) (get_or (membership k rs) (codes "leave")))
          else membership k rs)
  unfolding apply_state_event
  membership-apply_state_event room_aliases j k ev use_prev rs =
      aliases_kept unmarshal (membership k) (λ x m. refl) j ev use_prev rs
  membership-apply_state_event room_member j k ev use_prev rs = elim (Bool-cases (text_eq j k)) [
    | inl e ↦
        rw (lookup-insert j k (member_after rs j ev use_prev) rs.member_map, e)
          (ap some (
            member_after-membership_eq rs j ev use_prev
            ∙ ap (get_or (content_membership use_prev ev))
                (rw ((text_eq_iff j k).0 e) (known_or_left k rs))))
    | inr e ↦ rw (lookup-insert j k (member_after rs j ev use_prev) rs.member_map, e) refl
  ]
  membership-apply_state_event _ j k ev use_prev rs = refl

  membership-update_on_event :
      (k : Text) (ev : Event) (use_prev : Bool) (rs : RoomState)
      → membership k (update_on_event unmarshal ev use_prev rs) ≡ (
          if is_about k ev
          then some
              (get_or (content_membership use_prev ev) (get_or (membership k rs) (codes "leave")))
          else membership k rs)
  membership-update_on_event k ev use_prev rs = elim (Option-cases ev.state_key) [
    | inl e ↦ simp (update_on_event-none unmarshal ev use_prev rs e, is_about-none k ev e) refl
    | inr (j, e) ↦
        simp (update_on_event-some unmarshal ev use_prev rs e, is_about-some k ev e)
          (membership-apply_state_event (event_type ev.type) j k ev use_prev rs)
  ]

  -- After a list of events, applied one by one, the membership of each user is what the
  -- specification makes of the one before. The events about other users do not count, and where the
  -- previous contents are read they count if the content itself says nothing.
  pub membership-apply_events :
      (use_prev : Bool) (events : List Event) (k : Text) (rs : RoomState)
      → membership k (apply_events unmarshal use_prev events rs)
        ≡ membership_after use_prev k events (membership k rs)
  unfolding apply_events membership_after some_about
  membership-apply_events use_prev [] k rs = refl
  membership-apply_events use_prev (ev ∷ events) k rs =
      membership-apply_events use_prev events k (update_on_event unmarshal ev use_prev rs)
      ∙ ap (membership_after use_prev k events) (membership-update_on_event k ev use_prev rs)
      ∙ membership_after-cons use_prev k ev events (membership k rs)
