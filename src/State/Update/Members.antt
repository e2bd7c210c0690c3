-- ===== src/State/Update/Members.antt =====
-- What a member event does to the members of a room.
use matrix_static.Prelude.{
  ◌≡◌, inl, inr, Bool, false, Option, none, some, if◌then◌else◌, Bool-cases, Text, codes, text_eq,
}
use matrix_static.Prelude.Maps.{lookup, lookup-insert}
use matrix_static.Gomatrix.{Event, Content, string_field}
use matrix_static.Member.{MemberInfo}
use matrix_static.State.{PowerLevels, RoomState}
use matrix_static.State.Update.{room_member, event_type, get_or, member_after, update_on_event}

module _ (unmarshal : Content → Option PowerLevels) where
  -- A member event writes the entry of its state key and no other, and changes nothing else of the
  -- state but the members.
  pub update_on_event-member :
      (event : Event) (use_prev : Bool) (rs : RoomState) (k j : Text)
      → event.state_key ≡ some k
      → event_type event.type ≡ room_member
      → lookup j (update_on_event unmarshal event use_prev rs).member_map
        ≡ (if text_eq k j then some (member_after rs k event use_prev) else lookup j rs.member_map)
  unfolding update_on_event
  update_on_event-member event use_prev rs k j h t =
      rw (h, t, update_on_event) (lookup-insert k j _ rs.member_map)

-- Content that sets a field decides it, whatever was known before: with `use_prev` the fields of
-- `PrevContent` are overwritten by those of `Content`.
pub member_after-membership :
    (rs : RoomState) (k : Text) (event : Event) (use_prev : Bool) {m : Text}
    → string_field event.content (codes "membership") ≡ some m
    → (member_after rs k event use_prev).membership ≡ m
unfolding member_after get_or
member_after-membership rs k event use_prev h = rw h

-- A user of whom nothing was known, and whose event sets no membership, has left.
pub member_after-unknown :
    (rs : RoomState) (k : Text) (event : Event)
    → lookup k rs.member_map ≡ none
    → string_field event.content (codes "membership") ≡ none
    → ((member_after rs k event false).mxid ≡ k)
      × ((member_after rs k event false).membership ≡ codes "leave")
unfolding member_after
member_after-unknown rs k event h e = (rw h, rw (h, e))

-- The fields that an event does not set keep their values.
pub member_after-kept :
    (rs : RoomState) (k : Text) (event : Event) (use_prev : Bool) {info : MemberInfo}
    → lookup k rs.member_map ≡ some info
    → ((member_after rs k event use_prev).mxid ≡ info.mxid)
      × ((member_after rs k event use_prev).power_level ≡ info.power_level)
unfolding member_after
member_after-kept rs k event use_prev h = elim (Bool-cases use_prev) [
  | inl e ↦ (rw (e, h), rw (e, h))
  | inr e ↦ (rw (e, h), rw (e, h))
]
