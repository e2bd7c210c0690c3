-- ===== src/State/Invariant.antt =====
-- What holds of every room state: the two maps have no key twice, a member is held under its id,
-- and the member list points into the map of members.
use mathlib.Core.List.{Mem, Nodup-nil, not-mem-nil}
use matrix_static.Prelude.{
  ◌≡◌, sym, ◌∙◌, inl, inr, Bool, Option, some, [], ◌∷◌, Bool-cases, Option-cases, All, Text, codes,
  text_eq, text_eq_iff,
}
use matrix_static.Prelude.Maps.{Map, lookup, insert, keys}
use matrix_static.Prelude.Maps.Laws.{IsMap, insert-IsMap, mem-keys-insert_of_mem}
use matrix_static.Gomatrix.{Event, Content}
use matrix_static.Member.{MemberInfo}
use matrix_static.State.{PowerLevels, RoomState, Client, new_room_state}
use matrix_static.State.Update.{
  EventType, room_aliases, room_member, event_type, aliases_of, member_after, apply_state_event,
  update_on_event,
}

-- Every member is held under its id.
abbrev pub Named : Map MemberInfo → Type 0
Named = All (λ e. e.1.mxid ≡ e.0)

pub record IsValid (rs : RoomState) : Type 0 where
  pub members : IsMap rs.member_map
  pub named : Named rs.member_map
  pub aliases : IsMap rs.alias_map
  pub listed : (k : Text) → Mem k rs.member_list → Mem k (keys rs.member_map)

pub new_room_state-IsValid : (client : Client) → IsValid (new_room_state client)
unfolding new_room_state
new_room_state-IsValid client = record {
  members = Nodup-nil;
  named = tt;
  aliases = Nodup-nil;
  listed = λ k mem. absurd (not-mem-nil mem);
}

pub insert-Named :
    (k : Text) (info : MemberInfo) (m : Map MemberInfo)
    → info.mxid ≡ k
    → Named m
    → Named (insert k info m)
unfolding insert
insert-Named k info [] h n = (h, tt)
insert-Named k info ((i, w) ∷ m) h (p, n) = elim (Bool-cases (text_eq i k)) [
  | inl e ↦ rw e (h ∙ sym ((text_eq_iff i k).0 e), n)
  | inr e ↦ rw e (p, insert-Named k info m h n)
]

pub lookup-Named :
    (k : Text) (m : Map MemberInfo) {info : MemberInfo}
    → Named m
    → lookup k m ≡ some info
    → info.mxid ≡ k
unfolding lookup
lookup-Named k [] n h = absurd (cc)
lookup-Named k ((i, w) ∷ m) (p, n) h = elim (Bool-cases (text_eq i k)) [
  | inl e ↦ cc (p, (text_eq_iff i k).0 e, rw e at h)
  | inr e ↦ lookup-Named k m n (rw e at h)
]

-- The member that an event is about bears the event's state key.
member_after-mxid :
    (rs : RoomState) (k : Text) (event : Event) (use_prev : Bool)
    → Named rs.member_map
    → (member_after rs k event use_prev).mxid ≡ k
unfolding member_after
member_after-mxid rs k event use_prev n = elim (Option-cases (lookup k rs.member_map)) [
  | inl h ↦ elim (Bool-cases use_prev) [ inl e ↦ rw (e, h) | inr e ↦ rw (e, h) ]
  | inr (info, h) ↦ elim (Bool-cases use_prev) [
    | inl e ↦ rw (e, h) (lookup-Named k _ n h)
    | inr e ↦ rw (e, h) (lookup-Named k _ n h)
  ]
]

module _ (unmarshal : Content → Option PowerLevels) where
  apply_state_event-IsValid :
      (t : EventType) (k : Text) (event : Event) (use_prev : Bool) (rs : RoomState)
      → IsValid rs
      → IsValid (apply_state_event unmarshal t k event use_prev rs)
  unfolding apply_state_event
  apply_state_event-IsValid room_aliases k event use_prev rs v =
      elim (Option-cases (aliases_of (lookup (codes "aliases") event.content))) [
        | inl e ↦ rw (e, apply_state_event) v
        | inr (processed, e) ↦
            rw (e, apply_state_event)
              (record {
                members = v.members;
                named = v.named;
                aliases = insert-IsMap k processed rs.alias_map v.aliases;
                listed = v.listed;
              })
      ]
  apply_state_event-IsValid room_member k event use_prev rs v = record {
    members = insert-IsMap k _ rs.member_map v.members;
    named = insert-Named k _ rs.member_map (member_after-mxid rs k event use_prev v.named) v.named;
    aliases = v.aliases;
    listed = λ j mem. mem-keys-insert_of_mem j k _ rs.member_map (v.listed j mem);
  }
  apply_state_event-IsValid _ k event use_prev rs v = record {
    members = v.members;
    named = v.named;
    aliases = v.aliases;
    listed = v.listed;
  }

  -- Every event keeps the state valid: neither map has a key twice, every member is held under
  -- its id, and the member list points into the map of members.
  pub update_on_event-IsValid :
      (event : Event) (use_prev : Bool) (rs : RoomState)
      → IsValid rs
      → IsValid (update_on_event unmarshal event use_prev rs)
  unfolding update_on_event
  update_on_event-IsValid event use_prev rs v = elim (Option-cases event.state_key) [
    | inl e ↦ rw (e, update_on_event) v
    | inr (k, e) ↦
        rw (e, update_on_event)
          (apply_state_event-IsValid (event_type event.type) k event use_prev rs v)
  ]
