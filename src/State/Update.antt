-- ===== src/State/Update.antt =====
-- `RoomState.UpdateOnEvent`.
pub mod Members
use matrix_static.Prelude.{
  ℕ, zero, suc, ◌+◌, ◌-◌, ◌*◌, ◌/◌, ◌%◌, ◌^◌, ◌≤◌, ◌<◌, ◌≡◌, refl, sym, ap, ap₂, ◌∙◌, subst, ◌≢◌,
  ◌↔◌, ◌⊎◌, inl, inr, Bool, true, false, not, ◌&&◌, ◌||◌, Option, none, some, List, [], ◌∷◌, ◌++◌,
  map, reverse, arith, ltb, leb, ◌==◌, if◌then◌else◌, ==_iff, Bool-cases, Option-cases, ◌>>=◌,
  length, get_elem?, take, drop, last?, keep, All, length-append, length-take, length-drop,
  length-keep-le, take-append-drop, drop-drop, take-take_add, drop-append, keep-append, All-append,
  ℤ, pos, negsuc, pos_part, neg_part, sub_ℕ, ◌+ℤ◌, ◌-ℤ◌, ◌*ℤ◌, ◌≤ℤ◌, ◌<ℤ◌, ltb_ℤ, eqb_ℤ, eqb_ℤ_iff,
  IsInt64, wrap64, wrap64_of_IsInt64, wrap64-IsInt64, add64, sub64, mul64, neg64, Text, codes,
  text_eq, text_lt, text_eq_refl, text_eq_iff, text_lt_irrefl, text_lt_trans, text_lt_antisymm,
}
use mathlib.Core.Option
use matrix_static.Prelude.Maps.{
  Map, lookup, insert, delete, keys, lookup-insert, lookup-insert_self,
}
use matrix_static.Gomatrix.{Json, arr, str, Items, nil, cons, Event, Content, string_field}
use matrix_static.Member.{MxcUrl, PowerLevel, MemberInfo, new_member_info}
use matrix_static.State.{PowerLevels, RoomState}

-- The cases of `switch event.Type`.
pub data EventType : Type 0 where
  room_aliases room_canonical_alias room_create room_join_rules room_member : EventType
  room_power_levels room_name room_topic room_avatar unknown : EventType

unfoldable pub event_type : Text → EventType
event_type t =
    if text_eq t (codes "m.room.aliases")
    then room_aliases
    else if text_eq t (codes "m.room.canonical_alias")
    then room_canonical_alias
    else if text_eq t (codes "m.room.create")
    then room_create
    else if text_eq t (codes "m.room.join_rules")
    then room_join_rules
    else if text_eq t (codes "m.room.member")
    then room_member
    else if text_eq t (codes "m.room.power_levels")
    then room_power_levels
    else if text_eq t (codes "m.room.name")
    then room_name
    else if text_eq t (codes "m.room.topic")
    then room_topic
    else if text_eq t (codes "m.room.avatar")
    then room_avatar
    else unknown

-- The strings of a JSON array; other elements are passed over.
unfoldable pub process_aliases : Items → List Text
process_aliases nil = []
process_aliases (cons (str s) rest) = s ∷ process_aliases rest
process_aliases (cons j rest) = process_aliases rest

-- The aliases to store for the event: none if there is no array, or an empty one.
unfoldable pub aliases_of : Option Json → Option (List Text)
unfolding process_aliases
aliases_of (some (arr nil)) = none
aliases_of (some (arr (cons j rest))) = some (process_aliases (cons j rest))
aliases_of _ = none

unfoldable pub get_or {ℓ} : {A : Type ℓ} → Option A → A → A
get_or none d = d
get_or (some a) d = a

-- The three fields that a member event's content may set.
unfoldable pub apply_member_content : Text → Content → MemberInfo → MemberInfo
unfolding string_field get_or
apply_member_content base content info = record info {
  membership = get_or (string_field content (codes "membership")) info.membership;
  avatar_url =
      get_or
        (Option.map (λ url. record { url = url; homeserver_url = base })
          (string_field content (codes "avatar_url")))
        info.avatar_url;
  display_name = get_or (string_field content (codes "displayname")) info.display_name;
}

-- The member that the event is about, made if it is new, with the event's contents applied.
unfoldable pub member_after : RoomState → Text → Event → Bool → MemberInfo
unfolding apply_member_content get_or lookup new_member_info
member_after rs state_key event use_prev_content =
    let base = rs.client.media_base_url in
    let current = get_or (lookup state_key rs.member_map) (new_member_info state_key) in
    let seen =
      if use_prev_content then apply_member_content base event.prev_content current else current in
    apply_member_content base event.content seen

-- `unmarshal` is json.Marshal and json.Unmarshal into a `PowerLevels`; `none` is an error of either.
module _ (unmarshal : Content → Option PowerLevels) where
  unfoldable pub apply_state_event : EventType → Text → Event → Bool → RoomState → RoomState
  unfolding aliases_of string_field member_after get_or insert lookup
  apply_state_event room_aliases state_key event use_prev rs =
      elim (aliases_of (lookup (codes "aliases") event.content)) [
        | none ↦ rs
        | some processed ↦ record rs { alias_map = insert state_key processed rs.alias_map }
      ]
  apply_state_event room_canonical_alias state_key event use_prev rs = record rs {
    canonical_alias = get_or (string_field event.content (codes "alias")) rs.canonical_alias;
  }
  apply_state_event room_create state_key event use_prev rs = record rs {
    creator = get_or (string_field event.content (codes "creator")) rs.creator;
  }
  apply_state_event room_join_rules state_key event use_prev rs = rs
  apply_state_event room_member state_key event use_prev rs = record rs {
    member_map = insert state_key (member_after rs state_key event use_prev) rs.member_map;
  }
  apply_state_event room_power_levels state_key event use_prev rs = record rs {
    power_levels = get_or (unmarshal event.content) rs.power_levels;
  }
  apply_state_event room_name state_key event use_prev rs = record rs {
    name = get_or (string_field event.content (codes "name")) rs.name;
  }
  apply_state_event room_topic state_key event use_prev rs = record rs {
    topic = get_or (string_field event.content (codes "topic")) rs.topic;
  }
  apply_state_event room_avatar state_key event use_prev rs = record rs {
    avatar_url =
        get_or
          (Option.map (λ url. record { url = url; homeserver_url = rs.client.media_base_url })
            (string_field event.content (codes "url")))
          rs.avatar_url;
  }
  apply_state_event unknown state_key event use_prev rs = rs

  unfoldable pub update_on_event : Event → Bool → RoomState → RoomState
  unfolding apply_state_event event_type
  update_on_event event use_prev rs = elim event.state_key [
    | none ↦ rs
    | some state_key ↦ apply_state_event (event_type event.type) state_key event use_prev rs
  ]
