-- ===== src/Timeline/History.antt =====
-- What the code makes of the events of a response: the state that a page shows.
use mathlib.Core.List.{Mem}
use matrix_static.Prelude.{
  ℕ, ◌≡◌, refl, sym, ap, ◌∙◌, ◌↔◌, true, false, Option, none, some, List, [], ◌∷◌, Text, codes,
}
use matrix_static.Gomatrix.{Event, Content}
use matrix_static.Sort.{Sorter}
use matrix_static.State.{PowerLevels, RoomState, Client, new_room_state, members}
use matrix_static.State.Invariant.{IsValid, new_room_state-IsValid}
use matrix_static.State.Recalculate.{recalculate_member_list_and_servers}
use matrix_static.State.Recalculate.Joined.{mem-members-recalculate}
use matrix_static.State.Update.{update_on_event}
use matrix_static.State.History.{summary, summary_after, apply_events, summary-apply_events}
use matrix_static.State.History.Membership.{membership, membership_after, membership-apply_events}
use matrix_static.Timeline.{
  Room, RespInitialSync, initial_state, synced_room, concat_forward_pagination,
}
use matrix_static.Timeline.Concat.{shown, state_after, concat_forward_pagination-eq}
use matrix_static.Timeline.Invariant.{initial_state-IsValid, state_after-IsValid}

module _ (sorter : Sorter) (unmarshal : Content → Option PowerLevels) where
  initial_state-eq :
      (events : List Event) (rs : RoomState)
      → initial_state sorter unmarshal events rs ≡ apply_events unmarshal true events rs
  unfolding initial_state apply_events
  initial_state-eq [] rs = refl
  initial_state-eq (ev ∷ events) rs = initial_state-eq events (update_on_event unmarshal ev true rs)

  state_after-eq :
      (events : List Event) (rs : RoomState)
      → state_after unmarshal events rs ≡ apply_events unmarshal false events rs
  unfolding state_after apply_events
  state_after-eq [] rs = refl
  state_after-eq (ev ∷ events) rs = state_after-eq events (update_on_event unmarshal ev false rs)

  summary-recalculate :
      (rs : RoomState) → summary (recalculate_member_list_and_servers sorter rs) ≡ summary rs
  unfolding recalculate_member_list_and_servers
  summary-recalculate rs = refl

  -- A room that has been synced shows what the last events of the response's state say: its name,
  -- topic, canonical alias, creator, avatar and power levels are those of the last event that sets
  -- them, and empty where none does; and the member list names exactly the users whose membership
  -- by these events is "join".
  pub synced_room-refines :
      (client : Client) (id : Text) (now : ℕ) (resp : RespInitialSync) (user : Text)
      → (summary (synced_room sorter unmarshal client id now resp).latest_room_state
          ≡ summary_after unmarshal resp.state (summary (new_room_state client)))
        × (Mem user (members (synced_room sorter unmarshal client id now resp).latest_room_state)
            ↔ (membership_after true user resp.state none ≡ some (codes "join")))
  unfolding synced_room
  synced_room-refines client id now resp user =
      let start = new_room_state client in
      let rs = initial_state sorter unmarshal resp.state start in
      let valid =
        initial_state-IsValid sorter unmarshal resp.state start (new_room_state-IsValid client) in
      let known : membership user rs ≡ membership_after true user resp.state none =
        ap (membership user) (initial_state-eq resp.state start)
        ∙ membership-apply_events unmarshal true resp.state user start
        ∙ unfold new_room_state in refl in
      let (there, back) = mem-members-recalculate sorter user rs valid in
      (
        summary-recalculate rs
            ∙ ap summary (initial_state-eq resp.state start)
            ∙ summary-apply_events unmarshal true resp.state start,
        (λ mem. sym known ∙ there mem, λ joined. back (known ∙ joined)),
      )

  -- After a forward pagination of a room with a valid state, the room's name, topic, canonical
  -- alias, creator, avatar and power levels are those of the last of the shown events of the
  -- response that sets them, and the ones from before where none does; and the member list names
  -- exactly the users whose membership, by these events on top of the one from before, is "join".
  pub concat_forward_pagination-refines :
      (events : List Event) (token : Text) (r : Room) (user : Text)
      → IsValid r.latest_room_state
      → (summary (concat_forward_pagination sorter unmarshal events token r).latest_room_state
          ≡ summary_after unmarshal (shown events) (summary r.latest_room_state))
        × (Mem user (
              members (concat_forward_pagination sorter unmarshal events token r).latest_room_state)
            ↔ (membership_after false user (shown events) (membership user r.latest_room_state)
                ≡ some (codes "join")))
  concat_forward_pagination-refines events token r user v =
      let start = r.latest_room_state in
      let rs = state_after unmarshal (shown events) start in
      let valid = state_after-IsValid sorter unmarshal (shown events) start v in
      let known : membership user rs
          ≡ membership_after false user (shown events) (membership user start) =
        ap (membership user) (state_after-eq (shown events) start)
        ∙ membership-apply_events unmarshal false (shown events) user start in
      let (there, back) = mem-members-recalculate sorter user rs valid in
      rw (concat_forward_pagination-eq sorter unmarshal events token r) (
        summary-recalculate rs
            ∙ ap summary (state_after-eq (shown events) start)
            ∙ summary-apply_events unmarshal false (shown events) start,
        (λ mem. sym known ∙ there mem, λ joined. back (known ∙ joined)),
      )
