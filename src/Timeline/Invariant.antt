-- ===== src/Timeline/Invariant.antt =====
-- What holds of a loaded room, whatever the homeserver answers.
use mathlib.Core.List.{reverse-cons, append-nil}
use matrix_static.Prelude.{
  ℕ, ◌≡◌, ◌∙◌, inl, inr, true, false, Option, List, [], ◌∷◌, reverse, Bool-cases, keep, All,
  All-append, ℤ, Text,
}
use matrix_static.Gomatrix.{Event, Content, Result, ok, Result-cases}
use matrix_static.Sort.{Sorter}
use matrix_static.State.{PowerLevels, RoomState, Client}
use matrix_static.State.Invariant.{IsValid, update_on_event-IsValid, new_room_state-IsValid}
use matrix_static.State.Recalculate.Lists.{recalculate-IsValid}
use matrix_static.Timeline.{
  Room, RespInitialSync, Messages, backward, forward, should_hide_event, prepend_shown,
  initial_state, new_room, synced_room, concat_backpagination, concat_forward_pagination,
  backpaginate_room, forwardpaginate_room, minimum_pagination, room_initial_sync_limit,
}
use matrix_static.Timeline.Concat.{
  shown, state_after, prepend_shown-eq-append, concat_forward_pagination-eq,
  concat_backpagination-eq,
}
use matrix_static.Utils.{max_int}

abbrev pub AreShown : List Event → Type 0
AreShown = All (λ ev. should_hide_event ev ≡ false)

-- The state is valid, and the timeline holds shown events only.
pub record IsLoaded (r : Room) : Type 0 where
  pub state : IsValid r.latest_room_state
  pub timeline : AreShown r.event_list

shown-AreShown : (events : List Event) → AreShown (shown events)
unfolding keep
shown-AreShown [] = tt
shown-AreShown (ev ∷ events) = elim (Bool-cases (should_hide_event ev)) [
  | inl h ↦ rw h (shown-AreShown events)
  | inr h ↦ rw h (h, shown-AreShown events)
]

reverse-AreShown : (events : List Event) → AreShown events → AreShown (reverse events)
reverse-AreShown [] h = tt
reverse-AreShown (ev ∷ events) (p, h) = rw (reverse-cons ev events) (
    All-append (λ (e : Event). should_hide_event e ≡ false) (reverse events) (ev ∷ [])
      (reverse-AreShown events h) (p, tt))

module _ (sorter : Sorter) (unmarshal : Content → Option PowerLevels) where
  pub state_after-IsValid :
      (events : List Event) (rs : RoomState)
      → IsValid rs
      → IsValid (state_after unmarshal events rs)
  unfolding state_after
  state_after-IsValid [] rs v = v
  state_after-IsValid (ev ∷ events) rs v =
      state_after-IsValid events _ (update_on_event-IsValid unmarshal ev false rs v)

  pub initial_state-IsValid :
      (events : List Event) (rs : RoomState)
      → IsValid rs
      → IsValid (initial_state sorter unmarshal events rs)
  unfolding initial_state
  initial_state-IsValid [] rs v = v
  initial_state-IsValid (ev ∷ events) rs v =
      initial_state-IsValid events _ (update_on_event-IsValid unmarshal ev true rs v)

  concat_forward_pagination-IsLoaded :
      (events : List Event) (token : Text) (r : Room)
      → IsLoaded r
      → IsLoaded (concat_forward_pagination sorter unmarshal events token r)
  concat_forward_pagination-IsLoaded events token r v =
      rw (concat_forward_pagination-eq sorter unmarshal events token r) (record {
        state = recalculate-IsValid sorter _ (state_after-IsValid (shown events) _ v.state);
        timeline =
            All-append (λ (e : Event). should_hide_event e ≡ false) (reverse (shown events)) _
              (reverse-AreShown (shown events) (shown-AreShown events)) v.timeline;
      })

  concat_backpagination-IsLoaded :
      (events : List Event) (token : Text) (r : Room)
      → IsLoaded r
      → IsLoaded (concat_backpagination sorter unmarshal events token r)
  concat_backpagination-IsLoaded events token r v =
      rw (concat_backpagination-eq sorter unmarshal events token r) (record {
        state = recalculate-IsValid sorter _ v.state;
        timeline =
            All-append (λ (e : Event). should_hide_event e ≡ false) r.event_list (shown events)
              v.timeline (shown-AreShown events);
      })

  -- If the initial sync answers, `NewRoom` returns a well-formed room: its state is valid, and its
  -- timeline holds the messages that are to be shown, in the reverse order of the response.
  pub new_room-IsLoaded :
      (sync : Text → ℤ → Result RespInitialSync) (client : Client) (room_id : Text) (now : ℕ)
      (resp : RespInitialSync)
      → sync room_id room_initial_sync_limit ≡ ok resp
      → (r : Room) × (new_room sorter unmarshal sync client room_id now ≡ ok r)
        × IsLoaded r
        × (r.event_list ≡ reverse (shown resp.messages.chunk))
  unfolding new_room synced_room
  new_room-IsLoaded sync client room_id now resp h =
      let list : prepend_shown resp.messages.chunk [] ≡ reverse (shown resp.messages.chunk) =
        prepend_shown-eq-append resp.messages.chunk [] ∙ append-nil _ in
      (
        synced_room sorter unmarshal client room_id now resp,
        rw (h, new_room),
        record {
          state =
              recalculate-IsValid sorter _
                (initial_state-IsValid resp.state _ (new_room_state-IsValid client));
          timeline = rw list (reverse-AreShown _ (shown-AreShown resp.messages.chunk));
        },
        list,
      )

  -- A forward pagination keeps a room well-formed, whatever the answer, and also when the request
  -- fails.
  pub forwardpaginate_room-IsLoaded :
      (messages : Messages) (r : Room) (amount : ℤ)
      → IsLoaded r
      → IsLoaded (forwardpaginate_room sorter unmarshal messages r amount).0
  unfolding forwardpaginate_room
  forwardpaginate_room-IsLoaded messages r amount v =
      elim (Result-cases
        (messages r.id r.forward_pagination_token forward (max_int amount minimum_pagination))) [
          | inl (e, h) ↦ rw (h, forwardpaginate_room) v
          | inr (resp, h) ↦
              rw (h, forwardpaginate_room)
                (concat_forward_pagination-IsLoaded resp.chunk resp.end_token r v)
        ]

  -- A back pagination keeps a room well-formed, whatever the answer, and also when the request
  -- fails.
  pub backpaginate_room-IsLoaded :
      (messages : Messages) (r : Room) (amount : ℤ)
      → IsLoaded r
      → IsLoaded (backpaginate_room sorter unmarshal messages r amount).0
  unfolding backpaginate_room
  backpaginate_room-IsLoaded messages r amount v =
      elim (Result-cases
        (messages r.id r.back_pagination_token backward (max_int amount minimum_pagination))) [
          | inl (e, h) ↦ rw (h, backpaginate_room) v
          | inr (resp, h) ↦
              rw (h, backpaginate_room)
                (concat_backpagination-IsLoaded resp.chunk resp.end_token r v)
        ]
