-- ===== src/Room/Pages/Asked.antt =====
-- What a request for a page asks the homeserver for, and what it gets.
use Prim.Native.Nat.{max}
use mathlib.Core.List.{append-nil}
use matrix_static.Prelude.{
  ℕ, ◌+◌, ◌-◌, ◌^◌, ◌≤◌, ◌<◌, ◌≡◌, refl, sym, ap, ◌∙◌, inl, inr, true, false, Bool-cases, not, Bool,
  Option, List, [], ◌++◌, arith, ltb, ltb_ℤ, if◌then◌else◌, length, keep, ℤ, pos, sub64,
}
use matrix_static.Gomatrix.{Event, Content, GoError, RespMessages, Result, Result-cases, ok, err}
use matrix_static.Sort.{Sorter}
use matrix_static.State.{PowerLevels}
use matrix_static.Timeline.{Room, Messages, backward, should_hide_event, backpaginate_room}
use matrix_static.Timeline.Concat.{concat_backpagination-eq}
use matrix_static.Utils.Bounds.{add64-pos, sub64-pos, max_int-pos}
use matrix_static.Room.{wanted, amount, note_end, backpaginate_if_needed}
use matrix_static.Room.Pages.{backpaginated}

-- The events of an answer that are not hidden; a failure brings none.
abbrev pub brought : Result RespMessages → List Event
brought (ok resp) = keep (λ event. not (should_hide_event event)) resp.chunk
brought (err e) = []

-- The older events that a page of `number` events from place `from` on brings into the timeline: none
-- where the first event of the room is known, or where 32 events and more are known behind the page;
-- else those of the one answer to a request for what is missing of that, and at least for 64 events.
abbrev pub older_brought : Messages → Room → ℕ → ℕ → List Event
older_brought messages r from number =
    if r.has_reached_historic_end_of_timeline
    then []
    else if ltb (from + number + 32) (length r.event_list)
    then []
    else brought (
        messages r.id r.back_pagination_token backward
          (pos (max (from + number + 32 - length r.event_list) 64)))

wanted-eq :
    (i offset number : ℕ)
    → i + offset + number + 32 < 2 ^ 63
    → wanted (pos i) (pos offset) (pos number) ≡ pos (i + offset + number + 32)
unfolding wanted
wanted-eq i offset number fits =
    rw
      (
        add64-pos i offset (omega arith),
        add64-pos (i + offset) number (omega arith),
        add64-pos (i + offset + number) 32 fits,
      )
      refl

amount-eq :
    (r : Room) (i offset number : ℕ)
    → i + offset + number + 32 < 2 ^ 63
    → length r.event_list ≤ i + offset + number + 32
    → amount r (pos i) (pos offset) (pos number)
      ≡ pos (i + offset + number + 32 - length r.event_list)
unfolding amount
amount-eq r i offset number fits ge =
    ap (λ z. sub64 z (pos (length r.event_list))) (wanted-eq i offset number fits)
    ∙ sub64-pos (i + offset + number + 32) (length r.event_list) ge fits

if_else : {A : Type 0} (x y : A) (b : Bool) → b ≡ false → (if b then x else y) ≡ y
if_else x y true h = absurd (cc)
if_else x y false h = refl

module _ (sorter : Sorter) (unmarshal : Content → Option PowerLevels) (messages : Messages) where
  note_end-event_list : (t : Room × ℤ × Option GoError) → (note_end t).event_list ≡ t.0.event_list
  unfolding note_end
  note_end-event_list (r, n, Option.some e) = refl
  note_end-event_list (r, n, Option.none) = ground arith

  event_list-backpaginate_room :
      (r : Room) (size : ℕ)
      → (backpaginate_room sorter unmarshal messages r (pos size)).0.event_list
        ≡ r.event_list
          ++ brought (messages r.id r.back_pagination_token backward (pos (max size 64)))
  unfolding backpaginate_room
  event_list-backpaginate_room r size =
      let limit = max_int-pos size 64 in
      elim (Result-cases (messages r.id r.back_pagination_token backward (pos (max size 64)))) [
        | inl (e, h) ↦ rw (limit, h, backpaginate_room) (sym (append-nil r.event_list))
        | inr (resp, h) ↦
            rw (limit, h, backpaginate_room)
              (ap (λ (x : Room). x.event_list)
                (concat_backpagination-eq sorter unmarshal resp.chunk resp.end_token r))
      ]

  backpaginated_missing :
      (r : Room) (i offset number : ℕ) (wants missing : ℤ)
      → r.has_reached_historic_end_of_timeline ≡ false
      → wanted (pos i) (pos offset) (pos number) ≡ wants
      → ltb_ℤ wants (pos (length r.event_list)) ≡ false
      → amount r (pos i) (pos offset) (pos number) ≡ missing
      → backpaginated sorter unmarshal messages r i offset number
        ≡ note_end (backpaginate_room sorter unmarshal messages r missing)
  unfolding backpaginate_if_needed
  backpaginated_missing r i offset number wants missing open_end wanting ge size =
      let few : ltb_ℤ (wanted (pos i) (pos offset) (pos number)) (pos (length r.event_list))
          ≡ false =
        ap (λ z. ltb_ℤ z (pos (length r.event_list))) wanting ∙ ge in
      let start : backpaginated sorter unmarshal messages r i offset number
          ≡ note_end (
              backpaginate_room sorter unmarshal messages r
                (amount r (pos i) (pos offset) (pos number))) =
        if_else _ _ r.has_reached_historic_end_of_timeline open_end
        ∙ if_else _ _ (ltb_ℤ (wanted (pos i) (pos offset) (pos number)) (pos (length r.event_list)))
            few in
      start ∙ ap (λ z. note_end (backpaginate_room sorter unmarshal messages r z)) size

  pub event_list-backpaginated :
      (r : Room) (i offset number : ℕ)
      → i + offset + number + 32 < 2 ^ 63
      → (backpaginated sorter unmarshal messages r i offset number).event_list
        ≡ r.event_list ++ older_brought messages r (i + offset) number
  unfolding backpaginate_if_needed
  event_list-backpaginated r i offset number fits =
      let wants = wanted-eq i offset number fits in
      elim (Bool-cases r.has_reached_historic_end_of_timeline) [
        | inl reached ↦ rw (reached, backpaginate_if_needed) (sym (append-nil r.event_list))
        | inr open_end ↦ elim (Bool-cases (ltb (i + offset + number + 32) (length r.event_list))) [
          | inl e ↦
              let lt : ltb_ℤ (pos (i + offset + number + 32)) (pos (length r.event_list)) ≡ true =
                ground arith in
              let known : backpaginated sorter unmarshal messages r i offset number ≡ r =
                rw (open_end, wants, lt) refl in
              ap (λ (x : Room). x.event_list) known
              ∙ rw (open_end, e) (sym (append-nil r.event_list))
          | inr e ↦
              let ge : ltb_ℤ (pos (i + offset + number + 32)) (pos (length r.event_list)) ≡ false =
                ground arith in
              let missing = i + offset + number + 32 - length r.event_list in
              let size = amount-eq r i offset number fits (ground arith) in
              let asked : backpaginated sorter unmarshal messages r i offset number
                  ≡ note_end (backpaginate_room sorter unmarshal messages r (pos missing)) =
                backpaginated_missing r i offset number (pos (i + offset + number + 32))
                  (pos missing) open_end wants ge size in
              ap (λ (x : Room). x.event_list) asked
              ∙ note_end-event_list (backpaginate_room sorter unmarshal messages r (pos missing))
              ∙ event_list-backpaginate_room r missing
              ∙ rw (open_end, e) refl
        ]
      ]
