-- ===== src/Worker/Discard.antt =====
-- Which rooms a worker holds: what serving, the initial sync and the discarding of old rooms do.
use mathlib.Core.List.{Mem, Nodup-cons}
use matrix_static.Prelude.{
  ℕ, ◌+◌, ◌<◌, ◌≡◌, refl, sym, ◌∙◌, subst, inl, inr, true, false, Option, none, some, [], ◌∷◌,
  arith, if◌then◌else◌, Bool-cases, Option-cases, ◌>>=◌, ℤ, Text, text_eq, text_eq_iff,
}
use matrix_static.Prelude.Maps.{Map, lookup, keys}
use matrix_static.Prelude.Maps.Laws.{IsMap, mem-keys_of_lookup}
use matrix_static.Gomatrix.{Content, Result}
use matrix_static.Sort.{Sorter}
use matrix_static.State.{PowerLevels}
use matrix_static.Timeline.{Room, RespInitialSync, Messages, forward_paginate_room}
use matrix_static.Worker.{
  Worker, done, room_initial_sync_resp, serve, work, initial_sync, discard, is_stale,
  forward_paginate_rooms, last_access_discard_duration, room_initial_sync_job, room_events_job,
  room_forward_paginate_job,
}

lookup_of_not_mem : (id : Text) (rooms : Map Room) → ¬ Mem id (keys rooms) → lookup id rooms ≡ none
lookup_of_not_mem id rooms fresh = elim (Option-cases (lookup id rooms)) [
  | inl e ↦ e
  | inr (r, e) ↦ absurd (fresh (mem-keys_of_lookup id rooms e))
]

-- What is left of a room when the old ones are discarded.
unfoldable pub kept : ℕ → Room → Option Room
kept now r = if is_stale now r then none else some r

kept_stale : (now : ℕ) (r : Room) → is_stale now r ≡ true → kept now r ≡ none
unfolding kept
kept_stale now r h = rw h refl

pub kept_recent : (now : ℕ) (r : Room) → is_stale now r ≡ false → kept now r ≡ some r
unfolding kept
kept_recent now r h = rw h refl

is_stale-true :
    (now : ℕ) (r : Room)
    → r.last_access + last_access_discard_duration < now
    → is_stale now r ≡ true
unfolding is_stale
is_stale-true now r h = ground arith

discard-fresh :
    (now : ℕ) (id : Text) (rooms : Map Room)
    → lookup id rooms ≡ none
    → lookup id (discard now rooms) ≡ none
unfolding discard lookup
discard-fresh now id [] h = h
discard-fresh now id ((j, r) ∷ rooms) h = elim (Bool-cases (text_eq j id)) [
  | inl e ↦ absurd (cc (rw e at h))
  | inr e ↦ elim (Bool-cases (is_stale now r)) [
    | inl old ↦ rw old (discard-fresh now id rooms (rw e at h))
    | inr new ↦ rw (new, e) (discard-fresh now id rooms (rw e at h))
  ]
]

lookup-discard :
    (now : ℕ) (id : Text) (rooms : Map Room)
    → IsMap rooms
    → lookup id (discard now rooms) ≡ (lookup id rooms >>= kept now)
unfolding discard lookup
lookup-discard now id [] h = refl
lookup-discard now id ((j, r) ∷ rooms) h =
    let (fresh, rest) = Nodup-cons.0 h in
    elim (Bool-cases (text_eq j id)) [
      | inl e ↦
          let other : ¬ Mem id (keys rooms) =
            λ mem. fresh (subst (λ k. Mem k (keys rooms)) (sym ((text_eq_iff j id).0 e)) mem) in
          elim (Bool-cases (is_stale now r)) [
            | inl old ↦
                rw (old, e)
                  (discard-fresh now id rooms (lookup_of_not_mem id rooms other)
                    ∙ sym (kept_stale now r old))
            | inr new ↦ rw (new, e) (sym (kept_recent now r new))
          ]
      | inr e ↦ elim (Bool-cases (is_stale now r)) [
        | inl old ↦ rw (old, e) (lookup-discard now id rooms rest)
        | inr new ↦ rw (new, e) (lookup-discard now id rooms rest)
      ]
    ]

module _ (sorter : Sorter) (unmarshal : Content → Option PowerLevels) (messages : Messages) where
  lookup-forward_paginate_rooms :
      (id : Text) (rooms : Map Room)
      → lookup id (forward_paginate_rooms sorter unmarshal messages rooms)
        ≡ (lookup id rooms >>= λ r. some (forward_paginate_room sorter unmarshal messages r))
  unfolding forward_paginate_rooms lookup
  lookup-forward_paginate_rooms id [] = refl
  lookup-forward_paginate_rooms id ((j, r) ∷ rooms) = elim (Bool-cases (text_eq j id)) [
    | inl e ↦ rw e refl
    | inr e ↦ rw e (lookup-forward_paginate_rooms id rooms)
  ]

  module _ (sync : Text → ℤ → Result RespInitialSync) where
    -- The forward paginate job answers, and leaves exactly the rooms that were accessed within the
    -- last half hour, each after its forward pagination.
    pub work_forward_paginate-lookup :
        (now : ℕ) (w : Worker) (id : Text)
        → IsMap w.rooms
        → (w' : Worker) × (work sorter unmarshal messages sync now room_forward_paginate_job w
            ≡ some (w', done))
          × (lookup id w'.rooms ≡ (
              (lookup id w.rooms >>= kept now) >>= λ r.
              some (forward_paginate_room sorter unmarshal messages r)))
    unfolding work
    work_forward_paginate-lookup now w id h = (
      _,
      refl,
      lookup-forward_paginate_rooms id (discard now w.rooms)
          ∙ rw (lookup-discard now id w.rooms h) refl,
    )

    -- A room that a request found is lost to it if the forward paginate job comes in between: the
    -- initial sync of a room that was last accessed more than half an hour ago reports no error and
    -- changes nothing, the forward paginate job then discards the room, and the request that
    -- follows has no room to work on and panics.
    pub work-discarded_between :
        (before now after : ℕ) (w : Worker) (id anchor : Text) (offset size : ℤ) (r : Room)
        → IsMap w.rooms
        → lookup id w.rooms ≡ some r
        → r.last_access + last_access_discard_duration < now
        → (w' : Worker) × (work sorter unmarshal messages sync before (room_initial_sync_job id) w
            ≡ some (w, room_initial_sync_resp none))
          × (work sorter unmarshal messages sync now room_forward_paginate_job w ≡ some (w', done))
          × (work sorter unmarshal messages sync after (room_events_job id anchor offset size) w'
              ≡ none)
    unfolding work serve initial_sync
    work-discarded_between before now after w id anchor offset size r h found old =
        let (w', answered, left) = work_forward_paginate-lookup now w id h in
        let stale : is_stale now r ≡ true = is_stale-true now r old in
        let gone : lookup id w'.rooms ≡ none = rw (found, kept_stale now r stale) at left in
        (w', rw (found, initial_sync) refl, answered, rw gone refl)
