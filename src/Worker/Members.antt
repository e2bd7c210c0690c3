-- ===== src/Worker/Members.antt =====
-- The pages of members that the members job answers.
use mathlib.Core.List.{Mem, mem-cons_self, mem-cons_of_mem, mem-append_left, mem-append_right}
use matrix_static.Prelude.{
  ℕ, suc, ◌+◌, ◌*◌, ◌^◌, ◌<◌, ◌≡◌, refl, ap₂, subst, Option, some, List, [], ◌∷◌, map, length, take,
  drop, take-append-drop, ℤ, pos, Text,
}
use matrix_static.Prelude.Maps.{Map, lookup, insert, keys}
use matrix_static.Prelude.Maps.Laws.{lookup-All, lookup-some_of_mem}
use matrix_static.Gomatrix.{Content, Result}
use matrix_static.Member.{MemberInfo}
use matrix_static.Sort.{Sorter}
use matrix_static.State.{PowerLevels, members, deref}
use matrix_static.State.Invariant.{Named, lookup-Named}
use matrix_static.Timeline.{Room, RespInitialSync, Messages, access, room_info}
use matrix_static.Utils.Pages.{page_of-eq-take-drop}
use matrix_static.Worker.{Worker, serve, work, answer_members, room_members_job, room_members_resp}
use matrix_static.Worker.Rooms.{IsHeld}
use matrix_static.Worker.Serving.{IsServing}

mem_of_mem-take : {A : Type 0} (n : ℕ) (l : List A) {x : A} → Mem x (take n l) → Mem x l
mem_of_mem-take n l {x} m = subst (Mem x) (take-append-drop n l) (mem-append_left (drop n l) m)

mem_of_mem-drop : {A : Type 0} (n : ℕ) (l : List A) {x : A} → Mem x (drop n l) → Mem x l
mem_of_mem-drop n l {x} m = subst (Mem x) (take-append-drop n l) (mem-append_right (take n l) m)

-- Pointers to keys of the map can be read, and each leads to the member of that id.
deref-some :
    (m : Map MemberInfo) (ids : List Text)
    → Named m
    → ((k : Text) → Mem k ids → Mem k (keys m))
    → (infos : List MemberInfo) × (deref m ids ≡ some infos) × (map (λ i. i.mxid) infos ≡ ids)
unfolding deref
deref-some m [] named sub = ([], refl, refl)
deref-some m (k ∷ ids) named sub =
    let (info, found) = lookup-some_of_mem k m (sub k mem-cons_self) in
    let (infos, rest, same) = deref-some m ids named (λ j mem. sub j (mem-cons_of_mem k mem)) in
    (info ∷ infos, rw (found, rest) refl, ap₂ (λ x y. x ∷ y) (lookup-Named k m named found) same)

module _ (sorter : Sorter) (unmarshal : Content → Option PowerLevels) (messages : Messages)
    (sync : Text → ℤ → Result RespInitialSync) where
  -- The job for page `k + 1` of the members of a room that the worker holds is answered with the
  -- `size` members from number `k * size` on in the order of the member list, as far as there are
  -- any, where 64 bits suffice; no pointer of the list is nil.
  pub work-members-page :
      (now : ℕ) (id : Text) (k size : ℕ) (w : Worker) (r : Room)
      → lookup id w.rooms ≡ some r
      → IsServing w.rooms
      → k < 2 ^ 62
      → k * size < 2 ^ 63
      → length (members r.latest_room_state) + size < 2 ^ 63
      → (infos : List MemberInfo) × (map (λ i. i.mxid) infos
          ≡ take size (drop (k * size) (members r.latest_room_state)))
        × (work sorter unmarshal messages sync now (room_members_job id (pos (suc k)) (pos size)) w
            ≡ some (
              record w { rooms = insert id (access now r) w.rooms },
              room_members_resp (room_info r) infos (pos size) (pos (suc k)),
            ))
  unfolding work serve answer_members members
  work-members-page now id k size w r found v small fits room =
      let held : IsHeld id r = lookup-All (λ e. IsHeld e.0 e.1) id w.rooms v.held found in
      let list = r.latest_room_state.member_list in
      let (infos, there, same) =
        deref-some r.latest_room_state.member_map (take size (drop (k * size) list))
          held.loaded.state.named
          (λ j mem.
            held.loaded.state.listed j (
              mem_of_mem-drop (k * size) list (mem_of_mem-take size (drop (k * size) list) mem))) in
      (infos, same, rw (found, page_of-eq-take-drop list k size small fits room, there) refl)
