-- ===== src/Site/Links/Rooms.antt =====
-- Following "Next Page" from the first page of the list of rooms on.
use Prim.Native.Nat.{min}
use matrix_static.Prelude.{
  ℕ, zero, suc, ◌+◌, ◌-◌, ◌*◌, ◌^◌, ◌≤◌, ◌<◌, ◌≡◌, refl, sym, ap, ◌∙◌, inl, inr, false, Bool-cases,
  none, some, some_bind, List, ◌++◌, if◌then◌else◌, ◌==◌, arith, length, length-take, length-drop,
  take, drop, take-append-drop, drop-drop, ℤ, pos, eqb_ℤ, add64, codes, text_eq,
}
use matrix_static.Gomatrix.{PublicRoomsChunk}
use matrix_static.PublicRooms.{WorldReadableRooms}
use matrix_static.Utils.Bounds.{add64-pos}
use matrix_static.Utils.Pages.{take_of_length-le}
use matrix_static.Utils.Itoa.{itoa}
use matrix_static.Site.{rooms_page, index_route}
use matrix_static.Site.Index.{index_route-eq}
use matrix_static.Site.Links.{has_next_page, next_page, page_query, walk_rooms}

asked : (page : ℤ) → page_query page (codes "page") ≡ some (itoa page)
unfolding text_eq
asked page = refl

next_page-eq :
    (k n : ℕ) (part : List PublicRoomsChunk)
    → k < 2 ^ 58
    → next_page (pos (suc k)) part (pos n)
      ≡ (if length part == n then some (pos (suc (suc k))) else none)
unfolding next_page has_next_page
next_page-eq k n part small =
    let not_all : eqb_ℤ (pos (suc k)) (pos 0) ≡ false = ground arith in
    let same : eqb_ℤ (pos (length part)) (pos n) ≡ (length part == n) = ground arith in
    let sum : add64 (pos (suc k)) (pos 1) ≡ pos (suc (suc k)) =
      add64-pos (suc k) 1 (omega arith) ∙ ap pos (omega arith) in
    rw (not_all, same, sum) refl

module _ (rooms : WorldReadableRooms) where
  walk_rooms-last :
      (fuel : ℕ) (page size cur : ℤ) (part : List PublicRoomsChunk)
      → index_route rooms (page_query page) ≡ some (rooms_page part size cur)
      → next_page cur part size ≡ none
      → walk_rooms (suc fuel) rooms page ≡ some part
  unfolding walk_rooms
  walk_rooms-last fuel page size cur part got last = some_bind _ _ got (rw last refl)

  walk_rooms-next :
      (fuel : ℕ) (page size cur next : ℤ) (part rest : List PublicRoomsChunk)
      → index_route rooms (page_query page) ≡ some (rooms_page part size cur)
      → next_page cur part size ≡ some next
      → walk_rooms fuel rooms next ≡ some rest
      → walk_rooms (suc fuel) rooms page ≡ some (part ++ rest)
  unfolding walk_rooms
  walk_rooms-next fuel page size cur next part rest got link later =
      some_bind _ _ got (rw link (some_bind _ _ later refl))

  walk_rooms-from :
      (fuel k : ℕ)
      → k * 20 ≤ length rooms.rooms
      → length rooms.rooms < k * 20 + fuel
      → length rooms.rooms < 2 ^ 58
      → walk_rooms fuel rooms (pos (suc k)) ≡ some (drop (k * 20) rooms.rooms)
  walk_rooms-from zero k inside enough small = absurd (omega arith)
  walk_rooms-from (suc fuel) k inside enough small =
      let xs = rooms.rooms in
      let part = take 20 (drop (k * 20) xs) in
      let got =
        index_route-eq rooms (page_query (pos (suc k))) k (omega arith) (asked (pos (suc k)))
          (omega arith) in
      let link = next_page-eq k 20 part (omega arith) in
      let size : length part ≡ min 20 (length xs - k * 20) =
        length-take 20 (drop (k * 20) xs) ∙ ap (min 20) (length-drop (k * 20) xs) in
      elim (Bool-cases (length part == 20)) [
        | inl e ↦
            let full : length part ≡ 20 = ground arith in
            let place : suc k * 20 ≡ k * 20 + 20 = omega arith in
            let rest = walk_rooms-from fuel (suc k) (omega arith) (omega arith) small in
            walk_rooms-next fuel (pos (suc k)) (pos 20) (pos (suc k)) (pos (suc (suc k))) part _ got
              (link ∙ rw e refl) rest
            ∙ ap some (
                rw (place, sym (drop-drop 20 (k * 20) xs)) (take-append-drop 20 (drop (k * 20) xs)))
        | inr e ↦
            let few : length (drop (k * 20) xs) ≤ 20 =
              let not_full : length part < 20 = ground (arith, size) in
              omega (arith, length-drop (k * 20) xs) in
            walk_rooms-last fuel (pos (suc k)) (pos 20) (pos (suc k)) part got (link ∙ rw e refl)
            ∙ ap some (take_of_length-le 20 (drop (k * 20) xs) few)
      ]

  -- From the first page of the list of rooms, the links "Next Page" lead over all the rooms of the
  -- list, each of them once and in their order, and then end: as many pages as there are rooms, and
  -- one more, are enough, and none of them panics, where there are fewer than 2 ^ 58 rooms.
  pub walk_rooms-eq :
      (fuel : ℕ)
      → length rooms.rooms < fuel
      → length rooms.rooms < 2 ^ 58
      → walk_rooms fuel rooms (pos 1) ≡ some rooms.rooms
  walk_rooms-eq fuel enough small = walk_rooms-from fuel 0 (omega arith) (omega arith) small
