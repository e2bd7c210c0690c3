-- ===== src/Site/Anchors.antt =====
-- The anchor that a page of the timeline puts into its links.
use matrix_static.Prelude.{
  ℕ, zero, suc, ◌+◌, ◌^◌, ◌<◌, ◌≡◌, refl, sym, ap, ◌∙◌, inl, inr, true, false, Bool-cases, Option,
  some, List, [], ◌∷◌, ◌++◌, if◌then◌else◌, All, arith, length, get_elem?, take, drop, ℤ, pos, Text,
  codes, text_eq, text_eq_refl,
}
use matrix_static.Prelude.Maps.{lookup, insert}
use matrix_static.Gomatrix.{Event, Content, Result}
use matrix_static.Sort.{Sorter}
use matrix_static.State.{PowerLevels}
use matrix_static.Timeline.{Room, RespInitialSync, Messages, access, room_info}
use matrix_static.Room.{index_from}
use matrix_static.Room.Pages.{
  anchor_index, backpaginated, backpaginate_if_needed-extends, get_event_page-backpaginated,
}
use matrix_static.Room.Walk.Ends.{
  HasUniqueIds, get_elem-take, get_elem-drop, get_elem-Without, text_eq_comm,
}
use matrix_static.Utils.Itoa.{itoa}
use matrix_static.Worker.{Worker}
use matrix_static.Worker.Serving.{IsServing}
use matrix_static.Worker.Pool.{Workers, set_worker, get_worker_for_room_id}
use matrix_static.Site.{
  default_query, Query, ChatPage, chat_page, chat, page_anchor, render, room_route,
}
use matrix_static.Site.Chat.{chat_route-answer, render_events-chat, offset_of_query}

-- The event at a place is found there by its id.
pub index_from-place :
    (m k : ℕ) (xs : List Event) {e : Event}
    → HasUniqueIds xs
    → get_elem? xs k ≡ some e
    → index_from m e.id xs ≡ some (m + k)
unfolding index_from
index_from-place m k [] h at = absurd (cc)
index_from-place m zero (x ∷ xs) {e} h at =
    let same : x ≡ e = cc in
    let found : text_eq x.id e.id ≡ true =
      ap (λ (w : Event). text_eq x.id w.id) (sym same) ∙ text_eq_refl x.id in
    let place : m ≡ m + 0 = omega arith in rw found (ap some place)
index_from-place m (suc k) (x ∷ xs) {e} (fresh, h) at =
    let other : text_eq x.id e.id ≡ false =
      text_eq_comm x.id e.id ∙ get_elem-Without x.id xs k fresh at in
    let place : suc m + k ≡ m + suc k = omega arith in
    rw other (index_from-place (suc m) k xs h at ∙ ap some place)

-- What is found in a list is found there when more is behind it.
index_from-extended :
    (m : ℕ) (id : Text) (xs ys : List Event) {i : ℕ}
    → index_from m id xs ≡ some i
    → index_from m id (xs ++ ys) ≡ some i
unfolding index_from
index_from-extended m id [] ys h = absurd (cc)
index_from-extended m id (x ∷ xs) ys h = elim (Bool-cases (text_eq x.id id)) [
  | inl e ↦ rw e (rw e at h)
  | inr e ↦ rw e (index_from-extended (suc m) id xs ys (rw e at h))
]

pub page_anchor-eq :
    (a : Text) (events : List Event) {e : Event}
    → get_elem? events 0 ≡ some e
    → page_anchor a events ≡ (if text_eq a [] then e.id else a)
unfolding page_anchor
page_anchor-eq a [] h = absurd (cc)
page_anchor-eq a (x ∷ events) {e} h =
    let same : x ≡ e = cc in ap (λ (w : Event). if text_eq a [] then w.id else a) same

pub get_elem-some :
    (xs : List Event) (k : ℕ) → k < length xs → (e : Event) × (get_elem? xs k ≡ some e)
get_elem-some [] k h = absurd (omega arith)
get_elem-some (x ∷ xs) zero h = (x, refl)
get_elem-some (x ∷ xs) (suc k) h = get_elem-some xs k (omega arith)

pub All-get_elem :
    (xs : List Event) (k : ℕ) {e : Event}
    → All (λ (w : Event). text_eq w.id [] ≡ false) xs
    → get_elem? xs k ≡ some e
    → text_eq e.id [] ≡ false
All-get_elem [] k h at = absurd (cc)
All-get_elem (x ∷ xs) zero {e} (p, h) at =
    let same : x ≡ e = cc in ap (λ (w : Event). text_eq w.id []) (sym same) ∙ p
All-get_elem (x ∷ xs) (suc k) (p, h) at = All-get_elem xs k h at

-- Where the anchor of the links stands: at the anchor of the request, or else at the first event of
-- the page.
page_anchor-place :
    (r r' : Room) (a : Text) (i offset : ℕ) (older : List Event)
    → anchor_index r a ≡ some i
    → r'.event_list ≡ r.event_list ++ older
    → HasUniqueIds r'.event_list
    → All (λ (w : Event). text_eq w.id [] ≡ false) r'.event_list
    → i + offset < length r'.event_list
    → anchor_index r' (page_anchor a (take 30 (drop (i + offset) r'.event_list)))
      ≡ some (if text_eq a [] then offset else i)
unfolding anchor_index
page_anchor-place r r' a i offset older found extends unique named inside =
    let xs = r'.event_list in
    let (e, at) = get_elem-some xs (i + offset) inside in
    let head : get_elem? (take 30 (drop (i + offset) xs)) 0 ≡ some e =
      get_elem-take 30 0 (drop (i + offset) xs) (omega arith)
      ∙ get_elem-drop (i + offset) 0 xs
      ∙ ap (get_elem? xs) (omega arith)
      ∙ at in
    let shown = page_anchor-eq a (take 30 (drop (i + offset) xs)) head in
    elim (Bool-cases (text_eq a [])) [
      | inl none_given ↦
          let start : some 0 ≡ some i = rw none_given at found in
          let zero_index : 0 ≡ i = cc in
          let place : 0 + (i + offset) ≡ offset = omega arith in
          rw (shown, none_given, All-get_elem xs (i + offset) named at)
            (index_from-place 0 (i + offset) xs unique at ∙ ap some place)
      | inr given ↦
          rw (shown, given, given, extends)
            (index_from-extended 0 a r.event_list older (rw given at found))
    ]

module _ (hash : Text → ℕ) (sorter : Sorter) (unmarshal : Content → Option PowerLevels)
    (messages : Messages) (sync : Text → ℤ → Result RespInitialSync) (now : ℕ) (id : Text)
    (query : Query) (offset : ℕ) (ws : Workers) (n : ℕ) (w : Worker) (r : Room)
    (bang : get_elem? id 0 ≡ some b'!') (chosen : get_worker_for_room_id hash id ws ≡ some (n, w))
    (found : lookup id w.rooms ≡ some r) (v : IsServing w.rooms) (small : offset < 2 ^ 62)
    (asked : query (codes "offset") ≡ some (itoa (pos offset))) where
  -- The links to older and newer events on the page "/room/<id>/?anchor=<event>&offset=<offset>" name
  -- an anchor that the timeline has: the one of the request, in its place; and where the request has
  -- none, the newest event of the page, which is number `offset`. The room is one that the pool
  -- holds, the page is not empty, the ids are unique and not empty, and 64 bits suffice.
  pub chat_route-page_anchor :
      (i : ℕ)
      → anchor_index r (default_query query (codes "anchor") []) ≡ some i
      → i + offset < length (backpaginated sorter unmarshal messages r i offset 30).event_list
      → length (backpaginated sorter unmarshal messages r i offset 30).event_list + 30 < 2 ^ 63
      → HasUniqueIds (backpaginated sorter unmarshal messages r i offset 30).event_list
      → All
          (λ (e : Event). text_eq e.id [] ≡ false)
          (backpaginated sorter unmarshal messages r i offset 30).event_list
      → (ws' : Workers) × (c : ChatPage) × (room_route hash sorter unmarshal messages sync now chat
            id query ws
          ≡ some (ws', chat_page c))
        × (c.current_offset ≡ pos offset)
        × (anchor_index (backpaginated sorter unmarshal messages r i offset 30) c.anchor
            ≡ some (if text_eq (default_query query (codes "anchor") []) [] then offset else i))
  unfolding render
  chat_route-page_anchor i at_i inside room unique named =
      let a = default_query query (codes "anchor") [] in
      let r' = backpaginated sorter unmarshal messages r i offset 30 in
      let (older, extends) =
        backpaginate_if_needed-extends sorter unmarshal messages r (pos i) (pos offset) (pos 30) in
      let (page, got, events, fine) =
        get_event_page-backpaginated sorter unmarshal messages r a i offset 30 at_i (omega arith)
          room in
      let (shown, made, answered) =
        chat_route-answer hash sorter unmarshal messages sync now id query offset ws n w r bang
          chosen found v small asked r' page got in
      let (c, is_chat, _, at_offset, _, at_anchor) =
        render_events-chat query (room_info r') r'.latest_room_state.member_map page fine in
      let same : shown ≡ chat_page c = cc in
      let ws' : Workers = record ws {
        workers = set_worker ws.workers n (record w { rooms = insert id (access now r') w.rooms });
      } in
      let link : c.anchor ≡ page_anchor a (take 30 (drop (i + offset) r'.event_list)) =
        at_anchor ∙ ap (page_anchor a) events in
      (
        _,
        c,
        answered ∙ ap (λ p. some (ws', p)) same,
        at_offset ∙ offset_of_query query offset small asked,
        ap (anchor_index r') link
            ∙ page_anchor-place r r' a i offset older at_i extends unique named inside,
      )
