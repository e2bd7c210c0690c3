-- ===== src/Worker/Pool/Sharding.antt =====
-- Every room belongs to one worker.
use native.Mathlib.Nat.{div-add-mod, mod-lt}
use mathlib.Core.List.{Mem, not-mem-nil}
use matrix_static.Prelude.{
  ℕ, zero, suc, ◌+◌, ◌-◌, ◌*◌, ◌/◌, ◌%◌, ◌^◌, ◌<◌, ◌≡◌, refl, sym, ap, ◌∙◌, subst, ◌≢◌, ◌⊎◌, inl,
  inr, Option, some, List, [], ◌∷◌, arith, Bool-cases, Option-cases, get_elem?, ℤ, Text, text_eq,
  text_eq_iff,
}
use matrix_static.Prelude.Maps.{lookup, keys}
use matrix_static.Prelude.Maps.Laws.{mem-keys-insert}
use matrix_static.Gomatrix.{Content, Result, Result-cases}
use matrix_static.Sort.{Sorter}
use matrix_static.State.{PowerLevels, Client}
use matrix_static.Timeline.{Room, RespInitialSync, Messages, access, new_room}
use matrix_static.Worker.{
  room_initial_sync_job, room_servers_job, room_aliases_job, room_members_job, room_member_info_job,
  room_power_levels_job, room_events_job, room_forward_paginate_job, answer_power_levels, Worker,
  Job, JobResp, work, serve, initial_sync, discard,
}
use matrix_static.Worker.Rooms.{bind_some, some_room}
use matrix_static.Worker.Serving.{discard-mem, forward_paginate_rooms-keys}
use matrix_static.Worker.Pool.{
  Workers, new_worker, workers_from, new_workers, sub32, mul32, mod32, set_worker,
  get_worker_for_room_id, run_for_room,
}

sub32_of_sum : (a p m : ℕ) → p + m ≡ a → a < 2 ^ 32 → ((a + 2 ^ 32) - p % 2 ^ 32) % 2 ^ 32 ≡ m
sub32_of_sum a p m e h = omega arith

-- `mod32` is the remainder, and no part of it wraps around.
pub mod32-eq : (a b : ℕ) → a < 2 ^ 32 → 0 < b → mod32 a b ≡ some (a % b)
unfolding mod32 sub32 mul32
mod32-eq a zero h pos_b = absurd (omega arith)
mod32-eq a (suc b) h pos_b =
    ap some (sub32_of_sum a (suc b * (a / suc b)) (a % suc b) (div-add-mod a (suc b)) h)

get_elem-workers_from :
    (i k n : ℕ) (client : Client)
    → k < n
    → get_elem? (workers_from i n client) k ≡ some (new_worker (i + k) client)
unfolding workers_from
get_elem-workers_from i k zero client h = absurd (omega arith)
get_elem-workers_from i zero (suc n) client h = let e : i + 0 ≡ i = omega arith in rw e refl
get_elem-workers_from i (suc k) (suc n) client h =
    let e : i + suc k ≡ suc i + k = omega arith in
    rw e (get_elem-workers_from (suc i) k n client (omega arith))

no_rooms :
    (i n : ℕ) (client : Client) (k : ℕ) (w : Worker) (j : Text)
    → get_elem? (workers_from i n client) k ≡ some w
    → ¬ Mem j (keys w.rooms)
unfolding workers_from new_worker
no_rooms i zero client k w j h mem = absurd (cc)
no_rooms i (suc n) client zero w j h mem =
    let e : record { id = i; client = client; rooms = [] } ≡ w = cc in
    not-mem-nil (subst (λ (x : Worker). Mem j (keys x.rooms)) (sym e) mem)
no_rooms i (suc n) client (suc k) w j h mem = no_rooms (suc i) n client k w j h mem

pub get_elem-set_worker :
    (ws : List Worker) (n k : ℕ) (v w : Worker)
    → get_elem? (set_worker ws n v) k ≡ some w
    → ((n ≡ k) × (w ≡ v)) ⊎ (get_elem? ws k ≡ some w)
unfolding set_worker
get_elem-set_worker [] n k v w h = absurd (cc)
get_elem-set_worker (x ∷ ws) zero zero v w h = inl (refl, cc)
get_elem-set_worker (x ∷ ws) zero (suc k) v w h = inr h
get_elem-set_worker (x ∷ ws) (suc n) zero v w h = inr h
get_elem-set_worker (x ∷ ws) (suc n) (suc k) v w h = elim (get_elem-set_worker ws n k v w h) [
  | inl (e, same) ↦ inl (ap suc e, same)
  | inr old ↦ inr old
]

-- Every room that the worker at an index holds is one whose hash leads to that index.
pub record IsSharded (hash : Text → ℕ) (ws : Workers) : Type 0 where
  pub placed :
      (k : ℕ) (w : Worker) (id : Text)
      → get_elem? ws.workers k ≡ some w
      → Mem id (keys w.rooms)
      → mod32 (hash id) ws.num_workers ≡ some k

-- The room that a job is about, if it is about one.
abbrev pub IsAbout : Text → Job → Type 0
IsAbout id (room_initial_sync_job j) = j ≡ id
IsAbout id (room_servers_job j _ _) = j ≡ id
IsAbout id (room_aliases_job j _ _) = j ≡ id
IsAbout id (room_members_job j _ _) = j ≡ id
IsAbout id (room_member_info_job j _) = j ≡ id
IsAbout id (room_power_levels_job j) = j ≡ id
IsAbout id (room_events_job j _ _ _) = j ≡ id
IsAbout id room_forward_paginate_job = Unit

set_worker-IsSharded :
    (hash : Text → ℕ) (id : Text) (ws : Workers) (n : ℕ) (v v' : Worker)
    → mod32 (hash id) ws.num_workers ≡ some n
    → get_elem? ws.workers n ≡ some v
    → IsSharded hash ws
    → ((j : Text) → Mem j (keys v'.rooms) → j ≢ id → Mem j (keys v.rooms))
    → IsSharded hash (record ws { workers = set_worker ws.workers n v' })
set_worker-IsSharded hash id ws n v v' remainder found sharded new_keys = record {
  placed = λ k w j at_k mem. elim (get_elem-set_worker ws.workers n k v' w at_k) [
    | inr old ↦ sharded.placed k w j old mem
    | inl (index, same) ↦ elim (Bool-cases (text_eq j id)) [
      | inl e ↦ rw ((text_eq_iff j id).0 e, sym index) remainder
      | inr e ↦
          subst (λ i. mod32 (hash j) ws.num_workers ≡ some i) index
            (sharded.placed n v j found (
              new_keys j (subst (λ (x : Worker). Mem j (keys x.rooms)) same mem)
                (λ p. cc ((text_eq_iff j id).1 p))))
    ]
  ];
}

pub get_worker_for_room_id_lem :
    (hash : Text → ℕ) (id : Text) (ws : Workers) (n : ℕ) (v : Worker)
    → get_worker_for_room_id hash id ws ≡ some (n, v)
    → (mod32 (hash id) ws.num_workers ≡ some n) × (get_elem? ws.workers n ≡ some v)
unfolding get_worker_for_room_id
get_worker_for_room_id_lem hash id ws n v h =
    let (n', remainder, h₁) = bind_some (mod32 (hash id) ws.num_workers) _ h in
    let (x, found, h₂) = bind_some (get_elem? ws.workers n') _ h₁ in
    let pair : ◌≡◌ {A = ℕ × Worker} (n', x) (n, v) = cc in
    let first : n' ≡ n = ap (λ t. t.0) pair in
    let second : x ≡ v = ap (λ t. t.1) pair in
    (
      remainder ∙ ap some first,
      subst (λ i. get_elem? ws.workers i ≡ some v) first (found ∙ ap some second),
    )

-- In a newly made pool with at least one worker, the worker of a room whose hash has 32 bits is
-- there: the one whose number is the remainder of the hash.
pub get_worker_for_room_id-some :
    (hash : Text → ℕ) (id : Text) (n : ℕ) (client : Client)
    → hash id < 2 ^ 32
    → 0 < n
    → get_worker_for_room_id hash id (new_workers n client)
      ≡ some (hash id % n, new_worker (hash id % n) client)
unfolding get_worker_for_room_id new_workers
get_worker_for_room_id-some hash id n client h some_worker =
    rw
      (
        mod32-eq (hash id) n h some_worker,
        get_elem-workers_from 0 (hash id % n) n client (mod-lt (hash id) some_worker),
      )
      (let e : 0 + hash id % n ≡ hash id % n = omega arith in rw e refl)

-- A pool that has just been made holds no room.
pub new_workers-IsSharded :
    (hash : Text → ℕ) (n : ℕ) (client : Client) → IsSharded hash (new_workers n client)
unfolding new_workers
new_workers-IsSharded hash n client = record {
  placed = λ k w j at_k mem. absurd (no_rooms 0 n client k w j at_k mem);
}

serve-keys :
    (now : ℕ) (id j : Text) (body : Room → Option (Room × JobResp)) (w w' : Worker) (resp : JobResp)
    → serve now id body w ≡ some (w', resp)
    → Mem j (keys w'.rooms)
    → j ≢ id
    → Mem j (keys w.rooms)
unfolding serve
serve-keys now id j body w w' resp h mem other =
    let (r, found, h₁) = bind_some (lookup id w.rooms) _ h in
    let ((r', a), answered, h₂) = bind_some (body r) _ h₁ in
    mem-keys-insert j id (access now r') w.rooms
      (subst (λ (x : Worker). Mem j (keys x.rooms)) (sym (some_room _ h₂)) mem) other

module _ (sorter : Sorter) (unmarshal : Content → Option PowerLevels) (messages : Messages)
    (sync : Text → ℤ → Result RespInitialSync) where
  initial_sync-keys :
      (now : ℕ) (id j : Text) (w : Worker)
      → Mem j (keys (initial_sync sorter unmarshal messages sync now id w).0.rooms)
      → j ≢ id
      → Mem j (keys w.rooms)
  unfolding initial_sync
  initial_sync-keys now id j w mem other = elim (Option-cases (lookup id w.rooms)) [
    | inl missing ↦ elim (Result-cases (new_room sorter unmarshal sync w.client id now)) [
      | inl (e, failed) ↦ rw (missing, failed, initial_sync) at mem
      | inr (r, made) ↦
          mem-keys-insert j id r w.rooms (rw (missing, made, initial_sync) at mem) other
    ]
    | inr (r, there) ↦ rw (there, initial_sync) at mem
  ]

  -- A job on one room brings in no other room, and the forward paginate job none at all.
  work-keys :
      (now : ℕ) (job : Job) (id j : Text) (w w' : Worker) (resp : JobResp)
      → IsAbout id job
      → work sorter unmarshal messages sync now job w ≡ some (w', resp)
      → Mem j (keys w'.rooms)
      → j ≢ id
      → Mem j (keys w.rooms)
  unfolding work
  work-keys now (room_initial_sync_job i) id j w w' resp about h mem other =
      initial_sync-keys now i j w
        (subst (λ (x : Worker). Mem j (keys x.rooms)) (sym (some_room _ h)) mem) (rw about other)
  work-keys now (room_servers_job i p s) id j w w' resp about h mem other =
      serve-keys now i j _ w w' resp h mem (rw about other)
  work-keys now (room_aliases_job i p s) id j w w' resp about h mem other =
      serve-keys now i j _ w w' resp h mem (rw about other)
  work-keys now (room_members_job i p s) id j w w' resp about h mem other =
      serve-keys now i j _ w w' resp h mem (rw about other)
  work-keys now (room_member_info_job i m) id j w w' resp about h mem other =
      serve-keys now i j _ w w' resp h mem (rw about other)
  work-keys now (room_power_levels_job i) id j w w' resp about h mem other =
      serve-keys now i j answer_power_levels w w' resp h mem (rw about other)
  work-keys now (room_events_job i a o s) id j w w' resp about h mem other =
      serve-keys now i j _ w w' resp h mem (rw about other)
  work-keys now room_forward_paginate_job id j w w' resp about h mem other =
      discard-mem now j w.rooms (
        subst (Mem j) (forward_paginate_rooms-keys sorter unmarshal messages (discard now w.rooms))
          (subst (λ (x : Worker). Mem j (keys x.rooms)) (sym (some_room _ h)) mem))

  module _ (hash : Text → ℕ) where
    -- Running a job of a room at the worker that the room's hash leads to keeps every room with its
    -- worker.
    pub run_for_room-IsSharded :
        (now : ℕ) (id : Text) (job : Job) (ws ws' : Workers) (resp : JobResp)
        → IsAbout id job
        → IsSharded hash ws
        → run_for_room hash sorter unmarshal messages sync now id job ws ≡ some (ws', resp)
        → IsSharded hash ws'
    unfolding run_for_room get_worker_for_room_id
    run_for_room-IsSharded now id job ws ws' resp about sharded h =
        let ((n, v), chosen, h₁) = bind_some (get_worker_for_room_id hash id ws) _ h in
        let ((v', a), ran, h₂) = bind_some (work sorter unmarshal messages sync now job v) _ h₁ in
        let (remainder, found) = get_worker_for_room_id_lem hash id ws n v chosen in
        let new_keys : (i : Text) → Mem i (keys v'.rooms) → i ≢ id → Mem i (keys v.rooms) =
          λ i. work-keys now job id i v v' a about ran in
        subst (IsSharded hash) (some_room _ h₂)
          (set_worker-IsSharded hash id ws n v v' remainder found sharded new_keys)
