-- ===== src/Worker/Pool/Shape.antt =====
-- The pool has as many workers as it says, whatever it runs, so that each room has one.
use native.Mathlib.Nat.{mod-lt}
use matrix_static.Prelude.{
  ℕ, zero, suc, ◌%◌, ◌^◌, ◌<◌, ◌≡◌, refl, sym, ap, ◌∙◌, subst, Option, some, List, [], ◌∷◌, arith,
  length, get_elem?, ℤ, Text,
}
use matrix_static.Gomatrix.{Content, Result}
use matrix_static.Sort.{Sorter}
use matrix_static.State.{PowerLevels, Client}
use matrix_static.Timeline.{RespInitialSync, Messages}
use matrix_static.Worker.{Worker, Job, JobResp, work}
use matrix_static.Worker.Rooms.{bind_some, some_room}
use matrix_static.Worker.Pool.{
  Workers, workers_from, new_workers, set_worker, get_worker_for_room_id, run_for_room, run_for_all,
}
use matrix_static.Worker.Pool.Sharding.{mod32-eq}
use matrix_static.Worker.Pool.Reach.{PoolStep, PoolReach, request, round, made, after}

pub record IsFull (n : ℕ) (ws : Workers) : Type 0 where
  pub count : ws.num_workers ≡ n
  pub size : length ws.workers ≡ n

length-set_worker : (ws : List Worker) (k : ℕ) (w : Worker) → length (set_worker ws k w) ≡ length ws
unfolding set_worker
length-set_worker [] k w = refl
length-set_worker (v ∷ ws) zero w = refl
length-set_worker (v ∷ ws) (suc k) w = ap suc (length-set_worker ws k w)

length-workers_from : (i n : ℕ) (client : Client) → length (workers_from i n client) ≡ n
unfolding workers_from
length-workers_from i zero client = refl
length-workers_from i (suc n) client = ap suc (length-workers_from (suc i) n client)

pub new_workers-IsFull : (n : ℕ) (client : Client) → IsFull n (new_workers n client)
unfolding new_workers
new_workers-IsFull n client = record { count = refl; size = length-workers_from 0 n client }

get_elem-some :
    (ws : List Worker) (k : ℕ) → k < length ws → (w : Worker) × (get_elem? ws k ≡ some w)
get_elem-some [] k h = absurd (omega arith)
get_elem-some (w ∷ ws) zero h = (w, refl)
get_elem-some (w ∷ ws) (suc k) h = get_elem-some ws k (omega arith)

-- In a pool that is not empty, every room has its worker.
pub get_worker_for_room_id-full :
    (hash : Text → ℕ) (id : Text) (n : ℕ) (ws : Workers)
    → IsFull n ws
    → 0 < n
    → hash id < 2 ^ 32
    → (k : ℕ) × (w : Worker) × (get_worker_for_room_id hash id ws ≡ some (k, w))
unfolding get_worker_for_room_id
get_worker_for_room_id-full hash id n ws full some_worker small =
    let (w, found) =
      get_elem-some ws.workers (hash id % n) (rw full.size (mod-lt (hash id) some_worker)) in
    (hash id % n, w, rw (full.count, mod32-eq (hash id) n small some_worker, found) refl)

module _ (sorter : Sorter) (unmarshal : Content → Option PowerLevels) (messages : Messages)
    (sync : Text → ℤ → Result RespInitialSync) where
  length-run_for_all :
      (hash : Text → ℕ) (now : ℕ) (job : Job) (ws ws' : List Worker)
      → run_for_all hash sorter unmarshal messages sync now job ws ≡ some ws'
      → length ws' ≡ length ws
  unfolding run_for_all
  length-run_for_all hash now job [] ws' h = let e : [] ≡ ws' = cc in ap length (sym e)
  length-run_for_all hash now job (w ∷ ws) ws' h =
      let ((v, resp), ran, h₁) = bind_some (work sorter unmarshal messages sync now job w) _ h in
      let (rest, later, h₂) =
        bind_some (run_for_all hash sorter unmarshal messages sync now job ws) _ h₁ in
      let e : v ∷ rest ≡ ws' = cc in
      ap length (sym e) ∙ ap suc (length-run_for_all hash now job ws rest later)

  run_for_room-IsFull :
      (hash : Text → ℕ) (n now : ℕ) (id : Text) (job : Job) (ws t : Workers) (resp : JobResp)
      → IsFull n ws
      → run_for_room hash sorter unmarshal messages sync now id job ws ≡ some (t, resp)
      → IsFull n t
  unfolding run_for_room
  run_for_room-IsFull hash n now id job ws t resp full h =
      let ((k, w), chosen, h₁) = bind_some (get_worker_for_room_id hash id ws) _ h in
      let ((w', a), ran, h₂) = bind_some (work sorter unmarshal messages sync now job w) _ h₁ in
      subst (IsFull n) (some_room _ h₂)
        (record { count = full.count; size = length-set_worker ws.workers k w' ∙ full.size })

  PoolStep-IsFull :
      (hash : Text → ℕ) (n : ℕ) {ws t : Workers}
      → PoolStep sorter unmarshal messages sync hash ws t
      → IsFull n ws
      → IsFull n t
  PoolStep-IsFull hash n {ws} {t} (request now id job resp about h) full =
      run_for_room-IsFull hash n now id job ws t resp full h
  PoolStep-IsFull hash n {ws} {t} (round now workers h e) full = subst (IsFull n) (sym e) (record {
    count = full.count;
    size = length-run_for_all hash now _ ws.workers workers h ∙ full.size;
  })

  pub PoolReach-IsFull :
      (hash : Text → ℕ) (n : ℕ) {ws t : Workers}
      → IsFull n ws
      → PoolReach sorter unmarshal messages sync hash ws t
      → IsFull n t
  PoolReach-IsFull hash n full made = full
  PoolReach-IsFull hash n full (after r step) =
      PoolStep-IsFull hash n step (PoolReach-IsFull hash n full r)
