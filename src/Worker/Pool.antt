-- ===== src/Worker/Pool.antt =====
-- src/github.com/t3chguy/matrix-static/workers.go: the workers, and which of them a room belongs to.
pub mod Sharding
pub mod Reach
pub mod Shape
pub mod Hash
use matrix_static.Prelude.{
  ℕ, zero, suc, ◌+◌, ◌-◌, ◌*◌, ◌/◌, ◌%◌, ◌^◌, ◌≤◌, ◌<◌, ◌≡◌, refl, sym, ap, ap₂, ◌∙◌, subst, ◌≢◌,
  ◌↔◌, ◌⊎◌, inl, inr, Bool, true, false, not, ◌&&◌, ◌||◌, Option, none, some, List, [], ◌∷◌, ◌++◌,
  map, reverse, arith, ltb, leb, ◌==◌, if◌then◌else◌, ==_iff, Bool-cases, Option-cases, if_cases,
  ◌>>=◌, length, get_elem?, take, drop, last?, keep, All, length-append, length-take, length-drop,
  length-keep-le, take-append-drop, drop-drop, take-take_add, drop-append, keep-append, All-append,
  ℤ, pos, negsuc, pos_part, neg_part, sub_ℕ, ◌+ℤ◌, ◌-ℤ◌, ◌*ℤ◌, ◌≤ℤ◌, ◌<ℤ◌, ltb_ℤ, eqb_ℤ, eqb_ℤ_iff,
  IsInt64, wrap64, wrap64_of_IsInt64, wrap64-IsInt64, add64, sub64, mul64, neg64, Text, codes,
  text_eq, text_lt, text_eq_refl, text_eq_iff, text_lt_irrefl, text_lt_trans, text_lt_antisymm,
}
use matrix_static.Gomatrix.{Content, Result}
use matrix_static.Sort.{Sorter}
use matrix_static.State.{PowerLevels, Client}
use matrix_static.Timeline.{RespInitialSync, Messages}
use matrix_static.Worker.{Worker, Job, JobResp, work}

pub record Workers : Type 0 where
  pub num_workers : ℕ
  pub workers : List Worker

unfoldable pub new_worker : ℕ → Client → Worker
new_worker id client = record { id = id; client = client; rooms = [] }

-- The loop of `NewWorkers`, from the worker `i` on.
unfoldable pub workers_from : ℕ → ℕ → Client → List Worker
unfolding new_worker
workers_from i zero client = []
workers_from i (suc n) client = new_worker i client ∷ workers_from (suc i) n client

unfoldable pub new_workers : ℕ → Client → Workers
unfolding workers_from
new_workers num_workers client = record {
  num_workers = num_workers;
  workers = workers_from 0 num_workers client;
}

-- The difference and the product of two `uint32`.
unfoldable pub sub32 : ℕ → ℕ → ℕ
sub32 a b = ((a + 2 ^ 32) - b) % 2 ^ 32

unfoldable pub mul32 : ℕ → ℕ → ℕ
mul32 a b = (a * b) % 2 ^ 32

-- The division by zero panics.
unfoldable pub mod32 : ℕ → ℕ → Option ℕ
unfolding sub32 mul32
mod32 a zero = none
mod32 a (suc b) = some (sub32 a (mul32 (suc b) (a / suc b)))

-- The list with the worker at one index replaced: `GetWorkerForRoomID` returns a copy, but the copy
-- shares its channels and its map of rooms with the worker in the list.
unfoldable pub set_worker : List Worker → ℕ → Worker → List Worker
set_worker [] n w = []
set_worker (v ∷ ws) zero w = w ∷ ws
set_worker (v ∷ ws) (suc n) w = v ∷ set_worker ws n w

module _ (hash : Text → ℕ) where
  -- `GetWorkerForRoomID`: the index and the worker there; `none` is a run-time panic.
  unfoldable pub get_worker_for_room_id : Text → Workers → Option (ℕ × Worker)
  unfolding mod32
  get_worker_for_room_id room_id ws = do
    worker_id ← mod32 (hash room_id) ws.num_workers
    worker ← get_elem? ws.workers worker_id
    some (worker_id, worker)

  module _ (sorter : Sorter) (unmarshal : Content → Option PowerLevels) (messages : Messages)
      (sync : Text → ℤ → Result RespInitialSync) where
    -- A job sent to the worker of the room, and run there.
    unfoldable pub run_for_room : ℕ → Text → Job → Workers → Option (Workers × JobResp)
    unfolding get_worker_for_room_id set_worker work
    run_for_room now room_id job ws = do
      (worker_id, worker) ← get_worker_for_room_id room_id ws
      (worker', resp) ← work sorter unmarshal messages sync now job worker
      some (record ws { workers = set_worker ws.workers worker_id worker' }, resp)

    -- `JobForAllWorkers`, each worker having run the job.
    unfoldable pub run_for_all : ℕ → Job → List Worker → Option (List Worker)
    unfolding work
    run_for_all now job [] = some []
    run_for_all now job (worker ∷ workers) = do
      (worker', resp) ← work sorter unmarshal messages sync now job worker
      rest ← run_for_all now job workers
      some (worker' ∷ rest)
