-- ===== src/Worker/Pool/Reach.antt =====
-- All the workers under any sequence of requests and rounds of the forward paginator.
use mathlib.Core.List.{Mem, Nodup-nil}
use matrix_static.Prelude.{
  ℕ, zero, suc, ◌≡◌, refl, sym, subst, inl, inr, Option, some, List, [], ◌∷◌, get_elem?, ℤ, Text,
}
use matrix_static.Prelude.Maps.{keys}
use matrix_static.Gomatrix.{Content, Result}
use matrix_static.Sort.{Sorter}
use matrix_static.State.{PowerLevels, Client}
use matrix_static.Timeline.{RespInitialSync, Messages}
use matrix_static.Worker.{Worker, Job, JobResp, work, room_forward_paginate_job, discard}
use matrix_static.Worker.Rooms.{bind_some, some_room}
use matrix_static.Worker.Serving.{
  IsServing, work-IsServing, discard-mem, forward_paginate_rooms-keys,
}
use matrix_static.Worker.Pool.{
  Workers, new_worker, workers_from, new_workers, set_worker, get_worker_for_room_id, run_for_room,
  run_for_all,
}
use matrix_static.Worker.Pool.Sharding.{
  IsSharded, IsAbout, new_workers-IsSharded, run_for_room-IsSharded, get_elem-set_worker,
  get_worker_for_room_id_lem,
}

-- Every worker's rooms are as they should be, and every room is with the worker of its hash.
pub record IsSound (hash : Text → ℕ) (ws : Workers) : Type 0 where
  pub sharded : IsSharded hash ws
  pub serving : (k : ℕ) (w : Worker) → get_elem? ws.workers k ≡ some w → IsServing w.rooms

new_worker-IsServing :
    (i n k : ℕ) (client : Client) (w : Worker)
    → get_elem? (workers_from i n client) k ≡ some w
    → IsServing w.rooms
unfolding workers_from new_worker
new_worker-IsServing i zero k client w h = absurd (cc)
new_worker-IsServing i (suc n) zero client w h =
    let e : record { id = i; client = client; rooms = [] } ≡ w = cc in
    subst (λ (x : Worker). IsServing x.rooms) e (record { rooms_IsMap = Nodup-nil; held = tt })
new_worker-IsServing i (suc n) (suc k) client w h = new_worker-IsServing (suc i) n k client w h

pub new_workers-IsSound :
    (hash : Text → ℕ) (n : ℕ) (client : Client) → IsSound hash (new_workers n client)
unfolding new_workers
new_workers-IsSound hash n client = record {
  sharded = new_workers-IsSharded hash n client;
  serving = λ k w h. new_worker-IsServing 0 n k client w h;
}

module _ (sorter : Sorter) (unmarshal : Content → Option PowerLevels) (messages : Messages)
    (sync : Text → ℤ → Result RespInitialSync) where
  -- After a round every worker has run the job.
  run_for_all-each :
      (hash : Text → ℕ) (now : ℕ) (job : Job) (ws ws' : List Worker) (k : ℕ) (w' : Worker)
      → run_for_all hash sorter unmarshal messages sync now job ws ≡ some ws'
      → get_elem? ws' k ≡ some w'
      → (w : Worker) × (resp : JobResp) × (get_elem? ws k ≡ some w)
        × (work sorter unmarshal messages sync now job w ≡ some (w', resp))
  unfolding run_for_all
  run_for_all-each hash now job [] ws' k w' h at_k =
      let e : [] ≡ ws' = cc in absurd (cc (subst (λ l. get_elem? l k ≡ some w') (sym e) at_k))
  run_for_all-each hash now job (w ∷ ws) ws' zero w' h at_k =
      let ((v, resp), ran, h₁) = bind_some (work sorter unmarshal messages sync now job w) _ h in
      let (rest, _, h₂) =
        bind_some (run_for_all hash sorter unmarshal messages sync now job ws) _ h₁ in
      let e : v ∷ rest ≡ ws' = cc in
      let found : some v ≡ some w' = subst (λ l. get_elem? l 0 ≡ some w') (sym e) at_k in
      let same : v ≡ w' = cc in
      (
        w,
        resp,
        refl,
        subst (λ x. work sorter unmarshal messages sync now job w ≡ some (x, resp)) same ran,
      )
  run_for_all-each hash now job (w ∷ ws) ws' (suc k) w' h at_k =
      let ((v, resp), ran, h₁) = bind_some (work sorter unmarshal messages sync now job w) _ h in
      let (rest, later, h₂) =
        bind_some (run_for_all hash sorter unmarshal messages sync now job ws) _ h₁ in
      let e : v ∷ rest ≡ ws' = cc in
      run_for_all-each hash now job ws rest k w' later
        (subst (λ l. get_elem? l (suc k) ≡ some w') (sym e) at_k)

  forward-keys :
      (now : ℕ) (j : Text) (w w' : Worker) (resp : JobResp)
      → work sorter unmarshal messages sync now room_forward_paginate_job w ≡ some (w', resp)
      → Mem j (keys w'.rooms)
      → Mem j (keys w.rooms)
  unfolding work
  forward-keys now j w w' resp h mem = discard-mem now j w.rooms (
      subst (Mem j) (forward_paginate_rooms-keys sorter unmarshal messages (discard now w.rooms))
        (subst (λ (x : Worker). Mem j (keys x.rooms)) (sym (some_room _ h)) mem))

  -- What happens to the pool: a job of a room, at the worker of that room, or a round of the forward
  -- paginator.
  pub data PoolStep (hash : Text → ℕ) (ws : Workers) (t : Workers) : Type 0 where
    request :
        (now : ℕ) (id : Text) (job : Job) (resp : JobResp)
        → IsAbout id job
        → run_for_room hash sorter unmarshal messages sync now id job ws ≡ some (t, resp)
        → PoolStep hash ws t
    round :
        (now : ℕ) (workers : List Worker)
        → run_for_all hash sorter unmarshal messages sync now room_forward_paginate_job ws.workers
          ≡ some workers
        → t ≡ record ws { workers = workers }
        → PoolStep hash ws t

  pub data PoolReach (hash : Text → ℕ) (ws : Workers) : Workers → Type 0 where
    made : PoolReach hash ws ws
    after : {t u : Workers} → PoolReach hash ws t → PoolStep hash t u → PoolReach hash ws u

  round-IsSound :
      (hash : Text → ℕ) (now : ℕ) (ws : Workers) (workers : List Worker)
      → IsSound hash ws
      → run_for_all hash sorter unmarshal messages sync now room_forward_paginate_job ws.workers
        ≡ some workers
      → IsSound hash (record ws { workers = workers })
  round-IsSound hash now ws workers v h = record {
    sharded = record {
      placed = λ k w' id at_k mem.
          let (w, resp, found, ran) =
            run_for_all-each hash now room_forward_paginate_job ws.workers workers k w' h at_k in
          v.sharded.placed k w id found (forward-keys now id w w' resp ran mem);
    };
    serving = λ k w' at_k.
        let (w, resp, found, ran) =
          run_for_all-each hash now room_forward_paginate_job ws.workers workers k w' h at_k in
        work-IsServing sorter unmarshal messages sync now room_forward_paginate_job w w' resp
          (v.serving k w found) ran;
  }

  set_worker-IsServing :
      (ws : List Worker) (n : ℕ) (v : Worker)
      → IsServing v.rooms
      → ((k : ℕ) (w : Worker) → get_elem? ws k ≡ some w → IsServing w.rooms)
      → (k : ℕ) (w : Worker) → get_elem? (set_worker ws n v) k ≡ some w
      → IsServing w.rooms
  set_worker-IsServing ws n v new old k w h = elim (get_elem-set_worker ws n k v w h) [
    | inl (_, same) ↦ subst (λ (x : Worker). IsServing x.rooms) (sym same) new
    | inr there ↦ old k w there
  ]

  request-IsSound :
      (hash : Text → ℕ) (now : ℕ) (id : Text) (job : Job) (ws t : Workers) (resp : JobResp)
      → IsAbout id job
      → IsSound hash ws
      → run_for_room hash sorter unmarshal messages sync now id job ws ≡ some (t, resp)
      → IsSound hash t
  unfolding run_for_room
  request-IsSound hash now id job ws t resp about v h =
      let ((n, w), chosen, h₁) = bind_some (get_worker_for_room_id hash id ws) _ h in
      let ((w', a), ran, h₂) = bind_some (work sorter unmarshal messages sync now job w) _ h₁ in
      let (_, found) = get_worker_for_room_id_lem hash id ws n w chosen in
      record {
        sharded =
            run_for_room-IsSharded sorter unmarshal messages sync hash now id job ws t resp about
              v.sharded h;
        serving =
            subst
              (λ (x : Workers).
                (k : ℕ) (u : Worker) → get_elem? x.workers k ≡ some u → IsServing u.rooms)
              (some_room _ h₂)
              (set_worker-IsServing ws.workers n w'
                (work-IsServing sorter unmarshal messages sync now job w w' a (v.serving n w found)
                  ran)
                v.serving);
      }

  PoolStep-IsSound :
      (hash : Text → ℕ) {ws t : Workers} → PoolStep hash ws t → IsSound hash ws → IsSound hash t
  PoolStep-IsSound hash {ws} {t} (request now id job resp about h) v =
      request-IsSound hash now id job ws t resp about v h
  PoolStep-IsSound hash {ws} {t} (round now workers h e) v =
      subst (IsSound hash) (sym e) (round-IsSound hash now ws workers v h)

  pub PoolReach-IsSound :
      (hash : Text → ℕ) {ws t : Workers} → IsSound hash ws → PoolReach hash ws t → IsSound hash t
  PoolReach-IsSound hash v made = v
  PoolReach-IsSound hash v (after r step) = PoolStep-IsSound hash step (PoolReach-IsSound hash v r)

  -- Whatever requests and rounds a newly made pool has run: every worker's rooms are as they should
  -- be, and no room is in the memory of two workers.
  pub room_of_one_worker :
      (hash : Text → ℕ) (n : ℕ) (client : Client) (ws : Workers) (k l : ℕ) (v w : Worker)
      (id : Text)
      → PoolReach hash (new_workers n client) ws
      → get_elem? ws.workers k ≡ some v
      → get_elem? ws.workers l ≡ some w
      → Mem id (keys v.rooms)
      → Mem id (keys w.rooms)
      → (k ≡ l) × IsServing v.rooms
  room_of_one_worker hash n client ws k l v w id r at_k at_l in_v in_w =
      let sound = PoolReach-IsSound hash (new_workers-IsSound hash n client) r in
      let here_k = sound.sharded.placed k v id at_k in_v in
      let here_l = sound.sharded.placed l w id at_l in_w in
      (cc (here_k, here_l), sound.serving k v at_k)
