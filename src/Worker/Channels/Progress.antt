-- ===== src/Worker/Channels/Progress.antt =====
-- No handler is kept from its answer by the channels alone.
use matrix_static.Prelude.{
  ℕ, ◌≡◌, refl, sym, ap, ◌∙◌, inl, inr, Bool, true, false, Option, none, some, ◌==◌, ==_iff,
  Bool-cases, Option-cases, ℤ, Text,
}
use matrix_static.Gomatrix.{Content, Result}
use matrix_static.Sort.{Sorter}
use matrix_static.State.{PowerLevels}
use matrix_static.Timeline.{RespInitialSync, Messages}
use matrix_static.Worker.{Worker, Job, JobResp, work}
use matrix_static.Worker.Serving.{IsServing}
use matrix_static.Worker.Channels.{
  got, asks, waits, System, set_client, Step, accept, deliver, Reach, started,
}
use matrix_static.Worker.Channels.Safety.{
  Answered, started-IsOrderly, Reach-IsOrderly, set_client_same, set_client_other,
}

module _ (sorter : Sorter) (unmarshal : Content → Option PowerLevels) (messages : Messages)
    (sync : Text → ℤ → Result RespInitialSync) where
  -- The steps of the worker's loop: it takes a job from a handler and runs it, or its response is read.
  abbrev pub is_loop : {s t : System} → Step sorter unmarshal messages sync s t → Bool
  is_loop (accept c job now w resp idle asking ran e) = true
  is_loop (deliver c job resp ready waiting e) = true
  is_loop _ = false

  -- A run of such steps alone: no handler asks for anything new, and the paginator does nothing.
  pub data LoopReach (s : System) : System → Type 0 where
    stays : LoopReach s s
    loops :
        {t u : System}
        → LoopReach s t
        → (step : Step sorter unmarshal messages sync t u) → is_loop step ≡ true
        → LoopReach s u

  -- With the worker idle: two steps.
  idle-got :
      (s : System) (c : ℕ) (job : Job) (now : ℕ) (w : Worker) (resp : JobResp)
      → s.output ≡ none
      → s.clients c ≡ asks job
      → work sorter unmarshal messages sync now job s.worker ≡ some (w, resp)
      → (t : System) × LoopReach s t × (t.clients c ≡ got job resp)
  idle-got s c job now w resp idle asking ran =
      let taken : System = record {
        worker = w;
        output = some resp;
        clients = set_client c (waits job) s.clients;
      } in
      (
        record taken { output = none; clients = set_client c (got job resp) taken.clients },
        loops (loops stays (accept c job now w resp idle asking ran refl) refl)
            (deliver c job resp refl (set_client_same c (waits job) s.clients) refl) refl,
        set_client_same c (got job resp) taken.clients,
      )

  LoopReach-trans : {s t u : System} → LoopReach s t → LoopReach t u → LoopReach s u
  LoopReach-trans r stays = r
  LoopReach-trans r (loops q step e) = loops (LoopReach-trans r q) step e

  -- In every state that can be reached from a worker that starts with its rooms as they should
  -- be, whoever else waits or asks: for a handler that has asked, and whose job does not panic on
  -- the worker's rooms as they are, there is a run of steps of the worker's loop alone, in which the
  -- worker takes jobs from handlers and its responses are read, after which the handler has the
  -- response to its job.
  pub asks-got :
      (w₀ : Worker) (s : System) (c : ℕ) (job : Job) (now : ℕ) (w : Worker) (resp : JobResp)
      → IsServing w₀.rooms
      → Reach sorter unmarshal messages sync (started w₀) s
      → s.clients c ≡ asks job
      → work sorter unmarshal messages sync now job s.worker ≡ some (w, resp)
      → (t : System) × LoopReach s t × (t.clients c ≡ got job resp)
  asks-got w₀ s c job now w resp v r asking ran = elim (Option-cases s.output) [
    | inl idle ↦ idle-got s c job now w resp idle asking ran
    | inr (earlier, ready) ↦
        let orderly =
          Reach-IsOrderly sorter unmarshal messages sync
            (started-IsOrderly (Answered sorter unmarshal messages sync) w₀ v) r in
        let (d, j, waiting) = orderly.awaited earlier ready in
        let rest : System = record s {
          output = none;
          clients = set_client d (got j earlier) s.clients;
        } in
        let other : (c == d) ≡ false = elim (Bool-cases (c == d)) [
          | inr e ↦ e
          | inl e ↦
              let clash : asks job ≡ waits j =
                sym asking ∙ ap s.clients ((==_iff c d).0 e) ∙ waiting in
              cc (clash)
        ] in
        let (t, run, answered) =
          idle-got rest c job now w resp refl
            (set_client_other d c (got j earlier) s.clients other ∙ asking) ran in
        (
          t,
          LoopReach-trans (loops stays (deliver d j earlier ready waiting refl) refl) run,
          answered,
        )
  ]
