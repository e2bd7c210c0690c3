-- ===== src/Worker/Channels.antt =====
-- src/github.com/t3chguy/matrix-static/workers.go: the two unbuffered channels of a worker, between
-- its loop in `Start` and the goroutines of the handlers, as a step relation. A handler sends a job on
-- `Queue` and then reads `Output`; the paginator only sends. A panic ends the process: no step.
pub mod Safety
pub mod Progress
use matrix_static.Prelude.{
  ℕ, zero, suc, ◌+◌, ◌-◌, ◌*◌, ◌/◌, ◌%◌, ◌^◌, ◌≤◌, ◌<◌, ◌≡◌, refl, sym, ap, ap₂, ◌∙◌, subst, ◌≢◌,
  ◌↔◌, ◌⊎◌, inl, inr, Bool, true, false, not, ◌&&◌, ◌||◌, Option, none, some, List, [], ◌∷◌, ◌++◌,
  map, reverse, arith, ltb, leb, ◌==◌, if◌then◌else◌, ==_iff, Bool-cases, Option-cases, if_cases,
  ◌>>=◌, length, get_elem?, take, drop, last?, keep, All, length-append, length-take, length-drop,
  length-keep-le, take-append-drop, drop-drop, take-take_add, drop-append, keep-append, All-append,
  ℤ, pos, negsuc, pos_part, neg_part, sub_ℕ, ◌+ℤ◌, ◌-ℤ◌, ◌*ℤ◌, ◌≤ℤ◌, ◌<ℤ◌, ltb_ℤ, eqb_ℤ, eqb_ℤ_iff,
  IsInt64, wrap64, wrap64_of_IsInt64, wrap64-IsInt64, add64, sub64, mul64, neg64, Text, codes,
  text_eq, text_lt, text_eq_refl, text_eq_iff, text_lt_irrefl, text_lt_trans, text_lt_antisymm,
}
use matrix_static.Gomatrix.{Content, Result}
use matrix_static.Sort.{Sorter}
use matrix_static.State.{PowerLevels, Client}
use matrix_static.Timeline.{RespInitialSync, Messages}
use matrix_static.Worker.{Worker, Job, JobResp, done, room_forward_paginate_job, work}
use matrix_static.Worker.Answers.{is_request}

-- Where a handler's goroutine stands with this worker: not blocked, with the last answer if there was
-- one; blocked on `Queue <- job`; or blocked on `<-Output`, having sent the job.
pub data Phase : Type 0 where
  rests : Phase
  got : Job → JobResp → Phase
  asks : Job → Phase
  waits : Job → Phase

-- `output` is the response on which the loop of `Start` is blocked, if it is.
pub record System : Type 0 where
  pub worker : Worker
  pub output : Option JobResp
  pub clients : ℕ → Phase

unfoldable pub set_client : ℕ → Phase → (ℕ → Phase) → ℕ → Phase
set_client c phase clients d = if d == c then phase else clients d

abbrev pub is_free : Phase → Bool
is_free rests = true
is_free (got _ _) = true
is_free _ = false

module _ (sorter : Sorter) (unmarshal : Content → Option PowerLevels) (messages : Messages)
    (sync : Text → ℤ → Result RespInitialSync) where
  -- The steps: a handler goes on to its next job; the worker takes a job and runs it up to
  -- `Output <-`; one of the goroutines that read `Output` gets the response; the worker takes a
  -- forward paginate job, which sends nothing.
  pub data Step (s : System) (t : System) : Type 0 where
    ask :
        (c : ℕ) (job : Job)
        → is_free (s.clients c) ≡ true
        → is_request job ≡ true
        → t ≡ record s { clients = set_client c (asks job) s.clients }
        → Step s t
    accept :
        (c : ℕ) (job : Job) (now : ℕ) (w : Worker) (resp : JobResp)
        → s.output ≡ none
        → s.clients c ≡ asks job
        → work sorter unmarshal messages sync now job s.worker ≡ some (w, resp)
        → t
          ≡ record { worker = w; output = some resp; clients = set_client c (waits job) s.clients }
        → Step s t
    deliver :
        (c : ℕ) (job : Job) (resp : JobResp)
        → s.output ≡ some resp
        → s.clients c ≡ waits job
        → t ≡ record s { output = none; clients = set_client c (got job resp) s.clients }
        → Step s t
    paginate :
        (now : ℕ) (w : Worker)
        → s.output ≡ none
        → work sorter unmarshal messages sync now room_forward_paginate_job s.worker
          ≡ some (w, done)
        → t ≡ record s { worker = w }
        → Step s t

  pub data Reach (s : System) : System → Type 0 where
    here : Reach s s
    next : {t u : System} → Reach s t → Step t u → Reach s u

-- The system when the worker has just been started.
unfoldable pub started : Worker → System
started w = record { worker = w; output = none; clients = λ c. rests }
