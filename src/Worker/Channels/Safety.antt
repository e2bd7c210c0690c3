-- ===== src/Worker/Channels/Safety.antt =====
-- Every handler gets the answer to its own job.
use matrix_static.Prelude.{
  ℕ, ◌≡◌, refl, sym, ap, ◌∙◌, subst, ◌⊎◌, inl, inr, true, false, Option, none, some, ◌==◌, ==_iff,
  Bool-cases, ℤ, Text,
}
use matrix_static.Gomatrix.{Content, Result}
use matrix_static.Sort.{Sorter}
use matrix_static.State.{PowerLevels}
use matrix_static.Timeline.{RespInitialSync, Messages}
use matrix_static.Worker.{Worker, Job, JobResp, done, room_forward_paginate_job, work}
use matrix_static.Worker.Answers.{is_request, IsAnswer, work-IsAnswer}
use matrix_static.Worker.Serving.{IsServing, work-IsServing}
use matrix_static.Worker.Channels.{
  Phase, rests, got, asks, waits, System, set_client, is_free, Step, ask, accept, deliver, paginate,
  Reach, here, next, started,
}

-- What the phase of one handler says, beside the response that is on its way.
abbrev pub IsSound : (Job → JobResp → Type 0) → Option JobResp → Phase → Type 0
IsSound A output rests = Unit
IsSound A output (got job resp) = A job resp
IsSound A output (asks job) = is_request job ≡ true
IsSound A output (waits job) = (resp : JobResp) × (output ≡ some resp) × A job resp

-- The rooms are as they should be, every handler's phase is sound, no two handlers wait for the same
-- response, and a response on its way is waited for.
pub record IsOrderly (A : Job → JobResp → Type 0) (s : System) : Type 0 where
  pub serving : IsServing s.worker.rooms
  pub sound : (c : ℕ) → IsSound A s.output (s.clients c)
  pub single : (c d : ℕ) (i j : Job) → s.clients c ≡ waits i → s.clients d ≡ waits j → c ≡ d
  pub awaited :
      (resp : JobResp) → s.output ≡ some resp → (c : ℕ) × (j : Job) × (s.clients c ≡ waits j)

pub started-IsOrderly :
    (A : Job → JobResp → Type 0) (w : Worker) → IsServing w.rooms → IsOrderly A (started w)
unfolding started
started-IsOrderly A w v = record {
  serving = v;
  sound = λ c. tt;
  single = λ c d i j h k. cc (h);
  awaited = λ resp h. cc (h);
}

pub set_client_same : (c : ℕ) (p : Phase) (f : ℕ → Phase) → set_client c p f c ≡ p
unfolding set_client
set_client_same c p f = let e : (c == c) ≡ true = (==_iff c c).1 refl in rw e refl

pub set_client_other :
    (c d : ℕ) (p : Phase) (f : ℕ → Phase) → (d == c) ≡ false → set_client c p f d ≡ f d
unfolding set_client
set_client_other c d p f h = rw h refl

module _ (c : ℕ) (p : Phase) (f : ℕ → Phase) where
  -- A statement about every handler, after one has changed.
  set_client_all :
      (P : ℕ → Phase → Type 0)
      → P c p
      → ((d : ℕ) → (d == c) ≡ false → P d (f d))
      → (d : ℕ) → P d (set_client c p f d)
  set_client_all P new old d = elim (Bool-cases (d == c)) [
    | inl e ↦
        let same : d ≡ c = (==_iff d c).0 e in
        subst (λ x. P x (set_client c p f x)) (sym same) (rw (set_client_same c p f) new)
    | inr e ↦ rw (set_client_other c d p f e) (old d e)
  ]

waits-set_client :
    (c d : ℕ) (p : Phase) (f : ℕ → Phase) {j : Job}
    → set_client c p f d ≡ waits j
    → ((d ≡ c) × (p ≡ waits j)) ⊎ (((d == c) ≡ false) × (f d ≡ waits j))
waits-set_client c d p f h = elim (Bool-cases (d == c)) [
  | inl e ↦
      let same : d ≡ c = (==_iff d c).0 e in inl (same, sym (set_client_same c p f) ∙ rw same at h)
  | inr e ↦ inr (e, sym (set_client_other c d p f e) ∙ h)
]

module _ (A : Job → JobResp → Type 0) where
  -- Without a response on its way no handler waits, and the phases are sound whatever comes next.
  IsSound-none : (output : Option JobResp) (p : Phase) → IsSound A none p → IsSound A output p
  IsSound-none output rests h = h
  IsSound-none output (got job resp) h = h
  IsSound-none output (asks job) h = h
  IsSound-none output (waits job) (resp, e, a) = absurd (cc (e))

  not_waiting : (p : Phase) {j : Job} → IsSound A none p → ¬ (p ≡ waits j)
  not_waiting p {j} h e = let (resp, q, a) = subst (IsSound A none) e h in cc (q)

  -- A handler that does not wait does not mind that the response is gone.
  IsSound-taken :
      (resp : JobResp) (p : Phase)
      → ((j : Job) → ¬ (p ≡ waits j))
      → IsSound A (some resp) p
      → IsSound A none p
  IsSound-taken resp rests idle h = h
  IsSound-taken resp (got job r) idle h = h
  IsSound-taken resp (asks job) idle h = h
  IsSound-taken resp (waits job) idle h = absurd (idle job refl)

  same-IsAnswer :
      (resp : JobResp) (job : Job) (p : Phase)
      → p ≡ waits job
      → IsSound A (some resp) p
      → A job resp
  same-IsAnswer resp job p e h =
      let (r, q, a) = subst (IsSound A (some resp)) e h in
      let same : r ≡ resp = cc in subst (A job) same a

  same_request :
      (o : Option JobResp) (job : Job) (p : Phase)
      → p ≡ asks job
      → IsSound A o p
      → is_request job ≡ true
  same_request o job p e h = subst (IsSound A o) e h

module _ (sorter : Sorter) (unmarshal : Content → Option PowerLevels) (messages : Messages)
    (sync : Text → ℤ → Result RespInitialSync) where
  -- The response answers the job from the rooms of a worker with its rooms as they should be.
  abbrev pub Answered : Job → JobResp → Type 0
  Answered job resp =
      (w : Worker) × IsServing w.rooms × IsAnswer sorter unmarshal messages sync w.rooms job resp

  ask-IsOrderly :
      (s : System) (c : ℕ) (job : Job)
      → IsOrderly Answered s
      → is_free (s.clients c) ≡ true
      → is_request job ≡ true
      → IsOrderly Answered (record s { clients = set_client c (asks job) s.clients })
  ask-IsOrderly s c job v free request = record {
    serving = v.serving;
    sound =
        set_client_all c (asks job) s.clients (λ _ p. IsSound Answered s.output p) request
          (λ d _. v.sound d);
    single = λ a b i j h k. elim (waits-set_client c a (asks job) s.clients h) [
      | inl (_, e) ↦ cc (e)
      | inr (_, h') ↦ elim (waits-set_client c b (asks job) s.clients k) [
        | inl (_, e) ↦ cc (e)
        | inr (_, k') ↦ v.single a b i j h' k'
      ]
    ];
    awaited = λ resp e.
        let (a, j, w) = v.awaited resp e in
        elim (Bool-cases (a == c)) [
          | inl same ↦
              let q : s.clients c ≡ waits j =
                subst (λ x. s.clients x ≡ waits j) ((==_iff a c).0 same) w in
              absurd (cc (ap is_free q, free))
          | inr other ↦ (a, j, set_client_other c a (asks job) s.clients other ∙ w)
        ];
  }

  accept-IsOrderly :
      (s : System) (c : ℕ) (job : Job) (now : ℕ) (w : Worker) (resp : JobResp)
      → IsOrderly Answered s
      → s.output ≡ none
      → s.clients c ≡ asks job
      → work sorter unmarshal messages sync now job s.worker ≡ some (w, resp)
      → IsOrderly Answered
          (record { worker = w; output = some resp; clients = set_client c (waits job) s.clients })
  accept-IsOrderly s c job now w resp v idle asking ran =
      let request = same_request Answered s.output job (s.clients c) asking (v.sound c) in
      let answer : Answered job resp = (
        s.worker,
        v.serving,
        work-IsAnswer sorter unmarshal messages sync now job s.worker w resp v.serving request ran,
      ) in
      let quiet : (d : ℕ) → IsSound Answered none (s.clients d) =
        λ d. subst (λ o. IsSound Answered o (s.clients d)) idle (v.sound d) in
      record {
        serving =
            work-IsServing sorter unmarshal messages sync now job s.worker w resp v.serving ran;
        sound =
            set_client_all c (waits job) s.clients (λ _ p. IsSound Answered (some resp) p)
              (resp, refl, answer)
              (λ d _. IsSound-none Answered (some resp) (s.clients d) (quiet d));
        single = λ a b i j h k. elim (waits-set_client c a (waits job) s.clients h) [
          | inr (_, h') ↦ absurd (not_waiting Answered (s.clients a) (quiet a) h')
          | inl (e, _) ↦ elim (waits-set_client c b (waits job) s.clients k) [
            | inr (_, k') ↦ absurd (not_waiting Answered (s.clients b) (quiet b) k')
            | inl (e', _) ↦ e ∙ sym e'
          ]
        ];
        awaited = λ r e. (c, job, set_client_same c (waits job) s.clients);
      }

  deliver-IsOrderly :
      (s : System) (c : ℕ) (job : Job) (resp : JobResp)
      → IsOrderly Answered s
      → s.output ≡ some resp
      → s.clients c ≡ waits job
      → IsOrderly Answered
          (record s { output = none; clients = set_client c (got job resp) s.clients })
  deliver-IsOrderly s c job resp v ready waiting =
      let full : (d : ℕ) → IsSound Answered (some resp) (s.clients d) =
        λ d. subst (λ o. IsSound Answered o (s.clients d)) ready (v.sound d) in
      record {
        serving = v.serving;
        sound =
            set_client_all c (got job resp) s.clients (λ _ p. IsSound Answered none p)
              (same-IsAnswer Answered resp job (s.clients c) waiting (full c))
              (λ d other.
                IsSound-taken Answered resp (s.clients d)
                  (λ j w. cc (other, (==_iff d c).1 (v.single d c j job w waiting))) (full d));
        single = λ a b i j h k. elim (waits-set_client c a (got job resp) s.clients h) [
          | inl (_, e) ↦ cc (e)
          | inr (_, h') ↦ elim (waits-set_client c b (got job resp) s.clients k) [
            | inl (_, e) ↦ cc (e)
            | inr (_, k') ↦ v.single a b i j h' k'
          ]
        ];
        awaited = λ r e. cc (e);
      }

  Step-IsOrderly :
      {s t : System}
      → Step sorter unmarshal messages sync s t
      → IsOrderly Answered s
      → IsOrderly Answered t
  Step-IsOrderly {s} (ask c job free request e) v =
      subst (IsOrderly Answered) (sym e) (ask-IsOrderly s c job v free request)
  Step-IsOrderly {s} (accept c job now w resp idle asking ran e) v =
      subst (IsOrderly Answered) (sym e) (accept-IsOrderly s c job now w resp v idle asking ran)
  Step-IsOrderly {s} (deliver c job resp ready waiting e) v =
      subst (IsOrderly Answered) (sym e) (deliver-IsOrderly s c job resp v ready waiting)
  Step-IsOrderly {s} (paginate now w idle ran e) v = subst (IsOrderly Answered) (sym e) (record {
    serving =
        work-IsServing sorter unmarshal messages sync now room_forward_paginate_job s.worker w done
          v.serving ran;
    sound = v.sound;
    single = v.single;
    awaited = v.awaited;
  })

  pub Reach-IsOrderly :
      {s t : System}
      → IsOrderly Answered s
      → Reach sorter unmarshal messages sync s t
      → IsOrderly Answered t
  Reach-IsOrderly v here = v
  Reach-IsOrderly v (next r step) = Step-IsOrderly step (Reach-IsOrderly v r)
