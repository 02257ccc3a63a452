-- ===== src/System/JobStatuses/Submitting.antt =====
-- The actions that the rounds of `scheduleMaintenanceJob` are made of keep the invariant of the
-- job statuses.
use vihara.Prelude.{
  ℕ, zero, suc, String, ◌≡◌, inl, inr, refl, false, some, none, Option, set, is_some, get_elem?,
  All-set, All-get_elem?, AllValues-insert,
}
use vihara.Api.{
  zero_time, Job, empty_maintenance_job, is_zero, MaintenanceStage, MaintenanceJob,
  MaintenanceJobStageStatus,
}
use vihara.Env.{Error, Result, ok, err, Result-cases, History, Env, State, pure, normal}
use vihara.Env.Clients.{now, event, update_mt_job_status, write_mt_job, create_job}
use vihara.Controller.Stages.{
  Handle, with_stages, assign, previous_finish, submit, submit_stage, act,
}
use vihara.System.Frames.{Untouched-refl}
use vihara.System.Frames.Nodes.{Untouched-drain_nodes, Untouched-uncordon_nodes}
use vihara.System.JobStatuses.{StageOk, JobOk, JobsLive}
use vihara.System.JobStatuses.Logic.{
  Safe, Any, Safe-pure, Safe-deref, Safe-if, Safe-bind, Safe-mono, Safe-Untouched,
}

-- An answer without an error has the status that was submitted.
abbrev pub Answers : MaintenanceJob → MaintenanceJob × Option Error → Type 0
Answers job (job', some x) = Unit
Answers job (job', none) = job'.status ≡ job.status

abbrev answer : Result MaintenanceJob → MaintenanceJob × Option Error
answer (ok job') = (job', none)
answer (err x) = (empty_maintenance_job, some x)

Safe-write :
    {s : State} (key : String) (job : MaintenanceJob)
    → JobOk job
    → JobsLive s
    → Safe (write_mt_job key job) Any s
unfolding write_mt_job
Safe-write {s} key job p l = record {
  same_mts = (refl, refl);
  live = record {
    submitted = l.submitted;
    cached = AllValues-insert JobOk key job s.mt_job_cache p l.cached;
  };
  post = tt;
}

Safe-assign :
    {s : State} (h : Handle) (job : MaintenanceJob)
    → JobOk job
    → JobsLive s
    → Safe (assign h job) Any s
unfolding assign
Safe-assign {s} h job p l =
    elim h.cached_as
      as (λ o. Safe (elim o [ none ↦ pure tt | some key ↦ write_mt_job key job ]) Any s) [
        | none ↦ Safe-pure tt tt l
        | some key ↦ Safe-write key job p l
      ]

Safe-finish :
    {s : State} (previous : MaintenanceJobStageStatus)
    → JobsLive s
    → Safe (elim previous.finished_at [ none ↦ pure zero_time | some t ↦ pure t ]) Any s
Safe-finish {s} previous l =
    elim previous.finished_at
      as (λ o. Safe (elim o [ none ↦ pure zero_time | some t ↦ pure t ]) Any s) [
        | none ↦ Safe-pure zero_time tt l
        | some t ↦ Safe-pure t tt l
      ]

module _ (e : Env) where
  pub Safe-now : {s : State} → JobsLive s → Safe (now e) Any s
  unfolding now
  Safe-now {s} l = Safe-Untouched (Untouched-refl s) l

  pub Safe-clock :
      (clock : (h : History) → is_zero (e.now h) ≡ false)
      → {s : State} → JobsLive s
      → Safe (now e) (λ at. is_zero at ≡ false) s
  unfolding now
  Safe-clock clock {s} l = record {
    same_mts = (refl, refl);
    live = record { submitted = l.submitted; cached = l.cached };
    post = clock s.history;
  }

  pub Safe-event :
      {s : State} (name reason message : String)
      → JobsLive s
      → Safe (event e name normal reason message) Any s
  unfolding event
  Safe-event {s} name reason message l = Safe-Untouched (Untouched-refl s) l

  pub Safe-create_job : {s : State} (job : Job) → JobsLive s → Safe (create_job e job) Any s
  unfolding create_job
  Safe-create_job {s} job l = Safe-Untouched (Untouched-refl s) l

  module _
      (stores : (h : History) (job job' : MaintenanceJob)
        → e.put_mt_job_status h job ≡ ok job'
        → job'.status ≡ job.status) where
    answer-Answers :
        (job : MaintenanceJob) (h : History) → Answers job (answer (e.put_mt_job_status h job))
    answer-Answers job h = elim (Result-cases (e.put_mt_job_status h job)) [
      | inl (x, bad) ↦ rw bad tt
      | inr (job', got) ↦ rw got (stores h job job' got)
    ]

    pub Safe-update :
        {s : State} (job : MaintenanceJob)
        → JobOk job
        → JobsLive s
        → Safe (update_mt_job_status e job) (Answers job) s
    unfolding update_mt_job_status
    Safe-update {s} job p l = record {
      same_mts = (refl, refl);
      live = record { submitted = (p, l.submitted); cached = l.cached };
      post = answer-Answers job s.history;
    }

    pub Safe-submit :
        {s : State} (h : Handle) (job : MaintenanceJob)
        → JobOk job
        → JobsLive s
        → Safe (submit e h job) (Answers job) s
    unfolding submit
    Safe-submit h job p l = Safe-bind (Safe-assign h job p l) (λ _ t l' _. Safe-update job p l')

    -- One stage, in order, is put at an index and submitted.
    abbrev pub Puts : Handle → ℕ → MaintenanceJob × Option Error → Type 0
    Puts h i a =
        (new : MaintenanceJobStageStatus) × StageOk new
        × Answers (with_stages h.job (set h.job.status.stages i new)) a

    pub Safe-submit_stage :
        {s : State} (h : Handle) (i : ℕ)
        (change : MaintenanceJobStageStatus → MaintenanceJobStageStatus)
        → ((old : MaintenanceJobStageStatus)
            → get_elem? h.job.status.stages i ≡ some old
            → StageOk old
            → StageOk (change old))
        → JobOk h.job
        → JobsLive s
        → Safe (submit_stage e h i change) (Puts h i) s
    unfolding submit_stage
    Safe-submit_stage h i change good p l = Safe-bind (Safe-deref l) (λ old t l' found.
        let stages = h.job.status.stages in
        let q = good old found (All-get_elem? StageOk stages i old found p) in
        Safe-mono (λ a answered. (change old, q, answered))
          (Safe-submit h (with_stages h.job (set stages i (change old)))
            (All-set StageOk stages i (change old) q p) l'))

    pub Safe-act :
        {s : State} (job : MaintenanceJob) (spec : MaintenanceStage)
        → JobsLive s
        → Safe (act e job spec) Any s
    unfolding act
    Safe-act {s} job spec l =
        Safe-if (is_some spec.drain) (λ _. Safe-Untouched (Untouched-drain_nodes e job spec s) l)
          (λ _.
            Safe-if (is_some spec.uncordon)
              (λ _. Safe-Untouched (Untouched-uncordon_nodes e job spec s) l)
              (λ _. Safe-pure none tt l))

    pub Safe-previous_finish :
        {s : State} (job : MaintenanceJob) (i : ℕ) → JobsLive s → Safe (previous_finish job i) Any s
    unfolding previous_finish
    Safe-previous_finish job zero l = Safe-pure _ tt l
    Safe-previous_finish job (suc i) l =
        Safe-bind (Safe-deref l) (λ previous t l' _. Safe-finish previous l')
