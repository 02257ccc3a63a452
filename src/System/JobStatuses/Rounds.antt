-- ===== src/System/JobStatuses/Rounds.antt =====
-- The rounds of `scheduleMaintenanceJob` keep the invariant of the job statuses.
use mathlib.Core.Path.{subst}
use vihara.Prelude.{
  ℕ, suc, ◌≡◌, ap, ◌∙◌, false, some, none, Option, List, ◌∷◌, set, is_some, not, ltb_ℤ, ◌+ℤ◌,
  get_elem?, drop, drop-suc, drop-set, get_elem?-drop, All-set,
}
use vihara.Api.{
  Time, is_zero?, is_zero, MaintenanceStage, MaintenanceJob, MaintenanceJobStageStatus,
}
use vihara.Env.{Error, ok, History, Env, State, pure}
use vihara.Controller.Generate.{generate_job}
use vihara.Controller.Stages.{
  acts_on_nodes, Handle, Round, ended, continues, fresh, mark_started, mark_timeout, mark_succeeded,
  mark_retry, run_running, start_stage, fail_job, pass_stage, stage_round,
}
use vihara.System.JobStatuses.{
  StageOk, JobOk, JobsLive, mark_started-StageOk, mark_timeout-StageOk, mark_succeeded-StageOk,
  mark_retry-StageOk,
}
use vihara.System.JobStatuses.Logic.{
  Safe, Any, Safe-pure, Safe-deref, Safe-if, Safe-option, Safe-bind,
}
use vihara.System.JobStatuses.Submitting.{
  Answers, Puts, Safe-now, Safe-clock, Safe-event, Safe-create_job, Safe-submit, Safe-submit_stage,
  Safe-act, Safe-previous_finish,
}

Safe-generate_job :
    {s : State} (job : MaintenanceJob) (spec : MaintenanceStage)
    → JobsLive s
    → Safe (generate_job job spec) Any s
unfolding generate_job
Safe-generate_job job spec l = Safe-bind (Safe-deref l) (λ pod t l' _. Safe-pure _ tt l')

module _ (e : Env)
    (stores : (h : History) (job job' : MaintenanceJob)
      → e.put_mt_job_status h job ≡ ok job'
      → job'.status ≡ job.status)
    (clock : (h : History) → is_zero (e.now h) ≡ false) where
  Safe-run_running :
      {s : State} (h : Handle) (i : ℕ) (stage : MaintenanceJobStageStatus) (spec : MaintenanceStage)
      → JobOk h.job
      → JobsLive s
      → Safe (run_running e h i stage spec) Any s
  unfolding run_running
  Safe-run_running h i stage spec p l =
      Safe-if (not (acts_on_nodes spec)) (λ _. Safe-pure none tt l)
        (λ _. Safe-bind (Safe-now e l) (λ at t₁ l₁ _.
          Safe-bind (Safe-deref l₁) (λ scheduled_at t₂ l₂ _.
            Safe-if (ltb_ℤ (scheduled_at +ℤ spec.timeout) at)
              (λ _. Safe-bind (Safe-event e _ _ _ l₂) (λ _ t₃ l₃ _.
                Safe-bind (Safe-clock e clock l₃) (λ at' t₄ l₄ later.
                  Safe-bind
                    (Safe-submit_stage e stores h i (mark_timeout at')
                      (λ old _ _. mark_timeout-StageOk at' old later) p l₄)
                    (λ a t₅ l₅ _. Safe-pure _ tt l₅))))
              (λ _. Safe-bind (Safe-act e stores h.job spec l₂) (λ acted t₃ l₃ _.
                Safe-option acted
                  (λ _. Safe-bind (Safe-clock e clock l₃) (λ at' t₄ l₄ later.
                    Safe-bind
                      (Safe-submit_stage e stores h i (mark_succeeded at')
                        (λ old _ _. mark_succeeded-StageOk at' old later) p l₄)
                      (λ a t₅ l₅ _. Safe-pure _ tt l₅)))
                  (λ x _.
                    Safe-bind
                      (Safe-submit_stage e stores h i (mark_retry (e.error_text x))
                        (λ old _ good. mark_retry-StageOk (e.error_text x) old good) p l₃)
                      (λ a t₄ l₄ _. Safe-pure (some x) tt l₄)))))))

  -- How a round may end that stands in front of the stages `rest`.
  abbrev pub RoundOk : ℕ → List MaintenanceJobStageStatus → Round → Type 0
  RoundOk i rest (ended x) = Unit
  RoundOk i rest (continues h) = JobOk h.job × (drop (suc i) h.job.status.stages ≡ rest)

  module _ (h : Handle) (i : ℕ) (stage : MaintenanceJobStageStatus)
      (rest : List MaintenanceJobStageStatus) (p : JobOk h.job)
      (here : drop i h.job.status.stages ≡ stage ∷ rest) where
    RoundOk-same : RoundOk i rest (continues h)
    RoundOk-same = (p, drop-suc h.job.status.stages i stage rest here)

    RoundOk-Puts :
        (job : MaintenanceJob)
        → Puts e stores h i (job, none)
        → RoundOk i rest (continues (fresh job))
    RoundOk-Puts job (new, good, same) =
        let stages = h.job.status.stages in
        let now : job.status.stages ≡ set stages i new = ap (λ st. st.stages) same in
        let next : drop (suc i) (set stages i new) ≡ rest =
          drop-set stages i new ∙ drop-suc stages i stage rest here in
        rw now (All-set StageOk stages i new good p, next)

    Safe-started :
        {s : State} (a : MaintenanceJob × Option Error)
        → Puts e stores h i a
        → JobsLive s
        → Safe
            (elim a.1 [ some x' ↦ pure (ended (some x')) | none ↦ pure (continues (fresh a.0)) ])
            (RoundOk i rest)
            s
    Safe-started (job, some x) q l = Safe-pure _ tt l
    Safe-started (job, none) q l = Safe-pure _ (RoundOk-Puts job q) l

    StageOk-started :
        (at : Time) (old : MaintenanceJobStageStatus)
        → get_elem? h.job.status.stages i ≡ some old
        → stage.failed ≡ false
        → stage.succeeded ≡ false
        → StageOk old
        → StageOk (mark_started at old)
    StageOk-started at old there going pending good =
        let first = get_elem?-drop h.job.status.stages i stage rest here in
        let same : stage ≡ old = cc in
        mark_started-StageOk at old (subst (λ x. x.failed ≡ false) same going)
          (subst (λ x. x.succeeded ≡ false) same pending) good

    Safe-start_stage :
        {s : State} (spec : MaintenanceStage)
        → stage.failed ≡ false
        → stage.succeeded ≡ false
        → JobsLive s
        → Safe (start_stage e h i spec) (RoundOk i rest) s
    unfolding start_stage
    Safe-start_stage spec going pending l =
        Safe-bind (Safe-previous_finish e stores h.job i l) (λ previous t₁ l₁ _.
          Safe-bind (Safe-now e l₁) (λ at t₂ l₂ _.
            Safe-if (ltb_ℤ at (previous +ℤ spec.delay)) (λ _. Safe-pure (ended none) tt l₂)
              (λ _.
                Safe-if (acts_on_nodes spec)
                  (λ _. Safe-bind (Safe-clock e clock l₂) (λ at' t₃ l₃ _.
                    Safe-bind
                      (Safe-submit_stage e stores h i (mark_started at')
                        (λ old there good. StageOk-started at' old there going pending good) p l₃)
                      (λ a t₄ l₄ q. Safe-started a q l₄)))
                  (λ _.
                    Safe-if (is_some spec.pod)
                      (λ _. Safe-bind (Safe-generate_job h.job spec l₂) (λ job t₃ l₃ _.
                        Safe-bind (Safe-create_job e job l₃) (λ x t₄ l₄ _.
                          Safe-option x (λ _. Safe-pure _ tt l₄) (λ _ _. Safe-pure _ tt l₄))))
                      (λ _. Safe-pure (continues h) RoundOk-same l₂)))))

  Safe-fail_job :
      {s : State} (h : Handle) (stage : MaintenanceJobStageStatus)
      → JobOk h.job
      → JobsLive s
      → Safe (fail_job e h stage) Any s
  unfolding fail_job
  Safe-fail_job h stage p l =
      Safe-if (is_zero? stage.finished_at) (λ _. Safe-pure _ tt l)
        (λ _. Safe-bind (Safe-submit e stores h _ p l) (λ a t l' _. Safe-pure _ tt l'))

  module _ (h : Handle) (i : ℕ) (stage : MaintenanceJobStageStatus)
      (rest : List MaintenanceJobStageStatus) (p : JobOk h.job)
      (here : drop i h.job.status.stages ≡ stage ∷ rest) where
    abbrev succeeded_job : MaintenanceJob
    succeeded_job = record (h.job) {
      status = record (h.job.status) { succeeded_at = stage.finished_at };
    }

    Safe-passed :
        {s : State} (a : MaintenanceJob × Option Error)
        → Answers succeeded_job a
        → JobsLive s
        → Safe
            (elim a.1 [ some x' ↦ pure (ended (some x')) | none ↦ pure (continues (fresh a.0)) ])
            (RoundOk i rest)
            s
    Safe-passed (job, some x) same l = Safe-pure _ tt l
    Safe-passed (job, none) same l =
        let now : job.status.stages ≡ h.job.status.stages = ap (λ st. st.stages) same in
        Safe-pure _ (rw now (p, drop-suc h.job.status.stages i stage rest here)) l

    Safe-pass_stage : {s : State} → JobsLive s → Safe (pass_stage e h stage) (RoundOk i rest) s
    unfolding pass_stage
    Safe-pass_stage l =
        Safe-if (is_zero? stage.finished_at) (λ _. Safe-pure _ tt l)
          (λ _. Safe-bind (Safe-deref l) (λ complete t l' _.
            Safe-if complete
              (λ _.
                Safe-bind (Safe-submit e stores h succeeded_job p l')
                  (λ a t₁ l₁ q. Safe-passed a q l₁))
              (λ _. Safe-pure (continues h) (RoundOk-same h i stage rest p here) l')))

    pub Safe-stage_round :
        {s : State} → JobsLive s → Safe (stage_round e h i stage) (RoundOk i rest) s
    unfolding stage_round
    Safe-stage_round l =
        Safe-if stage.failed
          (λ _. Safe-bind (Safe-fail_job h stage p l) (λ x t l' _. Safe-pure (ended x) tt l'))
          (λ going.
            Safe-if stage.succeeded (λ _. Safe-pass_stage l)
              (λ pending. Safe-bind (Safe-deref l) (λ spec t l' _.
                Safe-if stage.running
                  (λ _.
                    Safe-bind (Safe-run_running h i stage spec p l')
                      (λ x t₁ l₁ _. Safe-pure (ended x) tt l₁))
                  (λ _. Safe-start_stage h i stage rest p here spec going pending l'))))
