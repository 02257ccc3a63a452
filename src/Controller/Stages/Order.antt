-- ===== src/Controller/Stages/Order.antt =====
-- What a pass of `scheduleMaintenanceJob` does behind the stages that have succeeded.
use vihara.Prelude.{
  ℕ, ◌+◌, ◌≡◌, ◌∙◌, ap, suc, true, false, none, some, List, [], ◌∷◌, ◌++◌, All, length, get_elem?,
  get_elem?-append, ltb_ℤ, ◌+ℤ◌, if◌then◌else◌, arith, if◌then◌else◌,
}
use vihara.Api.{
  Time, is_zero?, MaintenanceStage, PodTemplateSpec, MaintenanceJob, MaintenanceJobStageStatus,
  job_succeeded,
}
use vihara.Env.{Env, State, ◌>>=◌, pure, deref, panic}
use vihara.Env.Clients.{now, update_mt_job_status, write_mt_job, create_job}
use vihara.Env.Trace.{mt_job_updates, job_creations}
use vihara.Controller.Generate.{job_with_pod, generate_job}
use vihara.Controller.Stages.{
  Handle, fail_job, pass_stage, previous_finish, start_stage, stage_round, run_stages,
}

-- A stage that has succeeded and says when.
abbrev pub IsPassed : MaintenanceJobStageStatus → Type 0
IsPassed s = (s.failed ≡ false) × (s.succeeded ≡ true) × (is_zero? s.finished_at ≡ false)

abbrev pub with_failure : MaintenanceJob → MaintenanceJobStageStatus → MaintenanceJob
with_failure job s = record job { status = record (job.status) { failed_at = s.finished_at } }

module _ (e : Env) (h : Handle) (open_job : job_succeeded h.job ≡ some false) where
  run_stages_of_one :
      (s : MaintenanceJobStageStatus) (rest : List MaintenanceJobStageStatus) (i : ℕ) (t : State)
      → IsPassed s
      → run_stages e h i (s ∷ rest) t ≡ run_stages e h (i + 1) rest t
  unfolding run_stages stage_round pass_stage ◌>>=◌ pure deref
  run_stages_of_one s rest i t (sound, passed, timed) = ground arith

  run_stages_of_passed :
      (done rest : List MaintenanceJobStageStatus) (i : ℕ) (t : State)
      → All IsPassed done
      → run_stages e h i (done ++ rest) t ≡ run_stages e h (i + length done) rest t
  run_stages_of_passed [] rest i t passed =
      let same : i ≡ i + 0 = omega arith in ap (λ j. run_stages e h j rest t) same
  run_stages_of_passed (s ∷ done) rest i t (p, passed) =
      run_stages_of_one s (done ++ rest) i t p
      ∙ run_stages_of_passed done rest (i + 1) t passed
      ∙ ap (λ j. run_stages e h j rest t) (omega arith)

  module _ (done rest : List MaintenanceJobStageStatus) (s : MaintenanceJobStageStatus) (t : State)
      (passed : All IsPassed done) where
    -- A pass over a job that is not complete, and whose first stage that has not succeeded has
    -- failed and says when, submits exactly one status: the object's with this time of failure. No
    -- stage behind it is started.
    pub run_stages_fails_fast :
        s.failed ≡ true
        → is_zero? s.finished_at ≡ false
        → (mt_job_updates (run_stages e h 0 (done ++ s ∷ rest) t).1.history
            ≡ with_failure h.job s ∷ mt_job_updates t.history)
          × (job_creations (run_stages e h 0 (done ++ s ∷ rest) t).1.history
              ≡ job_creations t.history)
    unfolding run_stages stage_round fail_job ◌>>=◌ pure update_mt_job_status write_mt_job
    run_stages_fails_fast failed timed =
        ground (arith, run_stages_of_passed done (s ∷ rest) 0 t passed)

  module _ (done rest : List MaintenanceJobStageStatus) (last s : MaintenanceJobStageStatus)
      (spec : MaintenanceStage) (pod : PodTemplateSpec) (finish : Time) (t : State)
      (all_stages : h.job.status.stages ≡ done ++ last ∷ s ∷ rest) (passed : All IsPassed done)
      (last_passed : IsPassed last) (finished_at : last.finished_at ≡ some finish) where
    run_stages_at_next :
        run_stages e h 0 (done ++ last ∷ s ∷ rest) t
        ≡ run_stages e h (suc (length done)) (s ∷ rest) t
    run_stages_at_next =
        run_stages_of_passed done (last ∷ s ∷ rest) 0 t passed
        ∙ run_stages_of_one last (s ∷ rest) (0 + length done) t last_passed
        ∙ ap (λ j. run_stages e h j (s ∷ rest) t) (omega arith)

    last_found : get_elem? h.job.status.stages (length done) ≡ some last
    last_found = rw all_stages (get_elem?-append done last (s ∷ rest))

    -- In a pass over a job that is not complete, the first stage that has not succeeded, if it was
    -- never started and is a pod, and is not the first of all, is started exactly if its delay since
    -- the finish of the stage before it is over: its Kubernetes job is created then, and no status is
    -- submitted.
    pub run_stages_starts_pod :
        s.failed ≡ false
        → s.succeeded ≡ false
        → s.running ≡ false
        → get_elem? h.job.spec.stages (suc (length done)) ≡ some spec
        → spec.drain ≡ none
        → spec.uncordon ≡ none
        → spec.pod ≡ some pod
        → (job_creations (run_stages e h 0 (done ++ last ∷ s ∷ rest) t).1.history ≡ (
            if ltb_ℤ (e.now t.history) (finish +ℤ spec.delay)
            then job_creations t.history
            else job_with_pod h.job spec pod ∷ job_creations t.history))
          × (mt_job_updates (run_stages e h 0 (done ++ last ∷ s ∷ rest) t).1.history
              ≡ mt_job_updates t.history)
    unfolding run_stages stage_round start_stage previous_finish generate_job ◌>>=◌ pure deref panic
        now create_job
    run_stages_starts_pod sound open_stage idle at_spec no_drain no_uncordon has_pod =
        ground (arith, run_stages_at_next, last_found)
