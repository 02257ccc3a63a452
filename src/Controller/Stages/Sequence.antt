-- ===== src/Controller/Stages/Sequence.antt =====
-- The order in which `scheduleMaintenanceJob` starts the stages.
use vihara.Prelude.{◌≡◌, Bool, true, false, none, some, List, ◌∷◌, arith, ltb_ℤ, ◌+ℤ◌}
use vihara.Api.{
  zero_time, MaintenanceNodeDrainSpec, PodTemplateSpec, MaintenanceStage, MaintenanceJob,
  MaintenanceJobStageStatus,
}
use vihara.Env.{History, Env, State, Outcome, returned, ok, ◌>>=◌, pure, deref, panic}
use vihara.Env.Clients.{now, update_mt_job_status, write_mt_job, create_job}
use vihara.Env.Trace.{mt_job_updates, job_creations}
use vihara.Controller.Generate.{job_with_pod, generate_job}
use vihara.Controller.Stages.{
  Handle, Round, fresh, with_stages, mark_started, submit_stage, previous_finish, start_stage,
  stage_round, run_stages, continues, ended,
}

-- A stage that was never started.
abbrev pub IsPending : MaintenanceJobStageStatus → Type 0
IsPending s =
    (s.failed ≡ false) × (s.succeeded ≡ false) × (s.running ≡ false) × (s.finished_at ≡ none)

-- a round that ends the loop
abbrev is_ended : Outcome Round → Bool
is_ended (returned (ended x)) = true
is_ended _ = false

module _ (e : Env) (h : Handle) (s₁ s₂ : MaintenanceJobStageStatus) (spec₁ spec₂ : MaintenanceStage)
    (rest : List MaintenanceJobStageStatus) (specs : List MaintenanceStage)
    (drain : MaintenanceNodeDrainSpec) (pod : PodTemplateSpec)
    (all_stages : h.job.status.stages ≡ s₁ ∷ s₂ ∷ rest)
    (all_specs : h.job.spec.stages ≡ spec₁ ∷ spec₂ ∷ specs) (pending₁ : IsPending s₁)
    (pending₂ : IsPending s₂) (drains : spec₁.drain ≡ some drain) (no_drain : spec₂.drain ≡ none)
    (no_uncordon : spec₂.uncordon ≡ none) (has_pod : spec₂.pod ≡ some pod)
    (late : (q : History) → ltb_ℤ (e.now q) (zero_time +ℤ spec₂.delay) ≡ false)
    (accepts : (q : History) (job : MaintenanceJob) → e.put_mt_job_status q job ≡ ok job) where
  -- the object with its first stage marked as running
  abbrev started_job : State → MaintenanceJob
  started_job t = with_stages h.job (mark_started (e.now (now e t).1.history) s₁ ∷ s₂ ∷ rest)

  first_round :
      (t : State)
      → ltb_ℤ (e.now t.history) (h.job.meta.creation_timestamp +ℤ spec₁.delay) ≡ false
      → ((stage_round e h 0 s₁ t).0 ≡ returned (continues (fresh (started_job t))))
        × (mt_job_updates (stage_round e h 0 s₁ t).1.history
            ≡ started_job t ∷ mt_job_updates t.history)
        × (job_creations (stage_round e h 0 s₁ t).1.history ≡ job_creations t.history)
  unfolding stage_round start_stage previous_finish submit_stage ◌>>=◌ pure deref panic now
      update_mt_job_status write_mt_job
  first_round t due = ground (arith, accepts (now e (now e t).1).1.history (started_job t))

  second_round :
      (t t' : State)
      → (job_creations (stage_round e (fresh (started_job t)) 1 s₂ t').1.history
          ≡ job_with_pod (started_job t) spec₂ pod ∷ job_creations t'.history)
        × (mt_job_updates (stage_round e (fresh (started_job t)) 1 s₂ t').1.history
            ≡ mt_job_updates t'.history)
        × (is_ended (stage_round e (fresh (started_job t)) 1 s₂ t').0 ≡ true)
  unfolding stage_round start_stage previous_finish generate_job ◌>>=◌ pure deref panic now
      create_job
  second_round t t' = ground (arith, late t'.history)

  -- A pass that starts a drain goes on to the next stage at once: where the first two stages of a
  -- job were never started, the first drains nodes and the second is a pod, the first one's delay is
  -- over, the API server stores the status as it is submitted, and the clock is past the second
  -- one's delay counted from Go's zero time, the same pass marks the drain as running and creates
  -- the Kubernetes job of the second stage.
  pub run_stages_skips_drain :
      (t : State)
      → ltb_ℤ (e.now t.history) (h.job.meta.creation_timestamp +ℤ spec₁.delay) ≡ false
      → (job_creations (run_stages e h 0 (s₁ ∷ s₂ ∷ rest) t).1.history
          ≡ job_with_pod (started_job t) spec₂ pod ∷ job_creations t.history)
        × (mt_job_updates (run_stages e h 0 (s₁ ∷ s₂ ∷ rest) t).1.history
            ≡ started_job t ∷ mt_job_updates t.history)
  unfolding run_stages ◌>>=◌ pure
  run_stages_skips_drain t due =
      ground (arith, first_round t due, second_round t (stage_round e h 0 s₁ t).1)
