-- ===== src/Controller/JobCache/Enqueuing.antt =====
-- Which jobs `enqueueMaintenanceJobForScheduling` puts into the queue.
use vihara.Prelude.{
  ℕ, ◌+◌, ◌≤◌, ◌<◌, ◌≡◌, ◌⊎◌, String, ◌<>◌, Bool, true, false, not, ◌&&◌, none, some, List, [], ◌∷◌,
  Bool-cases, refl, inl, inr, ◌||◌, lookup, length, eqb, arith, if◌then◌else◌,
}
use vihara.Api.{Duration, MaintenanceJob, MaintenanceJobStageStatus}
use vihara.Env.{Env, State, mt_job_queue, ◌>>=◌, pure}
use vihara.Env.Clients.{offer_with_delay}
use vihara.Env.Trace.{offers, Due}
use vihara.Controller.JobCache.{
  count_finished, cached_mt_job, get_mt_job_from_cache, enqueue_mt_job,
}

-- every stage has succeeded and none runs
abbrev pub all_passed : List MaintenanceJobStageStatus → Bool
all_passed [] = true
all_passed (s ∷ stages) = s.succeeded && not s.running && all_passed stages

-- a stage has failed, and none before it runs
abbrev pub has_failed : List MaintenanceJobStageStatus → Bool
has_failed [] = false
has_failed (s ∷ stages) = s.failed || not s.running && has_failed stages

count_finished_lem :
    (n : ℕ) (stages : List MaintenanceJobStageStatus)
    → ((has_failed stages ≡ true) × (count_finished n stages ≡ none))
      ⊎ ((has_failed stages ≡ false)
          × ((k : ℕ) × (count_finished n stages ≡ some k)
              × (((all_passed stages ≡ true) × (k ≡ n + length stages))
                  ⊎ ((all_passed stages ≡ false) × (k < n + length stages)))))
unfolding count_finished
count_finished_lem n [] = inr (refl, (n, refl, inl (refl, omega arith)))
count_finished_lem n (s ∷ stages) =
    elim (count_finished_lem (if s.succeeded then n + 1 else n) stages) [
      | inl (failed, stopped) ↦ elim (Bool-cases s.running) [
        | inl running ↦ elim (Bool-cases s.failed) [
          | inl here ↦ inl (ground arith, ground arith)
          | inr going ↦ inr (ground arith, (n, ground arith, inr (ground arith, omega arith)))
        ]
        | inr waiting ↦ inl (ground arith, ground arith)
      ]
      | inr (going, (k, counted, passed)) ↦ elim (Bool-cases s.failed) [
        | inl here ↦ inl (ground arith, ground arith)
        | inr fine ↦ inr (ground arith, ((if s.running then n else k), ground arith, ground arith))
      ]
    ]

module _ (e : Env) (namespace name : String) (delay : Duration) (job : MaintenanceJob)
    (s : State) where
  pub offers-enqueue_mt_job :
      e.cache_error s.history (namespace <> "/" <> name) ≡ none
      → lookup (namespace <> "/" <> name) s.mt_job_cache ≡ some job
      → length job.status.stages ≤ length job.spec.stages
      → offers (enqueue_mt_job e namespace name delay s).1.history ≡ (
          if has_failed job.status.stages
            || all_passed job.status.stages
              && eqb (length job.status.stages) (length job.spec.stages)
          then offers s.history
          else (mt_job_queue, name, Due.after delay) ∷ offers s.history)
  unfolding enqueue_mt_job cached_mt_job get_mt_job_from_cache offer_with_delay ◌>>=◌ pure
  offers-enqueue_mt_job readable cached few = elim (count_finished_lem 0 job.status.stages) [
    | inl (failed, stopped) ↦ ground arith
    | inr (going, (k, counted, passed)) ↦ ground arith
  ]
