-- ===== src/Controller/JobCache.antt =====
-- `getMaintenanceJobFromCache` and `enqueueMaintenanceJobForScheduling`
-- (pkg/controller/maintenance/maintenencejob.go).
pub mod Enqueuing
use vihara.Prelude.{
  ℕ, ◌+◌, String, Option, none, some, List, [], ◌∷◌, ◌<>◌, lookup, length, eqb, if◌then◌else◌,
}
use vihara.Api.{Duration, MaintenanceJob, MaintenanceJobStageStatus}
use vihara.Env.{
  Error, errorf, wrapped, Result, ok, err, mt_job_queue, Env, State, M, returned, pure, ◌>>=◌,
}
use vihara.Env.Clients

-- How the loop over the status stages of `enqueueMaintenanceJobForScheduling` ends: `none` for its
-- return at a failed stage, or the number of finished stages that it counted.
unfoldable pub count_finished : ℕ → List MaintenanceJobStageStatus → Option ℕ
count_finished n [] = some n
count_finished n (s ∷ stages) =
    let rest = count_finished (if s.succeeded then n + 1 else n) stages in
    if s.failed then none else if s.running then some n else rest

module _ (e : Env) where
  -- what `getMaintenanceJobFromCache` returns
  unfoldable pub cached_mt_job : State → String → String → Result MaintenanceJob
  cached_mt_job s namespace name =
      let key = namespace <> "/" <> name in
      elim (e.cache_error s.history key) [
        | some x ↦ err (wrapped "failed to search MaintenanceJob in cache" x)
        | none ↦ elim (lookup key s.mt_job_cache) [
          | none ↦ err (errorf ("maintenanceJob not found in cache: " <> key))
          | some job ↦ ok job
        ]
      ]

  -- `getMaintenanceJobFromCache`
  unfoldable pub get_mt_job_from_cache : String → String → M (Result MaintenanceJob)
  get_mt_job_from_cache namespace name s = (returned (cached_mt_job s namespace name), s)

  -- `enqueueMaintenanceJobForScheduling`
  unfoldable pub enqueue_mt_job : String → String → Duration → M (Option Error)
  enqueue_mt_job namespace name delay = do
    cached ← get_mt_job_from_cache namespace name
    elim cached [
      | err x ↦ pure (some x)
      | ok job ↦ elim (count_finished 0 job.status.stages) [
        | none ↦ pure none
        | some n ↦
            if eqb n (length job.spec.stages)
            then pure none
            else Clients.offer_with_delay e mt_job_queue name delay
      ]
    ]
