-- ===== src/System/Frames/Jobs.antt =====
-- The handlers and the scheduling of MaintenanceJob objects, and the handlers of Kubernetes jobs,
-- touch no Maintenance object.
use vihara.Prelude.{String, refl, inl, inr, Option, none, some, List, [], ◌∷◌, arith}
use vihara.Api.{Duration, OwnerReference, Job, MaintenanceJob, MaintenanceJobStageStatus}
use vihara.Controller.Stages.{with_stages}
use vihara.Env.{Call, record_call, Result-cases, Env, State, ◌>>=◌, pure, deref, panic}
use vihara.Env.Clients.{now, event, update_mt_job_status, offer_with_delay}
use vihara.Controller.JobCache.{get_mt_job_from_cache, enqueue_mt_job}
use vihara.Controller.JobEvents.{
  fill_stages, enqueue_added, on_mt_job_added, finish_time, update_stages, update_from_job,
  find_mt_job, update_found, update_labelled, update_owned,
}
use vihara.System.Frames.{SameMts, Untouched}

module _ (e : Env) where
  pub Untouched-enqueue_mt_job :
      (namespace name : String) (delay : Duration) (s : State)
      → Untouched s (enqueue_mt_job e namespace name delay s).1
  unfolding enqueue_mt_job get_mt_job_from_cache ◌>>=◌ pure offer_with_delay
  Untouched-enqueue_mt_job namespace name delay s = ground arith

  pub Untouched-enqueue_added :
      (job : MaintenanceJob) (s : State) → Untouched s (enqueue_added e job s).1
  unfolding enqueue_added ◌>>=◌ pure
  Untouched-enqueue_added job s = grind (arith, Untouched-enqueue_mt_job)

  pub SameMts-on_mt_job_added :
      (job : MaintenanceJob) (s : State) → SameMts s (on_mt_job_added e job s).1
  unfolding on_mt_job_added ◌>>=◌ pure deref panic event update_mt_job_status
  SameMts-on_mt_job_added job s =
      let filled = with_stages job (fill_stages job.status.stages job.spec.stages) in
      let t = record_call (Call.update_mt_job filled) s in
      elim (Result-cases (e.put_mt_job_status s.history filled)) [
        | inl (x, bad) ↦ ground (arith, Untouched-enqueue_added job s)
        | inr (job', got) ↦
            ground (arith, Untouched-enqueue_added job s, Untouched-enqueue_added job' t)
      ]

  SameMts-update_stages :
      (job : Job) (name : String) (stages : List MaintenanceJobStageStatus) (s : State)
      → SameMts s (update_stages e job name stages s).1
  unfolding update_stages finish_time ◌>>=◌ pure now
  SameMts-update_stages job name [] s = (refl, refl)
  SameMts-update_stages job name (old ∷ stages) s =
      grind (arith, SameMts-update_stages job name stages)

  SameMts-update_found :
      (job : Job) (name : String) (found : Option MaintenanceJob) (s : State)
      → SameMts s (update_found e job name found s).1
  unfolding update_found update_from_job ◌>>=◌ pure update_mt_job_status
  SameMts-update_found job name none s = (refl, refl)
  SameMts-update_found job name (some mt_job) s =
      ground (arith, SameMts-update_stages job name mt_job.status.stages s)

  pub SameMts-update_owned :
      (job : Job) (owner : Option OwnerReference) (s : State)
      → SameMts s (update_owned e job owner s).1
  unfolding update_owned update_labelled find_mt_job ◌>>=◌ pure
  SameMts-update_owned job none s = (refl, refl)
  SameMts-update_owned job (some owner) s = grind (arith, SameMts-update_found)
