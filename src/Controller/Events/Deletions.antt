-- ===== src/Controller/Events/Deletions.antt =====
-- Which events delete a Maintenance.
use vihara.Prelude.{
  ◌≡◌, refl, ◌⊎◌, inl, inr, not, ◌&&◌, true, false, String, Option, none, some, List, [], ◌∷◌,
  arith,
}
use vihara.Api.{
  Duration, Maintenance, can_be_scheduled_in, scheduled, finished, MaintenanceJob,
  MaintenanceJobStageStatus, Job, OwnerReference,
}
use vihara.Env.{Env, State, ◌>>=◌, pure, deref, panic}
use vihara.Env.Clients.{
  now, event, update_mt_status, delete_mt, update_mt_job_status, queue_find, queue_remove,
  offer_with_delay, offer_with_time, write_mt,
}
use vihara.Env.Trace.{deletions}
use vihara.Controller.Reconcile.{Controller}
use vihara.Controller.Phases.{
  on_maintenance_added, on_maintenance_updated, on_maintenance_deleting, on_maintenance_deleted,
  enqueue_maintenance,
}
use vihara.Controller.JobCache.{enqueue_mt_job, get_mt_job_from_cache}
use vihara.Controller.JobEvents.{
  on_mt_job_added, enqueue_added, on_mt_job_other, on_job_other, on_job_updated, update_owned,
  update_labelled, update_found, update_from_job, update_stages, finish_time, find_mt_job,
  get_controller_of,
}
use vihara.Controller.Events.{
  Event, mt_added, mt_updated, mt_deleting, mt_deleted, mt_job_added, mt_job_updated,
  mt_job_deleting, mt_job_deleted, job_added, job_updated, job_deleting, job_deleted, handle,
}

module _ (e : Env) (c : Controller) where
  added_deletes_nothing :
      (mt : Maintenance) (s : State)
      → deletions (on_maintenance_added e c mt s).1.history ≡ deletions s.history
  unfolding on_maintenance_added ◌>>=◌ pure now event update_mt_status
  added_deletes_nothing mt s = ground arith

  enqueue_deletes_nothing :
      (name : String) (delay : Duration) (s : State)
      → deletions (enqueue_maintenance e name delay s).1.history ≡ deletions s.history
  unfolding enqueue_maintenance ◌>>=◌ pure panic now event update_mt_status queue_find
      offer_with_delay offer_with_time write_mt
  enqueue_deletes_nothing name delay s = ground arith

  updated_deletes_nothing :
      (mt : Maintenance) (s : State)
      → deletions (on_maintenance_updated e c mt s).1.history ≡ deletions s.history
  unfolding on_maintenance_updated ◌>>=◌ pure now event
  updated_deletes_nothing mt s =
      ground
        (arith, enqueue_deletes_nothing mt.meta.name c.config.schedule.poll_interval (now e s).1)

  deleted_deletes_nothing :
      (mt : Maintenance) (s : State)
      → deletions (on_maintenance_deleted e c mt s).1.history ≡ deletions s.history
  unfolding on_maintenance_deleted pure
  deleted_deletes_nothing mt s = ground arith

  enqueue_added_deletes_nothing :
      (job : MaintenanceJob) (s : State)
      → deletions (enqueue_added e job s).1.history ≡ deletions s.history
  unfolding enqueue_added enqueue_mt_job get_mt_job_from_cache ◌>>=◌ pure offer_with_delay
  enqueue_added_deletes_nothing job s = ground arith

  job_added_deletes_nothing :
      (job : MaintenanceJob) (s : State)
      → deletions (on_mt_job_added e job s).1.history ≡ deletions s.history
  unfolding on_mt_job_added ◌>>=◌ pure deref panic event update_mt_job_status
  job_added_deletes_nothing job s = grind (arith, enqueue_added_deletes_nothing)

  stages_delete_nothing :
      (job : Job) (name : String) (stages : List MaintenanceJobStageStatus) (s : State)
      → deletions (update_stages e job name stages s).1.history ≡ deletions s.history
  unfolding update_stages finish_time ◌>>=◌ pure now
  stages_delete_nothing job name [] s = refl
  stages_delete_nothing job name (old ∷ stages) s =
      grind (arith, stages_delete_nothing job name stages)

  found_deletes_nothing :
      (job : Job) (name : String) (found : Option MaintenanceJob) (s : State)
      → deletions (update_found e job name found s).1.history ≡ deletions s.history
  unfolding update_found update_from_job ◌>>=◌ pure update_mt_job_status
  found_deletes_nothing job name none s = refl
  found_deletes_nothing job name (some mt_job) s =
      ground (arith, stages_delete_nothing job name mt_job.status.stages s)

  owned_deletes_nothing :
      (job : Job) (owner : Option OwnerReference) (s : State)
      → deletions (update_owned e job owner s).1.history ≡ deletions s.history
  unfolding update_owned update_labelled find_mt_job ◌>>=◌ pure
  owned_deletes_nothing job none s = refl
  owned_deletes_nothing job (some owner) s = grind (arith, found_deletes_nothing)

  deleting_deletes :
      (mt : Maintenance) (s : State)
      → (deletions (on_maintenance_deleting e c mt s).1.history ≡ deletions s.history)
        ⊎ ((can_be_scheduled_in mt c.job_namespace ≡ true)
            × ((scheduled mt && not (finished mt)) ≡ false)
            × (deletions (on_maintenance_deleting e c mt s).1.history
                ≡ mt.meta.name ∷ deletions s.history))
  unfolding on_maintenance_deleting ◌>>=◌ pure event delete_mt queue_remove
  deleting_deletes mt s = ground arith

  -- An event leads to the deletion of a Maintenance only if it says that this object is being deleted,
  -- and the object belongs to the job namespace and is not under execution, that is, not scheduled or
  -- already finished; then exactly this object is deleted.
  pub deletions-handle :
      (event : Event) (s : State)
      → (deletions (handle e c event s).1.history ≡ deletions s.history)
        ⊎ ((mt : Maintenance) × (event ≡ mt_deleting mt)
            × (can_be_scheduled_in mt c.job_namespace ≡ true)
            × ((scheduled mt && not (finished mt)) ≡ false)
            × (deletions (handle e c event s).1.history ≡ mt.meta.name ∷ deletions s.history))
  unfolding handle on_mt_job_other on_job_other on_job_updated pure
  deletions-handle (mt_added mt) s = inl (added_deletes_nothing mt s)
  deletions-handle (mt_updated mt) s = inl (updated_deletes_nothing mt s)
  deletions-handle (mt_deleting mt) s = elim (deleting_deletes mt s) [
    | inl same ↦ inl same
    | inr (here, idle, gone) ↦ inr (mt, refl, here, idle, gone)
  ]
  deletions-handle (mt_deleted mt) s = inl (deleted_deletes_nothing mt s)
  deletions-handle (mt_job_added job) s = inl (job_added_deletes_nothing job s)
  deletions-handle (mt_job_updated job) s = inl refl
  deletions-handle (mt_job_deleting job) s = inl refl
  deletions-handle (mt_job_deleted job) s = inl refl
  deletions-handle (job_added job) s = inl refl
  deletions-handle (job_updated job) s =
      inl (owned_deletes_nothing job (get_controller_of job.meta.owner_references) s)
  deletions-handle (job_deleting job) s = inl refl
  deletions-handle (job_deleted job) s = inl refl
