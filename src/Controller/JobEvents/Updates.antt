-- ===== src/Controller/JobEvents/Updates.antt =====
-- What the handlers of job events submit.
use vihara.Prelude.{
  ◌≡◌, refl, inl, inr, Option-cases, String, Bool, true, false, Option, none, some, List, [], ◌∷◌,
  arith, eqb_ℤ,
}
use vihara.Api.{OwnerReference, Time, Job, MaintenanceJob, MaintenanceJobStageStatus}
use vihara.Env.{Env, State, Outcome, returned, panicked, ◌>>=◌, pure}
use vihara.Env.Clients.{now}
use vihara.Env.Trace.{mt_job_updates}
use vihara.Controller.JobEvents.{
  takes_case, finish_time, update_stages, update_from_job, update_found, update_labelled,
  update_owned, find_mt_job, get_controller_of, on_job_updated,
}

equal_time_self : (t : Time) → eqb_ℤ t t ≡ true
equal_time_self t = ground arith

-- The comparison of a finish time with itself makes `default` unreachable.
takes_case_always : (old new : MaintenanceJobStageStatus) → takes_case old new ≡ true
unfolding takes_case
takes_case_always old new = elim (Option-cases old.finished_at) [
  | inl unset ↦ ground arith
  | inr (t, is_set) ↦ ground (arith, equal_time_self t)
]

-- The flag that the loop over the stages leaves.
abbrev needed? : Outcome (List MaintenanceJobStageStatus × Bool) → Bool
needed? (returned (_, needed)) = needed
needed? panicked = false

module _ (e : Env) (job : Job) where
  updates-finish_time :
      (s : State)
      → (mt_job_updates (finish_time e job s).1.history ≡ mt_job_updates s.history)
        × ((finish_time e job s).1.mt_job_cache ≡ s.mt_job_cache)
  unfolding finish_time ◌>>=◌ pure now
  updates-finish_time s = ground arith

  -- The loop submits nothing, and finds no update needed.
  update_stages_quiet :
      (name : String) (stages : List MaintenanceJobStageStatus) (s : State)
      → (mt_job_updates (update_stages e job name stages s).1.history ≡ mt_job_updates s.history)
        × (needed? (update_stages e job name stages s).0 ≡ false)
        × ((update_stages e job name stages s).1.mt_job_cache ≡ s.mt_job_cache)
  unfolding update_stages ◌>>=◌ pure
  update_stages_quiet name [] s = (refl, refl, refl)
  update_stages_quiet name (old ∷ stages) s =
      let s' = (finish_time e job s).1 in
      grind (
        arith,
        update_stages_quiet name stages s,
        update_stages_quiet name stages s',
        updates-finish_time s,
        takes_case_always,
      )

  update_from_job_quiet :
      (mt_job : MaintenanceJob) (name : String) (s : State)
      → (mt_job_updates (update_from_job e job mt_job name s).1.history ≡ mt_job_updates s.history)
        × ((update_from_job e job mt_job name s).1.mt_job_cache ≡ s.mt_job_cache)
  unfolding update_from_job ◌>>=◌ pure
  update_from_job_quiet mt_job name s =
      ground (arith, update_stages_quiet name mt_job.status.stages s)

  update_found_quiet :
      (name : String) (found : Option MaintenanceJob) (s : State)
      → (mt_job_updates (update_found e job name found s).1.history ≡ mt_job_updates s.history)
        × ((update_found e job name found s).1.mt_job_cache ≡ s.mt_job_cache)
  unfolding update_found pure
  update_found_quiet name none s = (refl, refl)
  update_found_quiet name (some mt_job) s = update_from_job_quiet mt_job name s

  update_owned_quiet :
      (owner : Option OwnerReference) (s : State)
      → (mt_job_updates (update_owned e job owner s).1.history ≡ mt_job_updates s.history)
        × ((update_owned e job owner s).1.mt_job_cache ≡ s.mt_job_cache)
  unfolding update_owned update_labelled find_mt_job ◌>>=◌ pure
  update_owned_quiet none s = (refl, refl)
  update_owned_quiet (some owner) s = grind (arith, update_found_quiet)

  -- An event of a Kubernetes job never leads to an update of the status of a MaintenanceJob, whatever
  -- the job, its owner, its conditions and the cache are: nothing is submitted, and the cached
  -- objects stay as they are.
  pub on_job_updated_submits_nothing :
      (s : State)
      → (mt_job_updates (on_job_updated e job s).1.history ≡ mt_job_updates s.history)
        × ((on_job_updated e job s).1.mt_job_cache ≡ s.mt_job_cache)
  unfolding on_job_updated
  on_job_updated_submits_nothing s =
      update_owned_quiet (get_controller_of job.meta.owner_references) s
