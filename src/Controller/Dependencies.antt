-- ===== src/Controller/Dependencies.antt =====
-- The dependency checks of `scheduleMaintenance` (pkg/controller/maintenance/maintenance.go).
pub mod Keys
pub mod Soundness
use vihara.Prelude.{
  String, Bool, true, false, not, ◌&&◌, ◌||◌, Option, none, some, List, [], ◌∷◌, ◌==◌, ◌<>◌,
  starts_with, split_slash, if◌then◌else◌,
}
use vihara.Api.{
  OwnerReference, MaintenanceDependency, Maintenance, finished, MaintenanceJob, job_finished,
  job_succeeded, job_failed,
}
use vihara.Env.{Error, wrapped, Result, ok, err, Env, M, pure, deref, ◌>>=◌}
use vihara.Env.Clients
use vihara.Controller.Phases.{get_maintenance_from_cache}
use vihara.Controller.JobCache.{get_mt_job_from_cache}

-- How a part of `scheduleMaintenance` ends: with a return, or with the nodes that are not available
-- so far.
pub data Checked : Type 0 where
  stopped : Option Error → Checked
  proceed : List String → Checked

-- The next round of a loop, unless the last one returned.
unfoldable pub on_proceed : Checked → (List String → M Checked) → M Checked
on_proceed (stopped x) f = pure (stopped x)
on_proceed (proceed nodes) f = f nodes

abbrev is_true : Option Bool → Bool
is_true none = false
is_true (some b) = b

-- the `switch` over one owner reference
unfoldable pub refers_to : Maintenance → String → OwnerReference → Bool
refers_to dep_mt dep_name ref =
    ref.name == dep_name
    && ref.kind == "Maintenance"
    && ref.uid == dep_mt.meta.uid
    && is_true ref.block_owner_deletion
    && is_true ref.controller

-- the loop over the owner references
unfoldable pub is_owned_by : Maintenance → String → List OwnerReference → Bool
unfolding refers_to
is_owned_by dep_mt dep_name [] = false
is_owned_by dep_mt dep_name (ref ∷ refs) =
    refers_to dep_mt dep_name ref || is_owned_by dep_mt dep_name refs

-- `job.Finished() && outcome()`
unfoldable pub finished_and : MaintenanceJob → Option Bool → M Bool
unfolding deref
finished_and job outcome = do
  done ← deref (job_finished job)
  if done then deref outcome else pure false

-- Whether a job meets the condition of a dependency; `none` for an unknown condition.
unfoldable pub meets : String → MaintenanceJob → M (Option Bool)
unfolding finished_and
meets condition job =
    if condition == "" || condition == "succeeded"
    then (do met ← finished_and job (job_succeeded job); pure (some met))
    else if condition == "failed"
    then (do met ← finished_and job (job_failed job); pure (some met))
    else pure none

-- The two switches over the condition, for a job of the dependency.
unfoldable pub check_job : MaintenanceDependency → List String → MaintenanceJob → M Checked
check_job dep unavailable job = do
  met ← meets dep.condition job
  elim met [
    | none ↦ pure (stopped none)
    | some true ↦ pure (proceed unavailable)
    | some false ↦
        if dep.individual
        then pure (proceed (job.spec.node_name ∷ unavailable))
        else pure (stopped none)
  ]

-- one round of the loop over the keys, from the job that the cache has
unfoldable pub check_cached :
    MaintenanceDependency → Maintenance → List String → Result MaintenanceJob → M Checked
check_cached dep dep_mt unavailable (err x) =
    pure (stopped (some (wrapped "failed to check maintenance job in cache" x)))
check_cached dep dep_mt unavailable (ok job) =
    if not (is_owned_by dep_mt dep.name job.meta.owner_references)
    then pure (proceed unavailable)
    else check_job dep unavailable job

module _ (e : Env) where
  -- one round of the loop over the keys, from the two parts of a key
  unfoldable pub check_parts :
      MaintenanceDependency → Maintenance → List String → Option (String × String) → M Checked
  check_parts dep dep_mt unavailable none = pure (proceed unavailable)
  check_parts dep dep_mt unavailable (some (namespace, name)) =
      if not (starts_with name (dep.name <> ".")) then pure (proceed unavailable) else do
        cached ← get_mt_job_from_cache e namespace name
        check_cached dep dep_mt unavailable cached

  -- one round of the loop over the keys of the job cache
  unfoldable pub check_key : MaintenanceDependency → Maintenance → List String → String → M Checked
  check_key dep dep_mt unavailable key = check_parts dep dep_mt unavailable (split_slash key)

  unfoldable pub check_keys :
      MaintenanceDependency → Maintenance → List String → List String → M Checked
  check_keys dep dep_mt unavailable [] = pure (proceed unavailable)
  check_keys dep dep_mt unavailable (key ∷ keys) = do
    checked ← check_key dep dep_mt unavailable key
    on_proceed checked (λ nodes. check_keys dep dep_mt nodes keys)

  -- one round of the loop over the dependencies, from the object that the cache has
  unfoldable pub check_found : MaintenanceDependency → List String → Result Maintenance → M Checked
  check_found dep unavailable (err _) = pure (stopped none)
  check_found dep unavailable (ok dep_mt) =
      if not dep.individual && not (finished dep_mt)
      then pure (stopped none)
      else do all ← Clients.list_mt_job_keys; check_keys dep dep_mt unavailable all

  unfoldable pub check_dependency : MaintenanceDependency → List String → M Checked
  check_dependency dep unavailable = do
    cached ← get_maintenance_from_cache e dep.name
    check_found dep unavailable cached

  -- the loop over `spec.Schedule.Depends`
  unfoldable pub check_dependencies : List MaintenanceDependency → List String → M Checked
  check_dependencies [] unavailable = pure (proceed unavailable)
  check_dependencies (dep ∷ deps) unavailable = do
    checked ← check_dependency dep unavailable
    on_proceed checked (λ nodes. check_dependencies deps nodes)
