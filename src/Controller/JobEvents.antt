-- ===== src/Controller/JobEvents.antt =====
-- The handlers of MaintenanceJob objects (pkg/controller/maintenance/maintenencejob.go) and of
-- Kubernetes jobs (job.go).
pub mod Updates
pub mod Added
use vihara.Prelude.{
  String, Bool, true, false, not, ◌||◌, Option, none, some, List, [], ◌∷◌, ◌++◌, ◌==◌, ◌<>◌, map,
  lookup, length, drop, get_last?, ltb, pos, eqb_ℤ, if◌then◌else◌,
}
use vihara.Api.{
  Time, is_zero?, equal_time, OwnerReference, MaintenanceStage, MaintenanceJob,
  MaintenanceJobStageStatus, job_finished, Job,
}
use vihara.Env.{normal, Env, M, returned, pure, deref, ◌>>=◌, ◌>>◌}
use vihara.Env.Clients
use vihara.Controller.Reconcile.{ReconcileResult, failed_with}
use vihara.Controller.Generate.{label_maintenance_stage}
use vihara.Controller.JobCache.{enqueue_mt_job}
use vihara.Controller.Stages.{with_stages}

-- The status of a stage before it is scheduled.
abbrev pub blank_status : MaintenanceStage → MaintenanceJobStageStatus
blank_status stage = record {
  name = stage.name;
  scheduled_at = none;
  finished_at = none;
  message = "";
  reason = "";
  running = false;
  succeeded = false;
  failed = false;
}

-- The status stages, with one for each stage of the specification that has none.
unfoldable pub fill_stages :
    List MaintenanceJobStageStatus → List MaintenanceStage → List MaintenanceJobStageStatus
fill_stages stages specs = stages ++ map blank_status (drop (length stages) specs)

module _ (e : Env) where
  -- the end of `onMaintenanceJobAdded`
  unfoldable pub enqueue_added : MaintenanceJob → M (Option ReconcileResult)
  enqueue_added job = do
    x ← enqueue_mt_job e job.meta.namespace job.meta.name (pos 0)
    pure (elim x [ none ↦ none | some x' ↦ failed_with x' ])

  -- `onMaintenanceJobAdded`
  unfoldable pub on_mt_job_added : MaintenanceJob → M (Option ReconcileResult)
  on_mt_job_added job = do
    done ← deref (job_finished job)
    if done
        then pure none
        else if ltb (length job.spec.stages) (length job.status.stages)
        then (do
          Clients.event e job.meta.name normal "InvalidStatus"
              "status stages are more than spec stages"
          pure none)
        else if ltb (length job.status.stages) (length job.spec.stages)
        then (do
          (job', x) ←
              Clients.update_mt_job_status e
                (with_stages job (fill_stages job.status.stages job.spec.stages))
          elim x [ some x' ↦ pure (failed_with x') | none ↦ enqueue_added job' ])
        else enqueue_added job

  -- `onMaintenanceJobUpdated`, `onMaintenanceJobDeleting`, `onMaintenanceJobDeleted`
  unfoldable pub on_mt_job_other : MaintenanceJob → M (Option ReconcileResult)
  on_mt_job_other job = pure none

-- `metav1.GetControllerOf`
unfoldable pub get_controller_of : List OwnerReference → Option OwnerReference
get_controller_of [] = none
get_controller_of (ref ∷ refs) = elim ref.controller [
  | some true ↦ some ref
  | some false ↦ get_controller_of refs
  | none ↦ get_controller_of refs
]

-- The status of a stage, from its Kubernetes job and the finish time that the handler chose.
unfoldable pub status_of_job : Job → String → Option Time → MaintenanceJobStageStatus
status_of_job job stage_name finish = record {
  name = stage_name;
  scheduled_at = some job.meta.creation_timestamp;
  finished_at = finish;
  message = elim (get_last? job.status.conditions) [ none ↦ "" | some last ↦ last.message ];
  reason = elim (get_last? job.status.conditions) [ none ↦ "" | some last ↦ last.reason ];
  running = eqb_ℤ job.status.active (pos 1);
  succeeded = eqb_ℤ job.status.succeeded (pos 1);
  failed = eqb_ℤ job.status.failed (pos 1);
}

abbrev bool_eq : Bool → Bool → Bool
bool_eq true b = b
bool_eq false b = not b

-- Whether the `switch` takes one of its cases, and so not `default`. Its fifth case compares the
-- old finish time with itself.
unfoldable pub takes_case : MaintenanceJobStageStatus → MaintenanceJobStageStatus → Bool
takes_case old new =
    equal_time old.scheduled_at new.scheduled_at
    || bool_eq old.running new.running
    || bool_eq old.succeeded new.succeeded
    || bool_eq old.failed new.failed
    || equal_time old.finished_at old.finished_at
    || old.reason == new.reason
    || old.message == new.message

module _ (e : Env) where
  -- the finish time of the new status
  unfoldable pub finish_time : Job → M (Option Time)
  finish_time job =
      if eqb_ℤ job.status.succeeded (pos 1) || eqb_ℤ job.status.failed (pos 1)
      then elim job.status.completion_time [
        | some t ↦ pure (some t)
        | none ↦ do at ← Clients.now e; pure (some at)
      ]
      else pure none

  -- The loop over the status stages: the new stages and whether an update is needed.
  unfoldable pub update_stages :
      Job → String → List MaintenanceJobStageStatus → M (List MaintenanceJobStageStatus × Bool)
  update_stages job stage_name [] = pure ([], false)
  update_stages job stage_name (old ∷ stages) = elim (old.name == stage_name) [
    | false ↦ do
      (stages', needed) ← update_stages job stage_name stages
      pure (old ∷ stages', needed)
    | true ↦ elim (is_zero? old.finished_at) [
      | false ↦ pure (old ∷ stages, false)
      | true ↦ do
        finish ← finish_time job
        (stages', needed) ← update_stages job stage_name stages
        let new = status_of_job job stage_name finish
        pure (new ∷ stages', not (takes_case old new) || needed)
    ]
  ]

  -- the end of `onJobUpdated`, with a copy of the cached object
  unfoldable pub update_from_job : Job → MaintenanceJob → String → M (Option ReconcileResult)
  update_from_job job mt_job stage_name = do
    (stages, needed) ← update_stages job stage_name mt_job.status.stages
    if not needed then pure none else do
      (_, x) ← Clients.update_mt_job_status e (with_stages mt_job stages)
      pure (elim x [ none ↦ none | some x' ↦ failed_with x' ])

  -- The object that the handler finds in the cache; an error of the cache is a missing object.
  unfoldable pub find_mt_job : String → M (Option MaintenanceJob)
  find_mt_job key s = (
    returned
        (elim (e.cache_error s.history key) [ some _ ↦ none | none ↦ lookup key s.mt_job_cache ]),
    s,
  )

  unfoldable pub update_found : Job → String → Option MaintenanceJob → M (Option ReconcileResult)
  update_found job stage_name none = pure none
  update_found job stage_name (some mt_job) = update_from_job job mt_job stage_name

  -- the part of `onJobUpdated` from the label of the stage on
  unfoldable pub update_labelled : Job → OwnerReference → Option String → M (Option ReconcileResult)
  update_labelled job owner none = pure none
  update_labelled job owner (some stage_name) = do
    found ← find_mt_job (job.meta.namespace <> "/" <> owner.name)
    update_found job stage_name found

  unfoldable pub update_owned : Job → Option OwnerReference → M (Option ReconcileResult)
  update_owned job none = pure none
  update_owned job (some owner) =
      if not (owner.kind == "MaintenanceJob")
      then pure none
      else update_labelled job owner (lookup label_maintenance_stage job.meta.labels)

  -- `onJobUpdated`
  unfoldable pub on_job_updated : Job → M (Option ReconcileResult)
  on_job_updated job = update_owned job (get_controller_of job.meta.owner_references)

  -- `onJobAdded`, `onJobDeleting`, `onJobDeleted`
  unfoldable pub on_job_other : Job → M (Option ReconcileResult)
  on_job_other job = pure none
