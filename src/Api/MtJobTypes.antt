-- ===== src/Api/MtJobTypes.antt =====
-- The MaintenanceJob object (pkg/apis/vihara/v1alpha1/types_maintenancejob.go).
-- `Finished`, `Succeeded` and `Failed` read the last entry of the status stages by its index,
-- which panics if both stage lists are empty: they return `none` there.
use vihara.Prelude.{String, Bool, false, not, Option, none, some, List, [], eqb}
use vihara.Prelude.{length, get_last?, if◌then◌else◌}
use vihara.Api.Meta.{Time, is_zero?, ObjectMeta, empty_meta}
use vihara.Api.MtTypes.{MaintenanceStage}

pub record MaintenanceJobSpec : Type 0 where
  pub node_name : String
  pub machine_id : String
  pub stages : List MaintenanceStage

pub record MaintenanceJobStageStatus : Type 0 where
  pub name : String
  pub scheduled_at : Option Time
  pub finished_at : Option Time
  pub message : String
  pub reason : String
  pub running : Bool
  pub succeeded : Bool
  pub failed : Bool

pub record MaintenanceJobStatus : Type 0 where
  pub succeeded_at : Option Time
  pub failed_at : Option Time
  pub stages : List MaintenanceJobStageStatus

pub record MaintenanceJob : Type 0 where
  pub meta : ObjectMeta
  pub spec : MaintenanceJobSpec
  pub status : MaintenanceJobStatus

abbrev pub empty_job_status : MaintenanceJobStatus
empty_job_status = record { succeeded_at = none; failed_at = none; stages = [] }

-- `&v1alpha1.MaintenanceJob{}`
abbrev pub empty_maintenance_job : MaintenanceJob
empty_maintenance_job = record {
  meta = empty_meta;
  spec = record { node_name = ""; machine_id = ""; stages = [] };
  status = empty_job_status;
}

-- The test that the three methods share: as many status stages as spec stages, and `test` holds
-- of the last one.
abbrev last_stage : (MaintenanceJobStageStatus → Bool) → MaintenanceJob → Option Bool
last_stage test job =
    if eqb (length job.status.stages) (length job.spec.stages)
    then elim (get_last? job.status.stages) [ none ↦ none | some stage ↦ some (test stage) ]
    else some false

unfoldable pub job_finished : MaintenanceJob → Option Bool
job_finished job = last_stage (λ stage. not (is_zero? stage.finished_at)) job

unfoldable pub job_succeeded : MaintenanceJob → Option Bool
job_succeeded job = last_stage (λ stage. stage.succeeded) job

unfoldable pub job_failed : MaintenanceJob → Option Bool
job_failed job = last_stage (λ stage. stage.failed) job
