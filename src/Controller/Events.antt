-- ===== src/Controller/Events.antt =====
-- The events of the three informers and the handlers that `NewController` gives to their
-- reconcilers (pkg/controller/maintenance/controller.go).
pub mod Deletions
use vihara.Prelude.{Option}
use vihara.Api.{Maintenance, MaintenanceJob, Job}
use vihara.Env.{Env, M}
use vihara.Controller.Reconcile.{Controller, ReconcileResult}
use vihara.Controller.Phases.{
  on_maintenance_added, on_maintenance_updated, on_maintenance_deleting, on_maintenance_deleted,
}
use vihara.Controller.JobEvents.{on_mt_job_added, on_mt_job_other, on_job_updated, on_job_other}

-- Of an update, the handlers read the new object only.
pub data Event : Type 0 where
  mt_added mt_updated mt_deleting mt_deleted : Maintenance → Event
  mt_job_added mt_job_updated mt_job_deleting mt_job_deleted : MaintenanceJob → Event
  job_added job_updated job_deleting job_deleted : Job → Event

module _ (e : Env) (c : Controller) where
  -- the three `HandleFuncs`
  unfoldable pub handle : Event → M (Option ReconcileResult)
  handle (mt_added mt) = on_maintenance_added e c mt
  handle (mt_updated mt) = on_maintenance_updated e c mt
  handle (mt_deleting mt) = on_maintenance_deleting e c mt
  handle (mt_deleted mt) = on_maintenance_deleted e c mt
  handle (mt_job_added job) = on_mt_job_added e job
  handle (mt_job_updated job) = on_mt_job_other e job
  handle (mt_job_deleting job) = on_mt_job_other e job
  handle (mt_job_deleted job) = on_mt_job_other e job
  handle (job_added job) = on_job_other e job
  handle (job_updated job) = on_job_updated e job
  handle (job_deleting job) = on_job_other e job
  handle (job_deleted job) = on_job_other e job
