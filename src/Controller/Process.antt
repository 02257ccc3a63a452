-- ===== src/Controller/Process.antt =====
-- What the two queue consumers do with a key that is due, and the start of the controller
-- (pkg/controller/maintenance/controller.go). Errors are logged.
pub mod Requeue
use vihara.Prelude.{String, Bool, not, Option, none, some, List, [], ◌∷◌, if◌then◌else◌}
use vihara.Env.{Error, errorf, Env, M, pure, ◌>>=◌, ◌>>◌}
use vihara.Controller.Reconcile.{Controller}
use vihara.Controller.Phases.{enqueue_maintenance}
use vihara.Controller.Schedule.{schedule_maintenance}
use vihara.Controller.Stages.{schedule_mt_job}
use vihara.Controller.JobCache.{enqueue_mt_job}

module _ (e : Env) (c : Controller) where
  -- `processMaintenanceSchedule`
  unfoldable pub process_maintenance : String → M (Unit {0})
  process_maintenance name = do
    _ ← schedule_maintenance e c name
    _ ← enqueue_maintenance e name c.config.schedule.poll_interval
    pure tt

  -- `processMaintenanceJobSchedule`
  unfoldable pub process_mt_job : String → M (Unit {0})
  process_mt_job name = do
    _ ← schedule_mt_job e c.job_namespace name
    _ ← enqueue_mt_job e c.job_namespace name c.config.jobs.poll_interval
    pure tt

-- A key that one of the two queues gives out when it is due.
pub data TakenKey : Type 0 where
  mt_taken mt_job_taken : String → TakenKey

-- What `Start` gets from the informers and the queues: the errors of the three first listings,
-- whether the caches have synced, and the keys that the queues give out until the context is done.
-- The two consumers run side by side: the keys come in the order in which they are handled.
pub record Startup : Type 0 where
  pub mt_list_error : Option Error
  pub mt_job_list_error : Option Error
  pub job_list_error : Option Error
  pub synced : Bool
  pub taken : List TakenKey

module _ (e : Env) (c : Controller) where
  -- the two loops over the channels of the queues
  unfoldable pub consume : List TakenKey → M (Unit {0})
  consume [] = pure tt
  consume (mt_taken name ∷ keys) = do process_maintenance e c name; consume keys
  consume (mt_job_taken name ∷ keys) = do process_mt_job e c name; consume keys

  -- the function that `Start` passes to `OnStart`
  unfoldable pub start_body : Startup → M (Option Error)
  start_body u = elim u.mt_list_error [
    | some x ↦ pure (some x)
    | none ↦ elim u.mt_job_list_error [
      | some x ↦ pure (some x)
      | none ↦ elim u.job_list_error [
        | some x ↦ pure (some x)
        | none ↦
            if not u.synced
            then pure (some (errorf "failed to sync resource cache"))
            else do consume u.taken; pure none
      ]
    ]
  ]
