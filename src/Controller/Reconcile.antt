-- ===== src/Controller/Reconcile.antt =====
-- The controller's configuration and the results of its handlers
-- (pkg/controller/maintenance/controller.go).
use vihara.Prelude.{String, Option, none, some}
use vihara.Conf.{MaintenanceConfig}
use vihara.Env.{Error}

pub record Controller : Type 0 where
  pub config : MaintenanceConfig
  pub job_namespace : String

-- `queue.JobAction`, as far as the handlers use it
pub data Action : Type 0 where
  invalid add update : Action

-- `*reconcile.Result`, nil as `none`
pub record ReconcileResult : Type 0 where
  pub next_action : Action
  pub error : Option Error

abbrev pub next : Action → Option ReconcileResult
next a = some (record { next_action = a; error = none })

abbrev pub failed_with : Error → Option ReconcileResult
failed_with x = some (record { next_action = invalid; error = some x })
