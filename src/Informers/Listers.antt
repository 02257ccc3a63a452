-- ===== src/Informers/Listers.antt =====
-- The generated listers (pkg/apis/vihara/generated/listers/vihara/v1alpha1), over an indexer of
-- client-go.
use vihara.Prelude.{String, Option, none, some, List, ◌<>◌}
use vihara.Api.{Maintenance, MaintenanceJob}
use vihara.Env.{Error, not_found, Result, ok, err}

-- `GetByKey`, cache.ListAll and cache.ListAllByNamespace with a selector: the items that they hand
-- out, and their error.
pub record Indexer (A : Type 0) : Type 0 where
  pub get_by_key : String → Result (Option A)
  pub list_all : String → List A × Option Error
  pub list_all_by_namespace : String → String → List A × Option Error

-- `Get` of a MaintenanceLister
unfoldable pub get_maintenance : Indexer Maintenance → String → Result Maintenance
get_maintenance indexer name = elim (indexer.get_by_key name) [
  | err x ↦ err x
  | ok none ↦ err (not_found name)
  | ok (some mt) ↦ ok mt
]

-- `List` of a MaintenanceLister: the items are appended one by one
unfoldable pub list_maintenance : Indexer Maintenance → String → List Maintenance × Option Error
list_maintenance indexer selector = indexer.list_all selector

-- `List` of a MaintenanceJobLister
unfoldable pub list_mt_jobs : Indexer MaintenanceJob → String → List MaintenanceJob × Option Error
list_mt_jobs indexer selector = indexer.list_all selector

-- `List` of a MaintenanceJobNamespaceLister
unfoldable pub list_mt_jobs_in :
    Indexer MaintenanceJob → String → String → List MaintenanceJob × Option Error
list_mt_jobs_in indexer ns selector = indexer.list_all_by_namespace ns selector

-- `Get` of a MaintenanceJobNamespaceLister
unfoldable pub get_mt_job : Indexer MaintenanceJob → String → String → Result MaintenanceJob
get_mt_job indexer ns name = elim (indexer.get_by_key (ns <> "/" <> name)) [
  | err x ↦ err x
  | ok none ↦ err (not_found name)
  | ok (some job) ↦ ok job
]
