-- ===== src/Controller/Schedule.antt =====
-- `scheduleMaintenance` (pkg/controller/maintenance/maintenance.go).
pub mod Window
pub mod Snapshot
pub mod Offers
pub mod Marking
use vihara.Prelude.{
  String, not, ◌||◌, Option, none, some, List, [], ◌==◌, ◌<>◌, is_empty, if◌then◌else◌,
}
use vihara.Api.{
  Node, MaintenanceJob, Time, MaintenanceSpec, Maintenance, canceled, started, scheduled, expired,
}
use vihara.Env.{
  Error, errorf, wrapped, is_not_found, Result, ok, err, normal, Env, M, pure, ◌>>=◌, ◌>>◌,
}
use vihara.Env.Clients
use vihara.Controller.Reconcile.{Controller}
use vihara.Controller.Phases.{get_maintenance_from_cache}
use vihara.Controller.Dependencies.{Checked, stopped, proceed, check_dependencies}
use vihara.Controller.Creation.{build_jobs, create_jobs, max_rounds}

-- A return, or the object to go on with.
pub data Marked : Type 0 where
  stop : Option Error → Marked
  go : Maintenance → Marked

module _ (e : Env) where
  abbrev pub with_schedule : Maintenance → Time → String → Maintenance
  with_schedule mt at spec_json = record mt {
    status = record mt.status {
      scheduled = record {
        at = some at;
        by = e.this_pod;
        spec_snapshot = spec_json;
        spec_snapshot_hash = e.sha256_hex spec_json;
      };
    };
  }

  -- The first scheduling of an object: its snapshot is written to the cache's object, and then
  -- submitted.
  unfoldable pub mark_scheduled : String → Maintenance → M Marked
  mark_scheduled name mt = if scheduled mt then pure (go mt) else elim (e.marshal_spec mt.spec) [
    | err x ↦ pure (
        stop (
          some (
            wrapped ("failed to encode spec of maintenance " <> e.quote mt.meta.name <> " to json")
              x)))
    | ok spec_json ↦ do
      at ← Clients.now e
      Clients.write_mt name (with_schedule mt at spec_json)
      (mt', x) ← Clients.update_mt_status e (with_schedule mt at spec_json)
      elim x [
        | none ↦ pure (go mt')
        | some x' ↦ pure (stop (if is_not_found x' then none else some x'))
      ]
  ]

  -- the snapshot of a scheduled object, after its checks
  unfoldable pub load_snapshot : Maintenance → M (Result MaintenanceSpec)
  load_snapshot mt =
      let snapshot = mt.status.scheduled.spec_snapshot in
      let hash = mt.status.scheduled.spec_snapshot_hash in
      if snapshot == "" || hash == ""
      then (do
        Clients.event e mt.meta.name normal "InvalidObject"
            "spec snapshot and its sha256 hash not set for scheduled maintenance"
        pure (err (errorf "invalid object at scheduled stage")))
      else if not (e.sha256_hex snapshot == hash)
      then (do
        Clients.event e mt.meta.name normal "InvalidObject"
            "spec snapshot does not match its sha256 hash"
        pure (err (errorf "failed to validate spec snapshot")))
      else elim (e.unmarshal_spec snapshot) [
        | err x ↦ pure (err (wrapped "failed to decode spec from json" x))
        | ok spec ↦ pure (ok spec)
      ]

module _ (e : Env) (c : Controller) where
  -- the creation of the jobs, if they could be made
  unfoldable pub create_built : Result (List MaintenanceJob) → M (Option Error)
  create_built (err x) = pure (some x)
  create_built (ok jobs) = do create_jobs e max_rounds jobs; pure none

  -- the jobs of the nodes, if these could be listed
  unfoldable pub create_listed :
      Maintenance → MaintenanceSpec → List String → Result (List Node) → M (Option Error)
  create_listed mt spec unavailable (err x) = pure (some x)
  create_listed mt spec unavailable (ok nodes) = do
    built ← build_jobs e c mt spec unavailable nodes
    create_built built

  -- the nodes of the snapshot and their jobs
  unfoldable pub create_for_nodes : Maintenance → MaintenanceSpec → List String → M (Option Error)
  create_for_nodes mt spec unavailable = do
    listed ←
        Clients.list_nodes e
          (if is_empty spec.node_selector then "" else e.selector_from_set spec.node_selector)
    create_listed mt spec unavailable listed

  -- after the dependency checks
  unfoldable pub create_checked : Maintenance → MaintenanceSpec → Checked → M (Option Error)
  create_checked mt spec (stopped x) = pure x
  create_checked mt spec (proceed unavailable) = create_for_nodes mt spec unavailable

  -- from the specification of the snapshot on
  unfoldable pub schedule_loaded : Maintenance → Result MaintenanceSpec → M (Option Error)
  schedule_loaded mt (err x) = pure (some x)
  schedule_loaded mt (ok spec) = do
    checked ← check_dependencies e spec.schedule.depends []
    create_checked mt spec checked

  -- everything from the validation of the snapshot on
  unfoldable pub schedule_snapshot : Maintenance → M (Option Error)
  schedule_snapshot mt = do loaded ← load_snapshot e mt; schedule_loaded mt loaded

  -- `scheduleMaintenance`
  unfoldable pub schedule_maintenance : String → M (Option Error)
  unfolding mark_scheduled
  schedule_maintenance name = do
    cached ← get_maintenance_from_cache e name
    elim cached [
      | err x ↦ pure (some x)
      | ok mt ↦ if canceled mt then pure none else do
        now ← Clients.now e
        if expired mt now
            then (do
              Clients.event e mt.meta.name normal "Expired" "will finish in no time"
              pure none)
            else if not (started mt now)
            then pure none
            else do
              marked ← mark_scheduled e name mt
              elim marked [ stop x ↦ pure x | go mt' ↦ schedule_snapshot mt' ]
    ]
