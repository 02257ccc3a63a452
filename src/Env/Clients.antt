-- ===== src/Env/Clients.antt =====
-- The calls as actions, with the generated typed clients
-- (pkg/apis/vihara/generated/clientset/versioned/typed/vihara/v1alpha1): on an error the client
-- returns a fresh empty object beside it.
use vihara.Prelude.{String, Bool, Option, none, some, List, insert, keys}
use vihara.Api.{
  Time, Duration, Node, Job, Maintenance, MaintenanceJob, empty_maintenance, empty_maintenance_job,
}
use vihara.Env.{Error, Result, ok, err, EventType, Queue, Call, Env, M, returned, record_call}

module _ (e : Env) where
  -- `time.Now().UTC()`
  unfoldable pub now : M Time
  now s = (returned (e.now s.history), record_call Call.read_clock s)

  unfoldable pub event : String → EventType → String → String → M (Unit {0})
  event name type reason message s =
      (returned tt, record_call (Call.event name type reason message) s)

  -- `UpdateStatus` of the generated maintenance client
  unfoldable pub update_mt_status : Maintenance → M (Maintenance × Option Error)
  update_mt_status mt s = (
    returned (elim (e.put_mt_status s.history mt) [
      | ok mt' ↦ (mt', none)
      | err x ↦ (empty_maintenance, some x)
    ]),
    record_call (Call.update_mt mt) s,
  )

  -- `Delete` of the generated maintenance client
  unfoldable pub delete_mt : String → M (Option Error)
  delete_mt name s = (returned (e.delete_mt s.history name), record_call (Call.delete_mt name) s)

  -- `UpdateStatus` of the generated maintenance job client
  unfoldable pub update_mt_job_status : MaintenanceJob → M (MaintenanceJob × Option Error)
  update_mt_job_status job s = (
    returned (elim (e.put_mt_job_status s.history job) [
      | ok job' ↦ (job', none)
      | err x ↦ (empty_maintenance_job, some x)
    ]),
    record_call (Call.update_mt_job job) s,
  )

  -- `Create` of the generated maintenance job client
  unfoldable pub create_mt_job : MaintenanceJob → M (MaintenanceJob × Option Error)
  create_mt_job job s = (
    returned (elim (e.post_mt_job s.history job) [
      | ok job' ↦ (job', none)
      | err x ↦ (empty_maintenance_job, some x)
    ]),
    record_call (Call.create_mt_job job) s,
  )

  -- the created job is not used
  unfoldable pub create_job : Job → M (Option Error)
  create_job job s = (
    returned (elim (e.post_job s.history job) [ ok job' ↦ none | err x ↦ some x ]),
    record_call (Call.create_job job) s,
  )

  unfoldable pub get_node : String → M (Result Node)
  get_node name s = (returned (e.get_node s.history name), record_call (Call.get_node name) s)

  unfoldable pub list_nodes : String → M (Result (List Node))
  list_nodes selector s =
      (returned (e.list_nodes s.history selector), record_call (Call.list_nodes selector) s)

  unfoldable pub patch_node : String → String → M (Option Error)
  patch_node name patch s =
      (returned (e.patch_node s.history name patch), record_call (Call.patch_node name patch) s)

  unfoldable pub queue_find : Queue → String → M Bool
  queue_find q key s =
      (returned (e.queue_find s.history q key), record_call (Call.queue_find q key) s)

  unfoldable pub queue_remove : Queue → String → M (Unit {0})
  queue_remove q key s = (returned tt, record_call (Call.queue_remove q key) s)

  unfoldable pub offer_with_delay : Queue → String → Duration → M (Option Error)
  offer_with_delay q key delay s =
      (returned (e.offer s.history q key), record_call (Call.offer_with_delay q key delay) s)

  unfoldable pub offer_with_time : Queue → String → Time → M (Option Error)
  offer_with_time q key at s =
      (returned (e.offer s.history q key), record_call (Call.offer_with_time q key at) s)

-- A write through the pointer that an indexer handed out.
unfoldable pub write_mt : String → Maintenance → M (Unit {0})
write_mt key mt s = (returned tt, record s { mt_cache = insert key mt s.mt_cache })

unfoldable pub write_mt_job : String → MaintenanceJob → M (Unit {0})
write_mt_job key job s = (returned tt, record s { mt_job_cache = insert key job s.mt_job_cache })

-- `GetIndexer().ListKeys()` of the job informer
unfoldable pub list_mt_job_keys : M (List String)
list_mt_job_keys s = (returned (keys s.mt_job_cache), s)
