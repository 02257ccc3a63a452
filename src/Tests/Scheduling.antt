-- ===== src/Tests/Scheduling.antt =====
-- `scheduleMaintenance` on concrete objects.
use mathlib.Core.List.{Memᴰ}
use vihara.Prelude.{
  none, All, ◌≡◌, ◌⊎◌, refl, true, some, [], ◌∷◌, pos, lookup, has_slash, format_hex, keys,
  split_slash,
}
use vihara.Api.{
  empty_spec, Maintenance, MaintenanceDependency, MaintenanceJob, canceled, expired, finished,
  started, scheduled, job_finished, job_succeeded,
}
use vihara.Env.{mt_queue, State, other, returned, ok, ◌>>=◌, pure}
use vihara.Env.Clients.{now, event, list_mt_job_keys, list_nodes, create_mt_job}
use vihara.Controller.Schedule.Snapshot.{CreatesFromSnapshot, creations-schedule_snapshot}
use vihara.Env.Trace.{mt_updates, offers, Due, mt_job_creations}
use vihara.Controller.Phases.{cached_mt, get_maintenance_from_cache}
use vihara.Controller.JobCache.{cached_mt_job, get_mt_job_from_cache}
use vihara.Controller.Generate.{new_controller_ref, generate_maintenance_job}
use vihara.Controller.Schedule.{
  schedule_snapshot, load_snapshot, schedule_loaded, create_checked, create_for_nodes,
  create_listed, create_built, schedule_maintenance, mark_scheduled, with_schedule, go,
}
use vihara.Controller.Process.{process_maintenance}
use vihara.Controller.Process.Requeue.{offers-process_maintenance}
use vihara.Controller.Schedule.Window.{IsDue, schedule_maintenance_window}
use vihara.Controller.Schedule.Marking.{mark_scheduled_refused}
use vihara.Controller.Dependencies.{
  proceed, on_proceed, refers_to, is_owned_by, meets, check_job, check_cached, check_parts,
  check_key, check_keys, check_found, check_dependency, check_dependencies,
}
use vihara.Controller.Dependencies.Keys.{IsClear}
use vihara.Controller.Dependencies.Soundness.{check_dependencies-IsClear}
use vihara.Controller.Creation.Selection.{IsFor, build_jobs-IsFor}
use vihara.Controller.Creation.{build_jobs, build_job, each, is_selected, free_name, create_jobs}
use vihara.Tests.World.{
  env, node_1, refusing, controller, start, mt_new, mt_admitted, holding, drain_stage, pending,
  job_of,
}

schedule_maintenance_window_example :
    ((mt_job_creations
          (schedule_maintenance env controller "mt" (holding (mt_admitted 560 2_000))).1.history
        ≡ [])
      × (mt_updates
            (schedule_maintenance env controller "mt" (holding (mt_admitted 560 2_000))).1.history
          ≡ []))
    ⊎ ((mt : Maintenance) × (lookup "mt" (holding (mt_admitted 560 2_000)).mt_cache ≡ some mt)
        × IsDue env controller "mt" (holding (mt_admitted 560 2_000)) mt)
schedule_maintenance_window_example =
    schedule_maintenance_window env controller "mt" (holding (mt_admitted 560 2_000))

mark_scheduled_refused_example :
    (lookup "mt" (mark_scheduled refusing "mt" (mt_admitted 560 2_000) start).1.mt_cache
      ≡ some (with_schedule refusing (mt_admitted 560 2_000) (pos 1_000) "{}"))
    × (mark_scheduled refusing "mt"
          (with_schedule refusing (mt_admitted 560 2_000) (pos 1_000) "{}")
          (mark_scheduled refusing "mt" (mt_admitted 560 2_000) start).1
        ≡ (
          returned (go (with_schedule refusing (mt_admitted 560 2_000) (pos 1_000) "{}")),
          (mark_scheduled refusing "mt" (mt_admitted 560 2_000) start).1,
        ))
unfolding scheduled now
mark_scheduled_refused_example =
    mark_scheduled_refused refusing "mt" (mt_admitted 560 2_000) start {x = other "conflict"} refl
      refl refl refl

-- a dependency on the success of `mt`, whose one job on `node-1` has succeeded
abbrev on_success : MaintenanceDependency
on_success = record { name = "mt"; individual = true; condition = "succeeded" }

abbrev done_job : MaintenanceJob
done_job =
    let stages = record (pending "drain") { finished_at = some (pos 900); succeeded = true } ∷ [] in
    let job = job_of (drain_stage ∷ []) stages in
    record job {
      meta = record (job.meta) {
        owner_references = new_controller_ref mt_new.meta "Maintenance" ∷ [];
      };
    }

abbrev after_done : State
after_done = record (holding mt_new) { mt_job_cache = ("vihara/mt.node-1", done_job) ∷ [] }

check_dependencies_passes :
    (check_dependencies env (on_success ∷ []) [] after_done).0 ≡ returned (proceed [])
unfolding check_dependencies check_dependency check_found check_keys check_key check_parts
    check_cached check_job meets on_proceed refers_to is_owned_by new_controller_ref
    get_maintenance_from_cache get_mt_job_from_cache cached_mt cached_mt_job list_mt_job_keys
    job_finished job_succeeded lookup keys split_slash ◌>>=◌
check_dependencies_passes = refl

check_dependencies-IsClear_example : IsClear on_success [] done_job
unfolding lookup has_slash is_owned_by new_controller_ref refers_to
check_dependencies-IsClear_example =
    check_dependencies-IsClear env (on_success ∷ []) [] [] after_done on_success mt_new "vihara"
      "mt.node-1" done_job check_dependencies_passes (Memᴰ.head refl) refl refl refl refl refl refl

-- a job for another machine, whose name `done_job` has
abbrev other_machine : MaintenanceJob
other_machine = record done_job { spec = record (done_job.spec) { machine_id = "m2" } }

-- The second name is free.
free_name_second :
    (free_name env other_machine 3 1 "mt.node-1" after_done).0 ≡ returned (some "mt.node-1-2")
unfolding free_name get_mt_job_from_cache cached_mt_job lookup ◌>>=◌ format_hex pure
free_name_second = refl

-- one node, and no other requirement
abbrev built : MaintenanceJob
built = generate_maintenance_job [] [] "node-1" "m1" mt_new empty_spec "vihara" (pos 3_600)

build_one :
    (build_jobs env controller mt_new empty_spec ("node-2" ∷ []) (node_1 ∷ []) start).0
    ≡ returned (ok (built ∷ []))
unfolding build_jobs build_job each is_selected pure ◌>>=◌
build_one = refl

build_jobs-IsFor_example : All (IsFor env empty_spec ("node-2" ∷ []) (node_1 ∷ [])) (built ∷ [])
build_jobs-IsFor_example =
    build_jobs-IsFor env controller mt_new empty_spec ("node-2" ∷ []) (node_1 ∷ []) start
      (built ∷ []) build_one

-- scheduled with a snapshot, which decodes to the empty specification
abbrev mt_scheduled : Maintenance
mt_scheduled = with_schedule env (mt_admitted 560 2_000) (pos 900) "{}"

creations-schedule_snapshot_example :
    (mt_job_creations (schedule_snapshot env controller mt_scheduled start).1.history ≡ [])
    ⊎ CreatesFromSnapshot env controller mt_scheduled start
        (schedule_snapshot env controller mt_scheduled start).1
creations-schedule_snapshot_example = creations-schedule_snapshot env controller mt_scheduled start

-- The job of the one node is created.
creations_of_one :
    mt_job_creations (schedule_snapshot env controller mt_scheduled start).1.history ≡ built ∷ []
unfolding schedule_snapshot load_snapshot schedule_loaded check_dependencies create_checked
    create_for_nodes create_listed create_built build_jobs build_job each is_selected create_jobs
    free_name get_mt_job_from_cache cached_mt_job list_nodes create_mt_job lookup pure ◌>>=◌
    generate_maintenance_job
creations_of_one = refl

-- a pass within the schedule, which creates the job of the one node
offers-process_maintenance_example :
    offers (process_maintenance env controller "mt" (holding mt_scheduled)).1.history
    ≡ (mt_queue, "mt", Due.after controller.config.schedule.poll_interval) ∷ []
unfolding schedule_maintenance mark_scheduled get_maintenance_from_cache cached_mt event canceled
    expired finished started scheduled now schedule_snapshot load_snapshot schedule_loaded
    check_dependencies create_checked create_for_nodes create_listed create_built build_jobs
    build_job each is_selected create_jobs free_name get_mt_job_from_cache cached_mt_job list_nodes
    create_mt_job lookup pure ◌>>=◌ generate_maintenance_job
offers-process_maintenance_example =
    offers-process_maintenance env controller "mt" mt_scheduled (holding mt_scheduled) {x = none}
      {since = pos 560} refl refl refl refl refl refl refl
