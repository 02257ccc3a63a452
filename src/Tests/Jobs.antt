-- ===== src/Tests/Jobs.antt =====
-- The handlers of jobs and the scheduling of stages on concrete objects.

use vihara.Controller.Process.{process_mt_job}
use vihara.Controller.Process.Requeue.{offers-process_mt_job}
use vihara.Prelude.{
  List, map, ◌++◌, All, none, insert, lookup, ◌≡◌, refl, some, [], ◌∷◌, pos, arith, ◌+ℤ◌,
}
use vihara.Api.{Job, job_finished, MaintenanceJob, MaintenanceJobStageStatus}
use vihara.Env.{mt_job_queue, State, panicked, ◌>>=◌, pure, deref}
use vihara.Env.Clients.{now, event, write_mt_job, update_mt_job_status, create_job}
use vihara.Controller.JobCache.{get_mt_job_from_cache, cached_mt_job}
use vihara.Env.Trace.{mt_job_updates, patches, job_creations, offers, Due}
use vihara.Controller.Generate.{job_with_pod, generate_job}
use vihara.Controller.JobEvents.{on_mt_job_added, on_job_updated}
use vihara.Controller.JobEvents.Added.{IsBlank, updates-on_mt_job_added, on_mt_job_added_panics}
use vihara.Controller.JobEvents.Updates.{on_job_updated_submits_nothing}
use vihara.Controller.Stages.{
  Handle, run_stages, stage_round, start_stage, previous_finish, submit_stage, submit, assign,
  schedule_mt_job, with_stages, mark_started, run_running,
}
use vihara.Controller.Stages.Running.{run_running_uncordon_panics, timed_out, run_running_drain}
use vihara.Controller.Stages.Sequence.{run_stages_skips_drain}
use vihara.Tests.World.{
  env, start, drain_stage, pod_stage, controller, uncordon_stage, drain_spec, pod_spec, pending,
  running_since, job_of,
}

abbrev new_job : MaintenanceJob
new_job = job_of (drain_stage ∷ pod_stage ∷ []) []

-- The first stage has its status.
abbrev half_job : MaintenanceJob
half_job = job_of (drain_stage ∷ pod_stage ∷ []) (pending "drain" ∷ [])

updates-on_mt_job_added_example :
    (new : List MaintenanceJobStageStatus) × All IsBlank new
    × (map (λ st. st.name) new ≡ "pod" ∷ [])
    × (mt_job_updates (on_mt_job_added env half_job start).1.history
        ≡ record half_job {
          status = record (half_job.status) { stages = (pending "drain" ∷ []) ++ new };
        }
          ∷ [])
unfolding job_finished
updates-on_mt_job_added_example = updates-on_mt_job_added env half_job start

on_mt_job_added_panics_example : (on_mt_job_added env (job_of [] []) start).0 ≡ panicked
on_mt_job_added_panics_example = on_mt_job_added_panics env (job_of [] []) start refl refl

-- a job whose two stages were never started, and the Kubernetes job of the second, done
abbrev open_job : MaintenanceJob
open_job = job_of (drain_stage ∷ pod_stage ∷ []) (pending "drain" ∷ pending "pod" ∷ [])

abbrev done_pod : Job
done_pod =
    let job = job_with_pod open_job pod_stage pod_spec in
    record job { status = record (job.status) { succeeded = pos 1 } }

abbrev with_open_job : State
with_open_job = record start { mt_job_cache = ("vihara/mt.node-1", open_job) ∷ [] }

on_job_updated_submits_nothing_example :
    (mt_job_updates (on_job_updated env done_pod with_open_job).1.history ≡ [])
    × ((on_job_updated env done_pod with_open_job).1.mt_job_cache
        ≡ ("vihara/mt.node-1", open_job) ∷ [])
on_job_updated_submits_nothing_example = on_job_updated_submits_nothing env done_pod with_open_job

abbrev handle : MaintenanceJob → Handle
handle job = record { job = job; cached_as = some "vihara/mt.node-1" }

abbrev uncordoning : MaintenanceJob
uncordoning = job_of (uncordon_stage ∷ []) (running_since 950 "uncordon" ∷ [])

run_running_uncordon_panics_example :
    (run_running env (handle uncordoning) 0 (running_since 950 "uncordon") uncordon_stage start).0
    ≡ panicked
unfolding ◌+ℤ◌
run_running_uncordon_panics_example =
    run_running_uncordon_panics env (handle uncordoning) 0 (running_since 950 "uncordon")
      uncordon_stage start refl refl refl refl

abbrev overdue : MaintenanceJob
overdue = job_of (drain_stage ∷ []) (running_since 800 "drain" ∷ [])

-- The stage was started at 800 and has a timeout of 100; it is 1000.
run_running_drain_example :
    (mt_job_updates
        (run_running env (handle overdue) 0 (running_since 800 "drain") drain_stage start).1.history
      ≡ with_stages overdue (timed_out (pos 1_002) (running_since 800 "drain") ∷ []) ∷ [])
    × (patches
          (run_running env
            (handle overdue)
            0
            (running_since 800 "drain")
            drain_stage
            start).1.history
        ≡ [])
unfolding ◌+ℤ◌ now event
run_running_drain_example =
    run_running_drain env (handle overdue) 0 (running_since 800 "drain") drain_stage start refl refl
      refl

run_stages_skips_drain_example :
    (job_creations
        (run_stages env (handle open_job) 0 (pending "drain" ∷ pending "pod" ∷ []) start).1.history
      ≡ job_with_pod
          (with_stages open_job (mark_started (pos 1_001) (pending "drain") ∷ pending "pod" ∷ []))
          pod_stage
          pod_spec
        ∷ [])
    × (mt_job_updates
          (run_stages env
            (handle open_job)
            0
            (pending "drain" ∷ pending "pod" ∷ [])
            start).1.history
        ≡ with_stages open_job (mark_started (pos 1_001) (pending "drain") ∷ pending "pod" ∷ [])
          ∷ [])
unfolding ◌+ℤ◌ now
run_stages_skips_drain_example =
    run_stages_skips_drain env (handle open_job) (pending "drain") (pending "pod") drain_stage
      pod_stage [] [] drain_spec pod_spec refl refl (refl, refl, refl, refl)
      (refl, refl, refl, refl) refl refl refl refl (λ q. ground arith) (λ q job. refl) start refl

-- the first stage is started, and the pod of the second is created
offers-process_mt_job_example :
    offers (process_mt_job env controller "mt.node-1" with_open_job).1.history
    ≡ (mt_job_queue, "mt.node-1", Due.after controller.config.jobs.poll_interval) ∷ []
unfolding lookup ◌+ℤ◌ now schedule_mt_job get_mt_job_from_cache cached_mt_job ◌>>=◌ pure deref
    run_stages stage_round start_stage previous_finish submit_stage submit assign write_mt_job
    update_mt_job_status generate_job create_job insert
offers-process_mt_job_example =
    offers-process_mt_job env controller "mt.node-1"
      (with_stages open_job (mark_started (pos 1_001) (pending "drain") ∷ pending "pod" ∷ []))
      with_open_job {x = none} refl refl refl (omega arith)
