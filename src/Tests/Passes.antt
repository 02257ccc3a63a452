-- ===== src/Tests/Passes.antt =====
-- Passes of `scheduleMaintenanceJob` behind stages that have succeeded, on concrete objects.
use vihara.Prelude.{◌≡◌, refl, ℕ, true, some, [], ◌∷◌, pos, length, get_elem?, ◌+ℤ◌}
use vihara.Api.{job_succeeded, MaintenanceJob, MaintenanceJobStageStatus}
use vihara.Env.Trace.{mt_job_updates, job_creations}
use vihara.Controller.Generate.{job_with_pod}
use vihara.Controller.Stages.{Handle, run_stages}
use vihara.Controller.Stages.Order.{with_failure, run_stages_fails_fast, run_stages_starts_pod}
use vihara.Controller.Stages.Completion.{with_success, run_stages_completes}
use vihara.Tests.World.{env, start, drain_stage, pod_stage, pod_spec, pending, job_of}

abbrev passed_at : ℕ → MaintenanceJobStageStatus
passed_at at = record (pending "drain") { finished_at = some (pos at); succeeded = true }

abbrev failed_at_950 : MaintenanceJobStageStatus
failed_at_950 = record (pending "pod") { finished_at = some (pos 950); failed = true }

abbrev cached : MaintenanceJob → Handle
cached job = record { job = job; cached_as = some "vihara/mt.node-1" }

abbrev failing : MaintenanceJob
failing = job_of (drain_stage ∷ pod_stage ∷ []) (passed_at 900 ∷ failed_at_950 ∷ [])

run_stages_fails_fast_example :
    (mt_job_updates
        (run_stages env (cached failing) 0 (passed_at 900 ∷ failed_at_950 ∷ []) start).1.history
      ≡ with_failure failing failed_at_950 ∷ [])
    × (job_creations
          (run_stages env (cached failing) 0 (passed_at 900 ∷ failed_at_950 ∷ []) start).1.history
        ≡ [])
unfolding job_succeeded
run_stages_fails_fast_example =
    run_stages_fails_fast env (cached failing) refl (passed_at 900 ∷ []) [] failed_at_950 start
      ((refl, refl, refl), tt) refl refl

abbrev half_way : MaintenanceJob
half_way = job_of (drain_stage ∷ pod_stage ∷ []) (passed_at 900 ∷ pending "pod" ∷ [])

run_stages_starts_pod_example :
    (job_creations
        (run_stages env (cached half_way) 0 (passed_at 900 ∷ pending "pod" ∷ []) start).1.history
      ≡ job_with_pod half_way pod_stage pod_spec ∷ [])
    × (mt_job_updates
          (run_stages env (cached half_way) 0 (passed_at 900 ∷ pending "pod" ∷ []) start).1.history
        ≡ [])
unfolding job_succeeded ◌+ℤ◌
run_stages_starts_pod_example =
    run_stages_starts_pod env (cached half_way) refl [] [] (passed_at 900) (pending "pod") pod_stage
      pod_spec (pos 900) start refl tt (refl, refl, refl) refl refl refl refl refl refl refl refl

abbrev complete : MaintenanceJob
complete = job_of (drain_stage ∷ pod_stage ∷ []) (passed_at 900 ∷ passed_at 950 ∷ [])

run_stages_completes_example :
    (length (
        mt_job_updates
          (run_stages env (cached complete) 0 (passed_at 900 ∷ passed_at 950 ∷ []) start).1.history)
      ≡ 2)
    × (get_elem?
          (mt_job_updates
            (run_stages env
              (cached complete)
              0
              (passed_at 900 ∷ passed_at 950 ∷ [])
              start).1.history)
          0
        ≡ some (with_success complete (passed_at 950)))
unfolding job_succeeded
run_stages_completes_example =
    run_stages_completes env (λ q job. refl) (passed_at 900 ∷ []) (passed_at 950) (cached complete)
      0 start refl ((refl, refl, refl), tt) (refl, refl, refl)
