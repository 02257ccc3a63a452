-- ===== src/Tests/Progress.antt =====
-- A drain from its start to its end, and the search for a name, on concrete objects.
use vihara.Prelude.{
  ltb_ℤ, insert, false, ◌≡◌, refl, String, none, some, Option, [], ◌∷◌, lookup, ◌+ℤ◌, pos, arith,
}
use vihara.Api.{MaintenanceJob}
use vihara.Env.{History, State, returned, ◌>>=◌, pure, deref}
use vihara.Env.Clients.{now, write_mt_job, update_mt_job_status, get_node, list_nodes, patch_node}
use vihara.Controller.Nodes.{
  drain_nodes, get_nodes_by_selectors, drain_each, patch_update_node, has_expected_taints,
  node_patch, select_labels,
}
use vihara.Controller.Creation.{free_name}
use vihara.Controller.Creation.Bounds.{Settled, free_name_within}
use vihara.Controller.JobCache.{get_mt_job_from_cache, cached_mt_job}
use vihara.Controller.Stages.{
  schedule_mt_job, run_stages, stage_round, start_stage, previous_finish, submit_stage, submit,
  assign,
}
use vihara.System.Progress.{completed, drain_succeeds_in_three}
use vihara.Tests.World.{env, start, drain_stage, drain_spec, pending, job_of}

abbrev job : MaintenanceJob
job = job_of (drain_stage ∷ []) (pending "drain" ∷ [])

abbrev holding_job : State
holding_job = record start { mt_job_cache = ("vihara/mt.node-1", job) ∷ [] }

abbrev pass : State → State
pass t = (schedule_mt_job env "vihara" "mt.node-1" t).1

-- The first pass takes less time than the stage has.
in_time :
    ltb_ℤ (env.now (now env holding_job).1.history +ℤ pos 100) (env.now (pass holding_job).history)
    ≡ false
unfolding ◌+ℤ◌ lookup now schedule_mt_job get_mt_job_from_cache cached_mt_job ◌>>=◌ pure deref
    run_stages stage_round start_stage previous_finish submit_stage submit assign write_mt_job
    update_mt_job_status insert
in_time = refl

can_drain : (t : State) → (drain_nodes env job drain_stage t).0 ≡ returned none
unfolding drain_nodes get_nodes_by_selectors get_node list_nodes drain_each patch_update_node
    patch_node now ◌>>=◌ pure deref has_expected_taints node_patch select_labels
can_drain t = refl

-- The clock moves on with each call.
drain_succeeds_in_three_example :
    (h h' : History) × (lookup "vihara/mt.node-1" (pass (pass (pass holding_job))).mt_job_cache
      ≡ some (completed env job (pending "drain") h h'))
unfolding ◌+ℤ◌ lookup
drain_succeeds_in_three_example =
    drain_succeeds_in_three env "vihara" "mt.node-1" job (pending "drain") drain_stage drain_spec
      refl refl refl refl (λ h key. refl) (λ h j. refl) (λ h. ground arith) holding_job
      (refl, refl, refl, refl) refl refl refl in_time (can_drain _)

free_name_within_example :
    (r : Option String) × (free_name env job 2 1 "mt.node-1" holding_job
      ≡ (returned r, holding_job))
    × Settled env job holding_job r
free_name_within_example =
    free_name_within env job 2 holding_job (λ _. refl) (omega arith) (omega arith)
