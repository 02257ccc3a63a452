-- ===== src/Controller/Stages/Offers.antt =====
-- A pass of `scheduleMaintenanceJob` puts nothing into a queue: what it returns, and the consumer of
-- the queue after it, decide whether there is a next one.
use vihara.Prelude.{
  ℕ, zero, suc, ◌+◌, String, not, Option, none, some, is_some, List, [], ◌∷◌, refl, get_elem?,
  length, eqb, ltb_ℤ, ◌+ℤ◌,
}
use vihara.Api.{
  Node, MaintenanceJob, MaintenanceJobStageStatus, MaintenanceNodeSelector, MaintenanceStage,
  is_zero?, job_succeeded,
}
use vihara.Env.{Error, Env, pure}
use vihara.Env.Clients.{
  now, event, update_mt_job_status, create_job, get_node, list_nodes, patch_node, write_mt_job,
}
use vihara.Env.Quiet.{
  OffersNothing, pure-OffersNothing, deref-OffersNothing, if-OffersNothing, cases-OffersNothing,
  option-OffersNothing, result-OffersNothing, bind-OffersNothing,
}
use vihara.Controller.Generate.{generate_job}
use vihara.Controller.JobCache.{get_mt_job_from_cache}
use vihara.Controller.Nodes.{
  has_expected_taints, remove_unschedulable, node_patch, patch_update_node, select_labels,
  get_nodes_by_selectors, drain_each, drain_nodes, uncordon_each, uncordon_nodes,
}
use vihara.Controller.Stages.{
  Handle, ended, continues, acts_on_nodes, has_result, assign, previous_finish, submit,
  submit_stage, act, run_running, start_stage, fail_job, pass_stage, stage_round, run_stages,
  schedule_mt_job,
}

module _ (e : Env) where
  now-OffersNothing : OffersNothing (now e)
  unfolding now
  now-OffersNothing = record { same_offers = λ s. refl }

  patch_update_node-OffersNothing : (old new : Node) → OffersNothing (patch_update_node e old new)
  unfolding patch_update_node patch_node
  patch_update_node-OffersNothing old new =
      result-OffersNothing (node_patch e old new) (λ x. pure-OffersNothing (some x))
        (λ patch. record { same_offers = λ s. refl })

  drain_each-OffersNothing : (nodes : List Node) → OffersNothing (drain_each e nodes)
  unfolding drain_each
  drain_each-OffersNothing [] = pure-OffersNothing none
  drain_each-OffersNothing (node ∷ nodes) =
      cases-OffersNothing (has_expected_taints node.taints) (drain_each-OffersNothing nodes) (
        bind-OffersNothing now-OffersNothing (λ at.
          bind-OffersNothing (patch_update_node-OffersNothing node _) (λ x.
            option-OffersNothing x (drain_each-OffersNothing nodes)
              (λ x'. pure-OffersNothing (some x')))))

  uncordon_each-OffersNothing : (nodes : List Node) → OffersNothing (uncordon_each e nodes)
  unfolding uncordon_each
  uncordon_each-OffersNothing [] = pure-OffersNothing none
  uncordon_each-OffersNothing (node ∷ nodes) =
      cases-OffersNothing (eqb (length (remove_unschedulable node.taints)) (length node.taints))
        (pure-OffersNothing none)
        (bind-OffersNothing (patch_update_node-OffersNothing node _) (λ x.
          option-OffersNothing x (uncordon_each-OffersNothing nodes)
            (λ x'. pure-OffersNothing (some x'))))

  get_nodes-OffersNothing :
      (name : String) (selectors : List MaintenanceNodeSelector)
      → OffersNothing (get_nodes_by_selectors e name selectors)
  unfolding get_nodes_by_selectors get_node list_nodes
  get_nodes-OffersNothing name selectors =
      bind-OffersNothing (record { same_offers = λ s. refl })
        (λ got.
          result-OffersNothing got (λ x. pure-OffersNothing _)
            (λ node.
              result-OffersNothing (select_labels e node selectors []) (λ x. pure-OffersNothing _)
                (λ labels. record { same_offers = λ s. refl })))

  act-OffersNothing :
      (job : MaintenanceJob) (spec : MaintenanceStage) → OffersNothing (act e job spec)
  unfolding act drain_nodes uncordon_nodes
  act-OffersNothing job spec =
      if-OffersNothing (is_some spec.drain)
        (bind-OffersNothing (deref-OffersNothing spec.drain) (λ drain.
          bind-OffersNothing (get_nodes-OffersNothing job.spec.node_name drain.node_selector)
            (λ got. result-OffersNothing got (λ x. pure-OffersNothing _) drain_each-OffersNothing)))
        (if-OffersNothing (is_some spec.uncordon)
          (bind-OffersNothing (deref-OffersNothing spec.drain) (λ drain.
            bind-OffersNothing (get_nodes-OffersNothing job.spec.node_name drain.node_selector)
              (λ got.
                result-OffersNothing got (λ x. pure-OffersNothing _) uncordon_each-OffersNothing)))
          (pure-OffersNothing none))

  submit-OffersNothing : (h : Handle) (job : MaintenanceJob) → OffersNothing (submit e h job)
  unfolding submit assign update_mt_job_status write_mt_job
  submit-OffersNothing h job =
      bind-OffersNothing
        (option-OffersNothing h.cached_as (pure-OffersNothing tt)
          (λ key. record { same_offers = λ s. refl }))
        (λ _. record { same_offers = λ s. refl })

  submit_stage-OffersNothing :
      (h : Handle) (i : ℕ) (change : MaintenanceJobStageStatus → MaintenanceJobStageStatus)
      → OffersNothing (submit_stage e h i change)
  unfolding submit_stage
  submit_stage-OffersNothing h i change =
      bind-OffersNothing (deref-OffersNothing (get_elem? h.job.status.stages i))
        (λ stage. submit-OffersNothing h _)

  run_running-OffersNothing :
      (h : Handle) (i : ℕ) (stage : MaintenanceJobStageStatus) (spec : MaintenanceStage)
      → OffersNothing (run_running e h i stage spec)
  unfolding run_running event
  run_running-OffersNothing h i stage spec =
      if-OffersNothing (not (acts_on_nodes spec)) (pure-OffersNothing none) (
        bind-OffersNothing now-OffersNothing (λ at.
          bind-OffersNothing (deref-OffersNothing stage.scheduled_at) (λ scheduled_at.
            if-OffersNothing (ltb_ℤ (scheduled_at +ℤ spec.timeout) at)
              (bind-OffersNothing (record { same_offers = λ s. refl })
                (λ _. bind-OffersNothing now-OffersNothing (λ at'.
                  bind-OffersNothing (submit_stage-OffersNothing h i _)
                    (λ a. pure-OffersNothing _))))
              (bind-OffersNothing (act-OffersNothing h.job spec) (λ acted.
                option-OffersNothing acted
                  (bind-OffersNothing now-OffersNothing (λ at'.
                    bind-OffersNothing (submit_stage-OffersNothing h i _)
                      (λ a. pure-OffersNothing _)))
                  (λ x.
                    bind-OffersNothing (submit_stage-OffersNothing h i _)
                      (λ a. pure-OffersNothing _)))))))

  previous_finish-OffersNothing :
      (job : MaintenanceJob) (i : ℕ) → OffersNothing (previous_finish job i)
  unfolding previous_finish
  previous_finish-OffersNothing job zero = pure-OffersNothing _
  previous_finish-OffersNothing job (suc i) =
      bind-OffersNothing (deref-OffersNothing (get_elem? job.status.stages i)) (λ previous.
        option-OffersNothing previous.finished_at (pure-OffersNothing _) pure-OffersNothing)

  start_stage-OffersNothing :
      (h : Handle) (i : ℕ) (spec : MaintenanceStage) → OffersNothing (start_stage e h i spec)
  unfolding start_stage generate_job create_job
  start_stage-OffersNothing h i spec =
      bind-OffersNothing (previous_finish-OffersNothing h.job i) (λ previous.
        bind-OffersNothing now-OffersNothing (λ at.
          if-OffersNothing (ltb_ℤ at (previous +ℤ spec.delay)) (pure-OffersNothing _) (
            if-OffersNothing (acts_on_nodes spec)
              (bind-OffersNothing now-OffersNothing (λ at'.
                bind-OffersNothing (submit_stage-OffersNothing h i _) (λ a.
                  option-OffersNothing a.1 (pure-OffersNothing _) (λ x. pure-OffersNothing _))))
              (if-OffersNothing (is_some spec.pod)
                (bind-OffersNothing
                  (bind-OffersNothing (deref-OffersNothing spec.pod) (λ pod. pure-OffersNothing _))
                  (λ job.
                    bind-OffersNothing (record { same_offers = λ s. refl })
                      (λ x.
                        option-OffersNothing x (pure-OffersNothing _)
                          (λ x'. pure-OffersNothing _))))
                (pure-OffersNothing _)))))

  stage_round-OffersNothing :
      (h : Handle) (i : ℕ) (stage : MaintenanceJobStageStatus)
      → OffersNothing (stage_round e h i stage)
  unfolding stage_round fail_job pass_stage
  stage_round-OffersNothing h i stage =
      if-OffersNothing stage.failed
        (bind-OffersNothing
          (if-OffersNothing (is_zero? stage.finished_at) (pure-OffersNothing _)
            (bind-OffersNothing (submit-OffersNothing h _) (λ a. pure-OffersNothing _)))
          (λ x. pure-OffersNothing _))
        (if-OffersNothing stage.succeeded
          (if-OffersNothing (is_zero? stage.finished_at) (pure-OffersNothing _) (
            bind-OffersNothing (deref-OffersNothing (job_succeeded h.job)) (λ complete.
              if-OffersNothing complete
                (bind-OffersNothing (submit-OffersNothing h _) (λ a.
                  option-OffersNothing a.1 (pure-OffersNothing _) (λ x. pure-OffersNothing _)))
                (pure-OffersNothing _))))
          (bind-OffersNothing (deref-OffersNothing (get_elem? h.job.spec.stages i)) (λ spec.
            if-OffersNothing stage.running
              (bind-OffersNothing (run_running-OffersNothing h i stage spec)
                (λ x. pure-OffersNothing _))
              (start_stage-OffersNothing h i spec))))

  run_stages-OffersNothing :
      (h : Handle) (i : ℕ) (stages : List MaintenanceJobStageStatus)
      → OffersNothing (run_stages e h i stages)
  unfolding run_stages
  run_stages-OffersNothing h i [] = pure-OffersNothing none
  run_stages-OffersNothing h i (stage ∷ stages) =
      bind-OffersNothing (stage_round-OffersNothing h i stage) (λ round.
        elim round
          as (λ r.
            OffersNothing {A = Option Error}
              (elim r [ ended x ↦ pure x | continues h' ↦ run_stages e h' (i + 1) stages ])) [
                | ended x ↦ pure-OffersNothing x
                | continues h' ↦ run_stages-OffersNothing h' (i + 1) stages
              ])

  pub schedule_mt_job-OffersNothing :
      (namespace name : String) → OffersNothing (schedule_mt_job e namespace name)
  unfolding schedule_mt_job get_mt_job_from_cache
  schedule_mt_job-OffersNothing namespace name =
      bind-OffersNothing (record { same_offers = λ s. refl })
        (λ cached.
          result-OffersNothing cached (λ x. pure-OffersNothing _)
            (λ job.
              if-OffersNothing (has_result job) (pure-OffersNothing none)
                (run_stages-OffersNothing _ 0 job.status.stages)))
