-- ===== src/Controller/Schedule/Offers.antt =====
-- A pass of `scheduleMaintenance` puts nothing into a queue: the consumer of the queue does, after it.
use vihara.Prelude.{ℕ, ap, refl, String, not, ◌||◌, ◌==◌, Option, none, List, [], ◌∷◌}
use vihara.Api.{
  Node, MaintenanceSpec, Maintenance, MaintenanceJob, canceled, started, scheduled, expired,
}
use vihara.Env.{Error, Result, ok, err, Env, pure}
use vihara.Env.Clients.{now, event, list_nodes, create_mt_job, update_mt_status, write_mt}
use vihara.Env.Quiet.{
  OffersNothing, pure-OffersNothing, if-OffersNothing, option-OffersNothing, result-OffersNothing,
  bind-OffersNothing, Reads-OffersNothing,
}
use vihara.Controller.Reconcile.{Controller}
use vihara.Controller.Phases.{get_maintenance_from_cache}
use vihara.Controller.Dependencies.{Checked, stopped, proceed}
use vihara.Controller.Dependencies.Soundness.{state-check_dependencies}
use vihara.Controller.Creation.{create_jobs, max_rounds}
use vihara.Controller.Creation.Submissions.{Reads-build_jobs, free_name_returned}
use vihara.Controller.Schedule.{
  Marked, stop, go, mark_scheduled, load_snapshot, create_built, create_listed, create_for_nodes,
  create_checked, schedule_loaded, schedule_snapshot, schedule_maintenance,
}

module _ (e : Env) where
  create_jobs-OffersNothing :
      (rounds : ℕ) (jobs : List MaintenanceJob) → OffersNothing (create_jobs e rounds jobs)
  unfolding create_jobs create_mt_job
  create_jobs-OffersNothing rounds [] = pure-OffersNothing tt
  create_jobs-OffersNothing rounds (job ∷ jobs) =
      bind-OffersNothing
        (Reads-OffersNothing
          (λ s. ap (λ r. r.1) (free_name_returned e job rounds 1 job.meta.name s).1))
        (λ name. option-OffersNothing name (create_jobs-OffersNothing rounds jobs) (λ name'.
          bind-OffersNothing (record { same_offers = λ s. refl })
            (λ _. create_jobs-OffersNothing rounds jobs)))

  mark_scheduled-OffersNothing :
      (name : String) (mt : Maintenance) → OffersNothing (mark_scheduled e name mt)
  unfolding mark_scheduled now write_mt update_mt_status
  mark_scheduled-OffersNothing name mt = if-OffersNothing (scheduled mt) (pure-OffersNothing _) (
      result-OffersNothing (e.marshal_spec mt.spec) (λ x. pure-OffersNothing _)
        (λ spec_json.
          bind-OffersNothing (record { same_offers = λ s. refl })
            (λ at.
              bind-OffersNothing (record { same_offers = λ s. refl })
                (λ _.
                  bind-OffersNothing (record { same_offers = λ s. refl })
                    (λ a.
                      option-OffersNothing a.1 (pure-OffersNothing _)
                        (λ x. pure-OffersNothing _))))))

  load_snapshot-OffersNothing : (mt : Maintenance) → OffersNothing (load_snapshot e mt)
  unfolding load_snapshot event
  load_snapshot-OffersNothing mt =
      let snapshot = mt.status.scheduled.spec_snapshot in
      let hash = mt.status.scheduled.spec_snapshot_hash in
      if-OffersNothing (snapshot == "" || hash == "")
        (bind-OffersNothing (record { same_offers = λ s. refl }) (λ _. pure-OffersNothing _))
        (if-OffersNothing (not (e.sha256_hex snapshot == hash))
          (bind-OffersNothing (record { same_offers = λ s. refl }) (λ _. pure-OffersNothing _))
          (result-OffersNothing (e.unmarshal_spec snapshot) (λ x. pure-OffersNothing _)
            (λ spec. pure-OffersNothing _)))

module _ (e : Env) (c : Controller) where
  create_built-OffersNothing :
      (built : Result (List MaintenanceJob)) → OffersNothing (create_built e c built)
  unfolding create_built
  create_built-OffersNothing (err x) = pure-OffersNothing _
  create_built-OffersNothing (ok jobs) =
      bind-OffersNothing (create_jobs-OffersNothing e max_rounds jobs) (λ _. pure-OffersNothing _)

  create_listed-OffersNothing :
      (mt : Maintenance) (spec : MaintenanceSpec) (unavailable : List String)
      (listed : Result (List Node))
      → OffersNothing (create_listed e c mt spec unavailable listed)
  unfolding create_listed
  create_listed-OffersNothing mt spec unavailable (err x) = pure-OffersNothing _
  create_listed-OffersNothing mt spec unavailable (ok nodes) =
      bind-OffersNothing (Reads-OffersNothing (Reads-build_jobs e c mt spec unavailable nodes))
        create_built-OffersNothing

  create_checked-OffersNothing :
      (mt : Maintenance) (spec : MaintenanceSpec) (checked : Checked)
      → OffersNothing (create_checked e c mt spec checked)
  unfolding create_checked create_for_nodes list_nodes
  create_checked-OffersNothing mt spec (stopped x) = pure-OffersNothing _
  create_checked-OffersNothing mt spec (proceed unavailable) =
      bind-OffersNothing (record { same_offers = λ s. refl })
        (create_listed-OffersNothing mt spec unavailable)

  schedule_loaded-OffersNothing :
      (mt : Maintenance) (loaded : Result MaintenanceSpec)
      → OffersNothing (schedule_loaded e c mt loaded)
  unfolding schedule_loaded
  schedule_loaded-OffersNothing mt (err x) = pure-OffersNothing _
  schedule_loaded-OffersNothing mt (ok spec) =
      bind-OffersNothing (Reads-OffersNothing (state-check_dependencies e spec.schedule.depends []))
        (create_checked-OffersNothing mt spec)

  schedule_snapshot-OffersNothing : (mt : Maintenance) → OffersNothing (schedule_snapshot e c mt)
  unfolding schedule_snapshot
  schedule_snapshot-OffersNothing mt =
      bind-OffersNothing (load_snapshot-OffersNothing e mt) (schedule_loaded-OffersNothing mt)

  after_marking-OffersNothing :
      (marked : Marked)
      → OffersNothing {A = Option Error}
          (elim marked [ stop x ↦ pure x | go mt' ↦ schedule_snapshot e c mt' ])
  after_marking-OffersNothing (stop x) = pure-OffersNothing x
  after_marking-OffersNothing (go mt) = schedule_snapshot-OffersNothing mt

  pub schedule_maintenance-OffersNothing :
      (name : String) → OffersNothing (schedule_maintenance e c name)
  unfolding schedule_maintenance get_maintenance_from_cache now event
  schedule_maintenance-OffersNothing name =
      bind-OffersNothing (record { same_offers = λ s. refl })
        (λ cached.
          result-OffersNothing cached (λ x. pure-OffersNothing _)
            (λ mt. if-OffersNothing (canceled mt) (pure-OffersNothing none) (
              bind-OffersNothing (record { same_offers = λ s. refl })
                (λ at.
                  if-OffersNothing (expired mt at)
                    (bind-OffersNothing (record { same_offers = λ s. refl })
                      (λ _. pure-OffersNothing _))
                    (if-OffersNothing (not (started mt at)) (pure-OffersNothing _) (
                      bind-OffersNothing (mark_scheduled-OffersNothing e name mt)
                        after_marking-OffersNothing))))))
