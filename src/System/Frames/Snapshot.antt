-- ===== src/System/Frames/Snapshot.antt =====
-- From the snapshot of a scheduled Maintenance on, no status is submitted and no cached object is
-- written: jobs are created, and that is all.
use mathlib.Core.Path.{subst}
use vihara.Prelude.{
  ℕ, ◌≡◌, sym, inl, inr, String, none, some, List, [], ◌∷◌, arith, is_empty, if◌then◌else◌,
}
use vihara.Api.{Node, MaintenanceSpec, Maintenance, MaintenanceJob}
use vihara.Env.{Call, Env, State, Result, ok, err, returned, record_call, ◌>>=◌, pure}
use vihara.Env.Clients.{event, list_nodes}
use vihara.Env.Reads.{returned_cases, bind_returned, bind_panicked}
use vihara.Controller.Reconcile.{Controller}
use vihara.Controller.Creation.{free_name, with_name, build_jobs, create_jobs, max_rounds}
use vihara.Controller.Creation.Submissions.{
  Reads-build_jobs, free_name_returned, create_jobs_of_unnamed, create_jobs_of_named,
}
use vihara.Controller.Dependencies.{Checked, stopped, proceed, check_dependencies}
use vihara.Controller.Dependencies.Soundness.{state-check_dependencies}
use vihara.Controller.Schedule.{
  load_snapshot, create_built, create_listed, create_for_nodes, create_checked, schedule_loaded,
  schedule_snapshot,
}
use vihara.System.Frames.{Untouched, Untouched-refl}

module _ (e : Env) where
  Untouched-create_jobs :
      (rounds : ℕ) (jobs : List MaintenanceJob) (s : State)
      → Untouched s (create_jobs e rounds jobs s).1
  unfolding create_jobs pure
  Untouched-create_jobs rounds [] s = Untouched-refl s
  Untouched-create_jobs rounds (job ∷ jobs) s =
      let (r, same) = free_name_returned e job rounds 1 job.meta.name s in
      (elim r
          as (λ r.
            free_name e job rounds 1 job.meta.name s ≡ (returned r, s)
            → Untouched s (create_jobs e rounds (job ∷ jobs) s).1) [
              | none ↦ λ found.
                  subst (λ q. Untouched s q.1)
                    (sym (create_jobs_of_unnamed e rounds job jobs s found))
                    (Untouched-create_jobs rounds jobs s)
              | some name ↦ λ found.
                  let t = record_call (Call.create_mt_job (with_name job name)) s in
                  subst (λ q. Untouched s q.1)
                    (sym (create_jobs_of_named e rounds job jobs s name found))
                    (Untouched-create_jobs rounds jobs t)
            ])
        same

module _ (e : Env) (c : Controller) (mt : Maintenance) where
  Untouched-built :
      (built : Result (List MaintenanceJob)) (s : State) → Untouched s (create_built e c built s).1
  unfolding create_built ◌>>=◌ pure
  Untouched-built (err x) s = Untouched-refl s
  Untouched-built (ok jobs) s = ground (arith, Untouched-create_jobs e max_rounds jobs s)

  Untouched-listed :
      (spec : MaintenanceSpec) (unavailable : List String) (listed : Result (List Node)) (s : State)
      → Untouched s (create_listed e c mt spec unavailable listed s).1
  unfolding create_listed pure
  Untouched-listed spec unavailable (err x) s = Untouched-refl s
  Untouched-listed spec unavailable (ok nodes) s =
      let m = build_jobs e c mt spec unavailable nodes in
      let quiet = Reads-build_jobs e c mt spec unavailable nodes s in
      elim (returned_cases (m s).0) [
        | inl stuck ↦
            subst (λ r. Untouched s r.1) (sym (bind_panicked m (create_built e c) s stuck quiet))
              (Untouched-refl s)
        | inr (built, found) ↦
            subst (λ r. Untouched s r.1) (sym (bind_returned m (create_built e c) s found quiet))
              (Untouched-built built s)
      ]

  Untouched-checked :
      (spec : MaintenanceSpec) (checked : Checked) (s : State)
      → Untouched s (create_checked e c mt spec checked s).1
  unfolding create_checked create_for_nodes list_nodes ◌>>=◌ pure
  Untouched-checked spec (stopped x) s = Untouched-refl s
  Untouched-checked spec (proceed unavailable) s =
      let selector =
        if is_empty spec.node_selector then "" else e.selector_from_set spec.node_selector in
      Untouched-listed spec unavailable (e.list_nodes s.history selector)
        (list_nodes e selector s).1

  Untouched-loaded :
      (loaded : Result MaintenanceSpec) (s : State)
      → Untouched s (schedule_loaded e c mt loaded s).1
  unfolding schedule_loaded pure
  Untouched-loaded (err x) s = Untouched-refl s
  Untouched-loaded (ok spec) s =
      let m = check_dependencies e spec.schedule.depends [] in
      let f = create_checked e c mt spec in
      let quiet = state-check_dependencies e spec.schedule.depends [] s in
      elim (returned_cases (m s).0) [
        | inl stuck ↦
            subst (λ r. Untouched s r.1) (sym (bind_panicked m f s stuck quiet)) (Untouched-refl s)
        | inr (checked, found) ↦
            subst (λ r. Untouched s r.1) (sym (bind_returned m f s found quiet))
              (Untouched-checked spec checked s)
      ]

  Untouched-load_snapshot : (s : State) → Untouched s (load_snapshot e mt s).1
  unfolding load_snapshot event ◌>>=◌ pure
  Untouched-load_snapshot s = ground arith

  pub Untouched-schedule_snapshot : (s : State) → Untouched s (schedule_snapshot e c mt s).1
  unfolding schedule_snapshot ◌>>=◌
  Untouched-schedule_snapshot s = elim (returned_cases (load_snapshot e mt s).0) [
    | inl stuck ↦ ground (arith, Untouched-load_snapshot s)
    | inr (loaded, found) ↦
        ground (arith, Untouched-load_snapshot s, Untouched-loaded loaded (load_snapshot e mt s).1)
  ]
