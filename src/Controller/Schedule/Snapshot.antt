-- ===== src/Controller/Schedule/Snapshot.antt =====
-- Which jobs a scheduled object creates.
use mathlib.Core.Path.{subst}
use vihara.Env.Reads.{returned_cases, bind_returned, bind_panicked}
use vihara.Prelude.{
  sym, Bool-cases, ◌||◌, String, ◌≡◌, refl, ◌⊎◌, inl, inr, true, List, [], ◌++◌, All, ◌==◌, arith,
  is_empty, if◌then◌else◌,
}
use vihara.Api.{Node, MaintenanceSpec, Maintenance, MaintenanceJob}
use vihara.Env.{Env, State, Result, err, Result-cases, Outcome-cases, ok, returned, ◌>>=◌, pure}
use vihara.Env.Clients.{list_nodes, event}
use vihara.Env.Trace.{mt_job_creations}
use vihara.Controller.Reconcile.{Controller}
use vihara.Controller.Creation.{build_jobs, max_rounds}
use vihara.Controller.Creation.Selection.{IsFor, build_jobs-IsFor}
use vihara.Controller.Creation.Submissions.{Reads-build_jobs, create_jobs-All}
use vihara.Controller.Dependencies.{Checked, stopped, proceed, check_dependencies}
use vihara.Controller.Dependencies.Soundness.{state-check_dependencies}
use vihara.Controller.Schedule.{
  load_snapshot, create_built, create_listed, create_for_nodes, create_checked, schedule_loaded,
  schedule_snapshot,
}

module _ (e : Env) (c : Controller) (mt : Maintenance) where
  module _ (spec : MaintenanceSpec) (unavailable : List String) where
    -- The nodes of an answer; none if it is an error.
    abbrev pub nodes_of : Result (List Node) → List Node
    nodes_of (ok nodes) = nodes
    nodes_of (err x) = []

    -- The API server's answer to the request for the nodes that have the labels of the node selector
    -- of the specification, or for all nodes if this is empty.
    abbrev pub matching_nodes : State → List Node
    matching_nodes s = nodes_of (
        e.list_nodes s.history
          (if is_empty spec.node_selector then "" else e.selector_from_set spec.node_selector))

    -- The jobs that were created since a state are all for nodes that were selected from a list.
    abbrev CreatesFrom : List Node → State → State → Type 0
    CreatesFrom nodes s s' =
        (new : List MaintenanceJob) × (mt_job_creations s'.history
          ≡ new ++ mt_job_creations s.history)
        × All (IsFor e spec unavailable nodes) new

    -- The list is that of the nodes which match the specification.
    abbrev pub CreatesFor : State → State → Type 0
    CreatesFor s s' = CreatesFrom (matching_nodes s) s s'

    CreatesFrom-built :
        (nodes : List Node) (jobs : List MaintenanceJob) (s : State)
        → All (IsFor e spec unavailable nodes) jobs
        → CreatesFrom nodes s (create_built e c (ok jobs) s).1
    unfolding create_built ◌>>=◌ pure
    CreatesFrom-built nodes jobs s h =
        let (new, grown, all) =
          create_jobs-All e (IsFor e spec unavailable nodes) (λ job name p. p) max_rounds jobs s
            h in
        (new, ground arith, all)

    CreatesFrom-listed :
        (listed : Result (List Node)) (s : State)
        → CreatesFrom (nodes_of listed) s (create_listed e c mt spec unavailable listed s).1
    unfolding create_listed create_built ◌>>=◌ pure
    CreatesFrom-listed (err x) s = ([], refl, tt)
    CreatesFrom-listed (ok nodes) s =
        let quiet = Reads-build_jobs e c mt spec unavailable nodes s in
        elim (Outcome-cases (build_jobs e c mt spec unavailable nodes s).0) [
          | inl stuck ↦ ([], ground arith, tt)
          | inr (inl (x, failed)) ↦ ([], ground arith, tt)
          | inr (inr (jobs, made)) ↦
              let is_for = build_jobs-IsFor e c mt spec unavailable nodes s jobs made in
              let (new, grown, all) = CreatesFrom-built nodes jobs s is_for in
              (new, ground arith, all)
        ]

    CreatesFor-create_for_nodes :
        (s : State) → CreatesFor s (create_for_nodes e c mt spec unavailable s).1
    unfolding create_for_nodes list_nodes ◌>>=◌
    CreatesFor-create_for_nodes s =
        let selector =
          if is_empty spec.node_selector then "" else e.selector_from_set spec.node_selector in
        CreatesFrom-listed (e.list_nodes s.history selector) (list_nodes e selector s).1

  -- The jobs that were created since a state come from the snapshot of the object: its hash is right,
  -- it decodes to a specification whose dependency checks passed, and the jobs are for nodes that
  -- were selected with what these found unavailable.
  abbrev pub CreatesFromSnapshot : State → State → Type 0
  CreatesFromSnapshot s s' =
      (spec : MaintenanceSpec) × (unavailable : List String) × ((e.sha256_hex
            mt.status.scheduled.spec_snapshot
          == mt.status.scheduled.spec_snapshot_hash)
        ≡ true)
      × (e.unmarshal_spec mt.status.scheduled.spec_snapshot ≡ ok spec)
      × ((check_dependencies e spec.schedule.depends [] s).0 ≡ returned (proceed unavailable))
      × CreatesFor spec unavailable s s'

  abbrev Created : State → State → Type 0
  Created s s' =
      (mt_job_creations s'.history ≡ mt_job_creations s.history) ⊎ CreatesFromSnapshot s s'

  Created-checked :
      (spec : MaintenanceSpec) (checked : Checked) (s : State)
      → (e.sha256_hex mt.status.scheduled.spec_snapshot == mt.status.scheduled.spec_snapshot_hash)
        ≡ true
      → e.unmarshal_spec mt.status.scheduled.spec_snapshot ≡ ok spec
      → (check_dependencies e spec.schedule.depends [] s).0 ≡ returned checked
      → Created s (create_checked e c mt spec checked s).1
  unfolding create_checked pure
  Created-checked spec (stopped x) s intact decoded checks = inl refl
  Created-checked spec (proceed unavailable) s intact decoded checks =
      inr
        (spec, unavailable, intact, decoded, checks, CreatesFor-create_for_nodes spec unavailable s)

  Created-loaded :
      (spec : MaintenanceSpec) (s : State)
      → (e.sha256_hex mt.status.scheduled.spec_snapshot == mt.status.scheduled.spec_snapshot_hash)
        ≡ true
      → e.unmarshal_spec mt.status.scheduled.spec_snapshot ≡ ok spec
      → Created s (schedule_loaded e c mt (ok spec) s).1
  unfolding schedule_loaded
  Created-loaded spec s intact decoded =
      let m = check_dependencies e spec.schedule.depends [] in
      let f = create_checked e c mt spec in
      let quiet = state-check_dependencies e spec.schedule.depends [] s in
      elim (returned_cases (m s).0) [
        | inl stuck ↦ subst (λ r. Created s r.1) (sym (bind_panicked m f s stuck quiet)) (inl refl)
        | inr (checked, found) ↦
            subst (λ r. Created s r.1) (sym (bind_returned m f s found quiet))
              (Created-checked spec checked s intact decoded found)
      ]

  snapshot_cases :
      (s : State)
      → (mt_job_creations (schedule_snapshot e c mt s).1.history ≡ mt_job_creations s.history)
        ⊎ ((spec : MaintenanceSpec) × ((e.sha256_hex mt.status.scheduled.spec_snapshot
                == mt.status.scheduled.spec_snapshot_hash)
              ≡ true)
            × (e.unmarshal_spec mt.status.scheduled.spec_snapshot ≡ ok spec)
            × (schedule_snapshot e c mt s ≡ schedule_loaded e c mt (ok spec) s))
  unfolding schedule_snapshot load_snapshot schedule_loaded ◌>>=◌ pure event
  snapshot_cases s =
      let snapshot = mt.status.scheduled.spec_snapshot in
      let hash = mt.status.scheduled.spec_snapshot_hash in
      elim (Result-cases (e.unmarshal_spec snapshot)) [
        | inl (x, bad) ↦ inl (ground arith)
        | inr (spec, decoded) ↦ elim (Bool-cases (e.sha256_hex snapshot == hash)) [
          | inr wrong ↦ inl (ground arith)
          | inl intact ↦ elim (Bool-cases (snapshot == "" || hash == "")) [
            | inl missing ↦ inl (ground arith)
            | inr there ↦ inr (spec, intact, decoded, ground arith)
          ]
        ]
      ]

  -- A scheduling of an object that is marked as scheduled creates no job, or the snapshot of the
  -- object has the hash that was stored with it, decodes to a specification, and the checks of the
  -- dependencies of this specification let it proceed; and then each job that is created is for a
  -- node which the API server gave for the node selector of this specification, which the
  -- specification selects in the other ways, and which no dependency made unavailable.
  pub creations-schedule_snapshot :
      (s : State)
      → (mt_job_creations (schedule_snapshot e c mt s).1.history ≡ mt_job_creations s.history)
        ⊎ CreatesFromSnapshot s (schedule_snapshot e c mt s).1
  creations-schedule_snapshot s = elim (snapshot_cases s) [
    | inl same ↦ inl same
    | inr (spec, intact, decoded, same) ↦
        subst (λ r. Created s r.1) (sym same) (Created-loaded spec s intact decoded)
  ]
