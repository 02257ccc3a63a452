-- ===== src/Controller/Creation/Selection.antt =====
-- The nodes that new jobs are for.
use mathlib.Core.List.{Memᴰ}
use mathlib.Core.Path.{subst}
use vihara.Prelude.{
  String, ◌≡◌, refl, sym, ◌⊎◌, inl, inr, true, false, Bool-cases, List, [], ◌∷◌, All, contains,
  arith, ◌==◌,
}
use vihara.Api.{Node, MaintenanceSpec, Maintenance, MaintenanceJob}
use vihara.Env.{Env, State, Outcome-cases, returned, ok, ◌>>=◌, pure}
use vihara.Controller.Reconcile.{Controller}
use vihara.Controller.Generate.{generate_maintenance_job}
use vihara.Controller.Creation.{is_selected, build_job, build_jobs}

-- What is required of the node of a job: it is one of the listed nodes, it is named by the
-- specification if this names any, no dependency made it unavailable, its taints are tolerated, and
-- it is a machine that has an id, which the job has too.
abbrev pub IsFor : Env → MaintenanceSpec → List String → List Node → MaintenanceJob → Type 0
IsFor e spec unavailable nodes job =
    (node : Node) × Memᴰ node nodes
    × (job.spec.node_name ≡ node.meta.name)
    × (job.spec.machine_id ≡ node.node_info.machine_id)
    × ((spec.nodes ≡ []) ⊎ (contains spec.nodes node.meta.name ≡ true))
    × (contains unavailable node.meta.name ≡ false)
    × (e.untolerated_taint node.taints spec.tolerations ≡ false)
    × ((node.node_info.machine_id == "") ≡ false)

module _ (e : Env) (c : Controller) (mt : Maintenance) (spec : MaintenanceSpec)
    (unavailable : List String) where
  names-build_job :
      (node : Node) (s : State) (job : MaintenanceJob)
      → (build_job e c mt spec node s).0 ≡ returned (ok job)
      → (job.spec.node_name ≡ node.meta.name) × (job.spec.machine_id ≡ node.node_info.machine_id)
  unfolding build_job generate_maintenance_job ◌>>=◌ pure
  names-build_job node s job built = ground arith

  build_jobs_cons :
      (node : Node) (nodes : List Node) (s : State) (jobs : List MaintenanceJob)
      → is_selected e c spec unavailable node ≡ true
      → (build_jobs e c mt spec unavailable (node ∷ nodes) s).0 ≡ returned (ok jobs)
      → (job : MaintenanceJob) × (rest : List MaintenanceJob) × (jobs ≡ job ∷ rest)
        × ((build_job e c mt spec node s).0 ≡ returned (ok job))
        × ((build_jobs e c mt spec unavailable nodes (build_job e c mt spec node s).1).0
            ≡ returned (ok rest))
  unfolding build_jobs ◌>>=◌ pure
  build_jobs_cons node nodes s jobs selected built =
      let s' = (build_job e c mt spec node s).1 in
      elim (Outcome-cases (build_job e c mt spec node s).0) [
        | inl stuck ↦ ground arith
        | inr (inl (x, failed)) ↦ ground arith
        | inr (inr (job, made)) ↦
            elim (Outcome-cases (build_jobs e c mt spec unavailable nodes s').0) [
              | inl stuck ↦ ground arith
              | inr (inl (x, failed)) ↦ ground arith
              | inr (inr (rest, done)) ↦ (job, rest, ground arith, made, done)
            ]
      ]

  IsFor-tail :
      (node : Node) (nodes : List Node) (jobs : List MaintenanceJob)
      → All (IsFor e spec unavailable nodes) jobs
      → All (IsFor e spec unavailable (node ∷ nodes)) jobs
  IsFor-tail node nodes [] h = tt
  IsFor-tail node nodes (job ∷ jobs) ((n, m, name, machine, named, free, fit, has_id), h) =
      ((n, Memᴰ.tail m, name, machine, named, free, fit, has_id), IsFor-tail node nodes jobs h)

  selected-IsFor :
      (node : Node) (nodes : List Node) (job : MaintenanceJob)
      → is_selected e c spec unavailable node ≡ true
      → Memᴰ node nodes
      → (job.spec.node_name ≡ node.meta.name) × (job.spec.machine_id ≡ node.node_info.machine_id)
      → IsFor e spec unavailable nodes job
  unfolding is_selected
  selected-IsFor node nodes job selected m (name, machine) =
      (node, m, name, machine, ground arith, ground arith, ground arith, ground arith)

  -- Each of the jobs that are made for a list of nodes is for one of these nodes, by its name and its
  -- machine id, and this node was selected: the specification names it if it names any nodes, no
  -- dependency made it unavailable, its taints are tolerated, and its machine id is not empty.
  pub build_jobs-IsFor :
      (nodes : List Node) (s : State) (jobs : List MaintenanceJob)
      → (build_jobs e c mt spec unavailable nodes s).0 ≡ returned (ok jobs)
      → All (IsFor e spec unavailable nodes) jobs
  unfolding build_jobs pure
  build_jobs-IsFor [] s [] built = tt
  build_jobs-IsFor [] s (job ∷ jobs) built = cc
  build_jobs-IsFor (node ∷ nodes) s jobs built =
      elim (Bool-cases (is_selected e c spec unavailable node)) [
        | inl selected ↦
            let (job, rest, all, made, done) = build_jobs_cons node nodes s jobs selected built in
            let s' = (build_job e c mt spec node s).1 in
            subst (All (IsFor e spec unavailable (node ∷ nodes))) (sym all) (
              selected-IsFor node (node ∷ nodes) job selected (Memᴰ.head refl)
                  (names-build_job node s job made),
              IsFor-tail node nodes rest (build_jobs-IsFor nodes s' rest done),
            )
        | inr skipped ↦
            IsFor-tail node nodes jobs
              (build_jobs-IsFor nodes s jobs (rw (skipped, build_jobs) at built))
      ]
