-- ===== src/Controller/Creation.antt =====
-- The nodes that `scheduleMaintenance` selects, and the jobs that it creates for them
-- (pkg/controller/maintenance/maintenance.go).
pub mod Names
pub mod Bounds
pub mod Submissions
pub mod Selection
use vihara.Prelude.{
  ℕ, zero, suc, ◌+◌, String, Bool, true, false, not, ◌&&◌, ◌||◌, Option, none, some, List, [], ◌∷◌,
  ◌==◌, ◌<>◌, eqb, contains, is_empty, format_hex, if◌then◌else◌,
}
use vihara.Api.{Node, MaintenanceSpec, Maintenance, MaintenanceJob}
use vihara.Env.{Result, ok, err, Env, M, pure, ◌>>=◌}
use vihara.Env.Clients
use vihara.Controller.NodeEnv.{create_pod_env_var, create_pod_env_from}
use vihara.Controller.Generate.{generate_maintenance_job}
use vihara.Controller.Reconcile.{Controller}
use vihara.Controller.JobCache.{get_mt_job_from_cache}

-- A loop that converts each entry and returns at the first error.
unfoldable pub each : {A B : Type 0} → (A → M (Result B)) → List A → M (Result (List B))
each f [] = pure (ok [])
each f (x ∷ xs) = do
  converted ← f x
  elim converted [
    | err x' ↦ pure (err x')
    | ok y ↦ do rest ← each f xs; elim rest [ err x' ↦ pure (err x') | ok ys ↦ pure (ok (y ∷ ys)) ]
  ]

module _ (e : Env) (c : Controller) where
  -- the `continue`s of the loop over the nodes
  unfoldable pub is_selected : MaintenanceSpec → List String → Node → Bool
  is_selected spec unavailable node =
      (is_empty spec.nodes || contains spec.nodes node.meta.name)
      && not (contains unavailable node.meta.name)
      && not (e.untolerated_taint node.taints spec.tolerations)
      && not (node.node_info.machine_id == "")

  -- the job of one selected node
  unfoldable pub build_job : Maintenance → MaintenanceSpec → Node → M (Result MaintenanceJob)
  build_job mt spec node = do
    env ← each (create_pod_env_var e node) spec.env
    elim env [
      | err x ↦ pure (err x)
      | ok node_env ↦ do
        env_from ← each (create_pod_env_from e node) spec.env_from
        elim env_from [
          | err x ↦ pure (err x)
          | ok node_env_from ↦ pure (
              ok (
                generate_maintenance_job node_env node_env_from node.meta.name
                  node.node_info.machine_id mt spec c.job_namespace
                  c.config.jobs.default_stage_timeout))
        ]
    ]

  -- the loop over the nodes
  unfoldable pub build_jobs :
      Maintenance → MaintenanceSpec → List String → List Node → M (Result (List MaintenanceJob))
  unfolding is_selected
  build_jobs mt spec unavailable [] = pure (ok [])
  build_jobs mt spec unavailable (node ∷ nodes) = elim (is_selected spec unavailable node) [
    | false ↦ build_jobs mt spec unavailable nodes
    | true ↦ do
      built ← build_job mt spec node
      elim built [
        | err x ↦ pure (err x)
        | ok job ↦ do
          rest ← build_jobs mt spec unavailable nodes
          elim rest [ err x ↦ pure (err x) | ok jobs ↦ pure (ok (job ∷ jobs)) ]
      ]
  ]

-- The name that the loop tries at `i`, where the one before it was `name`.
abbrev pub candidate : String → ℕ → String → String
candidate base i name = if eqb i 1 then name else base <> "-" <> format_hex i

module _ (e : Env) (job : MaintenanceJob) where
  -- The loop over `i` with the rounds that are left: the name to create the job with, or `none` if
  -- a job of the same machine is there.
  unfoldable pub free_name : ℕ → ℕ → String → M (Option String)
  free_name zero i name = pure (some name)
  free_name (suc rounds) i name = do
    cached ← get_mt_job_from_cache e job.meta.namespace (candidate job.meta.name i name)
    elim cached [
      | err _ ↦ pure (some (candidate job.meta.name i name))
      | ok old ↦ elim (old.spec.machine_id == job.spec.machine_id) [
        | true ↦ pure none
        | false ↦ free_name rounds (i + 1) (candidate job.meta.name i name)
      ]
    ]

-- `for i := uint64(1); i < math.MaxUint64; i++`
abbrev pub max_rounds : ℕ
max_rounds = 18_446_744_073_709_551_614

abbrev pub with_name : MaintenanceJob → String → MaintenanceJob
with_name job name = record job { meta = record job.meta { name = name } }

-- `creationLoop`, with the rounds of its inner loop; a failed creation is logged.
unfoldable pub create_jobs : Env → ℕ → List MaintenanceJob → M (Unit {0})
create_jobs e rounds [] = pure tt
create_jobs e rounds (job ∷ jobs) = do
  name ← free_name e job rounds 1 job.meta.name
  elim name [
    | none ↦ create_jobs e rounds jobs
    | some name' ↦ do _ ← Clients.create_mt_job e (with_name job name'); create_jobs e rounds jobs
  ]
