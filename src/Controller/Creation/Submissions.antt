-- ===== src/Controller/Creation/Submissions.antt =====
-- What the loop over the new jobs submits, and that making them only reads.
use mathlib.Core.Path.{subst}
use vihara.Prelude.{
  ℕ, zero, suc, String, ◌≡◌, refl, sym, ap, ◌∙◌, Option, none, some, List, [], ◌∷◌, ◌++◌, All,
  All-append, arith,
}
use vihara.Api.{
  Node, MaintenanceSpec, Maintenance, MaintenanceJob, NodeSpecificEnvVar, NodeSpecificEnvFromSource,
}
use vihara.Env.{Call, Env, State, Result, M, returned, record_call, ◌>>=◌, pure, deref, panic}
use vihara.Env.Clients.{create_mt_job}
use vihara.Env.Reads.{Reads}
use vihara.Env.Trace.{mt_job_creations}
use vihara.Controller.Reconcile.{Controller}
use vihara.Controller.NodeEnv.{create_pod_env_var, create_pod_env_from}
use vihara.Controller.Creation.{each, build_job, build_jobs, free_name, with_name, create_jobs}
use vihara.Controller.Creation.Names.{free_name_zero, free_name-Chosen}

Reads-each :
    {A B : Type 0} (f : A → M (Result B)) (xs : List A) (s : State)
    → ((x : A) → Reads (f x) s)
    → Reads (each f xs) s
unfolding each ◌>>=◌ pure
Reads-each f [] s quiet = refl
Reads-each f (x ∷ xs) s quiet = ground (arith, quiet x, Reads-each f xs s quiet)

module _ (e : Env) (c : Controller) (mt : Maintenance) (spec : MaintenanceSpec) where
  Reads-create_pod_env_var :
      (node : Node) (v : NodeSpecificEnvVar) (s : State) → Reads (create_pod_env_var e node v) s
  unfolding create_pod_env_var ◌>>=◌ pure deref panic
  Reads-create_pod_env_var node v s = ground arith

  Reads-create_pod_env_from :
      (node : Node) (v : NodeSpecificEnvFromSource) (s : State)
      → Reads (create_pod_env_from e node v) s
  unfolding create_pod_env_from ◌>>=◌ pure deref panic
  Reads-create_pod_env_from node v s = ground arith

  Reads-build_job : (node : Node) (s : State) → Reads (build_job e c mt spec node) s
  unfolding build_job ◌>>=◌ pure
  Reads-build_job node s = ground (
    arith,
    Reads-each (create_pod_env_var e node) spec.env s (λ v. Reads-create_pod_env_var node v s),
    Reads-each (create_pod_env_from e node) spec.env_from s
        (λ v. Reads-create_pod_env_from node v s),
  )

  -- Making the jobs calls nothing.
  pub Reads-build_jobs :
      (unavailable : List String) (nodes : List Node) (s : State)
      → Reads (build_jobs e c mt spec unavailable nodes) s
  unfolding build_jobs ◌>>=◌ pure
  Reads-build_jobs unavailable [] s = refl
  Reads-build_jobs unavailable (node ∷ nodes) s =
      ground (arith, Reads-build_job node s, Reads-build_jobs unavailable nodes s)

append_cons : {A : Type 0} (xs : List A) (y : A) (ys : List A) → xs ++ y ∷ ys ≡ (xs ++ y ∷ []) ++ ys
append_cons [] y ys = refl
append_cons (x ∷ xs) y ys = ap (λ zs. x ∷ zs) (append_cons xs y ys)

module _ (e : Env) (job : MaintenanceJob) where
  -- The search for a name returns, in the state that it was given.
  pub free_name_returned :
      (rounds i : ℕ) (name : String) (s : State)
      → (r : Option String) × (free_name e job rounds i name s ≡ (returned r, s))
  free_name_returned zero i name s = (some name, free_name_zero e job i name s)
  free_name_returned (suc rounds) i name s =
      let (r, same, _) = free_name-Chosen e job rounds i name s in (r, same)

module _ (e : Env) where
  pub create_jobs_of_unnamed :
      (rounds : ℕ) (job : MaintenanceJob) (jobs : List MaintenanceJob) (s : State)
      → free_name e job rounds 1 job.meta.name s ≡ (returned none, s)
      → create_jobs e rounds (job ∷ jobs) s ≡ create_jobs e rounds jobs s
  unfolding create_jobs ◌>>=◌
  create_jobs_of_unnamed rounds job jobs s found = rw found refl

  pub create_jobs_of_named :
      (rounds : ℕ) (job : MaintenanceJob) (jobs : List MaintenanceJob) (s : State) (name : String)
      → free_name e job rounds 1 job.meta.name s ≡ (returned (some name), s)
      → create_jobs e rounds (job ∷ jobs) s
        ≡ create_jobs e rounds jobs (record_call (Call.create_mt_job (with_name job name)) s)
  unfolding create_jobs create_mt_job ◌>>=◌
  create_jobs_of_named rounds job jobs s name found = rw found refl

module _ (e : Env) (P : MaintenanceJob → Type 0)
    (renames : (job : MaintenanceJob) (name : String) → P job → P (with_name job name)) where
  -- What the loop submits is a list of the jobs that it was given, under new names.
  abbrev Submits : State → State → Type 0
  Submits s s' =
      (new : List MaintenanceJob) × (mt_job_creations s'.history
        ≡ new ++ mt_job_creations s.history)
      × All P new

  pub create_jobs-All :
      (rounds : ℕ) (jobs : List MaintenanceJob) (s : State)
      → All P jobs
      → Submits s (create_jobs e rounds jobs s).1
  unfolding create_jobs pure
  create_jobs-All rounds [] s h = ([], refl, tt)
  create_jobs-All rounds (job ∷ jobs) s (p, h) =
      let (r, same) = free_name_returned e job rounds 1 job.meta.name s in
      (elim r
          as (λ r.
            free_name e job rounds 1 job.meta.name s ≡ (returned r, s)
            → Submits s (create_jobs e rounds (job ∷ jobs) s).1) [
              | none ↦ λ found.
                  subst (λ q. Submits s q.1)
                    (sym (create_jobs_of_unnamed e rounds job jobs s found))
                    (create_jobs-All rounds jobs s h)
              | some name ↦ λ found.
                  let t = record_call (Call.create_mt_job (with_name job name)) s in
                  let (new, grown, all) = create_jobs-All rounds jobs t h in
                  subst (λ q. Submits s q.1)
                    (sym (create_jobs_of_named e rounds job jobs s name found))
                    (
                      new ++ with_name job name ∷ [],
                      grown ∙ append_cons new (with_name job name) (mt_job_creations s.history),
                      All-append P new (with_name job name ∷ []) all (renames job name p, tt),
                    )
            ])
        same
