-- ===== src/Controller/Phases/Updates.antt =====
-- When `onMaintenanceUpdated` enqueues.
use vihara.Prelude.{◌≡◌, ◌≢◌, ◌⊎◌, true, false, Option, none, List, [], ◌∷◌, All, arith, ◌==◌}
use vihara.Api.{Maintenance, can_be_scheduled_in, admitted, scheduled, expired, finished}
use vihara.Validate.{validate_env, validate_env_from, first_error}
use vihara.Env.{Error, Env, State, ◌>>=◌, pure}
use vihara.Env.Clients.{now, event}
use vihara.Env.Trace.{offers}
use vihara.Controller.Reconcile.{Controller}
use vihara.Controller.Phases.{spec_complaint, on_maintenance_updated}

first_error-All {ℓ} :
    {A : Type ℓ} (validate : A → Option Error) (xs : List A)
    → first_error validate xs ≡ none
    → All (λ x. validate x ≡ none) xs
unfolding first_error
first_error-All validate [] h = tt
first_error-All validate (x ∷ xs) h = ground (arith, first_error-All validate xs)

-- What a specification must have to be enqueued.
pub record IsSchedulable (e : Env) (mt : Maintenance) : Type 0 where
  pub snapshot_intact :
      (scheduled mt ≡ false)
      ⊎ ((e.sha256_hex mt.status.scheduled.spec_snapshot == mt.status.scheduled.spec_snapshot_hash)
          ≡ true)
  pub has_selector : mt.spec.node_selector ≢ []
  pub has_stages : mt.spec.stages ≢ []
  pub env_valid : All (λ v. validate_env v ≡ none) mt.spec.env
  pub env_from_valid : All (λ v. validate_env_from v ≡ none) mt.spec.env_from

spec_complaint-IsSchedulable :
    (e : Env) (mt : Maintenance) → spec_complaint e mt ≡ none → IsSchedulable e mt
unfolding spec_complaint
spec_complaint-IsSchedulable e mt h = record {
  snapshot_intact = ground arith;
  has_selector = ground arith;
  has_stages = ground arith;
  env_valid = ground (arith, first_error-All validate_env mt.spec.env);
  env_from_valid = ground (arith, first_error-All validate_env_from mt.spec.env_from);
}

module _ (e : Env) (c : Controller) (mt : Maintenance) (s : State) where
  -- A Maintenance that an update event puts into a queue is admitted, not finished, not expired at
  -- the time that the handler read, allowed in the job namespace, and valid: it has a node selector
  -- and stages, its environment entries pass their validation, and once it is scheduled its snapshot
  -- has the hash that was stored. In every other case the queues are left alone.
  pub on_maintenance_updated_enqueues :
      (offers (on_maintenance_updated e c mt s).1.history ≡ offers s.history)
      ⊎ ((admitted mt ≡ true)
          × (finished mt ≡ false)
          × (expired mt (e.now s.history) ≡ false)
          × (can_be_scheduled_in mt c.job_namespace ≡ true)
          × IsSchedulable e mt)
  unfolding on_maintenance_updated ◌>>=◌ pure now event
  on_maintenance_updated_enqueues = ground (arith, spec_complaint-IsSchedulable e mt)
