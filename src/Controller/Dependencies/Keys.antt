-- ===== src/Controller/Dependencies/Keys.antt =====
-- What the loop over the keys of the job cache finds, for one dependency.
use mathlib.Core.List.{Memᴰ}
use vihara.Prelude.{
  String, ◌<>◌, starts_with, split_slash, ◌≡◌, refl, ◌⊎◌, inl, inr, true, Option, none, some, List,
  [], ◌∷◌, eq_iff, lookup, contains, arith,
}
use vihara.Api.{
  MaintenanceDependency, Maintenance, MaintenanceJob, job_finished, job_succeeded, job_failed,
}
use vihara.Env.{Env, Result, ok, err, State, returned, M, ◌>>=◌, pure, deref, panic}
use vihara.Env.Reads.{Reads, Reads-bind}
use vihara.Controller.JobCache.{cached_mt_job, get_mt_job_from_cache}
use vihara.Controller.Dependencies.{
  Checked, on_proceed, stopped, proceed, is_owned_by, meets, check_job, check_cached, check_parts,
  check_key, check_keys,
}

-- A job that has finished with the outcome that a condition names.
abbrev pub MeetsCondition : String → MaintenanceJob → Type 0
MeetsCondition condition job =
    (job_finished job ≡ some true)
    × ((((condition ≡ "") ⊎ (condition ≡ "succeeded")) × (job_succeeded job ≡ some true))
        ⊎ ((condition ≡ "failed") × (job_failed job ≡ some true)))

-- A job that does not stand in the way: it meets the condition, or the dependency is individual and
-- the job's node is among the unavailable ones.
abbrev pub IsClear : MaintenanceDependency → List String → MaintenanceJob → Type 0
IsClear dep nodes job =
    MeetsCondition dep.condition job
    ⊎ ((dep.individual ≡ true) × (contains nodes job.spec.node_name ≡ true))

meets-MeetsCondition :
    (condition : String) (job : MaintenanceJob) (s : State)
    → (meets condition job s).0 ≡ returned (some true)
    → MeetsCondition condition job
unfolding meets ◌>>=◌ pure deref panic
meets-MeetsCondition condition job s h =
    ground (arith, eq_iff condition "", eq_iff condition "succeeded", eq_iff condition "failed")

state-meets :
    (condition : String) (job : MaintenanceJob) (s : State) → (meets condition job s).1 ≡ s
unfolding meets ◌>>=◌ pure deref panic
state-meets condition job s = ground arith

state-check_job :
    (dep : MaintenanceDependency) (nodes : List String) (job : MaintenanceJob) (s : State)
    → (check_job dep nodes job s).1 ≡ s
unfolding check_job ◌>>=◌ pure
state-check_job dep nodes job s = ground (arith, state-meets dep.condition job s)

module _ (dep : MaintenanceDependency) (nodes nodes' : List String) (job : MaintenanceJob)
    (s : State) (passes : (check_job dep nodes job s).0 ≡ returned (proceed nodes')) where
  check_job-IsClear : IsClear dep nodes' job
  unfolding check_job ◌>>=◌ pure
  check_job-IsClear = ground (
    arith,
    meets-MeetsCondition dep.condition job s,
    eq_iff job.spec.node_name job.spec.node_name,
  )

contains-check_job :
    (dep : MaintenanceDependency) (nodes nodes' : List String) (job : MaintenanceJob) (s : State)
    (n : String)
    → (check_job dep nodes job s).0 ≡ returned (proceed nodes')
    → contains nodes n ≡ true
    → contains nodes' n ≡ true
unfolding check_job ◌>>=◌ pure
contains-check_job dep nodes nodes' job s n passes h = ground arith

pub Reads-on_proceed :
    (checked : Checked) (f : List String → M Checked) (s : State)
    → ((nodes : List String) → Reads (f nodes) s)
    → Reads (on_proceed checked f) s
unfolding on_proceed pure
Reads-on_proceed (stopped x) f s h = refl
Reads-on_proceed (proceed nodes) f s h = h nodes

pub IsClear-mono :
    (dep : MaintenanceDependency) (nodes nodes' : List String) (job : MaintenanceJob)
    → ((n : String) → contains nodes n ≡ true → contains nodes' n ≡ true)
    → IsClear dep nodes job
    → IsClear dep nodes' job
IsClear-mono dep nodes nodes' job grows (inl met) = inl met
IsClear-mono dep nodes nodes' job grows (inr (individual, there)) =
    inr (individual, grows job.spec.node_name there)

module _ (dep : MaintenanceDependency) (dep_mt : Maintenance) where
  state-check_cached :
      (nodes : List String) (cached : Result MaintenanceJob) (s : State)
      → (check_cached dep dep_mt nodes cached s).1 ≡ s
  unfolding check_cached pure
  state-check_cached nodes (err x) s = refl
  state-check_cached nodes (ok job) s = ground (arith, state-check_job dep nodes job s)

  contains-check_cached :
      (nodes nodes' : List String) (cached : Result MaintenanceJob) (s : State) (n : String)
      → (check_cached dep dep_mt nodes cached s).0 ≡ returned (proceed nodes')
      → contains nodes n ≡ true
      → contains nodes' n ≡ true
  unfolding check_cached pure
  contains-check_cached nodes nodes' (err x) s n passes h = cc
  contains-check_cached nodes nodes' (ok job) s n passes h =
      ground (arith, contains-check_job dep nodes nodes' job s n)

module _ (e : Env) (dep : MaintenanceDependency) (dep_mt : Maintenance) where
  state-check_parts :
      (nodes : List String) (parts : Option (String × String)) (s : State)
      → (check_parts e dep dep_mt nodes parts s).1 ≡ s
  unfolding check_parts get_mt_job_from_cache ◌>>=◌ pure
  state-check_parts nodes none s = refl
  state-check_parts nodes (some (namespace, name)) s =
      ground (arith, state-check_cached dep dep_mt nodes (cached_mt_job e s namespace name) s)

  state-check_key :
      (nodes : List String) (key : String) (s : State) → (check_key e dep dep_mt nodes key s).1 ≡ s
  unfolding check_key
  state-check_key nodes key s = state-check_parts nodes (split_slash key) s

  contains-check_parts :
      (nodes nodes' : List String) (parts : Option (String × String)) (s : State) (n : String)
      → (check_parts e dep dep_mt nodes parts s).0 ≡ returned (proceed nodes')
      → contains nodes n ≡ true
      → contains nodes' n ≡ true
  unfolding check_parts get_mt_job_from_cache ◌>>=◌ pure
  contains-check_parts nodes nodes' none s n passes h = ground arith
  contains-check_parts nodes nodes' (some (namespace, name)) s n passes h =
      ground (
        arith,
        contains-check_cached dep dep_mt nodes nodes' (cached_mt_job e s namespace name) s n,
      )

  check_keys_cons :
      (nodes : List String) (key : String) (all : List String) (s : State) {nodes' : List String}
      → (check_keys e dep dep_mt nodes (key ∷ all) s).0 ≡ returned (proceed nodes')
      → (between : List String) × ((check_key e dep dep_mt nodes key s).0
          ≡ returned (proceed between))
        × ((check_keys e dep dep_mt between all s).0 ≡ returned (proceed nodes'))
  unfolding check_keys on_proceed ◌>>=◌ pure
  check_keys_cons nodes key all s h = ground (arith, state-check_key nodes key s)

  pub contains-check_keys :
      (nodes nodes' all : List String) (s : State) (n : String)
      → (check_keys e dep dep_mt nodes all s).0 ≡ returned (proceed nodes')
      → contains nodes n ≡ true
      → contains nodes' n ≡ true
  unfolding check_keys check_key pure
  contains-check_keys nodes nodes' [] s n passes h = ground arith
  contains-check_keys nodes nodes' (key ∷ all) s n passes h =
      let (between, first, rest) = check_keys_cons nodes key all s passes in
      contains-check_keys between nodes' all s n rest
        (contains-check_parts nodes between (split_slash key) s n first h)

  pub state-check_keys :
      (nodes all : List String) (s : State) → (check_keys e dep dep_mt nodes all s).1 ≡ s
  unfolding check_keys pure
  state-check_keys nodes [] s = refl
  state-check_keys nodes (key ∷ all) s =
      Reads-bind (check_key e dep dep_mt nodes key) _ s (state-check_key nodes key s)
        (λ checked. Reads-on_proceed checked _ s (λ n. state-check_keys n all s))

  module _ (s : State) (namespace name : String) (job : MaintenanceJob)
      (readable : e.cache_error s.history (namespace <> "/" <> name) ≡ none)
      (prefix : starts_with name (dep.name <> ".") ≡ true)
      (found : lookup (namespace <> "/" <> name) s.mt_job_cache ≡ some job)
      (owned : is_owned_by dep_mt dep.name job.meta.owner_references ≡ true) where
    check_parts-IsClear :
        (nodes nodes' : List String)
        → (check_parts e dep dep_mt nodes (some (namespace, name)) s).0 ≡ returned (proceed nodes')
        → IsClear dep nodes' job
    unfolding check_parts get_mt_job_from_cache cached_mt_job check_cached ◌>>=◌ pure
    check_parts-IsClear nodes nodes' passes =
        check_job-IsClear dep nodes nodes' job s (ground arith)

    check_key-IsClear :
        (nodes nodes' : List String) (key : String)
        → split_slash key ≡ some (namespace, name)
        → (check_key e dep dep_mt nodes key s).0 ≡ returned (proceed nodes')
        → IsClear dep nodes' job
    unfolding check_key
    check_key-IsClear nodes nodes' key split passes =
        check_parts-IsClear nodes nodes' (rw split at passes)

    pub check_keys-IsClear :
        (nodes nodes' all : List String) (key : String)
        → split_slash key ≡ some (namespace, name)
        → Memᴰ key all
        → (check_keys e dep dep_mt nodes all s).0 ≡ returned (proceed nodes')
        → IsClear dep nodes' job
    check_keys-IsClear nodes nodes' [] key split m passes = elim m [ ]
    check_keys-IsClear nodes nodes' (k ∷ all) key split (Memᴰ.head same) passes =
        let (between, first, rest) = check_keys_cons nodes k all s passes in
        IsClear-mono dep between nodes' job (λ n. contains-check_keys between nodes' all s n rest)
          (check_key-IsClear nodes between k (rw (← same) split) first)
    check_keys-IsClear nodes nodes' (k ∷ all) key split (Memᴰ.tail m) passes =
        let (between, first, rest) = check_keys_cons nodes k all s passes in
        check_keys-IsClear between nodes' all key split m rest
