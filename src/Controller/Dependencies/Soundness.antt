-- ===== src/Controller/Dependencies/Soundness.antt =====
-- What it means that the dependency checks let a maintenance proceed.
use mathlib.Core.List.{Memᴰ}
use vihara.Prelude.{
  String, ◌<>◌, starts_with, has_slash, split_slash-key, lookup-keys, ◌≡◌, refl, ◌⊎◌, true, false,
  none, some, List, [], ◌∷◌, lookup, keys, contains, arith,
}
use vihara.Api.{MaintenanceDependency, Maintenance, finished, MaintenanceJob}
use vihara.Env.{Env, Result, ok, err, State, returned, ◌>>=◌, pure}
use vihara.Env.Clients.{list_mt_job_keys}
use vihara.Env.Reads.{Reads, Reads-bind}
use vihara.Controller.Phases.{cached_mt, get_maintenance_from_cache}
use vihara.Controller.Dependencies.Keys.{
  IsClear, IsClear-mono, Reads-on_proceed, state-check_keys, contains-check_keys,
  check_keys-IsClear,
}
use vihara.Controller.Dependencies.{
  on_proceed, proceed, is_owned_by, check_keys, check_found, check_dependency, check_dependencies,
}

module _ (e : Env) (dep : MaintenanceDependency) (nodes : List String) (s : State) where
  state-check_found : (cached : Result Maintenance) → (check_found e dep nodes cached s).1 ≡ s
  unfolding check_found list_mt_job_keys ◌>>=◌ pure
  state-check_found (err x) = refl
  state-check_found (ok dep_mt) =
      ground (arith, state-check_keys e dep dep_mt nodes (keys s.mt_job_cache) s)

  state-check_dependency : (check_dependency e dep nodes s).1 ≡ s
  unfolding check_dependency get_maintenance_from_cache ◌>>=◌
  state-check_dependency = state-check_found (cached_mt e s dep.name)

  -- What a dependency that lets its maintenance proceed was found to be.
  abbrev IsPassed : List String → Maintenance → Type 0
  IsPassed nodes' dep_mt =
      ((dep.individual ≡ true) ⊎ (finished dep_mt ≡ true))
      × ((check_keys e dep dep_mt nodes (keys s.mt_job_cache) s).0 ≡ returned (proceed nodes'))

  check_found-IsPassed :
      (nodes' : List String) (dep_mt : Maintenance)
      → (check_found e dep nodes (ok dep_mt) s).0 ≡ returned (proceed nodes')
      → IsPassed nodes' dep_mt
  unfolding check_found list_mt_job_keys ◌>>=◌ pure
  check_found-IsPassed nodes' dep_mt passes = ground arith

  check_found_ok :
      (nodes' : List String) (cached : Result Maintenance)
      → (check_found e dep nodes cached s).0 ≡ returned (proceed nodes')
      → (dep_mt : Maintenance) × (cached ≡ ok dep_mt)
  unfolding check_found pure
  check_found_ok nodes' (err x) passes = cc
  check_found_ok nodes' (ok dep_mt) passes = (dep_mt, refl)

cached_mt-found :
    (e : Env) (s : State) (name : String) {mt : Maintenance}
    → cached_mt e s name ≡ ok mt
    → lookup name s.mt_cache ≡ some mt
unfolding cached_mt
cached_mt-found e s name h = ground arith

module _ (e : Env) where
  check_dependencies_cons :
      (dep : MaintenanceDependency) (deps : List MaintenanceDependency) (nodes nodes' : List String)
      (s : State)
      → (check_dependencies e (dep ∷ deps) nodes s).0 ≡ returned (proceed nodes')
      → (between : List String) × ((check_dependency e dep nodes s).0 ≡ returned (proceed between))
        × ((check_dependencies e deps between s).0 ≡ returned (proceed nodes'))
  unfolding check_dependencies on_proceed ◌>>=◌ pure
  check_dependencies_cons dep deps nodes nodes' s passes =
      ground (arith, state-check_dependency e dep nodes s)

  check_dependency_lem :
      (dep : MaintenanceDependency) (nodes nodes' : List String) (s : State)
      → (check_dependency e dep nodes s).0 ≡ returned (proceed nodes')
      → (dep_mt : Maintenance) × (lookup dep.name s.mt_cache ≡ some dep_mt)
        × IsPassed e dep nodes s nodes' dep_mt
  unfolding check_dependency get_maintenance_from_cache ◌>>=◌
  check_dependency_lem dep nodes nodes' s passes =
      let (dep_mt, got) = check_found_ok e dep nodes s nodes' (cached_mt e s dep.name) passes in
      (
        dep_mt,
        cached_mt-found e s dep.name got,
        check_found-IsPassed e dep nodes s nodes' dep_mt (rw got at passes),
      )

  pub state-check_dependencies :
      (deps : List MaintenanceDependency) (nodes : List String) (s : State)
      → Reads (check_dependencies e deps nodes) s
  unfolding check_dependencies pure
  state-check_dependencies [] nodes s = refl
  state-check_dependencies (dep ∷ deps) nodes s =
      Reads-bind (check_dependency e dep nodes) _ s (state-check_dependency e dep nodes s)
        (λ checked. Reads-on_proceed checked _ s (λ n. state-check_dependencies deps n s))

  contains-check_dependencies :
      (deps : List MaintenanceDependency) (nodes nodes' : List String) (s : State) (n : String)
      → (check_dependencies e deps nodes s).0 ≡ returned (proceed nodes')
      → contains nodes n ≡ true
      → contains nodes' n ≡ true
  unfolding check_dependencies pure
  contains-check_dependencies [] nodes nodes' s n passes h = ground arith
  contains-check_dependencies (dep ∷ deps) nodes nodes' s n passes h =
      let (between, first, rest) = check_dependencies_cons dep deps nodes nodes' s passes in
      let (dep_mt, _, passed) = check_dependency_lem dep nodes between s first in
      contains-check_dependencies deps between nodes' s n rest
        (contains-check_keys e dep dep_mt nodes between (keys s.mt_job_cache) s n passed.1 h)

  -- If the checks let a maintenance proceed, the cache has the object of each of its dependencies,
  -- and this object is finished unless the dependency is individual.
  check_dependencies_finished :
      (deps : List MaintenanceDependency) (nodes nodes' : List String) (s : State)
      (dep : MaintenanceDependency)
      → (check_dependencies e deps nodes s).0 ≡ returned (proceed nodes')
      → Memᴰ dep deps
      → (dep_mt : Maintenance) × (lookup dep.name s.mt_cache ≡ some dep_mt)
        × ((dep.individual ≡ true) ⊎ (finished dep_mt ≡ true))
  check_dependencies_finished [] nodes nodes' s dep passes m = elim m [ ]
  check_dependencies_finished (d ∷ deps) nodes nodes' s dep passes (Memᴰ.head same) =
      let (between, first, _) = check_dependencies_cons d deps nodes nodes' s passes in
      let (dep_mt, found, passed) = check_dependency_lem d nodes between s first in
      rw same (dep_mt, found, passed.0)
  check_dependencies_finished (d ∷ deps) nodes nodes' s dep passes (Memᴰ.tail m) =
      let (between, _, rest) = check_dependencies_cons d deps nodes nodes' s passes in
      check_dependencies_finished deps between nodes' s dep rest m

  check_dependency-IsClear :
      (dep : MaintenanceDependency) (nodes nodes' : List String) (s : State) (dep_mt : Maintenance)
      (namespace name : String) (job : MaintenanceJob)
      → (check_dependency e dep nodes s).0 ≡ returned (proceed nodes')
      → lookup dep.name s.mt_cache ≡ some dep_mt
      → has_slash namespace ≡ false
      → e.cache_error s.history (namespace <> "/" <> name) ≡ none
      → starts_with name (dep.name <> ".") ≡ true
      → lookup (namespace <> "/" <> name) s.mt_job_cache ≡ some job
      → is_owned_by dep_mt dep.name job.meta.owner_references ≡ true
      → IsClear dep nodes' job
  check_dependency-IsClear dep nodes nodes' s dep_mt namespace name job passes found_mt plain
        readable prefix found owned =
      let (mt, found_mt', passed) = check_dependency_lem dep nodes nodes' s passes in
      let one : mt ≡ dep_mt = cc in
      check_keys-IsClear e dep mt s namespace name job readable prefix found (rw one owned) nodes
        nodes' (keys s.mt_job_cache) (namespace <> "/" <> name)
        (split_slash-key namespace name plain)
        (lookup-keys (namespace <> "/" <> name) s.mt_job_cache found) passed.1

  -- If the checks let a maintenance proceed, each job of a dependency that the cache has, that is
  -- owned by the dependency's object and is named after it, has finished with the outcome that the
  -- dependency's condition names; or the dependency is individual, and the job's node is among the
  -- nodes that get no job. The namespace of the job has no slash.
  pub check_dependencies-IsClear :
      (deps : List MaintenanceDependency) (nodes nodes' : List String) (s : State)
      (dep : MaintenanceDependency) (dep_mt : Maintenance) (namespace name : String)
      (job : MaintenanceJob)
      → (check_dependencies e deps nodes s).0 ≡ returned (proceed nodes')
      → Memᴰ dep deps
      → lookup dep.name s.mt_cache ≡ some dep_mt
      → has_slash namespace ≡ false
      → e.cache_error s.history (namespace <> "/" <> name) ≡ none
      → starts_with name (dep.name <> ".") ≡ true
      → lookup (namespace <> "/" <> name) s.mt_job_cache ≡ some job
      → is_owned_by dep_mt dep.name job.meta.owner_references ≡ true
      → IsClear dep nodes' job
  check_dependencies-IsClear [] nodes nodes' s dep dep_mt namespace name job passes m _ _ _ _ _ _ =
      elim m [ ]
  check_dependencies-IsClear (d ∷ deps) nodes nodes' s dep dep_mt namespace name job passes
        (Memᴰ.head same) found_mt plain readable prefix found owned =
      let (between, first, rest) = check_dependencies_cons d deps nodes nodes' s passes in
      IsClear-mono dep between nodes' job
        (λ n. contains-check_dependencies deps between nodes' s n rest)
        (check_dependency-IsClear dep nodes between s dep_mt namespace name job
          (rw (← same) at first) found_mt plain readable prefix found owned)
  check_dependencies-IsClear (d ∷ deps) nodes nodes' s dep dep_mt namespace name job passes
        (Memᴰ.tail m) found_mt plain readable prefix found owned =
      let (between, _, rest) = check_dependencies_cons d deps nodes nodes' s passes in
      check_dependencies-IsClear deps between nodes' s dep dep_mt namespace name job rest m found_mt
        plain readable prefix found owned
