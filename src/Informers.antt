-- ===== src/Informers.antt =====
-- The generated shared informer factory and its two informers
-- (pkg/apis/vihara/generated/informers/externalversions). An informer of client-go is the description
-- that it is made from. The factory's lock makes each of its methods one step; a Go map's entries
-- come in any order, here in the order of the list.
pub mod Sharing
pub mod Listers
use vihara.Prelude.{
  String, Bool, true, false, not, Option, none, some, List, [], ◌∷◌, ◌==◌, ◌<>◌, Map, lookup,
  insert, if◌then◌else◌,
}
use vihara.Api.{Duration, Maintenance, MaintenanceJob}
use vihara.Env.{Error, errorf, Result, ok, err}
use vihara.Clientset.{ListOptions, Request}
use vihara.Clientset.MtJobs
use vihara.Clientset.Mts

abbrev pub Tweak : Type 0
Tweak = Option (ListOptions → ListOptions)

-- what an informer is made from
pub data Informer : Type 0 where
  mt_informer : Tweak → Duration → Informer
  mt_job_informer : String → Tweak → Duration → Informer

abbrev tweaked : Tweak → ListOptions → ListOptions
tweaked none opts = opts
tweaked (some f) opts = f opts

-- `ListFunc` and `WatchFunc` of the two informers, as requests
unfoldable pub mt_list_func : Tweak → ListOptions → Request Maintenance
mt_list_func tweak opts = Mts.list_request (tweaked tweak opts)

unfoldable pub mt_watch_func : Tweak → ListOptions → Request Maintenance
mt_watch_func tweak opts = Mts.watch_request (tweaked tweak opts)

unfoldable pub mt_job_list_func : String → Tweak → ListOptions → Request MaintenanceJob
mt_job_list_func ns tweak opts = MtJobs.list_request ns (tweaked tweak opts)

unfoldable pub mt_job_watch_func : String → Tweak → ListOptions → Request MaintenanceJob
mt_job_watch_func ns tweak opts = MtJobs.watch_request ns (tweaked tweak opts)

-- `sharedInformerFactory`; the maps' keys are the names of the types
pub record Factory : Type 0 where
  pub namespace : String
  pub tweak : Tweak
  pub default_resync : Duration
  pub custom_resync : Map Duration
  pub informers : Map Informer
  pub started : Map Bool

abbrev pub FactoryOption : Type 0
FactoryOption = Factory → Factory

-- the loop of `WithCustomResyncConfig`
unfoldable pub add_resyncs : Map Duration → Map Duration → Map Duration
add_resyncs [] m = m
add_resyncs ((k, v) ∷ config) m = add_resyncs config (insert k v m)

-- `WithCustomResyncConfig`
unfoldable pub with_custom_resync_config : Map Duration → FactoryOption
with_custom_resync_config config f = record f { custom_resync = add_resyncs config f.custom_resync }

-- `WithTweakListOptions`
unfoldable pub with_tweak_list_options : Tweak → FactoryOption
with_tweak_list_options tweak f = record f { tweak = tweak }

-- `WithNamespace`
unfoldable pub with_namespace : String → FactoryOption
with_namespace ns f = record f { namespace = ns }

unfoldable pub apply_options : List FactoryOption → Factory → Factory
apply_options [] f = f
apply_options (option ∷ options) f = apply_options options (option f)

-- `NewSharedInformerFactoryWithOptions`
unfoldable pub new_factory_with_options : Duration → List FactoryOption → Factory
new_factory_with_options resync options = apply_options options (record {
  namespace = "";
  tweak = none;
  default_resync = resync;
  custom_resync = [];
  informers = [];
  started = [];
})

-- `NewSharedInformerFactory`
unfoldable pub new_factory : Duration → Factory
new_factory resync = new_factory_with_options resync []

-- `NewFilteredSharedInformerFactory`
unfoldable pub new_filtered_factory : Duration → String → Tweak → Factory
new_filtered_factory resync ns tweak =
    new_factory_with_options resync (with_namespace ns ∷ with_tweak_list_options tweak ∷ [])

-- a type is missing in the map, or its entry says no
abbrev pub is_started : Map Bool → String → Bool
is_started started key = elim (lookup key started) [ none ↦ false | some b ↦ b ]

-- the loop of `Start`: the informers that it runs, and the types that have been started
unfoldable pub start_each : Map Informer → Map Bool → List Informer × Map Bool
start_each [] started = ([], started)
start_each ((key, informer) ∷ rest) started = elim (is_started started key) [
  | true ↦ start_each rest started
  | false ↦
      let (runs, started') = start_each rest (insert key true started) in
      (informer ∷ runs, started')
]

-- `Start`
unfoldable pub start : Factory → List Informer × Factory
start f =
    let (runs, started) = start_each f.informers f.started in (runs, record f { started = started })

-- `WaitForCacheSync`: whether the cache of each started informer has synced
unfoldable pub wait_for_cache_sync : (Informer → Bool) → Map Informer → Map Bool → Map Bool
wait_for_cache_sync synced [] started = []
wait_for_cache_sync synced ((key, informer) ∷ rest) started =
    let behind = wait_for_cache_sync synced rest started in
    if is_started started key then (key, synced informer) ∷ behind else behind

-- `InformerFor`
unfoldable pub informer_for : String → (Duration → Informer) → Factory → Informer × Factory
informer_for key new f = elim (lookup key f.informers) [
  | some informer ↦ (informer, f)
  | none ↦
      let resync : Duration = elim (lookup key f.custom_resync) [
        | some period ↦ period
        | none ↦ f.default_resync
      ] in
      (new resync, record f { informers = insert key (new resync) f.informers })
]

-- `Vihara().V1alpha1().Maintenance().Informer()`
unfoldable pub maintenance : Factory → Informer × Factory
maintenance f = informer_for "Maintenance" (λ resync. mt_informer f.tweak resync) f

-- `Vihara().V1alpha1().MaintenanceJobs().Informer()`
unfoldable pub maintenance_jobs : Factory → Informer × Factory
maintenance_jobs f =
    informer_for "MaintenanceJob" (λ resync. mt_job_informer f.namespace f.tweak resync) f

-- `ForResource`, of a resource of the group and version
unfoldable pub for_resource : String → Factory → Result Informer × Factory
for_resource resource f =
    if resource == "maintenance"
    then (let (informer, f') = maintenance f in (ok informer, f'))
    else if resource == "maintenancejobs"
    then (let (informer, f') = maintenance_jobs f in (ok informer, f'))
    else (err (errorf ("no informer found for " <> resource)), f)
