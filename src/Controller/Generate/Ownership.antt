-- ===== src/Controller/Generate/Ownership.antt =====
-- The links between the generated objects and the code that looks for them.
use text.Mathlib.TextEquality.{starts_with_iff}
use text.Mathlib.TextLemmas.{append_assoc, prefix-append}
use vihara.Prelude.{
  ◌≡◌, String, ◌<>◌, starts_with, split_slash, has_slash, split_slash-key, true, false, some, List,
  eq_refl, arith,
}
use vihara.Api.{Duration, EnvVar, EnvFromSource, MaintenanceSpec, Maintenance, MaintenanceJob}
use vihara.Controller.Generate.{generate_maintenance_job}
use vihara.Controller.Dependencies.{is_owned_by}
use vihara.Env.{Env}

module _ (env : List EnvVar) (env_from : List EnvFromSource) (node machine : String)
    (mt : Maintenance) (snapshot : MaintenanceSpec) (namespace : String) (timeout : Duration) where
  abbrev generated : MaintenanceJob
  generated = generate_maintenance_job env env_from node machine mt snapshot namespace timeout

  -- A job that is generated for a maintenance is one that the dependency checks of another
  -- maintenance find: it is owned by its maintenance, its name starts with the name of the
  -- maintenance and a dot, and its key in the cache is cut into its namespace and its name.
  pub generate_maintenance_job_found :
      has_slash namespace ≡ false
      → (is_owned_by mt mt.meta.name generated.meta.owner_references ≡ true)
        × (starts_with generated.meta.name (mt.meta.name <> ".") ≡ true)
        × (split_slash (generated.meta.namespace <> "/" <> generated.meta.name)
            ≡ some (generated.meta.namespace, generated.meta.name))
  unfolding generate_maintenance_job is_owned_by
  generate_maintenance_job_found plain = (
    ground (arith, eq_refl mt.meta.name, eq_refl mt.meta.uid, eq_refl "Maintenance"),
    rw (← append_assoc) ((starts_with_iff _ _).1 (prefix-append (mt.meta.name <> ".") node)),
    split_slash-key namespace (mt.meta.name <> "." <> node) plain,
  )
