-- ===== src/Tests/Generation.antt =====
-- The generated objects on concrete ones.
use vihara.Controller.Merge.{merge_env, env_key}
use vihara.Controller.Merge.Lookup.{find, find-merge_env}
use vihara.Prelude.{
  insert, erase, String, none, ◌≡◌, refl, true, some, [], ◌∷◌, ◌<>◌, pos, lookup, starts_with,
  split_slash, has_slash,
}
use vihara.Api.{Job, EnvVar, EnvFromSource, empty_spec, MaintenanceSpec, MaintenanceJob}
use vihara.Controller.Generate.{generate_maintenance_job, job_with_pod}
use vihara.Controller.Generate.Ownership.{generate_maintenance_job_found}
use vihara.Controller.Generate.Pods.{AreMade, generate_maintenance_job_stages}
use vihara.Controller.Dependencies.{is_owned_by}
use vihara.Env.{State}
use vihara.Tests.World.{start, mt_new, job_of, pod_stage, drain_stage, pod_spec}

abbrev two_stages : MaintenanceSpec
two_stages = record empty_spec { stages = drain_stage ∷ pod_stage ∷ [] }

abbrev made : MaintenanceJob
made = generate_maintenance_job [] [] "node-1" "m1" mt_new two_stages "vihara" (pos 3_600)

generate_maintenance_job_found_example :
    (is_owned_by mt_new "mt" made.meta.owner_references ≡ true)
    × (starts_with made.meta.name ("mt" <> ".") ≡ true)
    × (split_slash (made.meta.namespace <> "/" <> made.meta.name)
        ≡ some (made.meta.namespace, made.meta.name))
unfolding has_slash
generate_maintenance_job_found_example =
    generate_maintenance_job_found [] [] "node-1" "m1" mt_new two_stages "vihara" (pos 3_600) refl

abbrev pod_job : Job
pod_job = job_with_pod (job_of [] []) pod_stage pod_spec

abbrev with_owner : State
with_owner = record start { mt_job_cache = ("vihara/mt.node-1", job_of [] []) ∷ [] }

generate_maintenance_job_stages_example :
    (made.spec.node_name ≡ "node-1")
    × (made.spec.machine_id ≡ "m1")
    × AreMade "node-1" two_stages.tolerations (pos 3_600) two_stages.stages made.spec.stages
unfolding generate_maintenance_job
generate_maintenance_job_stages_example =
    generate_maintenance_job_stages [] [] "node-1" two_stages (pos 3_600) "m1" mt_new "vihara"

abbrev variable : String → String → EnvVar
variable name value = record {
  name = name;
  value = value;
  config_map_key_ref = none;
  secret_key_ref = none;
}

-- "A" is given twice in the second list.
find-merge_env_example :
    find env_key "A" (
      merge_env
        (variable "A" "1" ∷ variable "B" "2" ∷ [])
        (variable "A" "3" ∷ variable "C" "4" ∷ variable "A" "5" ∷ []))
    ≡ some (variable "A" "5")
find-merge_env_example =
    find-merge_env "A" (variable "A" "1" ∷ variable "B" "2" ∷ [])
      (variable "A" "3" ∷ variable "C" "4" ∷ variable "A" "5" ∷ [])

merge_env_order :
    merge_env
      (variable "A" "1" ∷ variable "B" "2" ∷ [])
      (variable "A" "3" ∷ variable "C" "4" ∷ variable "A" "5" ∷ [])
    ≡ variable "A" "5" ∷ variable "B" "2" ∷ variable "C" "4" ∷ []
unfolding merge_env lookup insert erase
merge_env_order = refl

abbrev from_map : String → String → EnvFromSource
from_map prefix name = record { prefix = prefix; config_map_ref = some name; secret_ref = none }
