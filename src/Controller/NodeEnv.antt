-- ===== src/Controller/NodeEnv.antt =====
-- Environment entries of a maintenance, resolved for one node
-- (pkg/controller/maintenance/maintenance.go). Each may panic on a nil reference.
pub mod Panics
use vihara.Prelude.{String, Option, none, some, is_some, ◌==◌, ◌<>◌, if◌then◌else◌}
use vihara.Api.{
  Node, EnvVar, EnvFromSource, ValueFrom, ObjectNameRef, NodeSpecificEnvVar,
  NodeSpecificEnvFromSource,
}
use vihara.Env.{wrapped, Result, ok, err, Env, M, pure, deref, ◌>>=◌}

abbrev or_ref {ℓ} : {A : Type ℓ} → Option A → Option A → Option A
or_ref none r = r
or_ref (some a) r = some a

module _ (e : Env) where
  -- `ExtractNodeFieldPathAsString`
  unfoldable pub extract_node_field_path : Node → String → Result String
  extract_node_field_path node path =
      if path == "status.nodeInfo.bootID"
      then ok node.node_info.boot_id
      else if path == "status.nodeInfo.systemUUID"
      then ok node.node_info.system_uuid
      else if path == "status.nodeInfo.machineID"
      then ok node.node_info.machine_id
      else if path == "node.spec.providerID"
      then ok node.provider_id
      else e.field_path node path

  -- a name or key that is given, or the node's field that its reference names
  unfoldable pub resolve : Node → String → Option ValueFrom → M (Result String)
  unfolding deref ◌>>=◌
  resolve node value from =
      if value == ""
      then (do reference ← deref from; pure (extract_node_field_path node reference.field_path))
      else pure (ok value)

  abbrev pub format : String → String → String
  format pattern_text value = if pattern_text == "" then value else e.sprintf pattern_text value

  abbrev env_from_source : NodeSpecificEnvFromSource → ObjectNameRef → String → EnvFromSource
  env_from_source src target resolved =
      let name = format target.name_format resolved in
      record {
        prefix = src.prefix;
        config_map_ref =
            if is_some src.secret_ref
            then none
            else if is_some src.config_map_ref
            then some name
            else none;
        secret_ref = if is_some src.secret_ref then some name else none;
      }

  -- `CreatePodEnvSourceFromNodeSpecificEnvFrom`
  unfoldable pub create_pod_env_from : Node → NodeSpecificEnvFromSource → M (Result EnvFromSource)
  unfolding resolve
  create_pod_env_from node src = do
    target ← deref (or_ref src.config_map_ref src.secret_ref)
    name ← resolve node target.name target.name_from
    elim name [
      | err x ↦ pure (err x)
      | ok resolved ↦ pure (ok (env_from_source src target resolved))
    ]

  -- the key of a secret reference is the name, as in the source
  abbrev env_var : NodeSpecificEnvVar → String → String → EnvVar
  env_var v name key = record {
    name = v.name;
    value = "";
    config_map_key_ref =
        if is_some v.value_from.config_map_key_ref
        then some (record { name = name; key = key })
        else none;
    secret_key_ref =
        if is_some v.value_from.config_map_key_ref
        then none
        else if is_some v.value_from.secret_key_ref
        then some (record { name = name; key = name })
        else none;
  }

  -- `CreatePodEnvVarFromNodeSpecificEnv`
  unfoldable pub create_pod_env_var : Node → NodeSpecificEnvVar → M (Result EnvVar)
  unfolding resolve
  create_pod_env_var node v = do
    target ← deref (or_ref v.value_from.config_map_key_ref v.value_from.secret_key_ref)
    name ← resolve node target.name_ref.name target.name_ref.name_from
    elim name [
      | err x ↦ pure (err (wrapped ("failed to resolve node specific name for env " <> v.name) x))
      | ok resolved_name ↦ do
        key ← resolve node target.key target.key_from
        elim key [
          | err x ↦
              pure (err (wrapped ("failed to resolve node specific key for env " <> v.name) x))
          | ok resolved_key ↦ pure (
              ok (
                env_var v (format target.name_ref.name_format resolved_name)
                  (format target.key_format resolved_key)))
        ]
    ]
