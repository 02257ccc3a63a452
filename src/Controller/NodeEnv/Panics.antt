-- ===== src/Controller/NodeEnv/Panics.antt =====
-- Which environment entries can be resolved for a node without a panic.
use vihara.Prelude.{◌≡◌, ◌≢◌, true, false, none, some, ◌==◌, arith}
use vihara.Api.{Node, EnvVar, KeySelector, NodeSpecificEnvVar, NodeSpecificEnvFromSource}
use vihara.Validate.{validate_env, validate_env_from}
use vihara.Env.{Env, State, returned, panicked, ok, ◌>>=◌, pure, deref, panic}
use vihara.Controller.NodeEnv.{create_pod_env_var, create_pod_env_from}

module _ (e : Env) (node : Node) (s : State) where
  -- An environment variable that passes its validation and has no plain value is resolved without a
  -- panic, and nothing is called.
  create_pod_env_var_total :
      (v : NodeSpecificEnvVar)
      → validate_env v ≡ none
      → (v.value == "") ≡ true
      → ((create_pod_env_var e node v s).0 ≢ panicked) × ((create_pod_env_var e node v s).1 ≡ s)
  unfolding validate_env create_pod_env_var ◌>>=◌ pure deref panic
  create_pod_env_var_total v valid plain = ground arith

  -- An environment variable with a plain value and no reference passes its validation, and ends the
  -- program when it is resolved.
  pub create_pod_env_var_panics :
      (v : NodeSpecificEnvVar)
      → (v.name == "") ≡ false
      → (v.value == "") ≡ false
      → v.value_from.config_map_key_ref ≡ none
      → v.value_from.secret_key_ref ≡ none
      → (validate_env v ≡ none) × ((create_pod_env_var e node v s).0 ≡ panicked)
  unfolding validate_env create_pod_env_var ◌>>=◌ pure deref panic
  create_pod_env_var_panics v named valued no_map no_secret = ground arith

  -- A source of variables that passes its validation is resolved without a panic.
  create_pod_env_from_total :
      (src : NodeSpecificEnvFromSource)
      → validate_env_from src ≡ none
      → ((create_pod_env_from e node src s).0 ≢ panicked)
        × ((create_pod_env_from e node src s).1 ≡ s)
  unfolding validate_env_from create_pod_env_from ◌>>=◌ pure deref panic
  create_pod_env_from_total src valid = ground arith

  -- A variable that is taken from a secret gets the name of the secret as its key, whatever key its
  -- reference gives.
  pub secret_key-eq-name :
      (v : NodeSpecificEnvVar) (env_var : EnvVar) (selector : KeySelector)
      → (create_pod_env_var e node v s).0 ≡ returned (ok env_var)
      → env_var.secret_key_ref ≡ some selector
      → selector.key ≡ selector.name
  unfolding create_pod_env_var ◌>>=◌ pure deref panic
  secret_key-eq-name v env_var selector made taken = ground arith
