-- ===== src/Tests/Nodes.antt =====
-- Draining, uncordoning and the environment entries of nodes on concrete objects; starting and
-- closing a manager.
use vihara.Prelude.{ℕ, ◌+◌, ◌≡◌, refl, Option, none, some, [], ◌∷◌, pos, All}
use vihara.Api.{
  Node, ObjectNameRef, ObjectNameKeyRef, NodeSpecificEnvVar, NodeSpecificEnvFromSource, EnvVar,
  KeySelector,
}
use vihara.Validate.{validate_env}
use vihara.Env.{Error, returned, panicked, ok, ◌>>=◌, pure, deref}
use vihara.Env.Clients.{now, patch_node}
use vihara.Controller.Nodes.{
  unschedulable_taint, with_taints, has_expected_taints, remove_unschedulable, node_patch,
  patch_update_node, drain_each, uncordon_each,
}
use vihara.Controller.Nodes.Draining.{IsDrained, drain_each-IsDrained, uncordon_each_stops}
use vihara.Controller.NodeEnv.{create_pod_env_var, resolve}
use vihara.Controller.NodeEnv.Panics.{create_pod_env_var_panics, secret_key-eq-name}
use vihara.Tests.World.{env, start, node_1}

abbrev drained : Node
drained = with_taints node_1 (unschedulable_taint (pos 7) ∷ [])

drain_two : (drain_each env (node_1 ∷ drained ∷ []) start).0 ≡ returned none
unfolding drain_each has_expected_taints node_patch patch_update_node now patch_node ◌>>=◌ pure
drain_two = refl

drain_each-IsDrained_example :
    All
      (IsDrained env (drain_each env (node_1 ∷ drained ∷ []) start).1.history)
      (node_1 ∷ drained ∷ [])
drain_each-IsDrained_example = drain_each-IsDrained env (node_1 ∷ drained ∷ []) start drain_two

uncordon_each_stops_example :
    uncordon_each env (node_1 ∷ drained ∷ []) start ≡ (returned none, start)
unfolding remove_unschedulable
uncordon_each_stops_example = uncordon_each_stops env node_1 (drained ∷ []) start refl

abbrev secret_name : ObjectNameRef
secret_name = record { name = "tokens"; name_from = none; name_format = "" }

abbrev secret_key : ObjectNameKeyRef
secret_key = record { name_ref = secret_name; key = "token"; key_from = none; key_format = "" }

-- a variable from the key "token" of the secret "tokens"
abbrev from_secret : NodeSpecificEnvVar
from_secret = record {
  name = "TOKEN";
  value = "";
  value_from = record { config_map_key_ref = none; secret_key_ref = some secret_key };
}

-- a variable with a value
abbrev plain : NodeSpecificEnvVar
plain = record {
  name = "LEVEL";
  value = "debug";
  value_from = record { config_map_key_ref = none; secret_key_ref = none };
}

-- a source of variables in a secret
abbrev secret_source : NodeSpecificEnvFromSource
secret_source = record { prefix = ""; config_map_ref = none; secret_ref = some secret_name }

create_pod_env_var_panics_example :
    (validate_env plain ≡ none) × ((create_pod_env_var env node_1 plain start).0 ≡ panicked)
create_pod_env_var_panics_example =
    create_pod_env_var_panics env node_1 start plain refl refl refl refl

abbrev token_selector : KeySelector
token_selector = record { name = "tokens"; key = "tokens" }

abbrev token : EnvVar
token = record {
  name = "TOKEN";
  value = "";
  config_map_key_ref = none;
  secret_key_ref = some token_selector;
}

token_made : (create_pod_env_var env node_1 from_secret start).0 ≡ returned (ok token)
unfolding create_pod_env_var resolve ◌>>=◌ pure deref
token_made = refl

secret_key-eq-name_example : token_selector.key ≡ token_selector.name
secret_key-eq-name_example =
    secret_key-eq-name env node_1 start from_secret token token_selector token_made refl

abbrev counting : ℕ → Option Error × ℕ
counting n = (none, n + 1)
