-- ===== src/Tests/World.antt =====
-- The concrete world of the tests: a clock that moves by one nanosecond with each call, an API
-- server that stores what it is given, one that refuses every status, and a few objects.
use vihara.Prelude.{ℕ, ◌+◌, String, true, false, none, some, List, [], ◌∷◌, ◌<>◌, pos, length}
use vihara.Api.{
  Node, empty_node, empty_meta, ObjectMeta, PodTemplateSpec, RestartPolicy,
  MaintenanceNodeDrainSpec, MaintenanceStage, Maintenance, empty_maintenance, MaintenanceJob,
  MaintenanceJobStageStatus, empty_maintenance_job, empty_spec,
}
use vihara.Conf.{MaintenanceConfig}
use vihara.Env.{Env, State, ok, err, other}
use vihara.Controller.Reconcile.{Controller}

abbrev pub node_1 : Node
node_1 = record empty_node {
  meta = record empty_meta { name = "node-1" };
  node_info = record { machine_id = "m1"; system_uuid = "u1"; boot_id = "b1" };
}

abbrev pub env : Env
env = record {
  now = λ h. pos (1_000 + length h);
  cache_error = λ _ _. none;
  put_mt_status = λ _ mt. ok mt;
  delete_mt = λ _ _. none;
  put_mt_job_status = λ _ job. ok job;
  post_mt_job = λ _ job. ok job;
  post_job = λ _ job. ok job;
  get_node = λ _ _. ok node_1;
  list_nodes = λ _ _. ok (node_1 ∷ []);
  patch_node = λ _ _ _. none;
  queue_find = λ _ _ _. false;
  offer = λ _ _ _. none;
  this_pod = record { name = "vihara-0"; namespace = "vihara"; uid = "p0" };
  marshal_spec = λ _. ok "{}";
  unmarshal_spec = λ _. ok empty_spec;
  marshal_node = λ node. ok node.meta.name;
  sha256_hex = λ text. "sha:" <> text;
  merge_patch = λ old new. ok (old <> "->" <> new);
  selector_from_set = λ _. "labels";
  and_selectors = λ _. "fields";
  untolerated_taint = λ taints _. false;
  field_path = λ node path. ok path;
  sprintf = λ pattern_text value. pattern_text <> value;
  error_text = λ _. "error";
  quote = λ text. text;
  format_time = λ _. "time";
}

-- an API server that refuses every status of a Maintenance
abbrev pub refusing : Env
refusing = record env { put_mt_status = λ _ _. err (other "conflict") }

abbrev pub config : MaintenanceConfig
config = record {
  schedule = record { default_delay = pos 60; default_duration = pos 600; poll_interval = pos 10 };
  jobs = record { namespace = "vihara"; default_stage_timeout = pos 3_600; poll_interval = pos 5 };
}

abbrev pub controller : Controller
controller = record { config = config; job_namespace = "vihara" }

abbrev pub start : State
start = record { mt_cache = []; mt_job_cache = []; history = [] }

abbrev pub mt_meta : ObjectMeta
mt_meta = record empty_meta { name = "mt"; uid = "1"; creation_timestamp = pos 500 }

-- created at 500, with no schedule of its own
abbrev pub mt_new : Maintenance
mt_new = record empty_maintenance { meta = mt_meta }

-- admitted for the time from `since` to `until`
abbrev pub mt_admitted : ℕ → ℕ → Maintenance
mt_admitted since until = record mt_new {
  status = record (mt_new.status) {
    admitted = record (mt_new.status.admitted) {
      at = some (pos 501);
      schedule_since = some (pos since);
      schedule_until = some (pos until);
    };
  };
}

-- the state with one Maintenance in the cache
abbrev pub holding : Maintenance → State
holding mt = record start { mt_cache = (mt.meta.name, mt) ∷ [] }

abbrev pub drain_spec : MaintenanceNodeDrainSpec
drain_spec = record {
  node_selector = [];
  grace_period = pos 0;
  pod_selector = [];
  delete_local_data = false;
  ignore_daemonsets = true;
}

abbrev pub pod_spec : PodTemplateSpec
pod_spec = record {
  labels = [];
  spec = record {
    affinity = none;
    node_name = "";
    node_selector = none;
    tolerations = [];
    restart_policy = RestartPolicy.always;
    init_containers = [];
    containers = [];
  };
}

abbrev pub stage : String → MaintenanceStage
stage name = record {
  name = name;
  delay = pos 0;
  timeout = pos 100;
  drain = none;
  uncordon = none;
  pod = none;
}

abbrev pub drain_stage : MaintenanceStage
drain_stage = record (stage "drain") { drain = some drain_spec }

abbrev pub pod_stage : MaintenanceStage
pod_stage = record (stage "pod") { pod = some pod_spec }

abbrev pub uncordon_stage : MaintenanceStage
uncordon_stage = record (stage "uncordon") { uncordon = some (record { node_selector = [] }) }

abbrev pub pending : String → MaintenanceJobStageStatus
pending name = record {
  name = name;
  scheduled_at = none;
  finished_at = none;
  message = "";
  reason = "";
  running = false;
  succeeded = false;
  failed = false;
}

abbrev pub running_since : ℕ → String → MaintenanceJobStageStatus
running_since at name = record (pending name) { scheduled_at = some (pos at); running = true }

-- a job on `node-1` with stages and their statuses
abbrev pub job_of : List MaintenanceStage → List MaintenanceJobStageStatus → MaintenanceJob
job_of stages statuses = record empty_maintenance_job {
  meta = record empty_meta { name = "mt.node-1"; namespace = "vihara"; uid = "2" };
  spec = record { node_name = "node-1"; machine_id = "m1"; stages = stages };
  status = record { succeeded_at = none; failed_at = none; stages = statuses };
}
