-- ===== src/Controller/Generate.antt =====
-- The jobs that the controller creates: `generateMaintenanceJob`
-- (pkg/controller/maintenance/maintenencejob.go) and `generateJob` (job.go).
pub mod Ownership
pub mod Pods
use vihara.Prelude.{
  String, Bool, true, false, not, ◌||◌, none, some, is_some, List, [], ◌∷◌, map, ◌==◌, ◌<>◌, insert,
  pos, quot, eqb_ℤ, if◌then◌else◌,
}
use vihara.Api.{
  Duration, ObjectMeta, OwnerReference, zero_time, EnvVar, EnvFromSource, Container, PodSpec,
  RestartPolicy, Job, MaintenanceStage, MaintenanceSpec, Maintenance, MaintenanceJob,
  empty_job_status, PodTemplateSpec,
}
use vihara.Env.{M, pure, deref, ◌>>=◌}
use vihara.Controller.Merge.{merge_env, merge_env_from}

-- `metav1.NewControllerRef`
unfoldable pub new_controller_ref : ObjectMeta → String → OwnerReference
new_controller_ref owner kind = record {
  kind = kind;
  name = owner.name;
  uid = owner.uid;
  controller = some true;
  block_owner_deletion = some true;
}

-- a pod that chooses its node by itself
unfoldable pub overrides_node : PodSpec → Bool
overrides_node spec =
    elim spec.affinity [ none ↦ false | some a ↦ is_some a.node_affinity ]
    || not (spec.node_name == "")
    || is_some spec.node_selector

module _ (node_env : List EnvVar) (node_env_from : List EnvFromSource) where
  abbrev pub add_env : Container → Container
  add_env c = record c {
    env = merge_env c.env node_env;
    env_from = merge_env_from c.env_from node_env_from;
  }

  -- the changes to the pod of a stage
  unfoldable pub generate_pod : String → MaintenanceSpec → PodSpec → PodSpec
  unfolding overrides_node
  generate_pod node_name snapshot spec = record spec {
    node_name = if overrides_node spec then spec.node_name else node_name;
    tolerations = if overrides_node spec then spec.tolerations else snapshot.tolerations;
    restart_policy = RestartPolicy.never;
    init_containers = map add_env spec.init_containers;
    containers = map add_env spec.containers;
  }

  unfoldable pub generate_stage :
      String → MaintenanceSpec → Duration → MaintenanceStage → MaintenanceStage
  unfolding generate_pod
  generate_stage node_name snapshot default_timeout stage = record stage {
    timeout = if eqb_ℤ stage.timeout (pos 0) then default_timeout else stage.timeout;
    pod = elim stage.pod [
      | none ↦ none
      | some pod ↦ some (record pod { spec = generate_pod node_name snapshot pod.spec })
    ];
  }

  -- `generateMaintenanceJob`
  unfoldable pub generate_maintenance_job :
      String → String → Maintenance → MaintenanceSpec → String → Duration → MaintenanceJob
  unfolding generate_stage new_controller_ref
  generate_maintenance_job node_name machine_id mt snapshot namespace default_timeout = record {
    meta = record {
      name = mt.meta.name <> "." <> node_name;
      namespace = namespace;
      uid = "";
      labels = mt.meta.labels;
      creation_timestamp = zero_time;
      deletion_timestamp = none;
      owner_references = new_controller_ref mt.meta "Maintenance" ∷ [];
    };
    spec = record {
      node_name = node_name;
      machine_id = machine_id;
      stages = map (generate_stage node_name snapshot default_timeout) snapshot.stages;
    };
    status = empty_job_status;
  }

-- constant.LabelMaintenanceStage
abbrev pub label_maintenance_stage : String
label_maintenance_stage = "maintenance.arhat.dev/stage"

-- `int64(d.Seconds())`. `Seconds` is a float64: exact to the second for durations below 2^23
-- seconds.
abbrev pub seconds : Duration → Duration
seconds d = quot d 1_000_000_000

-- the job of `generateJob`, from the pod of the stage
unfoldable pub job_with_pod : MaintenanceJob → MaintenanceStage → PodTemplateSpec → Job
unfolding new_controller_ref
job_with_pod mt_job stage pod = record {
  meta = record {
    name = mt_job.meta.name <> "." <> stage.name;
    namespace = mt_job.meta.namespace;
    uid = "";
    labels = insert label_maintenance_stage stage.name mt_job.meta.labels;
    creation_timestamp = zero_time;
    deletion_timestamp = none;
    owner_references = new_controller_ref mt_job.meta "MaintenanceJob" ∷ [];
  };
  spec = record {
    parallelism = some (pos 1);
    completions = some (pos 1);
    active_deadline_seconds = some (seconds stage.timeout);
    template = pod;
  };
  status = record {
    active = pos 0;
    succeeded = pos 0;
    failed = pos 0;
    completion_time = none;
    conditions = [];
  };
}

-- `generateJob`
unfoldable pub generate_job : MaintenanceJob → MaintenanceStage → M Job
generate_job mt_job stage = do pod ← deref stage.pod; pure (job_with_pod mt_job stage pod)
