-- ===== src/Api/Core.antt =====
-- The core and batch objects of Kubernetes, with the fields that the controller reads or writes.
use vihara.Prelude.{String, ℤ, Option, List, [], Map}
use vihara.Api.Meta.{Time, ObjectMeta, empty_meta}

pub data TaintEffect : Type 0 where
  no_schedule prefer_no_schedule no_execute : TaintEffect

pub record Taint : Type 0 where
  pub key : String
  pub value : String
  pub effect : TaintEffect
  pub time_added : Option Time

pub record Toleration : Type 0 where
  pub key : String
  pub operator : String
  pub value : String
  pub effect : Option TaintEffect

pub record NodeSystemInfo : Type 0 where
  pub machine_id : String
  pub system_uuid : String
  pub boot_id : String

pub record Node : Type 0 where
  pub meta : ObjectMeta
  pub provider_id : String
  pub taints : List Taint
  pub node_info : NodeSystemInfo

abbrev pub empty_node : Node
empty_node = record {
  meta = empty_meta;
  provider_id = "";
  taints = [];
  node_info = record { machine_id = ""; system_uuid = ""; boot_id = "" };
}

-- `ConfigMapKeySelector` and `SecretKeySelector`
pub record KeySelector : Type 0 where
  pub name : String
  pub key : String

-- `EnvVar`, with the two value sources that the controller fills
pub record EnvVar : Type 0 where
  pub name : String
  pub value : String
  pub config_map_key_ref : Option KeySelector
  pub secret_key_ref : Option KeySelector

-- `EnvFromSource`; a reference is the name of the config map or secret
pub record EnvFromSource : Type 0 where
  pub prefix : String
  pub config_map_ref : Option String
  pub secret_ref : Option String

pub record Container : Type 0 where
  pub name : String
  pub env : List EnvVar
  pub env_from : List EnvFromSource

-- the node affinity is kept as a text, which the controller only compares with nil
pub record Affinity : Type 0 where
  pub node_affinity : Option String

pub data RestartPolicy : Type 0 where
  always on_failure never : RestartPolicy

pub record PodSpec : Type 0 where
  pub affinity : Option Affinity
  pub node_name : String
  pub node_selector : Option (Map String)
  pub tolerations : List Toleration
  pub restart_policy : RestartPolicy
  pub init_containers : List Container
  pub containers : List Container

pub record PodTemplateSpec : Type 0 where
  pub labels : Map String
  pub spec : PodSpec

pub record JobCondition : Type 0 where
  pub reason : String
  pub message : String

pub record JobSpec : Type 0 where
  pub parallelism : Option ℤ
  pub completions : Option ℤ
  pub active_deadline_seconds : Option ℤ
  pub template : PodTemplateSpec

pub record JobStatus : Type 0 where
  pub active : ℤ
  pub succeeded : ℤ
  pub failed : ℤ
  pub completion_time : Option Time
  pub conditions : List JobCondition

pub record Job : Type 0 where
  pub meta : ObjectMeta
  pub spec : JobSpec
  pub status : JobStatus
