-- ===== src/Api/MtTypes.antt =====
-- The Maintenance object (pkg/apis/vihara/v1alpha1/types_maintenance.go).
use vihara.Prelude.{
  String, Bool, true, false, not, Option, none, some, List, [], Map, pos, ltb_ℤ, contains, is_empty,
  if◌then◌else◌,
}
use vihara.Api.Meta.{Time, Duration, is_zero?, ObjectMeta, empty_meta}
use vihara.Api.Core.{Toleration, PodTemplateSpec}

pub record MaintenanceDependency : Type 0 where
  pub name : String
  pub individual : Bool
  pub condition : String

pub record MaintenanceSchedule : Type 0 where
  pub since : Option Time
  pub delay : Duration
  pub until : Option Time
  pub duration : Duration
  pub depends : List MaintenanceDependency

-- `ValueFrom`; its one field is the path of a node's field
pub record ValueFrom : Type 0 where
  pub field_path : String

pub record MaintenanceNodeSelector : Type 0 where
  pub key : String
  pub value : String
  pub value_from : ValueFrom

pub record MaintenanceNodeDrainSpec : Type 0 where
  pub node_selector : List MaintenanceNodeSelector
  pub grace_period : Duration
  pub pod_selector : Map String
  pub delete_local_data : Bool
  pub ignore_daemonsets : Bool

pub record MaintenanceNodeUncordonSpec : Type 0 where
  pub node_selector : List MaintenanceNodeSelector

pub record MaintenanceStage : Type 0 where
  pub name : String
  pub delay : Duration
  pub timeout : Duration
  pub drain : Option MaintenanceNodeDrainSpec
  pub uncordon : Option MaintenanceNodeUncordonSpec
  pub pod : Option PodTemplateSpec

pub record ObjectNameRef : Type 0 where
  pub name : String
  pub name_from : Option ValueFrom
  pub name_format : String

pub record ObjectNameKeyRef : Type 0 where
  pub name_ref : ObjectNameRef
  pub key : String
  pub key_from : Option ValueFrom
  pub key_format : String

pub record NodeSpecificEnvValueFrom : Type 0 where
  pub config_map_key_ref : Option ObjectNameKeyRef
  pub secret_key_ref : Option ObjectNameKeyRef

pub record NodeSpecificEnvVar : Type 0 where
  pub name : String
  pub value : String
  pub value_from : NodeSpecificEnvValueFrom

pub record NodeSpecificEnvFromSource : Type 0 where
  pub prefix : String
  pub config_map_ref : Option ObjectNameRef
  pub secret_ref : Option ObjectNameRef

pub record MaintenanceSpec : Type 0 where
  pub target_namespaces : List String
  pub dry_run : Bool
  pub node_selector : Map String
  pub nodes : List String
  pub env : List NodeSpecificEnvVar
  pub env_from : List NodeSpecificEnvFromSource
  pub tolerations : List Toleration
  pub schedule : MaintenanceSchedule
  pub stages : List MaintenanceStage

pub record ResourceReference : Type 0 where
  pub name : String
  pub namespace : String
  pub uid : String

pub record MaintenancePhaseAdmitted : Type 0 where
  pub at : Option Time
  pub by : ResourceReference
  pub schedule_since : Option Time
  pub schedule_until : Option Time

-- `spec_snapshot_hash` is the one field of `Hash`, the SHA-256 sum in hexadecimal
pub record MaintenancePhaseScheduled : Type 0 where
  pub at : Option Time
  pub by : ResourceReference
  pub spec_snapshot : String
  pub spec_snapshot_hash : String

pub record MaintenancePhaseFinished : Type 0 where
  pub at : Option Time
  pub by : ResourceReference

pub record MaintenanceStatus : Type 0 where
  pub admitted : MaintenancePhaseAdmitted
  pub scheduled : MaintenancePhaseScheduled
  pub finished : MaintenancePhaseFinished

pub record Maintenance : Type 0 where
  pub meta : ObjectMeta
  pub spec : MaintenanceSpec
  pub status : MaintenanceStatus

abbrev pub no_reference : ResourceReference
no_reference = record { name = ""; namespace = ""; uid = "" }

abbrev pub empty_spec : MaintenanceSpec
empty_spec = record {
  target_namespaces = [];
  dry_run = false;
  node_selector = [];
  nodes = [];
  env = [];
  env_from = [];
  tolerations = [];
  schedule = record { since = none; delay = pos 0; until = none; duration = pos 0; depends = [] };
  stages = [];
}

-- `&v1alpha1.Maintenance{}`
abbrev pub empty_maintenance : Maintenance
empty_maintenance = record {
  meta = empty_meta;
  spec = empty_spec;
  status = record {
    admitted = record {
      at = none;
      by = no_reference;
      schedule_since = none;
      schedule_until = none;
    };
    scheduled = record {
      at = none;
      by = no_reference;
      spec_snapshot = "";
      spec_snapshot_hash = "";
    };
    finished = record { at = none; by = no_reference };
  };
}

-- `CanBeScheduledIn`
unfoldable pub can_be_scheduled_in : Maintenance → String → Bool
can_be_scheduled_in mt namespace =
    if not (is_empty mt.spec.target_namespaces)
    then contains mt.spec.target_namespaces namespace
    else true

-- a timestamp pointer that is set, the test of the four phase methods
abbrev pub is_set : Option Time → Bool
is_set t = not (is_zero? t)

unfoldable pub finished : Maintenance → Bool
finished mt = is_set mt.status.finished.at

unfoldable pub admitted : Maintenance → Bool
admitted mt = is_set mt.status.admitted.at

unfoldable pub canceled : Maintenance → Bool
canceled mt = is_set mt.meta.deletion_timestamp

-- `scheduleSince` is set and not after `now`
unfoldable pub started : Maintenance → Time → Bool
started mt now = elim mt.status.admitted.schedule_since [
  | none ↦ false
  | some since ↦ not (ltb_ℤ now since)
]

unfoldable pub scheduled : Maintenance → Bool
scheduled mt = is_set mt.status.scheduled.at

-- `scheduleUntil` is set and before `now`
unfoldable pub expired : Maintenance → Time → Bool
expired mt now = elim mt.status.admitted.schedule_until [
  | none ↦ false
  | some until ↦ ltb_ℤ until now
]
