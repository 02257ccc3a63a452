-- ===== src/Conf.antt =====
-- The configuration of the maintenance controller (pkg/conf/vihara.go).
use vihara.Prelude.{String, List}
use vihara.Api.{Duration}

pub record MaintenanceJobConfig : Type 0 where
  pub namespace : String
  pub default_stage_timeout : Duration
  pub poll_interval : Duration

pub record MaintenanceScheduleConfig : Type 0 where
  pub default_delay : Duration
  pub default_duration : Duration
  pub poll_interval : Duration

pub record MaintenanceConfig : Type 0 where
  pub schedule : MaintenanceScheduleConfig
  pub jobs : MaintenanceJobConfig

-- `log.Config` of arhat.dev/pkg, as far as the program writes it; `file` stands for all of its
-- output.
pub record LogConfig : Type 0 where
  pub format : String
  pub level : String
  pub file : String

-- `ViharaConfig`: of the controller configuration of arhat.dev/pkg, the log and the two metrics
-- settings that the program reads.
pub record ViharaConfig : Type 0 where
  pub log : List LogConfig
  pub metrics_http_path : String
  pub metrics_endpoint : String
  pub maintenance : MaintenanceConfig
