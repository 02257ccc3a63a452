-- ===== src/Tests/Commands.antt =====
-- The command on concrete sites, and numbers in base 16.
use vihara.Prelude.{◌≡◌, lookup, false, true, none, [], ◌∷◌, pos}
use vihara.Conf.{LogConfig, ViharaConfig}
use vihara.Env.{err, ok, other}
use vihara.Cmd.{
  Site, init_constants, Election, default_maintenance, resolve_namespace, new_controller, run,
}
use vihara.Cmd.ReadConfig.{Launch}
use vihara.Cmd.Signals.{Signal, waiting, on_signals, on_signals-exited}
use vihara.Cmd.Namespace.{job_namespace-new_controller}
use vihara.Cmd.Exit.{Ends, run-Ends}

abbrev cli_log : LogConfig
cli_log = record { format = "console"; level = "info"; file = "stderr" }

-- no file, and no flag that names one
abbrev bare : Launch
bare = record {
  config_file = "/etc/vihara/config.yaml";
  read_file = λ _. err (other "no such file");
  env = [];
  expand = λ text _. text;
  unmarshal = λ _ config. ok config;
  changed = λ _. false;
  cli_log = cli_log;
  parse_flags = λ config. ok config;
  set_default_logger = λ _. none;
  error_text = λ _. "error";
}

abbrev defaults : ViharaConfig
defaults = record {
  log = [];
  metrics_http_path = "/metrics";
  metrics_endpoint = ":9876";
  maintenance = default_maintenance;
}

-- the process is elected, and the controller starts
abbrev site : Site
site = record {
  this_pod_ns = "vihara";
  constants = init_constants (("JOB_NAMESPACE", "jobs") ∷ []) "vihara";
  kube_client_error = none;
  metrics = ok false;
  tls_error = none;
  tracing_error = none;
  elector_error = none;
  elections = Election.new_leader "vihara-0" ∷ Election.elected ∷ [];
  add_scheme_error = none;
  new_controller_error = λ _. none;
  start_error = λ _. none;
}

job_namespace-new_controller_example :
    let controller = new_controller (resolve_namespace site default_maintenance) in
    (controller.job_namespace ≡ "jobs")
    × (controller.config.jobs.namespace ≡ controller.job_namespace)
    × (controller.config.schedule ≡ default_maintenance.schedule)
    × (controller.config.jobs.default_stage_timeout ≡ pos 3_600_000_000_000)
    × (controller.config.jobs.poll_interval ≡ pos 5_000_000_000)
unfolding init_constants lookup
job_namespace-new_controller_example = job_namespace-new_controller site default_maintenance

run-Ends_example : Ends site (run site defaults)
run-Ends_example = run-Ends site defaults

on_signals-exited_example :
    let w = on_signals waiting (Signal.sigterm ∷ Signal.interrupt ∷ []) in
    (w.canceled ≡ true) × (w.exited ≡ true)
on_signals-exited_example = on_signals-exited (Signal.sigterm ∷ Signal.interrupt ∷ [])
