-- ===== src/Cmd.antt =====
-- The command (cmd/vihara/main.go, pkg/cmd/vihara.go): from the configuration to the leader election
-- and the controller. What the libraries do is in `Site`: each creation's error, if it fails.
pub mod ReadConfig
pub mod Signals
pub mod Namespace
pub mod Exit
use vihara.Prelude.{
  ℕ, Map, lookup, String, Bool, Option, none, some, List, [], ◌∷◌, ◌==◌, pos, if◌then◌else◌,
}
use vihara.Conf.{MaintenanceConfig, ViharaConfig}
use vihara.Env.{Error, errorf, wrapped, Result, ok, err}
use vihara.Controller.Reconcile.{Controller}
use vihara.Cmd.ReadConfig.{Launch, read_config}

-- the defaults of the flags, in nanoseconds
abbrev pub default_maintenance : MaintenanceConfig
default_maintenance = record {
  schedule = record {
    default_delay = pos 1_000_000_000;
    default_duration = pos 3_600_000_000_000;
    poll_interval = pos 5_000_000_000;
  };
  jobs = record {
    namespace = "";
    default_stage_timeout = pos 3_600_000_000_000;
    poll_interval = pos 5_000_000_000;
  };
}

-- The variables of package `constant` (pkg/constant/env.go), from the environment.
pub record Constants : Type 0 where
  pub pod_uid : String
  pub watch_ns : String
  pub job_ns : String

abbrev getenv : Map String → String → String
getenv env key = elim (lookup key env) [ none ↦ "" | some v ↦ v ]

-- `init`, with the namespace of the pod
unfoldable pub init_constants : Map String → String → Constants
init_constants env this_pod_ns = record {
  pod_uid = getenv env "POD_UID";
  watch_ns = elim (lookup "WATCH_NAMESPACE" env) [ some v ↦ v | none ↦ this_pod_ns ];
  job_ns = getenv env "JOB_NAMESPACE";
}

-- What the leader elector calls back.
pub data Election : Type 0 where
  elected ejected : Election
  new_leader : String → Election

pub record Site : Type 0 where
  -- envhelper.ThisPodNS
  pub this_pod_ns : String
  pub constants : Constants
  pub kube_client_error : Option Error
  -- whether metrics are served, or the error of their provider
  pub metrics : Result Bool
  pub tls_error : Option Error
  pub tracing_error : Option Error
  pub elector_error : Option Error
  -- what `elector.Run` calls back before it is about to return
  pub elections : List Election
  pub add_scheme_error : Option Error
  pub new_controller_error : MaintenanceConfig → Option Error
  pub start_error : Controller → Option Error

abbrev with_namespace : MaintenanceConfig → String → MaintenanceConfig
with_namespace c ns = record c { jobs = record c.jobs { namespace = ns } }

-- The namespace of the jobs, at the start of `run`.
unfoldable pub resolve_namespace : Site → MaintenanceConfig → MaintenanceConfig
resolve_namespace site c =
    let c' = if c.jobs.namespace == "" then with_namespace c site.this_pod_ns else c in
    if site.constants.job_ns == "" then c' else with_namespace c' site.constants.job_ns

-- The fields of `NewController` that the handlers read.
unfoldable pub new_controller : MaintenanceConfig → Controller
new_controller c = record { config = c; job_namespace = c.jobs.namespace }

-- How the program goes on after a callback: `exited` is `os.Exit`.
pub data Ending : Type 0 where
  failed : Error → Ending
  exited : ℕ → Ending

-- the function of an elected process, `none` if it goes on
unfoldable pub on_elected : Site → MaintenanceConfig → Option Ending
on_elected site c = elim site.add_scheme_error [
  | some _ ↦ some (exited 1)
  | none ↦ elim (site.new_controller_error c) [
    | some _ ↦ some (exited 1)
    | none ↦ elim (site.start_error (new_controller c)) [ some _ ↦ some (exited 1) | none ↦ none ]
  ]
]

-- the function of an ejected process
unfoldable pub on_ejected : Option Ending
on_ejected = some (exited 1)

-- `elector.Run` with its callbacks, and the return behind it. The elector calls back an ejection
-- whenever it returns.
unfoldable pub run_elections : Site → MaintenanceConfig → List Election → Ending
unfolding on_ejected
run_elections site c [] = elim on_ejected [
  | some end ↦ end
  | none ↦ failed (errorf "unreachable code")
]
run_elections site c (Election.elected ∷ es) =
    let rest = run_elections site c es in elim (on_elected site c) [ some end ↦ end | none ↦ rest ]
run_elections site c (Election.ejected ∷ es) =
    let rest = run_elections site c es in elim on_ejected [ some end ↦ end | none ↦ rest ]
run_elections site c (Election.new_leader _ ∷ es) = run_elections site c es

-- from the tracing provider on
unfoldable pub run_traced : Site → MaintenanceConfig → Ending
run_traced site c = elim site.tracing_error [
  | some x ↦ failed (wrapped "failed to create tracing provider" x)
  | none ↦ elim site.elector_error [
    | some x ↦ failed (wrapped "failed to create elector" x)
    | none ↦ run_elections site c site.elections
  ]
]

-- `run`
unfoldable pub run : Site → ViharaConfig → Ending
run site config =
    let c = resolve_namespace site config.maintenance in
    elim site.kube_client_error [
      | some x ↦ failed (wrapped "failed to create kube client from kubeconfig" x)
      | none ↦ elim site.metrics [
        | err x ↦ failed (wrapped "failed to create metrics provider" x)
        | ok served ↦
            if served
            then elim site.tls_error [
              | some x ↦ failed (wrapped "failed to get tls config for metrics listener" x)
              | none ↦ run_traced site c
            ]
            else run_traced site c
      ]
    ]

-- The commands: `version` prints and needs no configuration.
pub data Command : Type 0 where
  version root : Command

-- `main`: the exit code. `config` is what the first parsing of the flags gives.
unfoldable pub main : Launch → Site → Command → ViharaConfig → ℕ
main launch site version config = 0
main launch site root config = elim (read_config launch config) [
  | err _ ↦ 1
  | ok config' ↦ elim (run site config') [ failed _ ↦ 1 | exited code ↦ code ]
]
