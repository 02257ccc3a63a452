-- ===== src/Cmd/Namespace.antt =====
-- Which namespace the jobs are in.
use vihara.Prelude.{◌≡◌, not, ◌==◌, arith, if◌then◌else◌}
use vihara.Conf.{MaintenanceConfig}
use vihara.Cmd.{Site, resolve_namespace, new_controller}

-- The controller works in the namespace that the environment variable names; without it in the
-- configured one, and without that in the pod's own. The schedule and the other settings of the jobs
-- are passed on to it as they are.
pub job_namespace-new_controller :
    (site : Site) (c : MaintenanceConfig)
    → let controller = new_controller (resolve_namespace site c) in
      (controller.job_namespace ≡ (
        if not (site.constants.job_ns == "")
        then site.constants.job_ns
        else if not (c.jobs.namespace == "")
        then c.jobs.namespace
        else site.this_pod_ns))
      × (controller.config.jobs.namespace ≡ controller.job_namespace)
      × (controller.config.schedule ≡ c.schedule)
      × (controller.config.jobs.default_stage_timeout ≡ c.jobs.default_stage_timeout)
      × (controller.config.jobs.poll_interval ≡ c.jobs.poll_interval)
unfolding resolve_namespace new_controller
job_namespace-new_controller site c = ground arith
