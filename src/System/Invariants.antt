-- ===== src/System/Invariants.antt =====
-- What each handler and each processing of a key keeps.
pub mod Reached
use mathlib.Core.Path.{subst}
use vihara.Prelude.{
  String, ◌≡◌, refl, sym, ◌∙◌, false, [], ◌∷◌, All, All-map, AllValues, AllValues-map,
  AllValues-insert, AllValues-erase, arith,
}
use vihara.Api.{is_zero, MaintenanceJob, Maintenance}
use vihara.Env.{History, Env, State, ok, ◌>>=◌, pure}
use vihara.Env.Trace.{mt_updates, mt_job_updates}
use vihara.Controller.Reconcile.{Controller}
use vihara.Controller.Events.{Event, handle}
use vihara.Controller.JobCache.{enqueue_mt_job}
use vihara.Controller.JobEvents.{get_controller_of, on_job_updated, on_job_other, on_mt_job_other}
use vihara.Controller.JobEvents.Updates.{on_job_updated_submits_nothing}
use vihara.Controller.Stages.{schedule_mt_job}
use vihara.Controller.Process.{
  TakenKey, mt_taken, mt_job_taken, process_maintenance, process_mt_job, consume,
}
use vihara.System.Lifecycle.{Lifecycle, IsConsistent, Lifecycle-IsConsistent}
use vihara.System.Reachable.{StoredMt, StoredMtJob, Delivered, Step, Reachable}
use vihara.System.Frames.{SameMts, SameMtJobs, Untouched}
use vihara.System.Frames.Maintenances.{
  SameMtJobs-on_maintenance_added, SameMtJobs-on_maintenance_updated,
  SameMtJobs-on_maintenance_deleting, SameMtJobs-on_maintenance_deleted,
}
use vihara.System.Frames.Jobs.{Untouched-enqueue_mt_job, SameMts-update_owned}
use vihara.System.Statuses.{Lives, Live, Live-SameMts, Lives-StoredMt}
use vihara.System.Statuses.Handlers.{
  Live-on_maintenance_added, Live-on_maintenance_updated, SameMts-on_maintenance_deleting,
  SameMts-on_maintenance_deleted, Live-process_maintenance, SameMtJobs-process_maintenance,
}
use vihara.System.JobStatuses.{StagesOk, JobOk, JobsLive, JobsLive-SameMtJobs, JobOk-StoredMtJob}
use vihara.System.JobStatuses.Logic.{Safe, Any, Safe-pure, Safe-bind, Safe-Untouched}
use vihara.System.JobStatuses.Passes.{Safe-schedule_mt_job, Safe-on_mt_job_added}

module _ (e : Env) (c : Controller) where
  pub record Good (s : State) : Type 0 where
    pub mts : Live e s
    pub jobs : JobsLive s

  module _ (clock : (h : History) → is_zero (e.now h) ≡ false) where
    -- an action on a Maintenance
    pub Good-of_mt : {s s' : State} → Live e s' → SameMtJobs s s' → Good s → Good s'
    Good-of_mt live same good = record { mts = live; jobs = JobsLive-SameMtJobs same good.jobs }

    Good-Untouched : {s s' : State} → Untouched s s' → Good s → Good s'
    Good-Untouched (mts, jobs) good = record {
      mts = Live-SameMts e mts good.mts;
      jobs = JobsLive-SameMtJobs jobs good.jobs;
    }

    -- an action on a MaintenanceJob
    pub Good-Safe : {A : Type 0} {m : _} {s : State} → Safe {A = A} m Any s → Good s → Good (m s).1
    Good-Safe safe good = record { mts = Live-SameMts e safe.same_mts good.mts; jobs = safe.live }

    Untouched-on_job_updated : (job : _) (s : State) → Untouched s (on_job_updated e job s).1
    unfolding on_job_updated
    Untouched-on_job_updated job s =
        let owner = get_controller_of job.meta.owner_references in
        (SameMts-update_owned e job owner s, on_job_updated_submits_nothing e job s)

    module _
        (stores : (h : History) (job job' : MaintenanceJob)
          → e.put_mt_job_status h job ≡ ok job'
          → job'.status ≡ job.status) where
      pub Safe-process_mt_job :
          {s : State} (name : String) → JobsLive s → Safe (process_mt_job e c name) Any s
      unfolding process_mt_job
      Safe-process_mt_job name l =
          Safe-bind (Safe-schedule_mt_job e stores clock c.job_namespace name l) (λ x t l' _.
            Safe-bind
              (Safe-Untouched
                (Untouched-enqueue_mt_job e c.job_namespace name c.config.jobs.poll_interval t) l')
              (λ y u l₂ _. Safe-pure tt tt l₂))

      pub Good-handle :
          (ev : Event) (s : State) → Delivered s.history ev → Good s → Good (handle e c ev s).1
      unfolding handle on_mt_job_other on_job_other pure
      Good-handle (Event.mt_added mt) s known g =
          Good-of_mt
            (Live-on_maintenance_added e c clock mt s (Lives-StoredMt e mt known g.mts) g.mts)
            (SameMtJobs-on_maintenance_added e c mt s) g
      Good-handle (Event.mt_updated mt) s known g =
          Good-of_mt (Live-on_maintenance_updated e c clock mt s g.mts)
            (SameMtJobs-on_maintenance_updated e c mt s) g
      Good-handle (Event.mt_deleting mt) s known g =
          Good-Untouched
            (SameMts-on_maintenance_deleting e c mt s, SameMtJobs-on_maintenance_deleting e c mt s)
            g
      Good-handle (Event.mt_deleted mt) s known g =
          Good-Untouched
            (SameMts-on_maintenance_deleted e c mt s, SameMtJobs-on_maintenance_deleted e c mt s) g
      Good-handle (Event.mt_job_added job) s known g =
          Good-Safe
            (Safe-on_mt_job_added e stores clock job (JobOk-StoredMtJob job known g.jobs) g.jobs) g
      Good-handle (Event.job_updated job) s known g =
          Good-Untouched (Untouched-on_job_updated job s) g
      Good-handle (Event.mt_job_updated job) s known g = g
      Good-handle (Event.mt_job_deleting job) s known g = g
      Good-handle (Event.mt_job_deleted job) s known g = g
      Good-handle (Event.job_added job) s known g = g
      Good-handle (Event.job_deleting job) s known g = g
      Good-handle (Event.job_deleted job) s known g = g
