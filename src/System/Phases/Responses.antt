-- ===== src/System/Phases/Responses.antt =====
-- What a reachable controller does to its cached Maintenance objects when it is called.
use mathlib.Core.Path.{subst}
use vihara.Prelude.{String, ◌≡◌, refl, sym, false, [], ◌∷◌, some, lookup}
use vihara.Api.{is_zero, MaintenanceJob, Maintenance}
use vihara.Env.{History, Env, State, ok, pure}
use vihara.Controller.Reconcile.{Controller}
use vihara.Controller.Events.{Event, handle}
use vihara.Controller.JobEvents.{get_controller_of, on_job_updated, on_job_other, on_mt_job_other}
use vihara.Controller.Process.{TakenKey, mt_taken, mt_job_taken, process_mt_job, consume}
use vihara.System.Frames.Jobs.{SameMts-on_mt_job_added, SameMts-update_owned}
use vihara.System.Statuses.Handlers.{
  cache-on_maintenance_added, SameMts-on_maintenance_deleting, SameMts-on_maintenance_deleted,
}
use vihara.System.Reachable.{Reachable}
use vihara.System.Invariants.{Safe-process_mt_job}
use vihara.System.Invariants.Reached.{Good-Reachable, consume_mt, consume_mt_job}
use vihara.System.Phases.{
  Keeps, KeepsAll-of_same, KeepsAll, KeepsAll-SameMts, KeepsAll-process_maintenance,
  KeepsAll-on_maintenance_updated,
}

-- What calls the controller: an informer, or one of the two queues.
pub data Input : Type 0 where
  informed : Event → Input
  taken : TakenKey → Input

abbrev pub respond : Env → Controller → Input → State → State
respond e c (informed ev) s = (handle e c ev s).1
respond e c (taken key) s = (consume e c (key ∷ []) s).1

module _ (e : Env) (c : Controller) (clock : (h : History) → is_zero (e.now h) ≡ false) where
  KeepsAll-handle : (ev : Event) (s : State) → KeepsAll s (handle e c ev s).1
  unfolding handle on_mt_job_other on_job_other pure on_job_updated
  KeepsAll-handle (Event.mt_added mt) s =
      KeepsAll-of_same s (handle e c (Event.mt_added mt) s).1 (cache-on_maintenance_added e c mt s)
  KeepsAll-handle (Event.mt_updated mt) s = KeepsAll-on_maintenance_updated e c clock mt s
  KeepsAll-handle (Event.mt_deleting mt) s =
      KeepsAll-SameMts s (handle e c (Event.mt_deleting mt) s).1
        (SameMts-on_maintenance_deleting e c mt s)
  KeepsAll-handle (Event.mt_deleted mt) s =
      KeepsAll-SameMts s (handle e c (Event.mt_deleted mt) s).1
        (SameMts-on_maintenance_deleted e c mt s)
  KeepsAll-handle (Event.mt_job_added job) s =
      KeepsAll-SameMts s (handle e c (Event.mt_job_added job) s).1 (SameMts-on_mt_job_added e job s)
  KeepsAll-handle (Event.job_updated job) s =
      let owner = get_controller_of job.meta.owner_references in
      KeepsAll-SameMts s (handle e c (Event.job_updated job) s).1
        (SameMts-update_owned e job owner s)
  KeepsAll-handle (Event.mt_job_updated job) s = KeepsAll-SameMts s s (refl, refl)
  KeepsAll-handle (Event.mt_job_deleting job) s = KeepsAll-SameMts s s (refl, refl)
  KeepsAll-handle (Event.mt_job_deleted job) s = KeepsAll-SameMts s s (refl, refl)
  KeepsAll-handle (Event.job_added job) s = KeepsAll-SameMts s s (refl, refl)
  KeepsAll-handle (Event.job_deleting job) s = KeepsAll-SameMts s s (refl, refl)
  KeepsAll-handle (Event.job_deleted job) s = KeepsAll-SameMts s s (refl, refl)

  module _
      (stores : (h : History) (job job' : MaintenanceJob)
        → e.put_mt_job_status h job ≡ ok job'
        → job'.status ≡ job.status) where
    -- In one call of a reachable controller, whatever calls it, each Maintenance of its cache stays
    -- in the cache with the same metadata, specification and admission; its scheduled phase is the
    -- same if it was scheduled before the call, and its finished phase if it was finished; if the
    -- clock never shows Go's zero time and the API server stores the status of a MaintenanceJob as
    -- it was submitted.
    pub respond-Keeps :
        {s : State}
        → Reachable e c s
        → (input : Input) (key : String) (mt : Maintenance) → lookup key s.mt_cache ≡ some mt
        → (mt' : Maintenance) × (lookup key (respond e c input s).mt_cache ≡ some mt')
          × Keeps mt mt'
    respond-Keeps {s} reached (informed ev) = KeepsAll-handle ev s
    respond-Keeps {s} reached (taken (mt_taken name)) =
        subst (KeepsAll s) (sym (consume_mt e c clock stores name s))
          (KeepsAll-process_maintenance e c clock name s)
    respond-Keeps {s} reached (taken (mt_job_taken name)) =
        let jobs = (Good-Reachable e c clock stores reached).jobs in
        subst (KeepsAll s) (sym (consume_mt_job e c clock stores name s)) (
          KeepsAll-SameMts s (process_mt_job e c name s).1
            (Safe-process_mt_job e c clock stores name jobs).same_mts)
