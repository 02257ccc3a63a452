-- ===== src/System/Reachable.antt =====
-- The states that the controller can be in, with the API server and the informers around it: the
-- informers deliver and forget objects, the handlers of the reconcilers run, the two queues give
-- out keys, and the controller may be restarted. A handler and the processing of a key are one
-- step each.
use vihara.Prelude.{String, ◌≡◌, ◌⊎◌, [], ◌∷◌, insert, erase}
use mathlib.Core.List.{Memᴰ}
use vihara.Api.{
  Maintenance, MaintenanceStatus, MaintenanceJob, MaintenanceJobStatus, empty_job_status,
}
use vihara.Env.{History, Env, State}
use vihara.Env.Trace.{mt_updates, mt_job_updates}
use vihara.Controller.Reconcile.{Controller}
use vihara.Controller.Events.{Event, handle}
use vihara.Controller.Process.{TakenKey, consume}
use vihara.System.Lifecycle.{blank}

-- The status that the API server can have for an object: the one of an object that a user has
-- created, or one that the controller has submitted. Nobody else writes the status subresource.
abbrev pub StoredMt : History → MaintenanceStatus → Type 0
StoredMt h st = (st ≡ blank) ⊎ ((mt : Maintenance) × Memᴰ mt (mt_updates h) × (st ≡ mt.status))

abbrev pub StoredMtJob : History → MaintenanceJobStatus → Type 0
StoredMtJob h st =
    (st ≡ empty_job_status)
    ⊎ ((job : MaintenanceJob) × Memᴰ job (mt_job_updates h) × (st ≡ job.status))

-- What an event can be about. Of a Kubernetes job nothing is assumed.
abbrev pub Delivered : History → Event → Type 0
Delivered h (Event.mt_added mt) = StoredMt h mt.status
Delivered h (Event.mt_updated mt) = StoredMt h mt.status
Delivered h (Event.mt_deleting mt) = StoredMt h mt.status
Delivered h (Event.mt_deleted mt) = StoredMt h mt.status
Delivered h (Event.mt_job_added job) = StoredMtJob h job.status
Delivered h (Event.mt_job_updated job) = StoredMtJob h job.status
Delivered h (Event.mt_job_deleting job) = StoredMtJob h job.status
Delivered h (Event.mt_job_deleted job) = StoredMtJob h job.status
Delivered h _ = Unit

abbrev pub initial : State
initial = record { mt_cache = []; mt_job_cache = []; history = [] }

pub data Step (e : Env) (c : Controller) (s : State) (next : State) : Type 0 where
  mt_delivered :
      (key : String) (mt : Maintenance)
      → StoredMt s.history mt.status
      → next ≡ record s { mt_cache = insert key mt s.mt_cache }
      → Step e c s next
  mt_forgotten :
      (key : String) → next ≡ record s { mt_cache = erase key s.mt_cache } → Step e c s next
  mt_job_delivered :
      (key : String) (job : MaintenanceJob)
      → StoredMtJob s.history job.status
      → next ≡ record s { mt_job_cache = insert key job s.mt_job_cache }
      → Step e c s next
  mt_job_forgotten :
      (key : String) → next ≡ record s { mt_job_cache = erase key s.mt_job_cache } → Step e c s next
  handled : (ev : Event) → Delivered s.history ev → next ≡ (handle e c ev s).1 → Step e c s next
  took : (key : TakenKey) → next ≡ (consume e c (key ∷ []) s).1 → Step e c s next
  restarted : next ≡ record s { mt_cache = []; mt_job_cache = [] } → Step e c s next

pub data Reachable (e : Env) (c : Controller) : State → Type 0 where
  started : Reachable e c initial
  stepped : {s next : State} → Reachable e c s → Step e c s next → Reachable e c next
