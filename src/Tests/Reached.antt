-- ===== src/Tests/Reached.antt =====
-- Concrete runs of the whole controller.
use mathlib.Core.List.{Memᴰ}
use vihara.Controller.Phases.{schedule_since, schedule_until, with_admission, on_maintenance_added}
use vihara.Prelude.{
  ◌+ℤ◌, pos, inr, some, lookup, lookup-insert, ◌≡◌, refl, inl, false, [], ◌∷◌, insert, All,
  AllValues, arith,
}
use vihara.Api.{admitted, can_be_scheduled_in, is_zero, Maintenance, MaintenanceJob}
use vihara.System.Phases.{Keeps}
use vihara.System.Phases.Responses.{Input, respond, respond-Keeps}
use vihara.Env.Clients.{now, update_mt_status, event}
use vihara.Env.{pure, ◌>>=◌, History, State, ok}
use vihara.Env.Trace.{mt_updates, mt_job_updates}
use vihara.Controller.Events.{Event, handle}
use vihara.Controller.Process.{TakenKey, consume}
use vihara.System.Lifecycle.{Lifecycle, IsConsistent}
use vihara.System.Reachable.{initial, StoredMt, Step, Reachable}
use vihara.System.JobStatuses.{StagesOk}
use vihara.System.Invariants.Reached.{
  reachable_Lifecycle, reachable_IsConsistent, reachable_StagesOk,
}
use vihara.Tests.World.{env, controller, mt_new, job_of, drain_stage}

clock : (h : History) → is_zero (env.now h) ≡ false
clock h = ground arith

stores :
    (h : History) (job job' : MaintenanceJob)
    → env.put_mt_job_status h job ≡ ok job'
    → job'.status ≡ job.status
stores h job job' same = cc

-- A Maintenance is delivered and admitted.
abbrev with_mt : State
with_mt = record initial { mt_cache = insert "mt" mt_new [] }

abbrev admitted_mt : State
admitted_mt = (handle env controller (Event.mt_added mt_new) with_mt).1

-- The admitted object comes back from the informer, and its key is taken in its schedule.
abbrev mt_back : Maintenance
mt_back = with_admission env controller mt_new (pos 1_000)

abbrev with_back : State
with_back = record admitted_mt { mt_cache = insert "mt" mt_back admitted_mt.mt_cache }

back_stored : StoredMt admitted_mt.history mt_back.status
unfolding handle on_maintenance_added admitted can_be_scheduled_in schedule_since ◌+ℤ◌
    schedule_until ◌>>=◌ now update_mt_status event pure
back_stored = inr (mt_back, Memᴰ.head refl, refl)

back_reached : Reachable env controller with_back
back_reached =
    Reachable.stepped
      (Reachable.stepped
        (Reachable.stepped Reachable.started (Step.mt_delivered "mt" mt_new (inl refl) refl))
        (Step.handled (Event.mt_added mt_new) (inl refl) refl))
      (Step.mt_delivered "mt" mt_back back_stored refl)

back_there : lookup "mt" with_back.mt_cache ≡ some mt_back
back_there = lookup-insert "mt" "mt" mt_back admitted_mt.mt_cache

abbrev scheduled_mt : State
scheduled_mt = (consume env controller (TakenKey.mt_taken "mt" ∷ []) with_back).1

mt_reached : Reachable env controller scheduled_mt
mt_reached = Reachable.stepped back_reached (Step.took (TakenKey.mt_taken "mt") refl)

-- A MaintenanceJob is delivered and filled, and its key is taken.
abbrev new_job : MaintenanceJob
new_job = job_of (drain_stage ∷ []) []

abbrev with_job : State
with_job = record initial { mt_job_cache = insert "vihara/mt.node-1" new_job [] }

abbrev filled_job : State
filled_job = (handle env controller (Event.mt_job_added new_job) with_job).1

abbrev started_job : State
started_job = (consume env controller (TakenKey.mt_job_taken "mt.node-1" ∷ []) filled_job).1

job_reached : Reachable env controller started_job
job_reached =
    Reachable.stepped
      (Reachable.stepped
        (Reachable.stepped Reachable.started
          (Step.mt_job_delivered "vihara/mt.node-1" new_job (inl refl) refl))
        (Step.handled (Event.mt_job_added new_job) (inl refl) refl))
      (Step.took (TakenKey.mt_job_taken "mt.node-1") refl)

reachable_Lifecycle_example :
    All (λ mt. Lifecycle env mt.status) (mt_updates scheduled_mt.history)
    × AllValues (λ mt. Lifecycle env mt.status) scheduled_mt.mt_cache
reachable_Lifecycle_example = reachable_Lifecycle env controller clock stores mt_reached

reachable_IsConsistent_example :
    All (λ mt. IsConsistent env mt.status) (mt_updates scheduled_mt.history)
    × AllValues (λ mt. IsConsistent env mt.status) scheduled_mt.mt_cache
reachable_IsConsistent_example = reachable_IsConsistent env controller clock stores mt_reached

reachable_StagesOk_example :
    All (λ job. StagesOk job.status.stages) (mt_job_updates started_job.history)
    × AllValues (λ job. StagesOk job.status.stages) started_job.mt_job_cache
reachable_StagesOk_example = reachable_StagesOk env controller clock stores job_reached

respond-Keeps_example :
    (mt' : Maintenance) × (lookup "mt"
        (respond env controller (Input.taken (TakenKey.mt_taken "mt")) with_back).mt_cache
      ≡ some mt')
    × Keeps mt_back mt'
respond-Keeps_example =
    respond-Keeps env controller clock stores back_reached (Input.taken (TakenKey.mt_taken "mt"))
      "mt" mt_back back_there
