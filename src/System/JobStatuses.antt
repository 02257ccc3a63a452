-- ===== src/System/JobStatuses.antt =====
-- The statuses of MaintenanceJob objects that a state holds: those that were submitted and those
-- of the cached objects. Each of their stages is in one of the phases that its fields can tell.
pub mod Logic
pub mod Submitting
pub mod Rounds
pub mod Passes
use mathlib.Core.List.{Memᴰ}
use mathlib.Core.Path.{subst}
use vihara.Prelude.{
  ℕ, zero, suc, ◌+◌, ◌≡◌, ◌⊎◌, inl, inr, sym, refl, Bool, true, false, some, none, Option, List, [],
  ◌∷◌, ◌++◌, map, get_elem?, set, drop, All, All-append, All-Memᴰ, AllValues, arith,
}
use vihara.Api.{
  Time, is_zero, is_zero?, is_set, MaintenanceStage, MaintenanceJob, MaintenanceJobStatus,
  MaintenanceJobStageStatus,
}
use vihara.Env.{State}
use vihara.Env.Trace.{mt_job_updates}
use vihara.Controller.Stages.{mark_started, mark_timeout, mark_succeeded, mark_retry}
use vihara.Controller.JobEvents.{blank_status, fill_stages}
use vihara.System.Frames.{SameMts, SameMtJobs}
use vihara.System.Reachable.{StoredMtJob}

-- A stage runs, or has failed, or has succeeded, or none of these; one that runs has a start, and
-- one that is over has a finish time that is not Go's zero time.
pub record StageOk (s : MaintenanceJobStageStatus) : Type 0 where
  pub runs_alone : (s.running ≡ false) ⊎ ((s.failed ≡ false) × (s.succeeded ≡ false))
  pub one_result : (s.failed ≡ false) ⊎ (s.succeeded ≡ false)
  pub started_if_running : (s.running ≡ false) ⊎ ((at : Time) × (s.scheduled_at ≡ some at))
  pub finished_if_failed : (s.failed ≡ false) ⊎ (is_set s.finished_at ≡ true)
  pub finished_if_succeeded : (s.succeeded ≡ false) ⊎ (is_set s.finished_at ≡ true)

blank_status-StageOk : (stage : MaintenanceStage) → StageOk (blank_status stage)
blank_status-StageOk stage = record {
  runs_alone = inl refl;
  one_result = inl refl;
  started_if_running = inl refl;
  finished_if_failed = inl refl;
  finished_if_succeeded = inl refl;
}

module _ (at : Time) (s : MaintenanceJobStageStatus) where
  pub mark_started-StageOk :
      s.failed ≡ false → s.succeeded ≡ false → StageOk s → StageOk (mark_started at s)
  mark_started-StageOk going pending h = record {
    runs_alone = inr (going, pending);
    one_result = h.one_result;
    started_if_running = inr (at, refl);
    finished_if_failed = inl going;
    finished_if_succeeded = inl pending;
  }

  pub mark_timeout-StageOk : is_zero at ≡ false → StageOk (mark_timeout at s)
  mark_timeout-StageOk later = record {
    runs_alone = inl refl;
    one_result = inr refl;
    started_if_running = inl refl;
    finished_if_failed = ground arith;
    finished_if_succeeded = inl refl;
  }

  pub mark_succeeded-StageOk : is_zero at ≡ false → StageOk (mark_succeeded at s)
  mark_succeeded-StageOk later = record {
    runs_alone = inl refl;
    one_result = inl refl;
    started_if_running = inl refl;
    finished_if_failed = inl refl;
    finished_if_succeeded = ground arith;
  }

pub mark_retry-StageOk :
    (text : _) (s : MaintenanceJobStageStatus) → StageOk s → StageOk (mark_retry text s)
mark_retry-StageOk text s h = record {
  runs_alone = h.runs_alone;
  one_result = h.one_result;
  started_if_running = h.started_if_running;
  finished_if_failed = h.finished_if_failed;
  finished_if_succeeded = h.finished_if_succeeded;
}

abbrev pub StagesOk : List MaintenanceJobStageStatus → Type 0
StagesOk stages = All StageOk stages

blank_statuses-StagesOk : (specs : List MaintenanceStage) → StagesOk (map blank_status specs)
blank_statuses-StagesOk [] = tt
blank_statuses-StagesOk (spec ∷ specs) = (blank_status-StageOk spec, blank_statuses-StagesOk specs)

pub fill_stages-StagesOk :
    (stages : List MaintenanceJobStageStatus) (specs : List MaintenanceStage)
    → StagesOk stages
    → StagesOk (fill_stages stages specs)
unfolding fill_stages
fill_stages-StagesOk stages specs h =
    All-append StageOk stages _ h (blank_statuses-StagesOk (drop _ specs))

abbrev pub JobOk : MaintenanceJob → Type 0
JobOk job = StagesOk job.status.stages

-- The invariant of a state.
pub record JobsLive (s : State) : Type 0 where
  pub submitted : All JobOk (mt_job_updates s.history)
  pub cached : AllValues JobOk s.mt_job_cache

pub JobsLive-SameMtJobs : {s s' : State} → SameMtJobs s s' → JobsLive s → JobsLive s'
JobsLive-SameMtJobs (u, c) live = record {
  submitted = subst (All JobOk) (sym u) live.submitted;
  cached = subst (AllValues JobOk) (sym c) live.cached;
}

-- what the API server can have for an object
pub JobOk-StoredMtJob :
    {s : State} (job : MaintenanceJob) → StoredMtJob s.history job.status → JobsLive s → JobOk job
JobOk-StoredMtJob job (inl new) live = subst (λ st. StagesOk st.stages) (sym new) tt
JobOk-StoredMtJob {s} job (inr (old, m, same)) live =
    subst (λ st. StagesOk st.stages) (sym same)
      (All-Memᴰ JobOk old (mt_job_updates s.history) m live.submitted)
