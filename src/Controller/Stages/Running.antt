-- ===== src/Controller/Stages/Running.antt =====
-- What `scheduleMaintenanceJob` does with a stage that runs or starts.
use vihara.Prelude.{
  ℕ, ◌≡◌, ◌⊎◌, inl, inr, refl, String, Option, Bool-cases, if◌then◌else◌, true, false, none, some,
  ◌∷◌, arith, get_elem?, set, ltb_ℤ, ◌+ℤ◌,
}
use vihara.Api.{Time, MaintenanceNodeDrainSpec, MaintenanceStage, MaintenanceJobStageStatus}
use vihara.Env.{normal, Error, Env, State, Outcome, returned, panicked, ◌>>=◌, pure, deref, panic}
use vihara.Env.Clients.{now, event, update_mt_job_status, write_mt_job}
use vihara.Env.Trace.{mt_job_updates, patches}
use vihara.Controller.Nodes.{drain_nodes, uncordon_nodes}
use vihara.Controller.Stages.{Handle, with_stages, act, submit_stage, run_running}
use vihara.System.Frames.Nodes.{Untouched-drain_nodes}

-- What becomes of the status of a running drain: it is over and has failed, ...
abbrev pub timed_out : Time → MaintenanceJobStageStatus → MaintenanceJobStageStatus
timed_out at stage = record {
  name = stage.name;
  scheduled_at = stage.scheduled_at;
  finished_at = some at;
  message = "job remains unfinished";
  reason = "Timeout";
  running = false;
  succeeded = false;
  failed = true;
}

-- ... it is over and has succeeded, ...
abbrev pub passed : Time → MaintenanceJobStageStatus → MaintenanceJobStageStatus
passed at stage = record {
  name = stage.name;
  scheduled_at = stage.scheduled_at;
  finished_at = some at;
  message = stage.message;
  reason = stage.reason;
  running = false;
  succeeded = true;
  failed = false;
}

-- ... or it goes on, with the text of an error.
abbrev pub to_retry : String → MaintenanceJobStageStatus → MaintenanceJobStageStatus
to_retry text stage = record {
  name = stage.name;
  scheduled_at = stage.scheduled_at;
  finished_at = stage.finished_at;
  message = text;
  reason = "TemporaryFailure";
  running = stage.running;
  succeeded = stage.succeeded;
  failed = stage.failed;
}

Outcome-option-cases :
    (r : Outcome (Option Error))
    → (r ≡ panicked) ⊎ (r ≡ returned none) ⊎ ((x : Error) × (r ≡ returned (some x)))
Outcome-option-cases panicked = inl refl
Outcome-option-cases (returned none) = inr (inl refl)
Outcome-option-cases (returned (some x)) = inr (inr (x, refl))

module _ (e : Env) (h : Handle) (i : ℕ) (s : MaintenanceJobStageStatus) (spec : MaintenanceStage)
    (t : State) where
  -- A running stage that uncordons nodes, and drains none, ends the program once it is due and has
  -- not timed out: the selectors of its missing drain specification are read.
  pub run_running_uncordon_panics :
      {started : Time} {uncordon : _}
      → spec.drain ≡ none
      → spec.uncordon ≡ some uncordon
      → s.scheduled_at ≡ some started
      → ltb_ℤ (started +ℤ spec.timeout) (e.now t.history) ≡ false
      → (run_running e h i s spec t).0 ≡ panicked
  unfolding run_running uncordon_nodes ◌>>=◌ pure deref panic now
  run_running_uncordon_panics no_drain uncordons started_at in_time = ground arith

  -- the state after the two calls of a timeout that stand before the finish time is read
  abbrev timeout_event : State → State
  timeout_event t =
      (event e h.job.meta.name normal "StageTimeout" "exceeded time limit for this job"
        (now e t).1).1

  -- the state in which a drain begins that is in time, and the one in which it ends
  abbrev drain_begins : State
  drain_begins = (now e t).1

  abbrev drain_ends : State
  drain_ends = (drain_nodes e h.job spec drain_begins).1

  run_running_overdue :
      {begun : Time} {drain : MaintenanceNodeDrainSpec} {stage : MaintenanceJobStageStatus}
      → spec.drain ≡ some drain
      → s.scheduled_at ≡ some begun
      → get_elem? h.job.status.stages i ≡ some stage
      → ltb_ℤ (begun +ℤ spec.timeout) (e.now t.history) ≡ true
      → let t' = (run_running e h i s spec t).1 in
        (mt_job_updates t'.history
          ≡ with_stages h.job
              (set h.job.status.stages i (timed_out (e.now (timeout_event t).history) stage))
            ∷ mt_job_updates t.history)
        × (patches t'.history ≡ patches t.history)
  unfolding run_running submit_stage ◌>>=◌ pure deref panic now event update_mt_job_status
      write_mt_job
  run_running_overdue drains started_at there over = ground arith

  run_running_in_time :
      {begun : Time} {drain : MaintenanceNodeDrainSpec} {stage : MaintenanceJobStageStatus}
      → spec.drain ≡ some drain
      → s.scheduled_at ≡ some begun
      → get_elem? h.job.status.stages i ≡ some stage
      → ltb_ℤ (begun +ℤ spec.timeout) (e.now t.history) ≡ false
      → let t' = (run_running e h i s spec t).1 in
        (mt_job_updates t'.history ≡ (elim (drain_nodes e h.job spec drain_begins).0 [
          | panicked ↦ mt_job_updates t.history
          | returned none ↦
              with_stages h.job
                (set h.job.status.stages i (passed (e.now drain_ends.history) stage))
              ∷ mt_job_updates t.history
          | returned (some x) ↦
              with_stages h.job (set h.job.status.stages i (to_retry (e.error_text x) stage))
              ∷ mt_job_updates t.history
        ]))
        × (patches t'.history ≡ patches drain_ends.history)
  unfolding run_running act submit_stage ◌>>=◌ pure deref panic now event update_mt_job_status
      write_mt_job
  run_running_in_time drains started_at there in_time =
      let quiet = Untouched-drain_nodes e h.job spec drain_begins in
      elim (Outcome-option-cases (drain_nodes e h.job spec drain_begins).0) [
        | inl stuck ↦ ground (arith, quiet)
        | inr (inl done) ↦ ground (arith, quiet)
        | inr (inr (x, failed)) ↦ ground (arith, quiet)
      ]

  -- A running drain, whose start is known and whose status the job has at its index, is over once the
  -- clock shows a time past its start and timeout. Then its status is submitted once, as failed with
  -- the reason, at the time that is read next, and no node is patched. Before that its nodes are
  -- drained, and no other node is patched: if this succeeds the status is submitted once, as
  -- succeeded at the time that is then read; if it fails, once, with the error as its reason and
  -- text and with nothing else changed; and not at all if it ends the program. The other statuses
  -- of the job are submitted as they are.
  pub run_running_drain :
      {begun : Time} {drain : MaintenanceNodeDrainSpec} {stage : MaintenanceJobStageStatus}
      → spec.drain ≡ some drain
      → s.scheduled_at ≡ some begun
      → get_elem? h.job.status.stages i ≡ some stage
      → let t' = (run_running e h i s spec t).1 in
        let over = ltb_ℤ (begun +ℤ spec.timeout) (e.now t.history) in
        let stored = λ (new : MaintenanceJobStageStatus).
          with_stages h.job (set h.job.status.stages i new) ∷ mt_job_updates t.history in
        (mt_job_updates t'.history ≡ (
          if over
          then stored (timed_out (e.now (timeout_event t).history) stage)
          else elim (drain_nodes e h.job spec drain_begins).0 [
            | panicked ↦ mt_job_updates t.history
            | returned none ↦ stored (passed (e.now drain_ends.history) stage)
            | returned (some x) ↦ stored (to_retry (e.error_text x) stage)
          ]))
        × (patches t'.history ≡ (if over then patches t.history else patches drain_ends.history))
  run_running_drain {begun} drains started_at there =
      elim (Bool-cases (ltb_ℤ (begun +ℤ spec.timeout) (e.now t.history))) [
        | inl over ↦ rw (over, if◌then◌else◌) (run_running_overdue drains started_at there over)
        | inr in_time ↦
            rw (in_time, if◌then◌else◌) (run_running_in_time drains started_at there in_time)
      ]
