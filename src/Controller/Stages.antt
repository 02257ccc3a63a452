-- ===== src/Controller/Stages.antt =====
-- `scheduleMaintenanceJob` (pkg/controller/maintenance/maintenencejob.go).
pub mod Running
pub mod Sequence
pub mod Order
pub mod Completion
pub mod Offers
use vihara.Prelude.{
  ℕ, zero, suc, ◌+◌, String, Bool, true, false, not, ◌||◌, Option, none, some, is_some, List, [],
  ◌∷◌, ◌<>◌, get_elem?, set, ltb_ℤ, ◌+ℤ◌, if◌then◌else◌,
}
use vihara.Api.{
  Time, zero_time, is_zero?, MaintenanceStage, MaintenanceJob, MaintenanceJobStageStatus,
  job_succeeded,
}
use vihara.Env.{Error, errorf, is_already_exists, ok, err, normal, Env, M, pure, deref, ◌>>=◌, ◌>>◌}
use vihara.Env.Clients
use vihara.Controller.Generate.{generate_job}
use vihara.Controller.JobCache.{get_mt_job_from_cache}
use vihara.Controller.Nodes.{drain_nodes, uncordon_nodes}

abbrev pub with_stages : MaintenanceJob → List MaintenanceJobStageStatus → MaintenanceJob
with_stages job stages = record job { status = record job.status { stages = stages } }

-- `case spec.Drain != nil, spec.Uncordon != nil`
abbrev pub acts_on_nodes : MaintenanceStage → Bool
acts_on_nodes spec = is_some spec.drain || is_some spec.uncordon

-- What `mtJob` points to: the object in the cache under a key, or one that the API server
-- returned.
pub record Handle : Type 0 where
  pub job : MaintenanceJob
  pub cached_as : Option String

-- How a round of the loop ends: with a return, or with the object to go on with.
pub data Round : Type 0 where
  ended : Option Error → Round
  continues : Handle → Round

-- The object that the API server returned.
abbrev pub fresh : MaintenanceJob → Handle
fresh job = record { job = job; cached_as = none }

-- The `switch` before the loop.
abbrev pub has_result : MaintenanceJob → Bool
has_result job = is_some job.status.succeeded_at || is_some job.status.failed_at

abbrev pub mark_started : Time → MaintenanceJobStageStatus → MaintenanceJobStageStatus
mark_started at s = record s { scheduled_at = some at; running = true }

abbrev pub mark_timeout : Time → MaintenanceJobStageStatus → MaintenanceJobStageStatus
mark_timeout at s = record s {
  finished_at = some at;
  running = false;
  succeeded = false;
  failed = true;
  reason = "Timeout";
  message = "job remains unfinished";
}

abbrev pub mark_succeeded : Time → MaintenanceJobStageStatus → MaintenanceJobStageStatus
mark_succeeded at s = record s {
  finished_at = some at;
  running = false;
  succeeded = true;
  failed = false;
}

abbrev pub mark_retry : String → MaintenanceJobStageStatus → MaintenanceJobStageStatus
mark_retry text s = record s { reason = "TemporaryFailure"; message = text }

-- A write to the object through the pointer.
unfoldable pub assign : Handle → MaintenanceJob → M (Unit {0})
assign h job = elim h.cached_as [ none ↦ pure tt | some key ↦ Clients.write_mt_job key job ]

-- `prevFinishedAt`
unfoldable pub previous_finish : MaintenanceJob → ℕ → M Time
previous_finish job zero = pure job.meta.creation_timestamp
previous_finish job (suc i) = do
  previous ← deref (get_elem? job.status.stages i)
  elim previous.finished_at [ none ↦ pure zero_time | some t ↦ pure t ]

module _ (e : Env) where
  -- a write and the `UpdateStatus` that follows it
  unfoldable pub submit : Handle → MaintenanceJob → M (MaintenanceJob × Option Error)
  unfolding assign
  submit h job = do assign h job; Clients.update_mt_job_status e job

  -- `mtJob.Status.Stages[i] = …` and the update; the index is checked
  unfoldable pub submit_stage :
      Handle
      → ℕ
      → (MaintenanceJobStageStatus → MaintenanceJobStageStatus)
      → M (MaintenanceJob × Option Error)
  unfolding submit
  submit_stage h i change = do
    stage ← deref (get_elem? h.job.status.stages i)
    submit h (with_stages h.job (set h.job.status.stages i (change stage)))

  -- the drain or uncordon of a running stage
  unfoldable pub act : MaintenanceJob → MaintenanceStage → M (Option Error)
  act job spec =
      if is_some spec.drain
      then drain_nodes e job spec
      else if is_some spec.uncordon
      then uncordon_nodes e job spec
      else pure none

  -- the branch of a running stage, always with a return
  unfoldable pub run_running :
      Handle → ℕ → MaintenanceJobStageStatus → MaintenanceStage → M (Option Error)
  unfolding act submit_stage
  run_running h i s spec = if not (acts_on_nodes spec) then pure none else do
    now ← Clients.now e
    scheduled_at ← deref s.scheduled_at
    if ltb_ℤ (scheduled_at +ℤ spec.timeout) now
        then (do
          Clients.event e h.job.meta.name normal "StageTimeout" "exceeded time limit for this job"
          at ← Clients.now e
          (_, x) ← submit_stage h i (mark_timeout at)
          pure x)
        else do
          acted ← act h.job spec
          elim acted [
            | some x ↦ do _ ← submit_stage h i (mark_retry (e.error_text x)); pure (some x)
            | none ↦ do at ← Clients.now e; (_, x) ← submit_stage h i (mark_succeeded at); pure x
          ]

  -- the rest of the loop's body, for a stage that is not running
  unfoldable pub start_stage : Handle → ℕ → MaintenanceStage → M Round
  unfolding submit_stage generate_job
  start_stage h i spec = do
    previous ← previous_finish h.job i
    now ← Clients.now e
    if ltb_ℤ now (previous +ℤ spec.delay)
        then pure (ended none)
        else if acts_on_nodes spec
        then (do
          at ← Clients.now e
          (job, x) ← submit_stage h i (mark_started at)
          elim x [ some x' ↦ pure (ended (some x')) | none ↦ pure (continues (fresh job)) ])
        else if is_some spec.pod
        then (do
          job ← generate_job h.job spec
          x ← Clients.create_job e job
          elim x [
            | none ↦ pure (ended none)
            | some x' ↦ pure (ended (if is_already_exists x' then none else some x'))
          ])
        else pure (continues h)

  -- the branch of a failed stage, always with a return
  unfoldable pub fail_job : Handle → MaintenanceJobStageStatus → M (Option Error)
  unfolding submit
  fail_job h s =
      if is_zero? s.finished_at
      then pure (some (errorf "zero time of failure event not acceptable"))
      else do
        (_, x) ←
            submit h
              (record (h.job) { status = record (h.job.status) { failed_at = s.finished_at } })
        pure x

  -- the branch of a stage that succeeded
  unfoldable pub pass_stage : Handle → MaintenanceJobStageStatus → M Round
  unfolding submit
  pass_stage h s =
      if is_zero? s.finished_at
      then pure (ended (some (errorf "zero time of success event not acceptable")))
      else do
        complete ← deref (job_succeeded h.job)
        if complete
            then (do
              (job, x) ← submit h (record (h.job) {
                status = record (h.job.status) { succeeded_at = s.finished_at };
              })
              elim x [ some x' ↦ pure (ended (some x')) | none ↦ pure (continues (fresh job)) ])
            else pure (continues h)

  -- one round of the loop
  unfoldable pub stage_round : Handle → ℕ → MaintenanceJobStageStatus → M Round
  stage_round h i s =
      if s.failed
      then (do x ← fail_job h s; pure (ended x))
      else if s.succeeded
      then pass_stage h s
      else do
        spec ← deref (get_elem? h.job.spec.stages i)
        if s.running then (do x ← run_running h i s spec; pure (ended x)) else start_stage h i spec

  -- The loop over the stages that the object had before it.
  unfoldable pub run_stages : Handle → ℕ → List MaintenanceJobStageStatus → M (Option Error)
  run_stages h i [] = pure none
  run_stages h i (s ∷ stages) = do
    round ← stage_round h i s
    elim round [ ended x ↦ pure x | continues h' ↦ run_stages h' (i + 1) stages ]

  -- `scheduleMaintenanceJob`
  unfoldable pub schedule_mt_job : String → String → M (Option Error)
  schedule_mt_job namespace name = do
    cached ← get_mt_job_from_cache e namespace name
    elim cached [
      | err x ↦ pure (some x)
      | ok job ↦
          if has_result job
          then pure none
          else run_stages (record { job = job; cached_as = some (namespace <> "/" <> name) }) 0
              job.status.stages
    ]
