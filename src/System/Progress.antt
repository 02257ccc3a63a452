-- ===== src/System/Progress.antt =====
-- A MaintenanceJob that has one stage, a drain, comes to its end.
use vihara.Prelude.{
  String, ◌≡◌, false, some, none, [], ◌∷◌, ◌<>◌, lookup, lookup-insert, eq_refl, ltb_ℤ, ◌+ℤ◌, arith,
}
use vihara.Api.{
  is_zero, MaintenanceNodeDrainSpec, MaintenanceStage, MaintenanceJob, MaintenanceJobStageStatus,
  job_succeeded,
}
use vihara.Env.{History, Env, State, returned, ok, ◌>>=◌, pure, deref, panic}
use vihara.Env.Clients.{now, update_mt_job_status, write_mt_job}
use vihara.Controller.JobCache.{get_mt_job_from_cache, cached_mt_job}
use vihara.Controller.Nodes.{drain_nodes}
use vihara.Controller.Stages.{
  with_stages, mark_started, mark_succeeded, submit_stage, previous_finish, start_stage,
  stage_round, run_running, pass_stage, run_stages, schedule_mt_job,
}
use vihara.Controller.Stages.Sequence.{IsPending}
use vihara.System.Frames.Nodes.{Untouched-drain_nodes}

module _ (e : Env) (job : MaintenanceJob) (stage : MaintenanceJobStageStatus) where
  -- a running drain, in the cache
  abbrev pub runs : History → MaintenanceJob
  runs h = with_stages job (mark_started (e.now h) stage ∷ [])

  abbrev pub drained : History → History → MaintenanceJob
  drained h h' = with_stages job (mark_succeeded (e.now h') (mark_started (e.now h) stage) ∷ [])

  abbrev pub completed : History → History → MaintenanceJob
  completed h h' = record (drained h h') {
    status = record (job.status) {
      succeeded_at = some (e.now h');
      stages = mark_succeeded (e.now h') (mark_started (e.now h) stage) ∷ [];
    };
  }

module _ (e : Env) (namespace name : String) (job : MaintenanceJob)
    (stage : MaintenanceJobStageStatus) (spec : MaintenanceStage) (drain : MaintenanceNodeDrainSpec)
    (one_spec : job.spec.stages ≡ spec ∷ []) (drains : spec.drain ≡ some drain)
    (running : job.status.succeeded_at ≡ none) (going : job.status.failed_at ≡ none)
    (readable : (h : History) (key : String) → e.cache_error h key ≡ none)
    (accepts : (h : History) (j : MaintenanceJob) → e.put_mt_job_status h j ≡ ok j)
    (clock : (h : History) → is_zero (e.now h) ≡ false) where
  abbrev key : String
  key = namespace <> "/" <> name

  abbrev pass : State → State
  pass t = (schedule_mt_job e namespace name t).1

  -- the delay of the stage is over at the next reading of the clock
  abbrev pub IsDue : State → Type 0
  IsDue t = ltb_ℤ (e.now t.history) (job.meta.creation_timestamp +ℤ spec.delay) ≡ false

  -- the next reading of the clock is not past the timeout of a stage that was started at `h`
  abbrev pub IsInTime : History → State → Type 0
  IsInTime h t = ltb_ℤ (e.now h +ℤ spec.timeout) (e.now t.history) ≡ false

  -- the nodes of the stage can be drained after that reading
  abbrev pub CanDrain : State → Type 0
  CanDrain t = (drain_nodes e job spec (now e t).1).0 ≡ returned none

  starts :
      (t : State)
      → IsPending stage
      → job.status.stages ≡ stage ∷ []
      → lookup key t.mt_job_cache ≡ some job
      → IsDue t
      → lookup key (pass t).mt_job_cache ≡ some (runs e job stage (now e t).1.history)
  unfolding schedule_mt_job run_stages stage_round start_stage previous_finish submit_stage
      get_mt_job_from_cache cached_mt_job ◌>>=◌ pure deref panic now update_mt_job_status
      write_mt_job
  starts t pending one found due = ground (
    arith,
    lookup-insert key key (runs e job stage (now e t).1.history) t.mt_job_cache,
    eq_refl key,
    readable t.history key,
    accepts (now e (now e t).1).1.history (runs e job stage (now e t).1.history),
  )

  drains_alike :
      (h : History) (t : State)
      → (drain_nodes e job spec t).0 ≡ returned none
      → (drain_nodes e (runs e job stage h) spec t).0 ≡ returned none
  unfolding drain_nodes
  drains_alike h t can_drain = can_drain

  drains_running :
      (t : State) (h : History)
      → IsPending stage
      → lookup key t.mt_job_cache ≡ some (runs e job stage h)
      → IsInTime h t
      → CanDrain t
      → (h' : History) × (lookup key (pass t).mt_job_cache ≡ some (drained e job stage h h'))
  unfolding schedule_mt_job run_stages stage_round run_running submit_stage get_mt_job_from_cache
      cached_mt_job ◌>>=◌ pure deref now update_mt_job_status write_mt_job
  drains_running t h pending found in_time can_drain =
      let t₁ = (now e t).1 in
      let t₂ = (drain_nodes e (runs e job stage h) spec t₁).1 in
      (
        t₂.history,
        ground (
          arith,
          lookup-insert key key (drained e job stage h t₂.history) t₂.mt_job_cache,
          eq_refl key,
          readable t.history key,
          drains_alike h t₁ can_drain,
          Untouched-drain_nodes e (runs e job stage h) spec t₁,
        ),
      )

  completes :
      (t : State) (h h' : History)
      → lookup key t.mt_job_cache ≡ some (drained e job stage h h')
      → lookup key (pass t).mt_job_cache ≡ some (completed e job stage h h')
  unfolding schedule_mt_job run_stages stage_round pass_stage job_succeeded get_mt_job_from_cache
      cached_mt_job ◌>>=◌ pure deref update_mt_job_status write_mt_job
  completes t h h' found = ground (
    arith,
    lookup-insert key key (completed e job stage h h') t.mt_job_cache,
    eq_refl key,
    readable t.history key,
    clock h',
    accepts t.history (completed e job stage h h'),
  )

  -- Three passes over a MaintenanceJob whose one stage is a drain that was never started complete
  -- it, where the cache is readable, the API server stores each status as it is submitted, the clock
  -- never shows Go's zero time, the stage's delay is over when the first pass reads the clock, the
  -- stage's timeout is not over when the second does, and the nodes can be drained then: the cache's
  -- object then has the time of its success. The first pass starts the stage, the second drains the
  -- nodes, the third closes the job. No other step comes between the passes.
  pub drain_succeeds_in_three :
      (t : State)
      → IsPending stage
      → job.status.stages ≡ stage ∷ []
      → lookup key t.mt_job_cache ≡ some job
      → IsDue t
      → IsInTime (now e t).1.history (schedule_mt_job e namespace name t).1
      → CanDrain (schedule_mt_job e namespace name t).1
      → (h h' : History) × (lookup key
            (schedule_mt_job e namespace name
              (schedule_mt_job e namespace name
                (schedule_mt_job e namespace name t).1).1).1.mt_job_cache
          ≡ some (completed e job stage h h'))
  drain_succeeds_in_three t pending one found due in_time can_drain =
      let h = (now e t).1.history in
      let started = starts t pending one found due in
      let (h', drained) = drains_running (pass t) h pending started in_time can_drain in
      (h, h', completes (pass (pass t)) h h' drained)
