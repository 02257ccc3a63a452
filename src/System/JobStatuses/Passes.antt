-- ===== src/System/JobStatuses/Passes.antt =====
-- The passes over a MaintenanceJob and its handlers keep the invariant of the job statuses.
use vihara.Prelude.{
  ℕ, suc, ◌+◌, String, ◌≡◌, refl, false, some, none, Option, List, [], ◌∷◌, AllValues-lookup,
  length, ltb, ◌<>◌, drop, arith,
}
use vihara.Api.{is_zero, MaintenanceJob, MaintenanceJobStageStatus}
use vihara.Env.{Error, ok, History, Env, State, pure}
use vihara.Controller.Stages.{has_result, Handle, ended, continues, run_stages, schedule_mt_job}
use vihara.System.JobStatuses.{JobOk, JobsLive}
use vihara.System.JobStatuses.Logic.{
  Safe, Any, Safe-pure, Safe-deref, Safe-if, Safe-result, Safe-option, Safe-bind, Safe-Untouched,
}
use vihara.System.JobStatuses.Rounds.{RoundOk, Safe-stage_round}
use vihara.Controller.JobCache.{cached_mt_job, get_mt_job_from_cache}
use vihara.Controller.JobEvents.{on_mt_job_added}
use vihara.System.Frames.Jobs.{Untouched-enqueue_added}
use vihara.System.JobStatuses.{fill_stages-StagesOk}
use vihara.System.JobStatuses.Submitting.{Safe-event, Safe-update}

module _ (e : Env)
    (stores : (h : History) (job job' : MaintenanceJob)
      → e.put_mt_job_status h job ≡ ok job'
      → job'.status ≡ job.status)
    (clock : (h : History) → is_zero (e.now h) ≡ false) where
  Safe-run_stages :
      {s : State} (h : Handle) (i : ℕ) (stages : List MaintenanceJobStageStatus)
      → JobOk h.job
      → drop i h.job.status.stages ≡ stages
      → JobsLive s
      → Safe (run_stages e h i stages) Any s
  unfolding run_stages
  Safe-run_stages h i [] p here l = Safe-pure none tt l
  Safe-run_stages h i (stage ∷ stages) p here l =
      let same : i + 1 ≡ suc i = omega arith in
      let next : (h' : Handle)
          → drop (suc i) h'.job.status.stages ≡ stages
          → drop (i + 1) h'.job.status.stages ≡ stages =
        λ h' q. rw same q in
      Safe-bind (Safe-stage_round e stores clock h i stage stages p here l) (λ round t l' q.
        (elim round
            as (λ r.
              RoundOk e stores clock i stages r
              → Safe {A = Option Error}
                  (elim r [ ended x ↦ pure x | continues h' ↦ run_stages e h' (i + 1) stages ]) Any
                  t) [
                    | ended x ↦ λ _. Safe-pure x tt l'
                    | continues h' ↦ λ ok. Safe-run_stages h' (i + 1) stages ok.0 (next h' ok.1) l'
                  ])
          q)

  -- The object that a pass finds in the cache is in order.
  JobOk-cached_mt_job :
      {s : State} (namespace name : String)
      → JobsLive s
      → (job : MaintenanceJob) → cached_mt_job e s namespace name ≡ ok job
      → JobOk job
  unfolding cached_mt_job
  JobOk-cached_mt_job {s} namespace name l job found =
      AllValues-lookup JobOk (namespace <> "/" <> name) s.mt_job_cache {v = job} (ground arith)
        l.cached

  Safe-get_mt_job_from_cache :
      {s : State} (namespace name : String)
      → JobsLive s
      → Safe
          (get_mt_job_from_cache e namespace name)
          (λ r. (job : MaintenanceJob) → r ≡ ok job → JobOk job)
          s
  unfolding get_mt_job_from_cache
  Safe-get_mt_job_from_cache namespace name l = record {
    same_mts = (refl, refl);
    live = record { submitted = l.submitted; cached = l.cached };
    post = JobOk-cached_mt_job namespace name l;
  }

  pub Safe-schedule_mt_job :
      {s : State} (namespace name : String)
      → JobsLive s
      → Safe (schedule_mt_job e namespace name) Any s
  unfolding schedule_mt_job
  Safe-schedule_mt_job namespace name l =
      Safe-bind (Safe-get_mt_job_from_cache namespace name l) (λ cached t l' good.
        Safe-result cached (λ x. Safe-pure (some x) tt l')
          (λ job found.
            Safe-if (has_result job) (λ _. Safe-pure none tt l')
              (λ _.
                let h : Handle = record {
                  job = job;
                  cached_as = some (namespace <> "/" <> name);
                } in
                Safe-run_stages h 0 job.status.stages (good job found) refl l')))

  pub Safe-on_mt_job_added :
      {s : State} (job : MaintenanceJob)
      → JobOk job
      → JobsLive s
      → Safe (on_mt_job_added e job) Any s
  unfolding on_mt_job_added
  Safe-on_mt_job_added job p l = Safe-bind (Safe-deref l) (λ done t l' _.
      Safe-if done (λ _. Safe-pure none tt l')
        (λ _.
          Safe-if (ltb (length job.spec.stages) (length job.status.stages))
            (λ _. Safe-bind (Safe-event e _ _ _ l') (λ _ t₁ l₁ _. Safe-pure none tt l₁))
            (λ _.
              Safe-if (ltb (length job.status.stages) (length job.spec.stages))
                (λ _.
                  Safe-bind
                    (Safe-update e stores _
                      (fill_stages-StagesOk job.status.stages job.spec.stages p) l')
                    (λ a t₁ l₁ _.
                      Safe-option a.1 (λ _. Safe-Untouched (Untouched-enqueue_added e a.0 t₁) l₁)
                        (λ x _. Safe-pure _ tt l₁)))
                (λ _. Safe-Untouched (Untouched-enqueue_added e job t) l'))))
