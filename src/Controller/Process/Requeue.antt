-- ===== src/Controller/Process/Requeue.antt =====
-- How a pass is followed by the next one: the two consumers of the queues
-- (`processMaintenanceSchedule` and `processMaintenanceJobSchedule` in
-- pkg/controller/maintenance/controller.go).
use vihara.Prelude.{
  Option, ◌≡◌, ◌≤◌, String, ◌<>◌, false, ◌&&◌, ◌||◌, none, some, ◌∷◌, lookup, length, eqb, refl,
  if◌then◌else◌,
}
use vihara.Api.{Time, Maintenance, MaintenanceJob, canceled, finished, started, expired}
use vihara.Env.{
  Env, Error, State, Outcome, returned, panicked, mt_queue, mt_job_queue, continue, ◌>>=◌, pure,
}
use vihara.Env.Trace.{offers, Due}
use vihara.Controller.Reconcile.{Controller}
use vihara.Controller.Stages.{schedule_mt_job}
use vihara.Controller.JobCache.{enqueue_mt_job}
use vihara.Controller.JobCache.Enqueuing.{has_failed, all_passed, offers-enqueue_mt_job}
use vihara.Controller.Stages.Offers.{schedule_mt_job-OffersNothing}
use vihara.Env.Clients.{now}
use vihara.Controller.Phases.{enqueue_maintenance}
use vihara.Controller.Phases.Enqueuing.{offers-enqueue_maintenance}
use vihara.Controller.Schedule.{schedule_maintenance}
use vihara.Controller.Schedule.Offers.{schedule_maintenance-OffersNothing}
use vihara.Controller.Process.{process_maintenance, process_mt_job}

state-bind_pure :
    {A B : Type 0} (r : Outcome A) (b : B) (s : State) → (continue r (λ _. pure b) s).1 ≡ s
unfolding pure
state-bind_pure (returned a) b s = refl
state-bind_pure panicked b s = refl

module _ (e : Env) (c : Controller) (name : String) (job : MaintenanceJob) (s : State) where
  -- A pass over a job that does not end the program puts the job into the queue once more, after the
  -- poll interval, whether or not the pass returned an error, unless the job is over: a stage has
  -- failed that no running one stands before, or each stage has a status and each of these has
  -- succeeded and does not run. This is so if the cache is readable after the pass and has the job,
  -- with no more statuses than stages. A job that is over is not offered, and the pass itself offers
  -- nothing to any queue.
  pub offers-process_mt_job :
      {x : Option Error}
      → let t = (schedule_mt_job e c.job_namespace name s).1 in
        let key = c.job_namespace <> "/" <> name in
        ((schedule_mt_job e c.job_namespace name s).0 ≡ returned x)
        → e.cache_error t.history key ≡ none
        → lookup key t.mt_job_cache ≡ some job
        → length job.status.stages ≤ length job.spec.stages
        → offers (process_mt_job e c name s).1.history ≡ (
            if has_failed job.status.stages
              || all_passed job.status.stages
                && eqb (length job.status.stages) (length job.spec.stages)
            then offers s.history
            else (mt_job_queue, name, Due.after c.config.jobs.poll_interval) ∷ offers s.history)
  unfolding process_mt_job ◌>>=◌ pure
  offers-process_mt_job over readable cached few =
      let t = (schedule_mt_job e c.job_namespace name s).1 in
      let run = enqueue_mt_job e c.job_namespace name c.config.jobs.poll_interval t in
      let requeued =
        offers-enqueue_mt_job e c.job_namespace name c.config.jobs.poll_interval job t readable
          cached few in
      let same = (schedule_mt_job-OffersNothing e c.job_namespace name).same_offers s in
      rw (over, state-bind_pure run.0 tt run.1, ← same) requeued

module _ (e : Env) (c : Controller) (name : String) (mt : Maintenance) (s : State) where
  -- A pass over a Maintenance object that does not end the program puts the object into the queue
  -- once more, whether or not it failed, unless the queue has an entry of its name: after the poll
  -- interval if its schedule has started by then, and at the start of its schedule if not. This is
  -- so if the cache is readable after the pass and has the object with its schedule, not canceled,
  -- finished or expired. The pass itself offers nothing to any queue.
  pub offers-process_maintenance :
      {x : Option Error} {since : Time}
      → let t = (schedule_maintenance e c name s).1 in
        ((schedule_maintenance e c name s).0 ≡ returned x)
        → e.cache_error t.history name ≡ none
        → lookup name t.mt_cache ≡ some mt
        → canceled mt ≡ false
        → finished mt ≡ false
        → expired mt (e.now t.history) ≡ false
        → mt.status.admitted.schedule_since ≡ some since
        → offers (process_maintenance e c name s).1.history ≡ (
            if e.queue_find (now e t).1.history mt_queue mt.meta.name
            then offers s.history
            else (
              mt_queue,
              mt.meta.name,
              (if started mt (e.now t.history)
                  then Due.after c.config.schedule.poll_interval
                  else Due.at since),
            )
              ∷ offers s.history)
  unfolding process_maintenance ◌>>=◌ pure
  offers-process_maintenance over readable cached going pending valid since =
      let t = (schedule_maintenance e c name s).1 in
      let run = enqueue_maintenance e name c.config.schedule.poll_interval t in
      let requeued =
        offers-enqueue_maintenance e name c.config.schedule.poll_interval mt t readable cached going
          pending valid since in
      let same = (schedule_maintenance-OffersNothing e c name).same_offers s in
      rw (over, state-bind_pure run.0 tt run.1, ← same) requeued.0
