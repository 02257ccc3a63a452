-- ===== src/System/Invariants/Reached.antt =====
-- What holds in every reachable state of the controller.
use mathlib.Core.Path.{subst}
use vihara.Prelude.{
  String, ◌≡◌, sym, false, [], ◌∷◌, All, All-map, AllValues, AllValues-map, AllValues-insert,
  AllValues-erase, arith,
}
use vihara.Api.{is_zero, MaintenanceJob}
use vihara.Env.{History, Env, State, ok, ◌>>=◌, pure}
use vihara.Env.Trace.{mt_updates, mt_job_updates}
use vihara.Controller.Reconcile.{Controller}
use vihara.Controller.Process.{
  TakenKey, mt_taken, mt_job_taken, process_maintenance, process_mt_job, consume,
}
use vihara.System.Lifecycle.{Lifecycle, IsConsistent, Lifecycle-IsConsistent}
use vihara.System.Reachable.{Step, Reachable}
use vihara.System.Statuses.{Lives, Lives-StoredMt}
use vihara.System.Statuses.Handlers.{Live-process_maintenance, SameMtJobs-process_maintenance}
use vihara.System.JobStatuses.{StagesOk, JobOk, JobOk-StoredMtJob}
use vihara.System.Invariants.{Good, Good-of_mt, Good-Safe, Good-handle, Safe-process_mt_job}

module _ (e : Env) (c : Controller) (clock : (h : History) → is_zero (e.now h) ≡ false)
    (stores : (h : History) (job job' : MaintenanceJob)
      → e.put_mt_job_status h job ≡ ok job'
      → job'.status ≡ job.status) where
  Good-process_mt_job :
      (name : String) (s : State) → Good e c s → Good e c (process_mt_job e c name s).1
  Good-process_mt_job name s g =
      Good-Safe e c clock (Safe-process_mt_job e c clock stores name g.jobs) g

  Good-process_maintenance :
      (name : String) (s : State) → Good e c s → Good e c (process_maintenance e c name s).1
  Good-process_maintenance name s g =
      Good-of_mt e c clock (Live-process_maintenance e c clock name s g.mts)
        (SameMtJobs-process_maintenance e c clock name s) g

  pub consume_mt :
      (name : String) (s : State)
      → (consume e c (mt_taken name ∷ []) s).1 ≡ (process_maintenance e c name s).1
  unfolding consume ◌>>=◌ pure
  consume_mt name s = ground arith

  pub consume_mt_job :
      (name : String) (s : State)
      → (consume e c (mt_job_taken name ∷ []) s).1 ≡ (process_mt_job e c name s).1
  unfolding consume ◌>>=◌ pure
  consume_mt_job name s = ground arith

  Good-consume : (key : TakenKey) (s : State) → Good e c s → Good e c (consume e c (key ∷ []) s).1
  Good-consume (mt_taken name) s g =
      subst (Good e c) (sym (consume_mt name s)) (Good-process_maintenance name s g)
  Good-consume (mt_job_taken name) s g =
      subst (Good e c) (sym (consume_mt_job name s)) (Good-process_mt_job name s g)

  Good-Step : (s next : State) → Step e c s next → Good e c s → Good e c next
  Good-Step s next (Step.mt_delivered key mt known same) g =
      let life = Lives-StoredMt e mt known g.mts in
      rw same (record {
        mts = record {
          submitted = g.mts.submitted;
          cached = AllValues-insert (Lives e) key mt s.mt_cache life g.mts.cached;
        };
        jobs = record { submitted = g.jobs.submitted; cached = g.jobs.cached };
      })
  Good-Step s next (Step.mt_forgotten key same) g = rw same (record {
    mts = record {
      submitted = g.mts.submitted;
      cached = AllValues-erase (Lives e) key s.mt_cache g.mts.cached;
    };
    jobs = record { submitted = g.jobs.submitted; cached = g.jobs.cached };
  })
  Good-Step s next (Step.mt_job_delivered key job known same) g =
      let ok = JobOk-StoredMtJob job known g.jobs in
      rw same (record {
        mts = record { submitted = g.mts.submitted; cached = g.mts.cached };
        jobs = record {
          submitted = g.jobs.submitted;
          cached = AllValues-insert JobOk key job s.mt_job_cache ok g.jobs.cached;
        };
      })
  Good-Step s next (Step.mt_job_forgotten key same) g = rw same (record {
    mts = record { submitted = g.mts.submitted; cached = g.mts.cached };
    jobs = record {
      submitted = g.jobs.submitted;
      cached = AllValues-erase JobOk key s.mt_job_cache g.jobs.cached;
    };
  })
  Good-Step s next (Step.handled ev known same) g =
      rw same (Good-handle e c clock stores ev s known g)
  Good-Step s next (Step.took key same) g = rw same (Good-consume key s g)
  Good-Step s next (Step.restarted same) g = rw same (record {
    mts = record { submitted = g.mts.submitted; cached = tt };
    jobs = record { submitted = g.jobs.submitted; cached = tt };
  })

  pub Good-Reachable : {s : State} → Reachable e c s → Good e c s
  Good-Reachable Reachable.started = record {
    mts = record { submitted = tt; cached = tt };
    jobs = record { submitted = tt; cached = tt };
  }
  Good-Reachable (Reachable.stepped {s} {next} before step) =
      Good-Step s next step (Good-Reachable before)

  -- In every reachable state, each status of a Maintenance that was ever submitted and each that
  -- is in the cache is one of the life of a Maintenance: it comes from the blank status by steps
  -- that fill a phase which was not filled. An admission has a time that the clock shows and a
  -- schedule that starts before it ends. The time of a scheduling is what the clock shows right after
  -- a reading that is not before the start of that schedule nor, if it has an end, past this; the
  -- time of a finish is what it shows right after a reading past the end. The readings are those
  -- after some history of calls, and after this and one reading more. This is so if the clock never shows Go's zero time and the API
  -- server stores the status of a MaintenanceJob as it was submitted. The controller may have been
  -- restarted any number of times.
  pub reachable_Lifecycle :
      {s : State}
      → Reachable e c s
      → All (λ mt. Lifecycle e mt.status) (mt_updates s.history)
        × AllValues (λ mt. Lifecycle e mt.status) s.mt_cache
  reachable_Lifecycle reached = let g = Good-Reachable reached in (g.mts.submitted, g.mts.cached)

  -- In every reachable state, each status of a Maintenance that was submitted or is in the cache
  -- is consistent: its schedule starts before it ends, it was scheduled or finished only after it
  -- was admitted, and once it is scheduled its snapshot has the hash that stands beside it; if
  -- the clock never shows Go's zero time and the API server stores the status of a
  -- MaintenanceJob as it was submitted.
  pub reachable_IsConsistent :
      {s : State}
      → Reachable e c s
      → All (λ mt. IsConsistent e mt.status) (mt_updates s.history)
        × AllValues (λ mt. IsConsistent e mt.status) s.mt_cache
  reachable_IsConsistent {s} reached =
      let g = Good-Reachable reached in
      (
        All-map (λ mt. Lifecycle-IsConsistent) (mt_updates s.history) g.mts.submitted,
        AllValues-map (λ mt. Lifecycle-IsConsistent) s.mt_cache g.mts.cached,
      )

  -- In every reachable state, each stage of each MaintenanceJob that was submitted or is in the
  -- cache runs, or failed, or succeeded, or none of these and never two at once; one that runs
  -- has its start time, and one that is over has a finish time that is not Go's zero time; if the
  -- clock never shows that time and the API server stores a status as it was submitted.
  pub reachable_StagesOk :
      {s : State}
      → Reachable e c s
      → All (λ job. StagesOk job.status.stages) (mt_job_updates s.history)
        × AllValues (λ job. StagesOk job.status.stages) s.mt_job_cache
  reachable_StagesOk reached = let g = Good-Reachable reached in (g.jobs.submitted, g.jobs.cached)
