-- ===== src/Controller/Schedule/Window.antt =====
-- When `scheduleMaintenance` creates jobs.
use vihara.Prelude.{
  String, ◌≡◌, ◌⊎◌, inl, inr, true, false, none, some, Option-cases, arith, lookup,
}
use vihara.Api.{Maintenance, canceled, started, expired}
use vihara.Env.{Env, State, ◌>>=◌, pure}
use vihara.Env.Clients.{now, event}
use vihara.Env.Trace.{mt_updates, mt_job_creations}
use vihara.Controller.Reconcile.{Controller}
use vihara.Controller.Phases.{get_maintenance_from_cache}
use vihara.Controller.Schedule.{schedule_maintenance}

module _ (e : Env) (c : Controller) (name : String) (s : State) where
  abbrev passed : State
  passed = (schedule_maintenance e c name s).1

  abbrev Unchanged : Type 0
  Unchanged =
      (mt_job_creations passed.history ≡ mt_job_creations s.history)
      × (mt_updates passed.history ≡ mt_updates s.history)

  -- the object lies in its schedule at the time that the pass reads
  abbrev pub IsDue : Maintenance → Type 0
  IsDue mt =
      (canceled mt ≡ false)
      × (started mt (e.now s.history) ≡ true)
      × (expired mt (e.now s.history) ≡ false)

  unchanged_of_absent : lookup name s.mt_cache ≡ none → Unchanged
  unfolding schedule_maintenance get_maintenance_from_cache ◌>>=◌ pure
  unchanged_of_absent absent = ground arith

  window_of : (mt : Maintenance) → lookup name s.mt_cache ≡ some mt → Unchanged ⊎ IsDue mt
  unfolding schedule_maintenance get_maintenance_from_cache ◌>>=◌ pure now event
  window_of mt found = ground arith

  -- A pass over a name creates jobs or submits a status only if the cache has an object of this name
  -- that is not canceled, and the time that the pass reads lies in the schedule of the object, not
  -- before its start and not after its end.
  pub schedule_maintenance_window :
      ((mt_job_creations (schedule_maintenance e c name s).1.history ≡ mt_job_creations s.history)
        × (mt_updates (schedule_maintenance e c name s).1.history ≡ mt_updates s.history))
      ⊎ ((mt : Maintenance) × (lookup name s.mt_cache ≡ some mt) × IsDue mt)
  schedule_maintenance_window = elim (Option-cases (lookup name s.mt_cache)) [
    | inl absent ↦ inl (unchanged_of_absent absent)
    | inr (mt, found) ↦ elim (window_of mt found) [
      | inl same ↦ inl same
      | inr due ↦ inr (mt, found, due)
    ]
  ]
