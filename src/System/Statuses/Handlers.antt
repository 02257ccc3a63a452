-- ===== src/System/Statuses/Handlers.antt =====
-- The handlers of Maintenance objects and the processing of a name keep the statuses in their life.
use mathlib.Core.Path.{subst}
use vihara.Prelude.{String, ◌≡◌, ◌⊎◌, inl, inr, sym, ◌∙◌, false, ◌∷◌, All, AllValues, ◌<ℤ◌, arith}
use vihara.Api.{is_zero, Maintenance, admitted}
use vihara.Env.{History, Env, State, ◌>>=◌, pure}
use vihara.Env.Clients.{now, event, update_mt_status, delete_mt, queue_remove}
use vihara.Env.Trace.{mt_updates}
use vihara.Controller.Reconcile.{Controller}
use vihara.Controller.Phases.{
  schedule_since, schedule_until, with_admission, on_maintenance_added, on_maintenance_updated,
  on_maintenance_deleting, on_maintenance_deleted, enqueue_maintenance,
}
use vihara.Controller.Phases.Admission.{updates-on_maintenance_added}
use vihara.Controller.Schedule.{schedule_maintenance}
use vihara.Controller.Process.{process_maintenance}
use vihara.System.Frames.{SameMts, SameMtJobs}
use vihara.System.Frames.Maintenances.{
  SameMtJobs-schedule_maintenance, SameMtJobs-enqueue_maintenance,
}
use vihara.System.Statuses.{Lives, Live, Live-SameMts, Lives-with_admission}
use vihara.System.Statuses.Scheduling.{Live-enqueue_maintenance, Live-schedule_maintenance}

module _ (e : Env) (c : Controller) where
  module _ (mt : Maintenance) (s : State) where
    pub cache-on_maintenance_added : (on_maintenance_added e c mt s).1.mt_cache ≡ s.mt_cache
    unfolding on_maintenance_added ◌>>=◌ pure now event update_mt_status
    cache-on_maintenance_added = ground arith

    admits_cases :
        let h = (on_maintenance_added e c mt s).1.history in
        let since = schedule_since c mt in
        (mt_updates h ≡ mt_updates s.history)
        ⊎ ((mt_updates h ≡ with_admission e c mt (e.now s.history) ∷ mt_updates s.history)
            × (admitted mt ≡ false)
            × (since <ℤ schedule_until c mt since))
    admits_cases = ground (arith, updates-on_maintenance_added e c mt s)

    -- an update enqueues the object, or does not
    pub update_cases :
        let s' = (on_maintenance_updated e c mt s).1 in
        SameMts s s'
        ⊎ SameMts
            (enqueue_maintenance e mt.meta.name c.config.schedule.poll_interval (now e s).1).1
            s'
    unfolding on_maintenance_updated ◌>>=◌ pure event now
    update_cases = ground arith

    pub SameMts-on_maintenance_deleting : SameMts s (on_maintenance_deleting e c mt s).1
    unfolding on_maintenance_deleting ◌>>=◌ pure event delete_mt queue_remove
    SameMts-on_maintenance_deleting = ground arith

    pub SameMts-on_maintenance_deleted : SameMts s (on_maintenance_deleted e c mt s).1
    unfolding on_maintenance_deleted pure
    SameMts-on_maintenance_deleted = ground arith

  module _ (clock : (h : History) → is_zero (e.now h) ≡ false) where
    pub Live-on_maintenance_added :
        (mt : Maintenance) (s : State)
        → Lives e mt
        → Live e s
        → Live e (on_maintenance_added e c mt s).1
    Live-on_maintenance_added mt s life live = elim (admits_cases mt s) [
      | inl same ↦ Live-SameMts e (same, cache-on_maintenance_added mt s) live
      | inr (added, new, order) ↦
          let life' = Lives-with_admission e c clock mt s.history new order life in
          record {
            submitted = subst (All (Lives e)) (sym added) (life', live.submitted);
            cached =
                subst (AllValues (Lives e)) (sym (cache-on_maintenance_added mt s)) live.cached;
          }
    ]

    Live-now : (s : State) → Live e s → Live e (now e s).1
    unfolding now
    Live-now s live = record { submitted = live.submitted; cached = live.cached }

    pub Live-on_maintenance_updated :
        (mt : Maintenance) (s : State) → Live e s → Live e (on_maintenance_updated e c mt s).1
    Live-on_maintenance_updated mt s live = elim (update_cases mt s) [
      | inl same ↦ Live-SameMts e same live
      | inr same ↦
          let delay = c.config.schedule.poll_interval in
          Live-SameMts e same
            (Live-enqueue_maintenance e c clock mt.meta.name delay (now e s).1 (Live-now s live))
    ]

    -- A name that the queue gives out is scheduled and then enqueued again, unless the program ends.
    pub process_cases :
        (name : String) (s : State)
        → let s' = (process_maintenance e c name s).1 in
          let t = (schedule_maintenance e c name s).1 in
          (s' ≡ t) ⊎ (s' ≡ (enqueue_maintenance e name c.config.schedule.poll_interval t).1)
    unfolding process_maintenance ◌>>=◌ pure
    process_cases name s = ground arith

    pub Live-process_maintenance :
        (name : String) (s : State) → Live e s → Live e (process_maintenance e c name s).1
    Live-process_maintenance name s live =
        let delay = c.config.schedule.poll_interval in
        let t = (schedule_maintenance e c name s).1 in
        let live' = Live-schedule_maintenance e c clock name s live in
        elim (process_cases name s) [
          | inl same ↦ subst (Live e) (sym same) live'
          | inr same ↦
              subst (Live e) (sym same) (Live-enqueue_maintenance e c clock name delay t live')
        ]

    pub SameMtJobs-process_maintenance :
        (name : String) (s : State) → SameMtJobs s (process_maintenance e c name s).1
    SameMtJobs-process_maintenance name s =
        let delay = c.config.schedule.poll_interval in
        let t = (schedule_maintenance e c name s).1 in
        let first = SameMtJobs-schedule_maintenance e c name s in
        let second = SameMtJobs-enqueue_maintenance e c name delay t in
        elim (process_cases name s) [
          | inl same ↦ subst (SameMtJobs s) (sym same) first
          | inr same ↦ subst (SameMtJobs s) (sym same) (second.0 ∙ first.0, second.1 ∙ first.1)
        ]
