-- ===== src/System/Frames/Maintenances.antt =====
-- The handlers and the scheduling of Maintenance objects touch no MaintenanceJob object.
use vihara.Prelude.{String, ◌≡◌, ◌⊎◌, refl, inl, inr, Option, Option-cases, lookup, arith}
use vihara.Api.{Duration, Maintenance}
use vihara.Env.{Error, Outcome, returned, panicked, Env, State, ◌>>=◌, pure, panic}
use vihara.Env.Clients.{
  now, event, update_mt_status, delete_mt, write_mt, queue_find, queue_remove, offer_with_delay,
  offer_with_time,
}
use vihara.Controller.Reconcile.{Controller}
use vihara.Controller.Phases.{
  on_maintenance_added, on_maintenance_updated, on_maintenance_deleting, on_maintenance_deleted,
  get_maintenance_from_cache, enqueue_maintenance,
}
use vihara.Controller.Schedule.{Marked, stop, go, mark_scheduled, schedule_maintenance}
use vihara.System.Frames.{SameMtJobs}
use vihara.System.Frames.Snapshot.{Untouched-schedule_snapshot}

pub Marked-cases :
    (r : Outcome Marked)
    → (r ≡ panicked)
      ⊎ ((x : Option Error) × (r ≡ returned (stop x)))
      ⊎ ((mt : Maintenance) × (r ≡ returned (go mt)))
Marked-cases panicked = inl refl
Marked-cases (returned (stop x)) = inr (inl (x, refl))
Marked-cases (returned (go mt)) = inr (inr (mt, refl))

module _ (e : Env) (c : Controller) where
  pub SameMtJobs-enqueue_maintenance :
      (name : String) (delay : Duration) (s : State)
      → SameMtJobs s (enqueue_maintenance e name delay s).1
  unfolding enqueue_maintenance ◌>>=◌ pure panic now event update_mt_status queue_find
      offer_with_delay offer_with_time write_mt
  SameMtJobs-enqueue_maintenance name delay s = ground arith

  module _ (mt : Maintenance) (s : State) where
    pub SameMtJobs-on_maintenance_added : SameMtJobs s (on_maintenance_added e c mt s).1
    unfolding on_maintenance_added ◌>>=◌ pure now event update_mt_status
    SameMtJobs-on_maintenance_added = ground arith

    pub SameMtJobs-on_maintenance_updated : SameMtJobs s (on_maintenance_updated e c mt s).1
    unfolding on_maintenance_updated ◌>>=◌ pure now event
    SameMtJobs-on_maintenance_updated =
        let delay = c.config.schedule.poll_interval in
        ground (arith, SameMtJobs-enqueue_maintenance mt.meta.name delay (now e s).1)

    pub SameMtJobs-on_maintenance_deleting : SameMtJobs s (on_maintenance_deleting e c mt s).1
    unfolding on_maintenance_deleting ◌>>=◌ pure event delete_mt queue_remove
    SameMtJobs-on_maintenance_deleting = ground arith

    pub SameMtJobs-on_maintenance_deleted : SameMtJobs s (on_maintenance_deleted e c mt s).1
    unfolding on_maintenance_deleted pure
    SameMtJobs-on_maintenance_deleted = ground arith

  SameMtJobs-mark_scheduled :
      (name : String) (mt : Maintenance) (s : State) → SameMtJobs s (mark_scheduled e name mt s).1
  unfolding mark_scheduled ◌>>=◌ pure now update_mt_status write_mt
  SameMtJobs-mark_scheduled name mt s = ground arith

  pub SameMtJobs-schedule_maintenance :
      (name : String) (s : State) → SameMtJobs s (schedule_maintenance e c name s).1
  unfolding schedule_maintenance get_maintenance_from_cache ◌>>=◌ pure now event
  SameMtJobs-schedule_maintenance name s = elim (Option-cases (lookup name s.mt_cache)) [
    | inl absent ↦ ground arith
    | inr (mt, found) ↦
        let t = (now e s).1 in
        let m = mark_scheduled e name mt in
        elim (Marked-cases (m t).0) [
          | inl stuck ↦ ground (arith, SameMtJobs-mark_scheduled name mt t)
          | inr (inl (x, got)) ↦ ground (arith, SameMtJobs-mark_scheduled name mt t)
          | inr (inr (mt', got)) ↦ ground (
            arith,
            SameMtJobs-mark_scheduled name mt t,
            Untouched-schedule_snapshot e c mt' (m t).1,
          )
        ]
  ]
