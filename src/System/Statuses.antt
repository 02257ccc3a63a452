-- ===== src/System/Statuses.antt =====
-- The statuses of Maintenance objects that a state holds: those that were submitted and those of
-- the cached objects. Each is a status of the life of `System.Lifecycle`.
pub mod Scheduling
pub mod Handlers
use mathlib.Core.Path.{subst}
use vihara.Prelude.{
  String, ◌≡◌, ◌⊎◌, inl, inr, sym, refl, true, false, some, none, Option-cases, Bool-cases, List,
  [], ◌∷◌, not, ◌&&◌, lookup, insert, erase, All, All-Memᴰ, AllValues, AllValues-lookup,
  AllValues-insert, AllValues-erase, ltb_ℤ, ◌<ℤ◌, ◌≤ℤ◌, arith, if◌then◌else◌,
}
use vihara.Api.{
  is_zero, Time, Duration, Maintenance, MaintenanceStatus, scheduled, started, expired, finished,
  admitted, canceled, can_be_scheduled_in,
}
use vihara.Env.{Call, History, Result-cases, Env, State, ok, err, ◌>>=◌, pure, panic}
use vihara.Env.Clients.{
  now, event, update_mt_status, write_mt, queue_find, offer_with_delay, offer_with_time,
}
use vihara.Env.Trace.{mt_updates}
use vihara.Controller.Reconcile.{Controller}
use vihara.Controller.Phases.{
  schedule_since, schedule_until, with_admission, with_finish, on_maintenance_added,
  on_maintenance_updated, on_maintenance_deleting, enqueue_maintenance,
}
use vihara.Controller.Phases.Admission.{updates-on_maintenance_added}
use vihara.Controller.Schedule.{with_schedule, mark_scheduled, schedule_maintenance}
use vihara.System.Lifecycle.{IsOpen, Advance, Lifecycle, blank}
use vihara.System.Frames.{SameMts}
use vihara.System.Reachable.{StoredMt}

module _ (e : Env) where
  abbrev pub Lives : Maintenance → Type 0
  Lives mt = Lifecycle e mt.status

  pub record Live (s : State) : Type 0 where
    pub submitted : All Lives (mt_updates s.history)
    pub cached : AllValues Lives s.mt_cache

  pub Live-SameMts : {s s' : State} → SameMts s s' → Live s → Live s'
  Live-SameMts (u, c) live = record {
    submitted = subst (All Lives) (sym u) live.submitted;
    cached = subst (AllValues Lives) (sym c) live.cached;
  }

  -- what the API server can have for an object
  pub Lives-StoredMt :
      {s : State} (mt : Maintenance) → StoredMt s.history mt.status → Live s → Lives mt
  Lives-StoredMt mt (inl new) live = subst (Lifecycle e) (sym new) Lifecycle.created
  Lives-StoredMt {s} mt (inr (old, m, same)) live =
      subst (Lifecycle e) (sym same) (All-Memᴰ Lives old (mt_updates s.history) m live.submitted)

  module _ (c : Controller) (clock : (h : History) → is_zero (e.now h) ≡ false) where
    Lives-with_admission :
        (mt : Maintenance) (h : History)
        → admitted mt ≡ false
        → schedule_since c mt <ℤ schedule_until c mt (schedule_since c mt)
        → Lives mt
        → Lives (with_admission e c mt (e.now h))
    unfolding admitted
    Lives-with_admission mt h new order life =
        let since = schedule_since c mt in
        let until = schedule_until c mt since in
        Lifecycle.advanced life
          (Advance.admitting (e.now h) e.this_pod since until new (clock h) (h, refl) order refl)

    Lives-with_schedule :
        (mt : Maintenance) (h : History) (since : Time) (json : String)
        → scheduled mt ≡ false
        → mt.status.admitted.schedule_since ≡ some since
        → since ≤ℤ e.now h
        → IsOpen mt.status (e.now h)
        → Lives mt
        → Lives (with_schedule e mt (e.now (Call.read_clock ∷ h)) json)
    unfolding scheduled
    Lives-with_schedule mt h since json new found due still life = Lifecycle.advanced life (
        Advance.scheduling (e.now (Call.read_clock ∷ h)) since (e.now h) e.this_pod json new
          (clock (Call.read_clock ∷ h)) (h, refl, refl) found due still refl)

    Lives-with_finish :
        (mt : Maintenance) (h : History) (until : Time)
        → finished mt ≡ false
        → mt.status.admitted.schedule_until ≡ some until
        → until <ℤ e.now h
        → Lives mt
        → Lives (with_finish e mt (e.now (Call.read_clock ∷ h)))
    unfolding finished
    Lives-with_finish mt h until new found over life = Lifecycle.advanced life (
        Advance.finishing (e.now (Call.read_clock ∷ h)) until (e.now h) e.this_pod new
          (clock (Call.read_clock ∷ h)) (h, refl, refl) found over refl)
