-- ===== src/Controller/Phases/Admission.antt =====
-- What `onMaintenanceAdded` admits.
use vihara.Prelude.{
  ◌≡◌, not, ◌&&◌, true, false, ◌∷◌, arith, pos, ltb_ℤ, ◌<ℤ◌, ◌≤ℤ◌, ◌+ℤ◌, ◌⊎◌, inl, inr, Option,
  Bool-cases, refl, none, some, lt-add, if◌then◌else◌,
}
use vihara.Api.{Duration, is_zero, Time, Maintenance, can_be_scheduled_in, admitted, is_zero?}
use vihara.Env.{Env, State, returned, ok, ◌>>=◌, pure}
use vihara.Env.Clients.{now, event, update_mt_status}
use vihara.Env.Trace.{mt_updates}
use vihara.Controller.Reconcile.{Controller, update, next}
use vihara.Controller.Phases.{schedule_since, schedule_until, with_admission, on_maintenance_added}

module _ (e : Env) (c : Controller) (mt : Maintenance) (s : State) where
  pub updates-on_maintenance_added :
      let since = schedule_since c mt in
      mt_updates (on_maintenance_added e c mt s).1.history ≡ (
        if not (admitted mt)
          && can_be_scheduled_in mt c.job_namespace
          && ltb_ℤ since (schedule_until c mt since)
        then with_admission e c mt (e.now s.history) ∷ mt_updates s.history
        else mt_updates s.history)
  unfolding on_maintenance_added ◌>>=◌ pure now event update_mt_status
  updates-on_maintenance_added = ground arith

-- A time that is not given, or is Go's zero time.
abbrev pub IsUnset : Option Time → Type 0
IsUnset given = (given ≡ none) ⊎ ((t : Time) × (given ≡ some t) × (is_zero t ≡ true))

-- A duration that is used as it is given if it is positive, and replaced by a default if not.
abbrev pub IsLength : Duration → Duration → Duration → Type 0
IsLength given default used =
    ((pos 0 <ℤ given) × (used ≡ given)) ⊎ ((given ≤ℤ pos 0) × (used ≡ default))

-- The schedule that an object asks for. It starts a delay after the given start or, without one,
-- after the object's creation. It ends at the given end or, without one, a duration after that
-- delayed start.
pub record IsPlan (c : Controller) (mt : Maintenance) (since until : Time) : Type 0 where
  pub starts :
      (from : Time) × (delay : Duration) × (((mt.spec.schedule.since ≡ some from)
          × (is_zero from ≡ false))
        ⊎ (IsUnset mt.spec.schedule.since × (from ≡ mt.meta.creation_timestamp)))
      × IsLength mt.spec.schedule.delay c.config.schedule.default_delay delay
      × (since ≡ from +ℤ delay)
  pub ends :
      ((mt.spec.schedule.until ≡ some until) × (is_zero until ≡ false))
      ⊎ (IsUnset mt.spec.schedule.until
          × ((length : Duration) × IsLength mt.spec.schedule.duration
                c.config.schedule.default_duration length
              × (until ≡ since +ℤ length)))

IsLength-used :
    (given default : Duration)
    → IsLength given default (if ltb_ℤ given (pos 1) then default else given)
IsLength-used given default = ground arith

abbrev pick : Option Time → Time → Time
pick given default = elim given [ none ↦ default | some t ↦ if is_zero t then default else t ]

pick_cases :
    (given : Option Time) (default : Time)
    → ((given ≡ some (pick given default)) × (is_zero (pick given default) ≡ false))
      ⊎ (IsUnset given × (pick given default ≡ default))
pick_cases none default = inr (inl refl, refl)
pick_cases (some t) default = elim (Bool-cases (is_zero t)) [
  | inl zero ↦ inr (inr (t, refl, zero), ground arith)
  | inr given ↦ inl (ground arith)
]

schedule-IsPlan :
    (c : Controller) (mt : Maintenance)
    → let since = schedule_since c mt in IsPlan c mt since (schedule_until c mt since)
unfolding schedule_since schedule_until
schedule-IsPlan c mt =
    let schedule = mt.spec.schedule in
    let defaults = c.config.schedule in
    let created = mt.meta.creation_timestamp in
    let delay = if ltb_ℤ schedule.delay (pos 1) then defaults.default_delay else schedule.delay in
    let length =
      if ltb_ℤ schedule.duration (pos 1) then defaults.default_duration else schedule.duration in
    let since = pick schedule.since created +ℤ delay in
    record {
      starts = (
        pick schedule.since created,
        delay,
        pick_cases schedule.since created,
        IsLength-used schedule.delay defaults.default_delay,
        refl,
      );
      ends = elim (pick_cases schedule.until (since +ℤ length)) [
        | inl given ↦ inl given
        | inr (unset, same) ↦
            inr (unset, (length, IsLength-used schedule.duration defaults.default_duration, same))
      ];
    }

module _ (e : Env) (c : Controller) (mt : Maintenance) (s : State) where
  -- The object asks for a schedule: it starts a delay after its given start or else after its
  -- creation, and ends at its given end or else a duration after that delayed start, where a delay
  -- or a duration that is not positive is the configured one, and a zero time is none. The handler
  -- submits a status exactly if the object is not admitted yet, may be scheduled in the job
  -- namespace, and this schedule starts before it ends. What it submits is the object with the time
  -- of the clock, this pod and that schedule as its admission, and nothing else is changed.
  pub on_maintenance_added-IsPlan :
      (since : Time) × (until : Time) × IsPlan c mt since until
      × (mt_updates (on_maintenance_added e c mt s).1.history ≡ (
          if not (admitted mt) && can_be_scheduled_in mt c.job_namespace && ltb_ℤ since until
          then record mt {
            status = record mt.status {
              admitted = record {
                at = some (e.now s.history);
                by = e.this_pod;
                schedule_since = some since;
                schedule_until = some until;
              };
            };
          }
            ∷ mt_updates s.history
          else mt_updates s.history))
  on_maintenance_added-IsPlan =
      let since = schedule_since c mt in
      (
        since,
        schedule_until c mt since,
        schedule-IsPlan c mt,
        updates-on_maintenance_added e c mt s,
      )

-- A schedule with no end ends a positive duration after its start.
until_of_unset :
    (c : Controller) (mt : Maintenance) (since : Time)
    → is_zero? mt.spec.schedule.until ≡ true
    → pos 0 <ℤ c.config.schedule.default_duration
    → since <ℤ schedule_until c mt since
unfolding schedule_until
until_of_unset c mt since unset positive =
    ground (
      arith,
      lt-add since c.config.schedule.default_duration,
      lt-add since mt.spec.schedule.duration,
    )

module _ (e : Env) (c : Controller) (mt mt' : Maintenance) (s : State) where
  -- An object that is new, may be scheduled in the job namespace and gives no end of its schedule is
  -- admitted, whatever else it says, if the default duration is positive and the API server accepts
  -- the status; the handler then asks for the object to be enqueued.
  on_maintenance_added_admits :
      admitted mt ≡ false
      → can_be_scheduled_in mt c.job_namespace ≡ true
      → is_zero? mt.spec.schedule.until ≡ true
      → pos 0 <ℤ c.config.schedule.default_duration
      → e.put_mt_status (now e s).1.history (with_admission e c mt (e.now s.history)) ≡ ok mt'
      → (on_maintenance_added e c mt s).0 ≡ returned (next update)
  unfolding on_maintenance_added ◌>>=◌ pure now event update_mt_status
  on_maintenance_added_admits new here unset positive accepted =
      ground (arith, until_of_unset c mt (schedule_since c mt))
