-- ===== src/System/Statuses/Scheduling.antt =====
-- What the scheduling of a Maintenance writes: nothing, or one status, to the server and to the
-- cache alike.
use mathlib.Core.Path.{subst}
use vihara.Prelude.{
  String, ◌≡◌, ◌⊎◌, inl, inr, sym, true, false, some, none, Option-cases, Bool-cases, ◌∷◌, lookup,
  insert, All, AllValues, AllValues-lookup, AllValues-insert, ◌<ℤ◌, ◌≤ℤ◌, arith,
}
use vihara.Api.{is_zero, Time, Duration, Maintenance, scheduled, started, expired, finished}
use vihara.Env.{History, Result-cases, Env, State, ◌>>=◌, pure, panic}
use vihara.Env.Clients.{
  now, event, update_mt_status, write_mt, queue_find, offer_with_delay, offer_with_time,
}
use vihara.Env.Trace.{mt_updates}
use vihara.Controller.Reconcile.{Controller}
use vihara.Controller.Phases.{with_finish, enqueue_maintenance, get_maintenance_from_cache}
use vihara.Controller.Schedule.{with_schedule, mark_scheduled, schedule_maintenance}
use vihara.System.Lifecycle.{IsOpen}
use vihara.System.Frames.{SameMts}
use vihara.System.Frames.Snapshot.{Untouched-schedule_snapshot}
use vihara.System.Frames.Maintenances.{Marked-cases}
use vihara.System.Statuses.{Lives, Live, Live-SameMts, Lives-with_schedule, Lives-with_finish}

-- One object is submitted and written to the cache.
abbrev pub Writes : String → Maintenance → State → State → Type 0
Writes name mt s s' =
    (mt_updates s'.history ≡ mt ∷ mt_updates s.history) × (s'.mt_cache ≡ insert name mt s.mt_cache)

Live-Writes :
    (e : Env) (name : String) (mt : Maintenance) {s s' : State}
    → Writes name mt s s'
    → Lives e mt
    → Live e s
    → Live e s'
Live-Writes e name mt {s} (u, c) life live = record {
  submitted = subst (All (Lives e)) (sym u) (life, live.submitted);
  cached =
      subst (AllValues (Lives e)) (sym c)
        (AllValues-insert (Lives e) name mt s.mt_cache life live.cached);
}

module _ (e : Env) (name : String) (mt : Maintenance) (s : State) where
  pub Writes-enqueue_maintenance :
      (delay : Duration)
      → lookup name s.mt_cache ≡ some mt
      → let s' = (enqueue_maintenance e name delay s).1 in
        SameMts s s'
        ⊎ (Writes name (with_finish e mt (e.now (now e s).1.history)) s s'
            × (finished mt ≡ false)
            × (expired mt (e.now s.history) ≡ true))
  unfolding enqueue_maintenance ◌>>=◌ pure panic now event update_mt_status queue_find
      offer_with_delay offer_with_time write_mt
  Writes-enqueue_maintenance delay found = ground arith

  pub Writes-mark_scheduled :
      let s' = (mark_scheduled e name mt s).1 in
      SameMts s s'
      ⊎ ((json : String) × Writes name (with_schedule e mt (e.now s.history) json) s s'
          × (scheduled mt ≡ false))
  unfolding mark_scheduled ◌>>=◌ pure now update_mt_status write_mt
  Writes-mark_scheduled = elim (Result-cases (e.marshal_spec mt.spec)) [
    | inl (x, bad) ↦ inl (ground arith)
    | inr (json, got) ↦ elim (Bool-cases (scheduled mt)) [
      | inl old ↦ inl (ground arith)
      | inr new ↦ inr (json, ground arith, new)
    ]
  ]

expired-until :
    (mt : Maintenance) (at : Time)
    → expired mt at ≡ true
    → (until : Time) × (mt.status.admitted.schedule_until ≡ some until) × (until <ℤ at)
unfolding expired
expired-until mt at over = elim (Option-cases mt.status.admitted.schedule_until) [
  | inl unset ↦ ground arith
  | inr (until, set) ↦ (until, set, ground arith)
]

started-since :
    (mt : Maintenance) (at : Time)
    → started mt at ≡ true
    → (since : Time) × (mt.status.admitted.schedule_since ≡ some since) × (since ≤ℤ at)
unfolding started
started-since mt at due = elim (Option-cases mt.status.admitted.schedule_since) [
  | inl unset ↦ ground arith
  | inr (since, set) ↦ (since, set, ground arith)
]

expired-IsOpen : (mt : Maintenance) (at : Time) → expired mt at ≡ false → IsOpen mt.status at
unfolding expired
expired-IsOpen mt at still = elim (Option-cases mt.status.admitted.schedule_until) [
  | inl unset ↦ inl unset
  | inr (until, set) ↦ inr (until, set, ground arith)
]

module _ (e : Env) (c : Controller) (clock : (h : History) → is_zero (e.now h) ≡ false) where
  pub quiet-enqueue_maintenance :
      (name : String) (delay : Duration) (s : State)
      → lookup name s.mt_cache ≡ none
      → SameMts s (enqueue_maintenance e name delay s).1
  unfolding enqueue_maintenance ◌>>=◌ pure
  quiet-enqueue_maintenance name delay s absent = ground arith

  pub Live-enqueue_maintenance :
      (name : String) (delay : Duration) (s : State)
      → Live e s
      → Live e (enqueue_maintenance e name delay s).1
  unfolding now
  Live-enqueue_maintenance name delay s live = elim (Option-cases (lookup name s.mt_cache)) [
    | inl absent ↦ Live-SameMts e (quiet-enqueue_maintenance name delay s absent) live
    | inr (mt, found) ↦
        let h = (now e s).1.history in
        elim (Writes-enqueue_maintenance e name mt s delay found) [
          | inl same ↦ Live-SameMts e same live
          | inr (w, new, over) ↦
              let (until, set, passed) = expired-until mt (e.now s.history) over in
              let life = AllValues-lookup (Lives e) name s.mt_cache found live.cached in
              let life' = Lives-with_finish e c clock mt s.history until new set passed life in
              Live-Writes e name (with_finish e mt (e.now h)) w life' live
        ]
  ]

  Live-mark_scheduled :
      (name : String) (mt : Maintenance) (s : State)
      → started mt (e.now s.history) ≡ true
      → expired mt (e.now s.history) ≡ false
      → Lives e mt
      → Live e (now e s).1
      → Live e (mark_scheduled e name mt (now e s).1).1
  unfolding now
  Live-mark_scheduled name mt s due still life live =
      let t = (now e s).1 in
      elim (Writes-mark_scheduled e name mt t) [
        | inl same ↦ Live-SameMts e same live
        | inr (json, w, new) ↦
            let at = e.now s.history in
            let (since, set, passed) = started-since mt at due in
            let life' =
              Lives-with_schedule e c clock mt s.history since json new set passed
                (expired-IsOpen mt at still) life in
            Live-Writes e name (with_schedule e mt (e.now t.history) json) w life' live
      ]

  -- Up to the first scheduling, a pass writes nothing; after it, too.
  pub schedule_maintenance_cases :
      (name : String) (mt : Maintenance) (s : State)
      → lookup name s.mt_cache ≡ some mt
      → let s' = (schedule_maintenance e c name s).1 in
        SameMts s s'
        ⊎ (SameMts (mark_scheduled e name mt (now e s).1).1 s'
            × (started mt (e.now s.history) ≡ true)
            × (expired mt (e.now s.history) ≡ false))
  unfolding schedule_maintenance get_maintenance_from_cache ◌>>=◌ pure now event
  schedule_maintenance_cases name mt s found =
      let t = (now e s).1 in
      let m = mark_scheduled e name mt in
      elim (Marked-cases (m t).0) [
        | inl stuck ↦ ground arith
        | inr (inl (x, got)) ↦ ground arith
        | inr (inr (mt', got)) ↦ ground (arith, Untouched-schedule_snapshot e c mt' (m t).1)
      ]

  pub quiet-schedule_maintenance :
      (name : String) (s : State)
      → lookup name s.mt_cache ≡ none
      → SameMts s (schedule_maintenance e c name s).1
  unfolding schedule_maintenance get_maintenance_from_cache ◌>>=◌ pure
  quiet-schedule_maintenance name s absent = ground arith

  pub Live-schedule_maintenance :
      (name : String) (s : State) → Live e s → Live e (schedule_maintenance e c name s).1
  unfolding now
  Live-schedule_maintenance name s live = elim (Option-cases (lookup name s.mt_cache)) [
    | inl absent ↦ Live-SameMts e (quiet-schedule_maintenance name s absent) live
    | inr (mt, found) ↦ elim (schedule_maintenance_cases name mt s found) [
      | inl same ↦ Live-SameMts e same live
      | inr (same, due, still) ↦
          let life = AllValues-lookup (Lives e) name s.mt_cache found live.cached in
          let t = (now e s).1 in
          let live' : Live e t = record { submitted = live.submitted; cached = live.cached } in
          Live-SameMts e same (Live-mark_scheduled name mt s due still life live')
    ]
  ]
