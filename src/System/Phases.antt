-- ===== src/System/Phases.antt =====
-- The controller never rewrites a phase of a cached Maintenance, nor its specification.
pub mod Responses
use mathlib.Core.Path.{subst}
use vihara.Prelude.{
  Bool, String, ◌≡◌, ◌⊎◌, inl, inr, refl, sym, ◌∙◌, true, false, Bool-cases, some, none,
  Option-cases, [], ◌∷◌, ◌==◌, eq_iff, lookup, lookup-insert, ap, arith, if◌then◌else◌,
}
use vihara.Api.{Duration, is_zero, is_set, MaintenanceJob, Maintenance, scheduled, finished}
use vihara.Env.{History, Env, State, ok}
use vihara.Env.Clients.{now}
use vihara.Controller.Reconcile.{Controller}
use vihara.Controller.Phases.{with_finish, enqueue_maintenance, on_maintenance_updated}
use vihara.System.Statuses.Handlers.{process_cases, update_cases}
use vihara.Controller.Schedule.{with_schedule, mark_scheduled, schedule_maintenance}
use vihara.Controller.Process.{process_maintenance}
use vihara.System.Frames.{SameMts}
use vihara.System.Statuses.Scheduling.{
  Writes, Writes-enqueue_maintenance, Writes-mark_scheduled, quiet-enqueue_maintenance,
  quiet-schedule_maintenance, schedule_maintenance_cases,
}

-- What may become of a cached object: a phase that is filled stays as it is.
pub record Keeps (mt : Maintenance) (mt' : Maintenance) : Type 0 where
  pub same_meta : mt'.meta ≡ mt.meta
  pub same_spec : mt'.spec ≡ mt.spec
  pub same_admitted : mt'.status.admitted ≡ mt.status.admitted
  pub same_scheduled : (scheduled mt ≡ false) ⊎ (mt'.status.scheduled ≡ mt.status.scheduled)
  pub same_finished : (finished mt ≡ false) ⊎ (mt'.status.finished ≡ mt.status.finished)

Keeps-refl : (mt : Maintenance) → Keeps mt mt
Keeps-refl mt = record {
  same_meta = refl;
  same_spec = refl;
  same_admitted = refl;
  same_scheduled = inr refl;
  same_finished = inr refl;
}

carry :
    {A : Type 0} (test : A → Bool) {x y z : A}
    → (test x ≡ false) ⊎ (y ≡ x)
    → (test y ≡ false) ⊎ (z ≡ y)
    → (test x ≡ false) ⊎ (z ≡ x)
carry test (inl new) q = inl new
carry test (inr p) (inl new) = inl (ap test (sym p) ∙ new)
carry test (inr p) (inr q) = inr (q ∙ p)

Keeps-trans : (a b c : Maintenance) → Keeps a b → Keeps b c → Keeps a c
unfolding scheduled finished
Keeps-trans a b c h k = record {
  same_meta = k.same_meta ∙ h.same_meta;
  same_spec = k.same_spec ∙ h.same_spec;
  same_admitted = k.same_admitted ∙ h.same_admitted;
  same_scheduled = carry (λ p. is_set p.at) h.same_scheduled k.same_scheduled;
  same_finished = carry (λ p. is_set p.at) h.same_finished k.same_finished;
}

-- Each cached object is kept, under its key.
abbrev pub KeepsAll : State → State → Type 0
KeepsAll s s' =
    (key : String) (mt : Maintenance)
    → lookup key s.mt_cache ≡ some mt
    → (mt' : Maintenance) × (lookup key s'.mt_cache ≡ some mt') × Keeps mt mt'

pub KeepsAll-of_same : (s s' : State) → s'.mt_cache ≡ s.mt_cache → KeepsAll s s'
KeepsAll-of_same s s' same key mt found = (mt, ap (lookup key) same ∙ found, Keeps-refl mt)

pub KeepsAll-SameMts : (s s' : State) → SameMts s s' → KeepsAll s s'
KeepsAll-SameMts s s' (_, same) = KeepsAll-of_same s s' same

pub KeepsAll-trans : (s t u : State) → KeepsAll s t → KeepsAll t u → KeepsAll s u
KeepsAll-trans s t u h k key mt found =
    let (mt', found', kept) = h key mt found in
    let (mt'', found'', kept') = k key mt' found' in
    (mt'', found'', Keeps-trans mt mt' mt'' kept kept')

KeepsAll-Writes :
    (name : String) (old new : Maintenance) (s s' : State)
    → lookup name s.mt_cache ≡ some old
    → Writes name new s s'
    → Keeps old new
    → KeepsAll s s'
KeepsAll-Writes name old new s s' there (_, written) kept key mt found =
    let after = ap (lookup key) written ∙ lookup-insert name key new s.mt_cache in
    elim (Bool-cases (name == key)) [
      | inl same ↦
          let eq = (eq_iff name key).0 same in
          let here : some old ≡ some mt = sym there ∙ (ap (λ n. lookup n s.mt_cache) eq ∙ found) in
          let one : old ≡ mt = cc in
          (new, after ∙ rw (same, if◌then◌else◌) refl, subst (λ m. Keeps m new) one kept)
      | inr other ↦ (mt, after ∙ rw (other, if◌then◌else◌) found, Keeps-refl mt)
    ]

with_finish-Keeps :
    (e : Env) (mt : Maintenance) (h : History)
    → finished mt ≡ false
    → Keeps mt (with_finish e mt (e.now h))
with_finish-Keeps e mt h new = record {
  same_meta = refl;
  same_spec = refl;
  same_admitted = refl;
  same_scheduled = inr refl;
  same_finished = inl new;
}

with_schedule-Keeps :
    (e : Env) (mt : Maintenance) (h : History) (json : String)
    → scheduled mt ≡ false
    → Keeps mt (with_schedule e mt (e.now h) json)
with_schedule-Keeps e mt h json new = record {
  same_meta = refl;
  same_spec = refl;
  same_admitted = refl;
  same_scheduled = inl new;
  same_finished = inr refl;
}

module _ (e : Env) (c : Controller) (clock : (h : History) → is_zero (e.now h) ≡ false) where
  pub KeepsAll-enqueue_maintenance :
      (name : String) (delay : Duration) (s : State)
      → KeepsAll s (enqueue_maintenance e name delay s).1
  KeepsAll-enqueue_maintenance name delay s = elim (Option-cases (lookup name s.mt_cache)) [
    | inl absent ↦
        KeepsAll-SameMts s (enqueue_maintenance e name delay s).1
          (quiet-enqueue_maintenance e c clock name delay s absent)
    | inr (mt, found) ↦ elim (Writes-enqueue_maintenance e name mt s delay found) [
      | inl same ↦ KeepsAll-SameMts s (enqueue_maintenance e name delay s).1 same
      | inr (w, new, over) ↦
          let h = (now e s).1.history in
          KeepsAll-Writes name mt (with_finish e mt (e.now h)) s
            (enqueue_maintenance e name delay s).1 found w (with_finish-Keeps e mt h new)
    ]
  ]

  KeepsAll-mark_scheduled :
      (name : String) (mt : Maintenance) (s : State)
      → lookup name s.mt_cache ≡ some mt
      → KeepsAll s (mark_scheduled e name mt s).1
  KeepsAll-mark_scheduled name mt s found = elim (Writes-mark_scheduled e name mt s) [
    | inl same ↦ KeepsAll-SameMts s (mark_scheduled e name mt s).1 same
    | inr (json, w, new) ↦
        KeepsAll-Writes name mt (with_schedule e mt (e.now s.history) json) s
          (mark_scheduled e name mt s).1 found w (with_schedule-Keeps e mt s.history json new)
  ]

  KeepsAll-schedule_maintenance :
      (name : String) (s : State) → KeepsAll s (schedule_maintenance e c name s).1
  unfolding now
  KeepsAll-schedule_maintenance name s = elim (Option-cases (lookup name s.mt_cache)) [
    | inl absent ↦
        KeepsAll-SameMts s (schedule_maintenance e c name s).1
          (quiet-schedule_maintenance e c clock name s absent)
    | inr (mt, found) ↦ elim (schedule_maintenance_cases e c clock name mt s found) [
      | inl same ↦ KeepsAll-SameMts s (schedule_maintenance e c name s).1 same
      | inr (same, due, still) ↦
          let t = (now e s).1 in
          let u = (mark_scheduled e name mt t).1 in
          KeepsAll-trans s u (schedule_maintenance e c name s).1
            (KeepsAll-mark_scheduled name mt t found)
            (KeepsAll-SameMts u (schedule_maintenance e c name s).1 same)
    ]
  ]

  pub KeepsAll-process_maintenance :
      (name : String) (s : State) → KeepsAll s (process_maintenance e c name s).1
  KeepsAll-process_maintenance name s =
      let t = (schedule_maintenance e c name s).1 in
      let delay = c.config.schedule.poll_interval in
      let first = KeepsAll-schedule_maintenance name s in
      elim (process_cases e c clock name s) [
        | inl same ↦ subst (KeepsAll s) (sym same) first
        | inr same ↦
            let u = (enqueue_maintenance e name delay t).1 in
            subst (KeepsAll s) (sym same)
              (KeepsAll-trans s t u first (KeepsAll-enqueue_maintenance name delay t))
      ]

  pub KeepsAll-on_maintenance_updated :
      (mt : Maintenance) (s : State) → KeepsAll s (on_maintenance_updated e c mt s).1
  unfolding now
  KeepsAll-on_maintenance_updated mt s = elim (update_cases e c mt s) [
    | inl same ↦ KeepsAll-SameMts s (on_maintenance_updated e c mt s).1 same
    | inr same ↦
        let t = (now e s).1 in
        let delay = c.config.schedule.poll_interval in
        let u = (enqueue_maintenance e mt.meta.name delay t).1 in
        KeepsAll-trans s u (on_maintenance_updated e c mt s).1
          (KeepsAll-enqueue_maintenance mt.meta.name delay t)
          (KeepsAll-SameMts u (on_maintenance_updated e c mt s).1 same)
  ]
