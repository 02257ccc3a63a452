-- ===== src/System/Lifecycle.antt =====
-- The life of a Maintenance, as the three phases of its status are meant to be filled
-- (pkg/apis/vihara/v1alpha1/types_maintenance.go): admitted, with a schedule that starts before it
-- ends; scheduled, right after the clock was read within that schedule, with a snapshot and its
-- hash; finished, right after the clock was read past the end of that schedule. Each step fills a
-- phase that was not filled.
use vihara.Prelude.{
  String, ◌≡◌, ◌⊎◌, inr, refl, true, false, some, none, ◌∷◌, ◌==◌, eq_refl, ◌<ℤ◌, ◌≤ℤ◌, arith,
}
use vihara.Api.{
  Time, is_zero, is_set, ResourceReference, MaintenanceStatus, MaintenancePhaseAdmitted,
  empty_maintenance,
}
use vihara.Env.{Call, History, Env}

-- the status of an object that a user has created
abbrev pub blank : MaintenanceStatus
blank = empty_maintenance.status

abbrev pub admit : MaintenanceStatus → Time → ResourceReference → Time → Time → MaintenanceStatus
admit st at by since until = record st {
  admitted = record {
    at = some at;
    by = by;
    schedule_since = some since;
    schedule_until = some until;
  };
}

abbrev pub schedule :
    MaintenanceStatus → Time → ResourceReference → String → String → MaintenanceStatus
schedule st at by json hash = record st {
  scheduled = record { at = some at; by = by; spec_snapshot = json; spec_snapshot_hash = hash };
}

abbrev pub finish : MaintenanceStatus → Time → ResourceReference → MaintenanceStatus
finish st at by = record st { finished = record { at = some at; by = by } }

-- No end of the schedule is before a time.
abbrev pub IsOpen : MaintenanceStatus → Time → Type 0
IsOpen st now =
    (st.admitted.schedule_until ≡ none)
    ⊎ ((until : Time) × (st.admitted.schedule_until ≡ some until) × (now ≤ℤ until))

-- The times of two readings of the clock, the second right after the first.
abbrev pub ReadAfter : Env → Time → Time → Type 0
ReadAfter e now at = (h : History) × (now ≡ e.now h) × (at ≡ e.now (Call.read_clock ∷ h))

-- One step of the life, at a time that the clock showed and that is not Go's zero time. A phase is
-- checked at one reading of the clock, `now`, and its time is the next one, `at`.
pub data Advance (e : Env) (st : MaintenanceStatus) (next : MaintenanceStatus) : Type 0 where
  admitting :
      (at : Time) (by : ResourceReference) (since until : Time)
      → is_set st.admitted.at ≡ false
      → is_zero at ≡ false
      → (h : History) × (at ≡ e.now h)
      → since <ℤ until
      → next ≡ admit st at by since until
      → Advance e st next
  scheduling :
      (at since now : Time) (by : ResourceReference) (json : String)
      → is_set st.scheduled.at ≡ false
      → is_zero at ≡ false
      → ReadAfter e now at
      → st.admitted.schedule_since ≡ some since
      → since ≤ℤ now
      → IsOpen st now
      → next ≡ schedule st at by json (e.sha256_hex json)
      → Advance e st next
  finishing :
      (at until now : Time) (by : ResourceReference)
      → is_set st.finished.at ≡ false
      → is_zero at ≡ false
      → ReadAfter e now at
      → st.admitted.schedule_until ≡ some until
      → until <ℤ now
      → next ≡ finish st at by
      → Advance e st next

pub data Lifecycle (e : Env) : MaintenanceStatus → Type 0 where
  created : Lifecycle e blank
  advanced : {st next : MaintenanceStatus} → Lifecycle e st → Advance e st next → Lifecycle e next

-- An admission that is not there at all, or is there with a schedule that starts before it ends.
abbrev pub IsPlanned : MaintenancePhaseAdmitted → Type 0
IsPlanned a =
    ((is_set a.at ≡ false) × (a.schedule_since ≡ none) × (a.schedule_until ≡ none))
    ⊎ ((since : Time) × (until : Time) × (is_set a.at ≡ true)
        × (a.schedule_since ≡ some since)
        × (a.schedule_until ≡ some until)
        × (since <ℤ until))

-- What a status says at any time of the life.
pub record IsConsistent (e : Env) (st : MaintenanceStatus) : Type 0 where
  pub planned : IsPlanned st.admitted
  pub scheduled_later : (is_set st.scheduled.at ≡ false) ⊎ (is_set st.admitted.at ≡ true)
  pub snapshot_hashed :
      (is_set st.scheduled.at ≡ false)
      ⊎ ((e.sha256_hex st.scheduled.spec_snapshot == st.scheduled.spec_snapshot_hash) ≡ true)
  pub finished_later : (is_set st.finished.at ≡ false) ⊎ (is_set st.admitted.at ≡ true)

Advance-IsConsistent :
    (e : Env) (st next : MaintenanceStatus)
    → Advance e st next
    → IsConsistent e st
    → IsConsistent e next
Advance-IsConsistent e st next (admitting at by since until new clock shown order same) c =
    rw same (record {
      planned = inr (since, until, ground arith, refl, refl, order);
      scheduled_later = ground arith;
      snapshot_hashed = ground arith;
      finished_later = ground arith;
    })
Advance-IsConsistent e st next
      (scheduling at since now by json new clock shown found due still same) c =
    rw same (record {
      planned = c.planned;
      scheduled_later = ground arith;
      snapshot_hashed = inr (eq_refl (e.sha256_hex json));
      finished_later = ground arith;
    })
Advance-IsConsistent e st next (finishing at until now by new clock shown found over same) c =
    rw same (record {
      planned = c.planned;
      scheduled_later = ground arith;
      snapshot_hashed = ground arith;
      finished_later = ground arith;
    })

pub Lifecycle-IsConsistent : {e : Env} {st : MaintenanceStatus} → Lifecycle e st → IsConsistent e st
Lifecycle-IsConsistent created = ground arith
Lifecycle-IsConsistent {e} (advanced {st} {next} life step) =
    Advance-IsConsistent e st next step (Lifecycle-IsConsistent life)
