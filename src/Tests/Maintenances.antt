-- ===== src/Tests/Maintenances.antt =====
-- The handlers of Maintenance objects on concrete objects.
use vihara.Controller.Events.{mt_deleting, handle}
use vihara.Controller.Events.Deletions.{deletions-handle}
use vihara.Prelude.{
  if◌then◌else◌, ltb_ℤ, not, ◌&&◌, some, not, ◌&&◌, ◌≡◌, ◌⊎◌, refl, true, false, some, [], ◌∷◌, pos,
  lookup,
}
use vihara.Api.{
  Time, empty_spec, Maintenance, can_be_scheduled_in, admitted, canceled, finished, scheduled,
  expired, started,
}
use vihara.Env.{◌>>=◌, mt_queue, other, panicked}
use vihara.Env.Clients.{now, event, queue_find, offer_with_delay}
use vihara.Validate.{first_error}
use vihara.Env.Trace.{mt_updates, deletions, removals, offers, Due}
use vihara.Controller.Phases.{
  on_maintenance_added, enqueue_maintenance, with_finish, on_maintenance_deleting,
  on_maintenance_updated,
}
use vihara.Controller.Phases.Admission.{IsPlan, on_maintenance_added-IsPlan}
use vihara.Controller.Phases.Deletion.{on_maintenance_deleting_exact}
use vihara.Controller.Phases.Enqueuing.{enqueue_maintenance_refused}
use vihara.Tests.World.{env, refusing, controller, start, mt_new, mt_admitted, holding, drain_stage}
use vihara.Controller.Phases.Updates.{IsSchedulable, on_maintenance_updated_enqueues}

on_maintenance_added-IsPlan_example :
    (since : Time) × (until : Time) × IsPlan controller mt_new since until
    × (mt_updates (on_maintenance_added env controller mt_new start).1.history ≡ (
        if not (admitted mt_new) && can_be_scheduled_in mt_new "vihara" && ltb_ℤ since until
        then record mt_new {
          status = record (mt_new.status) {
            admitted = record {
              at = some (pos 1_000);
              by = env.this_pod;
              schedule_since = some since;
              schedule_until = some until;
            };
          };
        }
          ∷ []
        else []))
on_maintenance_added-IsPlan_example = on_maintenance_added-IsPlan env controller mt_new start

on_maintenance_deleting_exact_example :
    (deletions (on_maintenance_deleting env controller (mt_admitted 560 1_160) start).1.history
      ≡ "mt" ∷ [])
    × (removals (on_maintenance_deleting env controller (mt_admitted 560 1_160) start).1.history
        ≡ (mt_queue, "mt") ∷ [])
unfolding admitted can_be_scheduled_in scheduled finished
on_maintenance_deleting_exact_example =
    on_maintenance_deleting_exact env controller (mt_admitted 560 1_160) start

enqueue_maintenance_refused_example :
    ((enqueue_maintenance refusing "mt" (pos 10) (holding (mt_admitted 560 900))).0 ≡ panicked)
    × (lookup "mt"
          (enqueue_maintenance refusing "mt" (pos 10) (holding (mt_admitted 560 900))).1.mt_cache
        ≡ some (with_finish refusing (mt_admitted 560 900) (pos 1_001)))
unfolding lookup canceled finished expired now
enqueue_maintenance_refused_example =
    enqueue_maintenance_refused refusing "mt" (pos 10) (mt_admitted 560 900)
      (holding (mt_admitted 560 900)) {x = other "conflict"} refl refl refl refl refl refl
      (λ _. refl)

-- admitted, due, and complete
abbrev mt_complete : Maintenance
mt_complete = record (mt_admitted 560 2_000) {
  spec = record empty_spec { node_selector = ("role", "worker") ∷ []; stages = drain_stage ∷ [] };
}

on_maintenance_updated_enqueues_example :
    (offers (on_maintenance_updated env controller mt_complete (holding mt_complete)).1.history
      ≡ [])
    ⊎ ((admitted mt_complete ≡ true)
        × (finished mt_complete ≡ false)
        × (expired mt_complete (pos 1_000) ≡ false)
        × (can_be_scheduled_in mt_complete "vihara" ≡ true)
        × IsSchedulable env mt_complete)
on_maintenance_updated_enqueues_example =
    on_maintenance_updated_enqueues env controller mt_complete (holding mt_complete)

-- The second case of it is the one that holds: the object is offered.
offers-on_maintenance_updated :
    offers (on_maintenance_updated env controller mt_complete (holding mt_complete)).1.history
    ≡ (mt_queue, "mt", Due.after (pos 10)) ∷ []
unfolding on_maintenance_updated enqueue_maintenance finished can_be_scheduled_in admitted expired
    scheduled canceled started first_error lookup event now queue_find offer_with_delay ◌>>=◌
offers-on_maintenance_updated = refl

deletions-handle_example :
    (deletions (handle env controller (mt_deleting mt_new) start).1.history ≡ [])
    ⊎ ((mt : Maintenance) × (mt_deleting mt_new ≡ mt_deleting mt)
        × (can_be_scheduled_in mt "vihara" ≡ true)
        × ((scheduled mt && not (finished mt)) ≡ false)
        × (deletions (handle env controller (mt_deleting mt_new) start).1.history
            ≡ mt.meta.name ∷ []))
deletions-handle_example = deletions-handle env controller (mt_deleting mt_new) start
