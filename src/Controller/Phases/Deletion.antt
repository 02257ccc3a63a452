-- ===== src/Controller/Phases/Deletion.antt =====
-- What `onMaintenanceDeleting` deletes.
use vihara.Prelude.{◌≡◌, not, ◌&&◌, ◌∷◌, arith, if◌then◌else◌}
use vihara.Api.{Maintenance, can_be_scheduled_in, admitted, scheduled, finished}
use vihara.Env.{Env, State, mt_queue, ◌>>=◌, pure}
use vihara.Env.Clients.{event, delete_mt, queue_remove}
use vihara.Env.Trace.{deletions, removals}
use vihara.Controller.Reconcile.{Controller}
use vihara.Controller.Phases.{on_maintenance_deleting}

module _ (e : Env) (c : Controller) (mt : Maintenance) (s : State) where
  -- An object of the job namespace is deleted exactly if it is not under execution, that is, not
  -- scheduled or already finished; and before that it is taken out of the schedule queue exactly if
  -- it is admitted and not scheduled.
  pub on_maintenance_deleting_exact :
      let here = can_be_scheduled_in mt c.job_namespace in
      let h = (on_maintenance_deleting e c mt s).1.history in
      (deletions h ≡ (
        if here && not (scheduled mt && not (finished mt))
        then mt.meta.name ∷ deletions s.history
        else deletions s.history))
      × (removals h ≡ (
          if here && admitted mt && not (scheduled mt)
          then (mt_queue, mt.meta.name) ∷ removals s.history
          else removals s.history))
  unfolding on_maintenance_deleting ◌>>=◌ pure event delete_mt queue_remove
  on_maintenance_deleting_exact = ground arith
