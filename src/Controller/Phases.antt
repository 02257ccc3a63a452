-- ===== src/Controller/Phases.antt =====
-- The handlers of Maintenance objects and their queue
-- (pkg/controller/maintenance/maintenance.go).
pub mod Admission
pub mod Deletion
pub mod Enqueuing
pub mod Updates
use vihara.Prelude.{
  String, not, ◌&&◌, Option, none, some, ◌==◌, ◌<>◌, lookup, is_empty, pos, ltb_ℤ, ◌+ℤ◌,
  if◌then◌else◌,
}
use vihara.Api.{
  Time, Duration, is_zero, Maintenance, can_be_scheduled_in, finished, admitted, canceled, started,
  scheduled, expired,
}
use vihara.Validate.{validate_env, validate_env_from, first_error}
use vihara.Env.{
  State, Error, errorf, wrapped, is_not_found, Result, ok, err, normal, warning, mt_queue, Env, M,
  returned, pure, deref, ◌>>=◌, ◌>>◌,
}
use vihara.Env.Clients
use vihara.Controller.Reconcile.{Controller, ReconcileResult, add, update, next, failed_with}

-- The start of the schedule that an object is admitted with.
unfoldable pub schedule_since : Controller → Maintenance → Time
schedule_since c mt =
    let created = mt.meta.creation_timestamp in
    let since : Time = elim mt.spec.schedule.since [
      | none ↦ created
      | some t ↦ if is_zero t then created else t
    ] in
    let delay = mt.spec.schedule.delay in
    since +ℤ (if ltb_ℤ delay (pos 1) then c.config.schedule.default_delay else delay)

-- The end of the schedule, from its start.
unfoldable pub schedule_until : Controller → Maintenance → Time → Time
schedule_until c mt since =
    let dur = mt.spec.schedule.duration in
    let default =
      since +ℤ (if ltb_ℤ dur (pos 1) then c.config.schedule.default_duration else dur) in
    elim mt.spec.schedule.until [ none ↦ default | some t ↦ if is_zero t then default else t ]

module _ (e : Env) (c : Controller) where
  -- what `onMaintenanceAdded` submits
  abbrev pub with_admission : Maintenance → Time → Maintenance
  with_admission mt at =
      let since = schedule_since c mt in
      record mt {
        status = record mt.status {
          admitted = record {
            at = some at;
            by = e.this_pod;
            schedule_since = some since;
            schedule_until = some (schedule_until c mt since);
          };
        };
      }

  -- `onMaintenanceAdded`
  unfoldable pub on_maintenance_added : Maintenance → M (Option ReconcileResult)
  on_maintenance_added mt =
      let since = schedule_since c mt in
      let until = schedule_until c mt since in
      if admitted mt
      then pure (next update)
      else if not (can_be_scheduled_in mt c.job_namespace)
      then pure none
      else if not (ltb_ℤ since until)
      then (do
        Clients.event e mt.meta.name warning "InvalidSchedule" (
            "since "
            <> e.quote (e.format_time since)
            <> " should be earlier than until "
            <> e.quote (e.format_time until))
        pure none)
      else do
        at ← Clients.now e
        (mt', x) ← Clients.update_mt_status e (with_admission mt at)
        elim x [
          | some x' ↦ pure (if is_not_found x' then none else failed_with x')
          | none ↦ do
            Clients.event e mt'.meta.name normal "Admitted" "valid schedule spec"
            pure (next update)
        ]

module _ (e : Env) where
  -- what `getMaintenanceFromCache` returns
  unfoldable pub cached_mt : State → String → Result Maintenance
  cached_mt s name = elim (e.cache_error s.history name) [
    | some x ↦ err (wrapped "failed to load latest Maintenance from cache" x)
    | none ↦ elim (lookup name s.mt_cache) [
      | none ↦ err (errorf ("maintenance not found in cache: " <> name))
      | some mt ↦ ok mt
    ]
  ]

  -- `getMaintenanceFromCache`
  unfoldable pub get_maintenance_from_cache : String → M (Result Maintenance)
  unfolding cached_mt
  get_maintenance_from_cache name s = (returned (cached_mt s name), s)

  -- the part after the label `doEnqueue`
  unfoldable pub do_enqueue : Maintenance → Time → Duration → M (Option Error)
  unfolding deref
  do_enqueue mt now delay = do
    found ← Clients.queue_find e mt_queue mt.meta.name
    if found
        then pure none
        else if started mt now
        then Clients.offer_with_delay e mt_queue mt.meta.name delay
        else do
          since ← deref mt.status.admitted.schedule_since
          Clients.offer_with_time e mt_queue mt.meta.name since

  abbrev pub with_finish : Maintenance → Time → Maintenance
  with_finish mt at = record mt {
    status = record mt.status { finished = record { at = some at; by = e.this_pod } };
  }

  -- `enqueueMaintenanceForScheduling`. The object is the cache's own: the finish time is written to
  -- the cache before the API server is asked.
  unfoldable pub enqueue_maintenance : String → Duration → M (Option Error)
  unfolding do_enqueue get_maintenance_from_cache
  enqueue_maintenance name delay = do
    cached ← get_maintenance_from_cache name
    elim cached [
      | err x ↦ pure (some x)
      | ok mt ↦ do
        now ← Clients.now e
        if canceled mt
            then pure none
            else if finished mt
            then pure none
            else if expired mt now
            then (do
              at ← Clients.now e
              Clients.write_mt name (with_finish mt at)
              (mt', x) ← Clients.update_mt_status e (with_finish mt at)
              elim x [
                | some _ ↦ do_enqueue mt' now delay
                | none ↦ do
                  Clients.event e mt'.meta.name normal "ScheduleFailed" "missed schedule time frame"
                  pure none
              ])
            else do_enqueue mt now delay
    ]

  -- The checks of `onMaintenanceUpdated` that stand before the enqueuing, each with the event that
  -- it records; `none` if all pass.
  unfoldable pub spec_complaint : Maintenance → Option (String × String)
  spec_complaint mt =
      if scheduled mt
        && not (
            e.sha256_hex mt.status.scheduled.spec_snapshot
            == mt.status.scheduled.spec_snapshot_hash)
      then some ("InvalidSnapshot", "snapshot doesn't match its sha256 hash")
      else if is_empty mt.spec.node_selector
      then some ("InvalidSpec", "must provide valid spec.nodeSelector")
      else if is_empty mt.spec.stages
      then some ("InvalidSpec", "must provide valid spec.stages")
      else elim (first_error validate_env mt.spec.env) [
        | some x ↦ some ("InvalidSpec", e.error_text x)
        | none ↦ elim (first_error validate_env_from mt.spec.env_from) [
          | some x ↦ some ("InvalidSpec", e.error_text x)
          | none ↦ none
        ]
      ]

module _ (e : Env) (c : Controller) where
  -- `onMaintenanceUpdated`
  unfoldable pub on_maintenance_updated : Maintenance → M (Option ReconcileResult)
  unfolding spec_complaint
  on_maintenance_updated mt = do
    now ← Clients.now e
    if finished mt
        then pure none
        else if not (can_be_scheduled_in mt c.job_namespace)
        then pure none
        else if not (admitted mt)
        then (do
          Clients.event e mt.meta.name normal "NotAdmitted" "will not be scheduled until admitted"
          pure (next add))
        else if expired mt now
        then pure none
        else elim (spec_complaint e mt) [
          | some (reason, message) ↦ do
            Clients.event e mt.meta.name normal reason message
            pure none
          | none ↦ do
            x ← enqueue_maintenance e mt.meta.name c.config.schedule.poll_interval
            elim x [
              | some x' ↦ do
                Clients.event e mt.meta.name normal "EnqueueFailed"
                    "unable to schedule this maintenance"
                pure (failed_with x')
              | none ↦ do
                Clients.event e mt.meta.name normal "Enqueued"
                    "schedule of the maintenance has been planned"
                pure none
            ]
        ]

  abbrev delete_now : Maintenance → M (Option ReconcileResult)
  delete_now mt = do
    x ← Clients.delete_mt e mt.meta.name
    pure (elim x [ none ↦ none | some x' ↦ failed_with x' ])

  -- `onMaintenanceDeleting`
  unfoldable pub on_maintenance_deleting : Maintenance → M (Option ReconcileResult)
  on_maintenance_deleting mt =
      if not (can_be_scheduled_in mt c.job_namespace)
      then pure none
      else if scheduled mt && not (finished mt)
      then (do
        Clients.event e mt.meta.name warning "DeletionNotAllowed"
            "unable to delete maintenance under execution"
        pure none)
      else if admitted mt && not (scheduled mt)
      then (do Clients.queue_remove e mt_queue mt.meta.name; delete_now mt)
      else delete_now mt

  -- `onMaintenanceDeleted` only logs
  unfoldable pub on_maintenance_deleted : Maintenance → M (Option ReconcileResult)
  on_maintenance_deleted mt =
      if not (can_be_scheduled_in mt c.job_namespace) then pure none else pure none
