-- ===== src/Controller/Phases/Enqueuing.antt =====
-- What `enqueueMaintenanceForScheduling` puts into the queue, and when it fails.
use vihara.Prelude.{
  String, ◌≡◌, true, false, none, some, ◌∷◌, lookup, lookup-insert, eq_refl, arith, if◌then◌else◌,
}
use vihara.Api.{Time, Duration, Maintenance, canceled, finished, started, expired}
use vihara.Env.{Call, History, Env, State, Error, panicked, err, mt_queue, ◌>>=◌, pure}
use vihara.Env.Clients.{
  now, update_mt_status, write_mt, queue_find, offer_with_delay, offer_with_time,
}
use vihara.Env.Trace.{mt_updates, offers, Due}
use vihara.Controller.Phases.{with_finish, enqueue_maintenance}

module _ (e : Env) (name : String) (delay : Duration) (mt : Maintenance) (s : State) where
  pub offers-enqueue_maintenance :
      {since : Time}
      → e.cache_error s.history name ≡ none
      → lookup name s.mt_cache ≡ some mt
      → canceled mt ≡ false
      → finished mt ≡ false
      → expired mt (e.now s.history) ≡ false
      → mt.status.admitted.schedule_since ≡ some since
      → let s' = (enqueue_maintenance e name delay s).1 in
        (offers s'.history ≡ (
          if e.queue_find (now e s).1.history mt_queue mt.meta.name
          then offers s.history
          else (
            mt_queue,
            mt.meta.name,
            (if started mt (e.now s.history) then Due.after delay else Due.at since),
          )
            ∷ offers s.history))
        × (mt_updates s'.history ≡ mt_updates s.history)
  unfolding enqueue_maintenance ◌>>=◌ pure now queue_find offer_with_delay offer_with_time started
  offers-enqueue_maintenance readable cached live running valid since = ground arith

  -- An expired object that is not finished and whose finish the API server refuses to store ends
  -- the program, if the queue has no entry with the empty name: the client's result is an empty
  -- object, and its missing schedule is read. The cache says that the object is finished.
  pub enqueue_maintenance_refused :
      {x : Error}
      → e.cache_error s.history name ≡ none
      → lookup name s.mt_cache ≡ some mt
      → canceled mt ≡ false
      → finished mt ≡ false
      → expired mt (e.now s.history) ≡ true
      → e.put_mt_status (now e (now e s).1).1.history (with_finish e mt (e.now (now e s).1.history))
        ≡ err x
      → ((h : History) → e.queue_find h mt_queue "" ≡ false)
      → let at = e.now (now e s).1.history in
        ((enqueue_maintenance e name delay s).0 ≡ panicked)
        × (lookup name (enqueue_maintenance e name delay s).1.mt_cache ≡ some (with_finish e mt at))
  unfolding enqueue_maintenance ◌>>=◌ pure now queue_find update_mt_status write_mt started
  enqueue_maintenance_refused readable cached live running over refused absent =
      let done = with_finish e mt (e.now (now e s).1.history) in
      let h = (now e (now e s).1).1.history in
      ground (
        arith,
        absent (Call.update_mt done ∷ h),
        lookup-insert name name done s.mt_cache,
        eq_refl name,
      )
