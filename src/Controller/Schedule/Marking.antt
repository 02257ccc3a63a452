-- ===== src/Controller/Schedule/Marking.antt =====
-- How `scheduleMaintenance` marks an object as scheduled.
use vihara.Prelude.{String, ◌≡◌, false, some, arith, eqb_ℤ, lookup, lookup-insert, eq_refl}
use vihara.Api.{Maintenance, scheduled, zero_time}
use vihara.Env.{Error, Env, State, returned, ok, err, ◌>>=◌, pure}
use vihara.Env.Clients.{now, update_mt_status, write_mt}
use vihara.Controller.Schedule.{mark_scheduled, with_schedule, go}

module _ (e : Env) (name : String) (mt : Maintenance) (s : State) where
  -- If the API server refuses the status of the first scheduling of an object, the cache's object
  -- says that it is scheduled all the same; so a second pass over the cached object goes on to its
  -- jobs without a status that the server has accepted, and submits none.
  pub mark_scheduled_refused :
      {x : Error} {json : String}
      → scheduled mt ≡ false
      → e.marshal_spec mt.spec ≡ ok json
      → eqb_ℤ (e.now s.history) zero_time ≡ false
      → e.put_mt_status (now e s).1.history (with_schedule e mt (e.now s.history) json) ≡ err x
      → let marked = with_schedule e mt (e.now s.history) json in
        let s' = (mark_scheduled e name mt s).1 in
        (lookup name s'.mt_cache ≡ some marked)
        × (mark_scheduled e name marked s' ≡ (returned (go marked), s'))
  unfolding mark_scheduled ◌>>=◌ pure now update_mt_status write_mt scheduled
  mark_scheduled_refused {json = json} fresh encoded clock refused = ground (
    arith,
    lookup-insert name name (with_schedule e mt (e.now s.history) json) s.mt_cache,
    eq_refl name,
  )
