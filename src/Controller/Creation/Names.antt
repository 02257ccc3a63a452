-- ===== src/Controller/Creation/Names.antt =====
-- The names that new jobs get.
use vihara.Prelude.{
  ℕ, zero, suc, ◌+◌, ◌≡◌, refl, ◌∙◌, ◌⊎◌, inl, inr, String, true, false, Bool-cases, Option, none,
  some, List, [], ◌∷◌, All, arith, ◌==◌,
}
use vihara.Api.{MaintenanceJob}
use vihara.Env.{Error, Env, State, returned, Result-cases, ok, err, ◌>>=◌, pure}
use vihara.Controller.JobCache.{cached_mt_job, get_mt_job_from_cache}
use vihara.Controller.Creation.{candidate, free_name, create_jobs}

module _ (e : Env) (job : MaintenanceJob) where
  -- The cache has a job of another machine under the key of a name.
  abbrev pub IsTaken : State → String → Type 0
  IsTaken s name =
      (old : MaintenanceJob) × (cached_mt_job e s job.meta.namespace name ≡ ok old)
      × ((old.spec.machine_id == job.spec.machine_id) ≡ false)

  -- What the loop returned means: the name is not one that the cache was seen to have, or all the
  -- rounds were used up by jobs of other machines; and with no name, the cache has a job of this
  -- machine.
  abbrev pub Chosen : State → Option String → Type 0
  Chosen s (some name) =
      ((x : Error) × (cached_mt_job e s job.meta.namespace name ≡ err x)) ⊎ IsTaken s name
  Chosen s none =
      (name : String) × (old : MaintenanceJob) × (cached_mt_job e s job.meta.namespace name
        ≡ ok old)
      × ((old.spec.machine_id == job.spec.machine_id) ≡ true)

  pub free_name_of_err :
      (rounds i : ℕ) (name : String) (s : State) {x : Error}
      → cached_mt_job e s job.meta.namespace (candidate job.meta.name i name) ≡ err x
      → free_name e job (suc rounds) i name s
        ≡ (returned (some (candidate job.meta.name i name)), s)
  unfolding free_name get_mt_job_from_cache ◌>>=◌ pure
  free_name_of_err rounds i name s missing = rw (missing, free_name)

  pub free_name_of_same :
      (rounds i : ℕ) (name : String) (s : State) {old : MaintenanceJob}
      → cached_mt_job e s job.meta.namespace (candidate job.meta.name i name) ≡ ok old
      → (old.spec.machine_id == job.spec.machine_id) ≡ true
      → free_name e job (suc rounds) i name s ≡ (returned none, s)
  unfolding free_name get_mt_job_from_cache ◌>>=◌ pure
  free_name_of_same rounds i name s there same = ground arith

  pub free_name_of_other :
      (rounds i : ℕ) (name : String) (s : State) {old : MaintenanceJob}
      → cached_mt_job e s job.meta.namespace (candidate job.meta.name i name) ≡ ok old
      → (old.spec.machine_id == job.spec.machine_id) ≡ false
      → free_name e job (suc rounds) i name s
        ≡ free_name e job rounds (i + 1) (candidate job.meta.name i name) s
  unfolding free_name get_mt_job_from_cache ◌>>=◌ pure
  free_name_of_other rounds i name s there other = ground arith

  free_name_step :
      (rounds i : ℕ) (name : String) (s : State)
      → let c = candidate job.meta.name i name in
        ((r : Option String) × (free_name e job rounds (i + 1) c s ≡ (returned r, s))
          × (IsTaken s c → Chosen s r))
        → (r : Option String) × (free_name e job (suc rounds) i name s ≡ (returned r, s))
          × Chosen s r
  free_name_step rounds i name s (r, rest, chosen) =
      let c = candidate job.meta.name i name in
      elim (Result-cases (cached_mt_job e s job.meta.namespace c)) [
        | inl (x, missing) ↦ (some c, free_name_of_err rounds i name s missing, inl (x, missing))
        | inr (old, there) ↦ elim (Bool-cases (old.spec.machine_id == job.spec.machine_id)) [
          | inl same ↦ (none, free_name_of_same rounds i name s there same, (c, old, there, same))
          | inr other ↦
              (r, free_name_of_other rounds i name s there other ∙ rest, chosen (old, there, other))
        ]
      ]

  pub free_name_zero :
      (i : ℕ) (name : String) (s : State) → free_name e job 0 i name s ≡ (returned (some name), s)
  unfolding free_name pure
  free_name_zero i name s = refl

  -- The search for a name ends, changes nothing, and gives a name that the cache does not have, or
  -- stops at a job of the same machine that the cache has; only if all its rounds meet jobs of other
  -- machines does it give a name that is taken by one of these.
  pub free_name-Chosen :
      (rounds i : ℕ) (name : String) (s : State)
      → (r : Option String) × (free_name e job (suc rounds) i name s ≡ (returned r, s)) × Chosen s r
  free_name-Chosen zero i name s =
      let c = candidate job.meta.name i name in
      free_name_step 0 i name s (some c, free_name_zero (i + 1) c s, λ taken. inr taken)
  free_name-Chosen (suc rounds) i name s =
      let (r, rest, chosen) = free_name-Chosen rounds (i + 1) (candidate job.meta.name i name) s in
      free_name_step (suc rounds) i name s (r, rest, λ _. chosen)

module _ (e : Env) where
  -- The cache has a job of the same machine under the name of a job.
  abbrev pub IsCreated : State → MaintenanceJob → Type 0
  IsCreated s job =
      (old : MaintenanceJob) × (cached_mt_job e s job.meta.namespace job.meta.name ≡ ok old)
      × ((old.spec.machine_id == job.spec.machine_id) ≡ true)

  -- Jobs whose names the cache has, for the same machines, are not created again: the loop makes no
  -- call.
  create_jobs_of_created :
      (rounds : ℕ) (jobs : List MaintenanceJob) (s : State)
      → All (IsCreated s) jobs
      → create_jobs e (suc rounds) jobs s ≡ (returned tt, s)
  unfolding create_jobs ◌>>=◌ pure
  create_jobs_of_created rounds [] s _ = refl
  create_jobs_of_created rounds (job ∷ jobs) s ((old, there, same), created) =
      rw (free_name_of_same e job rounds 1 job.meta.name s there same)
        (create_jobs_of_created rounds jobs s created)
