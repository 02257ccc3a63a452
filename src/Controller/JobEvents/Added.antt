-- ===== src/Controller/JobEvents/Added.antt =====
-- What `onMaintenanceJobAdded` submits.
use vihara.Prelude.{
  inl, inr, ℕ, zero, suc, ◌+◌, ◌≤◌, ◌≡◌, refl, sym, ap, All, String, Bool, not, ◌&&◌, none,
  Bool-cases, false, some, List, [], ◌∷◌, ◌++◌, map, length, length-append, drop, ltb, arith,
  if◌then◌else◌,
}
use vihara.Api.{MaintenanceStage, MaintenanceJob, MaintenanceJobStageStatus, job_finished}
use vihara.Env.{Env, State, panicked, ◌>>=◌, pure, deref, panic}
use vihara.Env.Clients.{event, update_mt_job_status, offer_with_delay}
use vihara.Env.Trace.{mt_job_updates}
use vihara.Controller.JobCache.{get_mt_job_from_cache, enqueue_mt_job}
use vihara.Controller.Stages.{with_stages}
use vihara.Controller.JobEvents.{blank_status, fill_stages, enqueue_added, on_mt_job_added}

module _ {A B : Type 0} (f : A → B) where
  length-map : (xs : List A) → length (map f xs) ≡ length xs
  length-map [] = refl
  length-map (x ∷ xs) = ap suc (length-map xs)

module _ {A : Type 0} where
  length-drop_of_le : (n : ℕ) (xs : List A) → n ≤ length xs → n + length (drop n xs) ≡ length xs
  length-drop_of_le zero xs h = omega arith
  length-drop_of_le (suc n) [] h = omega arith
  length-drop_of_le (suc n) (x ∷ xs) h = omega (arith, length-drop_of_le n xs)

  drop-append : (xs ys : List A) → drop (length xs) (xs ++ ys) ≡ ys
  drop-append [] ys = refl
  drop-append (x ∷ xs) ys = drop-append xs ys

-- A stage that nothing has happened to.
abbrev pub IsBlank : MaintenanceJobStageStatus → Type 0
IsBlank st =
    (st.scheduled_at ≡ none)
    × (st.finished_at ≡ none)
    × (st.message ≡ "")
    × (st.reason ≡ "")
    × (st.running ≡ false)
    × (st.succeeded ≡ false)
    × (st.failed ≡ false)

blank_status-IsBlank : (specs : List MaintenanceStage) → All IsBlank (map blank_status specs)
blank_status-IsBlank [] = tt
blank_status-IsBlank (spec ∷ specs) =
    ((refl, refl, refl, refl, refl, refl, refl), blank_status-IsBlank specs)

blank_names :
    (specs : List MaintenanceStage)
    → map (λ st. st.name) (map blank_status specs) ≡ map (λ stage. stage.name) specs
blank_names [] = refl
blank_names (spec ∷ specs) = ap (λ (names : List String). spec.name ∷ names) (blank_names specs)

-- Where there are no more status stages than stages, filling gives one status for each stage; the
-- statuses that were there come first and unchanged, and the new ones are blank and have the names
-- of their stages.
fill_stages_lem :
    (stages : List MaintenanceJobStageStatus) (specs : List MaintenanceStage)
    → length stages ≤ length specs
    → (length (fill_stages stages specs) ≡ length specs)
      × (fill_stages stages specs ≡ stages ++ drop (length stages) (fill_stages stages specs))
      × (drop (length stages) (fill_stages stages specs)
          ≡ map blank_status (drop (length stages) specs))
unfolding fill_stages
fill_stages_lem stages specs h =
    let new = map blank_status (drop (length stages) specs) in
    (
      omega (
        arith,
        length-append {0} stages new,
        length-map blank_status (drop (length stages) specs),
        length-drop_of_le (length stages) specs h,
      ),
      ap (λ (t : List MaintenanceJobStageStatus). stages ++ t) (sym (drop-append stages new)),
      drop-append stages new,
    )

module _ (e : Env) (job : MaintenanceJob) (s : State) where
  -- the job has a last stage, and this is not over
  abbrev pub is_open : Bool
  is_open = elim (job_finished job) [ none ↦ false | some done ↦ not done ]

  updates-enqueue_added :
      (job' : MaintenanceJob) (t : State)
      → mt_job_updates (enqueue_added e job' t).1.history ≡ mt_job_updates t.history
  unfolding enqueue_added enqueue_mt_job get_mt_job_from_cache ◌>>=◌ pure offer_with_delay
  updates-enqueue_added job' t = ground arith

  updates_of_open :
      job_finished job ≡ some false
      → mt_job_updates (on_mt_job_added e job s).1.history ≡ (
          if ltb (length job.status.stages) (length job.spec.stages)
          then with_stages job (fill_stages job.status.stages job.spec.stages)
            ∷ mt_job_updates s.history
          else mt_job_updates s.history)
  unfolding on_mt_job_added ◌>>=◌ pure deref panic event update_mt_job_status
  updates_of_open open_job = grind (arith, updates-enqueue_added)

  updates_of_closed :
      is_open ≡ false
      → mt_job_updates (on_mt_job_added e job s).1.history ≡ mt_job_updates s.history
  unfolding on_mt_job_added ◌>>=◌ pure deref panic
  updates_of_closed closed = ground arith

  -- A status is submitted for an added job exactly if its last stage is not over and some stage
  -- of its specification has no status. It is the job's status, to which one blank status is added
  -- for each of these stages, of its name and in its order; the statuses that were there are not
  -- changed, and there is one for each stage then.
  pub updates-on_mt_job_added :
      let old = job.status.stages in
      let missing = drop (length old) job.spec.stages in
      (new : List MaintenanceJobStageStatus) × All IsBlank new
      × (map (λ st. st.name) new ≡ map (λ stage. stage.name) missing)
      × (mt_job_updates (on_mt_job_added e job s).1.history ≡ (
          if is_open && ltb (length old) (length job.spec.stages)
          then record job { status = record job.status { stages = old ++ new } }
            ∷ mt_job_updates s.history
          else mt_job_updates s.history))
  unfolding fill_stages
  updates-on_mt_job_added =
      let missing = drop (length job.status.stages) job.spec.stages in
      (
        map blank_status missing,
        blank_status-IsBlank missing,
        blank_names missing,
        elim (Bool-cases is_open) [
          | inl open_job ↦ ground (arith, updates_of_open)
          | inr closed ↦ ground (arith, updates_of_closed closed)
        ],
      )

  -- An added job with no stages ends the program.
  pub on_mt_job_added_panics :
      job.spec.stages ≡ [] → job.status.stages ≡ [] → (on_mt_job_added e job s).0 ≡ panicked
  unfolding on_mt_job_added job_finished ◌>>=◌ pure deref panic
  on_mt_job_added_panics no_spec no_status = ground arith
