-- ===== src/Controller/Stages/Completion.antt =====
-- What a pass of `scheduleMaintenanceJob` does with a job that is complete.
use vihara.Prelude.{
  ℕ, suc, ◌+◌, ◌≡◌, ◌∙◌, refl, true, some, List, [], ◌∷◌, ◌++◌, All, length, get_elem?, arith,
}
use vihara.Api.{MaintenanceJob, MaintenanceJobStageStatus, job_succeeded}
use vihara.Env.{History, Env, State, ok, ◌>>=◌, pure, deref}
use vihara.Env.Clients.{update_mt_job_status, write_mt_job}
use vihara.Env.Trace.{mt_job_updates}
use vihara.Controller.Stages.{Handle, fresh, submit, pass_stage, stage_round, run_stages}
use vihara.Controller.Stages.Order.{IsPassed}

abbrev pub with_success : MaintenanceJob → MaintenanceJobStageStatus → MaintenanceJob
with_success job s = record job { status = record (job.status) { succeeded_at = s.finished_at } }

succeeded-with_success :
    (job : MaintenanceJob) (s : MaintenanceJobStageStatus)
    → job_succeeded (with_success job s) ≡ job_succeeded job
unfolding job_succeeded
succeeded-with_success job s = refl

module _ (e : Env)
    (accepts : (q : History) (job : MaintenanceJob) → e.put_mt_job_status q job ≡ ok job) where
  run_stages_of_complete :
      (h : Handle) (s : MaintenanceJobStageStatus) (rest : List MaintenanceJobStageStatus) (i : ℕ)
      (t : State)
      → job_succeeded h.job ≡ some true
      → IsPassed s
      → (t' : State) × (run_stages e h i (s ∷ rest) t
          ≡ run_stages e (fresh (with_success h.job s)) (i + 1) rest t')
        × (mt_job_updates t'.history ≡ with_success h.job s ∷ mt_job_updates t.history)
  unfolding run_stages stage_round pass_stage ◌>>=◌ pure deref update_mt_job_status write_mt_job
  run_stages_of_complete h s rest i t complete (sound, passed, timed) =
      let t' = (submit e h (with_success h.job s) t).1 in
      (t', ground (arith, accepts t.history (with_success h.job s)), ground arith)

  -- A pass over a job that is complete, with all its stages succeeded, submits one status for each
  -- of them, and the latest of these says that the job succeeded when its last stage finished, if the
  -- API server stores every status as it is submitted.
  pub run_stages_completes :
      (done : List MaintenanceJobStageStatus) (last : MaintenanceJobStageStatus) (h : Handle)
      (i : ℕ) (t : State)
      → job_succeeded h.job ≡ some true
      → All IsPassed done
      → IsPassed last
      → (length (mt_job_updates (run_stages e h i (done ++ last ∷ []) t).1.history)
          ≡ suc (length done) + length (mt_job_updates t.history))
        × (get_elem? (mt_job_updates (run_stages e h i (done ++ last ∷ []) t).1.history) 0
            ≡ some (with_success h.job last))
  unfolding run_stages pure
  run_stages_completes [] last h i t complete passed last_passed =
      let (t', same, grown) = run_stages_of_complete h last [] i t complete last_passed in
      ground (arith, same, grown)
  run_stages_completes (s ∷ done) last h i t complete (p, passed) last_passed =
      let (t', same, grown) = run_stages_of_complete h s (done ++ last ∷ []) i t complete p in
      let h' = fresh (with_success h.job s) in
      let rest =
        run_stages_completes done last h' (i + 1) t' (succeeded-with_success h.job s ∙ complete)
          passed last_passed in
      rw same (ground (arith, rest, grown))
