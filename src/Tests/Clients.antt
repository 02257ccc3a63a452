-- ===== src/Tests/Clients.antt =====
-- The generated clients on concrete arguments.
use vihara.Prelude.{◌≡◌, refl, false, some, [], ◌∷◌, pos, negsuc, arith}
use vihara.Clientset.{Options, ListOptions, list_timeout}
use vihara.Clientset.MtJobs
use vihara.Clientset.FakeMtJobs
use vihara.Clientset.Parity.{of_request, of_action, mt_job_requests-FakeMtJobs}
use vihara.Clientset.Timeout.{list_timeout_exact}
use vihara.Tests.World.{job_of, drain_stage}

abbrev options : Options
options = record { text = "" }

-- a listing that waits for 10^10 seconds
abbrev patient : ListOptions
patient = record {
  timeout_seconds = some (pos 10_000_000_000);
  watch = false;
  label_selector = "";
  options = options;
}

list_timeout_exact_example : list_timeout patient ≡ negsuc 8_446_744_073_709_551_615
list_timeout_exact_example = list_timeout_exact patient 10_000_000_000 refl (omega arith)

mt_job_requests-FakeMtJobs_example :
    (of_request (MtJobs.get_request "vihara" "a" options)
      ≡ of_action (λ job. job.meta.name) (FakeMtJobs.get_action "vihara" "a" options))
    × (of_request (MtJobs.list_request "vihara" patient)
        ≡ of_action (λ job. job.meta.name) (FakeMtJobs.list_action "vihara" patient))
    × (of_request (MtJobs.watch_request "vihara" patient)
        ≡ of_action (λ job. job.meta.name) (FakeMtJobs.watch_action "vihara" patient))
    × (of_request (MtJobs.create_request "vihara" (job_of (drain_stage ∷ []) []) options)
        ≡ of_action
            (λ job. job.meta.name)
            (FakeMtJobs.create_action "vihara" (job_of (drain_stage ∷ []) []) options))
    × (of_request (MtJobs.update_request "vihara" (job_of (drain_stage ∷ []) []) options)
        ≡ of_action
            (λ job. job.meta.name)
            (FakeMtJobs.update_action "vihara" (job_of (drain_stage ∷ []) []) options))
    × (of_request (MtJobs.update_status_request "vihara" (job_of (drain_stage ∷ []) []) options)
        ≡ of_action
            (λ job. job.meta.name)
            (FakeMtJobs.update_status_action "vihara" (job_of (drain_stage ∷ []) []) options))
    × (of_request (MtJobs.delete_request "vihara" "a" options)
        ≡ of_action (λ job. job.meta.name) (FakeMtJobs.delete_action "vihara" "a" options))
    × (of_request (MtJobs.delete_collection_request "vihara" options patient)
        ≡ of_action
            (λ job. job.meta.name)
            (FakeMtJobs.delete_collection_action "vihara" options patient))
    × (of_request (MtJobs.patch_request "vihara" "a" "merge" "{}" options ("status" ∷ []))
        ≡ of_action
            (λ job. job.meta.name)
            (FakeMtJobs.patch_action "vihara" "a" "merge" "{}" options ("status" ∷ [])))
mt_job_requests-FakeMtJobs_example =
    mt_job_requests-FakeMtJobs "vihara" "a" "merge" "{}" (job_of (drain_stage ∷ []) []) options
      patient ("status" ∷ []) refl
