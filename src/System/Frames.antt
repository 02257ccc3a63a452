-- ===== src/System/Frames.antt =====
-- Which parts of the controller leave the Maintenance objects alone, which the MaintenanceJob
-- objects, and which both: the cached objects and the statuses that were submitted.
pub mod Nodes
pub mod Snapshot
pub mod Maintenances
pub mod Jobs
use vihara.Prelude.{◌≡◌, refl, ◌∙◌}
use vihara.Env.{State}
use vihara.Env.Trace.{mt_updates, mt_job_updates}

abbrev pub SameMts : State → State → Type 0
SameMts s s' = (mt_updates s'.history ≡ mt_updates s.history) × (s'.mt_cache ≡ s.mt_cache)

abbrev pub SameMtJobs : State → State → Type 0
SameMtJobs s s' =
    (mt_job_updates s'.history ≡ mt_job_updates s.history) × (s'.mt_job_cache ≡ s.mt_job_cache)

abbrev pub Untouched : State → State → Type 0
Untouched s s' = SameMts s s' × SameMtJobs s s'

pub Untouched-refl : (s : State) → Untouched s s
Untouched-refl s = ((refl, refl), (refl, refl))

pub Untouched-trans : (s t u : State) → Untouched s t → Untouched t u → Untouched s u
Untouched-trans s t u ((a, b), (c, d)) ((a', b'), (c', d')) = ((a' ∙ a, b' ∙ b), (c' ∙ c, d' ∙ d))
