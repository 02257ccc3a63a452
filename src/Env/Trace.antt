-- ===== src/Env/Trace.antt =====
-- What the calls of a history changed outside, one projection for each kind of call, the latest
-- first. Properties speak of these.
use vihara.Prelude.{String, List, [], ◌∷◌}
use vihara.Api.{Time, Duration, Job, Maintenance, MaintenanceJob}
use vihara.Env.{Call, Queue, History}

-- the Maintenance objects whose status was submitted
abbrev pub mt_updates : History → List Maintenance
mt_updates [] = []
mt_updates (Call.update_mt mt ∷ calls) = mt ∷ mt_updates calls
mt_updates (_ ∷ calls) = mt_updates calls

-- the names of the Maintenance objects that were deleted
abbrev pub deletions : History → List String
deletions [] = []
deletions (Call.delete_mt name ∷ calls) = name ∷ deletions calls
deletions (_ ∷ calls) = deletions calls

-- the MaintenanceJob objects whose status was submitted
abbrev pub mt_job_updates : History → List MaintenanceJob
mt_job_updates [] = []
mt_job_updates (Call.update_mt_job job ∷ calls) = job ∷ mt_job_updates calls
mt_job_updates (_ ∷ calls) = mt_job_updates calls

-- the MaintenanceJob objects that were submitted for creation
abbrev pub mt_job_creations : History → List MaintenanceJob
mt_job_creations [] = []
mt_job_creations (Call.create_mt_job job ∷ calls) = job ∷ mt_job_creations calls
mt_job_creations (_ ∷ calls) = mt_job_creations calls

-- the Kubernetes jobs that were submitted for creation
abbrev pub job_creations : History → List Job
job_creations [] = []
job_creations (Call.create_job job ∷ calls) = job ∷ job_creations calls
job_creations (_ ∷ calls) = job_creations calls

-- the nodes that were patched, with the patches
abbrev pub patches : History → List (String × String)
patches [] = []
patches (Call.patch_node name patch ∷ calls) = (name, patch) ∷ patches calls
patches (_ ∷ calls) = patches calls

-- When an entry of a queue is due.
pub data Due : Type 0 where
  after : Duration → Due
  at : Time → Due

-- the entries that were offered to a queue
abbrev pub offers : History → List (Queue × String × Due)
offers [] = []
offers (Call.offer_with_delay q key delay ∷ calls) = (q, key, after delay) ∷ offers calls
offers (Call.offer_with_time q key time ∷ calls) = (q, key, at time) ∷ offers calls
offers (_ ∷ calls) = offers calls

-- the entries that were taken out of a queue
abbrev pub removals : History → List (Queue × String)
removals [] = []
removals (Call.queue_remove q key ∷ calls) = (q, key) ∷ removals calls
removals (_ ∷ calls) = removals calls
