-- ===== src/System.antt =====
-- The controller as a whole: what it does from its start on, with an API server and informers
-- around it. `Lifecycle` is the abstract machine of a Maintenance's status; `Reachable` has the
-- states of the controller.
pub mod Lifecycle
pub mod Frames
pub mod Reachable
pub mod Statuses
pub mod JobStatuses
pub mod Invariants
pub mod Progress
pub mod Phases
