-- ===== src/Controller.antt =====
-- The maintenance controller (pkg/controller/maintenance).
pub mod NodeEnv
pub mod Merge
pub mod Generate
pub mod Reconcile
pub mod Phases
pub mod JobCache
pub mod Dependencies
pub mod Creation
pub mod Schedule
pub mod Nodes
pub mod Stages
pub mod JobEvents
pub mod Process
pub mod Events
