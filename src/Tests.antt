-- ===== src/Tests.antt =====
-- Runs of the model on concrete objects.
mod World
mod Maintenances
mod Scheduling
mod Jobs
mod Passes
mod Reached
mod Progress
mod Commands
mod Clients
mod Nodes
mod Generation
