-- ===== src/Tests.antt =====
-- Runs of the model, and the theorems at concrete inputs.
mod Cluster
mod Engine
mod Verdicts
mod Objects
mod Mutations
mod Contracts
mod Commands
mod Snapshots
mod Reader
mod Directory
mod Scenarios
