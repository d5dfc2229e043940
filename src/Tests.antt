-- ===== src/Tests.antt =====
-- Runs of the code at fixed inputs, and the theorems at inputs that meet their hypotheses.
pub mod Data
mod Strings
mod Forwarding
mod Registry
mod Rounds
mod Agreement
mod Wire
mod Weights
mod Locking
mod Clusters
pub mod Paths
mod Starting
mod Queries
mod Least
