-- ===== src/Tests.antt =====
-- Runs of the program on small inputs, with crates and an outside made for them.
pub mod Crates
pub mod Outside
pub mod Addresses
pub mod Extraction
pub mod Policies
pub mod Cluster
pub mod Interleaved
pub mod Raced
pub mod Reconciling
pub mod Reporting
pub mod Settling
pub mod Statuses
pub mod Runtime
pub mod Succeeding
pub mod Calls
pub mod Starting
pub mod Again
pub mod Unit
