-- ===== src/Examples.antt =====
-- A workflow of two tasks, `fetch` and then `store`, and what the theorems say of its runs.
pub mod Codec
pub mod Runs
pub mod Witnesses
pub mod Late
pub mod Retries
pub mod Endings
pub mod Control
pub mod Outcomes
pub mod Arrivals
pub mod Leases
pub mod Workers
pub mod Commits
pub mod Renewals
