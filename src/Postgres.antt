-- ===== src/Postgres.antt =====
-- internal/postgres: the control plane, whose methods are transactions on the tables of a database.
pub mod Query
pub mod Tables
pub mod Runs
pub mod Changes
pub mod Workers
pub mod Claim
pub mod Report
pub mod Heartbeat
pub mod Reap
pub mod Capacity
pub mod Schedule
pub mod Dispatching
pub mod Replay
pub mod Catalog
pub mod NewRuns
pub mod Commits
pub mod Advances
pub mod Sound
pub mod Accepted
pub mod Fencing
pub mod Sessions
pub mod Limits
pub mod Repeated
pub mod Registration
pub mod Renewed
