-- ===== src/Engine.antt =====
-- workflow/engine.go and `Resume` of workflow/recovery.go: the local engine, which runs one run in a
-- loop over the messages that it receives.
pub mod Storage
pub mod Messages
pub mod Loop
pub mod Registry
pub mod Execution
pub mod Runs
