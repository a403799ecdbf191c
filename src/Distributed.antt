-- ===== src/Distributed.antt =====
-- workflow/distributed_state.go: the operations that the local engine and the control plane share.
pub mod Start
pub mod Settle
pub mod Skip
pub mod Retry
pub mod Results
pub mod Cancel
pub mod Traces
pub mod Operation
pub mod Once
pub mod Stopped
pub mod Canceled
pub mod Fuel
pub mod Intervals
pub mod Completion
