-- ===== src/Distributed/Cancel.antt =====
-- The cancellation of a run (workflow/distributed_state.go).
use ai_workload_platform.Common.{
  if◌then◌else◌, length, last?, Result, ok, ◌>>=◌, ℕ, zero, suc, Bool, false, ◌&&◌, none, some,
}
use ai_workload_platform.Distributed.Settle.{is_task_running, is_attempt_running, set_result}
use ai_workload_platform.Model.{
  WorkflowStatus, TaskStatus, AttemptStatus, ExecutionResult, TaskRun, RunSnapshot,
}
use ai_workload_platform.State.{
  is_task_terminal, transition_workflow, modify_task, task_at, transition_task, modify_last_attempt,
  transition_attempt,
}

abbrev pub canceled_result : ExecutionResult
canceled_result = record {
  output = "";
  error_code = "canceled";
  error_message = "execution canceled";
}

abbrev pub has_running_attempt : TaskRun → Bool
has_running_attempt task = is_task_running task.status && elim (last? task.attempts) [
  | none ↦ false
  | some attempt ↦ is_attempt_running attempt.status
]

-- The attempt that a running task has is stopped first.
unfoldable pub stop_attempt : RunSnapshot → ℕ → TaskRun → ℕ → Result RunSnapshot
stop_attempt s i task at =
    if has_running_attempt task
    then transition_attempt (modify_task s i (modify_last_attempt (set_result canceled_result))) i
        AttemptStatus.canceled at "workflow canceled"
    else ok s

unfoldable pub cancel_open_task : RunSnapshot → ℕ → TaskRun → ℕ → Result RunSnapshot
unfolding stop_attempt
cancel_open_task s i task at = do
  stopped ← stop_attempt s i task at
  transition_task stopped i TaskStatus.canceled at "workflow canceled"

-- One turn of the loop of `CancelRunSnapshot`: a task that has ended is left alone.
unfoldable pub cancel_task : RunSnapshot → ℕ → ℕ → Result RunSnapshot
unfolding cancel_open_task
cancel_task s i at = do
  task ← task_at s i
  if is_task_terminal task.status then ok s else cancel_open_task s i task at

-- The tasks `i`, `i + 1`, ... up to `count` of them.
unfoldable pub cancel_tasks : ℕ → ℕ → RunSnapshot → ℕ → Result RunSnapshot
cancel_tasks zero i s at = ok s
cancel_tasks (suc count) i s at = do s' ← cancel_task s i at; cancel_tasks count (suc i) s' at

unfoldable pub cancel_run_snapshot : RunSnapshot → ℕ → Result RunSnapshot
unfolding cancel_tasks
cancel_run_snapshot s at = do
  canceled ← cancel_tasks (length s.run.tasks) 0 s at
  transition_workflow canceled WorkflowStatus.canceled at "cancellation requested"
