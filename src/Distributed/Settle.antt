-- ===== src/Distributed/Settle.antt =====
-- The active attempt of a task, and the end of a run once all its tasks have ended
-- (workflow/distributed_state.go, workflow/engine.go).
use ai_workload_platform.Common.{
  ◌==◌, if◌then◌else◌, get_elem?, last?, index_out_of_range, mixed_terminal, Result, ok, err,
  or_fail, ◌>>=◌, ℕ, Bool, true, false, ◌&&◌, ◌||◌, Option, none, some, List, [], ◌∷◌,
}
use ai_workload_platform.Model.{
  WorkflowStatus, TaskStatus, AttemptStatus, ExecutionResult, Attempt, TaskRun, RunSnapshot,
}
use ai_workload_platform.State.{is_task_terminal, transition_workflow}

abbrev pub is_task_running : TaskStatus → Bool
is_task_running TaskStatus.running = true
is_task_running _ = false

abbrev pub is_task_succeeded : TaskStatus → Bool
is_task_succeeded TaskStatus.succeeded = true
is_task_succeeded _ = false

abbrev is_task_failed : TaskStatus → Bool
is_task_failed TaskStatus.failed = true
is_task_failed _ = false

abbrev pub is_attempt_running : AttemptStatus → Bool
is_attempt_running AttemptStatus.running = true
is_attempt_running _ = false

abbrev pub set_result : ExecutionResult → Attempt → Attempt
set_result result attempt = record attempt { result = result }

-- `ok none` stands for the `false` that tells of a late or repeated report.
unfoldable pub active_attempt : RunSnapshot → ℕ → ℕ → Result (Option (TaskRun × Attempt))
active_attempt s i number = do
  task ← or_fail (get_elem? s.run.tasks i) index_out_of_range
  ok (elim (last? task.attempts) [
    | none ↦ none
    | some attempt ↦
        if is_task_running task.status
          && (attempt.number == number && is_attempt_running attempt.status)
        then some (task, attempt)
        else none
  ])

unfoldable pub has_failed_task : List TaskRun → Bool
has_failed_task [] = false
has_failed_task (task ∷ tasks) = is_task_failed task.status || has_failed_task tasks

unfoldable pub all_tasks_succeeded : List TaskRun → Bool
all_tasks_succeeded [] = true
all_tasks_succeeded (task ∷ tasks) = is_task_succeeded task.status && all_tasks_succeeded tasks

unfoldable pub all_tasks_terminal : List TaskRun → Bool
all_tasks_terminal [] = true
all_tasks_terminal (task ∷ tasks) = is_task_terminal task.status && all_tasks_terminal tasks

unfoldable pub settle_workflow_if_complete : RunSnapshot → ℕ → Result RunSnapshot
settle_workflow_if_complete s at =
    if all_tasks_terminal s.run.tasks
    then (if has_failed_task s.run.tasks
        then transition_workflow s WorkflowStatus.failed at "one or more tasks failed"
        else if all_tasks_succeeded s.run.tasks
        then transition_workflow s WorkflowStatus.succeeded at "all tasks succeeded"
        else err mixed_terminal)
    else ok s
