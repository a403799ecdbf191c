-- ===== src/Distributed/Start.antt =====
-- Queueing, returning and claiming a task (workflow/distributed_state.go).
use ai_workload_platform.Common.{
  ltb, if◌then◌else◌, length, get_elem?, index_out_of_range, workflow_not_running, ids_required,
  identity_mismatch, Result, ok, or_fail, guard, ◌>>=◌, ◌>>◌, ℕ, ◌+◌, String, Bool, true, false,
  not, ◌||◌, none, [], ◌∷◌, ◌++◌, str_eq,
}
use ai_workload_platform.Model.{
  WorkflowStatus, TaskStatus, AttemptStatus, TaskDefinition, CompiledWorkflow, ExecutionRequest,
  ExecutionResult, Attempt, TaskRun, RunSnapshot,
}
use ai_workload_platform.Model.Input.{Value}
use ai_workload_platform.State.{transition_workflow, modify_task, transition_task}

abbrev pub is_pending : WorkflowStatus → Bool
is_pending WorkflowStatus.pending = true
is_pending _ = false

abbrev pub is_running : WorkflowStatus → Bool
is_running WorkflowStatus.running = true
is_running _ = false

abbrev pub in_range : RunSnapshot → ℕ → Bool
in_range s i = ltb i (length s.run.tasks)

-- The run is started by the first task that is queued.
unfoldable pub start_if_pending : RunSnapshot → ℕ → Result RunSnapshot
start_if_pending s at =
    if is_pending s.run.status
    then transition_workflow s WorkflowStatus.running at "distributed execution started"
    else ok s

unfoldable pub queue_task : RunSnapshot → ℕ → ℕ → Result RunSnapshot
unfolding start_if_pending
queue_task s i at = do
  guard (in_range s i) index_out_of_range
  started ← start_if_pending s at
  guard (is_running started.run.status) workflow_not_running
  transition_task started i TaskStatus.queued at "dispatch created"

unfoldable pub return_queued_task_to_ready : RunSnapshot → ℕ → ℕ → String → Result RunSnapshot
return_queued_task_to_ready s i at reason = do
  guard (in_range s i) index_out_of_range
  transition_task s i TaskStatus.ready at reason

abbrev no_result : ExecutionResult
no_result = record { output = ""; error_code = ""; error_message = "" }

-- The attempt that a start appends: its number follows the history.
abbrev pub new_attempt : TaskRun → String → String → ℕ → Attempt
new_attempt task worker_id dispatch_id at = record {
  number = length task.attempts + 1;
  status = AttemptStatus.running;
  worker_id = worker_id;
  dispatch_id = dispatch_id;
  started_at = at;
  finished_at = none;
  result = no_result;
}

abbrev pub append_attempt : Attempt → TaskRun → TaskRun
append_attempt attempt task = record task { attempts = task.attempts ++ attempt ∷ [] }

-- `clone` is the JSON round trip of `cloneTaskInput`, whose codec is Go's standard library.
module _ (clone : Value → Value) where
  abbrev pub request_for : RunSnapshot → TaskDefinition → ℕ → ExecutionRequest
  request_for s definition number = record {
    definition_id = s.run.definition_id;
    run_id = s.run.id;
    task_key = definition.key;
    action = definition.action;
    input = clone definition.input;
    attempt = number;
  }

  unfoldable pub start_queued_attempt :
      RunSnapshot
      → CompiledWorkflow
      → ℕ
      → ℕ
      → String
      → String
      → Result (RunSnapshot × ExecutionRequest)
  start_queued_attempt s compiled i at worker_id dispatch_id = do
    task ← or_fail (get_elem? s.run.tasks i) index_out_of_range
    definition ← or_fail (get_elem? compiled.definition.tasks i) index_out_of_range
    guard (not (str_eq worker_id "" || str_eq dispatch_id "")) ids_required
    guard (str_eq task.key definition.key) identity_mismatch
    claimed ← transition_task s i TaskStatus.running at "lease claimed"
    let attempt = new_attempt task worker_id dispatch_id at
    ok (
      modify_task claimed i (append_attempt attempt),
      request_for claimed definition attempt.number,
    )
