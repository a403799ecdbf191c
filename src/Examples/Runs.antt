-- ===== src/Examples/Runs.antt =====
-- A workflow of two tasks, `fetch` and then `store`, and runs of it.
use ai_workload_platform.Common.{pos, Result, ok, ℕ, String, Option, none, some, List, [], ◌∷◌}
use ai_workload_platform.Change.{ChangeSet}
use ai_workload_platform.Model.{
  WorkflowStatus, TaskStatus, AttemptStatus, ResultKind, RetryPolicy, TaskDefinition,
  WorkflowDefinition, CompiledWorkflow, ExecutionResponse, Attempt, TaskRun, WorkflowRun,
  RunSnapshot,
}
use ai_workload_platform.Model.Input.{Value}

abbrev pub retry_once : RetryPolicy
retry_once = record { max_attempts = pos 2; interval_millis = pos 10 }

abbrev pub fetch_definition : TaskDefinition
fetch_definition = record {
  key = "fetch";
  executor = "mock";
  action = "get";
  input = Value.null;
  depends_on = [];
  retry = retry_once;
  timeout_millis = pos 0;
}

abbrev pub store_definition : TaskDefinition
store_definition = record {
  key = "store";
  executor = "mock";
  action = "put";
  input = Value.null;
  depends_on = "fetch" ∷ [];
  retry = retry_once;
  timeout_millis = pos 0;
}

abbrev pub two_steps : WorkflowDefinition
two_steps = record {
  id = "two_steps";
  concurrency = pos 1;
  tasks = fetch_definition ∷ store_definition ∷ [];
}

abbrev pub compiled_steps : CompiledWorkflow
compiled_steps = record {
  definition = two_steps;
  index = ("store", 1) ∷ ("fetch", 0) ∷ [];
  dependencies = [] ∷ (0 ∷ []) ∷ [];
  successors = (1 ∷ []) ∷ [] ∷ [];
}

abbrev pub task_of : String → TaskStatus → List Attempt → TaskRun
task_of key status attempts = record {
  key = key;
  status = status;
  attempts = attempts;
  ready_at = none;
  finished_at = none;
}

abbrev pub run_of : WorkflowStatus → ℕ → List TaskRun → WorkflowRun
run_of status revision tasks = record {
  id = "run";
  definition_id = "two_steps";
  definition_version = 1;
  status = status;
  revision = revision;
  last_event_sequence = 0;
  cancel_requested_at = none;
  tasks = tasks;
  remaining_dependencies = pos 0 ∷ pos 1 ∷ [];
  created_at = 100;
  started_at = none;
  finished_at = none;
}

abbrev pub snapshot_of : WorkflowRun → RunSnapshot
snapshot_of run = record { version = 2; definition = none; run = run; events = [] }

abbrev pub first_attempt : Attempt
first_attempt = record {
  number = 1;
  status = AttemptStatus.running;
  worker_id = "worker";
  dispatch_id = "dispatch";
  started_at = 110;
  finished_at = none;
  result = record { output = ""; error_code = ""; error_message = "" };
}

-- The first task has an attempt running.
abbrev pub fetching : RunSnapshot
fetching = snapshot_of (
    run_of WorkflowStatus.running 1 (
      task_of "fetch" TaskStatus.running (first_attempt ∷ [])
      ∷ task_of "store" TaskStatus.waiting_dependencies []
      ∷ []))

abbrev pub success_response : ExecutionResponse
success_response = record {
  kind = ResultKind.success;
  output = "data";
  error_code = "";
  error_message = "";
}

-- The snapshot after a call, or the one before where nothing changed.
abbrev pub after_call : RunSnapshot → Result (Option RunSnapshot) → RunSnapshot
after_call s (ok (some s')) = s'
after_call s _ = s

abbrev pub same_input : Value → Value
same_input v = v

-- A commit of the running example that changes nothing but the revision.
abbrev pub empty_commit : ChangeSet
empty_commit = record {
  run_id = "run";
  expected_revision = 1;
  run = some (record fetching.run { revision = 2; tasks = []; remaining_dependencies = [] });
  tasks = [];
  attempts = [];
  events = [];
}

abbrev pub next_revision_run : RunSnapshot
next_revision_run = record fetching { run = record fetching.run { revision = 2 } }
