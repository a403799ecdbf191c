-- ===== src/Examples/Outcomes.antt =====
-- The tables after a claim, a result and a cancellation of the run of one task.
use ai_workload_platform.Common.{pos, ℕ, String, none, some, [], ◌∷◌}
use ai_workload_platform.Distributed.Cancel.{canceled_result}
use ai_workload_platform.Examples.Control.{job_definition, job_row, job_rows, queued_tables}
use ai_workload_platform.Examples.Runs.{task_of, first_attempt, success_response}
use ai_workload_platform.Model.{
  WorkflowStatus, TaskStatus, AttemptStatus, ExecutionResponse, ExecutionResult, Attempt, TaskRun,
  Transition, of_workflow, of_task, of_attempt, StateEvent, WorkflowRun, RunSnapshot,
}
use ai_workload_platform.Model.Input.{Value}
use ai_workload_platform.Postgres.Claim.{Lease, lease_row}
use ai_workload_platform.Postgres.Dispatching.{new_dispatch}
use ai_workload_platform.Postgres.Reap.{cancel_row}
use ai_workload_platform.Postgres.Report.{complete_row}
use ai_workload_platform.Postgres.Tables.{Ownership, Dispatch, TaskRow, Tables}

abbrev pub job_events : StateEvent
job_events = record {
  sequence = 1;
  at = 300;
  transition = of_task "job" TaskStatus.queued TaskStatus.running;
  reason = "lease claimed";
}

abbrev pub job_owner : Ownership
job_owner = record {
  worker_id = "wrk_a";
  attempt_number = 1;
  token_hash = "token";
  expires_at = 15000300;
  deadline = 1000000300;
  leased_at = 300;
}

abbrev pub job_attempt : Attempt
job_attempt = record first_attempt { worker_id = "wrk_a"; dispatch_id = "dsp_1"; started_at = 300 }

abbrev pub job_task_row : TaskRun → TaskRow
job_task_row task = record { index = 0; task = task; remaining_dependencies = pos 0 }

abbrev pub leased_dispatch : Dispatch
leased_dispatch = lease_row job_owner (new_dispatch "dsp_1" "run" "job" "mock" 200)

-- The worker has claimed the task.
abbrev pub claimed_tables : Tables
claimed_tables = record queued_tables {
  runs =
      record (job_rows TaskStatus.queued) {
        row = record job_row { revision = 2; last_event_sequence = 1 };
        tasks = job_task_row (task_of "job" TaskStatus.running (job_attempt ∷ [])) ∷ [];
        events = job_events ∷ [];
      }
      ∷ [];
  dispatches = leased_dispatch ∷ [];
}

abbrev pub job_lease : Lease
job_lease = record {
  dispatch_id = "dsp_1";
  lease_token = "token";
  definition_id = "jobs";
  definition_version = 1;
  run_id = "run";
  task_key = "job";
  executor_kind = "mock";
  action = "get";
  input = Value.null;
  attempt = 1;
  attempt_deadline = 1000000300;
  lease_expires_at = 15000300;
}

abbrev pub event_of : ℕ → ℕ → Transition → String → StateEvent
event_of sequence at transition reason = record {
  sequence = sequence;
  at = at;
  transition = transition;
  reason = reason;
}

abbrev pub ended_task : TaskStatus → AttemptStatus → ExecutionResult → ℕ → TaskRun
ended_task status attempt_status result at = record {
  key = "job";
  status = status;
  attempts =
      record job_attempt { status = attempt_status; finished_at = some at; result = result } ∷ [];
  ready_at = none;
  finished_at = some at;
}

-- The result was accepted, and the run is over.
abbrev pub completed_tables : Tables
completed_tables = record claimed_tables {
  runs =
      record (job_rows TaskStatus.queued) {
        row = record job_row {
          status = WorkflowStatus.succeeded;
          revision = 3;
          last_event_sequence = 4;
          finished_at = some 400;
        };
        tasks =
            job_task_row (
              ended_task TaskStatus.succeeded AttemptStatus.succeeded
                (record { output = "data"; error_code = ""; error_message = "" }) 400)
            ∷ [];
        events =
            job_events
            ∷ event_of 2 400 (of_attempt "job" 1 AttemptStatus.running AttemptStatus.succeeded)
                "execution succeeded"
            ∷ event_of 3 400 (of_task "job" TaskStatus.running TaskStatus.succeeded)
                "execution succeeded"
            ∷ event_of 4 400 (of_workflow "run" WorkflowStatus.running WorkflowStatus.succeeded)
                "all tasks succeeded"
            ∷ [];
      }
      ∷ [];
  dispatches = complete_row "data" 400 leased_dispatch ∷ [];
}

abbrev pub other_response : ExecutionResponse
other_response = record success_response { output = "other" }

abbrev pub canceling_row : WorkflowRun
canceling_row = record job_row {
  revision = 3;
  last_event_sequence = 1;
  cancel_requested_at = some 500;
}

abbrev pub running_task : TaskRun
running_task = task_of "job" TaskStatus.running (job_attempt ∷ [])

-- The run is to be canceled while its task is leased.
abbrev pub canceling_tables : Tables
canceling_tables = record claimed_tables {
  runs =
      record (job_rows TaskStatus.queued) {
        row = canceling_row;
        tasks = job_task_row running_task ∷ [];
        events = job_events ∷ [];
      }
      ∷ [];
}

abbrev pub canceling_run : RunSnapshot
canceling_run = record {
  version = 1;
  definition = some job_definition;
  run = record canceling_row { tasks = running_task ∷ []; remaining_dependencies = pos 0 ∷ [] };
  events = job_events ∷ [];
}

abbrev pub canceled_dispatch : Dispatch
canceled_dispatch = cancel_row 600 leased_dispatch

abbrev pub canceled_tables : Tables
canceled_tables = record canceling_tables {
  runs =
      record (job_rows TaskStatus.queued) {
        row = record canceling_row {
          status = WorkflowStatus.canceled;
          revision = 4;
          last_event_sequence = 4;
          finished_at = some 600;
        };
        tasks =
            job_task_row (ended_task TaskStatus.canceled AttemptStatus.canceled canceled_result 600)
            ∷ [];
        events =
            job_events
            ∷ event_of 2 600 (of_attempt "job" 1 AttemptStatus.running AttemptStatus.canceled)
                "workflow canceled"
            ∷ event_of 3 600 (of_task "job" TaskStatus.running TaskStatus.canceled)
                "workflow canceled"
            ∷ event_of 4 600 (of_workflow "run" WorkflowStatus.running WorkflowStatus.canceled)
                "cancellation requested"
            ∷ [];
      }
      ∷ [];
  dispatches = canceled_dispatch ∷ [];
}
