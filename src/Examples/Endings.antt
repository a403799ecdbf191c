-- ===== src/Examples/Endings.antt =====
-- The theorems on the end of runs, on resumes, on intervals and on the cycle check, at examples.
use ai_workload_platform.Common.{
  pos, storage_failed, out_of_fuel, err, ◌>>=◌, String, ◌≡◌, refl, ◌≢◌, true, false, Option, none,
  some, [], ◌∷◌,
}
use ai_workload_platform.Compiler.Fuel.{check_cycles-Fueled}
use ai_workload_platform.Compiler.Kahn.{check_cycles}
use ai_workload_platform.Distributed.Completion.{
  apply_attempt_result-Complete, timeout_attempt-Complete,
}
use ai_workload_platform.Distributed.Results.{
  settle_result, settle_response, apply_attempt_result, stop_unreported, end_attempt,
  timeout_attempt,
}
use ai_workload_platform.Distributed.Retry.{fail_task, wait_for_retry, apply_retry_decision}
use ai_workload_platform.Distributed.Settle.{
  is_task_running, active_attempt, has_failed_task, all_tasks_terminal, settle_workflow_if_complete,
}
use ai_workload_platform.Distributed.Skip.{
  skip_one, skip_loop, successors_of, edge_count, skip_descendants_from, skip_descendants,
}
use ai_workload_platform.Engine.Storage.{adapter}
use ai_workload_platform.Examples.Codec.{encode_two, decode_two}
use ai_workload_platform.Examples.Runs.{
  two_steps, compiled_steps, task_of, run_of, snapshot_of, first_attempt, fetching, after_call,
  empty_commit, next_revision_run,
}
use ai_workload_platform.Model.{
  WorkflowStatus, TaskStatus, AttemptStatus, ResultKind, ExecutionResponse, TaskRun, RunSnapshot,
}
use ai_workload_platform.Recovery.{prepare_for_resume}
use ai_workload_platform.Recovery.Quiet.{prepare_for_resume-quiet}
use ai_workload_platform.State.{
  workflow_edge, task_edge, attempt_edge, is_workflow_terminal, is_task_terminal, append_event,
  advance_run, transition_workflow, advance_task, transition_task, advance_attempt,
  transition_attempt,
}
use ai_workload_platform.Store.{WriteOutcome}
use ai_workload_platform.Store.Adapter.{file_snapshots, file_storage, adapter-apply}

abbrev failure_response : ExecutionResponse
failure_response = record {
  kind = ResultKind.permanent_failure;
  output = "";
  error_code = "broken";
  error_message = "broken";
}

abbrev failed_run : RunSnapshot
failed_run =
    after_call fetching (apply_attempt_result fetching compiled_steps 0 1 failure_response 120)

apply_attempt_result-Complete_example : is_workflow_terminal failed_run.run.status ≡ true
unfolding apply_attempt_result timeout_attempt end_attempt stop_unreported settle_response
    settle_result ◌>>=◌ active_attempt transition_attempt fail_task apply_retry_decision
    wait_for_retry transition_task append_event skip_descendants skip_descendants_from successors_of
    skip_loop edge_count skip_one is_task_terminal settle_workflow_if_complete all_tasks_terminal
    advance_task has_failed_task transition_workflow workflow_edge task_edge attempt_edge
    advance_run advance_attempt is_workflow_terminal
apply_attempt_result-Complete_example =
    apply_attempt_result-Complete fetching compiled_steps 0 1 failure_response 120 {s' = failed_run}
      refl refl

-- The last attempt that the policy allows is running.
abbrev last_try : RunSnapshot
last_try = snapshot_of (
    run_of WorkflowStatus.running 1 (
      task_of "fetch" TaskStatus.running (
        record first_attempt { status = AttemptStatus.failed; finished_at = some 105 }
        ∷ record first_attempt { number = 2 }
        ∷ [])
      ∷ task_of "store" TaskStatus.waiting_dependencies []
      ∷ []))

abbrev expired_run : RunSnapshot
expired_run = after_call last_try (timeout_attempt last_try compiled_steps 0 2 120)

timeout_attempt-Complete_example : is_workflow_terminal expired_run.run.status ≡ true
unfolding apply_attempt_result timeout_attempt end_attempt stop_unreported settle_response
    settle_result ◌>>=◌ active_attempt transition_attempt fail_task apply_retry_decision
    wait_for_retry transition_task append_event skip_descendants skip_descendants_from successors_of
    skip_loop edge_count skip_one is_task_terminal settle_workflow_if_complete all_tasks_terminal
    advance_task has_failed_task transition_workflow workflow_edge task_edge attempt_edge
    advance_run advance_attempt is_workflow_terminal
timeout_attempt-Complete_example =
    timeout_attempt-Complete last_try compiled_steps 0 2 120 {s' = expired_run} refl refl

abbrev waiting_task : TaskRun
waiting_task = record {
  key = "fetch";
  status = TaskStatus.waiting_retry;
  attempts =
      record first_attempt { status = AttemptStatus.interrupted; finished_at = some 130 } ∷ [];
  ready_at = some 130;
  finished_at = none;
}

prepare_for_resume-quiet_example : is_task_running waiting_task.status ≡ false
unfolding prepare_for_resume ◌>>=◌ transition_attempt transition_task append_event
    skip_descendants_from successors_of advance_task skip_loop advance_attempt
prepare_for_resume-quiet_example =
    prepare_for_resume-quiet fetching compiled_steps 130 0 waiting_task refl refl

check_cycles-Fueled_example :
    check_cycles ((1 ∷ []) ∷ (0 ∷ []) ∷ []) ((1 ∷ []) ∷ (0 ∷ []) ∷ []) ≢ err out_of_fuel
check_cycles-Fueled_example =
    check_cycles-Fueled ((1 ∷ []) ∷ (0 ∷ []) ∷ []) ((1 ∷ []) ∷ (0 ∷ []) ∷ [])

abbrev small_encode : RunSnapshot → Option String
small_encode = encode_two fetching next_revision_run

abbrev small_decode : String → Option RunSnapshot
small_decode = decode_two fetching next_revision_run

adapter-apply_example :
    ((adapter (file_snapshots small_encode small_decode WriteOutcome.written false)).apply_change
        (("run", "a") ∷ [])
        empty_commit
      ≡ (file_storage small_encode small_decode WriteOutcome.written).apply_change
          (("run", "a") ∷ [])
          empty_commit)
    × ((adapter (file_snapshots small_encode small_decode WriteOutcome.written true)).apply_change
          (("run", "a") ∷ [])
          empty_commit
        ≡ (("run", "a") ∷ [], err storage_failed))
adapter-apply_example =
    adapter-apply small_encode small_decode WriteOutcome.written (("run", "a") ∷ []) empty_commit

abbrev new_run : RunSnapshot
new_run = record {
  version = 1;
  definition = some two_steps;
  run = record {
    id = "run";
    definition_id = "two_steps";
    definition_version = 0;
    status = WorkflowStatus.pending;
    revision = 0;
    last_event_sequence = 0;
    cancel_requested_at = none;
    tasks =
        task_of "fetch" TaskStatus.ready []
        ∷ task_of "store" TaskStatus.waiting_dependencies []
        ∷ [];
    remaining_dependencies = pos 0 ∷ pos 1 ∷ [];
    created_at = 100;
    started_at = none;
    finished_at = none;
  };
  events = [];
}
