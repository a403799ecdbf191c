-- ===== src/Distributed/Results.antt =====
-- The outcome of an attempt (workflow/distributed_state.go).
use ai_workload_platform.Common.{
  if◌then◌else◌, is_some, is_negative, decrement, is_zero, get_elem?, modify, unsupported_result,
  negative_dependencies, index_panic, Result, ok, err, or_fail, guard, ◌>>=◌, ◌>>◌, ℕ, String, not,
  Option, none, some, List, [], ◌∷◌,
}
use ai_workload_platform.Distributed.Retry.{fail_task, apply_retry_decision}
use ai_workload_platform.Distributed.Settle.{
  set_result, active_attempt, settle_workflow_if_complete,
}
use ai_workload_platform.Model.{
  TaskStatus, AttemptStatus, ResultKind, CompiledWorkflow, ExecutionResponse, ExecutionResult,
  RunSnapshot,
}
use ai_workload_platform.State.{
  modify_task, transition_task, modify_last_attempt, transition_attempt,
}

-- One dependency of task `j` has succeeded: its count falls, and at zero it is ready.
unfoldable pub satisfy_dependency : RunSnapshot → ℕ → ℕ → Result RunSnapshot
satisfy_dependency s j at = do
  count ← or_fail (get_elem? s.run.remaining_dependencies j) index_panic
  let left = decrement count
  guard (not (is_negative left)) negative_dependencies
  let counted = record s {
    run = record s.run {
      remaining_dependencies = modify j (λ _. left) s.run.remaining_dependencies;
    };
  }
  if is_zero left
      then transition_task counted j TaskStatus.ready at "dependencies succeeded"
      else ok counted

unfoldable pub satisfy_dependencies : RunSnapshot → List ℕ → ℕ → Result RunSnapshot
satisfy_dependencies s [] at = ok s
satisfy_dependencies s (j ∷ js) at = do
  s' ← satisfy_dependency s j at
  satisfy_dependencies s' js at

-- The branch of a successful execution.
unfoldable pub succeed_task : RunSnapshot → CompiledWorkflow → ℕ → ℕ → Result RunSnapshot
succeed_task s compiled i at = do
  finished ← transition_attempt s i AttemptStatus.succeeded at "execution succeeded"
  succeeded ← transition_task finished i TaskStatus.succeeded at "execution succeeded"
  next ← or_fail (get_elem? compiled.successors i) index_panic
  satisfied ← satisfy_dependencies succeeded next at
  settle_workflow_if_complete satisfied at

-- What the kind of a result leads to, once its text is kept in the attempt.
unfoldable pub settle_result :
    ResultKind → RunSnapshot → CompiledWorkflow → ℕ → ℕ → ℕ → Result (Option RunSnapshot)
settle_result ResultKind.temporary_failure s compiled i number at = do
  failed ← transition_attempt s i AttemptStatus.failed at "temporary execution failure"
  apply_retry_decision failed compiled i number at "temporary execution failure"
settle_result ResultKind.permanent_failure s compiled i number at = do
  failed ← transition_attempt s i AttemptStatus.failed at "permanent execution failure"
  settled ← fail_task failed compiled i at "permanent execution failure"
  ok (some settled)
settle_result ResultKind.success s compiled i number at = do
  settled ← succeed_task s compiled i at
  ok (some settled)
settle_result _ s compiled i number at = err unsupported_result

abbrev pub result_of : ExecutionResponse → ExecutionResult
result_of response = record {
  output = response.output;
  error_code = response.error_code;
  error_message = response.error_message;
}

-- The code refuses an unsupported kind before it writes the text; here `settle_result` refuses it,
-- and what was written is dropped with the error.
unfoldable pub settle_response :
    RunSnapshot → CompiledWorkflow → ℕ → ℕ → ExecutionResponse → ℕ → Result (Option RunSnapshot)
unfolding settle_result
settle_response s compiled i number response at =
    settle_result response.kind
      (modify_task s i (modify_last_attempt (set_result (result_of response)))) compiled i number at

unfoldable pub apply_attempt_result :
    RunSnapshot → CompiledWorkflow → ℕ → ℕ → ExecutionResponse → ℕ → Result (Option RunSnapshot)
unfolding settle_response
apply_attempt_result s compiled i number response at = do
  active ← active_attempt s i number
  if is_some active then settle_response s compiled i number response at else ok none

-- The shared part of `InterruptAttempt` and `TimeoutAttempt`: an attempt that ended unreported.
unfoldable pub stop_unreported :
    AttemptStatus
    → ExecutionResult
    → RunSnapshot
    → CompiledWorkflow
    → ℕ
    → ℕ
    → ℕ
    → String
    → Result (Option RunSnapshot)
stop_unreported to result s compiled i number at reason = do
  ended ←
      transition_attempt (modify_task s i (modify_last_attempt (set_result result))) i to at reason
  apply_retry_decision ended compiled i number at reason

unfoldable pub end_attempt :
    AttemptStatus
    → ExecutionResult
    → RunSnapshot
    → CompiledWorkflow
    → ℕ
    → ℕ
    → ℕ
    → String
    → Result (Option RunSnapshot)
unfolding stop_unreported
end_attempt to result s compiled i number at reason = do
  active ← active_attempt s i number
  if is_some active then stop_unreported to result s compiled i number at reason else ok none

unfoldable pub interrupt_attempt :
    RunSnapshot → CompiledWorkflow → ℕ → ℕ → ℕ → String → Result (Option RunSnapshot)
unfolding end_attempt
interrupt_attempt s compiled i number at reason =
    end_attempt AttemptStatus.interrupted
      (record { output = ""; error_code = "interrupted"; error_message = reason }) s compiled i
      number at reason

unfoldable pub timeout_attempt :
    RunSnapshot → CompiledWorkflow → ℕ → ℕ → ℕ → Result (Option RunSnapshot)
unfolding end_attempt
timeout_attempt s compiled i number at =
    end_attempt AttemptStatus.timed_out
      (record { output = ""; error_code = "timeout"; error_message = "execution timed out" }) s
      compiled i number at "execution timed out"
