-- ===== src/Examples/Late.antt =====
-- Late reports of a first attempt while the second one runs.
use ai_workload_platform.Common.{ok, ◌>>=◌, ℕ, ◌≡◌, refl, none, some, arith}
use ai_workload_platform.Distributed.Once.{
  Later, HasHistory, apply_attempt_result-once, timeout_attempt-once,
}
use ai_workload_platform.Distributed.Operation.{Operation, perform}
use ai_workload_platform.Distributed.Results.{
  apply_attempt_result, interrupt_attempt, timeout_attempt,
}
use ai_workload_platform.Distributed.Retry.{add_millis, apply_retry_decision, make_retry_ready}
use ai_workload_platform.Distributed.Settle.{active_attempt}
use ai_workload_platform.Distributed.Start.{queue_task, start_queued_attempt}
use ai_workload_platform.Examples.Runs.{
  compiled_steps, fetching, success_response, after_call, same_input,
}
use ai_workload_platform.Model.{ResultKind, ExecutionResponse, RunSnapshot}
use ai_workload_platform.State.{
  append_event, advance_task, transition_task, advance_attempt, transition_attempt,
}

abbrev pub temporary_response : ExecutionResponse
temporary_response = record success_response { kind = ResultKind.temporary_failure }

abbrev after_operation : Operation → ℕ → RunSnapshot → RunSnapshot
unfolding perform
after_operation op at s = after_call s (perform same_input compiled_steps op at s)

-- A retry is released, queued and claimed.
abbrev released : RunSnapshot → RunSnapshot
released s = after_operation (Operation.retry 0 1) 20000000 s

abbrev queued : RunSnapshot → RunSnapshot
queued s = after_operation (Operation.queue 0) 20000001 (released s)

abbrev retrying : RunSnapshot → RunSnapshot
retrying s = after_operation (Operation.claim 0 "worker" "second") 20000002 (queued s)

abbrev failed_once : RunSnapshot
failed_once = after_operation (Operation.report 0 1 temporary_response) 120 fetching

abbrev timed_out_once : RunSnapshot
timed_out_once = after_operation (Operation.time_out 0 1) 120 fetching

first_history : HasHistory 0 1 fetching
first_history = (_, refl, omega arith)

failed_released :
    perform same_input compiled_steps (Operation.retry 0 1) 20000000 failed_once
    ≡ ok (some (released failed_once))
unfolding perform make_retry_ready ◌>>=◌ apply_attempt_result active_attempt transition_attempt
    apply_retry_decision transition_task append_event advance_task advance_attempt add_millis
failed_released = refl

failed_queued :
    perform same_input compiled_steps (Operation.queue 0) 20000001 (released failed_once)
    ≡ ok (some (queued failed_once))
unfolding perform ◌>>=◌ queue_task make_retry_ready apply_attempt_result active_attempt
    transition_attempt apply_retry_decision transition_task append_event advance_task
    advance_attempt add_millis
failed_queued = refl

failed_claimed :
    perform same_input compiled_steps
      (Operation.claim 0 "worker" "second")
      20000002
      (queued failed_once)
    ≡ ok (some (retrying failed_once))
unfolding perform ◌>>=◌ start_queued_attempt queue_task make_retry_ready apply_attempt_result
    active_attempt transition_attempt apply_retry_decision transition_task append_event advance_task
    advance_attempt add_millis
failed_claimed = refl

failed_then_retrying : Later same_input failed_once (retrying failed_once)
failed_then_retrying = Later.call compiled_steps (Operation.retry 0 1) 20000000 failed_released (
    Later.call compiled_steps (Operation.queue 0) 20000001 failed_queued (
      Later.call compiled_steps (Operation.claim 0 "worker" "second") 20000002 failed_claimed
        Later.now))

timed_out_released :
    perform same_input compiled_steps (Operation.retry 0 1) 20000000 timed_out_once
    ≡ ok (some (released timed_out_once))
unfolding perform make_retry_ready ◌>>=◌ timeout_attempt active_attempt transition_attempt
    apply_retry_decision transition_task append_event advance_task advance_attempt add_millis
timed_out_released = refl

timed_out_queued :
    perform same_input compiled_steps (Operation.queue 0) 20000001 (released timed_out_once)
    ≡ ok (some (queued timed_out_once))
unfolding perform ◌>>=◌ queue_task make_retry_ready timeout_attempt active_attempt
    transition_attempt apply_retry_decision transition_task append_event advance_task
    advance_attempt add_millis
timed_out_queued = refl

timed_out_claimed :
    perform same_input compiled_steps
      (Operation.claim 0 "worker" "second")
      20000002
      (queued timed_out_once)
    ≡ ok (some (retrying timed_out_once))
unfolding perform ◌>>=◌ start_queued_attempt queue_task make_retry_ready timeout_attempt
    active_attempt transition_attempt apply_retry_decision transition_task append_event advance_task
    advance_attempt add_millis
timed_out_claimed = refl

timed_out_then_retrying : Later same_input timed_out_once (retrying timed_out_once)
timed_out_then_retrying =
    Later.call compiled_steps (Operation.retry 0 1) 20000000 timed_out_released (
      Later.call compiled_steps (Operation.queue 0) 20000001 timed_out_queued (
        Later.call compiled_steps (Operation.claim 0 "worker" "second") 20000002 timed_out_claimed
          Later.now))

apply_attempt_result-once_example :
    (apply_attempt_result (retrying failed_once) compiled_steps 0 1 success_response 20000003
      ≡ ok none)
    × (timeout_attempt (retrying failed_once) compiled_steps 0 1 20000003 ≡ ok none)
    × (interrupt_attempt (retrying failed_once) compiled_steps 0 1 20000003 "lease lost" ≡ ok none)
unfolding apply_attempt_result ◌>>=◌ active_attempt transition_attempt apply_retry_decision
    transition_task append_event after_operation
apply_attempt_result-once_example =
    apply_attempt_result-once same_input fetching failed_once (retrying failed_once) compiled_steps
      compiled_steps 0 1 temporary_response success_response 120 20000003 "lease lost" first_history
      refl failed_then_retrying

timeout_attempt-once_example :
    (apply_attempt_result (retrying timed_out_once) compiled_steps 0 1 success_response 20000003
      ≡ ok none)
    × (timeout_attempt (retrying timed_out_once) compiled_steps 0 1 20000003 ≡ ok none)
    × (interrupt_attempt (retrying timed_out_once) compiled_steps 0 1 20000003 "lease lost"
        ≡ ok none)
unfolding timeout_attempt ◌>>=◌ active_attempt transition_attempt apply_retry_decision
    transition_task append_event after_operation
timeout_attempt-once_example =
    timeout_attempt-once same_input fetching timed_out_once (retrying timed_out_once) compiled_steps
      compiled_steps 0 1 120 20000003 success_response "lease lost" first_history refl
      timed_out_then_retrying
