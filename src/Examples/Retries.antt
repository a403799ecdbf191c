-- ===== src/Examples/Retries.antt =====
-- The due time of a retry, at runs of the two-step workflow.
use ai_workload_platform.Common.{pos, ok, ◌>>=◌, ℕ, ◌+◌, ◌*◌, ◌<◌, ◌≡◌, refl, none, [], ◌∷◌, arith}
use ai_workload_platform.Distributed.Intervals.{
  WaitsUntil, timeout_attempt-ready_at, apply_attempt_result-ready_at_wraps,
}
use ai_workload_platform.Distributed.Results.{apply_attempt_result, timeout_attempt}
use ai_workload_platform.Distributed.Retry.{apply_retry_decision, make_retry_ready}
use ai_workload_platform.Distributed.Settle.{active_attempt}
use ai_workload_platform.Examples.Late.{temporary_response}
use ai_workload_platform.Examples.Runs.{
  fetch_definition, two_steps, compiled_steps, fetching, after_call,
}
use ai_workload_platform.Model.{CompiledWorkflow, RunSnapshot}
use ai_workload_platform.State.{append_event, transition_task, transition_attempt}

abbrev timed_out_run : RunSnapshot
timed_out_run = after_call fetching (timeout_attempt fetching compiled_steps 0 1 120)

timeout_attempt-ready_at_example :
    WaitsUntil 0 (120 + 10 * 1000000) timed_out_run
    × (make_retry_ready timed_out_run 0 1 10000119 ≡ ok none)
unfolding timeout_attempt ◌>>=◌ active_attempt transition_attempt apply_retry_decision
    transition_task append_event
timeout_attempt-ready_at_example =
    timeout_attempt-ready_at fetching timed_out_run compiled_steps 0 1 120 10 10000119
      (fetch_definition, refl, refl, refl) (omega arith) refl (omega arith)

-- The same workflow with an interval of 10 ^ 13 milliseconds.
abbrev slow_steps : CompiledWorkflow
slow_steps = record compiled_steps {
  definition = record two_steps {
    tasks =
        record fetch_definition {
          retry = record { max_attempts = pos 2; interval_millis = pos 10000000000000 };
        }
        ∷ [];
  };
}

abbrev failed_run : RunSnapshot
failed_run =
    after_call fetching
      (apply_attempt_result fetching slow_steps 0 1 temporary_response 10000000000000000000)

apply_attempt_result-ready_at_wraps_example :
    (due : ℕ) × (due + 18446744073709551616 ≡ 10000000000000000000 + 10000000000000 * 1000000)
    × (due < 10000000000000000000)
    × WaitsUntil 0 due failed_run
unfolding apply_attempt_result ◌>>=◌ active_attempt transition_attempt apply_retry_decision
    transition_task append_event
apply_attempt_result-ready_at_wraps_example =
    apply_attempt_result-ready_at_wraps fetching failed_run slow_steps 0 1 temporary_response
      10000000000000000000 10000000000000 (_, refl, refl, refl) (omega arith) (omega arith)
      (omega arith) refl refl
