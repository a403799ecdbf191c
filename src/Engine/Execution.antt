-- ===== src/Engine/Execution.antt =====
-- `executeSnapshot` of workflow/engine.go over a list of messages.
use ai_workload_platform.Common.{
  ltb, if◌then◌else◌, Result, ok, err, ℕ, suc, ◌||◌, Option, List, [], ◌∷◌,
}
use ai_workload_platform.Distributed.Start.{is_pending}
use ai_workload_platform.Engine.Loop.{
  schedule_retry, check_context, fail_step, save_loop, start_ready_tasks, finish_run, take_message,
}
use ai_workload_platform.Engine.Messages.{
  StopCause, Message, LoopState, Step, tick, has_waiting_retry,
}
use ai_workload_platform.Engine.Storage.{Storage}
use ai_workload_platform.Model.{WorkflowStatus, CompiledWorkflow, TaskRun, WorkflowRun, RunSnapshot}
use ai_workload_platform.Model.Input.{Value}
use ai_workload_platform.State.{is_waiting_retry, transition_workflow}

-- What the messages so far have led to: an answer, or a loop that waits for the next one.

pub data Progress (S : Type 0) : Type 0 where
  waiting : LoopState S → Progress S
  answered : S → Result WorkflowRun → Progress S

module _ {S : Type 0} (storage : Storage S) (clone : Value → Value) (now : ℕ → ℕ)
    (stopped : ℕ → Option StopCause) (compiled : CompiledWorkflow) where
  -- The end of the messages: the loop goes on by itself only when nothing is left to wait for.
  unfoldable pub rest_step : LoopState S → Step S → Progress S
  rest_step l (Step.go_on l') = waiting l
  rest_step l (Step.finished st answer) = answered st answer

  unfoldable pub at_rest : LoopState S → Progress S
  unfolding rest_step finish_run has_waiting_retry
  at_rest l =
      if ltb 0 l.running || has_waiting_retry l.snapshot.run.tasks
      then waiting l
      else rest_step l (
          check_context storage clone compiled now stopped l
            (finish_run storage clone compiled now stopped))

  abbrev pub continue_with : (LoopState S → Progress S) → Step S → Progress S
  continue_with next (Step.go_on l) = next l
  continue_with next (Step.finished st answer) = answered st answer

  unfoldable pub run_loop : List Message → LoopState S → Progress S
  unfolding at_rest take_message
  run_loop [] l = at_rest l
  run_loop (message ∷ messages) l =
      continue_with (run_loop messages) (take_message storage clone compiled now stopped message l)

  -- Timers for the retries that a stored run waits for.
  unfoldable pub restore_timers : ℕ → List TaskRun → LoopState S → LoopState S
  restore_timers i [] l = l
  restore_timers i (task ∷ tasks) l = restore_timers (suc i) tasks (
      if is_waiting_retry task.status
      then schedule_retry storage clone compiled now stopped l i task
      else l)

  -- The first save of a pending run.
  abbrev pub begin_saved : LoopState S × Result (Unit {0}) → Step S
  begin_saved (l, ok done) = check_context storage clone compiled now stopped l Step.go_on
  begin_saved (l, err e) = fail_step storage clone compiled now stopped l e

  abbrev pub begin_with : LoopState S → Result RunSnapshot → Step S
  begin_with l (ok updated) = begin_saved (save_loop storage clone compiled now stopped l updated)
  begin_with l (err e) = Step.finished l.store (err e)

  unfoldable pub begin_run : LoopState S → Step S
  unfolding save_loop transition_workflow
  begin_run l =
      if is_pending l.snapshot.run.status
      then begin_with (tick l)
          (transition_workflow l.snapshot WorkflowStatus.running (now l.ticks) "execution started")
      else Step.go_on l

  -- Two looks at the context come before the loop.
  abbrev pub new_loop : S → RunSnapshot → LoopState S
  new_loop st s = record {
    store = st;
    snapshot = s;
    active = [];
    running = 0;
    requests = [];
    timers = [];
    ticks = 2;
  }

  -- `executeSnapshot`.
  unfoldable pub execute_snapshot : List Message → S → RunSnapshot → Progress S
  unfolding begin_run run_loop restore_timers start_ready_tasks
  execute_snapshot messages st s =
      continue_with
        (λ l. continue_with (run_loop messages) (
          start_ready_tasks storage clone compiled now stopped
            (restore_timers 0 l.snapshot.run.tasks l)))
        (begin_run (new_loop st s))
