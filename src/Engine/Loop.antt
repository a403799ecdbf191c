-- ===== src/Engine/Loop.antt =====
-- The loop of `executeSnapshot` (workflow/engine.go), one message at a time. The goroutines that send
-- the messages are not modelled: the list of messages is given, in any order and with any content.
-- `now` and `stopped` are what the clock and the context answer when they are looked at for the
-- n-th time.
use ai_workload_platform.Common.{
  ltb, if◌then◌else◌, get_elem?, last?, Error, no_runnable_tasks, interrupted, Result, ok, err, ℕ,
  suc, ◌+◌, ◌-◌, Bool, true, false, Option, none, some, List, [], ◌∷◌, ◌++◌,
}
use ai_workload_platform.Distributed.Results.{apply_attempt_result, timeout_attempt}
use ai_workload_platform.Distributed.Retry.{make_retry_ready}
use ai_workload_platform.Distributed.Settle.{has_failed_task, all_tasks_succeeded}
use ai_workload_platform.Engine.Messages.{
  StopCause, Message, LoopState, Step, tick, is_active, remove_active, is_ready, is_kind_canceled,
  has_waiting_retry, is_full, prepare_task, timer_of,
}
use ai_workload_platform.Engine.Storage.{Storage, save_snapshots, finalize_cancellation}
use ai_workload_platform.Model.{
  WorkflowStatus, CompiledWorkflow, ExecutionRequest, ExecutionResponse, TaskRun, WorkflowRun,
  RunSnapshot,
}
use ai_workload_platform.Model.Input.{Value}
use ai_workload_platform.State.{is_workflow_terminal, is_waiting_retry, transition_workflow}

module _ {S : Type 0} (storage : Storage S) (clone : Value → Value) (compiled : CompiledWorkflow)
    (now : ℕ → ℕ) (stopped : ℕ → Option StopCause) where
  abbrev pub schedule_retry : LoopState S → ℕ → TaskRun → LoopState S
  schedule_retry l i task = record (tick l) {
    timers = timer_of i (now l.ticks) task.ready_at (last? task.attempts) ++ l.timers;
  }

  unfoldable pub stopped_run_result : StopCause → LoopState S → S × Result WorkflowRun
  unfolding finalize_cancellation
  stopped_run_result StopCause.business_cancel l =
      finalize_cancellation storage (now l.ticks) l.store l.snapshot
  stopped_run_result StopCause.context_ended l = (l.store, err interrupted)

  abbrev pub as_finished : S × Result WorkflowRun → Step S
  as_finished (st, answer) = Step.finished st answer

  -- `if runCtx.Err() != nil { return stoppedRunResult }` before the rest.
  abbrev pub unless_stopped : Option StopCause → LoopState S → Step S → Step S
  unless_stopped none l next = next
  unless_stopped (some cause) l next = as_finished (stopped_run_result cause l)

  abbrev pub check_context : LoopState S → (LoopState S → Step S) → Step S
  check_context l next = unless_stopped (stopped l.ticks) (tick l) (next (tick l))

  -- A failure: the stop of the run goes before it.
  abbrev pub fail_step : LoopState S → Error → Step S
  fail_step l e = check_context l (λ later. Step.finished later.store (err e))

  -- The saved snapshot becomes the loop's.
  abbrev pub adopt : LoopState S → S × Result RunSnapshot → LoopState S × Result (Unit {0})
  adopt l (st, ok s) = (record l { store = st; snapshot = s }, ok tt)
  adopt l (st, err e) = (record l { store = st }, err e)

  unfoldable pub save_loop : LoopState S → RunSnapshot → LoopState S × Result (Unit {0})
  unfolding save_snapshots
  save_loop l updated = adopt l (save_snapshots storage l.store l.snapshot updated)

  -- The executor is started once the running attempt is saved.
  abbrev pub start_executor : LoopState S → ℕ → ExecutionRequest → LoopState S
  start_executor l i request = record l {
    active = (i, request.attempt) ∷ l.active;
    running = l.running + 1;
    requests = request ∷ l.requests;
  }

  abbrev pub launch :
      (LoopState S → LoopState S × Result (Unit {0}))
      → ℕ
      → ExecutionRequest
      → Option StopCause
      → LoopState S
      → LoopState S × Result (Unit {0})
  launch rest i request none l = rest (start_executor l i request)
  launch rest i request (some cause) l = (l, err interrupted)

  abbrev pub launch_saved :
      (LoopState S → LoopState S × Result (Unit {0}))
      → ℕ
      → ExecutionRequest
      → LoopState S × Result (Unit {0})
      → LoopState S × Result (Unit {0})
  launch_saved rest i request (l, ok done) = launch rest i request (stopped l.ticks) (tick l)
  launch_saved rest i request (l, err e) = (l, err e)

  unfoldable pub start_prepared :
      (LoopState S → LoopState S × Result (Unit {0}))
      → ℕ
      → LoopState S
      → Result (RunSnapshot × ExecutionRequest)
      → LoopState S × Result (Unit {0})
  unfolding save_loop
  start_prepared rest i l (ok (updated, request)) =
      launch_saved rest i request (save_loop l updated)
  start_prepared rest i l (err e) = (l, err e)

  unfoldable pub start_turn :
      (LoopState S → LoopState S × Result (Unit {0}))
      → ℕ
      → TaskRun
      → LoopState S
      → LoopState S × Result (Unit {0})
  unfolding start_prepared prepare_task
  start_turn rest i task l =
      if is_full l.running compiled.definition.concurrency
      then (l, ok tt)
      else if is_ready task.status
      then start_prepared rest i (tick (tick l))
          (prepare_task clone l.snapshot compiled i (now l.ticks) (now (l.ticks + 1)))
      else rest l

  -- The loop of `startReadyTasks` over the tasks as they were when it began.
  unfoldable pub start_tasks : List TaskRun → ℕ → LoopState S → LoopState S × Result (Unit {0})
  unfolding start_turn
  start_tasks [] i l = (l, ok tt)
  start_tasks (task ∷ tasks) i l = start_turn (start_tasks tasks (suc i)) i task l

  abbrev pub start_unless : Option StopCause → LoopState S → LoopState S × Result (Unit {0})
  start_unless none l = start_tasks l.snapshot.run.tasks 0 l
  start_unless (some cause) l = (l, err interrupted)

  abbrev pub after_start : LoopState S × Result (Unit {0}) → Step S
  after_start (l, ok done) = Step.go_on l
  after_start (l, err e) = fail_step l e

  unfoldable pub start_ready_tasks : LoopState S → Step S
  unfolding start_tasks
  start_ready_tasks l = after_start (start_unless (stopped l.ticks) (tick l))

  -- A retry is scheduled from the saved snapshot.
  abbrev pub schedule_task : LoopState S → ℕ → Option TaskRun → LoopState S
  schedule_task l i none = l
  schedule_task l i (some task) =
      if is_waiting_retry task.status then schedule_retry l i task else l

  abbrev pub after_save : Bool → ℕ → LoopState S × Result (Unit {0}) → Step S
  after_save scheduling i (l, ok done) =
      start_ready_tasks
        (if scheduling then schedule_task l i (get_elem? l.snapshot.run.tasks i) else l)
  after_save scheduling i (l, err e) = fail_step l e

  -- What an operation of the kernel answered.
  unfoldable pub commit_answer : Bool → ℕ → LoopState S → Result (Option RunSnapshot) → Step S
  unfolding start_ready_tasks save_loop
  commit_answer scheduling i l (ok none) = start_ready_tasks l
  commit_answer scheduling i l (ok (some updated)) = after_save scheduling i (save_loop l updated)
  commit_answer scheduling i l (err e) = Step.finished l.store (err e)

  -- `finishActiveAttempt`.
  abbrev pub finish_active : LoopState S → ℕ → ℕ → LoopState S
  finish_active l i attempt = record l {
    active = remove_active i attempt l.active;
    running = l.running - 1;
  }

  unfoldable pub settle_completion : LoopState S → ℕ → ℕ → ExecutionResponse → ℕ → Step S
  unfolding commit_answer apply_attempt_result stopped_run_result
  settle_completion l i attempt response at =
      if is_kind_canceled response.kind
      then as_finished (stopped_run_result StopCause.business_cancel l)
      else commit_answer true i l (apply_attempt_result l.snapshot compiled i attempt response at)

  -- One message while attempts are running; a message of an attempt that is not active is dropped.
  unfoldable pub receive : Message → LoopState S → Step S
  unfolding settle_completion timeout_attempt make_retry_ready
  receive (Message.completion i attempt response at) l =
      if is_active (i, attempt) l.active
      then settle_completion (finish_active l i attempt) i attempt response at
      else Step.go_on l
  receive (Message.deadline i attempt at) l =
      if is_active (i, attempt) l.active
      then commit_answer true i (finish_active l i attempt)
          (timeout_attempt l.snapshot compiled i attempt at)
      else Step.go_on l
  receive (Message.retry_due_at i attempt at) l =
      commit_answer false i l (make_retry_ready l.snapshot i attempt at)

  -- While nothing is running, only a retry is waited for; another message stays in its channel.
  unfoldable pub receive_retry : Message → LoopState S → Step S
  unfolding commit_answer make_retry_ready
  receive_retry (Message.retry_due_at i attempt at) l =
      commit_answer false i l (make_retry_ready l.snapshot i attempt at)
  receive_retry (Message.completion i attempt response at) l = Step.go_on l
  receive_retry (Message.deadline i attempt at) l = Step.go_on l

  abbrev pub after_final : LoopState S × Result (Unit {0}) → Step S
  after_final (l, ok done) = Step.finished l.store (ok l.snapshot.run)
  after_final (l, err e) = fail_step l e

  abbrev pub save_final : LoopState S → Result RunSnapshot → Step S
  save_final l (ok updated) = after_final (save_loop l updated)
  save_final l (err e) = Step.finished l.store (err e)

  -- The end of the loop: the final status, unless the run has it.
  unfoldable pub finish_run : LoopState S → Step S
  unfolding save_loop is_workflow_terminal has_failed_task all_tasks_succeeded transition_workflow
  finish_run l =
      if is_workflow_terminal l.snapshot.run.status
      then Step.finished l.store (ok l.snapshot.run)
      else if has_failed_task l.snapshot.run.tasks
      then save_final (tick l) (
          transition_workflow l.snapshot WorkflowStatus.failed (now l.ticks)
            "one or more tasks failed")
      else if all_tasks_succeeded l.snapshot.run.tasks
      then save_final (tick l) (
          transition_workflow l.snapshot WorkflowStatus.succeeded (now l.ticks)
            "all tasks succeeded")
      else Step.finished l.store (err no_runnable_tasks)

  -- One turn of the loop: the context is looked at before and after the message is received.
  unfoldable pub take_message : Message → LoopState S → Step S
  unfolding receive receive_retry finish_run has_waiting_retry
  take_message message l = check_context l λ l₁.
      if ltb 0 l₁.running
      then check_context l₁ (receive message)
      else if has_waiting_retry l₁.snapshot.run.tasks
      then check_context l₁ (receive_retry message)
      else finish_run l₁
