-- ===== src/State.antt =====
-- workflow/state.go: the legal edges of the three state machines and the functions that take them.
-- A function that fails returns no snapshot: its callers work on a copy and drop it.
pub mod Spent
pub mod Moves
pub mod Kept
pub mod Log
pub mod Appended
use ai_workload_platform.Common.{
  ltb, if◌then◌else◌, is_some, u64, get_elem?, modify, last?, modify_last, illegal_transition,
  index_panic, Result, ok, or_fail, guard, ◌>>=◌, ◌>>◌, ℕ, ◌+◌, String, Bool, true, false, not,
  ◌&&◌, Option, none, some, [], ◌∷◌, ◌++◌,
}
use ai_workload_platform.Model.{
  WorkflowStatus, TaskStatus, AttemptStatus, Attempt, TaskRun, Transition, of_workflow, of_task,
  of_attempt, StateEvent, WorkflowRun, RunSnapshot,
}

-- The table `workflowTransitions`.
unfoldable pub workflow_edge : WorkflowStatus → WorkflowStatus → Bool
workflow_edge WorkflowStatus.pending WorkflowStatus.running = true
workflow_edge WorkflowStatus.pending WorkflowStatus.canceled = true
workflow_edge WorkflowStatus.running WorkflowStatus.succeeded = true
workflow_edge WorkflowStatus.running WorkflowStatus.failed = true
workflow_edge WorkflowStatus.running WorkflowStatus.canceled = true
workflow_edge _ _ = false

-- The table `taskTransitions`.
unfoldable pub task_edge : TaskStatus → TaskStatus → Bool
task_edge TaskStatus.waiting_dependencies TaskStatus.ready = true
task_edge TaskStatus.waiting_dependencies TaskStatus.canceled = true
task_edge TaskStatus.waiting_dependencies TaskStatus.skipped = true
task_edge TaskStatus.ready TaskStatus.queued = true
task_edge TaskStatus.ready TaskStatus.running = true
task_edge TaskStatus.ready TaskStatus.canceled = true
task_edge TaskStatus.ready TaskStatus.skipped = true
task_edge TaskStatus.queued TaskStatus.running = true
task_edge TaskStatus.queued TaskStatus.ready = true
task_edge TaskStatus.queued TaskStatus.canceled = true
task_edge TaskStatus.running TaskStatus.succeeded = true
task_edge TaskStatus.running TaskStatus.waiting_retry = true
task_edge TaskStatus.running TaskStatus.failed = true
task_edge TaskStatus.running TaskStatus.canceled = true
task_edge TaskStatus.waiting_retry TaskStatus.ready = true
task_edge TaskStatus.waiting_retry TaskStatus.failed = true
task_edge TaskStatus.waiting_retry TaskStatus.canceled = true
task_edge _ _ = false

-- The table `attemptTransitions`.
unfoldable pub attempt_edge : AttemptStatus → AttemptStatus → Bool
attempt_edge AttemptStatus.running AttemptStatus.succeeded = true
attempt_edge AttemptStatus.running AttemptStatus.failed = true
attempt_edge AttemptStatus.running AttemptStatus.timed_out = true
attempt_edge AttemptStatus.running AttemptStatus.canceled = true
attempt_edge AttemptStatus.running AttemptStatus.interrupted = true
attempt_edge _ _ = false

unfoldable pub is_workflow_terminal : WorkflowStatus → Bool
is_workflow_terminal WorkflowStatus.succeeded = true
is_workflow_terminal WorkflowStatus.failed = true
is_workflow_terminal WorkflowStatus.canceled = true
is_workflow_terminal _ = false

-- The same test in workflow/engine.go, and in the body of `transitionTask`.
unfoldable pub is_task_terminal : TaskStatus → Bool
is_task_terminal TaskStatus.succeeded = true
is_task_terminal TaskStatus.failed = true
is_task_terminal TaskStatus.canceled = true
is_task_terminal TaskStatus.skipped = true
is_task_terminal _ = false

abbrev pub is_waiting_retry : TaskStatus → Bool
is_waiting_retry TaskStatus.waiting_retry = true
is_waiting_retry _ = false

abbrev is_workflow_running : WorkflowStatus → Bool
is_workflow_running WorkflowStatus.running = true
is_workflow_running _ = false

-- The sequence of the last event kept, if it is above the one that the run row records.
unfoldable pub last_of : ℕ → Option StateEvent → ℕ
last_of n none = n
last_of n (some e) = if ltb n e.sequence then e.sequence else n

-- `snapshotLastEventSequence` (workflow/change.go).
unfoldable pub snapshot_last_event_sequence : RunSnapshot → ℕ
unfolding last_of
snapshot_last_event_sequence s = last_of s.run.last_event_sequence (last? s.events)

unfoldable pub append_event : RunSnapshot → ℕ → Transition → String → RunSnapshot
append_event s at change reason =
    let sequence = u64 (snapshot_last_event_sequence s + 1) in
    record s {
      run = record s.run { last_event_sequence = sequence };
      events =
          s.events
          ++ record { sequence = sequence; at = at; transition = change; reason = reason } ∷ [];
    }

-- The run row after the step: `started_at` keeps its first value, `finished_at` is for the end.
unfoldable pub advance_run : WorkflowRun → WorkflowStatus → ℕ → WorkflowRun
unfolding is_workflow_terminal
advance_run run to at = record run {
  status = to;
  started_at =
      if is_workflow_running to && not (is_some run.started_at) then some at else run.started_at;
  finished_at = if is_workflow_terminal to then some at else run.finished_at;
}

unfoldable pub transition_workflow : RunSnapshot → WorkflowStatus → ℕ → String → Result RunSnapshot
unfolding workflow_edge advance_run
transition_workflow s to at reason = do
  guard (workflow_edge s.run.status to) illegal_transition
  ok (
      append_event (record s { run = advance_run s.run to at }) at
        (of_workflow s.run.id s.run.status to) reason)

unfoldable pub advance_task : TaskStatus → ℕ → TaskRun → TaskRun
unfolding is_task_terminal
advance_task to at task = record task {
  status = to;
  ready_at = if is_waiting_retry to then task.ready_at else none;
  finished_at = if is_task_terminal to then some at else task.finished_at;
}

-- `snapshot.Run.Tasks[i] = f(snapshot.Run.Tasks[i])`.
abbrev pub modify_task : RunSnapshot → ℕ → (TaskRun → TaskRun) → RunSnapshot
modify_task s i f = record s { run = record s.run { tasks = modify i f s.run.tasks } }

abbrev pub task_at : RunSnapshot → ℕ → Result TaskRun
task_at s i = or_fail (get_elem? s.run.tasks i) index_panic

unfoldable pub transition_task : RunSnapshot → ℕ → TaskStatus → ℕ → String → Result RunSnapshot
unfolding task_edge
transition_task s i to at reason = do
  task ← task_at s i
  guard (task_edge task.status to) illegal_transition
  ok (
      append_event (modify_task s i (advance_task to at)) at (of_task task.key task.status to)
        reason)

unfoldable pub advance_attempt : AttemptStatus → ℕ → Attempt → Attempt
advance_attempt to at attempt = record attempt { status = to; finished_at = some at }

abbrev pub modify_last_attempt : (Attempt → Attempt) → TaskRun → TaskRun
modify_last_attempt f task = record task { attempts = modify_last f task.attempts }

-- Every caller hands over the last attempt of task `i`, and that task's key.
unfoldable pub transition_attempt :
    RunSnapshot → ℕ → AttemptStatus → ℕ → String → Result RunSnapshot
unfolding attempt_edge
transition_attempt s i to at reason = do
  task ← task_at s i
  attempt ← or_fail (last? task.attempts) index_panic
  guard (attempt_edge attempt.status to) illegal_transition
  ok (
      append_event (modify_task s i (modify_last_attempt (advance_attempt to at))) at
        (of_attempt task.key attempt.number attempt.status to) reason)
