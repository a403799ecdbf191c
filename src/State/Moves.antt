-- ===== src/State/Moves.antt =====
-- What the steps of workflow/state.go can do, as a relation between snapshots: the legal
-- transitions, and the edits of a snapshot that change no status.
use ai_workload_platform.Common.{
  ℤ, length, get_elem?, last?, ok, >>=-eq-ok, or_fail-eq-ok, guard-eq-ok, ok-eq-ok, ℕ, String, ◌≡◌,
  true, some, List,
}
use ai_workload_platform.Model.{
  WorkflowStatus, TaskStatus, AttemptStatus, Attempt, TaskRun, of_workflow, of_task, of_attempt,
  RunSnapshot,
}
use ai_workload_platform.State.{
  workflow_edge, task_edge, attempt_edge, append_event, advance_run, transition_workflow,
  advance_task, modify_task, transition_task, advance_attempt, modify_last_attempt,
  transition_attempt,
}
use ai_workload_platform.State.Spent.{SpentKept}

-- The parts of a task run that only a transition may change. A number that is used up stays so.
pub record SameStatus (t u : TaskRun) : Type 0 where
  pub same_key : u.key ≡ t.key
  pub same_status : u.status ≡ t.status
  pub same_finished : u.finished_at ≡ t.finished_at
  pub same_spent : SpentKept t.attempts u.attempts

pub data Move (s : RunSnapshot) (s' : RunSnapshot) : Type 0 where
  workflow_step :
      (to : WorkflowStatus) (at : ℕ) (reason : String)
      → transition_workflow s to at reason ≡ ok s'
      → Move s s'
  task_step :
      (i : ℕ) (to : TaskStatus) (at : ℕ) (reason : String)
      → transition_task s i to at reason ≡ ok s'
      → Move s s'
  attempt_step :
      (i : ℕ) (to : AttemptStatus) (at : ℕ) (reason : String)
      → transition_attempt s i to at reason ≡ ok s'
      → Move s s'
  -- Attempts, results and due times of one task.
  task_edit :
      (i : ℕ) (f : TaskRun → TaskRun)
      → ((t : TaskRun) → get_elem? s.run.tasks i ≡ some t → SameStatus t (f t))
      → s' ≡ modify_task s i f
      → Move s s'
  -- The dependency counts.
  count_edit :
      (counts : List ℤ)
      → length counts ≡ length s.run.remaining_dependencies
      → s' ≡ record s { run = record s.run { remaining_dependencies = counts } }
      → Move s s'

pub data Moves : RunSnapshot → RunSnapshot → Type 0 where
  stay : {s : RunSnapshot} → Moves s s
  move : {s m t : RunSnapshot} → Move s m → Moves m t → Moves s t

pub Moves-trans : {s t u : RunSnapshot} → Moves s t → Moves t u → Moves s u
Moves-trans stay n = n
Moves-trans (move m ms) n = move m (Moves-trans ms n)

pub Moves-one : {s t : RunSnapshot} → Move s t → Moves s t
Moves-one m = move m stay

-- What a successful step has checked, and the snapshot that it returns.
pub transition_task-eq-ok :
    (s : RunSnapshot) (i : ℕ) (to : TaskStatus) (at : ℕ) (reason : String) {s' : RunSnapshot}
    → transition_task s i to at reason ≡ ok s'
    → (task : TaskRun) × (get_elem? s.run.tasks i ≡ some task)
      × (task_edge task.status to ≡ true)
      × (s'
          ≡ append_event
              (modify_task s i (advance_task to at))
              at
              (of_task task.key task.status to)
              reason)
unfolding transition_task
transition_task-eq-ok s i to at reason h =
    let (task, found, rest) = >>=-eq-ok _ _ h in
    let (checked, legal, e) = >>=-eq-ok _ _ rest in
    (task, or_fail-eq-ok _ _ found, guard-eq-ok _ _ legal, ok-eq-ok e)

pub transition_workflow-eq-ok :
    (s : RunSnapshot) (to : WorkflowStatus) (at : ℕ) (reason : String) {s' : RunSnapshot}
    → transition_workflow s to at reason ≡ ok s'
    → (workflow_edge s.run.status to ≡ true)
      × (s'
          ≡ append_event
              (record s { run = advance_run s.run to at })
              at
              (of_workflow s.run.id s.run.status to)
              reason)
unfolding transition_workflow
transition_workflow-eq-ok s to at reason h =
    let (checked, legal, e) = >>=-eq-ok _ _ h in (guard-eq-ok _ _ legal, ok-eq-ok e)

pub transition_attempt-eq-ok :
    (s : RunSnapshot) (i : ℕ) (to : AttemptStatus) (at : ℕ) (reason : String) {s' : RunSnapshot}
    → transition_attempt s i to at reason ≡ ok s'
    → (task : TaskRun) × (attempt : Attempt) × (get_elem? s.run.tasks i ≡ some task)
      × (last? task.attempts ≡ some attempt)
      × (attempt_edge attempt.status to ≡ true)
      × (s'
          ≡ append_event
              (modify_task s i (modify_last_attempt (advance_attempt to at)))
              at
              (of_attempt task.key attempt.number attempt.status to)
              reason)
unfolding transition_attempt
transition_attempt-eq-ok s i to at reason h =
    let (task, found, rest) = >>=-eq-ok _ _ h in
    let (attempt, last, rest') = >>=-eq-ok _ _ rest in
    let (checked, legal, e) = >>=-eq-ok _ _ rest' in
    (
      task,
      attempt,
      or_fail-eq-ok _ _ found,
      or_fail-eq-ok _ _ last,
      guard-eq-ok _ _ legal,
      ok-eq-ok e,
    )
