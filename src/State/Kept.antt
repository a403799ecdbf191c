-- ===== src/State/Kept.antt =====
-- What the steps of workflow/state.go leave alone: the identity of the run and of its tasks, and
-- the tasks and the run that have ended.
use ai_workload_platform.Common.{
  length, get_elem?, modify, last?, length-modify, get_elem?-modify_self, get_elem?-modify_ne, ℕ,
  String, ◌≡◌, refl, ◌∙◌, true, false, some, List, arith, ℕ_discrete,
}
use ai_workload_platform.Model.{
  WorkflowStatus, TaskStatus, AttemptStatus, Attempt, TaskRun, Transition, RunSnapshot,
}
use ai_workload_platform.State.{
  workflow_edge, task_edge, attempt_edge, is_workflow_terminal, is_task_terminal, append_event,
  advance_run, advance_task, modify_task, advance_attempt, modify_last_attempt,
}
use ai_workload_platform.State.Moves.{
  SameStatus, Move, workflow_step, task_step, attempt_step, task_edit, count_edit, Moves, stay,
  move, transition_task-eq-ok, transition_workflow-eq-ok, transition_attempt-eq-ok,
}
use ai_workload_platform.State.Spent.{SpentKept, advance_attempt-SpentKept}
use native.Mathlib.Decide.{ℕ_discrete}

pub edge-is_task_terminal :
    (from to : TaskStatus) → task_edge from to ≡ true → is_task_terminal from ≡ false
unfolding task_edge is_task_terminal
edge-is_task_terminal from to h = ground arith

edge-is_workflow_terminal :
    (from to : WorkflowStatus) → workflow_edge from to ≡ true → is_workflow_terminal from ≡ false
unfolding workflow_edge is_workflow_terminal
edge-is_workflow_terminal from to h = ground arith

-- A task keeps its key, and once it has ended, its status and the time of its end. A number of an
-- attempt that is used up stays so.
pub record Kept (t u : TaskRun) : Type 0 where
  pub same_key : u.key ≡ t.key
  pub ended :
      is_task_terminal t.status ≡ true → (u.status ≡ t.status) × (u.finished_at ≡ t.finished_at)
  pub spent : SpentKept t.attempts u.attempts

Kept-trans : {t u v : TaskRun} → Kept t u → Kept u v → Kept t v
Kept-trans {t} {u} {v} p q = record {
  same_key = q.same_key ∙ p.same_key;
  ended = λ h.
      let (status, finished) = p.ended h in
      let (status', finished') = q.ended (rw status h) in (status' ∙ status, finished' ∙ finished);
  spent = λ n h. q.spent n (p.spent n h);
}

-- Task by task, at the same places.
abbrev pub TasksKept : List TaskRun → List TaskRun → Type 0
TasksKept ts us =
    (i : ℕ) (t : TaskRun)
    → get_elem? ts i ≡ some t
    → (u : TaskRun) × (get_elem? us i ≡ some u) × Kept t u

Kept-refl : (t : TaskRun) → Kept t t
Kept-refl t = record { same_key = refl; ended = λ h. (refl, refl); spent = λ n h. h }

TasksKept-refl : (ts : List TaskRun) → TasksKept ts ts
TasksKept-refl ts i t h = (t, h, Kept-refl t)

TasksKept-trans : (ts us vs : List TaskRun) → TasksKept ts us → TasksKept us vs → TasksKept ts vs
TasksKept-trans ts us vs p q i t h =
    let (u, hu, k) = p i t h in let (v, hv, l) = q i u hu in (v, hv, Kept-trans k l)

TasksKept-modify :
    (i : ℕ) (f : TaskRun → TaskRun) (ts : List TaskRun)
    → ((t : TaskRun) → get_elem? ts i ≡ some t → Kept t (f t))
    → TasksKept ts (modify i f ts)
TasksKept-modify i f ts k j t h = elim (ℕ_discrete i j) [
  | yes e ↦
      let here : get_elem? ts i ≡ some t = rw e h in
      (f t, rw (← e) (get_elem?-modify_self i f ts here), k t here)
  | no ne ↦ (t, get_elem?-modify_ne i j f ts ne ∙ h, Kept-refl t)
]

pub record Frame (s s' : RunSnapshot) : Type 0 where
  pub same_version : s'.version ≡ s.version
  pub same_definition : s'.definition ≡ s.definition
  pub same_id : s'.run.id ≡ s.run.id
  pub same_definition_id : s'.run.definition_id ≡ s.run.definition_id
  pub same_definition_version : s'.run.definition_version ≡ s.run.definition_version
  pub same_revision : s'.run.revision ≡ s.run.revision
  pub same_cancel : s'.run.cancel_requested_at ≡ s.run.cancel_requested_at
  pub same_created : s'.run.created_at ≡ s.run.created_at
  pub same_length : length s'.run.tasks ≡ length s.run.tasks
  pub same_counts : length s'.run.remaining_dependencies ≡ length s.run.remaining_dependencies
  pub run_ended :
      is_workflow_terminal s.run.status ≡ true
      → (s'.run.status ≡ s.run.status) × (s'.run.finished_at ≡ s.run.finished_at)
  pub tasks_kept : TasksKept s.run.tasks s'.run.tasks

Frame-refl : (s : RunSnapshot) → Frame s s
Frame-refl s = record {
  same_version = refl;
  same_definition = refl;
  same_id = refl;
  same_definition_id = refl;
  same_definition_version = refl;
  same_revision = refl;
  same_cancel = refl;
  same_created = refl;
  same_length = refl;
  same_counts = refl;
  run_ended = λ h. (refl, refl);
  tasks_kept = TasksKept-refl s.run.tasks;
}

Frame-trans : {s t u : RunSnapshot} → Frame s t → Frame t u → Frame s u
Frame-trans {s} {t} {u} p q = record {
  same_version = q.same_version ∙ p.same_version;
  same_definition = q.same_definition ∙ p.same_definition;
  same_id = q.same_id ∙ p.same_id;
  same_definition_id = q.same_definition_id ∙ p.same_definition_id;
  same_definition_version = q.same_definition_version ∙ p.same_definition_version;
  same_revision = q.same_revision ∙ p.same_revision;
  same_cancel = q.same_cancel ∙ p.same_cancel;
  same_created = q.same_created ∙ p.same_created;
  same_length = q.same_length ∙ p.same_length;
  same_counts = q.same_counts ∙ p.same_counts;
  run_ended = λ h.
      let (status, finished) = p.run_ended h in
      let (status', finished') = q.run_ended (rw status h) in
      (status' ∙ status, finished' ∙ finished);
  tasks_kept = TasksKept-trans s.run.tasks t.run.tasks u.run.tasks p.tasks_kept q.tasks_kept;
}

Frame-modify_task :
    (s : RunSnapshot) (i : ℕ) (f : TaskRun → TaskRun)
    → ((t : TaskRun) → get_elem? s.run.tasks i ≡ some t → Kept t (f t))
    → Frame s (modify_task s i f)
Frame-modify_task s i f k = record {
  same_version = refl;
  same_definition = refl;
  same_id = refl;
  same_definition_id = refl;
  same_definition_version = refl;
  same_revision = refl;
  same_cancel = refl;
  same_created = refl;
  same_length = length-modify i f s.run.tasks;
  same_counts = refl;
  run_ended = λ h. (refl, refl);
  tasks_kept = TasksKept-modify i f s.run.tasks k;
}

Frame-append_event :
    (s : RunSnapshot) (at : ℕ) (change : Transition) (reason : String)
    → Frame s (append_event s at change reason)
unfolding append_event
Frame-append_event s at change reason = record {
  same_version = refl;
  same_definition = refl;
  same_id = refl;
  same_definition_id = refl;
  same_definition_version = refl;
  same_revision = refl;
  same_cancel = refl;
  same_created = refl;
  same_length = refl;
  same_counts = refl;
  run_ended = λ h. (refl, refl);
  tasks_kept = TasksKept-refl s.run.tasks;
}

Frame-advance_run :
    (s : RunSnapshot) (to : WorkflowStatus) (at : ℕ)
    → workflow_edge s.run.status to ≡ true
    → Frame s (record s { run = advance_run s.run to at })
unfolding advance_run
Frame-advance_run s to at legal = record {
  same_version = refl;
  same_definition = refl;
  same_id = refl;
  same_definition_id = refl;
  same_definition_version = refl;
  same_revision = refl;
  same_cancel = refl;
  same_created = refl;
  same_length = refl;
  same_counts = refl;
  run_ended = λ h. cc (edge-is_workflow_terminal s.run.status to legal);
  tasks_kept = TasksKept-refl s.run.tasks;
}

Kept-advance_task :
    (to : TaskStatus) (at : ℕ) (task : TaskRun)
    → task_edge task.status to ≡ true
    → Kept task (advance_task to at task)
unfolding advance_task
Kept-advance_task to at task legal = record {
  same_key = refl;
  ended = λ h. cc (edge-is_task_terminal task.status to legal);
  spent = λ n h. h;
}

Kept-SameStatus : {t u : TaskRun} → SameStatus t u → Kept t u
Kept-SameStatus e = record {
  same_key = e.same_key;
  ended = λ h. (e.same_status, e.same_finished);
  spent = e.same_spent;
}

Kept-advance_attempt :
    (to : AttemptStatus) (at : ℕ) (t : TaskRun) {attempt : Attempt}
    → last? t.attempts ≡ some attempt
    → attempt_edge attempt.status to ≡ true
    → Kept t (modify_last_attempt (advance_attempt to at) t)
Kept-advance_attempt to at t last legal = record {
  same_key = refl;
  ended = λ h. (refl, refl);
  spent = advance_attempt-SpentKept to at t.attempts last legal;
}

pub Move-Frame : {s s' : RunSnapshot} → Move s s' → Frame s s'
Move-Frame {s} (workflow_step to at reason h) =
    let (legal, e) = transition_workflow-eq-ok s to at reason h in
    rw e (Frame-trans (Frame-advance_run s to at legal) (Frame-append_event _ at _ reason))
Move-Frame {s} (task_step i to at reason h) =
    let (task, found, legal, e) = transition_task-eq-ok s i to at reason h in
    rw e (
      Frame-trans
        (Frame-modify_task s i (advance_task to at)
          (λ t same. Kept-advance_task to at t (ground (arith, same, found, legal))))
        (Frame-append_event _ at _ reason))
Move-Frame {s} (attempt_step i to at reason h) =
    let (task, attempt, found, last, legal, e) = transition_attempt-eq-ok s i to at reason h in
    rw e (
      Frame-trans
        (Frame-modify_task s i (modify_last_attempt (advance_attempt to at))
          (λ t same. Kept-advance_attempt to at t {attempt = attempt} (cc) legal))
        (Frame-append_event _ at _ reason))
Move-Frame {s} (task_edit i f same e) =
    rw e (Frame-modify_task s i f (λ t found. Kept-SameStatus (same t found)))
Move-Frame {s} (count_edit counts same e) = rw e (record {
  same_version = refl;
  same_definition = refl;
  same_id = refl;
  same_definition_id = refl;
  same_definition_version = refl;
  same_revision = refl;
  same_cancel = refl;
  same_created = refl;
  same_length = refl;
  same_counts = same;
  run_ended = λ h. (refl, refl);
  tasks_kept = TasksKept-refl s.run.tasks;
})

pub Moves-Frame : {s s' : RunSnapshot} → Moves s s' → Frame s s'
Moves-Frame {s} stay = Frame-refl s
Moves-Frame (move m ms) = Frame-trans (Move-Frame m) (Moves-Frame ms)
