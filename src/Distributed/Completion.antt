-- ===== src/Distributed/Completion.antt =====
-- A run ends with its last task (`settleWorkflowIfComplete` of workflow/distributed_state.go).
use ai_workload_platform.Common.{
  is_some, ℤ, ltz, by_branch, get_elem?, modify, get_elem?-modify_self, ok, >>=-eq-ok, ok-subst, ℕ,
  zero, suc, String, ◌≡◌, refl, sym, ◌∙◌, Bool, true, false, not, some, List, [], ◌∷◌, arith,
}
use ai_workload_platform.Distributed.Results.{
  succeed_task, settle_result, settle_response, apply_attempt_result, stop_unreported, end_attempt,
  timeout_attempt,
}
use ai_workload_platform.Distributed.Retry.{
  add_millis, set_ready_at, fail_task, wait_for_retry, apply_retry_decision,
}
use ai_workload_platform.Distributed.Settle.{
  has_failed_task, all_tasks_succeeded, all_tasks_terminal, settle_workflow_if_complete,
}
use ai_workload_platform.Distributed.Traces.{either, some-subst}
use ai_workload_platform.Model.{
  WorkflowStatus, TaskStatus, ResultKind, CompiledWorkflow, ExecutionResponse, TaskRun, RunSnapshot,
}
use ai_workload_platform.State.{
  is_workflow_terminal, is_task_terminal, append_event, advance_run, transition_workflow,
  advance_task, transition_task,
}
use ai_workload_platform.State.Moves.{transition_task-eq-ok, transition_workflow-eq-ok}

abbrev TaskIs : (TaskStatus → Bool) → ℕ → RunSnapshot → Type 0
TaskIs test i s = (t : TaskRun) × (get_elem? s.run.tasks i ≡ some t) × (test t.status ≡ true)

-- A step leaves its task at the status that it goes to.
transition_task-TaskIs :
    (test : TaskStatus → Bool) (s : RunSnapshot) (i : ℕ) (to : TaskStatus) (at : ℕ)
    (reason : String) {s' : RunSnapshot}
    → test to ≡ true
    → transition_task s i to at reason ≡ ok s'
    → TaskIs test i s'
unfolding append_event advance_task
transition_task-TaskIs test s i to at reason holds h =
    let (t, found, legal, e) = transition_task-eq-ok s i to at reason h in
    let moved = get_elem?-modify_self i (advance_task to at) s.run.tasks found in
    (advance_task to at t, rw e moved, holds)

true-false : ¬ (true ≡ false)
true-false h = cc

abbrev pub Complete : RunSnapshot → Type 0
Complete s = all_tasks_terminal s.run.tasks ≡ true → is_workflow_terminal s.run.status ≡ true

transition_workflow-status :
    (s : RunSnapshot) (to : WorkflowStatus) (at : ℕ) (reason : String) {s' : RunSnapshot}
    → transition_workflow s to at reason ≡ ok s'
    → s'.run.status ≡ to
unfolding append_event advance_run
transition_workflow-status s to at reason h =
    let (legal, e) = transition_workflow-eq-ok s to at reason h in rw e refl

settle_workflow_if_complete-Complete :
    (s : RunSnapshot) (at : ℕ) {s' : RunSnapshot}
    → settle_workflow_if_complete s at ≡ ok s'
    → Complete s'
unfolding settle_workflow_if_complete is_workflow_terminal
settle_workflow_if_complete-Complete s at h =
    by_branch (all_tasks_terminal s.run.tasks) _ _ h
      (λ all settled.
        by_branch (has_failed_task s.run.tasks) _ _ settled
          (λ failed step over.
            rw (transition_workflow-status s WorkflowStatus.failed at _ step) refl)
          (λ none_failed rest.
            by_branch (all_tasks_succeeded s.run.tasks) _ _ rest
              (λ good step over.
                rw (transition_workflow-status s WorkflowStatus.succeeded at _ step) refl)
              (λ mixed impossible. cc)))
      (λ some_open same over. absurd (
        true-false
          (sym over ∙ ok-subst (λ t. all_tasks_terminal t.run.tasks ≡ false) same some_open)))

all_tasks_terminal-open :
    (tasks : List TaskRun) (i : ℕ) (t : TaskRun)
    → get_elem? tasks i ≡ some t
    → is_task_terminal t.status ≡ false
    → all_tasks_terminal tasks ≡ false
unfolding all_tasks_terminal
all_tasks_terminal-open [] i t found live = cc
all_tasks_terminal-open (u ∷ tasks) zero t found live = ground (arith, found, live)
all_tasks_terminal-open (u ∷ tasks) (suc i) t found live =
    ground (arith, all_tasks_terminal-open tasks i t found live)

wait_for_retry-Complete :
    (s : RunSnapshot) (i : ℕ) (interval : ℤ) (at : ℕ) (reason : String) {s' : RunSnapshot}
    → wait_for_retry s i interval at reason ≡ ok s'
    → Complete s'
unfolding wait_for_retry is_task_terminal
wait_for_retry-Complete s i interval at reason h over =
    let (waiting, step, e) = >>=-eq-ok _ _ h in
    let (t, found, live) =
      transition_task-TaskIs (λ status. not (is_task_terminal status)) s i TaskStatus.waiting_retry
        at reason refl step in
    let due = set_ready_at (add_millis at interval) in
    let unfinished =
      all_tasks_terminal-open (modify i due waiting.run.tasks) i (due t)
        (get_elem?-modify_self i due waiting.run.tasks found) (ground (arith, live)) in
    absurd
      (true-false (sym over ∙ ok-subst (λ u. all_tasks_terminal u.run.tasks ≡ false) e unfinished))

fail_task-Complete :
    (s : RunSnapshot) (compiled : CompiledWorkflow) (i at : ℕ) (reason : String) {s' : RunSnapshot}
    → fail_task s compiled i at reason ≡ ok s'
    → Complete s'
unfolding fail_task
fail_task-Complete s compiled i at reason h =
    let (failed, step, h₁) = >>=-eq-ok _ _ h in
    let (skipped, spread, settled) = >>=-eq-ok _ _ h₁ in
    settle_workflow_if_complete-Complete skipped at settled

apply_retry_decision-Complete :
    (s : RunSnapshot) (compiled : CompiledWorkflow) (i number at : ℕ) (reason : String)
    {s' : RunSnapshot}
    → apply_retry_decision s compiled i number at reason ≡ ok (some s')
    → Complete s'
unfolding apply_retry_decision
apply_retry_decision-Complete s compiled i number at reason h =
    let (definition, _, h₁) = >>=-eq-ok _ _ h in
    let (settled, chosen, e) = >>=-eq-ok _ _ h₁ in
    some-subst Complete e (
      either (ltz number definition.retry.max_attempts) _ _ chosen
        (wait_for_retry-Complete s i definition.retry.interval_millis at reason)
        (fail_task-Complete s compiled i at _))

settle_result-Complete :
    (kind : ResultKind) (s : RunSnapshot) (compiled : CompiledWorkflow) (i number at : ℕ)
    {s' : RunSnapshot}
    → settle_result kind s compiled i number at ≡ ok (some s')
    → Complete s'
unfolding settle_result succeed_task
settle_result-Complete ResultKind.temporary_failure s compiled i number at h =
    let (failed, ended, chosen) = >>=-eq-ok _ _ h in
    apply_retry_decision-Complete failed compiled i number at _ chosen
settle_result-Complete ResultKind.permanent_failure s compiled i number at h =
    let (failed, ended, h₁) = >>=-eq-ok _ _ h in
    let (settled, done, e) = >>=-eq-ok _ _ h₁ in
    some-subst Complete e (fail_task-Complete failed compiled i at _ done)
settle_result-Complete ResultKind.success s compiled i number at h =
    let (settled, done, e) = >>=-eq-ok _ _ h in
    let (ended, _, h₁) = >>=-eq-ok _ _ done in
    let (succeeded, _, h₂) = >>=-eq-ok _ _ h₁ in
    let (next, _, h₃) = >>=-eq-ok _ _ h₂ in
    let (satisfied, counted, last) = >>=-eq-ok _ _ h₃ in
    some-subst Complete e (settle_workflow_if_complete-Complete satisfied at last)
settle_result-Complete ResultKind.canceled s compiled i number at h = cc
settle_result-Complete (ResultKind.unknown text) s compiled i number at h = cc

-- A report that is applied ends the run if it ends the last task: when all tasks have ended, the
-- run has too.
pub apply_attempt_result-Complete :
    (s : RunSnapshot) (compiled : CompiledWorkflow) (i number : ℕ) (response : ExecutionResponse)
    (at : ℕ) {s' : RunSnapshot}
    → apply_attempt_result s compiled i number response at ≡ ok (some s')
    → all_tasks_terminal s'.run.tasks ≡ true
    → is_workflow_terminal s'.run.status ≡ true
unfolding apply_attempt_result settle_response
apply_attempt_result-Complete s compiled i number response at h =
    let (active, _, rest) = >>=-eq-ok _ _ h in
    either (is_some active) _ _ rest (settle_result-Complete response.kind _ compiled i number at)
      λ late. cc

-- A timeout that is applied ends the run if it ends the last task: when all tasks have ended, the
-- run has too.
pub timeout_attempt-Complete :
    (s : RunSnapshot) (compiled : CompiledWorkflow) (i number at : ℕ) {s' : RunSnapshot}
    → timeout_attempt s compiled i number at ≡ ok (some s')
    → all_tasks_terminal s'.run.tasks ≡ true
    → is_workflow_terminal s'.run.status ≡ true
unfolding timeout_attempt end_attempt stop_unreported
timeout_attempt-Complete s compiled i number at h =
    let (active, _, rest) = >>=-eq-ok _ _ h in
    either (is_some active) _ _ rest
      (λ stopped.
        let (ended, step, chosen) = >>=-eq-ok _ _ stopped in
        apply_retry_decision-Complete ended compiled i number at _ chosen)
      λ late. cc
