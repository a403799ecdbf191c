-- ===== src/Distributed/Traces/Results.antt =====
-- The outcomes of attempts, retries and cancellations as runs of steps.
use ai_workload_platform.Common.{
  is_some, decrement, is_zero, length, modify, length-modify, ok, >>=-eq-ok, ℕ, zero, suc, String,
  ◌≡◌, refl, some, List, [], ◌∷◌,
}
use ai_workload_platform.Distributed.Cancel.{
  canceled_result, has_running_attempt, cancel_open_task, cancel_task, cancel_tasks,
  cancel_run_snapshot,
}
use ai_workload_platform.Distributed.Results.{
  satisfy_dependency, satisfy_dependencies, succeed_task, settle_result, result_of,
  apply_attempt_result, end_attempt, interrupt_attempt, timeout_attempt,
}
use ai_workload_platform.Distributed.Retry.{retry_due, make_retry_ready}
use ai_workload_platform.Distributed.Traces.{
  step_task, step_workflow, step_attempt, edit_result, unchanged, either,
  settle_workflow_if_complete-Moves, fail_task-Moves, some-subst, apply_retry_decision-Moves,
}
use ai_workload_platform.Model.{
  WorkflowStatus, TaskStatus, AttemptStatus, ResultKind, CompiledWorkflow, ExecutionResponse,
  ExecutionResult, TaskRun, RunSnapshot,
}
use ai_workload_platform.State.{is_task_terminal}
use ai_workload_platform.State.Moves.{count_edit, Moves, Moves-trans, Moves-one}

satisfy_dependency-Moves :
    (s : RunSnapshot) (j at : ℕ) {s' : RunSnapshot} → satisfy_dependency s j at ≡ ok s' → Moves s s'
unfolding satisfy_dependency
satisfy_dependency-Moves s j at h =
    let (count, _, h₁) = >>=-eq-ok _ _ h in
    let (_, _, h₂) = >>=-eq-ok _ _ h₁ in
    let left = decrement count in
    let counts = modify j (λ _. left) s.run.remaining_dependencies in
    let counted = record s { run = record s.run { remaining_dependencies = counts } } in
    let recounted : Moves s counted =
      Moves-one
        (count_edit counts (length-modify j (λ _. left) s.run.remaining_dependencies) refl) in
    Moves-trans recounted
      (either (is_zero left) _ _ h₂ (step_task counted j TaskStatus.ready at _) unchanged)

pub satisfy_dependencies-Moves :
    (s : RunSnapshot) (js : List ℕ) (at : ℕ) {s' : RunSnapshot}
    → satisfy_dependencies s js at ≡ ok s'
    → Moves s s'
unfolding satisfy_dependencies
satisfy_dependencies-Moves s [] at h = unchanged h
satisfy_dependencies-Moves s (j ∷ js) at h =
    let (s₁, one, rest) = >>=-eq-ok _ _ h in
    Moves-trans (satisfy_dependency-Moves s j at one) (satisfy_dependencies-Moves s₁ js at rest)

succeed_task-Moves :
    (s : RunSnapshot) (compiled : CompiledWorkflow) (i at : ℕ) {s' : RunSnapshot}
    → succeed_task s compiled i at ≡ ok s'
    → Moves s s'
unfolding succeed_task
succeed_task-Moves s compiled i at h =
    let (finished, ended, h₁) = >>=-eq-ok _ _ h in
    let (succeeded, step, h₂) = >>=-eq-ok _ _ h₁ in
    let (next, _, h₃) = >>=-eq-ok _ _ h₂ in
    let (satisfied, counted, settled) = >>=-eq-ok _ _ h₃ in
    Moves-trans (step_attempt s i AttemptStatus.succeeded at _ ended) (
      Moves-trans (step_task finished i TaskStatus.succeeded at _ step) (
        Moves-trans (satisfy_dependencies-Moves succeeded next at counted)
          (settle_workflow_if_complete-Moves satisfied at settled)))

settle_result-Moves :
    (kind : ResultKind) (s : RunSnapshot) (compiled : CompiledWorkflow) (i number at : ℕ)
    {s' : RunSnapshot}
    → settle_result kind s compiled i number at ≡ ok (some s')
    → Moves s s'
unfolding settle_result
settle_result-Moves ResultKind.temporary_failure s compiled i number at h =
    let (failed, ended, decided) = >>=-eq-ok _ _ h in
    Moves-trans (step_attempt s i AttemptStatus.failed at _ ended)
      (apply_retry_decision-Moves failed compiled i number at _ decided)
settle_result-Moves ResultKind.permanent_failure s compiled i number at h =
    let (failed, ended, h₁) = >>=-eq-ok _ _ h in
    let (settled, done, e) = >>=-eq-ok _ _ h₁ in
    Moves-trans (step_attempt s i AttemptStatus.failed at _ ended)
      (some-subst (Moves failed) e (fail_task-Moves failed compiled i at _ done))
settle_result-Moves ResultKind.success s compiled i number at h =
    let (settled, done, e) = >>=-eq-ok _ _ h in
    some-subst (Moves s) e (succeed_task-Moves s compiled i at done)
settle_result-Moves ResultKind.canceled s compiled i number at h = cc
settle_result-Moves (ResultKind.unknown text) s compiled i number at h = cc

pub apply_attempt_result-Moves :
    (s : RunSnapshot) (compiled : CompiledWorkflow) (i number : ℕ) (response : ExecutionResponse)
    (at : ℕ) {s' : RunSnapshot}
    → apply_attempt_result s compiled i number response at ≡ ok (some s')
    → Moves s s'
unfolding apply_attempt_result
apply_attempt_result-Moves s compiled i number response at h =
    let (active, _, rest) = >>=-eq-ok _ _ h in
    either (is_some active) _ _ rest
      (λ settled.
        Moves-trans (edit_result s i (result_of response))
          (settle_result-Moves response.kind _ compiled i number at settled))
      λ late. cc

end_attempt-Moves :
    (to : AttemptStatus) (result : ExecutionResult) (s : RunSnapshot) (compiled : CompiledWorkflow)
    (i number at : ℕ) (reason : String) {s' : RunSnapshot}
    → end_attempt to result s compiled i number at reason ≡ ok (some s')
    → Moves s s'
unfolding end_attempt
end_attempt-Moves to result s compiled i number at reason h =
    let (active, _, rest) = >>=-eq-ok _ _ h in
    either (is_some active) _ _ rest
      (λ stopped.
        let (ended, step, decided) = >>=-eq-ok _ _ stopped in
        Moves-trans (edit_result s i result) (
          Moves-trans (step_attempt _ i to at reason step)
            (apply_retry_decision-Moves ended compiled i number at reason decided)))
      λ late. cc

pub interrupt_attempt-Moves :
    (s : RunSnapshot) (compiled : CompiledWorkflow) (i number at : ℕ) (reason : String)
    {s' : RunSnapshot}
    → interrupt_attempt s compiled i number at reason ≡ ok (some s')
    → Moves s s'
unfolding interrupt_attempt
interrupt_attempt-Moves s compiled i number at reason =
    end_attempt-Moves AttemptStatus.interrupted _ s compiled i number at reason

pub timeout_attempt-Moves :
    (s : RunSnapshot) (compiled : CompiledWorkflow) (i number at : ℕ) {s' : RunSnapshot}
    → timeout_attempt s compiled i number at ≡ ok (some s')
    → Moves s s'
unfolding timeout_attempt
timeout_attempt-Moves s compiled i number at =
    end_attempt-Moves AttemptStatus.timed_out _ s compiled i number at _

pub make_retry_ready-Moves :
    (s : RunSnapshot) (i number at : ℕ) {s' : RunSnapshot}
    → make_retry_ready s i number at ≡ ok (some s')
    → Moves s s'
unfolding make_retry_ready
make_retry_ready-Moves s i number at h =
    let (task, _, rest) = >>=-eq-ok _ _ h in
    either (retry_due task number at) _ _ rest
      (λ due.
        let (released, step, e) = >>=-eq-ok _ _ due in
        some-subst (Moves s) e (step_task s i TaskStatus.ready at _ step))
      λ early. cc

cancel_open_task-Moves :
    (s : RunSnapshot) (i : ℕ) (task : TaskRun) (at : ℕ) {s' : RunSnapshot}
    → cancel_open_task s i task at ≡ ok s'
    → Moves s s'
unfolding cancel_open_task
cancel_open_task-Moves s i task at h =
    let (stopped, attempt, step) = >>=-eq-ok _ _ h in
    let ended : Moves s stopped =
      either (has_running_attempt task) _ _ attempt
        (λ e.
          Moves-trans (edit_result s i canceled_result)
            (step_attempt _ i AttemptStatus.canceled at _ e))
        unchanged in
    Moves-trans ended (step_task stopped i TaskStatus.canceled at _ step)

cancel_task-Moves :
    (s : RunSnapshot) (i at : ℕ) {s' : RunSnapshot} → cancel_task s i at ≡ ok s' → Moves s s'
unfolding cancel_task
cancel_task-Moves s i at h =
    let (task, _, rest) = >>=-eq-ok _ _ h in
    either (is_task_terminal task.status) _ _ rest unchanged (cancel_open_task-Moves s i task at)

cancel_tasks-Moves :
    (count i : ℕ) (s : RunSnapshot) (at : ℕ) {s' : RunSnapshot}
    → cancel_tasks count i s at ≡ ok s'
    → Moves s s'
unfolding cancel_tasks
cancel_tasks-Moves zero i s at h = unchanged h
cancel_tasks-Moves (suc count) i s at h =
    let (s₁, one, rest) = >>=-eq-ok _ _ h in
    Moves-trans (cancel_task-Moves s i at one) (cancel_tasks-Moves count (suc i) s₁ at rest)

pub cancel_run_snapshot-Moves :
    (s : RunSnapshot) (at : ℕ) {s' : RunSnapshot} → cancel_run_snapshot s at ≡ ok s' → Moves s s'
unfolding cancel_run_snapshot
cancel_run_snapshot-Moves s at h =
    let (canceled, tasks, ended) = >>=-eq-ok _ _ h in
    Moves-trans (cancel_tasks-Moves (length s.run.tasks) 0 s at tasks)
      (step_workflow canceled WorkflowStatus.canceled at _ ended)
