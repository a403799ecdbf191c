-- ===== src/Recovery/Traces.antt =====
-- What `prepareForResume` does to a stored run is a sequence of the steps of the state machines.
use ai_workload_platform.Common.{
  ◌==◌, pos, ltz, length, modify, length-modify, length-map, ok, >>=-eq-ok, ok-subst, ℕ, zero, suc,
  ◌≡◌, refl, sym, ◌∙◌, ◌&&◌, List, [], ◌∷◌, map,
}
use ai_workload_platform.Distributed.Retry.{set_ready_at}
use ai_workload_platform.Distributed.Settle.{is_task_running}
use ai_workload_platform.Distributed.Traces.{
  step_task, same_of_due, unchanged, either, skip_descendants_from-Moves,
}
use ai_workload_platform.Model.{
  TaskStatus, AttemptStatus, TaskDefinition, CompiledWorkflow, TaskRun, RunSnapshot,
}
use ai_workload_platform.Recovery.{
  wait_again, retry_or_fail, interrupt_task, restart_tasks, set_count, is_waiting_dependencies,
  release_task, restore_open, restore_tasks, reset_counts, prepare_for_resume,
}
use ai_workload_platform.State.{is_task_terminal, modify_task}
use ai_workload_platform.State.Appended.{Appended, Moves-Appended}
use ai_workload_platform.State.Kept.{Frame, Moves-Frame}
use ai_workload_platform.State.Moves.{
  attempt_step, task_edit, count_edit, Moves, Moves-trans, Moves-one,
}

step_ready : (s : RunSnapshot) (i : ℕ) (now : ℕ) → Moves s (modify_task s i (set_ready_at now))
step_ready s i now = Moves-one (task_edit i (set_ready_at now) (λ t found. same_of_due now t) refl)

wait_again-Moves :
    (s : RunSnapshot) (i now : ℕ) {s' : RunSnapshot} → wait_again s i now ≡ ok s' → Moves s s'
unfolding wait_again
wait_again-Moves s i now h =
    let (waiting, step, e) = >>=-eq-ok _ _ h in
    Moves-trans (step_task _ i TaskStatus.waiting_retry now _ step)
      (ok-subst (Moves waiting) e (step_ready waiting i now))

interrupt_task-Moves :
    (s : RunSnapshot) (i : ℕ) (task : TaskRun) (definition : TaskDefinition) (now : ℕ)
    {s' : RunSnapshot}
    → interrupt_task s i task definition now ≡ ok s'
    → Moves s s'
unfolding interrupt_task retry_or_fail
interrupt_task-Moves s i task definition now h =
    let (stopped, first, rest) = >>=-eq-ok _ _ h in
    Moves-trans (Moves-one (attempt_step i AttemptStatus.interrupted now _ first)) (
      either (ltz (length task.attempts) definition.retry.max_attempts) _ _ rest
        (wait_again-Moves stopped i now) (λ step. step_task _ i TaskStatus.failed now _ step))

restart_tasks-Moves :
    (definitions : List TaskDefinition) (i : ℕ) (s : RunSnapshot) (now : ℕ) {s' : RunSnapshot}
    → restart_tasks definitions i s now ≡ ok s'
    → Moves s s'
unfolding restart_tasks
restart_tasks-Moves [] i s now h = unchanged h
restart_tasks-Moves (definition ∷ definitions) i s now h =
    let (task, _, h₁) = >>=-eq-ok _ _ h in
    let (_, _, h₂) = >>=-eq-ok _ _ h₁ in
    let (_, _, h₃) = >>=-eq-ok _ _ h₂ in
    let (s₁, first, rest) = >>=-eq-ok _ _ h₃ in
    Moves-trans
      (either (is_task_running task.status) _ _ first (interrupt_task-Moves s i task definition now)
        unchanged)
      (restart_tasks-Moves definitions (suc i) s₁ now rest)

recount : (s : RunSnapshot) (i n : ℕ) → Moves s (set_count s i n)
recount s i n = Moves-one (
    count_edit (modify i (λ _. pos n) s.run.remaining_dependencies)
      (length-modify i (λ _. pos n) s.run.remaining_dependencies) refl)

release_task-Moves :
    (s : RunSnapshot) (i : ℕ) (status : TaskStatus) (unmet now : ℕ) {s' : RunSnapshot}
    → release_task s i status unmet now ≡ ok s'
    → Moves s s'
unfolding release_task
release_task-Moves s i status unmet now h =
    let (released, step, h₁) = >>=-eq-ok _ _ h in
    let (_, _, e) = >>=-eq-ok _ _ h₁ in
    ok-subst (Moves s) e (
      either (unmet == 0 && is_waiting_dependencies status) _ _ step
        (λ taken. step_task _ i TaskStatus.ready now _ taken) unchanged)

restore_open-Moves :
    (s : RunSnapshot) (compiled : CompiledWorkflow) (i : ℕ) (status : TaskStatus) (now : ℕ)
    {s' : RunSnapshot}
    → restore_open s compiled i status now ≡ ok s'
    → Moves s s'
unfolding restore_open
restore_open-Moves s compiled i status now h =
    let (needed, _, h₁) = >>=-eq-ok _ _ h in
    let (counted, _, h₂) = >>=-eq-ok _ _ h₁ in
    Moves-trans (recount s i counted.0) (
      either counted.1 _ _ h₂ (λ taken. step_task _ i TaskStatus.skipped now _ taken)
        (release_task-Moves (set_count s i counted.0) i status counted.0 now))

restore_tasks-Moves :
    (count i : ℕ) (s : RunSnapshot) (compiled : CompiledWorkflow) (now : ℕ) {s' : RunSnapshot}
    → restore_tasks count i s compiled now ≡ ok s'
    → Moves s s'
unfolding restore_tasks
restore_tasks-Moves zero i s compiled now h = unchanged h
restore_tasks-Moves (suc count) i s compiled now h =
    let (task, _, h₁) = >>=-eq-ok _ _ h in
    let (s₁, first, rest) = >>=-eq-ok _ _ h₁ in
    Moves-trans
      (either (is_task_terminal task.status) _ _ first unchanged
        (restore_open-Moves s compiled i task.status now))
      (restore_tasks-Moves count (suc i) s₁ compiled now rest)

pub prepare_for_resume-Moves :
    (s : RunSnapshot) (compiled : CompiledWorkflow) (now : ℕ) {s' : RunSnapshot}
    → prepare_for_resume s compiled now ≡ ok s'
    → Moves (reset_counts s) s'
unfolding prepare_for_resume
prepare_for_resume-Moves s compiled now h =
    let (_, _, h₁) = >>=-eq-ok _ _ h in
    let (restarted, first, h₂) = >>=-eq-ok _ _ h₁ in
    let (spread, second, third) = >>=-eq-ok _ _ h₂ in
    Moves-trans (restart_tasks-Moves compiled.definition.tasks 0 (reset_counts s) now first) (
      Moves-trans (skip_descendants_from-Moves restarted compiled _ now second)
        (restore_tasks-Moves (length spread.run.tasks) 0 spread compiled now third))

resetting :
    (s : RunSnapshot)
    → length s.run.remaining_dependencies ≡ length s.run.tasks
    → Moves s (reset_counts s)
resetting s same = Moves-one (
    count_edit (map (λ _. pos 0) s.run.tasks) (length-map (λ _. pos 0) s.run.tasks ∙ sym same) refl)

-- The check of a stored run keeps its identity, version and revision, and the status and end of the
-- run and of each task that had ended, where the stored row has a count for each task. It only appends
-- to the log, also where the run row has no number of the last event: the new events are numbered
-- one after another, modulo 2 ^ 64, from the higher of the number in the run row and that of the
-- last event kept.
pub prepare_for_resume-Frame :
    (s : RunSnapshot) (compiled : CompiledWorkflow) (now : ℕ) {s' : RunSnapshot}
    → length s.run.remaining_dependencies ≡ length s.run.tasks
    → prepare_for_resume s compiled now ≡ ok s'
    → Frame s s' × Appended s s'
prepare_for_resume-Frame s compiled now same h =
    let all = Moves-trans (resetting s same) (prepare_for_resume-Moves s compiled now h) in
    (Moves-Frame all, Moves-Appended all)
