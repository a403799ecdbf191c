-- ===== src/Distributed/Canceled.antt =====
-- What `CancelRunSnapshot` does to a run that is still open.
use ai_workload_platform.Common.{
  Bool-cases, length, get_elem?, modify, length-modify, get_elem?-of-lt, map_from, map_from-zero,
  map_from-end, map_from-modify, ok, ◌>>=◌, ℕ, zero, suc, ◌+◌, ◌≡◌, refl, sym, ap, ◌∙◌, inl, inr,
  true, some, List, [], ◌∷◌, map, arith,
}
use ai_workload_platform.Distributed.Cancel.{cancel_tasks, cancel_run_snapshot}
use ai_workload_platform.Distributed.Stopped.{
  is_known_task, is_open_run, canceled_task, AllKnown, Done, cancel_task-Done,
}
use ai_workload_platform.Model.{WorkflowStatus, TaskRun, of_workflow, RunSnapshot}
use ai_workload_platform.Postgres.Tables.{is_open}
use ai_workload_platform.State.{
  workflow_edge, is_task_terminal, append_event, advance_run, transition_workflow, advance_task,
}

known_at :
    (ts : List TaskRun) (i : ℕ) (t : TaskRun)
    → AllKnown ts
    → get_elem? ts i ≡ some t
    → is_known_task t.status ≡ true
known_at [] i t k h = cc
known_at (u ∷ ts) zero t k h = ground (arith, k.0, h)
known_at (u ∷ ts) (suc i) t k h = known_at ts i t k.1 h

known-advance :
    (at : ℕ) (t : TaskRun)
    → is_known_task t.status ≡ true
    → is_known_task (canceled_task at t).status ≡ true
unfolding advance_task
known-advance at t h = elim (Bool-cases (is_task_terminal t.status)) [
  | inl over ↦ rw over h
  | inr live ↦ rw live refl
]

AllKnown-modify :
    (i at : ℕ) (ts : List TaskRun) → AllKnown ts → AllKnown (modify i (canceled_task at) ts)
AllKnown-modify i at [] k = tt
AllKnown-modify zero at (t ∷ ts) k = (known-advance at t k.0, k.1)
AllKnown-modify (suc i) at (t ∷ ts) k = (k.0, AllKnown-modify i at ts k.1)

cancel_tasks-Done :
    (count i : ℕ) (s : RunSnapshot) (at : ℕ)
    → i + count ≡ length s.run.tasks
    → AllKnown s.run.tasks
    → Done s (cancel_tasks count i s at) (map_from i (canceled_task at) s.run.tasks)
unfolding Done cancel_tasks ◌>>=◌
cancel_tasks-Done zero i s at h k =
    (s, refl, sym (map_from-end i (canceled_task at) s.run.tasks (omega arith)), refl)
cancel_tasks-Done (suc count) i s at h k =
    let (t, found) = get_elem?-of-lt s.run.tasks i (omega arith) in
    let (s₁, first, tasks, status) =
      cancel_task-Done s i at t found (known_at s.run.tasks i t k found) in
    let same : length s₁.run.tasks ≡ length s.run.tasks =
      rw tasks (length-modify i (canceled_task at) s.run.tasks) in
    let (s₂, rest, tasks', status') =
      cancel_tasks-Done count (suc i) s₁ at (omega (arith, same, h))
        (rw tasks (AllKnown-modify i at s.run.tasks k)) in
    (
      s₂,
      rw first rest,
      tasks'
          ∙ ap (map_from (suc i) (canceled_task at)) tasks
          ∙ map_from-modify i (canceled_task at) s.run.tasks,
      status' ∙ status,
    )

open-edge :
    (status : WorkflowStatus)
    → is_open_run status ≡ true
    → workflow_edge status WorkflowStatus.canceled ≡ true
unfolding workflow_edge
open-edge status h = ground arith

-- A pending or running run whose tasks have known statuses can be canceled, whatever its attempts
-- are. The run is then canceled; each task that had ended is unchanged, each other task is
-- canceled, and so is the attempt that it had running.
pub cancel_run_snapshot-total :
    (s : RunSnapshot) (at : ℕ)
    → is_open_run s.run.status ≡ true
    → AllKnown s.run.tasks
    → (s' : RunSnapshot) × (cancel_run_snapshot s at ≡ ok s')
      × (s'.run.status ≡ WorkflowStatus.canceled)
      × (s'.run.tasks ≡ map (canceled_task at) s.run.tasks)
unfolding cancel_run_snapshot transition_workflow append_event Done ◌>>=◌
cancel_run_snapshot-total s at is_open known =
    let (s₁, looped, tasks, status) =
      cancel_tasks-Done (length s.run.tasks) 0 s at (omega arith) known in
    let legal : workflow_edge s₁.run.status WorkflowStatus.canceled ≡ true =
      rw status (open-edge s.run.status is_open) in
    let s₂ =
      append_event (record s₁ { run = advance_run s₁.run WorkflowStatus.canceled at }) at
        (of_workflow s₁.run.id s₁.run.status WorkflowStatus.canceled) "cancellation requested" in
    (s₂, rw looped (rw legal refl), refl, tasks ∙ map_from-zero (canceled_task at) s.run.tasks)
