-- ===== src/Distributed/Stopped.antt =====
-- One turn of the loop of `CancelRunSnapshot` (workflow/distributed_state.go).
use ai_workload_platform.Common.{
  if◌then◌else◌, Bool-cases, Option-cases, get_elem?, modify, last?, get_elem?-modify_self,
  last?-modify_last, modify-eq, modify-id, modify-modify, modify_last-modify_last, Result, ok,
  ◌>>=◌, ℕ, String, ◌≡◌, refl, sym, ap, ◌∙◌, inl, inr, Bool, true, false, some, List, [], ◌∷◌,
  arith,
}
use ai_workload_platform.Distributed.Cancel.{
  canceled_result, has_running_attempt, stop_attempt, cancel_open_task, cancel_task,
}
use ai_workload_platform.Distributed.Settle.{set_result}
use ai_workload_platform.Model.{
  WorkflowStatus, TaskStatus, AttemptStatus, Attempt, TaskRun, of_task, of_attempt, RunSnapshot,
}
use ai_workload_platform.State.{
  task_edge, attempt_edge, is_task_terminal, append_event, advance_task, modify_task,
  transition_task, advance_attempt, modify_last_attempt, transition_attempt,
}

-- The status is one of the constants.
abbrev pub is_known_task : TaskStatus → Bool
is_known_task (TaskStatus.unknown text) = false
is_known_task _ = true

abbrev pub is_open_run : WorkflowStatus → Bool
is_open_run WorkflowStatus.pending = true
is_open_run WorkflowStatus.running = true
is_open_run _ = false

-- The task as a cancellation leaves it: one that has ended is untouched, any other is canceled,
-- and so is the attempt that it has running.
abbrev pub cancel_attempt : ℕ → Attempt → Attempt
cancel_attempt at attempt =
    advance_attempt AttemptStatus.canceled at (set_result canceled_result attempt)

abbrev pub canceled_task : ℕ → TaskRun → TaskRun
canceled_task at task =
    if is_task_terminal task.status
    then task
    else advance_task TaskStatus.canceled at
        (if has_running_attempt task then modify_last_attempt (cancel_attempt at) task else task)

abbrev pub AllKnown : List TaskRun → Type 0
AllKnown [] = Unit {0}
AllKnown (t ∷ ts) = (is_known_task t.status ≡ true) × AllKnown ts

pub known-cancel :
    (status : TaskStatus)
    → is_known_task status ≡ true
    → is_task_terminal status ≡ false
    → task_edge status TaskStatus.canceled ≡ true
unfolding task_edge is_task_terminal
known-cancel status known live = ground arith

-- A step succeeded, and this is what it did to the tasks.
unfoldable pub Done : RunSnapshot → Result RunSnapshot → List TaskRun → Type 0
Done s r tasks =
    (s' : RunSnapshot) × (r ≡ ok s') × (s'.run.tasks ≡ tasks) × (s'.run.status ≡ s.run.status)

module _ (s : RunSnapshot) (i at : ℕ) (t : TaskRun) (found : get_elem? s.run.tasks i ≡ some t) where
  pub transition_task-Done :
      (to : TaskStatus) (reason : String)
      → task_edge t.status to ≡ true
      → Done s (transition_task s i to at reason) (modify i (advance_task to at) s.run.tasks)
  unfolding Done transition_task append_event ◌>>=◌
  transition_task-Done to reason legal =
      let s' =
        append_event (modify_task s i (advance_task to at)) at (of_task t.key t.status to) reason in
      (s', rw found (rw legal), refl, refl)

  pub transition_attempt-Done :
      (a : Attempt) (to : AttemptStatus) (reason : String)
      → last? t.attempts ≡ some a
      → attempt_edge a.status to ≡ true
      → Done s
          (transition_attempt s i to at reason)
          (modify i (modify_last_attempt (advance_attempt to at)) s.run.tasks)
  unfolding Done transition_attempt append_event ◌>>=◌
  transition_attempt-Done a to reason last legal =
      let s' =
        append_event (modify_task s i (modify_last_attempt (advance_attempt to at))) at
          (of_attempt t.key a.number a.status to) reason in
      (s', rw found (rw last (rw legal)), refl, refl)

-- The task after the attempt that it has running was stopped.
abbrev pub stopped_task : ℕ → TaskRun → TaskRun
stopped_task at task =
    if has_running_attempt task then modify_last_attempt (cancel_attempt at) task else task

pub running_attempt :
    (t : TaskRun)
    → has_running_attempt t ≡ true
    → (a : Attempt) × (last? t.attempts ≡ some a)
      × (attempt_edge a.status AttemptStatus.canceled ≡ true)
unfolding attempt_edge
running_attempt t h = elim (Option-cases (last? t.attempts)) [
  | inl e ↦ absurd (ground (arith, e))
  | inr (a, e) ↦ (a, e, ground (arith, e))
]

module _ (s : RunSnapshot) (i at : ℕ) (t : TaskRun) (found : get_elem? s.run.tasks i ≡ some t) where
  pub stop_running :
      has_running_attempt t ≡ true
      → Done s (stop_attempt s i t at) (modify i (stopped_task at) s.run.tasks)
  unfolding Done stop_attempt
  stop_running on =
      let (a, last, legal) = running_attempt t on in
      let texted = modify_last_attempt (set_result canceled_result) in
      let (s', step, tasks, status) =
        transition_attempt-Done (modify_task s i texted) i at (texted t)
          (get_elem?-modify_self i texted s.run.tasks found) (set_result canceled_result a)
          AttemptStatus.canceled "workflow canceled"
          (last?-modify_last (set_result canceled_result) t.attempts last) legal in
      (
        s',
        rw on step,
        tasks
            ∙ modify-modify i (modify_last_attempt (advance_attempt AttemptStatus.canceled at))
                texted s.run.tasks
            ∙ modify-eq i _ (stopped_task at) s.run.tasks found (
                rw on (
                  ap (λ attempts. record t { attempts = attempts })
                    (modify_last-modify_last (advance_attempt AttemptStatus.canceled at)
                      (set_result canceled_result) t.attempts))),
        status,
      )

  pub stop_idle :
      has_running_attempt t ≡ false
      → Done s (stop_attempt s i t at) (modify i (stopped_task at) s.run.tasks)
  unfolding Done stop_attempt
  stop_idle off =
      (s, rw off refl, sym (modify-id i (stopped_task at) s.run.tasks found (rw off refl)), refl)

  pub stop_attempt-Done : Done s (stop_attempt s i t at) (modify i (stopped_task at) s.run.tasks)
  stop_attempt-Done = elim (Bool-cases (has_running_attempt t)) [
    | inl on ↦ stop_running on
    | inr off ↦ stop_idle off
  ]

  pub stopped-status : (stopped_task at t).status ≡ t.status
  stopped-status = elim (Bool-cases (has_running_attempt t)) [ inl on ↦ rw on | inr off ↦ rw off ]

  pub cancel_open :
      is_known_task t.status ≡ true
      → is_task_terminal t.status ≡ false
      → Done s (cancel_open_task s i t at) (modify i (canceled_task at) s.run.tasks)
  unfolding Done cancel_open_task ◌>>=◌
  cancel_open known live =
      let (stopped, first, tasks, status) = stop_attempt-Done in
      let here : get_elem? stopped.run.tasks i ≡ some (stopped_task at t) =
        rw tasks (get_elem?-modify_self i (stopped_task at) s.run.tasks found) in
      let legal = known-cancel t.status known live in
      let (s', second, tasks', status') =
        transition_task-Done stopped i at (stopped_task at t) here TaskStatus.canceled
          "workflow canceled" (rw stopped-status legal) in
      (
        s',
        rw first second,
        tasks'
            ∙ ap (modify i (advance_task TaskStatus.canceled at)) tasks
            ∙ modify-modify i (advance_task TaskStatus.canceled at) (stopped_task at) s.run.tasks
            ∙ modify-eq i _ (canceled_task at) s.run.tasks found (rw live refl),
        status' ∙ status,
      )

  pub cancel_task-Done :
      is_known_task t.status ≡ true
      → Done s (cancel_task s i at) (modify i (canceled_task at) s.run.tasks)
  unfolding Done cancel_task ◌>>=◌
  cancel_task-Done known = elim (Bool-cases (is_task_terminal t.status)) [
    | inl over ↦ (
      s,
      rw found (rw over refl),
      sym (modify-id i (canceled_task at) s.run.tasks found (rw over refl)),
      refl,
    )
    | inr live ↦
        let (s', step, tasks, status) = cancel_open known live in
        (s', rw found (rw live step), tasks, status)
  ]
