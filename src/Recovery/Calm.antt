-- ===== src/Recovery/Calm.antt =====
-- Steps that leave a task at rest, for the resume of workflow/recovery.go.
use ai_workload_platform.Common.{
  ltz, length, get_elem?, modify, ok, >>=-eq-ok, ok-subst, ℕ, zero, suc, String, ◌≡◌, refl, false,
  some, List, [], ◌∷◌,
}
use ai_workload_platform.Distributed.Retry.{set_ready_at}
use ai_workload_platform.Distributed.Settle.{is_task_running}
use ai_workload_platform.Distributed.Traces.{either}
use ai_workload_platform.Model.{TaskStatus, AttemptStatus, TaskDefinition, TaskRun, RunSnapshot}
use ai_workload_platform.Recovery.{wait_again, retry_or_fail, interrupt_task}
use ai_workload_platform.State.{
  append_event, advance_task, transition_task, advance_attempt, modify_last_attempt,
  transition_attempt,
}
use ai_workload_platform.State.Moves.{transition_task-eq-ok, transition_attempt-eq-ok}

abbrev pub CalmAt : ℕ → List TaskRun → Type 0
CalmAt j ts = (t : TaskRun) → get_elem? ts j ≡ some t → is_task_running t.status ≡ false

abbrev pub Calming : (TaskRun → TaskRun) → Type 0
Calming f = (t : TaskRun) → is_task_running t.status ≡ false → is_task_running (f t).status ≡ false

pub calm_of :
    {t u : TaskRun}
    → some t ≡ some u
    → is_task_running t.status ≡ false
    → is_task_running u.status ≡ false
calm_of {t} {u} h calm = let same : t ≡ u = cc in rw (← same) calm

pub modify-CalmAt :
    (i j : ℕ) (f : TaskRun → TaskRun) (ts : List TaskRun)
    → Calming f
    → CalmAt j ts
    → CalmAt j (modify i f ts)
modify-CalmAt i j f [] k c t h = cc
modify-CalmAt zero zero f (u ∷ ts) k c t h = calm_of h (k u (c u refl))
modify-CalmAt zero (suc j) f (u ∷ ts) k c t h = c t h
modify-CalmAt (suc i) zero f (u ∷ ts) k c t h = c t h
modify-CalmAt (suc i) (suc j) f (u ∷ ts) k c t h = modify-CalmAt i j f ts k c t h

-- The task that a step goes to is calm, whatever it was.
pub modify-calms :
    (i : ℕ) (f : TaskRun → TaskRun) (ts : List TaskRun)
    → ((t : TaskRun) → is_task_running (f t).status ≡ false)
    → CalmAt i (modify i f ts)
modify-calms i f [] k t h = cc
modify-calms zero f (u ∷ ts) k t h = calm_of h (k u)
modify-calms (suc i) f (u ∷ ts) k t h = modify-calms i f ts k t h

abbrev pub Calm : ℕ → RunSnapshot → Type 0
Calm j s = CalmAt j s.run.tasks

module _ (s : RunSnapshot) (i : ℕ) (at : ℕ) (reason : String) {s' : RunSnapshot} where
  pub transition_task-Calm :
      (to : TaskStatus) (j : ℕ)
      → is_task_running to ≡ false
      → transition_task s i to at reason ≡ ok s'
      → Calm j s
      → Calm j s'
  unfolding append_event advance_task
  transition_task-Calm to j quiet h c =
      let (t, found, legal, e) = transition_task-eq-ok s i to at reason h in
      rw e (modify-CalmAt i j (advance_task to at) s.run.tasks (λ u calm. quiet) c)

  pub transition_task-calms :
      (to : TaskStatus)
      → is_task_running to ≡ false
      → transition_task s i to at reason ≡ ok s'
      → Calm i s'
  unfolding append_event advance_task
  transition_task-calms to quiet h =
      let (t, found, legal, e) = transition_task-eq-ok s i to at reason h in
      rw e (modify-calms i (advance_task to at) s.run.tasks (λ u. quiet))

  pub transition_attempt-Calm :
      (to : AttemptStatus) (j : ℕ)
      → transition_attempt s i to at reason ≡ ok s'
      → Calm j s
      → Calm j s'
  unfolding append_event
  transition_attempt-Calm to j h c =
      let (t, a, found, last, legal, e) = transition_attempt-eq-ok s i to at reason h in
      rw e (
        modify-CalmAt i j (modify_last_attempt (advance_attempt to at)) s.run.tasks (λ u calm. calm)
          c)

pub wait_again-calms :
    (s : RunSnapshot) (i now j : ℕ) {s' : RunSnapshot}
    → wait_again s i now ≡ ok s'
    → Calm i s' × (Calm j s → Calm j s')
unfolding wait_again
wait_again-calms s i now j h =
    let (waiting, step, e) = >>=-eq-ok _ _ h in
    let due = set_ready_at now in
    (
      ok-subst (Calm i) e (
          modify-CalmAt i i due waiting.run.tasks (λ u calm. calm)
            (transition_task-calms s i now _ TaskStatus.waiting_retry refl step)),
      λ c. ok-subst (Calm j) e (
          modify-CalmAt i j due waiting.run.tasks (λ u calm. calm)
            (transition_task-Calm s i now _ TaskStatus.waiting_retry j refl step c)),
    )

pub interrupt_task-calms :
    (s : RunSnapshot) (i : ℕ) (task : TaskRun) (definition : TaskDefinition) (now j : ℕ)
    {s' : RunSnapshot}
    → interrupt_task s i task definition now ≡ ok s'
    → Calm i s' × (Calm j s → Calm j s')
unfolding interrupt_task retry_or_fail
interrupt_task-calms s i task definition now j {s'} h =
    let (stopped, first, rest) = >>=-eq-ok _ _ h in
    let kept = transition_attempt-Calm s i now _ AttemptStatus.interrupted j first in
    either (ltz (length task.attempts) definition.retry.max_attempts) _ _ rest
      (λ again.
        let (here, there) = wait_again-calms stopped i now j again in (here, λ c. there (kept c)))
      (λ step. (
        transition_task-calms stopped i now _ TaskStatus.failed refl step,
        λ c. transition_task-Calm stopped i now _ TaskStatus.failed j refl step (kept c),
      ))
