-- ===== src/Distributed/Traces.antt =====
-- Each operation of workflow/distributed_state.go that succeeds is a run of steps of
-- workflow/state.go with edits between them that change no status.
pub mod Results
use ai_workload_platform.Common.{
  if◌then◌else◌, ℤ, ltz, length, get_elem?, modify, get_elem?-modify_self, Result, ok, >>=-eq-ok,
  or_fail-eq-ok, ok-subst, ℕ, zero, suc, ◌+◌, String, ◌≡◌, refl, sym, ap, subst, ◌∙◌, Bool, true,
  false, some, List, [], ◌∷◌, ◌++◌,
}
use ai_workload_platform.Distributed.Retry.{
  add_millis, set_ready_at, fail_task, wait_for_retry, apply_retry_decision,
}
use ai_workload_platform.Distributed.Settle.{
  set_result, has_failed_task, all_tasks_succeeded, all_tasks_terminal, settle_workflow_if_complete,
}
use ai_workload_platform.Distributed.Skip.{
  skip_one, skip_loop, skip_descendants_from, skip_descendants,
}
use ai_workload_platform.Distributed.Start.{
  is_pending, start_if_pending, queue_task, return_queued_task_to_ready, new_attempt,
  append_attempt, start_queued_attempt,
}
use ai_workload_platform.Model.{
  WorkflowStatus, TaskStatus, AttemptStatus, CompiledWorkflow, ExecutionRequest, ExecutionResult,
  Attempt, TaskRun, RunSnapshot,
}
use ai_workload_platform.Model.Input.{Value}
use ai_workload_platform.State.{
  is_task_terminal, append_event, transition_workflow, advance_task, modify_task, transition_task,
  modify_last_attempt, transition_attempt,
}
use ai_workload_platform.State.Moves.{
  SameStatus, workflow_step, task_step, attempt_step, task_edit, Moves, stay, Moves-trans,
  Moves-one, transition_task-eq-ok,
}
use ai_workload_platform.State.Spent.{set_result-SpentKept, append-SpentKept}

pub step_task :
    (s : RunSnapshot) (i : ℕ) (to : TaskStatus) (at : ℕ) (reason : String) {s' : RunSnapshot}
    → transition_task s i to at reason ≡ ok s'
    → Moves s s'
step_task s i to at reason h = Moves-one (task_step i to at reason h)

pub step_workflow :
    (s : RunSnapshot) (to : WorkflowStatus) (at : ℕ) (reason : String) {s' : RunSnapshot}
    → transition_workflow s to at reason ≡ ok s'
    → Moves s s'
step_workflow s to at reason h = Moves-one (workflow_step to at reason h)

pub step_attempt :
    (s : RunSnapshot) (i : ℕ) (to : AttemptStatus) (at : ℕ) (reason : String) {s' : RunSnapshot}
    → transition_attempt s i to at reason ≡ ok s'
    → Moves s s'
step_attempt s i to at reason h = Moves-one (attempt_step i to at reason h)

pub edit_task :
    (s : RunSnapshot) (i : ℕ) (f : TaskRun → TaskRun)
    → ((t : TaskRun) → get_elem? s.run.tasks i ≡ some t → SameStatus t (f t))
    → Moves s (modify_task s i f)
edit_task s i f same = Moves-one (task_edit i f same refl)

same_of_result :
    (result : ExecutionResult) (t : TaskRun)
    → SameStatus t (modify_last_attempt (set_result result) t)
same_of_result result t = record {
  same_key = refl;
  same_status = refl;
  same_finished = refl;
  same_spent = set_result-SpentKept result t.attempts;
}

same_of_append :
    (attempt : Attempt) (t : TaskRun)
    → attempt.number ≡ length t.attempts + 1
    → SameStatus t (append_attempt attempt t)
same_of_append attempt t numbered = record {
  same_key = refl;
  same_status = refl;
  same_finished = refl;
  same_spent = append-SpentKept t.attempts attempt numbered;
}

pub same_of_due : (due : ℕ) (t : TaskRun) → SameStatus t (set_ready_at due t)
same_of_due due t = record {
  same_key = refl;
  same_status = refl;
  same_finished = refl;
  same_spent = λ n h. h;
}

pub edit_result :
    (s : RunSnapshot) (i : ℕ) (result : ExecutionResult)
    → Moves s (modify_task s i (modify_last_attempt (set_result result)))
edit_result s i result = edit_task s i _ (λ t found. same_of_result result t)

pub unchanged : {s s' : RunSnapshot} → ok s ≡ ok s' → Moves s s'
unchanged {s} h = ok-subst (Moves s) h stay

-- The two branches of a conditional result.
pub either {ℓ} :
    {A : Type ℓ} {P : Type 0} (b : Bool) (x y : Result A) {a : A}
    → (if b then x else y) ≡ ok a
    → (x ≡ ok a → P)
    → (y ≡ ok a → P)
    → P
either true x y h on_true on_false = on_true h
either false x y h on_true on_false = on_false h

start_if_pending-Moves :
    (s : RunSnapshot) (at : ℕ) {s' : RunSnapshot} → start_if_pending s at ≡ ok s' → Moves s s'
unfolding start_if_pending
start_if_pending-Moves s at h =
    either (is_pending s.run.status) _ _ h (step_workflow s WorkflowStatus.running at _) unchanged

pub queue_task-Moves :
    (s : RunSnapshot) (i at : ℕ) {s' : RunSnapshot} → queue_task s i at ≡ ok s' → Moves s s'
unfolding queue_task
queue_task-Moves s i at h =
    let (_, _, rest) = >>=-eq-ok _ _ h in
    let (started, begun, rest') = >>=-eq-ok _ _ rest in
    let (_, _, queued) = >>=-eq-ok _ _ rest' in
    Moves-trans (start_if_pending-Moves s at begun)
      (step_task started i TaskStatus.queued at _ queued)

pub return_queued_task_to_ready-Moves :
    (s : RunSnapshot) (i at : ℕ) (reason : String) {s' : RunSnapshot}
    → return_queued_task_to_ready s i at reason ≡ ok s'
    → Moves s s'
unfolding return_queued_task_to_ready
return_queued_task_to_ready-Moves s i at reason h =
    let (_, _, returned) = >>=-eq-ok _ _ h in step_task s i TaskStatus.ready at reason returned

-- The step to running leaves the history of the task alone.
claimed_number :
    (s : RunSnapshot) (i at : ℕ) (task : TaskRun) {claimed : RunSnapshot}
    → get_elem? s.run.tasks i ≡ some task
    → transition_task s i TaskStatus.running at "lease claimed" ≡ ok claimed
    → (t : TaskRun) → get_elem? claimed.run.tasks i ≡ some t
    → length task.attempts + 1 ≡ length t.attempts + 1
unfolding append_event advance_task
claimed_number s i at task found step t found' =
    let (task', same, _, e) = transition_task-eq-ok s i TaskStatus.running at _ step in
    let moved = get_elem?-modify_self i (advance_task TaskStatus.running at) s.run.tasks found in
    let after : get_elem? (modify i (advance_task TaskStatus.running at) s.run.tasks) i ≡ some t =
      subst (λ (x : RunSnapshot). get_elem? x.run.tasks i ≡ some t) e found' in
    let u : some (advance_task TaskStatus.running at task) ≡ some t = sym moved ∙ after in
    let attempts : task.attempts ≡ t.attempts = cc in
    ap (λ (history : List Attempt). length history + 1) attempts

pub start_queued_attempt-Moves :
    (clone : Value → Value) (s : RunSnapshot) (compiled : CompiledWorkflow) (i at : ℕ)
    (worker_id dispatch_id : String) {s' : RunSnapshot} {request : ExecutionRequest}
    → start_queued_attempt clone s compiled i at worker_id dispatch_id ≡ ok (s', request)
    → Moves s s'
unfolding start_queued_attempt
start_queued_attempt-Moves clone s compiled i at worker_id dispatch_id h =
    let (task, looked, h₁) = >>=-eq-ok _ _ h in
    let (definition, _, h₂) = >>=-eq-ok _ _ h₁ in
    let (_, _, h₃) = >>=-eq-ok _ _ h₂ in
    let (_, _, h₄) = >>=-eq-ok _ _ h₃ in
    let (claimed, step, h₅) = >>=-eq-ok _ _ h₄ in
    let attempt = new_attempt task worker_id dispatch_id at in
    let same = λ (t : TaskRun) (found : get_elem? claimed.run.tasks i ≡ some t).
      same_of_append attempt t
        (claimed_number s i at task (or_fail-eq-ok _ _ looked) step t found) in
    Moves-trans (step_task s i TaskStatus.running at _ step)
      (ok-subst (λ p. Moves claimed p.0) h₅ (edit_task claimed i (append_attempt attempt) same))

skip_one-Moves :
    (s : RunSnapshot) (i at : ℕ) {s' : RunSnapshot} → skip_one s i at ≡ ok s' → Moves s s'
unfolding skip_one
skip_one-Moves s i at h =
    let (task, _, rest) = >>=-eq-ok _ _ h in
    either (is_task_terminal task.status) _ _ rest unchanged (step_task s i TaskStatus.skipped at _)

skip_loop-Moves :
    (fuel : ℕ) (compiled : CompiledWorkflow) (visited : List Bool) (queue : List ℕ)
    (s : RunSnapshot) (at : ℕ) {s' : RunSnapshot}
    → skip_loop fuel compiled visited queue s at ≡ ok s'
    → Moves s s'
unfolding skip_loop
skip_loop-Moves fuel compiled visited [] s at h = unchanged h
skip_loop-Moves zero compiled visited (x ∷ queue) s at h = cc
skip_loop-Moves (suc fuel) compiled visited (x ∷ queue) s at h =
    let (seen, _, h₁) = >>=-eq-ok _ _ h in
    either seen _ _ h₁ (skip_loop-Moves fuel compiled visited queue s at) λ h₂.
      let (s₁, one, h₃) = >>=-eq-ok _ _ h₂ in
      let (next, _, h₄) = >>=-eq-ok _ _ h₃ in
      Moves-trans (skip_one-Moves s x at one)
        (skip_loop-Moves fuel compiled (modify x (λ _. true) visited) (queue ++ next) s₁ at h₄)

pub skip_descendants_from-Moves :
    (s : RunSnapshot) (compiled : CompiledWorkflow) (failed : List ℕ) (at : ℕ) {s' : RunSnapshot}
    → skip_descendants_from s compiled failed at ≡ ok s'
    → Moves s s'
unfolding skip_descendants_from
skip_descendants_from-Moves s compiled failed at h =
    let (queue, _, rest) = >>=-eq-ok _ _ h in skip_loop-Moves _ compiled _ queue s at rest

pub settle_workflow_if_complete-Moves :
    (s : RunSnapshot) (at : ℕ) {s' : RunSnapshot}
    → settle_workflow_if_complete s at ≡ ok s'
    → Moves s s'
unfolding settle_workflow_if_complete
settle_workflow_if_complete-Moves s at h =
    either (all_tasks_terminal s.run.tasks) _ _ h
      (λ all.
        either (has_failed_task s.run.tasks) _ _ all (step_workflow s WorkflowStatus.failed at _)
          λ none_failed.
            either (all_tasks_succeeded s.run.tasks) _ _ none_failed
              (step_workflow s WorkflowStatus.succeeded at _) λ impossible. cc)
      unchanged

pub fail_task-Moves :
    (s : RunSnapshot) (compiled : CompiledWorkflow) (i at : ℕ) (reason : String) {s' : RunSnapshot}
    → fail_task s compiled i at reason ≡ ok s'
    → Moves s s'
unfolding fail_task skip_descendants
fail_task-Moves s compiled i at reason h =
    let (failed, step, h₁) = >>=-eq-ok _ _ h in
    let (skipped, spread, settled) = >>=-eq-ok _ _ h₁ in
    Moves-trans (step_task s i TaskStatus.failed at reason step) (
      Moves-trans (skip_descendants_from-Moves failed compiled (i ∷ []) at spread)
        (settle_workflow_if_complete-Moves skipped at settled))

wait_for_retry-Moves :
    (s : RunSnapshot) (i : ℕ) (interval : ℤ) (at : ℕ) (reason : String) {s' : RunSnapshot}
    → wait_for_retry s i interval at reason ≡ ok s'
    → Moves s s'
unfolding wait_for_retry
wait_for_retry-Moves s i interval at reason h =
    let (waiting, step, e) = >>=-eq-ok _ _ h in
    let due = set_ready_at (add_millis at interval) in
    Moves-trans (step_task s i TaskStatus.waiting_retry at reason step) (
      ok-subst (Moves waiting) e
        (edit_task waiting i due (λ t found. same_of_due (add_millis at interval) t)))

pub some-subst {ℓ κ} :
    {A : Type ℓ} (P : A → Type κ) {a b : A} → ok (some a) ≡ ok (some b) → P a → P b
some-subst P h p = subst P (cc) p

pub apply_retry_decision-Moves :
    (s : RunSnapshot) (compiled : CompiledWorkflow) (i number at : ℕ) (reason : String)
    {s' : RunSnapshot}
    → apply_retry_decision s compiled i number at reason ≡ ok (some s')
    → Moves s s'
unfolding apply_retry_decision
apply_retry_decision-Moves s compiled i number at reason h =
    let (definition, _, h₁) = >>=-eq-ok _ _ h in
    let (settled, decided, e) = >>=-eq-ok _ _ h₁ in
    let moved : Moves s settled =
      either (ltz number definition.retry.max_attempts) _ _ decided
        (wait_for_retry-Moves s i definition.retry.interval_millis at reason)
        (fail_task-Moves s compiled i at _) in
    some-subst (Moves s) e moved
