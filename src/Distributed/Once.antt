-- ===== src/Distributed/Once.antt =====
-- An attempt is settled once: a later report, timeout or interruption of it finds nothing to do,
-- whatever happened to the run in between.
use ai_workload_platform.Common.{
  is_some, length, get_elem?, last?, length-modify_last, get_elem?-modify_self, ok, ◌>>=◌,
  >>=-eq-ok, ℕ, ◌≤◌, String, ◌≡◌, sym, subst, Option, none, some, arith,
}
use ai_workload_platform.Distributed.Operation.{Operation, perform, perform-Moves}
use ai_workload_platform.Distributed.Results.{
  succeed_task, settle_result, result_of, apply_attempt_result, end_attempt, interrupt_attempt,
  timeout_attempt,
}
use ai_workload_platform.Distributed.Settle.{set_result, active_attempt}
use ai_workload_platform.Distributed.Traces.{
  step_task, either, settle_workflow_if_complete-Moves, fail_task-Moves, some-subst,
  apply_retry_decision-Moves,
}
use ai_workload_platform.Distributed.Traces.Results.{satisfy_dependencies-Moves}
use ai_workload_platform.Model.{
  TaskStatus, AttemptStatus, ResultKind, CompiledWorkflow, ExecutionResponse, ExecutionResult,
  TaskRun, RunSnapshot,
}
use ai_workload_platform.Model.Input.{Value}
use ai_workload_platform.State.{
  append_event, modify_task, advance_attempt, modify_last_attempt, transition_attempt,
}
use ai_workload_platform.State.Kept.{Moves-Frame}
use ai_workload_platform.State.Moves.{Moves, Moves-trans, transition_attempt-eq-ok}
use ai_workload_platform.State.Spent.{Spent, advance_attempt-last_runs}

-- Any calls of the operations after one another, with commits between them that change the
-- revision and the request for a cancellation in the run row.
pub data Later (clone : Value → Value) : RunSnapshot → RunSnapshot → Type 0 where
  now : {s : RunSnapshot} → Later clone s s
  call :
      {s m t : RunSnapshot} (compiled : CompiledWorkflow) (op : Operation) (at : ℕ)
      → perform clone compiled op at s ≡ ok (some m)
      → Later clone m t
      → Later clone s t
  commit :
      {s t : RunSnapshot} (revision : ℕ) (requested : Option ℕ)
      → Later clone
          (record s { run = record s.run { revision = revision; cancel_requested_at = requested } })
          t
      → Later clone s t

-- The history of task `i` is at least `number` attempts long.
abbrev pub HasHistory : ℕ → ℕ → RunSnapshot → Type 0
HasHistory i number s =
    (t : TaskRun) × (get_elem? s.run.tasks i ≡ some t) × (number ≤ length t.attempts)

-- And its last attempt is not a running one with the number.
abbrev SpentAt : ℕ → ℕ → RunSnapshot → Type 0
SpentAt i number s = (t : TaskRun) × (get_elem? s.run.tasks i ≡ some t) × Spent number t.attempts

Moves-SpentAt :
    (i number : ℕ) {s s' : RunSnapshot} → Moves s s' → SpentAt i number s → SpentAt i number s'
Moves-SpentAt i number m (t, found, spent) =
    let (u, found', kept) = (Moves-Frame m).tasks_kept i t found in
    (u, found', kept.spent number spent)

Later-SpentAt :
    (clone : Value → Value) (i number : ℕ) {s s' : RunSnapshot}
    → Later clone s s'
    → SpentAt i number s
    → SpentAt i number s'
Later-SpentAt clone i number now spent = spent
Later-SpentAt clone i number (call compiled op at h rest) spent =
    Later-SpentAt clone i number rest
      (Moves-SpentAt i number (perform-Moves clone compiled op at _ h) spent)
Later-SpentAt clone i number (commit revision requested rest) (t, found, spent) =
    Later-SpentAt clone i number rest (t, found, spent)

-- The step that ends an attempt uses its number up, with every smaller one.
ended-SpentAt :
    (s : RunSnapshot) (i number : ℕ) (to : AttemptStatus) (at : ℕ) (reason : String)
    {s' : RunSnapshot}
    → HasHistory i number s
    → transition_attempt s i to at reason ≡ ok s'
    → SpentAt i number s'
unfolding append_event
ended-SpentAt s i number to at reason (t, found, long) h =
    let (task, attempt, found', last, legal, e) = transition_attempt-eq-ok s i to at reason h in
    let same : t ≡ task = cc in
    let moved =
      get_elem?-modify_self i (modify_last_attempt (advance_attempt to at)) s.run.tasks found in
    rw e (
      modify_last_attempt (advance_attempt to at) t,
      moved,
      (
        rw (length-modify_last (advance_attempt to at) t.attempts) long,
        advance_attempt-last_runs number to at t.attempts
            (subst (λ (x : TaskRun). last? x.attempts ≡ some attempt) (sym same) last) legal,
      ),
    )

with_result :
    (s : RunSnapshot) (i number : ℕ) (result : ExecutionResult)
    → HasHistory i number s
    → HasHistory i number (modify_task s i (modify_last_attempt (set_result result)))
with_result s i number result (t, found, long) = (
  modify_last_attempt (set_result result) t,
  get_elem?-modify_self i (modify_last_attempt (set_result result)) s.run.tasks found,
  rw (length-modify_last (set_result result) t.attempts) long,
)

succeed_task-SpentAt :
    (s : RunSnapshot) (compiled : CompiledWorkflow) (i number at : ℕ) {s' : RunSnapshot}
    → HasHistory i number s
    → succeed_task s compiled i at ≡ ok s'
    → SpentAt i number s'
unfolding succeed_task
succeed_task-SpentAt s compiled i number at long h =
    let (finished, ended, h₁) = >>=-eq-ok _ _ h in
    let (succeeded, step, h₂) = >>=-eq-ok _ _ h₁ in
    let (next, _, h₃) = >>=-eq-ok _ _ h₂ in
    let (satisfied, counted, settled) = >>=-eq-ok _ _ h₃ in
    Moves-SpentAt i number
      (Moves-trans (step_task finished i TaskStatus.succeeded at _ step) (
        Moves-trans (satisfy_dependencies-Moves succeeded next at counted)
          (settle_workflow_if_complete-Moves satisfied at settled)))
      (ended-SpentAt s i number AttemptStatus.succeeded at _ long ended)

settle_result-SpentAt :
    (kind : ResultKind) (s : RunSnapshot) (compiled : CompiledWorkflow) (i number at : ℕ)
    {s' : RunSnapshot}
    → HasHistory i number s
    → settle_result kind s compiled i number at ≡ ok (some s')
    → SpentAt i number s'
unfolding settle_result
settle_result-SpentAt ResultKind.temporary_failure s compiled i number at long h =
    let (failed, ended, decided) = >>=-eq-ok _ _ h in
    Moves-SpentAt i number (apply_retry_decision-Moves failed compiled i number at _ decided)
      (ended-SpentAt s i number AttemptStatus.failed at _ long ended)
settle_result-SpentAt ResultKind.permanent_failure s compiled i number at long h =
    let (failed, ended, h₁) = >>=-eq-ok _ _ h in
    let (settled, done, e) = >>=-eq-ok _ _ h₁ in
    some-subst (SpentAt i number) e (
      Moves-SpentAt i number (fail_task-Moves failed compiled i at _ done)
        (ended-SpentAt s i number AttemptStatus.failed at _ long ended))
settle_result-SpentAt ResultKind.success s compiled i number at long h =
    let (settled, done, e) = >>=-eq-ok _ _ h in
    some-subst (SpentAt i number) e (succeed_task-SpentAt s compiled i number at long done)
settle_result-SpentAt ResultKind.canceled s compiled i number at long h = cc
settle_result-SpentAt (ResultKind.unknown text) s compiled i number at long h = cc

apply_attempt_result-SpentAt :
    (s : RunSnapshot) (compiled : CompiledWorkflow) (i number : ℕ) (response : ExecutionResponse)
    (at : ℕ) {s' : RunSnapshot}
    → HasHistory i number s
    → apply_attempt_result s compiled i number response at ≡ ok (some s')
    → SpentAt i number s'
unfolding apply_attempt_result
apply_attempt_result-SpentAt s compiled i number response at long h =
    let (active, _, rest) = >>=-eq-ok _ _ h in
    either (is_some active) _ _ rest
      (settle_result-SpentAt response.kind _ compiled i number at
        (with_result s i number (result_of response) long))
      λ late. cc

end_attempt-SpentAt :
    (to : AttemptStatus) (result : ExecutionResult) (s : RunSnapshot) (compiled : CompiledWorkflow)
    (i number at : ℕ) (reason : String) {s' : RunSnapshot}
    → HasHistory i number s
    → end_attempt to result s compiled i number at reason ≡ ok (some s')
    → SpentAt i number s'
unfolding end_attempt
end_attempt-SpentAt to result s compiled i number at reason long h =
    let (active, _, rest) = >>=-eq-ok _ _ h in
    either (is_some active) _ _ rest
      (λ stopped.
        let (ended, step, decided) = >>=-eq-ok _ _ stopped in
        Moves-SpentAt i number
          (apply_retry_decision-Moves ended compiled i number at reason decided)
          (ended-SpentAt _ i number to at reason (with_result s i number result long) step))
      λ late. cc

active_attempt-SpentAt :
    (s : RunSnapshot) (i number : ℕ) → SpentAt i number s → active_attempt s i number ≡ ok none
unfolding active_attempt ◌>>=◌
active_attempt-SpentAt s i number (t, found, (long, over)) = rw found (ground (arith, over))

-- The history of the task has the attempt's number or more. Once a report has been applied, every
-- later report, timeout or interruption of that attempt changes nothing and fails nowhere, whatever
-- it says and whenever it comes: at once, or after any calls of the operations and any commits,
-- also while a retry runs.
pub apply_attempt_result-once :
    (clone : Value → Value) (s s' s'' : RunSnapshot) (compiled compiled' : CompiledWorkflow)
    (i number : ℕ) (response response' : ExecutionResponse) (at at' : ℕ) (reason : String)
    → HasHistory i number s
    → apply_attempt_result s compiled i number response at ≡ ok (some s')
    → Later clone s' s''
    → (apply_attempt_result s'' compiled' i number response' at' ≡ ok none)
      × (timeout_attempt s'' compiled' i number at' ≡ ok none)
      × (interrupt_attempt s'' compiled' i number at' reason ≡ ok none)
unfolding apply_attempt_result timeout_attempt interrupt_attempt ◌>>=◌
apply_attempt_result-once clone s s' s'' compiled compiled' i number response response' at at'
      reason long h later =
    let late = active_attempt-SpentAt s'' i number (
      Later-SpentAt clone i number later
        (apply_attempt_result-SpentAt s compiled i number response at long h)) in
    (rw late, rw late, rw late)

-- The history of the task has the attempt's number or more. Once a timeout of the attempt has been
-- applied, every later report, timeout or interruption of that attempt changes nothing and fails
-- nowhere, whatever it says and whenever it comes: at once, or after any calls of the operations
-- and any commits, also while a retry runs.
pub timeout_attempt-once :
    (clone : Value → Value) (s s' s'' : RunSnapshot) (compiled compiled' : CompiledWorkflow)
    (i number at at' : ℕ) (response : ExecutionResponse) (reason : String)
    → HasHistory i number s
    → timeout_attempt s compiled i number at ≡ ok (some s')
    → Later clone s' s''
    → (apply_attempt_result s'' compiled' i number response at' ≡ ok none)
      × (timeout_attempt s'' compiled' i number at' ≡ ok none)
      × (interrupt_attempt s'' compiled' i number at' reason ≡ ok none)
unfolding apply_attempt_result timeout_attempt interrupt_attempt ◌>>=◌
timeout_attempt-once clone s s' s'' compiled compiled' i number at at' response reason long h
      later =
    let late = active_attempt-SpentAt s'' i number (
      Later-SpentAt clone i number later
        (end_attempt-SpentAt AttemptStatus.timed_out _ s compiled i number at _ long h)) in
    (rw late, rw late, rw late)
