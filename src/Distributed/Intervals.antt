-- ===== src/Distributed/Intervals.antt =====
-- The due time of a retry (`applyRetryDecision` of workflow/distributed_state.go), whose interval is
-- counted in nanoseconds by an `int64`.
use ai_workload_platform.Common.{
  Option-cases, is_some, u64, ℤ, pos, ltz, by_branch, get_elem?, last?, get_elem?-modify_self, ok,
  ◌>>=◌, >>=-eq-ok, or_fail-eq-ok, ok-subst, ℕ, ◌+◌, ◌-◌, ◌*◌, ◌≤◌, ◌<◌, String, ◌≡◌, refl, subst,
  inl, inr, true, false, none, some, arith,
}
use ai_workload_platform.Distributed.Results.{
  settle_result, apply_attempt_result, end_attempt, timeout_attempt,
}
use ai_workload_platform.Distributed.Retry.{
  add_millis, set_ready_at, wait_for_retry, apply_retry_decision, retry_due, make_retry_ready,
}
use ai_workload_platform.Distributed.Traces.{either, some-subst}
use ai_workload_platform.Model.{
  TaskStatus, ResultKind, TaskDefinition, CompiledWorkflow, ExecutionResponse, TaskRun, RunSnapshot,
}
use ai_workload_platform.State.{append_event, advance_task}
use ai_workload_platform.State.Moves.{transition_task-eq-ok}

add_millis-exact :
    (at millis : ℕ)
    → millis * 1000000 < 9223372036854775808
    → add_millis at (pos millis) ≡ at + millis * 1000000
unfolding add_millis
add_millis-exact at millis small =
    let same : u64 (millis * 1000000) ≡ millis * 1000000 = ground (arith, small) in
    rw same (ground (arith, small))

add_millis-wraps :
    (at millis : ℕ)
    → 9223372036854775808 ≤ millis * 1000000
    → millis * 1000000 < 18446744073709551616
    → add_millis at (pos millis) ≡ at - (18446744073709551616 - millis * 1000000)
unfolding add_millis
add_millis-wraps at millis large small =
    let same : u64 (millis * 1000000) ≡ millis * 1000000 = ground (arith, small) in
    rw same (ground (arith, large, small))

-- Task `i` waits for a retry that is due at this instant.
abbrev pub WaitsUntil : ℕ → ℕ → RunSnapshot → Type 0
WaitsUntil i due s =
    (t : TaskRun) × (get_elem? s.run.tasks i ≡ some t)
    × (t.status ≡ TaskStatus.waiting_retry)
    × (t.ready_at ≡ some due)

-- The policy of task `i`: the interval, and another attempt is left after `number`.
abbrev pub HasRetry : CompiledWorkflow → ℕ → ℕ → ℕ → Type 0
HasRetry compiled i number millis =
    (definition : TaskDefinition) × (get_elem? compiled.definition.tasks i ≡ some definition)
    × (ltz number definition.retry.max_attempts ≡ true)
    × (definition.retry.interval_millis ≡ pos millis)

wait_for_retry-WaitsUntil :
    (s : RunSnapshot) (i : ℕ) (interval : ℤ) (at : ℕ) (reason : String) {s' : RunSnapshot}
    → wait_for_retry s i interval at reason ≡ ok s'
    → WaitsUntil i (add_millis at interval) s'
unfolding wait_for_retry append_event advance_task
wait_for_retry-WaitsUntil s i interval at reason h =
    let (waiting, step, e) = >>=-eq-ok _ _ h in
    let (task, found, _, same) =
      transition_task-eq-ok s i TaskStatus.waiting_retry at reason step in
    let moved =
      get_elem?-modify_self i (advance_task TaskStatus.waiting_retry at) s.run.tasks found in
    let there : get_elem? waiting.run.tasks i
        ≡ some (advance_task TaskStatus.waiting_retry at task) =
      rw same moved in
    let due = set_ready_at (add_millis at interval) in
    ok-subst (WaitsUntil i (add_millis at interval)) e (
      due (advance_task TaskStatus.waiting_retry at task),
      get_elem?-modify_self i due waiting.run.tasks there,
      refl,
      refl,
    )

apply_retry_decision-WaitsUntil :
    (s : RunSnapshot) (compiled : CompiledWorkflow) (i number at millis : ℕ) (reason : String)
    {s' : RunSnapshot}
    → HasRetry compiled i number millis
    → apply_retry_decision s compiled i number at reason ≡ ok (some s')
    → WaitsUntil i (add_millis at (pos millis)) s'
unfolding apply_retry_decision
apply_retry_decision-WaitsUntil s compiled i number at millis reason
      (definition, there, left, interval) h =
    let (definition', looked, h₁) = >>=-eq-ok _ _ h in
    let (settled, decided, e) = >>=-eq-ok _ _ h₁ in
    let found' = or_fail-eq-ok _ _ looked in
    let same : definition ≡ definition' = cc in
    let interval' : definition'.retry.interval_millis ≡ pos millis = cc in
    some-subst (WaitsUntil i (add_millis at (pos millis))) e (
      by_branch (ltz number definition'.retry.max_attempts) _ _ decided
        (λ more waits.
          subst (λ (x : ℤ). WaitsUntil i (add_millis at x) settled) interval'
            (wait_for_retry-WaitsUntil s i definition'.retry.interval_millis at reason waits))
        (λ none_left fails. cc))

timeout_attempt-WaitsUntil :
    (s : RunSnapshot) (compiled : CompiledWorkflow) (i number at millis : ℕ) {s' : RunSnapshot}
    → HasRetry compiled i number millis
    → timeout_attempt s compiled i number at ≡ ok (some s')
    → WaitsUntil i (add_millis at (pos millis)) s'
unfolding timeout_attempt end_attempt
timeout_attempt-WaitsUntil s compiled i number at millis retries h =
    let (active, _, rest) = >>=-eq-ok _ _ h in
    either (is_some active) _ _ rest
      (λ stopped.
        let (ended, _, decided) = >>=-eq-ok _ _ stopped in
        apply_retry_decision-WaitsUntil ended compiled i number at millis _ retries decided)
      λ late. cc

apply_attempt_result-WaitsUntil :
    (s : RunSnapshot) (compiled : CompiledWorkflow) (i number : ℕ) (response : ExecutionResponse)
    (at millis : ℕ) {s' : RunSnapshot}
    → HasRetry compiled i number millis
    → response.kind ≡ ResultKind.temporary_failure
    → apply_attempt_result s compiled i number response at ≡ ok (some s')
    → WaitsUntil i (add_millis at (pos millis)) s'
unfolding apply_attempt_result settle_result
apply_attempt_result-WaitsUntil s compiled i number response at millis retries temporary h =
    let (active, _, rest) = >>=-eq-ok _ _ h in
    either (is_some active) _ _ rest (λ settled. by_kind response.kind _ temporary settled)
      λ late. cc
  where
    by_kind :
        (kind : ResultKind) (m : RunSnapshot) {s' : RunSnapshot}
        → kind ≡ ResultKind.temporary_failure
        → settle_result kind m compiled i number at ≡ ok (some s')
        → WaitsUntil i (add_millis at (pos millis)) s'
    by_kind ResultKind.temporary_failure m e k =
        let (failed, _, decided) = >>=-eq-ok _ _ k in
        apply_retry_decision-WaitsUntil failed compiled i number at millis _ retries decided
    by_kind ResultKind.permanent_failure m e k = cc
    by_kind ResultKind.success m e k = cc
    by_kind ResultKind.canceled m e k = cc
    by_kind (ResultKind.unknown text) m e k = cc

retry_due-early :
    (t : TaskRun) (number due early : ℕ)
    → t.ready_at ≡ some due
    → early < due
    → retry_due t number early ≡ false
unfolding retry_due
retry_due-early t number due early ready before = elim (Option-cases (last? t.attempts)) [
  | inl none_yet ↦ ground (arith, ready, none_yet)
  | inr (attempt, last) ↦ ground (arith, ready, last, before)
]

early_retry :
    (s : RunSnapshot) (i number due early : ℕ)
    → WaitsUntil i due s
    → early < due
    → make_retry_ready s i number early ≡ ok none
unfolding make_retry_ready ◌>>=◌
early_retry s i number due early (t, found, waiting, ready) before =
    rw found (rw (retry_due-early t number due early ready before) refl)

-- Another attempt is left, and the interval of the retry is below 2 ^ 63 nanoseconds, which is about
-- 292 years. After a timeout the task waits for the retry, which is due its interval after the
-- timeout; the retry is not released before.
pub timeout_attempt-ready_at :
    (s s' : RunSnapshot) (compiled : CompiledWorkflow) (i number at millis early : ℕ)
    → HasRetry compiled i number millis
    → millis * 1000000 < 9223372036854775808
    → timeout_attempt s compiled i number at ≡ ok (some s')
    → early < at + millis * 1000000
    → WaitsUntil i (at + millis * 1000000) s' × (make_retry_ready s' i number early ≡ ok none)
timeout_attempt-ready_at s s' compiled i number at millis early retries small h before =
    let waits : WaitsUntil i (at + millis * 1000000) s' =
      subst (λ (due : ℕ). WaitsUntil i due s') (add_millis-exact at millis small)
        (timeout_attempt-WaitsUntil s compiled i number at millis retries h) in
    (waits, early_retry s' i number (at + millis * 1000000) early waits before)

-- Another attempt is left, but the interval is 2 ^ 63 nanoseconds or more, below 2 ^ 64; the instant
-- is at least 2 ^ 63 nanoseconds after the zero time. After a temporary failure the task waits for a
-- retry that is due before the failure: the product wrapped.
pub apply_attempt_result-ready_at_wraps :
    (s s' : RunSnapshot) (compiled : CompiledWorkflow) (i number : ℕ) (response : ExecutionResponse)
    (at millis : ℕ)
    → HasRetry compiled i number millis
    → 9223372036854775808 ≤ millis * 1000000
    → millis * 1000000 < 18446744073709551616
    → 9223372036854775808 ≤ at
    → response.kind ≡ ResultKind.temporary_failure
    → apply_attempt_result s compiled i number response at ≡ ok (some s')
    → (due : ℕ) × (due + 18446744073709551616 ≡ at + millis * 1000000)
      × (due < at)
      × WaitsUntil i due s'
apply_attempt_result-ready_at_wraps s s' compiled i number response at millis retries large small
      positive temporary h =
    (
      at - (18446744073709551616 - millis * 1000000),
      omega arith,
      omega arith,
      subst (λ (due : ℕ). WaitsUntil i due s') (add_millis-wraps at millis large small)
          (apply_attempt_result-WaitsUntil s compiled i number response at millis retries temporary
            h),
    )
