-- ===== src/Distributed/Retry.antt =====
-- The retry policy: another attempt, or the end of the task (workflow/distributed_state.go).
use ai_workload_platform.Common.{
  ltb, leb, ◌==◌, if◌then◌else◌, u64, ℤ, pos, negsuc, ltz, get_elem?, last?, index_out_of_range,
  index_panic, Result, ok, or_fail, ◌>>=◌, ℕ, suc, ◌+◌, ◌-◌, ◌*◌, String, Bool, false, ◌&&◌, Option,
  none, some,
}
use ai_workload_platform.Distributed.Settle.{settle_workflow_if_complete}
use ai_workload_platform.Distributed.Skip.{skip_descendants}
use ai_workload_platform.Model.{TaskStatus, CompiledWorkflow, TaskRun, RunSnapshot}
use ai_workload_platform.State.{is_waiting_retry, modify_task, transition_task}

-- `time.Duration(millis) * time.Millisecond` and `at.Add`: the product wraps as an `int64`. A wrapped
-- product takes 2 ^ 63 nanoseconds off at most; an instant before the zero time is not represented,
-- so the subtraction is that of Go for instants from 2 ^ 63 nanoseconds (292 years) on.
unfoldable pub add_millis : ℕ → ℤ → ℕ
add_millis at (pos millis) =
    let nanos = u64 (millis * 1000000) in
    if ltb nanos 9223372036854775808 then at + nanos else at - (18446744073709551616 - nanos)
add_millis at (negsuc millis) =
    let nanos = u64 (suc millis * 1000000) in
    if leb nanos 9223372036854775808 then at - nanos else at + (18446744073709551616 - nanos)

abbrev pub set_ready_at : ℕ → TaskRun → TaskRun
set_ready_at at task = record task { ready_at = some at }

-- A task that can no longer succeed: its descendants are skipped, and the run may be over.
unfoldable pub fail_task : RunSnapshot → CompiledWorkflow → ℕ → ℕ → String → Result RunSnapshot
fail_task s compiled i at reason = do
  failed ← transition_task s i TaskStatus.failed at reason
  skipped ← skip_descendants failed compiled i at
  settle_workflow_if_complete skipped at

-- Another attempt is left: it may start when the interval is over.
unfoldable pub wait_for_retry : RunSnapshot → ℕ → ℤ → ℕ → String → Result RunSnapshot
wait_for_retry s i interval at reason = do
  waiting ← transition_task s i TaskStatus.waiting_retry at reason
  ok (modify_task waiting i (set_ready_at (add_millis at interval)))

unfoldable pub apply_retry_decision :
    RunSnapshot → CompiledWorkflow → ℕ → ℕ → ℕ → String → Result (Option RunSnapshot)
unfolding wait_for_retry fail_task
apply_retry_decision s compiled i number at reason = do
  definition ← or_fail (get_elem? compiled.definition.tasks i) index_panic
  settled ←
      if ltz number definition.retry.max_attempts
      then wait_for_retry s i definition.retry.interval_millis at reason
      else fail_task s compiled i at "retry attempts exhausted"
  ok (some settled)

-- The last attempt and the due time of a task that waits for a retry.
unfoldable pub retry_due : TaskRun → ℕ → ℕ → Bool
retry_due task number at = elim task.ready_at [
  | none ↦ false
  | some due ↦ elim (last? task.attempts) [
    | none ↦ false
    | some attempt ↦ is_waiting_retry task.status && (attempt.number == number && leb due at)
  ]
]

unfoldable pub release_retry : RunSnapshot → ℕ → ℕ → Result (Option RunSnapshot)
release_retry s i at = do
  released ← transition_task s i TaskStatus.ready at "retry interval elapsed"
  ok (some released)

unfoldable pub make_retry_ready : RunSnapshot → ℕ → ℕ → ℕ → Result (Option RunSnapshot)
unfolding retry_due release_retry
make_retry_ready s i number at = do
  task ← or_fail (get_elem? s.run.tasks i) index_out_of_range
  if retry_due task number at then release_retry s i at else ok none
