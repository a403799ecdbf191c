-- ===== src/Recovery.antt =====
-- workflow/recovery.go: a stored run is checked and made ready to go on after a restart.
pub mod Traces
pub mod Calm
pub mod Quiet
use ai_workload_platform.Common.{
  ltb, ◌==◌, if◌then◌else◌, is_some, ℤ, pos, ltz, lez, length, get_elem?, modify, identity_mismatch,
  task_count_mismatch, invalid_history, started_early, index_panic, Result, ok, or_fail, guard,
  ◌>>=◌, ◌>>◌, ℕ, zero, suc, ◌+◌, Bool, true, false, not, ◌&&◌, ◌||◌, Option, List, [], ◌∷◌, map,
  str_eq,
}
use ai_workload_platform.Distributed.Retry.{set_ready_at}
use ai_workload_platform.Distributed.Settle.{is_task_running, is_attempt_running}
use ai_workload_platform.Distributed.Skip.{skip_descendants_from}
use ai_workload_platform.Model.{
  TaskStatus, AttemptStatus, TaskDefinition, CompiledWorkflow, Attempt, TaskRun, RunSnapshot,
}
use ai_workload_platform.State.{
  is_task_terminal, is_waiting_retry, modify_task, task_at, transition_task, transition_attempt,
}

abbrev pub is_retryable : AttemptStatus → Bool
is_retryable AttemptStatus.failed = true
is_retryable AttemptStatus.timed_out = true
is_retryable AttemptStatus.interrupted = true
is_retryable _ = false

abbrev pub is_attempt_succeeded : AttemptStatus → Bool
is_attempt_succeeded AttemptStatus.succeeded = true
is_attempt_succeeded _ = false

abbrev pub is_attempt_canceled : AttemptStatus → Bool
is_attempt_canceled AttemptStatus.canceled = true
is_attempt_canceled _ = false

abbrev pub is_attempt_failed : AttemptStatus → Bool
is_attempt_failed AttemptStatus.failed = true
is_attempt_failed _ = false

-- `lastStatus`: the empty text when there is no attempt.
abbrev pub last_status : List Attempt → AttemptStatus
last_status [] = AttemptStatus.unknown ""
last_status (attempt ∷ []) = attempt.status
last_status (attempt ∷ next ∷ rest) = last_status (next ∷ rest)

-- The switch of `validateAttemptHistoryForResume`: `count` attempts, the last one at `last`.
unfoldable pub status_fits : TaskStatus → ℕ → AttemptStatus → Option ℕ → ℤ → Bool
status_fits TaskStatus.waiting_dependencies count last ready_at most = count == 0
status_fits TaskStatus.ready count last ready_at most =
    ltz count most && (count == 0 || is_retryable last)
status_fits TaskStatus.running count last ready_at most =
    not (count == 0) && is_attempt_running last
status_fits TaskStatus.waiting_retry count last ready_at most =
    not (count == 0) && (is_some ready_at && (ltz count most && is_retryable last))
status_fits TaskStatus.succeeded count last ready_at most =
    not (count == 0) && is_attempt_succeeded last
status_fits TaskStatus.failed count last ready_at most =
    not (count == 0) && (is_retryable last && (is_attempt_failed last || not (ltz count most)))
status_fits TaskStatus.canceled count last ready_at most =
    count == 0 || (is_attempt_canceled last || is_retryable last)
status_fits TaskStatus.skipped count last ready_at most = count == 0
-- The control plane's `queued` is not a status that the local engine resumes.
status_fits TaskStatus.queued count last ready_at most = false
status_fits (TaskStatus.unknown text) count last ready_at most = false

-- The status of an attempt in the history; only the last one of a running task may be running.
abbrev pub attempt_fits : AttemptStatus → Bool → TaskStatus → Bool
attempt_fits AttemptStatus.running is_last status = is_last && is_task_running status
attempt_fits (AttemptStatus.unknown text) is_last status = false
attempt_fits _ is_last status = true

abbrev pub no_more : List Attempt → Bool
no_more [] = true
no_more (attempt ∷ attempts) = false

-- The loop over the history, from index `i` on.
unfoldable pub history_fits : ℕ → TaskStatus → List Attempt → Bool
history_fits i status [] = true
history_fits i status (attempt ∷ rest) =
    (attempt.number == i + 1 && attempt_fits attempt.status (no_more rest) status)
    && ((no_more rest || is_retryable attempt.status) && history_fits (i + 1) status rest)

unfoldable pub check_history : TaskRun → TaskDefinition → Result (Unit {0})
unfolding status_fits history_fits
check_history task definition = do
  guard (is_waiting_retry task.status || not (is_some task.ready_at)) invalid_history
  guard (lez (length task.attempts) definition.retry.max_attempts) invalid_history
  guard
      (status_fits task.status (length task.attempts) (last_status task.attempts) task.ready_at
        definition.retry.max_attempts)
      invalid_history
  guard (history_fits 0 task.status task.attempts) invalid_history

-- Another attempt, at once.
unfoldable pub wait_again : RunSnapshot → ℕ → ℕ → Result RunSnapshot
wait_again s i now = do
  waiting ← transition_task s i TaskStatus.waiting_retry now "retry interrupted attempt"
  ok (modify_task waiting i (set_ready_at now))

-- What the attempts that are left decide for a task whose attempt was cut off.
unfoldable pub retry_or_fail : RunSnapshot → ℕ → Bool → ℕ → Result RunSnapshot
unfolding wait_again
retry_or_fail s i again now =
    if again
    then wait_again s i now
    else transition_task s i TaskStatus.failed now "attempts exhausted after restart"

unfoldable pub interrupt_task : RunSnapshot → ℕ → TaskRun → TaskDefinition → ℕ → Result RunSnapshot
unfolding retry_or_fail
interrupt_task s i task definition now = do
  stopped ← transition_attempt s i AttemptStatus.interrupted now "process restarted"
  retry_or_fail stopped i (ltz (length task.attempts) definition.retry.max_attempts) now

-- The first loop of `prepareForResume`, from task `i` on.
unfoldable pub restart_tasks : List TaskDefinition → ℕ → RunSnapshot → ℕ → Result RunSnapshot
unfolding check_history interrupt_task
restart_tasks [] i s now = ok s
restart_tasks (definition ∷ definitions) i s now = do
  task ← task_at s i
  guard (str_eq task.key definition.key) identity_mismatch
  check_history task definition
  s' ← if is_task_running task.status then interrupt_task s i task definition now else ok s
  restart_tasks definitions (suc i) s' now

abbrev pub is_blocking : TaskStatus → Bool
is_blocking TaskStatus.failed = true
is_blocking TaskStatus.canceled = true
is_blocking TaskStatus.skipped = true
is_blocking _ = false

unfoldable pub blocked_sources : ℕ → List TaskRun → List ℕ
blocked_sources i [] = []
blocked_sources i (task ∷ tasks) =
    let rest = blocked_sources (suc i) tasks in if is_blocking task.status then i ∷ rest else rest

-- One dependency more: how many are unfinished, and whether one can no longer succeed.
abbrev pub count_dependency : TaskStatus → ℕ × Bool → ℕ × Bool
count_dependency TaskStatus.succeeded (unmet, blocked) = (unmet, blocked)
count_dependency TaskStatus.failed (unmet, blocked) = (unmet, true)
count_dependency TaskStatus.canceled (unmet, blocked) = (unmet, true)
count_dependency TaskStatus.skipped (unmet, blocked) = (unmet, true)
count_dependency _ (unmet, blocked) = (suc unmet, blocked)

unfoldable pub count_dependencies : RunSnapshot → List ℕ → Result (ℕ × Bool)
count_dependencies s [] = ok (0, false)
count_dependencies s (j ∷ js) = do
  task ← task_at s j
  rest ← count_dependencies s js
  ok (count_dependency task.status rest)

abbrev pub set_count : RunSnapshot → ℕ → ℕ → RunSnapshot
set_count s i unmet = record s {
  run = record s.run {
    remaining_dependencies = modify i (λ _. pos unmet) s.run.remaining_dependencies;
  };
}

abbrev pub is_waiting_dependencies : TaskStatus → Bool
is_waiting_dependencies TaskStatus.waiting_dependencies = true
is_waiting_dependencies _ = false

abbrev pub has_started : TaskStatus → Bool
has_started TaskStatus.ready = true
has_started TaskStatus.waiting_retry = true
has_started _ = false

-- A task whose dependencies are counted, `unmet` of them unfinished.
unfoldable pub release_task : RunSnapshot → ℕ → TaskStatus → ℕ → ℕ → Result RunSnapshot
release_task s i status unmet now = do
  released ←
      if unmet == 0 && is_waiting_dependencies status
      then transition_task s i TaskStatus.ready now "dependencies restored"
      else ok s
  guard (not (ltb 0 unmet && has_started status)) started_early
  ok released

unfoldable pub restore_open :
    RunSnapshot → CompiledWorkflow → ℕ → TaskStatus → ℕ → Result RunSnapshot
unfolding count_dependencies release_task
restore_open s compiled i status now = do
  needed ← or_fail (get_elem? compiled.dependencies i) index_panic
  counted ← count_dependencies s needed
  let s' = set_count s i counted.0
  if counted.1
      then transition_task s' i TaskStatus.skipped now "upstream terminal failure"
      else release_task s' i status counted.0 now

-- The last loop of `prepareForResume`, over `count` tasks from task `i` on.
unfoldable pub restore_tasks : ℕ → ℕ → RunSnapshot → CompiledWorkflow → ℕ → Result RunSnapshot
unfolding restore_open
restore_tasks zero i s compiled now = ok s
restore_tasks (suc count) i s compiled now = do
  task ← task_at s i
  s' ← if is_task_terminal task.status then ok s else restore_open s compiled i task.status now
  restore_tasks count (suc i) s' compiled now

abbrev pub reset_counts : RunSnapshot → RunSnapshot
reset_counts s = record s {
  run = record s.run { remaining_dependencies = map (λ _. pos 0) s.run.tasks };
}

unfoldable pub prepare_for_resume : RunSnapshot → CompiledWorkflow → ℕ → Result RunSnapshot
unfolding restart_tasks blocked_sources restore_tasks
prepare_for_resume s compiled now = do
  guard (length s.run.tasks == length compiled.definition.tasks) task_count_mismatch
  restarted ← restart_tasks compiled.definition.tasks 0 (reset_counts s) now
  spread ← skip_descendants_from restarted compiled (blocked_sources 0 restarted.run.tasks) now
  restore_tasks (length spread.run.tasks) 0 spread compiled now
