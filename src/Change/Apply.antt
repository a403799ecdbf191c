-- ===== src/Change/Apply.antt =====
-- `applyChangeSet` of workflow/change.go: every row is checked before it is written.
use ai_workload_platform.Common.{
  ltb, ◌==◌, u64, ℤ, is_negative, length, get_elem?, modify, contains, revision_conflict,
  invalid_change_set, Result, ok, err, or_fail, guard, ◌>>=◌, ◌>>◌, ℕ, ◌+◌, ◌-◌, String, Bool, true,
  false, not, ◌&&◌, ◌||◌, List, [], ◌∷◌, ◌++◌, str_eq,
}
use ai_workload_platform.Change.{TaskRunChange, ChangeOperation, AttemptChange, ChangeSet}
use ai_workload_platform.Model.{Attempt, TaskRun, StateEvent, RunSnapshot}
use ai_workload_platform.State.{snapshot_last_event_sequence}

abbrev pub contains_pair : ℕ → ℕ → List (ℕ × ℕ) → Bool
contains_pair i n [] = false
contains_pair i n ((j, m) ∷ ps) = (i == j && n == m) || contains_pair i n ps

abbrev pub is_empty {ℓ} : {A : Type ℓ} → List A → Bool
is_empty [] = true
is_empty (x ∷ xs) = false

-- A row takes over the history that is there.
abbrev pub write_row : TaskRun → TaskRun → TaskRun
write_row row task = record row { attempts = task.attempts }

unfoldable pub apply_task_changes :
    String → List ℕ → List TaskRunChange → List TaskRun × List ℤ → Result (List TaskRun × List ℤ)
apply_task_changes run_id seen [] rows = ok rows
apply_task_changes run_id seen (change ∷ changes) (tasks, counts) = do
  guard (str_eq change.run_id run_id) invalid_change_set
  task ← or_fail (get_elem? tasks change.index) invalid_change_set
  guard (not (contains change.index seen)) invalid_change_set
  guard (str_eq change.task.key task.key) invalid_change_set
  guard (is_empty change.task.attempts) invalid_change_set
  guard (not (is_negative change.remaining_dependencies)) invalid_change_set
  apply_task_changes run_id (change.index ∷ seen) changes (
    modify change.index (write_row change.task) tasks,
    modify change.index (λ _. change.remaining_dependencies) counts,
  )

-- The attempts of a task with one row inserted or updated.
unfoldable pub write_attempt : ChangeOperation → Attempt → List Attempt → Result (List Attempt)
write_attempt ChangeOperation.insert attempt attempts = do
  guard (attempt.number == length attempts + 1) invalid_change_set
  ok (attempts ++ attempt ∷ [])
write_attempt ChangeOperation.update attempt attempts = do
  guard (ltb 0 attempt.number) invalid_change_set
  old ← or_fail (get_elem? attempts (attempt.number - 1)) invalid_change_set
  guard (old.number == attempt.number) invalid_change_set
  ok (modify (attempt.number - 1) (λ _. attempt) attempts)
write_attempt (ChangeOperation.unknown text) attempt attempts = err invalid_change_set

unfoldable pub apply_attempt_changes :
    String → List (ℕ × ℕ) → List AttemptChange → List TaskRun → Result (List TaskRun)
unfolding write_attempt
apply_attempt_changes run_id seen [] tasks = ok tasks
apply_attempt_changes run_id seen (change ∷ changes) tasks = do
  guard (str_eq change.run_id run_id) invalid_change_set
  task ← or_fail (get_elem? tasks change.task_index) invalid_change_set
  guard (str_eq change.task_key task.key) invalid_change_set
  guard (not (contains_pair change.task_index change.attempt.number seen)) invalid_change_set
  attempts ← write_attempt change.operation change.attempt task.attempts
  apply_attempt_changes run_id ((change.task_index, change.attempt.number) ∷ seen) changes
      (modify change.task_index (λ t. record t { attempts = attempts }) tasks)

-- The numbers of the new events, where `n` is the last one: the new last number.
unfoldable pub follow_events : ℕ → List StateEvent → Result ℕ
follow_events n [] = ok n
follow_events n (event ∷ events) = do
  guard (event.sequence == u64 (n + 1)) invalid_change_set
  follow_events event.sequence events

unfoldable pub apply_change_set : RunSnapshot → ChangeSet → Result RunSnapshot
unfolding apply_task_changes apply_attempt_changes follow_events
apply_change_set s change = do
  guard (str_eq change.run_id s.run.id) invalid_change_set
  guard (change.expected_revision == s.run.revision) revision_conflict
  run ← or_fail change.run invalid_change_set
  guard (str_eq run.id change.run_id) invalid_change_set
  guard (run.revision == u64 (change.expected_revision + 1)) invalid_change_set
  guard (is_empty run.tasks && is_empty run.remaining_dependencies) invalid_change_set
  guard (length s.run.tasks == length s.run.remaining_dependencies) invalid_change_set
  rows ←
      apply_task_changes change.run_id [] change.tasks (s.run.tasks, s.run.remaining_dependencies)
  tasks ← apply_attempt_changes change.run_id [] change.attempts rows.0
  last ← follow_events (snapshot_last_event_sequence s) change.events
  guard (run.last_event_sequence == last) invalid_change_set
  ok (record s {
    run = record run { tasks = tasks; remaining_dependencies = rows.1 };
    events = s.events ++ change.events;
  })
