-- ===== src/Postgres/Changes.antt =====
-- A change set written row by row (`applyChangeSetTx` and its helpers in
-- internal/postgres/run_store.go).
use ai_workload_platform.Common.{
  ltb, ◌==◌, if◌then◌else◌, u64, is_negative, contains, run_not_found, revision_conflict,
  invalid_change_set, database_failed, Result, ok, err, or_fail, guard, ◌>>=◌, ◌>>◌, ℕ, ◌+◌, String,
  Bool, true, false, not, ◌&&◌, ◌||◌, List, [], ◌∷◌, ◌++◌, str_eq,
}
use ai_workload_platform.Change.{TaskRunChange, ChangeOperation, AttemptChange, ChangeSet}
use ai_workload_platform.Change.Apply.{is_empty}
use ai_workload_platform.Model.{Attempt, StateEvent, WorkflowRun}
use ai_workload_platform.Postgres.Query.{update_where, update_one}
use ai_workload_platform.Postgres.Runs.{has_run_id, find_run}
use ai_workload_platform.Postgres.Tables.{TaskRow, StoredRun, Tables}

-- The first loop of `validateChangeSetShape`; `seen` are the indices so far.
unfoldable pub valid_task_changes : String → List ℕ → List TaskRunChange → Bool
valid_task_changes run_id seen [] = true
valid_task_changes run_id seen (change ∷ changes) =
    let rest = valid_task_changes run_id (change.index ∷ seen) changes in
    str_eq change.run_id run_id
    && (not (str_eq change.task.key "")
        && (is_empty change.task.attempts
            && (not (is_negative change.remaining_dependencies)
                && (not (contains change.index seen) && rest))))

abbrev contains_attempt : String → ℕ → List (String × ℕ) → Bool
contains_attempt key number [] = false
contains_attempt key number ((key', number') ∷ seen) =
    (str_eq key key' && number == number') || contains_attempt key number seen

-- The second loop; the text of key and number is the pair, since a key holds no slash.
unfoldable pub valid_attempt_changes : String → List (String × ℕ) → List AttemptChange → Bool
valid_attempt_changes run_id seen [] = true
valid_attempt_changes run_id seen (change ∷ changes) =
    let rest =
      valid_attempt_changes run_id ((change.task_key, change.attempt.number) ∷ seen) changes in
    str_eq change.run_id run_id
    && (not (str_eq change.task_key "")
        && (ltb 0 change.attempt.number
            && (not (contains_attempt change.task_key change.attempt.number seen) && rest)))

-- The third loop: the numbers follow `expected`; the answer is the number after the last.
unfoldable pub number_events : ℕ → List StateEvent → Result ℕ
number_events expected [] = ok expected
number_events expected (event ∷ events) = do
  guard (event.sequence == expected) invalid_change_set
  number_events (u64 (expected + 1)) events

abbrev before_number : ℕ → ℕ
before_number n = u64 (n + 18446744073709551615)

unfoldable pub valid_events : ℕ → List StateEvent → Result (Unit {0})
unfolding number_events
valid_events last [] = ok tt
valid_events last (event ∷ events) = do
  guard (not (event.sequence == 0)) invalid_change_set
  next ← number_events event.sequence (event ∷ events)
  guard (last == before_number next) invalid_change_set
  ok tt

unfoldable pub validate_shape : ChangeSet → Result WorkflowRun
unfolding valid_task_changes valid_attempt_changes valid_events
validate_shape change = do
  guard (not (str_eq change.run_id "")) invalid_change_set
  run ← or_fail change.run invalid_change_set
  guard (str_eq run.id change.run_id) invalid_change_set
  guard (run.revision == u64 (change.expected_revision + 1)) invalid_change_set
  guard (is_empty run.tasks && is_empty run.remaining_dependencies) invalid_change_set
  guard (valid_task_changes change.run_id [] change.tasks) invalid_change_set
  guard (valid_attempt_changes change.run_id [] change.attempts) invalid_change_set
  valid_events run.last_event_sequence change.events
  ok run

-- `expectedLastSequence`: the number before the first new event.
unfoldable pub expected_last : ℕ → List StateEvent → ℕ
expected_last last [] = last
expected_last last (event ∷ events) = before_number event.sequence

-- The columns of workflow_runs that the UPDATE sets.
unfoldable pub write_run_row : WorkflowRun → WorkflowRun → WorkflowRun
write_run_row run row = record row {
  status = run.status;
  revision = run.revision;
  last_event_sequence = run.last_event_sequence;
  cancel_requested_at = run.cancel_requested_at;
  created_at = run.created_at;
  started_at = run.started_at;
  finished_at = run.finished_at;
}

-- The UPDATE of the run row, and `classifyRunUpdateMiss` where no row has the revision and sequence.
unfoldable pub update_run_row : WorkflowRun → ℕ → ℕ → StoredRun → Result StoredRun
unfolding write_run_row
update_run_row run revision last stored = do
  guard (stored.row.revision == revision) revision_conflict
  guard (stored.row.last_event_sequence == last) invalid_change_set
  ok (record stored { row = write_run_row run stored.row })

abbrev matches_task : ℕ → String → TaskRow → Bool
matches_task index key row = row.index == index && str_eq row.task.key key

-- The columns of task_runs that the UPDATE sets.
abbrev write_task_row : TaskRunChange → TaskRow → TaskRow
write_task_row change row = record row {
  task = record row.task {
    status = change.task.status;
    ready_at = change.task.ready_at;
    finished_at = change.task.finished_at;
  };
  remaining_dependencies = change.remaining_dependencies;
}

unfoldable pub update_task_rows : List TaskRunChange → List TaskRow → Result (List TaskRow)
unfolding update_one
update_task_rows [] rows = ok rows
update_task_rows (change ∷ changes) rows = do
  written ←
      update_one (matches_task change.index change.task.key) (write_task_row change)
        invalid_change_set rows
  update_task_rows changes written

-- `MAX(attempt_number)`, where 0 stands for no row.
unfoldable pub max_number : List Attempt → ℕ
max_number [] = 0
max_number (attempt ∷ attempts) =
    let rest = max_number attempts in if ltb rest attempt.number then attempt.number else rest

abbrev attempt_numbered : ℕ → Attempt → Bool
attempt_numbered number attempt = attempt.number == number

-- One row of attempts inserted (`insertAttempt`) or updated.
unfoldable pub write_attempt_row : ChangeOperation → Attempt → TaskRow → Result TaskRow
unfolding max_number update_one
write_attempt_row ChangeOperation.insert attempt row = do
  guard (attempt.number == max_number row.task.attempts + 1) invalid_change_set
  ok (record row { task = record row.task { attempts = row.task.attempts ++ attempt ∷ [] } })
write_attempt_row ChangeOperation.update attempt row = do
  attempts ←
      update_one (attempt_numbered attempt.number) (λ _. attempt) invalid_change_set
        row.task.attempts
  ok (record row { task = record row.task { attempts = attempts } })
write_attempt_row (ChangeOperation.unknown text) attempt row = err invalid_change_set

-- One change of an attempt, in the row of its task; there is one row with an index.
unfoldable pub update_attempt_row : AttemptChange → List TaskRow → Result (List TaskRow)
unfolding write_attempt_row
update_attempt_row change [] = err invalid_change_set
update_attempt_row change (row ∷ rows) = elim (matches_task change.task_index change.task_key row) [
  | true ↦ do written ← write_attempt_row change.operation change.attempt row; ok (written ∷ rows)
  | false ↦ do rest ← update_attempt_row change rows; ok (row ∷ rest)
]

unfoldable pub update_attempt_rows : List AttemptChange → List TaskRow → Result (List TaskRow)
unfolding update_attempt_row
update_attempt_rows [] rows = ok rows
update_attempt_rows (change ∷ changes) rows = do
  written ← update_attempt_row change rows
  update_attempt_rows changes written

-- `insertEvent`: the number is the key of the row, so a second row with it is refused.
unfoldable pub insert_event : StateEvent → List StateEvent → Result (List StateEvent)
insert_event event [] = ok (event ∷ [])
insert_event event (other ∷ events) =
    let later = insert_event event events >>= λ rest. ok (other ∷ rest) in
    if event.sequence == other.sequence
    then err database_failed
    else if ltb event.sequence other.sequence
    then ok (event ∷ other ∷ events)
    else later

unfoldable pub insert_events : List StateEvent → List StateEvent → Result (List StateEvent)
unfolding insert_event
insert_events [] rows = ok rows
insert_events (event ∷ events) rows = do
  written ← insert_event event rows
  insert_events events written

-- The statements of one change set on the rows of its run.
unfoldable pub write_rows : WorkflowRun → ChangeSet → StoredRun → Result StoredRun
unfolding update_run_row expected_last update_task_rows update_attempt_rows insert_events
write_rows run change stored = do
  updated ←
      update_run_row run change.expected_revision
        (expected_last run.last_event_sequence change.events) stored
  tasks ← update_task_rows change.tasks updated.tasks
  tasks ← update_attempt_rows change.attempts tasks
  events ← insert_events change.events updated.events
  ok (record updated { tasks = tasks; events = events })

unfoldable pub apply_change_set_tx : Tables → ChangeSet → Result Tables
unfolding validate_shape find_run write_rows update_where
apply_change_set_tx t change = do
  run ← validate_shape change
  stored ← or_fail (find_run t change.run_id) run_not_found
  written ← write_rows run change stored
  ok (record t { runs = update_where (has_run_id change.run_id) (λ _. written) t.runs })

-- `Apply` of the repository.
unfoldable pub apply_stored : Tables → ChangeSet → Result Tables
unfolding validate_shape apply_change_set_tx
apply_stored t change = do run ← validate_shape change; apply_change_set_tx t change
