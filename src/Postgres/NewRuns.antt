-- ===== src/Postgres/NewRuns.antt =====
-- New runs, the list of open ones, and requests for a cancellation
-- (internal/postgres/run_store.go).
use ai_workload_platform.Common.{
  ltb, ◌==◌, if◌then◌else◌, is_some, ℤ, is_negative, run_exists, run_not_found, invalid_change_set,
  database_failed, definition_not_found, invalid_snapshot, definition_mismatch, Result, ok, or_fail,
  guard, ◌>>=◌, ◌>>◌, ℕ, suc, ◌+◌, String, Bool, true, false, not, ◌&&◌, Option, none, some, List,
  [], ◌∷◌, ◌++◌, map, str_eq,
}
use ai_workload_platform.Compiler.{compile}
use ai_workload_platform.Distributed.Start.{is_pending}
use ai_workload_platform.Model.{
  TaskDefinition, WorkflowDefinition, TaskRun, StateEvent, WorkflowRun, RunSnapshot,
}
use ai_workload_platform.Postgres.Catalog.{without_change, replay_or}
use ai_workload_platform.Postgres.Query.{update_where, select_where, order_by}
use ai_workload_platform.Postgres.Replay.{
  load_idempotency, insert_idempotency, validate_idempotency_input, validate_replay,
}
use ai_workload_platform.Postgres.Runs.{
  has_run_id, find_run, find_version, attempts_contiguous, load_snapshot_rows,
}
use ai_workload_platform.Postgres.Schedule.{runs_by_creation}
use ai_workload_platform.Postgres.Tables.{IdempotencyRow, TaskRow, StoredRun, Tables, Host}
use ai_workload_platform.State.{is_workflow_terminal}

-- The loop over the tasks of a new snapshot: keys of the definition, counts that are not negative.
unfoldable pub initial_tasks : List TaskRun → List TaskDefinition → List ℤ → Bool
initial_tasks [] [] [] = true
initial_tasks (task ∷ tasks) (definition ∷ definitions) (count ∷ counts) =
    str_eq task.key definition.key
    && (not (is_negative count) && initial_tasks tasks definitions counts)
initial_tasks _ _ _ = false

-- The numbers 1, 2, … : the last one, or 0.
unfoldable pub initial_events : ℕ → List StateEvent → Result ℕ
initial_events n [] = ok n
initial_events n (event ∷ events) = do
  guard (event.sequence == n + 1) invalid_snapshot
  initial_events (n + 1) events

unfoldable pub validate_initial_snapshot : RunSnapshot → Result WorkflowDefinition
unfolding initial_tasks initial_events
validate_initial_snapshot s = do
  guard (ltb 0 s.version) invalid_snapshot
  definition ← or_fail s.definition invalid_snapshot
  guard (not (str_eq s.run.id "")) invalid_snapshot
  guard (str_eq s.run.definition_id definition.id) invalid_snapshot
  guard (ltb 0 s.run.definition_version) invalid_snapshot
  guard (is_pending s.run.status && s.run.revision == 0) invalid_snapshot
  guard (initial_tasks s.run.tasks definition.tasks s.run.remaining_dependencies) invalid_snapshot
  last ← initial_events 0 s.events
  guard (s.run.last_event_sequence == last) invalid_snapshot
  ok definition

unfoldable pub ensure_definition_matches :
    Host → RunSnapshot → WorkflowDefinition → Tables → Result (Unit {0})
unfolding find_version
ensure_definition_matches host s definition t = do
  version ←
      or_fail (find_version t s.run.definition_id s.run.definition_version) definition_not_found
  stored ← or_fail (host.decode version.definition_json) database_failed
  stored_compiled ← compile host.clone host.encoded_size stored
  wanted_compiled ← compile host.clone host.encoded_size definition
  stored_text ← or_fail (host.encode stored_compiled.definition) database_failed
  wanted_text ← or_fail (host.encode wanted_compiled.definition) database_failed
  guard (str_eq stored_text wanted_text) definition_mismatch
  ok tt

-- The rows of task_runs, with those of attempts; both lists have one length.
unfoldable pub rows_of_tasks : ℕ → List TaskRun → List ℤ → List TaskRow
rows_of_tasks i [] counts = []
rows_of_tasks i (task ∷ tasks) [] = []
rows_of_tasks i (task ∷ tasks) (count ∷ counts) =
    record { index = i; task = task; remaining_dependencies = count }
    ∷ rows_of_tasks (suc i) tasks counts

unfoldable pub rows_of_snapshot : RunSnapshot → Option String → StoredRun
unfolding rows_of_tasks
rows_of_snapshot s created_by = record {
  snapshot_version = s.version;
  row = s.run;
  created_by = created_by;
  tasks = rows_of_tasks 0 s.run.tasks s.run.remaining_dependencies;
  events = s.events;
}

-- The attempts of a new task are numbered from 1, as `insertAttempt` demands.
unfoldable pub attempts_insertable : List TaskRun → Bool
unfolding attempts_contiguous
attempts_insertable [] = true
attempts_insertable (task ∷ tasks) =
    attempts_contiguous 0 task.attempts && attempts_insertable tasks

unfoldable pub insert_snapshot :
    Host → RunSnapshot → WorkflowDefinition → Option String → Tables → Result Tables
unfolding ensure_definition_matches find_run rows_of_snapshot attempts_insertable
insert_snapshot host s definition created_by t = do
  ensure_definition_matches host s definition t
  guard (not (is_some (find_run t s.run.id))) run_exists
  guard (attempts_insertable s.run.tasks) invalid_change_set
  ok (record t { runs = t.runs ++ rows_of_snapshot s created_by ∷ [] })

-- `Create` of the repository.
unfoldable pub create_stored : Host → RunSnapshot → Tables → Result Tables
unfolding validate_initial_snapshot insert_snapshot
create_stored host s t = do
  definition ← validate_initial_snapshot s
  insert_snapshot host s definition none t

abbrev pub run_record : String → String → String → String → IdempotencyRow
run_record principal key request_hash id = record {
  principal = principal;
  operation = "start_run";
  key = key;
  request_hash = request_hash;
  resource_type = "run";
  resource_id = id;
  resource_version = none;
}

-- The answer to a replay: the first run, and that it was not created now.
unfoldable pub replayed_run : String → IdempotencyRow → Result (String × Bool)
unfolding validate_replay
replayed_run request_hash row = do
  validate_replay row request_hash "run"
  ok (row.resource_id, false)

unfoldable pub insert_run :
    Host
    → RunSnapshot
    → WorkflowDefinition
    → String
    → String
    → String
    → Tables
    → Result (Tables × (String × Bool))
unfolding insert_snapshot insert_idempotency
insert_run host s definition principal key request_hash t = do
  inserted ← insert_snapshot host s definition (some principal) t
  recorded ← insert_idempotency (run_record principal key request_hash s.run.id) inserted
  ok (recorded, (s.run.id, true))

-- `CreateRun` of the repository.
unfoldable pub start_run :
    Host → RunSnapshot → String → String → String → Tables → Result (Tables × (String × Bool))
unfolding validate_initial_snapshot validate_idempotency_input load_idempotency replayed_run
    insert_run
start_run host s principal key request_hash t = do
  definition ← validate_initial_snapshot s
  validate_idempotency_input principal key request_hash
  replay_or (load_idempotency t principal "start_run" key)
      (λ row. without_change t (replayed_run request_hash row))
      (insert_run host s definition principal key request_hash t)

abbrev is_open_run : StoredRun → Bool
is_open_run stored = not (is_workflow_terminal stored.row.status)

abbrev pub id_of : StoredRun → String
id_of stored = stored.row.id

-- `ListNonTerminal`.
unfoldable pub list_open_runs : Host → Tables → List String
unfolding select_where order_by is_workflow_terminal
list_open_runs host t =
    map id_of (order_by (runs_by_creation host) (select_where is_open_run t.runs))

abbrev pub request_stored : ℕ → StoredRun → StoredRun
request_stored at stored = record stored {
  row = record stored.row { cancel_requested_at = some at; revision = stored.row.revision + 1 };
}

-- The row takes the first request, unless the run has ended.
abbrev pub takes_request : StoredRun → Bool
takes_request stored =
    not (is_workflow_terminal stored.row.status) && not (is_some stored.row.cancel_requested_at)

-- `RequestCancel`; the answer is the run.
unfoldable pub request_stored_cancel : Host → ℕ → String → Tables → Result (Tables × WorkflowRun)
unfolding find_run update_where load_snapshot_rows is_workflow_terminal
request_stored_cancel host at id t = do
  stored ← or_fail (find_run t id) run_not_found
  let marked =
      if takes_request stored
      then record t { runs = update_where (has_run_id id) (request_stored at) t.runs }
      else t
  s ← load_snapshot_rows host marked id
  ok (marked, s.run)
