-- ===== src/Postgres/Runs.antt =====
-- Reading a run back from its rows (`loadSnapshot` and the queries of
-- internal/postgres/run_store.go).
use ai_workload_platform.Common.{
  ◌==◌, ℤ, length, run_not_found, no_definition, database_failed, Result, ok, or_fail, guard, ◌>>=◌,
  ◌>>◌, ℕ, suc, ◌+◌, String, Bool, true, ◌&&◌, Option, some, List, [], ◌∷◌, map, str_eq,
}
use ai_workload_platform.Compiler.{compile}
use ai_workload_platform.Model.{
  WorkflowDefinition, CompiledWorkflow, Attempt, TaskRun, StateEvent, RunSnapshot,
}
use ai_workload_platform.Postgres.Query.{find}
use ai_workload_platform.Postgres.Tables.{VersionRow, TaskRow, StoredRun, Tables, Host}

abbrev pub has_run_id : String → StoredRun → Bool
has_run_id id stored = str_eq stored.row.id id

abbrev has_version : String → ℕ → VersionRow → Bool
has_version workflow_id version row = str_eq row.workflow_id workflow_id && row.version == version

unfoldable pub find_run : Tables → String → Option StoredRun
unfolding find
find_run t id = find (has_run_id id) t.runs

unfoldable pub find_version : Tables → String → ℕ → Option VersionRow
unfolding find
find_version t workflow_id version = find (has_version workflow_id version) t.versions

-- The loop over the rows of task_runs: `n` rows were read.
unfoldable pub tasks_contiguous : ℕ → List TaskRow → Bool
tasks_contiguous n [] = true
tasks_contiguous n (row ∷ rows) = row.index == n && tasks_contiguous (suc n) rows

unfoldable pub attempts_contiguous : ℕ → List Attempt → Bool
attempts_contiguous n [] = true
attempts_contiguous n (attempt ∷ attempts) =
    attempt.number == n + 1 && attempts_contiguous (suc n) attempts

-- The loop over the rows of attempts, one task after the other.
unfoldable pub all_attempts_contiguous : List TaskRow → Bool
unfolding attempts_contiguous
all_attempts_contiguous [] = true
all_attempts_contiguous (row ∷ rows) =
    attempts_contiguous 0 row.task.attempts && all_attempts_contiguous rows

unfoldable pub events_contiguous : ℕ → List StateEvent → Bool
events_contiguous n [] = true
events_contiguous n (event ∷ events) = event.sequence == n + 1 && events_contiguous (suc n) events

abbrev pub task_of_row : TaskRow → TaskRun
task_of_row row = row.task

abbrev pub count_of_row : TaskRow → ℤ
count_of_row row = row.remaining_dependencies

unfoldable pub snapshot_of_rows : WorkflowDefinition → StoredRun → RunSnapshot
snapshot_of_rows definition stored = record {
  version = stored.snapshot_version;
  definition = some definition;
  run = record stored.row {
    tasks = map task_of_row stored.tasks;
    remaining_dependencies = map count_of_row stored.tasks;
  };
  events = stored.events;
}

-- The rows of one run are those of a snapshot of a workflow with `count` tasks.
unfoldable pub check_rows : ℕ → StoredRun → Result (Unit {0})
unfolding tasks_contiguous all_attempts_contiguous events_contiguous
check_rows count stored = do
  guard (tasks_contiguous 0 stored.tasks) database_failed
  guard (length stored.tasks == count) database_failed
  guard (all_attempts_contiguous stored.tasks) database_failed
  guard (events_contiguous 0 stored.events) database_failed
  guard (stored.row.last_event_sequence == length stored.events) database_failed
  ok tt

-- The definition of a stored run, compiled; a run whose version is missing is not found.
unfoldable pub load_definition : Host → Tables → StoredRun → Result CompiledWorkflow
unfolding find_version
load_definition host t stored = do
  version ←
      or_fail (find_version t stored.row.definition_id stored.row.definition_version) run_not_found
  definition ← or_fail (host.decode version.definition_json) database_failed
  compile host.clone host.encoded_size definition

unfoldable pub load_snapshot_rows : Host → Tables → String → Result RunSnapshot
unfolding find_run load_definition check_rows snapshot_of_rows
load_snapshot_rows host t id = do
  stored ← or_fail (find_run t id) run_not_found
  compiled ← load_definition host t stored
  check_rows (length compiled.definition.tasks) stored
  ok (snapshot_of_rows compiled.definition stored)

-- The definition that a loaded snapshot carries, compiled again.
unfoldable pub compile_loaded : Host → RunSnapshot → Result CompiledWorkflow
compile_loaded host s = do
  definition ← or_fail s.definition no_definition
  compile host.clone host.encoded_size definition
