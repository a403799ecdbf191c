-- ===== src/Creation.antt =====
-- A new run (workflow/run.go).
pub mod Fresh
use ai_workload_platform.Common.{
  ltb, ◌==◌, if◌then◌else◌, ℤ, pos, length, id_required, invalid_definition, index_panic, Result,
  ok, err, guard, ◌>>=◌, ◌>>◌, ℕ, String, not, none, some, List, [], ◌∷◌, str_eq,
}
use ai_workload_platform.Model.{
  WorkflowStatus, TaskStatus, TaskDefinition, CompiledWorkflow, TaskRun, RunSnapshot,
}

-- One task of `newRunSnapshot`: it is ready when it depends on nothing.
abbrev pub new_task : TaskDefinition → List ℕ → TaskRun
new_task definition needed = record {
  key = definition.key;
  status = if length needed == 0 then TaskStatus.ready else TaskStatus.waiting_dependencies;
  attempts = [];
  ready_at = none;
  finished_at = none;
}

-- The loop over the definitions; a missing row of `dependencies` is the panic of the index.
unfoldable pub new_tasks : List TaskDefinition → List (List ℕ) → Result (List TaskRun × List ℤ)
new_tasks [] needed = ok ([], [])
new_tasks (definition ∷ definitions) [] = err index_panic
new_tasks (definition ∷ definitions) (needed ∷ rest) = do
  rows ← new_tasks definitions rest
  ok (new_task definition needed ∷ rows.0, pos (length needed) ∷ rows.1)

unfoldable pub new_run_snapshot : String → CompiledWorkflow → ℕ → Result RunSnapshot
unfolding new_tasks
new_run_snapshot id compiled now = do
  rows ← new_tasks compiled.definition.tasks compiled.dependencies
  ok (record {
    version = 1;
    definition = some compiled.definition;
    run = record {
      id = id;
      definition_id = compiled.definition.id;
      definition_version = 0;
      status = WorkflowStatus.pending;
      revision = 0;
      last_event_sequence = 0;
      cancel_requested_at = none;
      tasks = rows.0;
      remaining_dependencies = rows.1;
      created_at = now;
      started_at = none;
      finished_at = none;
    };
    events = [];
  })

unfoldable pub new_run_snapshot_for_version : String → CompiledWorkflow → ℕ → ℕ → Result RunSnapshot
unfolding new_run_snapshot
new_run_snapshot_for_version id compiled version now = do
  guard (not (str_eq id "")) id_required
  guard (ltb 0 version) invalid_definition
  s ← new_run_snapshot id compiled now
  ok (record s { run = record s.run { definition_version = version } })
