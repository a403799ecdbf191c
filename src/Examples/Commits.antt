-- ===== src/Examples/Commits.antt =====
-- The theorems on commits to the database, at the change set that ends the run of one task.
use ai_workload_platform.Common.{
  pos, revision_conflict, ok, err, ◌>>=◌, ◌≡◌, refl, some, [], ◌∷◌, arith,
}
use ai_workload_platform.Change.{ChangeOperation, ChangeSet}
use ai_workload_platform.Examples.Control.{job_row}
use ai_workload_platform.Examples.Outcomes.{
  job_attempt, leased_dispatch, claimed_tables, event_of, ended_task, completed_tables,
}
use ai_workload_platform.Model.{
  WorkflowStatus, TaskStatus, AttemptStatus, ExecutionResult, of_workflow, of_task, of_attempt,
  WorkflowRun,
}
use ai_workload_platform.Postgres.Changes.{validate_shape, apply_stored}
use ai_workload_platform.Postgres.Commits.{
  Committed, apply_stored-find_run, apply_stored-apply_stored_conflict,
}
use ai_workload_platform.Postgres.Runs.{find_run}
use ai_workload_platform.Postgres.Tables.{Tables}

abbrev data_result : ExecutionResult
data_result = record { output = "data"; error_code = ""; error_message = "" }

abbrev ending_row : WorkflowRun
ending_row = record job_row {
  status = WorkflowStatus.succeeded;
  revision = 3;
  last_event_sequence = 4;
  finished_at = some 400;
}

-- What the end of the run changes.
abbrev ending_changes : ChangeSet
ending_changes = record {
  run_id = "run";
  expected_revision = 2;
  run = some ending_row;
  tasks =
      record {
        run_id = "run";
        index = 0;
        task = record (ended_task TaskStatus.succeeded AttemptStatus.succeeded data_result 400) {
          attempts = [];
        };
        remaining_dependencies = pos 0;
      }
      ∷ [];
  attempts =
      record {
        operation = ChangeOperation.update;
        run_id = "run";
        task_key = "job";
        task_index = 0;
        attempt = record job_attempt {
          status = AttemptStatus.succeeded;
          finished_at = some 400;
          result = data_result;
        };
      }
      ∷ [];
  events =
      event_of 2 400 (of_attempt "job" 1 AttemptStatus.running AttemptStatus.succeeded)
        "execution succeeded"
      ∷ event_of 3 400 (of_task "job" TaskStatus.running TaskStatus.succeeded) "execution succeeded"
      ∷ event_of 4 400 (of_workflow "run" WorkflowStatus.running WorkflowStatus.succeeded)
          "all tasks succeeded"
      ∷ [];
}

abbrev ended_tables : Tables
ended_tables = record completed_tables { dispatches = leased_dispatch ∷ [] }

ended_job : apply_stored claimed_tables ending_changes ≡ ok ended_tables
unfolding apply_stored ◌>>=◌
ended_job = refl

ending_valid : validate_shape ending_changes ≡ ok ending_row
unfolding validate_shape ◌>>=◌
ending_valid = refl

apply_stored-find_run_example :
    Committed claimed_tables ending_changes ended_tables
    × (find_run ended_tables "other" ≡ find_run claimed_tables "other")
apply_stored-find_run_example =
    apply_stored-find_run claimed_tables ended_tables ending_changes "other" ended_job refl

apply_stored-apply_stored_conflict_example :
    apply_stored ended_tables ending_changes ≡ err revision_conflict
apply_stored-apply_stored_conflict_example =
    apply_stored-apply_stored_conflict claimed_tables ended_tables ending_changes ending_changes
      ending_row ended_job (omega arith) refl refl ending_valid
