-- ===== src/Examples/Arrivals.antt =====
-- The tables after a scan, a drain, a registration and the start of a run.
-- A ready task, and the tables after the scan that makes a dispatch for it.
use ai_workload_platform.Common.{pos, String, none, some, [], ◌∷◌}
use ai_workload_platform.Examples.Control.{
  job_definition, job_row, job_rows, job_worker, empty_tables, queued_tables,
}
use ai_workload_platform.Examples.Outcomes.{job_task_row, claimed_tables, event_of}
use ai_workload_platform.Examples.Runs.{task_of}
use ai_workload_platform.Model.{WorkflowStatus, TaskStatus, of_task, RunSnapshot}
use ai_workload_platform.Postgres.Dispatching.{new_dispatch}
use ai_workload_platform.Postgres.NewRuns.{run_record}
use ai_workload_platform.Postgres.Tables.{WorkerStatus, Session, Tables}
use ai_workload_platform.Postgres.Workers.{RegisterRequest, new_session}

abbrev pub ready_tables : Tables
ready_tables = record queued_tables { runs = job_rows TaskStatus.ready ∷ []; dispatches = [] }

abbrev pub scanned_tables : Tables
scanned_tables = record queued_tables {
  runs =
      record (job_rows TaskStatus.queued) {
        row = record job_row { revision = 2; last_event_sequence = 1 };
        events =
            event_of 1 250 (of_task "job" TaskStatus.ready TaskStatus.queued) "dispatch created"
            ∷ [];
      }
      ∷ [];
  dispatches = new_dispatch "dsp_1" "run" "job" "mock" 250 ∷ [];
}

abbrev pub draining_worker : Session
draining_worker = record job_worker { status = WorkerStatus.draining }

abbrev pub drained_tables : Tables
drained_tables = record claimed_tables { workers = draining_worker ∷ [] }

abbrev pub register_request : RegisterRequest
register_request = record {
  display_name = " b ";
  protocol_version = pos 1;
  executor_kinds = "mock" ∷ "mock" ∷ [];
  max_concurrency = pos 2;
}

abbrev pub normal_request : RegisterRequest
normal_request = record register_request { display_name = "b"; executor_kinds = "mock" ∷ [] }

abbrev pub new_worker : Session
new_worker = new_session normal_request "wrk_b" "password" 800

abbrev pub registered_tables : Tables
registered_tables = record queued_tables { workers = job_worker ∷ new_worker ∷ [] }

-- A run that is about to be created.
abbrev pub new_job : String → RunSnapshot
new_job id = record {
  version = 1;
  definition = some job_definition;
  run = record job_row {
    id = id;
    status = WorkflowStatus.pending;
    revision = 0;
    tasks = task_of "job" TaskStatus.ready [] ∷ [];
    remaining_dependencies = pos 0 ∷ [];
    started_at = none;
  };
  events = [];
}

abbrev pub started_tables : Tables
started_tables = record empty_tables {
  replays = run_record "user" "key" "hash" "first" ∷ [];
  runs =
      record {
        snapshot_version = 1;
        row = (new_job "first").run;
        created_by = some "user";
        tasks = job_task_row (task_of "job" TaskStatus.ready []) ∷ [];
        events = [];
      }
      ∷ [];
}
