-- ===== src/Examples/Control.antt =====
-- A database with one run of one task, and a worker that takes it.
use ai_workload_platform.Common.{if◌then◌else◌, pos, Bool, false, none, some, [], ◌∷◌, str_eq}
use ai_workload_platform.Examples.Runs.{retry_once, task_of}
use ai_workload_platform.Model.{
  WorkflowStatus, TaskStatus, TaskDefinition, WorkflowDefinition, WorkflowRun,
}
use ai_workload_platform.Model.Input.{Value}
use ai_workload_platform.Postgres.Dispatching.{new_dispatch}
use ai_workload_platform.Postgres.Tables.{
  WorkerStatus, Session, VersionRow, StoredRun, Tables, Host, Options,
}

abbrev pub job_task : TaskDefinition
job_task = record {
  key = "job";
  executor = "mock";
  action = "get";
  input = Value.null;
  depends_on = [];
  retry = retry_once;
  timeout_millis = pos 1000;
}

abbrev pub job_definition : WorkflowDefinition
job_definition = record { id = "jobs"; concurrency = pos 1; tasks = job_task ∷ [] }

-- A codec that knows one definition, and a digest that is the text itself.
abbrev pub small_host : Host
small_host = record {
  clone = λ v. v;
  encoded_size = λ v. some 2;
  encode = λ d. some "jobs";
  decode = λ text. if str_eq text "jobs" then some job_definition else none;
  canonical = λ response. response.output;
  digest = λ text. text;
  precedes = λ a b. false;
}

abbrev pub small_options : Options
small_options = record { heartbeat_interval = 5000000; lease_duration = 15000000 }

abbrev pub job_version : VersionRow
job_version = record {
  workflow_id = "jobs";
  version = 1;
  definition_json = "jobs";
  definition_hash = "hash";
  created_at = 10;
  created_by = "user";
}

abbrev pub job_row : WorkflowRun
job_row = record {
  id = "run";
  definition_id = "jobs";
  definition_version = 1;
  status = WorkflowStatus.running;
  revision = 1;
  last_event_sequence = 0;
  cancel_requested_at = none;
  tasks = [];
  remaining_dependencies = [];
  created_at = 100;
  started_at = some 100;
  finished_at = none;
}

abbrev pub job_rows : TaskStatus → StoredRun
job_rows status = record {
  snapshot_version = 1;
  row = job_row;
  created_by = some "user";
  tasks = record { index = 0; task = task_of "job" status []; remaining_dependencies = pos 0 } ∷ [];
  events = [];
}

abbrev pub job_worker : Session
job_worker = record {
  worker_id = "wrk_a";
  display_name = "a";
  protocol_version = pos 1;
  executor_kinds = "mock" ∷ [];
  max_concurrency = pos 1;
  status = WorkerStatus.active;
  token_hash = "secret";
  registered_at = 50;
  last_heartbeat_at = 50;
  stopped_at = none;
}

abbrev pub empty_tables : Tables
empty_tables = record {
  workflows = [];
  versions = job_version ∷ [];
  replays = [];
  runs = [];
  dispatches = [];
  workers = [];
}

-- The task is queued, and its dispatch is pending.
abbrev pub queued_tables : Tables
queued_tables = record empty_tables {
  runs = job_rows TaskStatus.queued ∷ [];
  dispatches = new_dispatch "dsp_1" "run" "job" "mock" 200 ∷ [];
  workers = job_worker ∷ [];
}

abbrev pub no_lock {ℓ} : {A : Type ℓ} → A → Bool
no_lock row = false
