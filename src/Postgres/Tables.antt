-- ===== src/Postgres/Tables.antt =====
-- The tables of internal/postgres/migrations as far as the control plane reads and writes them, and
-- the names of internal/workerprotocol/types.go. A method is one transaction: it returns the tables
-- that it commits, or an error and no tables, which is the rollback.
use ai_workload_platform.Common.{
  ℤ, ℕ, String, Bool, true, false, not, ◌&&◌, ◌||◌, Option, none, some, List, str_eq,
}
use ai_workload_platform.Model.{
  WorkflowDefinition, ExecutionResponse, TaskRun, StateEvent, WorkflowRun,
}
use ai_workload_platform.Model.Input.{Value}
use ai_workload_platform.Postgres.Query.{find, count_where}

pub data WorkerStatus : Type 0 where
  active draining offline stopped : WorkerStatus

pub data WorkerOperation : Type 0 where
  claim heartbeat complete drain : WorkerOperation
  unknown : String → WorkerOperation

pub data DispatchStatus : Type 0 where
  pending leased completed expired canceled : DispatchStatus

-- worker_id, attempt_number, lease_token_hash, lease_expires_at, attempt_deadline and leased_at of a
-- dispatch: the constraint `task_dispatches_ownership_complete` has all of them null or none.
pub record Ownership : Type 0 where
  pub worker_id : String
  pub attempt_number : ℕ
  pub token_hash : String
  pub expires_at : ℕ
  pub deadline : ℕ
  pub leased_at : ℕ

pub record Dispatch : Type 0 where
  pub dispatch_id : String
  pub run_id : String
  pub task_key : String
  pub executor_kind : String
  pub status : DispatchStatus
  pub owner : Option Ownership
  pub result_hash : Option String
  pub created_at : ℕ
  pub completed_at : Option ℕ

pub record Session : Type 0 where
  pub worker_id : String
  pub display_name : String
  pub protocol_version : ℤ
  pub executor_kinds : List String
  pub max_concurrency : ℤ
  pub status : WorkerStatus
  pub token_hash : String
  pub registered_at : ℕ
  pub last_heartbeat_at : ℕ
  pub stopped_at : Option ℕ

pub record VersionRow : Type 0 where
  pub workflow_id : String
  pub version : ℕ
  pub definition_json : String
  pub definition_hash : String
  pub created_at : ℕ
  pub created_by : String

pub record WorkflowRow : Type 0 where
  pub workflow_id : String
  pub latest_version : ℕ
  pub created_at : ℕ
  pub created_by : String

-- A row of idempotency_records, under the key of its first three columns.
pub record IdempotencyRow : Type 0 where
  pub principal : String
  pub operation : String
  pub key : String
  pub request_hash : String
  pub resource_type : String
  pub resource_id : String
  pub resource_version : Option ℕ

-- A row of task_runs with its rows of attempts, which stand in the order of their numbers.
pub record TaskRow : Type 0 where
  pub index : ℕ
  pub task : TaskRun
  pub remaining_dependencies : ℤ

-- A row of workflow_runs (`tasks` and `remaining_dependencies` of `row` are not read) with the rows
-- of task_runs and of state_events that are of this run, each in the order of its primary key.
pub record StoredRun : Type 0 where
  pub snapshot_version : ℕ
  pub row : WorkflowRun
  pub created_by : Option String
  pub tasks : List TaskRow
  pub events : List StateEvent

pub record Tables : Type 0 where
  pub workflows : List WorkflowRow
  pub versions : List VersionRow
  pub replays : List IdempotencyRow
  pub runs : List StoredRun
  pub dispatches : List Dispatch
  pub workers : List Session

-- What the repository takes from elsewhere: the JSON codecs of Go's standard library (`clone` of
-- cloneTaskInput, `encoded_size` of an input, `encode` and `decode` of a definition, `canonical` of a
-- result), SHA-256 as `digest`, and the collation of the database as `precedes`.
pub record Host : Type 0 where
  pub clone : Value → Value
  pub encoded_size : Value → Option ℕ
  pub encode : WorkflowDefinition → Option String
  pub decode : String → Option WorkflowDefinition
  pub canonical : ExecutionResponse → String
  pub digest : String → String
  pub precedes : String → String → Bool

-- `Options`, in nanoseconds; `NewWithOptions` refuses a lease that is not longer than a heartbeat.
pub record Options : Type 0 where
  pub heartbeat_interval : ℕ
  pub lease_duration : ℕ

abbrev pub is_pending_dispatch : DispatchStatus → Bool
is_pending_dispatch DispatchStatus.pending = true
is_pending_dispatch _ = false

abbrev pub is_leased : DispatchStatus → Bool
is_leased DispatchStatus.leased = true
is_leased _ = false

abbrev pub is_completed : DispatchStatus → Bool
is_completed DispatchStatus.completed = true
is_completed _ = false

-- `status IN ('pending', 'leased')`
abbrev pub is_open : DispatchStatus → Bool
is_open status = is_pending_dispatch status || is_leased status

abbrev pub is_active_worker : WorkerStatus → Bool
is_active_worker WorkerStatus.active = true
is_active_worker _ = false

abbrev pub is_draining : WorkerStatus → Bool
is_draining WorkerStatus.draining = true
is_draining _ = false

abbrev pub owned_by : String → Option Ownership → Bool
owned_by worker_id none = false
owned_by worker_id (some owner) = str_eq owner.worker_id worker_id

-- `worker_id = $1 AND status = 'leased'`
abbrev pub leased_to : String → Dispatch → Bool
leased_to worker_id d = is_leased d.status && owned_by worker_id d.owner

abbrev pub has_id : String → Dispatch → Bool
has_id id d = str_eq d.dispatch_id id

abbrev pub is_worker : String → Session → Bool
is_worker id session = str_eq session.worker_id id

unfoldable pub find_dispatch : Tables → String → Option Dispatch
unfolding find
find_dispatch t id = find (has_id id) t.dispatches

unfoldable pub find_worker : Tables → String → Option Session
unfolding find
find_worker t id = find (is_worker id) t.workers

unfoldable pub active_leases : Tables → String → ℕ
unfolding count_where
active_leases t worker_id = count_where (leased_to worker_id) t.dispatches

-- `DigestToken` of internal/workerauth/token.go.
unfoldable pub digest_token : Host → String → String
digest_token host token = host.digest token

-- `MatchesToken`: an empty token never matches. The length of a stored hash is a constraint of the
-- table.
unfoldable pub matches_token : Host → String → String → Bool
matches_token host token expected = not (str_eq token "") && str_eq (host.digest token) expected
