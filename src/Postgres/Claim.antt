-- ===== src/Postgres/Claim.antt =====
-- Leasing pending dispatches to a worker (internal/postgres/dispatch_claim.go), and the helpers of
-- internal/postgres/dispatch_schedule.go that the methods share.
use ai_workload_platform.Common.{
  ltb, ◌==◌, if◌then◌else◌, is_some, u64, lez, get_elem?, no_definition, database_failed,
  worker_session_invalid, worker_draining, worker_capacity_exceeded, index_panic, Result, ok, err,
  or_fail, guard, ◌>>=◌, ◌>>◌, ℕ, suc, ◌+◌, String, Bool, true, false, not, ◌&&◌, ◌||◌, Option,
  none, some, List, [], ◌∷◌, str_eq,
}
use ai_workload_platform.Change.{change_set_between}
use ai_workload_platform.Distributed.Retry.{add_millis}
use ai_workload_platform.Distributed.Start.{is_running, start_queued_attempt}
use ai_workload_platform.Model.{TaskStatus, TaskDefinition, ExecutionRequest, TaskRun, RunSnapshot}
use ai_workload_platform.Model.Input.{Value}
use ai_workload_platform.Postgres.Changes.{apply_change_set_tx}
use ai_workload_platform.Postgres.Query.{find, update_one, select_where, limit_to, order_by}
use ai_workload_platform.Postgres.Runs.{find_run, load_snapshot_rows, compile_loaded}
use ai_workload_platform.Postgres.Tables.{
  WorkerStatus, DispatchStatus, Ownership, Dispatch, TaskRow, StoredRun, Tables, Host, Options,
  is_pending_dispatch, has_id, find_worker, active_leases, digest_token,
}
use ai_workload_platform.Postgres.Workers.{contains_text}
use ai_workload_platform.State.{task_at}

unfoldable pub index_by_key : ℕ → List TaskRun → String → Option ℕ
index_by_key i [] key = none
index_by_key i (task ∷ tasks) key =
    let rest = index_by_key (suc i) tasks key in if str_eq task.key key then some i else rest

-- `taskIndexByKey`, where -1 is `none`.
unfoldable pub task_index_by_key : List TaskRun → String → Option ℕ
unfolding index_by_key
task_index_by_key tasks key = index_by_key 0 tasks key

abbrev pub is_queued : TaskStatus → Bool
is_queued TaskStatus.queued = true
is_queued _ = false

-- The end of every method that changes a run: the next revision, the change set, its rows.
unfoldable pub commit_update : Tables → RunSnapshot → RunSnapshot → Result Tables
unfolding change_set_between apply_change_set_tx
commit_update t s updated = do
  change ←
      change_set_between s
        (record updated { run = record updated.run { revision = u64 (s.run.revision + 1) } })
  apply_change_set_tx t change

pub record Lease : Type 0 where
  pub dispatch_id : String
  pub lease_token : String
  pub definition_id : String
  pub definition_version : ℕ
  pub run_id : String
  pub task_key : String
  pub executor_kind : String
  pub action : String
  pub input : Value
  pub attempt : ℕ
  pub attempt_deadline : ℕ
  pub lease_expires_at : ℕ

-- The earlier of the lease's own end and the deadline of the attempt.
abbrev pub cap_expiry : Options → ℕ → ℕ → ℕ
cap_expiry options at deadline =
    if ltb deadline (at + options.lease_duration) then deadline else at + options.lease_duration

abbrev pub new_owner : Host → Options → ℕ → String → String → ExecutionRequest → ℕ → Ownership
new_owner host options at worker_id token request deadline = record {
  worker_id = worker_id;
  attempt_number = request.attempt;
  token_hash = digest_token host token;
  expires_at = cap_expiry options at deadline;
  deadline = deadline;
  leased_at = at;
}

abbrev pub lease_row : Ownership → Dispatch → Dispatch
lease_row owner d = record d { status = DispatchStatus.leased; owner = some owner }

abbrev pub pending_id : String → Dispatch → Bool
pending_id id d = has_id id d && is_pending_dispatch d.status

abbrev pub new_lease :
    Options → ℕ → Dispatch → String → ℕ → TaskDefinition → ExecutionRequest → ℕ → Lease
new_lease options at d token version definition request deadline = record {
  dispatch_id = d.dispatch_id;
  lease_token = token;
  definition_id = request.definition_id;
  definition_version = version;
  run_id = request.run_id;
  task_key = request.task_key;
  executor_kind = definition.executor;
  action = request.action;
  input = request.input;
  attempt = request.attempt;
  attempt_deadline = deadline;
  lease_expires_at = cap_expiry options at deadline;
}

-- `snapshot.Definition.Tasks[index]`
abbrev pub definition_at : RunSnapshot → ℕ → Result TaskDefinition
definition_at s i = do
  definition ← or_fail s.definition no_definition
  or_fail (get_elem? definition.tasks i) index_panic

-- One turn of the loop over the candidates.
unfoldable pub claim_one :
    Host → Options → ℕ → String → String → Dispatch → Tables → Result (Tables × Lease)
unfolding task_index_by_key start_queued_attempt commit_update update_one load_snapshot_rows
claim_one host options at worker_id token d t = do
  s ← load_snapshot_rows host t d.run_id
  i ← or_fail (task_index_by_key s.run.tasks d.task_key) database_failed
  task ← task_at s i
  guard (is_queued task.status) database_failed
  compiled ← compile_loaded host s
  started ← start_queued_attempt host.clone s compiled i at worker_id d.dispatch_id
  definition ← definition_at s i
  let deadline = add_millis at definition.timeout_millis
  dispatches ←
      update_one (pending_id d.dispatch_id)
        (lease_row (new_owner host options at worker_id token started.1 deadline)) database_failed
        t.dispatches
  committed ← commit_update (record t { dispatches = dispatches }) s started.0
  ok (
    committed,
    new_lease options at d token s.run.definition_version definition started.1 deadline,
  )

-- The loop, where `tokens` are what `GenerateToken` returns.
unfoldable pub claim_all :
    Host
    → Options
    → ℕ
    → String
    → List String
    → List Dispatch
    → Tables
    → Result (Tables × List Lease)
unfolding claim_one
claim_all host options at worker_id tokens [] t = ok (t, [])
claim_all host options at worker_id [] (d ∷ ds) t = err database_failed
claim_all host options at worker_id (token ∷ tokens) (d ∷ ds) t = do
  first ← claim_one host options at worker_id token d t
  rest ← claim_all host options at worker_id tokens ds first.0
  ok (rest.0, first.1 ∷ rest.1)

abbrev task_row_named : String → TaskRow → Bool
task_row_named key row = str_eq row.task.key key

abbrev task_is_queued : Option TaskRow → Bool
task_is_queued none = false
task_is_queued (some row) = is_queued row.task.status

-- The run is running, is not to be canceled, and has the task queued.
abbrev run_is_claimable : String → Option StoredRun → Bool
run_is_claimable key none = false
run_is_claimable key (some stored) =
    is_running stored.row.status
    && (not (is_some stored.row.cancel_requested_at)
        && task_is_queued (find (task_row_named key) stored.tasks))

unfoldable pub is_claimable : Tables → List String → Dispatch → Bool
unfolding find_run find
is_claimable t kinds d =
    is_pending_dispatch d.status
    && (run_is_claimable d.task_key (find_run t d.run_id) && contains_text d.executor_kind kinds)

-- `ORDER BY created_at, dispatch_id`
abbrev pub by_creation : Host → Dispatch → Dispatch → Bool
by_creation host a b =
    ltb a.created_at b.created_at
    || (a.created_at == b.created_at && host.precedes a.dispatch_id b.dispatch_id)

-- `locked` tells the rows that another transaction has locked, which `SKIP LOCKED` passes over.
unfoldable pub claim_candidates :
    Host → (Dispatch → Bool) → Tables → List String → ℕ → List Dispatch
unfolding is_claimable select_where order_by limit_to
claim_candidates host locked t kinds slots = limit_to slots (
    order_by (by_creation host)
      (select_where (λ d. is_claimable t kinds d && not (locked d)) t.dispatches))

-- What a session may claim by its status.
abbrev pub may_claim : WorkerStatus → Result (Unit {0})
may_claim WorkerStatus.active = ok tt
may_claim WorkerStatus.draining = err worker_draining
may_claim _ = err worker_session_invalid

-- `Claim`; a number of slots that is not positive is refused as zero is.
unfoldable pub claim :
    Host
    → Options
    → (Dispatch → Bool)
    → ℕ
    → String
    → ℕ
    → List String
    → Tables
    → Result (Tables × List Lease)
unfolding find_worker active_leases claim_candidates claim_all
claim host options locked at worker_id slots tokens t = do
  guard (ltb 0 slots) worker_capacity_exceeded
  session ← or_fail (find_worker t worker_id) worker_session_invalid
  may_claim session.status
  guard (lez (slots + active_leases t worker_id) session.max_concurrency) worker_capacity_exceeded
  claim_all host options at worker_id tokens
      (claim_candidates host locked t session.executor_kinds slots) t
