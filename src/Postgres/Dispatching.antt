-- ===== src/Postgres/Dispatching.antt =====
-- New dispatches for tasks that are ready (`CreateDispatches` of
-- internal/postgres/dispatch_schedule.go).
use ai_workload_platform.Common.{
  ltb, leb, ◌==◌, if◌then◌else◌, is_some, ℤ, pos, ltz, length, database_failed, limit_out_of_range,
  Result, ok, err, guard, ◌>>=◌, ◌>>◌, ℕ, ◌+◌, ◌-◌, String, Bool, true, false, not, ◌&&◌, ◌||◌,
  Option, none, some, List, [], ◌∷◌, ◌++◌, str_eq,
}
use ai_workload_platform.Distributed.Settle.{is_task_running}
use ai_workload_platform.Distributed.Start.{queue_task}
use ai_workload_platform.Engine.Messages.{is_ready}
use ai_workload_platform.Model.{TaskStatus, WorkflowDefinition, RunSnapshot}
use ai_workload_platform.Postgres.Capacity.{capacity_at, change_capacity, load_executor_capacity}
use ai_workload_platform.Postgres.Claim.{is_queued, commit_update, definition_at}
use ai_workload_platform.Postgres.Query.{find, count_where, select_where, limit_to, order_by}
use ai_workload_platform.Postgres.Reap.{open_in}
use ai_workload_platform.Postgres.Runs.{find_version, load_snapshot_rows}
use ai_workload_platform.Postgres.Schedule.{
  first_task_with_status, return_orphaned, is_unfinished_run, runs_by_creation, promote_due_retries,
}
use ai_workload_platform.Postgres.Tables.{
  DispatchStatus, Dispatch, VersionRow, TaskRow, StoredRun, Tables, Host, is_open, find_dispatch,
}
use ai_workload_platform.State.{task_at}
use Prim.Native.String.{◌++◌ as append_text}

abbrev ready_row : TaskRow → Bool
ready_row row = is_ready row.task.status

abbrev is_occupied : TaskStatus → Bool
is_occupied status = is_queued status || is_task_running status

abbrev occupied_row : TaskRow → Bool
occupied_row row = is_occupied row.task.status

abbrev pub concurrency_of : Option WorkflowDefinition → ℤ
concurrency_of none = pos 0
concurrency_of (some definition) = definition.concurrency

abbrev version_concurrency : Host → Option VersionRow → ℤ
version_concurrency host none = pos 0
version_concurrency host (some version) = concurrency_of (host.decode version.definition_json)

-- A run with a ready task and room for one more under its own concurrency.
unfoldable pub is_schedulable : Host → Tables → StoredRun → Bool
unfolding find find_version count_where
is_schedulable host t stored =
    is_unfinished_run stored
    && (is_some (find ready_row stored.tasks)
        && ltz (count_where occupied_row stored.tasks) (
            version_concurrency host
              (find_version t stored.row.definition_id stored.row.definition_version)))

abbrev later : ℕ → Option ℕ → Option ℕ
later at none = some at
later at (some other) = if ltb at other then some other else some at

-- `max(created_at)` of the dispatches of a run; `none` is the null that comes first.
unfoldable pub last_dispatched : String → List Dispatch → Option ℕ
last_dispatched run_id [] = none
last_dispatched run_id (d ∷ ds) =
    let rest = last_dispatched run_id ds in
    if str_eq d.run_id run_id then later d.created_at rest else rest

abbrev instant_before : Option ℕ → Option ℕ → Bool
instant_before none none = false
instant_before none (some b) = true
instant_before (some a) none = false
instant_before (some a) (some b) = ltb a b

-- The runs that have waited longest for a dispatch come first.
abbrev by_fairness : Host → Tables → StoredRun → StoredRun → Bool
by_fairness host t a b =
    let first = last_dispatched a.row.id t.dispatches in
    let second = last_dispatched b.row.id t.dispatches in
    instant_before first second || (not (instant_before second first) && runs_by_creation host a b)

unfoldable pub schedule_candidates : Host → (StoredRun → Bool) → ℕ → Tables → List StoredRun
unfolding is_schedulable last_dispatched select_where order_by limit_to
schedule_candidates host locked available t = limit_to available (
    order_by (by_fairness host t)
      (select_where (λ stored. is_schedulable host t stored && not (locked stored)) t.runs))

abbrev pub new_dispatch : String → String → String → String → ℕ → Dispatch
new_dispatch dispatch_id run_id task_key kind at = record {
  dispatch_id = dispatch_id;
  run_id = run_id;
  task_key = task_key;
  executor_kind = kind;
  status = DispatchStatus.pending;
  owner = none;
  result_hash = none;
  created_at = at;
  completed_at = none;
}

abbrev open_task : String → String → Dispatch → Bool
open_task run_id task_key d = open_in run_id d && str_eq d.task_key task_key

-- The INSERT; the primary key and `task_dispatches_active_task_unique` may refuse it.
unfoldable pub insert_dispatch : Dispatch → Tables → Result Tables
unfolding find_dispatch find
insert_dispatch d t = do
  guard (not (is_some (find_dispatch t d.dispatch_id))) database_failed
  guard (not (is_some (find (open_task d.run_id d.task_key) t.dispatches))) database_failed
  ok (record t { dispatches = t.dispatches ++ d ∷ [] })

-- The loop's variables: the tables, the capacity that is left and the number of dispatches made.
pub record Scan : Type 0 where
  pub tables : Tables
  pub capacity : List (String × ℕ)
  pub created : ℕ

abbrev less_one : ℕ → ℕ
less_one n = n - 1

-- The ready task `i` of a run is queued, if its executor has capacity.
unfoldable pub dispatch_task : Host → ℕ → String → RunSnapshot → ℕ → Scan → Result Scan
unfolding insert_dispatch queue_task commit_update change_capacity
dispatch_task host at suffix s i scan = do
  task ← task_at s i
  definition ← definition_at s i
  if capacity_at definition.executor scan.capacity == 0 then ok scan else (do
    inserted ←
        insert_dispatch
          (new_dispatch (append_text "dsp_" suffix) s.run.id task.key definition.executor at)
          scan.tables
    updated ← queue_task s i at
    committed ← commit_update inserted s updated
    ok (record {
      tables = committed;
      capacity = change_capacity less_one definition.executor scan.capacity;
      created = scan.created + 1;
    }))

abbrev pub dispatch_first : Host → ℕ → String → RunSnapshot → Option ℕ → Scan → Result Scan
dispatch_first host at suffix s none scan = ok scan
dispatch_first host at suffix s (some i) scan = dispatch_task host at suffix s i scan

-- The loop over the candidates; `suffixes` are what `GenerateToken` returns, one for each run.
unfoldable pub dispatch_all : Host → ℕ → ℕ → List String → List StoredRun → Scan → Result Scan
unfolding load_snapshot_rows first_task_with_status dispatch_task
dispatch_all host at available suffixes [] scan = ok scan
dispatch_all host at available [] (stored ∷ rest) scan = err database_failed
dispatch_all host at available (suffix ∷ suffixes) (stored ∷ rest) scan =
    if leb available scan.created then ok scan else (do
      s ← load_snapshot_rows host scan.tables stored.row.id
      next ← dispatch_first host at suffix s (first_task_with_status is_ready 0 s.run.tasks) scan
      dispatch_all host at available suffixes rest next)

abbrev pub open_dispatch : Dispatch → Bool
open_dispatch d = is_open d.status

-- The scan after the clean-up; nothing is made where no slot or no worker is there.
unfoldable pub fill_slots :
    Host → (StoredRun → Bool) → ℕ → ℕ → List String → Tables → Result (Tables × ℕ)
unfolding load_executor_capacity schedule_candidates dispatch_all
fill_slots host locked at available suffixes t =
    if available == 0 || length (load_executor_capacity t) == 0 then ok (t, 0) else (do
      scan ←
          dispatch_all host at available suffixes (schedule_candidates host locked available t)
            (record { tables = t; capacity = load_executor_capacity t; created = 0 })
      ok (scan.tables, scan.created))

-- `CreateDispatches`; a limit that is not positive is zero here.
unfoldable pub create_dispatches :
    Host → (StoredRun → Bool) → ℕ → ℕ → List String → Tables → Result (Tables × ℕ)
unfolding return_orphaned promote_due_retries count_where fill_slots
create_dispatches host locked at limit suffixes t = do
  guard (ltb 0 limit) limit_out_of_range
  returned ← return_orphaned host at limit t
  promoted ← promote_due_retries host locked at limit returned
  fill_slots host locked at (limit - count_where open_dispatch promoted.dispatches) suffixes
      promoted
