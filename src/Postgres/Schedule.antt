-- ===== src/Postgres/Schedule.antt =====
-- One scan of the scheduler (internal/postgres/dispatch_schedule.go).
use ai_workload_platform.Common.{
  ltb, leb, ◌==◌, if◌then◌else◌, is_some, last?, run_not_found, database_failed, index_panic,
  Result, ok, err, or_fail, guard, ◌>>=◌, ◌>>◌, ℕ, suc, String, Bool, false, not, ◌&&◌, ◌||◌,
  Option, none, some, List, [], ◌∷◌,
}
use ai_workload_platform.Distributed.Retry.{make_retry_ready}
use ai_workload_platform.Distributed.Start.{is_pending, is_running, return_queued_task_to_ready}
use ai_workload_platform.Model.{TaskStatus, Attempt, TaskRun, RunSnapshot}
use ai_workload_platform.Postgres.Claim.{
  task_index_by_key, is_queued, commit_update, pending_id, by_creation,
}
use ai_workload_platform.Postgres.Query.{find, update_one, select_where, limit_to, order_by}
use ai_workload_platform.Postgres.Runs.{find_run, load_snapshot_rows}
use ai_workload_platform.Postgres.Tables.{
  DispatchStatus, Dispatch, Session, TaskRow, StoredRun, Tables, Host, is_pending_dispatch,
  is_active_worker, find_dispatch,
}
use ai_workload_platform.Postgres.Workers.{contains_text}
use ai_workload_platform.State.{is_waiting_retry, task_at}

unfoldable pub first_task_with_status : (TaskStatus → Bool) → ℕ → List TaskRun → Option ℕ
first_task_with_status test i [] = none
first_task_with_status test i (task ∷ tasks) =
    let rest = first_task_with_status test (suc i) tasks in
    if test task.status then some i else rest

abbrev is_due : ℕ → Option ℕ → Bool
is_due at none = false
is_due at (some due) = leb due at

abbrev due_retry : ℕ → TaskRun → Bool
due_retry at task = is_waiting_retry task.status && is_due at task.ready_at

unfoldable pub first_due_retry : ℕ → ℕ → List TaskRun → Option ℕ
first_due_retry at i [] = none
first_due_retry at i (task ∷ tasks) =
    let rest = first_due_retry at (suc i) tasks in if due_retry at task then some i else rest

abbrev has_kind : String → Session → Bool
has_kind kind session = is_active_worker session.status && contains_text kind session.executor_kinds

abbrev not_canceling : Option StoredRun → Bool
not_canceling none = false
not_canceling (some stored) = not (is_some stored.row.cancel_requested_at)

-- A pending dispatch that no active worker can take.
unfoldable pub is_orphaned : Tables → Dispatch → Bool
unfolding find_run find
is_orphaned t d =
    is_pending_dispatch d.status
    && (not_canceling (find_run t d.run_id)
        && not (is_some (find (has_kind d.executor_kind) t.workers)))

abbrev pub cancel_pending_row : ℕ → Dispatch → Dispatch
cancel_pending_row at d = record d { status = DispatchStatus.canceled; completed_at = some at }

unfoldable pub return_dispatch : Host → ℕ → Dispatch → Tables → Result Tables
unfolding load_snapshot_rows task_index_by_key return_queued_task_to_ready commit_update update_one
return_dispatch host at d t = do
  s ← load_snapshot_rows host t d.run_id
  i ← or_fail (task_index_by_key s.run.tasks d.task_key) database_failed
  task ← task_at s i
  guard (is_queued task.status) database_failed
  updated ← return_queued_task_to_ready s i at "no compatible active Worker"
  committed ← commit_update t s updated
  dispatches ←
      update_one (pending_id d.dispatch_id) (cancel_pending_row at) database_failed
        committed.dispatches
  ok (record committed { dispatches = dispatches })

-- The row is read again, and left alone where it is no longer pending.
unfoldable pub return_found : Host → ℕ → Option Dispatch → Tables → Result Tables
unfolding return_dispatch
return_found host at none t = ok t
return_found host at (some d) t =
    if is_pending_dispatch d.status then return_dispatch host at d t else ok t

unfoldable pub return_all : Host → ℕ → List Dispatch → Tables → Result Tables
unfolding find_run find_dispatch return_found
return_all host at [] t = ok t
return_all host at (d ∷ ds) t = do
  guard (is_some (find_run t d.run_id)) run_not_found
  next ← return_found host at (find_dispatch t d.dispatch_id) t
  return_all host at ds next

unfoldable pub return_orphaned : Host → ℕ → ℕ → Tables → Result Tables
unfolding is_orphaned select_where order_by limit_to return_all
return_orphaned host at limit t =
    return_all host at
      (limit_to limit (order_by (by_creation host) (select_where (is_orphaned t) t.dispatches))) t

abbrev due_row : ℕ → TaskRow → Bool
due_row at row = due_retry at row.task

abbrev pub is_unfinished_run : StoredRun → Bool
is_unfinished_run stored =
    (is_pending stored.row.status || is_running stored.row.status)
    && not (is_some stored.row.cancel_requested_at)

abbrev has_due_retry : ℕ → StoredRun → Bool
has_due_retry at stored = is_unfinished_run stored && is_some (find (due_row at) stored.tasks)

-- `ORDER BY created_at, run_id`
abbrev pub runs_by_creation : Host → StoredRun → StoredRun → Bool
runs_by_creation host a b =
    ltb a.row.created_at b.row.created_at
    || (a.row.created_at == b.row.created_at && host.precedes a.row.id b.row.id)

abbrev number_of : Option Attempt → Result ℕ
number_of none = err index_panic
number_of (some attempt) = ok attempt.number

-- The first due retry of a run becomes ready.
unfoldable pub promote_task : Host → ℕ → RunSnapshot → Option ℕ → Tables → Result Tables
unfolding make_retry_ready commit_update
promote_task host at s none t = ok t
promote_task host at s (some i) t = do
  task ← task_at s i
  number ← number_of (last? task.attempts)
  applied ← make_retry_ready s i number at
  updated ← or_fail applied database_failed
  commit_update t s updated

unfoldable pub promote_all : Host → ℕ → List StoredRun → Tables → Result Tables
unfolding load_snapshot_rows first_due_retry promote_task
promote_all host at [] t = ok t
promote_all host at (stored ∷ rest) t = do
  s ← load_snapshot_rows host t stored.row.id
  next ← promote_task host at s (first_due_retry at 0 s.run.tasks) t
  promote_all host at rest next

unfoldable pub promote_due_retries : Host → (StoredRun → Bool) → ℕ → ℕ → Tables → Result Tables
unfolding select_where order_by limit_to promote_all
promote_due_retries host locked at limit t =
    promote_all host at
      (limit_to limit (
        order_by (runs_by_creation host)
          (select_where (λ stored. has_due_retry at stored && not (locked stored)) t.runs)))
      t
