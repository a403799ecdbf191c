-- ===== src/Postgres/Reap.antt =====
-- Leases that ran out, and requested cancellations (internal/postgres/dispatch_recovery.go).
use ai_workload_platform.Common.{
  ltb, ◌==◌, if◌then◌else◌, is_some, length, run_not_found, database_failed, limit_out_of_range,
  Result, ok, err, or_fail, guard, ◌>>=◌, ◌>>◌, ℕ, ◌+◌, ◌*◌, String, Bool, false, not, ◌&&◌, ◌||◌,
  Option, none, some, List, [], ◌∷◌, str_eq,
}
use ai_workload_platform.Distributed.Cancel.{cancel_run_snapshot}
use ai_workload_platform.Distributed.Results.{interrupt_attempt, timeout_attempt}
use ai_workload_platform.Distributed.Start.{is_pending, is_running}
use ai_workload_platform.Model.{WorkflowStatus, CompiledWorkflow, RunSnapshot}
use ai_workload_platform.Postgres.Claim.{task_index_by_key, commit_update}
use ai_workload_platform.Postgres.Query.{update_where, update_one, select_where, limit_to, order_by}
use ai_workload_platform.Postgres.Report.{is_current, leased_id}
use ai_workload_platform.Postgres.Runs.{find_run, load_snapshot_rows, compile_loaded}
use ai_workload_platform.Postgres.Tables.{
  WorkerStatus, DispatchStatus, Ownership, Dispatch, Session, StoredRun, Tables, Host, Options,
  is_leased, is_open, find_dispatch,
}
use ai_workload_platform.Postgres.Workers.{is_live}
use ai_workload_platform.State.{is_workflow_terminal}

-- `last_heartbeat_at < now - 3 * interval`
abbrev pub is_silent : Options → ℕ → Session → Bool
is_silent options at session =
    is_live session.status && ltb (session.last_heartbeat_at + 3 * options.heartbeat_interval) at

abbrev pub go_offline : Session → Session
go_offline session = record session { status = WorkerStatus.offline }

abbrev pub expired_owner : ℕ → Option Ownership → Bool
expired_owner at none = false
expired_owner at (some owner) = not (is_current at owner)

abbrev is_expired : ℕ → Dispatch → Bool
is_expired at d = is_leased d.status && expired_owner at d.owner

abbrev pub end_of : Option Ownership → ℕ
end_of none = 0
end_of (some owner) =
    if ltb owner.deadline owner.expires_at then owner.deadline else owner.expires_at

-- `ORDER BY LEAST(lease_expires_at, attempt_deadline), dispatch_id`
abbrev by_end : Host → Dispatch → Dispatch → Bool
by_end host a b =
    ltb (end_of a.owner) (end_of b.owner)
    || (end_of a.owner == end_of b.owner && host.precedes a.dispatch_id b.dispatch_id)

unfoldable pub expired_candidates : Host → (Dispatch → Bool) → ℕ → ℕ → Tables → List Dispatch
unfolding select_where order_by limit_to
expired_candidates host locked at limit t =
    limit_to limit
      (order_by (by_end host) (select_where (λ d. is_expired at d && not (locked d)) t.dispatches))

abbrev pub expire_row : ℕ → Dispatch → Dispatch
expire_row at d = record d { status = DispatchStatus.expired; completed_at = some at }

-- Past the deadline the attempt timed out; else its worker is taken to be lost.
abbrev pub end_attempt_of :
    RunSnapshot → CompiledWorkflow → ℕ → Ownership → ℕ → Result (Option RunSnapshot)
end_attempt_of s compiled i owner at =
    if ltb at owner.deadline
    then interrupt_attempt s compiled i owner.attempt_number at "Worker lease expired"
    else timeout_attempt s compiled i owner.attempt_number at

unfoldable pub settle_expired : Host → ℕ → Dispatch → Ownership → Tables → Result Tables
unfolding task_index_by_key commit_update update_one load_snapshot_rows
settle_expired host at d owner t = do
  s ← load_snapshot_rows host t d.run_id
  i ← or_fail (task_index_by_key s.run.tasks d.task_key) database_failed
  compiled ← compile_loaded host s
  applied ← end_attempt_of s compiled i owner at
  updated ← or_fail applied database_failed
  committed ← commit_update t s updated
  dispatches ←
      update_one (leased_id d.dispatch_id) (expire_row at) database_failed committed.dispatches
  ok (record committed { dispatches = dispatches })

-- The row is read again, and left alone where it is no longer an expired lease.
unfoldable pub reap_found : Host → ℕ → Option Dispatch → Tables → Result Tables
unfolding settle_expired
reap_found host at none t = ok t
reap_found host at (some d) t =
    if is_leased d.status
    then (do
      owner ← or_fail d.owner database_failed
      if is_current at owner then ok t else settle_expired host at d owner t)
    else ok t

-- The loop; `clock` is what `clock_timestamp()` tells at the candidates still to come.
unfoldable pub reap_all : Host → (ℕ → ℕ) → List Dispatch → Tables → Result Tables
unfolding find_dispatch reap_found
reap_all host clock [] t = ok t
reap_all host clock (d ∷ ds) t = do
  next ← reap_found host (clock (length ds)) (find_dispatch t d.dispatch_id) t
  reap_all host clock ds next

-- `ReapExpired`; the answer is the number of candidates. A limit that is not positive is zero here.
unfoldable pub reap_expired :
    Host → Options → (Dispatch → Bool) → ℕ → (ℕ → ℕ) → ℕ → Tables → Result (Tables × ℕ)
unfolding expired_candidates reap_all update_where
reap_expired host options locked at clock limit t = do
  guard (ltb 0 limit) limit_out_of_range
  let marked = record t { workers = update_where (is_silent options at) go_offline t.workers }
  let candidates = expired_candidates host locked at limit marked
  reaped ← reap_all host clock candidates marked
  ok (reaped, length candidates)

-- `run_id = $1 AND status IN ('pending', 'leased')`
abbrev pub open_in : String → Dispatch → Bool
open_in run_id d = str_eq d.run_id run_id && is_open d.status

abbrev pub cancel_row : ℕ → Dispatch → Dispatch
cancel_row at d = record d { status = DispatchStatus.canceled; completed_at = some at }

unfoldable pub revoke_dispatches : ℕ → String → Tables → Tables
unfolding update_where
revoke_dispatches at id t = record t {
  dispatches = update_where (open_in id) (cancel_row at) t.dispatches;
}

-- A run that has ended is left alone.
unfoldable pub cancel_loaded : Host → ℕ → String → RunSnapshot → Tables → Result Tables
unfolding cancel_run_snapshot commit_update revoke_dispatches is_workflow_terminal
cancel_loaded host at id s t = if is_workflow_terminal s.run.status then ok t else (do
  guard (is_some s.run.cancel_requested_at) database_failed
  canceled ← cancel_run_snapshot s at
  committed ← commit_update t s canceled
  ok (revoke_dispatches at id committed))

-- `CancelRun` of the repository.
unfoldable pub cancel_distributed_run : Host → ℕ → String → Tables → Result Tables
unfolding load_snapshot_rows cancel_loaded find_run
cancel_distributed_run host at id t = do
  guard (is_some (find_run t id)) run_not_found
  s ← load_snapshot_rows host t id
  cancel_loaded host at id s t

abbrev is_unfinished : WorkflowStatus → Bool
is_unfinished status = is_pending status || is_running status

abbrev wants_cancel : StoredRun → Bool
wants_cancel stored = is_some stored.row.cancel_requested_at && is_unfinished stored.row.status

abbrev pub instant_of : Option ℕ → ℕ
instant_of none = 0
instant_of (some at) = at

abbrev by_request : Host → StoredRun → StoredRun → Bool
by_request host a b =
    ltb (instant_of a.row.cancel_requested_at) (instant_of b.row.cancel_requested_at)
    || (instant_of a.row.cancel_requested_at == instant_of b.row.cancel_requested_at
        && host.precedes a.row.id b.row.id)

abbrev pub after_cancel : Tables → Result Tables → Tables
after_cancel t (ok next) = next
after_cancel t (err e) = t

-- The loop of transactions: those before a failure stay committed.
unfoldable pub cancel_each : Host → ℕ → List StoredRun → Tables → Tables × Result (Unit {0})
unfolding cancel_distributed_run
cancel_each host at [] t = (t, ok tt)
cancel_each host at (stored ∷ rest) t = elim (cancel_distributed_run host at stored.row.id t) [
  | ok next ↦ cancel_each host at rest next
  | err e ↦ (t, err e)
]

abbrev count_of : ℕ → Tables × Result (Unit {0}) → Tables × Result ℕ
count_of n (t, ok done) = (t, ok n)
count_of n (t, err e) = (t, err e)

unfoldable pub cancel_candidates : Host → ℕ → Tables → List StoredRun
unfolding select_where order_by limit_to
cancel_candidates host limit t =
    limit_to limit (order_by (by_request host) (select_where wants_cancel t.runs))

unfoldable pub cancel_requested_runs : Host → ℕ → ℕ → Tables → Tables × Result ℕ
unfolding cancel_candidates cancel_each
cancel_requested_runs host at limit t =
    if limit == 0
    then (t, err limit_out_of_range)
    else count_of (length (cancel_candidates host limit t))
        (cancel_each host at (cancel_candidates host limit t) t)
