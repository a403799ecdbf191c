-- ===== src/Postgres/Heartbeat.antt =====
-- The heartbeat of a worker renews its leases (internal/postgres/dispatch_heartbeat.go).
use ai_workload_platform.Common.{
  if◌then◌else◌, database_failed, worker_session_invalid, Result, ok, or_fail, guard, ◌>>=◌, ◌>>◌,
  ℕ, ◌-◌, ◌/◌, String, not, ◌&&◌, Option, none, some, List, [], ◌∷◌, str_eq,
}
use ai_workload_platform.Postgres.Claim.{cap_expiry}
use ai_workload_platform.Postgres.Query.{update_where}
use ai_workload_platform.Postgres.Report.{is_current, leased_id}
use ai_workload_platform.Postgres.Tables.{
  DispatchStatus, Ownership, Dispatch, Session, Tables, Host, Options, is_leased, is_worker,
  find_dispatch, find_worker, matches_token,
}
use ai_workload_platform.Postgres.Workers.{is_live}
use mathlib.Core.Option

pub record LeaseRef : Type 0 where
  pub dispatch_id : String
  pub lease_token : String

pub data LeaseHeartbeatStatus : Type 0 where
  renewed revoked unknown : LeaseHeartbeatStatus

pub record LeaseHeartbeat : Type 0 where
  pub dispatch_id : String
  pub status : LeaseHeartbeatStatus
  pub lease_remaining_millis : ℕ

abbrev pub answer_ref : LeaseRef → LeaseHeartbeatStatus → ℕ → LeaseHeartbeat
answer_ref ref status remaining = record {
  dispatch_id = ref.dispatch_id;
  status = status;
  lease_remaining_millis = remaining;
}

abbrev pub renew_owner : ℕ → Ownership → Ownership
renew_owner expiry owner = record owner { expires_at = expiry }

abbrev pub renew_row : ℕ → Dispatch → Dispatch
renew_row expiry d = record d { owner = Option.map (renew_owner expiry) d.owner }

unfoldable pub renew : Options → ℕ → LeaseRef → Ownership → Tables → Tables × LeaseHeartbeat
unfolding update_where
renew options at ref owner t =
    let expiry = cap_expiry options at owner.deadline in
    (
      record t {
        dispatches = update_where (leased_id ref.dispatch_id) (renew_row expiry) t.dispatches;
      },
      answer_ref ref LeaseHeartbeatStatus.renewed ((expiry - at) / 1000000),
    )

-- A lease that the worker proves, by its status and times.
unfoldable pub renew_owned :
    Host
    → Options
    → ℕ
    → String
    → LeaseRef
    → DispatchStatus
    → Ownership
    → Tables
    → Tables × LeaseHeartbeat
unfolding matches_token renew
renew_owned host options at worker_id ref status owner t =
    if not (str_eq owner.worker_id worker_id && matches_token host ref.lease_token owner.token_hash)
    then (t, answer_ref ref LeaseHeartbeatStatus.unknown 0)
    else if not (is_leased status && is_current at owner)
    then (t, answer_ref ref LeaseHeartbeatStatus.revoked 0)
    else renew options at ref owner t

-- A dispatch that has no owner has null columns, which cannot be scanned into a `string`.
unfoldable pub renew_found :
    Host
    → Options
    → ℕ
    → String
    → LeaseRef
    → Option Dispatch
    → Tables
    → Result (Tables × LeaseHeartbeat)
unfolding renew_owned
renew_found host options at worker_id ref none t =
    ok (t, answer_ref ref LeaseHeartbeatStatus.unknown 0)
renew_found host options at worker_id ref (some d) t = do
  owner ← or_fail d.owner database_failed
  ok (renew_owned host options at worker_id ref d.status owner t)

unfoldable pub renew_lease :
    Host → Options → ℕ → String → LeaseRef → Tables → Result (Tables × LeaseHeartbeat)
unfolding find_dispatch renew_found
renew_lease host options at worker_id ref t =
    renew_found host options at worker_id ref (find_dispatch t ref.dispatch_id) t

unfoldable pub renew_leases :
    Host → Options → ℕ → String → List LeaseRef → Tables → Result (Tables × List LeaseHeartbeat)
unfolding renew_lease
renew_leases host options at worker_id [] t = ok (t, [])
renew_leases host options at worker_id (ref ∷ refs) t = do
  first ← renew_lease host options at worker_id ref t
  rest ← renew_leases host options at worker_id refs first.0
  ok (rest.0, first.1 ∷ rest.1)

abbrev pub touch : ℕ → Session → Session
touch at session = record session { last_heartbeat_at = at }

unfoldable pub heartbeat :
    Host → Options → ℕ → String → List LeaseRef → Tables → Result (Tables × List LeaseHeartbeat)
unfolding find_worker update_where renew_leases
heartbeat host options at worker_id refs t = do
  session ← or_fail (find_worker t worker_id) worker_session_invalid
  guard (is_live session.status) worker_session_invalid
  renew_leases host options at worker_id refs
      (record t { workers = update_where (is_worker worker_id) (touch at) t.workers })
