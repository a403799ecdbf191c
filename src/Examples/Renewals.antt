-- ===== src/Examples/Renewals.antt =====
-- The renewal of a lease, at the run of one task.
use ai_workload_platform.Common.{ok, ◌>>=◌, ◌≡◌, refl, some, [], ◌∷◌}
use ai_workload_platform.Examples.Control.{small_host, small_options}
use ai_workload_platform.Examples.Outcomes.{leased_dispatch, claimed_tables}
use ai_workload_platform.Postgres.Heartbeat.{
  LeaseRef, LeaseHeartbeatStatus, LeaseHeartbeat, answer_ref, renew_row, renew_lease,
}
use ai_workload_platform.Postgres.Renewed.{RenewedFor, renew_lease-renewed}
use ai_workload_platform.Postgres.Tables.{Ownership, Dispatch, Tables, find_dispatch}

abbrev job_ref : LeaseRef
job_ref = record { dispatch_id = "dsp_1"; lease_token = "token" }

abbrev renewed_tables : Tables
renewed_tables = record claimed_tables { dispatches = renew_row 15000400 leased_dispatch ∷ [] }

abbrev renewed_answer : LeaseHeartbeat
renewed_answer = answer_ref job_ref LeaseHeartbeatStatus.renewed 15

renewed_job :
    renew_lease small_host small_options 400 "wrk_a" job_ref claimed_tables
    ≡ ok (renewed_tables, renewed_answer)
unfolding renew_lease ◌>>=◌
renewed_job = refl

renew_lease-renewed_example :
    (d : Dispatch) × (owner : Ownership) × (find_dispatch claimed_tables "dsp_1" ≡ some d)
    × RenewedFor small_host small_options 400 "wrk_a" job_ref d owner renewed_tables
renew_lease-renewed_example =
    renew_lease-renewed small_host small_options 400 "wrk_a" job_ref claimed_tables renewed_tables
      renewed_answer renewed_job refl
