-- ===== src/Examples/Workers.antt =====
-- The theorems on the control plane, at the run of one task.
use ai_workload_platform.Common.{
  leb, pos, length, lease_lost, result_conflict, idempotency_conflict, ok, err, ◌>>=◌, ℕ, ◌+◌, ◌≤◌,
  String, ◌≡◌, refl, ◌≢◌, ◌↔◌, ◌⊎◌, true, false, ◌&&◌, some, [], ◌∷◌, arith,
}
use ai_workload_platform.Compiler.Names.{codes, is_blank}
use ai_workload_platform.Examples.Arrivals.{
  ready_tables, scanned_tables, draining_worker, drained_tables, register_request, normal_request,
  new_worker, registered_tables, new_job, started_tables,
}
use ai_workload_platform.Examples.Control.{
  job_definition, small_host, small_options, empty_tables, queued_tables, no_lock,
}
use ai_workload_platform.Examples.Leases.{
  claimed_job, completed_job, canceled_job, canceling_loaded_job, scanned_job, drained_job,
  registered_job, authenticated_job, started_job, normalized_job,
}
use ai_workload_platform.Examples.Outcomes.{
  claimed_tables, job_lease, completed_tables, other_response, canceling_tables, canceling_run,
  canceled_dispatch, canceled_tables,
}
use ai_workload_platform.Examples.Runs.{success_response}
use ai_workload_platform.Model.{WorkflowStatus}
use ai_workload_platform.Postgres.Accepted.Repeats.{complete-complete, complete-complete_conflict}
use ai_workload_platform.Postgres.Claim.{claim}
use ai_workload_platform.Postgres.Dispatching.{open_dispatch}
use ai_workload_platform.Postgres.Fencing.{
  MayReport, complete-fenced, cancel_distributed_run-closes, complete-cancel_distributed_run,
}
use ai_workload_platform.Postgres.Limits.{create_dispatches-limit, claim-limit}
use ai_workload_platform.Postgres.NewRuns.{validate_initial_snapshot, start_run}
use ai_workload_platform.Postgres.Query.{find, count_where}
use ai_workload_platform.Postgres.Reap.{open_in}
use ai_workload_platform.Postgres.Registration.{normalize_worker_registration-again}
use ai_workload_platform.Postgres.Repeated.{start_run-start_run}
use ai_workload_platform.Postgres.Report.{digest_worker_result, complete}
use ai_workload_platform.Postgres.Sessions.{
  authenticate_worker-register_worker, authenticate_worker-allowed, claim-drain_worker,
}
use ai_workload_platform.Postgres.Sound.{capacity_of, IsSound, Method}
use ai_workload_platform.Postgres.Sound.Every.{Method-IsSound}
use ai_workload_platform.Postgres.Tables.{
  WorkerStatus, WorkerOperation, Ownership, Dispatch, Session, find_dispatch, find_worker,
  active_leases, matches_token,
}
use ai_workload_platform.Postgres.Workers.{
  trim_space, from_one_to, normalize_worker_registration, authenticate_worker,
}
use ai_workload_platform.State.{is_workflow_terminal}

queued-IsSound : IsSound queued_tables
unfolding active_leases find count_where
queued-IsSound = record { distinct = (refl, tt); within = (tt, tt); fits = λ w. omega arith }

Method-IsSound_example : IsSound claimed_tables
Method-IsSound_example =
    Method-IsSound small_host small_options queued_tables claimed_tables
      (Method.claims no_lock 300 "wrk_a" 1 ("token" ∷ []) (job_lease ∷ []) claimed_job)
      queued-IsSound

complete-complete_example :
    complete small_host 900 "wrk_a" "dsp_1" "token" success_response completed_tables
    ≡ ok (completed_tables, true)
complete-complete_example =
    complete-complete small_host 400 900 "wrk_a" "dsp_1" "token" success_response claimed_tables
      completed_tables true completed_job

data-ne-other : ◌≢◌ {A = String} "data" "other"
data-ne-other e = cc

digested : digest_worker_result small_host success_response ≡ ok "data"
unfolding digest_worker_result ◌>>=◌
digested = refl

digested_other : digest_worker_result small_host other_response ≡ ok "other"
unfolding digest_worker_result ◌>>=◌
digested_other = refl

complete-complete_conflict_example :
    complete small_host 900 "wrk_a" "dsp_1" "token" other_response completed_tables
    ≡ err result_conflict
complete-complete_conflict_example =
    complete-complete_conflict small_host 400 900 "wrk_a" "dsp_1" "token" "data" "other"
      success_response other_response claimed_tables completed_tables true completed_job digested
      digested_other data-ne-other

complete-fenced_example :
    (d : Dispatch) × (owner : Ownership) × (find_dispatch claimed_tables "dsp_1" ≡ some d)
    × (d.owner ≡ some owner)
    × (owner.worker_id ≡ "wrk_a")
    × (matches_token small_host "token" owner.token_hash ≡ true)
    × MayReport 400 d owner
complete-fenced_example =
    complete-fenced small_host 400 "wrk_a" "dsp_1" "token" success_response claimed_tables
      completed_tables true completed_job

is_workflow_running : is_workflow_terminal WorkflowStatus.running ≡ false
unfolding is_workflow_terminal
is_workflow_running = refl

canceled_found : find_dispatch canceled_tables "dsp_1" ≡ some canceled_dispatch
unfolding find_dispatch
canceled_found = refl

complete-cancel_distributed_run_example :
    complete small_host 900 "wrk_a" "dsp_1" "token" success_response canceled_tables
    ≡ err lease_lost
complete-cancel_distributed_run_example =
    complete-cancel_distributed_run small_host 600 900 "run" "wrk_a" "dsp_1" "token" "data"
      canceling_run success_response canceled_dispatch canceling_tables canceled_tables
      canceling_loaded_job is_workflow_running canceled_job canceled_found refl refl digested

cancel_distributed_run-closes_example : count_where (open_in "run") canceled_tables.dispatches ≡ 0
cancel_distributed_run-closes_example =
    cancel_distributed_run-closes small_host 600 "run" canceling_run canceling_tables
      canceled_tables canceling_loaded_job is_workflow_running canceled_job

create_dispatches-limit_example :
    (1 ≤ 5)
    × ((count_where open_dispatch scanned_tables.dispatches ≤ 5)
        ⊎ (count_where open_dispatch scanned_tables.dispatches
            ≤ count_where open_dispatch ready_tables.dispatches))
create_dispatches-limit_example =
    create_dispatches-limit small_host no_lock 250 5 1 ("1" ∷ []) ready_tables scanned_tables
      scanned_job

claim-limit_example :
    (session : Session) × (find_worker queued_tables "wrk_a" ≡ some session)
    × (session.status ≡ WorkerStatus.active)
    × (length (job_lease ∷ []) ≤ 1)
    × (active_leases claimed_tables "wrk_a" ≤ active_leases queued_tables "wrk_a" + 1)
    × (active_leases claimed_tables "wrk_a" ≤ capacity_of queued_tables "wrk_a")
    × (active_leases claimed_tables "wrk_b" ≤ active_leases queued_tables "wrk_b")
claim-limit_example =
    claim-limit small_host small_options no_lock 300 "wrk_a" "wrk_b" 1 ("token" ∷ []) queued_tables
      claimed_tables (job_lease ∷ []) claimed_job refl

authenticate_worker-register_worker_example :
    authenticate_worker small_host registered_tables "wrk_b" "password"
      (pos 1)
      WorkerOperation.claim
    ≡ ok new_worker
authenticate_worker-register_worker_example =
    authenticate_worker-register_worker small_host register_request 800 (("b", "password") ∷ [])
      WorkerOperation.claim queued_tables registered_tables new_worker "password" registered_job
      refl refl

authenticate_worker-allowed_example :
    (find_worker registered_tables "wrk_b" ≡ some new_worker)
    × (matches_token small_host "password" new_worker.token_hash ≡ true)
    × ((new_worker.status ≡ WorkerStatus.active)
        ⊎ ((new_worker.status ≡ WorkerStatus.draining)
            × (WorkerOperation.claim ≢ WorkerOperation.claim)))
authenticate_worker-allowed_example =
    authenticate_worker-allowed small_host registered_tables "wrk_b" "password" (pos 1)
      WorkerOperation.claim new_worker authenticated_job

claim-drain_worker_example :
    (claim small_host small_options no_lock 800 "wrk_a" 1 ("other" ∷ []) drained_tables
      ≢ ok (claimed_tables, job_lease ∷ []))
    × (1 ≡ active_leases claimed_tables "wrk_a")
    × ((draining_worker.status ≡ WorkerStatus.stopped) ↔ (◌≡◌ {A = ℕ} 1 0))
claim-drain_worker_example =
    claim-drain_worker small_host small_options no_lock 700 800 "wrk_a" 1 1 ("other" ∷ [])
      claimed_tables drained_tables draining_worker (claimed_tables, job_lease ∷ []) drained_job

second_valid : validate_initial_snapshot (new_job "second") ≡ ok job_definition
unfolding validate_initial_snapshot ◌>>=◌
second_valid = refl

other_filled : is_blank "other" ≡ false
unfolding is_blank
other_filled = refl

start_run-start_run_example :
    (start_run small_host (new_job "second") "user" "key" "hash" started_tables
      ≡ ok (started_tables, ("first", false)))
    × (start_run small_host (new_job "second") "user" "key" "other" started_tables
        ≡ err idempotency_conflict)
start_run-start_run_example =
    start_run-start_run small_host (new_job "first") (new_job "second") job_definition "user" "key"
      "hash" "other" "first" true empty_tables started_tables started_job second_valid refl
      other_filled

normalize_worker_registration-again_example :
    (normal_request.executor_kinds ≡ "mock" ∷ [])
    × ((leb 1 (length (codes normal_request.display_name))
          && leb (length (codes normal_request.display_name)) 128)
        ≡ true)
    × (trim_space normal_request.display_name ≡ normal_request.display_name)
    × (from_one_to 1024 normal_request.max_concurrency ≡ true)
    × (normalize_worker_registration normal_request ≡ ok normal_request)
normalize_worker_registration-again_example =
    normalize_worker_registration-again register_request normal_request normalized_job
