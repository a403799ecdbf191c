-- ===== src/Examples/Leases.antt =====
-- The methods of the control plane at the run of one task.
use ai_workload_platform.Common.{
  pos, String-discrete, ok, ◌>>=◌, ◌≡◌, refl, true, [], ◌∷◌, ℕ_discrete, decide,
}
use ai_workload_platform.Compiler.{compile}
use ai_workload_platform.Compiler.Names.{is_blank}
use ai_workload_platform.Distributed.Cancel.{cancel_task}
use ai_workload_platform.Distributed.Results.{satisfy_dependencies, succeed_task}
use ai_workload_platform.Distributed.Retry.{add_millis}
use ai_workload_platform.Distributed.Settle.{
  active_attempt, has_failed_task, all_tasks_succeeded, all_tasks_terminal,
  settle_workflow_if_complete,
}
use ai_workload_platform.Examples.Arrivals.{
  ready_tables, scanned_tables, draining_worker, drained_tables, register_request, normal_request,
  new_worker, registered_tables, new_job, started_tables,
}
use ai_workload_platform.Examples.Control.{
  small_host, small_options, empty_tables, queued_tables, no_lock,
}
use ai_workload_platform.Examples.Outcomes.{
  claimed_tables, job_lease, completed_tables, canceling_tables, canceling_run, canceled_tables,
}
use ai_workload_platform.Examples.Runs.{success_response}
use ai_workload_platform.Model.{TaskStatus-discrete, Attempt-discrete, Instant-discrete, ℤ-discrete}
use ai_workload_platform.Postgres.Claim.{claim}
use ai_workload_platform.Postgres.Dispatching.{create_dispatches}
use ai_workload_platform.Postgres.NewRuns.{start_run}
use ai_workload_platform.Postgres.Reap.{cancel_distributed_run}
use ai_workload_platform.Postgres.Report.{complete}
use ai_workload_platform.Postgres.Runs.{load_snapshot_rows, compile_loaded}
use ai_workload_platform.Postgres.Tables.{WorkerOperation, digest_token}
use ai_workload_platform.Postgres.Workers.{
  normalize_worker_registration, register_worker, authenticate_worker, drain_worker,
}
use ai_workload_platform.State.{
  is_workflow_terminal, is_task_terminal, last_of, snapshot_last_event_sequence, append_event,
  advance_run, transition_workflow, advance_task, transition_task, advance_attempt,
  transition_attempt,
}

pub claimed_job :
    claim small_host small_options no_lock 300 "wrk_a" 1 ("token" ∷ []) queued_tables
    ≡ ok (claimed_tables, job_lease ∷ [])
unfolding claim ◌>>=◌ compile is_blank compile_loaded transition_task append_event decide
    String-discrete advance_task TaskStatus-discrete snapshot_last_event_sequence digest_token
    add_millis
claimed_job = refl

pub completed_job :
    complete small_host 400 "wrk_a" "dsp_1" "token" success_response claimed_tables
    ≡ ok (completed_tables, true)
unfolding complete ◌>>=◌ compile is_blank compile_loaded active_attempt succeed_task
    satisfy_dependencies settle_workflow_if_complete all_tasks_terminal has_failed_task
    all_tasks_succeeded transition_attempt transition_task transition_workflow append_event
    is_task_terminal advance_task advance_attempt advance_run is_workflow_terminal
    snapshot_last_event_sequence last_of decide String-discrete TaskStatus-discrete Attempt-discrete
    Instant-discrete ℤ-discrete ℕ_discrete
completed_job = refl

pub canceled_job : cancel_distributed_run small_host 600 "run" canceling_tables ≡ ok canceled_tables
unfolding cancel_distributed_run ◌>>=◌ compile is_blank cancel_task transition_attempt
    transition_task transition_workflow append_event is_task_terminal advance_task advance_attempt
    advance_run is_workflow_terminal snapshot_last_event_sequence last_of decide String-discrete
    TaskStatus-discrete Attempt-discrete Instant-discrete ℤ-discrete ℕ_discrete
canceled_job = refl

pub canceling_loaded_job : load_snapshot_rows small_host canceling_tables "run" ≡ ok canceling_run
unfolding load_snapshot_rows ◌>>=◌ compile is_blank
canceling_loaded_job = refl

pub scanned_job :
    create_dispatches small_host no_lock 250 5 ("1" ∷ []) ready_tables ≡ ok (scanned_tables, 1)
unfolding create_dispatches ◌>>=◌ compile is_blank transition_task append_event decide
    String-discrete advance_task TaskStatus-discrete snapshot_last_event_sequence
scanned_job = refl

pub drained_job : drain_worker 700 "wrk_a" claimed_tables ≡ ok (drained_tables, draining_worker, 1)
unfolding drain_worker ◌>>=◌
drained_job = refl

pub registered_job :
    register_worker small_host register_request 800 (("b", "password") ∷ []) queued_tables
    ≡ ok (registered_tables, new_worker, "password")
unfolding register_worker ◌>>=◌
registered_job = refl

pub authenticated_job :
    authenticate_worker small_host registered_tables "wrk_b" "password"
      (pos 1)
      WorkerOperation.claim
    ≡ ok new_worker
unfolding authenticate_worker ◌>>=◌
authenticated_job = refl

pub started_job :
    start_run small_host (new_job "first") "user" "key" "hash" empty_tables
    ≡ ok (started_tables, ("first", true))
unfolding start_run ◌>>=◌ compile
started_job = refl

pub normalized_job : normalize_worker_registration register_request ≡ ok normal_request
unfolding normalize_worker_registration ◌>>=◌
normalized_job = refl
