-- ===== src/Examples/Witnesses.antt =====
-- The theorems at the runs of the two-step workflow.
use ai_workload_platform.Common.{
  String-discrete, revision_conflict, out_of_fuel, Result, ok, err, ◌>>=◌, ◌≡◌, refl, ◌≢◌, ◌⊎◌, [],
  ◌∷◌, map, arith, ℕ_discrete, decide,
}
use ai_workload_platform.Change.{change_set_from_snapshots}
use ai_workload_platform.Change.Apply.{apply_change_set}
use ai_workload_platform.Change.RoundTrip.{apply_change_set-change_set_from_snapshots}
use ai_workload_platform.Distributed.Cancel.{cancel_run_snapshot}
use ai_workload_platform.Distributed.Canceled.{cancel_run_snapshot-total}
use ai_workload_platform.Distributed.Fuel.{skip_descendants_from-Fueled}
use ai_workload_platform.Distributed.Operation.{
  Operation, perform, perform-Frame, perform-Appended, perform-LogFrom,
}
use ai_workload_platform.Distributed.Results.{
  satisfy_dependency, satisfy_dependencies, succeed_task, apply_attempt_result,
}
use ai_workload_platform.Distributed.Settle.{
  active_attempt, all_tasks_terminal, settle_workflow_if_complete,
}
use ai_workload_platform.Distributed.Skip.{skip_loop, successors_of, skip_descendants_from}
use ai_workload_platform.Distributed.Stopped.{canceled_task}
use ai_workload_platform.Examples.Codec.{
  reread_steps, with_steps, encode_two, decode_two, decode_two-encode_two,
}
use ai_workload_platform.Examples.Runs.{
  compiled_steps, fetching, success_response, after_call, same_input, empty_commit,
  next_revision_run,
}
use ai_workload_platform.Model.{WorkflowStatus, TaskStatus, of_task, RunSnapshot}
use ai_workload_platform.Recovery.{prepare_for_resume}
use ai_workload_platform.Recovery.Traces.{prepare_for_resume-Frame}
use ai_workload_platform.State.{
  is_task_terminal, last_of, snapshot_last_event_sequence, append_event, advance_task,
  transition_task, advance_attempt, transition_attempt,
}
use ai_workload_platform.State.Appended.{Appended}
use ai_workload_platform.State.Kept.{Frame}
use ai_workload_platform.State.Log.{LogFrom, Extends}
use ai_workload_platform.Store.{
  WriteOutcome, request_row, load, applied_snapshot, apply, request_cancel,
}
use ai_workload_platform.Store.Commits.{read_back, load-apply, apply-apply_conflict, apply-atomic}
use ai_workload_platform.Store.Directory.{Files, replace_file}
use ai_workload_platform.Store.Requests.{request_cancel-request_cancel}

abbrev fetched : RunSnapshot
unfolding apply_attempt_result
fetched =
    after_call fetching (apply_attempt_result fetching compiled_steps 0 1 success_response 120)

perform-Frame_example : Frame fetching fetched
unfolding perform apply_attempt_result ◌>>=◌ active_attempt succeed_task transition_attempt
    transition_task append_event satisfy_dependencies satisfy_dependency settle_workflow_if_complete
    all_tasks_terminal is_task_terminal advance_task
perform-Frame_example =
    perform-Frame same_input compiled_steps (Operation.report 0 1 success_response) 120 fetching
      refl

-- A run row without a number of the last event, whose log has one.
abbrev legacy : RunSnapshot
legacy = record fetching {
  events =
      record {
        sequence = 7;
        at = 110;
        transition = of_task "fetch" TaskStatus.ready TaskStatus.running;
        reason = "";
      }
      ∷ [];
}

abbrev legacy_fetched : RunSnapshot
legacy_fetched =
    after_call legacy (apply_attempt_result legacy compiled_steps 0 1 success_response 120)

perform-Appended_example : Appended legacy legacy_fetched
unfolding perform apply_attempt_result ◌>>=◌ active_attempt succeed_task transition_attempt
    transition_task append_event satisfy_dependencies satisfy_dependency settle_workflow_if_complete
    all_tasks_terminal is_task_terminal advance_task
perform-Appended_example =
    perform-Appended same_input compiled_steps (Operation.report 0 1 success_response) 120 legacy
      refl

perform-LogFrom_example : LogFrom 0 fetched × Extends fetching fetched
unfolding perform apply_attempt_result ◌>>=◌ active_attempt succeed_task transition_attempt
    transition_task append_event satisfy_dependencies satisfy_dependency settle_workflow_if_complete
    all_tasks_terminal is_task_terminal advance_task
perform-LogFrom_example =
    perform-LogFrom same_input compiled_steps (Operation.report 0 1 success_response) 120 0 fetching
      refl (record { follows = tt; at_end = refl })

cancel_run_snapshot-total_example :
    (s' : RunSnapshot) × (cancel_run_snapshot fetching 120 ≡ ok s')
    × (s'.run.status ≡ WorkflowStatus.canceled)
    × (s'.run.tasks ≡ map (canceled_task 120) fetching.run.tasks)
cancel_run_snapshot-total_example = cancel_run_snapshot-total fetching 120 refl (refl, (refl, tt))

skip_descendants_from-Fueled_example :
    skip_descendants_from fetching compiled_steps (0 ∷ []) 120 ≢ err out_of_fuel
skip_descendants_from-Fueled_example =
    skip_descendants_from-Fueled fetching compiled_steps (0 ∷ []) 120

-- The run as the commit of the report stores it.
abbrev committed : RunSnapshot
committed = record fetched { run = record fetched.run { revision = 2 } }

apply_change_set-change_set_from_snapshots_example :
    (do change ← change_set_from_snapshots fetching committed; apply_change_set fetching change)
    ≡ ok committed
unfolding fetched apply_attempt_result ◌>>=◌ active_attempt succeed_task transition_attempt
    transition_task append_event satisfy_dependencies satisfy_dependency settle_workflow_if_complete
    all_tasks_terminal is_task_terminal advance_task snapshot_last_event_sequence last_of
    advance_attempt
apply_change_set-change_set_from_snapshots_example =
    apply_change_set-change_set_from_snapshots 0 fetching committed (record {
      same_version = refl;
      same_definition = refl;
      same_id = refl;
      next_revision = refl;
      log_before = record { follows = tt; at_end = refl };
      log_after = record { follows = (refl, (refl, (refl, tt))); at_end = refl };
      extends = record { added = committed.events; is_prefix = refl };
      rows = ((refl, refl, (refl, refl, tt)), ((refl, refl, tt), tt));
    })

-- The run of the two-step workflow after the restart that cut its attempt off.
abbrev result_snapshot : RunSnapshot → Result RunSnapshot → RunSnapshot
result_snapshot s (ok t) = t
result_snapshot s (err e) = s

abbrev resumed : RunSnapshot
resumed = result_snapshot fetching (prepare_for_resume fetching compiled_steps 130)

prepare_for_resume-Frame_example : Frame fetching resumed × Appended fetching resumed
unfolding prepare_for_resume ◌>>=◌ transition_attempt transition_task append_event
    skip_descendants_from successors_of advance_task skip_loop
prepare_for_resume-Frame_example = prepare_for_resume-Frame fetching compiled_steps 130 refl refl

abbrev stored_files : Files
stored_files = ("run", "a") ∷ []

load-apply_example :
    (load
        (encode_two fetching next_revision_run)
        (decode_two fetching next_revision_run)
        (apply
          (encode_two fetching next_revision_run)
          (decode_two fetching next_revision_run)
          WriteOutcome.written
          stored_files
          empty_commit).0
        "run"
      ≡ ok (with_steps next_revision_run))
    × (load
          (encode_two fetching next_revision_run)
          (decode_two fetching next_revision_run)
          (apply
            (encode_two fetching next_revision_run)
            (decode_two fetching next_revision_run)
            WriteOutcome.written
            stored_files
            empty_commit).0
          "other"
        ≡ load
            (encode_two fetching next_revision_run)
            (decode_two fetching next_revision_run)
            stored_files
            "other")
unfolding applied_snapshot ◌>>=◌ decode_two snapshot_last_event_sequence encode_two decide
    String-discrete ℕ_discrete
load-apply_example =
    load-apply (encode_two fetching next_revision_run) (decode_two fetching next_revision_run)
      reread_steps (decode_two-encode_two fetching next_revision_run) stored_files empty_commit
      (with_steps next_revision_run) "b" "other" refl refl refl

apply-apply_conflict_example :
    apply
      (encode_two fetching next_revision_run)
      (decode_two fetching next_revision_run)
      WriteOutcome.written
      (apply
        (encode_two fetching next_revision_run)
        (decode_two fetching next_revision_run)
        WriteOutcome.written
        stored_files
        empty_commit).0
      empty_commit
    ≡ (
      (apply
          (encode_two fetching next_revision_run)
          (decode_two fetching next_revision_run)
          WriteOutcome.written
          stored_files
          empty_commit).0,
      err revision_conflict,
    )
unfolding applied_snapshot ◌>>=◌ decode_two snapshot_last_event_sequence encode_two decide
    String-discrete ℕ_discrete
apply-apply_conflict_example =
    apply-apply_conflict (encode_two fetching next_revision_run)
      (decode_two fetching next_revision_run) reread_steps
      (decode_two-encode_two fetching next_revision_run) stored_files empty_commit empty_commit
      (with_steps next_revision_run) "b" WriteOutcome.written (omega arith) refl refl refl refl

apply-atomic_example :
    ((apply
        (encode_two fetching next_revision_run)
        (decode_two fetching next_revision_run)
        WriteOutcome.sync_failed
        stored_files
        empty_commit).0
      ≡ stored_files)
    ⊎ ((s' : RunSnapshot) × (applied_snapshot
            (encode_two fetching next_revision_run)
            (decode_two fetching next_revision_run)
            stored_files
            empty_commit
          ≡ ok s')
        × (load
              (encode_two fetching next_revision_run)
              (decode_two fetching next_revision_run)
              (apply
                (encode_two fetching next_revision_run)
                (decode_two fetching next_revision_run)
                WriteOutcome.sync_failed
                stored_files
                empty_commit).0
              "run"
            ≡ ok (read_back reread_steps s')))
apply-atomic_example =
    apply-atomic (encode_two fetching next_revision_run) (decode_two fetching next_revision_run)
      reread_steps (decode_two-encode_two fetching next_revision_run) WriteOutcome.sync_failed
      stored_files empty_commit

abbrev asked : RunSnapshot
asked = request_row fetching 140

request_cancel-request_cancel_example :
    request_cancel
      (encode_two fetching asked)
      (decode_two fetching asked)
      WriteOutcome.write_failed
      (("run", "b") ∷ [])
      "run"
      150
    ≡ (("run", "b") ∷ [], ok asked.run)
unfolding request_cancel ◌>>=◌ decode_two encode_two decide String-discrete ℕ_discrete replace_file
request_cancel-request_cancel_example =
    request_cancel-request_cancel (encode_two fetching asked) (decode_two fetching asked)
      reread_steps (decode_two-encode_two fetching asked) stored_files (("run", "b") ∷ []) "run" 140
      150 WriteOutcome.written WriteOutcome.write_failed asked.run refl
