-- ===== src/Engine/Runs.antt =====
-- `CreateRun`, `Execute`, `Cancel` (workflow/engine.go) and `Resume` (workflow/recovery.go).
use ai_workload_platform.Common.{
  ◌==◌, if◌then◌else◌, is_some, identity_mismatch, no_definition, unsupported_version,
  unsupported_status, interrupted, Result, ok, err, or_fail, guard, ◌>>=◌, ◌>>◌, ℕ, String, not,
  ◌||◌, Option, none, some, List, str_eq,
}
use ai_workload_platform.Compiler.{compile}
use ai_workload_platform.Creation.{new_run_snapshot}
use ai_workload_platform.Distributed.Cancel.{cancel_run_snapshot}
use ai_workload_platform.Distributed.Start.{is_pending, is_running}
use ai_workload_platform.Engine.Execution.{Progress, execute_snapshot}
use ai_workload_platform.Engine.Messages.{StopCause, Message}
use ai_workload_platform.Engine.Registry.{
  EngineState, cached, remember, forget_compiled, is_listed, register_active_run,
}
use ai_workload_platform.Engine.Storage.{
  Storage, write_or_keep, save_snapshots, finalize_cancellation, reconcile_persisted_cancellation,
  validate_stored_run_id,
}
use ai_workload_platform.Model.{CompiledWorkflow, WorkflowRun, RunSnapshot}
use ai_workload_platform.Model.Input.{Value}
use ai_workload_platform.Recovery.{prepare_for_resume}
use ai_workload_platform.State.{is_workflow_terminal}

module _ {S : Type 0} (storage : Storage S) (clone : Value → Value)
    (encoded_size : Value → Option ℕ) (now : ℕ → ℕ) (stopped : ℕ → Option StopCause) where
  -- `compiledForRun`: a stored definition is compiled again where the cache has none.
  unfoldable pub compiled_for_run :
      String → RunSnapshot → Option CompiledWorkflow → Result CompiledWorkflow
  unfolding compile
  compiled_for_run id s (some compiled) = ok compiled
  compiled_for_run id s none = do
    definition ← or_fail s.definition no_definition
    compile clone encoded_size definition

  -- `CreateRun`, with the id that the generator gave.
  abbrev pub created_run :
      EngineState
      → String
      → CompiledWorkflow
      → S × Result (Unit {0})
      → EngineState × S × Result String
  created_run e id compiled (st, ok done) = (remember id compiled e, st, ok id)
  created_run e id compiled (st, err failure) = (e, st, err failure)

  unfoldable pub create_run_as :
      EngineState → S → String → CompiledWorkflow → ℕ → EngineState × S × Result String
  unfolding new_run_snapshot
  create_run_as e st id compiled at =
      created_run e id compiled
        (write_or_keep storage.create_run st (new_run_snapshot id compiled at))

  -- `reconcilePersistedCancellation` at the end of `Execute` and `Resume`.
  abbrev pub reconcile : String → Progress S → Progress S
  reconcile id (Progress.waiting l) = Progress.waiting l
  reconcile id (Progress.answered st (ok run)) = Progress.answered st (ok run)
  reconcile id (Progress.answered st (err e)) =
      let (st', answer) = reconcile_persisted_cancellation storage (now 0) id e st in
      Progress.answered st' answer

  abbrev pub as_answer : S × Result WorkflowRun → Progress S
  as_answer (st, answer) = Progress.answered st answer

  -- `if runCtx.Err() != nil { return stoppedRunResult }` outside the loop.
  abbrev pub stop_first : Option StopCause → S → RunSnapshot → Progress S → Progress S
  stop_first none st s next = next
  stop_first (some StopCause.business_cancel) st s next =
      as_answer (finalize_cancellation storage (now 0) st s)
  stop_first (some StopCause.context_ended) st s next = Progress.answered st (err interrupted)

  abbrev pub execute_compiled :
      String → List Message → S → RunSnapshot → Result CompiledWorkflow → Progress S
  execute_compiled id messages st s (ok compiled) =
      reconcile id (execute_snapshot storage clone now stopped compiled messages st s)
  execute_compiled id messages st s (err e) = Progress.answered st (err e)

  -- `Execute` of a run that was read, unless it has ended or is to be canceled.
  unfoldable pub execute_loaded : EngineState → String → List Message → S → RunSnapshot → Progress S
  unfolding compiled_for_run execute_snapshot finalize_cancellation is_workflow_terminal
  execute_loaded e id messages st s =
      if is_workflow_terminal s.run.status
      then Progress.answered st (ok s.run)
      else if is_some s.run.cancel_requested_at
      then as_answer (finalize_cancellation storage (now 0) st s)
      else stop_first (stopped 0) st s
          (execute_compiled id messages st s (compiled_for_run id s (cached id e.cache)))

  abbrev pub execute_result :
      EngineState → String → List Message → S → Result RunSnapshot → Progress S
  execute_result e id messages st (ok s) = execute_loaded e id messages st s
  execute_result e id messages st (err failure) = Progress.answered st (err failure)

  unfoldable pub execute : EngineState → String → List Message → S → Progress S
  unfolding execute_loaded register_active_run validate_stored_run_id
  execute e id messages st = execute_result e id messages st (do
    registered ← register_active_run id e
    s ← storage.load_run st id
    validate_stored_run_id storage s id
    ok s)

  -- `Cancel` of a run that is not active here; an active run is only told to stop.
  abbrev pub forget_when_saved :
      EngineState → String → S × Result RunSnapshot → EngineState × S × Result (Unit {0})
  forget_when_saved e id (st, ok s) = (forget_compiled id e, st, ok tt)
  forget_when_saved e id (st, err failure) = (e, st, err failure)

  abbrev pub cancel_result :
      EngineState → String → S → Result RunSnapshot → EngineState × S × Result (Unit {0})
  cancel_result e id st (err failure) = (e, st, err failure)
  cancel_result e id st (ok s) =
      if is_workflow_terminal s.run.status
      then (e, st, ok tt)
      else forget_when_saved e id (
          write_or_keep (λ st' updated. save_snapshots storage st' s updated) st
            (cancel_run_snapshot s (now 0)))

  unfoldable pub cancel_run : EngineState → String → S → EngineState × S × Result (Unit {0})
  unfolding save_snapshots
  cancel_run e id st =
      if is_listed id e.active_runs
      then (e, st, ok tt)
      else cancel_result e id st (storage.load_run st id)

  -- `Resume`: the checked run is saved before anything is started.
  abbrev pub resume_saved :
      String → List Message → RunSnapshot → CompiledWorkflow → S × Result RunSnapshot → Progress S
  resume_saved id messages before compiled (st, ok s) =
      stop_first (stopped 1) st s
        (reconcile id (execute_snapshot storage clone now stopped compiled messages st s))
  resume_saved id messages before compiled (st, err e) =
      stop_first (stopped 1) st before (reconcile id (Progress.answered st (err e)))

  unfoldable pub resumed_definition : String → RunSnapshot → Result CompiledWorkflow
  unfolding compile
  resumed_definition id s = do
    definition ← or_fail s.definition no_definition
    compiled ← compile clone encoded_size definition
    guard (str_eq s.run.definition_id compiled.definition.id) identity_mismatch
    ok compiled

  abbrev pub resume_prepared :
      String → List Message → S → RunSnapshot → Result (CompiledWorkflow × RunSnapshot) → Progress S
  resume_prepared id messages st s (ok (compiled, updated)) =
      resume_saved id messages s compiled (save_snapshots storage st s updated)
  resume_prepared id messages st s (err e) = Progress.answered st (err e)

  unfoldable pub resume_open : String → List Message → S → RunSnapshot → Progress S
  unfolding resumed_definition prepare_for_resume save_snapshots
  resume_open id messages st s = resume_prepared id messages st s (do
    compiled ← resumed_definition id s
    updated ← prepare_for_resume s compiled (now 0)
    ok (compiled, updated))

  unfoldable pub resume_loaded : String → List Message → S → RunSnapshot → Progress S
  unfolding resume_open finalize_cancellation is_workflow_terminal
  resume_loaded id messages st s =
      if is_workflow_terminal s.run.status
      then Progress.answered st (ok s.run)
      else if not (is_pending s.run.status || is_running s.run.status)
      then Progress.answered st (err unsupported_status)
      else if is_some s.run.cancel_requested_at
      then as_answer (finalize_cancellation storage (now 0) st s)
      else stop_first (stopped 0) st s (resume_open id messages st s)

  abbrev pub resume_result : String → List Message → S → Result RunSnapshot → Progress S
  resume_result id messages st (ok s) = resume_loaded id messages st s
  resume_result id messages st (err failure) = Progress.answered st (err failure)

  unfoldable pub resume : EngineState → String → List Message → S → Progress S
  unfolding resume_loaded register_active_run validate_stored_run_id
  resume e id messages st = resume_result id messages st (do
    registered ← register_active_run id e
    s ← storage.load_run st id
    guard (s.version == 1) unsupported_version
    validate_stored_run_id storage s id
    ok s)
