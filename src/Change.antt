-- ===== src/Change.antt =====
-- workflow/change.go: the rows that a commit changes, computed from two snapshots and applied to a
-- stored one.
pub mod Apply
pub mod Rows
pub mod History
pub mod RoundTrip
use ai_workload_platform.Common.{
  leb, ◌==◌, if◌then◌else◌, u64, ℤ, pos, String-discrete, length, drop, tail, revision_conflict,
  different_runs, index_panic, Result, ok, guard, ◌>>◌, ℕ, suc, ◌+◌, String, Bool, not, ◌&&◌,
  Option, none, some, List, [], ◌∷◌, ◌++◌, str_eq, decide,
}
use ai_workload_platform.Model.{
  TaskStatus, Attempt, TaskRun, StateEvent, WorkflowRun, RunSnapshot, TaskStatus-discrete,
  Attempt-discrete, Instant-discrete, ℤ-discrete,
}
use ai_workload_platform.State.{snapshot_last_event_sequence}

pub record TaskRunChange : Type 0 where
  pub run_id : String
  pub index : ℕ
  pub task : TaskRun
  pub remaining_dependencies : ℤ

pub data ChangeOperation : Type 0 where
  insert update : ChangeOperation
  unknown : String → ChangeOperation

pub record AttemptChange : Type 0 where
  pub run_id : String
  pub task_key : String
  pub task_index : ℕ
  pub attempt : Attempt
  pub operation : ChangeOperation

pub record ChangeSet : Type 0 where
  pub run_id : String
  pub expected_revision : ℕ
  pub run : Option WorkflowRun
  pub tasks : List TaskRunChange
  pub attempts : List AttemptChange
  pub events : List StateEvent

-- The zero value `TaskRun{}`.
abbrev zero_task : TaskRun
zero_task = record {
  key = "";
  status = TaskStatus.unknown "";
  attempts = [];
  ready_at = none;
  finished_at = none;
}

abbrev first_or {ℓ} : {A : Type ℓ} → A → List A → A
first_or d [] = d
first_or d (x ∷ xs) = x

-- The rows of one task differ.
unfoldable pub row_changed : TaskRun → ℤ → TaskRun → ℤ → Bool
row_changed before remaining after remaining' = not (
    decide (String-discrete before.key after.key)
    && (decide (TaskStatus-discrete before.status after.status)
        && (decide (ℤ-discrete remaining remaining')
            && (decide (Instant-discrete before.ready_at after.ready_at)
                && decide (Instant-discrete before.finished_at after.finished_at)))))

-- The loop over the tasks, from index `i` on; the lists are what is left of the four arrays.
unfoldable pub task_changes :
    String → ℕ → List TaskRun → List ℤ → List TaskRun → List ℤ → List TaskRunChange
unfolding row_changed
task_changes run_id i before remaining [] remaining' = []
task_changes run_id i before remaining (task ∷ after) remaining' =
    let left = first_or (pos 0) remaining' in
    let rest = task_changes run_id (suc i) (tail before) (tail remaining) after (tail remaining') in
    if row_changed (first_or zero_task before) (first_or (pos 0) remaining) task left
    then record {
      run_id = run_id;
      index = i;
      task = record task { attempts = [] };
      remaining_dependencies = left;
    }
      ∷ rest
    else rest

-- The attempts of one task: those that an old one stands at are updates, the others are new.
unfoldable pub attempt_changes :
    String → String → ℕ → List Attempt → List Attempt → List AttemptChange
attempt_changes run_id key i before [] = []
attempt_changes run_id key i [] (attempt ∷ after) =
    record {
      run_id = run_id;
      task_key = key;
      task_index = i;
      attempt = attempt;
      operation = ChangeOperation.insert;
    }
    ∷ attempt_changes run_id key i [] after
attempt_changes run_id key i (old ∷ before) (attempt ∷ after) =
    let rest = attempt_changes run_id key i before after in
    if decide (Attempt-discrete old attempt)
    then rest
    else record {
      run_id = run_id;
      task_key = key;
      task_index = i;
      attempt = attempt;
      operation = ChangeOperation.update;
    }
      ∷ rest

unfoldable pub all_attempt_changes : String → ℕ → List TaskRun → List TaskRun → List AttemptChange
unfolding attempt_changes
all_attempt_changes run_id i before [] = []
all_attempt_changes run_id i before (task ∷ after) =
    attempt_changes run_id task.key i (first_or zero_task before).attempts task.attempts
    ++ all_attempt_changes run_id (suc i) (tail before) after

-- A shorter log than before is the panic of the slice expression.
unfoldable pub change_set_from_snapshots : RunSnapshot → RunSnapshot → Result ChangeSet
unfolding task_changes all_attempt_changes
change_set_from_snapshots before after = do
  guard (leb (length before.events) (length after.events)) index_panic
  ok (record {
    run_id = after.run.id;
    expected_revision = before.run.revision;
    run = some (record after.run {
      last_event_sequence = snapshot_last_event_sequence after;
      tasks = [];
      remaining_dependencies = [];
    });
    tasks =
        task_changes after.run.id 0 before.run.tasks before.run.remaining_dependencies
          after.run.tasks after.run.remaining_dependencies;
    attempts = all_attempt_changes after.run.id 0 before.run.tasks after.run.tasks;
    events = drop (length before.events) after.events;
  })

-- `ChangeSetBetween` (workflow/distributed_state.go).
unfoldable pub change_set_between : RunSnapshot → RunSnapshot → Result ChangeSet
unfolding change_set_from_snapshots
change_set_between before after = do
  guard (not (str_eq before.run.id "") && str_eq before.run.id after.run.id) different_runs
  guard (after.run.revision == u64 (before.run.revision + 1)) revision_conflict
  change_set_from_snapshots before after
