-- ===== src/Engine/Messages.antt =====
-- The messages that the loop of workflow/engine.go receives, its state, and `prepareTask`.
use ai_workload_platform.Common.{
  ◌==◌, if◌then◌else◌, ℤ, pos, negsuc, get_elem?, index_panic, Result, ok, or_fail, ◌>>=◌, ℕ, ◌+◌,
  ◌-◌, Bool, true, false, ◌&&◌, ◌||◌, Option, some, List, [], ◌∷◌,
}
use ai_workload_platform.Change.Apply.{contains_pair}
use ai_workload_platform.Distributed.Start.{new_attempt, append_attempt, request_for}
use ai_workload_platform.Model.{
  TaskStatus, ResultKind, CompiledWorkflow, ExecutionRequest, ExecutionResponse, Attempt, TaskRun,
  WorkflowRun, RunSnapshot,
}
use ai_workload_platform.Model.Input.{Value}
use ai_workload_platform.State.{is_waiting_retry, modify_task, task_at, transition_task}

-- Why the context of a run has ended.
pub data StopCause : Type 0 where
  business_cancel context_ended : StopCause

pub data Message : Type 0 where
  completion : (i attempt : ℕ) (response : ExecutionResponse) (at : ℕ) → Message
  deadline : (i attempt : ℕ) (at : ℕ) → Message
  retry_due_at : (i attempt : ℕ) (at : ℕ) → Message

pub record LoopState (S : Type 0) : Type 0 where
  pub store : S
  pub snapshot : RunSnapshot
  -- The keys of `activeAttempts`, and `running`.
  pub active : List (ℕ × ℕ)
  pub running : ℕ
  -- The requests handed to the executor, and the timers for retries, newest first.
  pub requests : List ExecutionRequest
  pub timers : List (ℕ × ℕ × ℕ)
  -- How often the clock and the context were looked at.
  pub ticks : ℕ

pub data Step (S : Type 0) : Type 0 where
  go_on : LoopState S → Step S
  finished : S → Result WorkflowRun → Step S

abbrev pub tick : {S : Type 0} → LoopState S → LoopState S
tick l = record l { ticks = l.ticks + 1 }

abbrev pub is_active : ℕ × ℕ → List (ℕ × ℕ) → Bool
is_active (i, attempt) keys = contains_pair i attempt keys

unfoldable pub remove_active : ℕ → ℕ → List (ℕ × ℕ) → List (ℕ × ℕ)
remove_active i attempt [] = []
remove_active i attempt ((j, other) ∷ keys) =
    let rest = remove_active i attempt keys in
    if i == j && attempt == other then rest else (j, other) ∷ rest

abbrev pub is_ready : TaskStatus → Bool
is_ready TaskStatus.ready = true
is_ready _ = false

abbrev pub is_kind_canceled : ResultKind → Bool
is_kind_canceled ResultKind.canceled = true
is_kind_canceled _ = false

unfoldable pub has_waiting_retry : List TaskRun → Bool
has_waiting_retry [] = false
has_waiting_retry (task ∷ tasks) = is_waiting_retry task.status || has_waiting_retry tasks

-- The concurrency as an `int`: `running == concurrency`.
abbrev pub is_full : ℕ → ℤ → Bool
is_full running (pos n) = running == n
is_full running (negsuc n) = false

-- `prepareTask`, with the two readings of the clock.
module _ (clone : Value → Value) where
  unfoldable pub prepare_task :
      RunSnapshot → CompiledWorkflow → ℕ → ℕ → ℕ → Result (RunSnapshot × ExecutionRequest)
  prepare_task s compiled i at started_at = do
    task ← task_at s i
    claimed ← transition_task s i TaskStatus.running at "execution started"
    definition ← or_fail (get_elem? compiled.definition.tasks i) index_panic
    let attempt = new_attempt task "" "" started_at
    ok (
      modify_task claimed i (append_attempt attempt),
      request_for clone claimed definition attempt.number,
    )

-- `scheduleRetry`: the delay until the due time, none if that is past. No timer without an attempt.
abbrev pub timer_of : ℕ → ℕ → Option ℕ → Option Attempt → List (ℕ × ℕ × ℕ)
timer_of i now (some due) (some attempt) = (i, attempt.number, due - now) ∷ []
timer_of i now _ _ = []
