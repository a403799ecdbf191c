-- ===== src/Distributed/Operation.antt =====
-- The exported operations of workflow/distributed_state.go as one type of calls, and what every
-- call keeps.
use ai_workload_platform.Common.{Result, ok, ◌>>=◌, >>=-eq-ok, ℕ, String, ◌≡◌, Option, some}
use ai_workload_platform.Distributed.Cancel.{cancel_run_snapshot}
use ai_workload_platform.Distributed.Results.{
  apply_attempt_result, interrupt_attempt, timeout_attempt,
}
use ai_workload_platform.Distributed.Retry.{make_retry_ready}
use ai_workload_platform.Distributed.Start.{
  queue_task, return_queued_task_to_ready, start_queued_attempt,
}
use ai_workload_platform.Distributed.Traces.{
  queue_task-Moves, return_queued_task_to_ready-Moves, start_queued_attempt-Moves, some-subst,
}
use ai_workload_platform.Distributed.Traces.Results.{
  apply_attempt_result-Moves, interrupt_attempt-Moves, timeout_attempt-Moves,
  make_retry_ready-Moves, cancel_run_snapshot-Moves,
}
use ai_workload_platform.Model.{CompiledWorkflow, ExecutionRequest, ExecutionResponse, RunSnapshot}
use ai_workload_platform.Model.Input.{Value}
use ai_workload_platform.State.Appended.{Appended, Moves-Appended}
use ai_workload_platform.State.Kept.{Frame, Moves-Frame}
use ai_workload_platform.State.Log.{LogFrom, Extends, Moves-LogFrom, Moves-Extends}
use ai_workload_platform.State.Moves.{Moves}

-- A call with its arguments; the compiled workflow and the codec of inputs are those of the run.
pub data Operation : Type 0 where
  queue : (i : ℕ) → Operation
  unqueue : (i : ℕ) (reason : String) → Operation
  claim : (i : ℕ) (worker_id dispatch_id : String) → Operation
  report : (i number : ℕ) (response : ExecutionResponse) → Operation
  interrupt : (i number : ℕ) (reason : String) → Operation
  time_out : (i number : ℕ) → Operation
  retry : (i number : ℕ) → Operation
  cancel : Operation

-- The snapshot after a call that changed something.
pub as_changed : Result RunSnapshot → Result (Option RunSnapshot)
as_changed r = do s ← r; ok (some s)

as_claimed : Result (RunSnapshot × ExecutionRequest) → Result (Option RunSnapshot)
as_claimed r = do answer ← r; ok (some answer.0)

unfoldable pub perform :
    (Value → Value) → CompiledWorkflow → Operation → ℕ → RunSnapshot → Result (Option RunSnapshot)
unfolding as_changed as_claimed
perform clone compiled (queue i) at s = as_changed (queue_task s i at)
perform clone compiled (unqueue i reason) at s =
    as_changed (return_queued_task_to_ready s i at reason)
perform clone compiled (claim i worker_id dispatch_id) at s =
    as_claimed (start_queued_attempt clone s compiled i at worker_id dispatch_id)
perform clone compiled (report i number response) at s =
    apply_attempt_result s compiled i number response at
perform clone compiled (interrupt i number reason) at s =
    interrupt_attempt s compiled i number at reason
perform clone compiled (time_out i number) at s = timeout_attempt s compiled i number at
perform clone compiled (retry i number) at s = make_retry_ready s i number at
perform clone compiled cancel at s = as_changed (cancel_run_snapshot s at)

as_changed-Moves :
    (s : RunSnapshot) (r : Result RunSnapshot) {s' : RunSnapshot}
    → ((t : RunSnapshot) → r ≡ ok t → Moves s t)
    → as_changed r ≡ ok (some s')
    → Moves s s'
unfolding as_changed
as_changed-Moves s r m h = let (t, e, same) = >>=-eq-ok _ _ h in some-subst (Moves s) same (m t e)

as_claimed-Moves :
    (s : RunSnapshot) (r : Result (RunSnapshot × ExecutionRequest)) {s' : RunSnapshot}
    → ((t : RunSnapshot) (q : ExecutionRequest) → r ≡ ok (t, q) → Moves s t)
    → as_claimed r ≡ ok (some s')
    → Moves s s'
unfolding as_claimed
as_claimed-Moves s r m h =
    let (answer, e, same) = >>=-eq-ok _ _ h in some-subst (Moves s) same (m answer.0 answer.1 e)

module _ (clone : Value → Value) (compiled : CompiledWorkflow) where
  pub perform-Moves :
      (op : Operation) (at : ℕ) (s : RunSnapshot) {s' : RunSnapshot}
      → perform clone compiled op at s ≡ ok (some s')
      → Moves s s'
  unfolding perform
  perform-Moves (queue i) at s h = as_changed-Moves s _ (λ t. queue_task-Moves s i at) h
  perform-Moves (unqueue i reason) at s h =
      as_changed-Moves s _ (λ t. return_queued_task_to_ready-Moves s i at reason) h
  perform-Moves (claim i worker_id dispatch_id) at s h =
      as_claimed-Moves s _
        (λ t q. start_queued_attempt-Moves clone s compiled i at worker_id dispatch_id) h
  perform-Moves (report i number response) at s h =
      apply_attempt_result-Moves s compiled i number response at h
  perform-Moves (interrupt i number reason) at s h =
      interrupt_attempt-Moves s compiled i number at reason h
  perform-Moves (time_out i number) at s h = timeout_attempt-Moves s compiled i number at h
  perform-Moves (retry i number) at s h = make_retry_ready-Moves s i number at h
  perform-Moves cancel at s h = as_changed-Moves s _ (λ t. cancel_run_snapshot-Moves s at) h

  -- A call that changes the snapshot keeps the identity, version and revision of the run, the
  -- number of its tasks and of their dependency counts, the key of each task, and the status and
  -- end time of the run and of each task that had already ended. In a history of at least `k`
  -- attempts whose last one is not a running attempt `k`, the last one is none afterwards either.
  pub perform-Frame :
      (op : Operation) (at : ℕ) (s : RunSnapshot) {s' : RunSnapshot}
      → perform clone compiled op at s ≡ ok (some s')
      → Frame s s'
  perform-Frame op at s h = Moves-Frame (perform-Moves op at s h)

  -- A call that changes the snapshot only appends to its audit log, also where the run row has no
  -- number of the last event. The new events are numbered one after another, modulo 2 ^ 64, from the
  -- higher of the number in the run row and that of the last event kept; the higher of the two is
  -- the number of the last new event afterwards.
  pub perform-Appended :
      (op : Operation) (at : ℕ) (s : RunSnapshot) {s' : RunSnapshot}
      → perform clone compiled op at s ≡ ok (some s')
      → Appended s s'
  perform-Appended op at s h = Moves-Appended (perform-Moves op at s h)

  -- Where the log is numbered one after another from `n` on and the run row has the last number, a
  -- call that changes the snapshot appends to the log and leaves it numbered so.
  pub perform-LogFrom :
      (op : Operation) (at n : ℕ) (s : RunSnapshot) {s' : RunSnapshot}
      → perform clone compiled op at s ≡ ok (some s')
      → LogFrom n s
      → LogFrom n s' × Extends s s'
  perform-LogFrom op at n s h l =
      (Moves-LogFrom n (perform-Moves op at s h) l, Moves-Extends (perform-Moves op at s h))
