-- ===== src/Distributed/Skip.antt =====
-- The spread of a failure to the tasks behind it (workflow/distributed_state.go).
use ai_workload_platform.Common.{
  if◌then◌else◌, length, get_elem?, modify, index_panic, out_of_fuel, Result, ok, err, or_fail,
  ◌>>=◌, ℕ, zero, suc, ◌+◌, Bool, true, false, List, [], ◌∷◌, ◌++◌, map,
}
use ai_workload_platform.Model.{TaskStatus, CompiledWorkflow, RunSnapshot}
use ai_workload_platform.State.{is_task_terminal, task_at, transition_task}

-- One visit of `skipDescendantsFrom`: a task that has ended is left alone.
unfoldable pub skip_one : RunSnapshot → ℕ → ℕ → Result RunSnapshot
skip_one s i at = do
  task ← task_at s i
  if is_task_terminal task.status
      then ok s
      else transition_task s i TaskStatus.skipped at "upstream task failed"

-- The work list of `skipDescendantsFrom`.
unfoldable pub skip_loop :
    ℕ → CompiledWorkflow → List Bool → List ℕ → RunSnapshot → ℕ → Result RunSnapshot
skip_loop fuel compiled visited [] s at = ok s
skip_loop zero compiled visited (current ∷ queue) s at = err out_of_fuel
skip_loop (suc fuel) compiled visited (current ∷ queue) s at = do
  seen ← or_fail (get_elem? visited current) index_panic
  let pass = skip_loop fuel compiled visited queue s at
  if seen then pass else (do
    s' ← skip_one s current at
    next ← or_fail (get_elem? compiled.successors current) index_panic
    skip_loop fuel compiled (modify current (λ _. true) visited) (queue ++ next) s' at)

unfoldable pub successors_of : CompiledWorkflow → List ℕ → Result (List ℕ)
successors_of compiled [] = ok []
successors_of compiled (i ∷ is) = do
  next ← or_fail (get_elem? compiled.successors i) index_panic
  rest ← successors_of compiled is
  ok (next ++ rest)

-- The number of edges of the graph.
unfoldable pub edge_count : List (List ℕ) → ℕ
edge_count [] = 0
edge_count (next ∷ rest) = length next + edge_count rest

-- The fuel: every edge is followed once at most, from a queue that holds the first ones.
unfoldable pub skip_descendants_from :
    RunSnapshot → CompiledWorkflow → List ℕ → ℕ → Result RunSnapshot
skip_descendants_from s compiled failed at = do
  queue ← successors_of compiled failed
  skip_loop (length queue + edge_count compiled.successors) compiled (map (λ _. false) s.run.tasks)
      queue s at

unfoldable pub skip_descendants : RunSnapshot → CompiledWorkflow → ℕ → ℕ → Result RunSnapshot
skip_descendants s compiled failed at = skip_descendants_from s compiled (failed ∷ []) at
