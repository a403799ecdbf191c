-- ===== src/Compiler/Kahn.antt =====
-- The cycle check of `Compile` (workflow/compiler.go), by Kahn's algorithm.
use ai_workload_platform.Common.{
  ◌==◌, if◌then◌else◌, ℤ, pos, decrement, is_zero, length, get_elem?, modify, dependency_cycle,
  index_panic, out_of_fuel, Result, ok, err, or_fail, guard, ◌>>=◌, ◌>>◌, ℕ, zero, suc, List, [],
  ◌∷◌, ◌++◌, map,
}

-- The edges of one task: the successors whose count of open dependencies falls to zero.
unfoldable pub relax : List ℕ → List ℤ → Result (List ℕ × List ℤ)
relax [] degrees = ok ([], degrees)
relax (next ∷ rest) degrees = do
  degree ← or_fail (get_elem? degrees next) index_panic
  let left = decrement degree
  more ← relax rest (modify next (λ _. left) degrees)
  ok (if is_zero left then (next ∷ more.0, more.1) else more)

-- The number of tasks that are visited.
unfoldable pub visit_tasks : ℕ → List (List ℕ) → List ℤ → List ℕ → ℕ → Result ℕ
unfolding relax
visit_tasks fuel successors degrees [] visited = ok visited
visit_tasks zero successors degrees (current ∷ queue) visited = err out_of_fuel
visit_tasks (suc fuel) successors degrees (current ∷ queue) visited = do
  next ← or_fail (get_elem? successors current) index_panic
  relaxed ← relax next degrees
  visit_tasks fuel successors relaxed.1 (queue ++ relaxed.0) (suc visited)

-- The tasks, from index `i` on, that depend on nothing.
unfoldable pub first_tasks : ℕ → List ℤ → List ℕ
first_tasks i [] = []
first_tasks i (degree ∷ degrees) =
    let rest = first_tasks (suc i) degrees in if is_zero degree then i ∷ rest else rest

abbrev pub indegrees : List (List ℕ) → List ℤ
indegrees dependencies = map (λ needed. pos (length needed)) dependencies

-- The fuel is the number of tasks: each one enters the queue once at most.
unfoldable pub check_cycles : List (List ℕ) → List (List ℕ) → Result (Unit {0})
unfolding visit_tasks first_tasks
check_cycles dependencies successors = do
  let degrees = indegrees dependencies
  visited ← visit_tasks (length dependencies) successors degrees (first_tasks 0 degrees) 0
  guard (visited == length dependencies) dependency_cycle
  ok tt
