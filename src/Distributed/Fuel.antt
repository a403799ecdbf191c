-- ===== src/Distributed/Fuel.antt =====
-- The work list of `skipDescendantsFrom` ends: the fuel that the model gives it is enough.
use ai_workload_platform.Common.{
  Bool-cases, length, get_elem?, modify, length-append, illegal_transition, out_of_fuel, err,
  or_fail-eq-ok, Fueled, Fueled-bind, Fueled-or_fail, Fueled-if, Fueled-guard, ℕ, zero, suc, ◌+◌,
  ◌≤◌, String, ◌≡◌, ap, ◌∙◌, ◌≢◌, inl, inr, Bool, true, false, some, List, [], ◌∷◌, ◌++◌, map,
  arith,
}
use ai_workload_platform.Distributed.Skip.{
  skip_one, skip_loop, successors_of, edge_count, skip_descendants_from,
}
use ai_workload_platform.Model.{TaskStatus, CompiledWorkflow, TaskRun, RunSnapshot}
use ai_workload_platform.State.{task_edge, is_task_terminal, transition_task}

-- The edges of the tasks that are not visited yet.
open_edges : List Bool → List (List ℕ) → ℕ
open_edges [] next = 0
open_edges (seen ∷ visited) [] = 0
open_edges (true ∷ visited) (next ∷ rest) = open_edges visited rest
open_edges (false ∷ visited) (next ∷ rest) = length next + open_edges visited rest

open_edges-visit :
    (visited : List Bool) (successors : List (List ℕ)) (i : ℕ) {next : List ℕ}
    → get_elem? visited i ≡ some false
    → get_elem? successors i ≡ some next
    → open_edges (modify i (λ _. true) visited) successors + length next
      ≡ open_edges visited successors
unfolding open_edges
open_edges-visit [] successors i h k = cc
open_edges-visit (seen ∷ visited) [] i h k = cc
open_edges-visit (true ∷ visited) (next ∷ rest) zero h k = cc
open_edges-visit (false ∷ visited) (next ∷ rest) zero h k = ground (arith, h, k)
open_edges-visit (true ∷ visited) (next ∷ rest) (suc i) h k = open_edges-visit visited rest i h k
open_edges-visit (false ∷ visited) (next ∷ rest) (suc i) h k =
    omega (arith, open_edges-visit visited rest i h k)

open_edges-fresh :
    (tasks : List TaskRun) (successors : List (List ℕ))
    → open_edges (map (λ _. false) tasks) successors ≤ edge_count successors
unfolding open_edges edge_count
open_edges-fresh [] successors = omega arith
open_edges-fresh (t ∷ tasks) [] = omega arith
open_edges-fresh (t ∷ tasks) (next ∷ rest) = omega (arith, open_edges-fresh tasks rest)

Fueled-transition_task :
    (s : RunSnapshot) (i : ℕ) (to : TaskStatus) (at : ℕ) (reason : String)
    → Fueled (transition_task s i to at reason)
unfolding transition_task
Fueled-transition_task s i to at reason =
    Fueled-bind _ _ (Fueled-or_fail (get_elem? s.run.tasks i)) λ t found.
      Fueled-bind _ _ (Fueled-guard (task_edge t.status to) illegal_transition (λ p. cc))
        λ checked legal p. cc

Fueled-skip_one : (s : RunSnapshot) (i at : ℕ) → Fueled (skip_one s i at)
unfolding skip_one
Fueled-skip_one s i at = Fueled-bind _ _ (Fueled-or_fail (get_elem? s.run.tasks i)) λ t found.
    elim (Bool-cases (is_task_terminal t.status)) [
      | inl over ↦ rw over (λ p. cc)
      | inr live ↦ rw live (Fueled-transition_task s i TaskStatus.skipped at _)
    ]

Fueled-skip_loop :
    (fuel : ℕ) (compiled : CompiledWorkflow) (visited : List Bool) (queue : List ℕ)
    (s : RunSnapshot) (at : ℕ)
    → length queue + open_edges visited compiled.successors ≤ fuel
    → Fueled (skip_loop fuel compiled visited queue s at)
unfolding skip_loop
Fueled-skip_loop fuel compiled visited [] s at h = λ p. cc
Fueled-skip_loop zero compiled visited (x ∷ queue) s at h = absurd (omega arith)
Fueled-skip_loop (suc fuel) compiled visited (x ∷ queue) s at h =
    Fueled-bind _ _ (Fueled-or_fail (get_elem? visited x)) λ seen look.
      Fueled-if seen _ _ (λ _. Fueled-skip_loop fuel compiled visited queue s at (omega arith))
        λ unseen. Fueled-bind _ _ (Fueled-skip_one s x at) λ s₁ one.
          Fueled-bind _ _ (Fueled-or_fail (get_elem? compiled.successors x)) λ next follow.
            Fueled-skip_loop fuel compiled (modify x (λ _. true) visited) (queue ++ next) s₁ at (
              omega (
                arith,
                length-append queue next,
                open_edges-visit visited compiled.successors x
                    (or_fail-eq-ok _ _ look ∙ ap some unseen) (or_fail-eq-ok _ _ follow),
                h,
              ))

Fueled-successors_of :
    (compiled : CompiledWorkflow) (is : List ℕ) → Fueled (successors_of compiled is)
unfolding successors_of
Fueled-successors_of compiled [] = λ p. cc
Fueled-successors_of compiled (i ∷ is) =
    Fueled-bind _ _ (Fueled-or_fail (get_elem? compiled.successors i))
      λ next found. Fueled-bind _ _ (Fueled-successors_of compiled is) λ rest more p. cc

-- The spread of a failure never runs out of the fuel that it is given, on any snapshot, any graph
-- and any list of failed tasks: the loop over the work list ends.
pub skip_descendants_from-Fueled :
    (s : RunSnapshot) (compiled : CompiledWorkflow) (failed : List ℕ) (at : ℕ)
    → skip_descendants_from s compiled failed at ≢ err out_of_fuel
unfolding skip_descendants_from
skip_descendants_from-Fueled s compiled failed at =
    Fueled-bind _ _ (Fueled-successors_of compiled failed) λ queue found.
      Fueled-skip_loop _ compiled _ queue s at
        (omega (arith, open_edges-fresh s.run.tasks compiled.successors))
