-- ===== src/Compiler/Fuel.antt =====
-- The cycle check of `Compile` ends: each task enters the queue once at most.
use ai_workload_platform.Common.{
  ◌==◌, if◌then◌else◌, ℤ, pos, negsuc, decrement, is_zero, length, get_elem?, modify, length-append,
  length-map, dependency_cycle, out_of_fuel, ok, err, >>=-eq-ok, or_fail-eq-ok, ok-subst, Fueled,
  Fueled-bind, Fueled-or_fail, Fueled-guard, ℕ, zero, suc, ◌+◌, ◌≤◌, ◌≡◌, ◌≢◌, Bool, true, false,
  some, List, [], ◌∷◌, ◌++◌, arith,
}
use ai_workload_platform.Compiler.Kahn.{relax, visit_tasks, first_tasks, indegrees, check_cycles}

above : ℤ → ℕ
above (pos zero) = 0
above (pos (suc n)) = 1
above (negsuc n) = 0

-- The tasks whose count of open dependencies has not fallen to zero.
above_zero : List ℤ → ℕ
above_zero [] = 0
above_zero (degree ∷ degrees) = above degree + above_zero degrees

abbrev one_if : Bool → ℕ
one_if b = if b then 1 else 0

above-decrement : (d : ℤ) → above (decrement d) + one_if (is_zero (decrement d)) ≤ above d
unfolding above
above-decrement (pos zero) = omega arith
above-decrement (pos (suc zero)) = omega arith
above-decrement (pos (suc (suc n))) = grind arith
above-decrement (negsuc n) = omega arith

-- A count that falls to zero leaves one task less above it.
above_zero-decrement :
    (degrees : List ℤ) (i : ℕ) (degree : ℤ)
    → get_elem? degrees i ≡ some degree
    → above_zero (modify i (λ _. decrement degree) degrees) + one_if (is_zero (decrement degree))
      ≤ above_zero degrees
unfolding above_zero
above_zero-decrement [] i degree h = cc
above_zero-decrement (d ∷ degrees) zero degree h =
    let same : d ≡ degree = cc in rw same (omega (arith, above-decrement degree))
above_zero-decrement (d ∷ degrees) (suc i) degree h =
    omega (arith, above_zero-decrement degrees i degree h)

queued_bound :
    (b : Bool) (next : ℕ) (more : List ℕ × List ℤ)
    → length (if b then (next ∷ more.0, more.1) else more).0
        + above_zero (if b then (next ∷ more.0, more.1) else more).1
      ≤ one_if b + (length more.0 + above_zero more.1)
queued_bound true next more = omega arith
queued_bound false next more = omega arith

-- Every task that is queued was above zero before.
relax-bound :
    (next : List ℕ) (degrees : List ℤ) {more : List ℕ × List ℤ}
    → relax next degrees ≡ ok more
    → length more.0 + above_zero more.1 ≤ above_zero degrees
unfolding relax
relax-bound [] degrees h =
    ok-subst (λ m. length m.0 + above_zero m.1 ≤ above_zero degrees) h (omega arith)
relax-bound (next ∷ rest) degrees h =
    let (degree, found, h₁) = >>=-eq-ok _ _ h in
    let (more, relaxed, e) = >>=-eq-ok _ _ h₁ in
    let later = relax-bound rest (modify next (λ _. decrement degree) degrees) relaxed in
    let fall = above_zero-decrement degrees next degree (or_fail-eq-ok _ _ found) in
    ok-subst (λ m. length m.0 + above_zero m.1 ≤ above_zero degrees) e
      (omega (arith, queued_bound (is_zero (decrement degree)) next more, later, fall))

Fueled-relax : (next : List ℕ) (degrees : List ℤ) → Fueled (relax next degrees)
unfolding relax
Fueled-relax [] degrees = λ p. cc
Fueled-relax (next ∷ rest) degrees =
    Fueled-bind _ _ (Fueled-or_fail (get_elem? degrees next)) λ degree found.
      Fueled-bind _ _ (Fueled-relax rest (modify next (λ _. decrement degree) degrees))
        λ more relaxed p. cc

Fueled-visit_tasks :
    (fuel : ℕ) (successors : List (List ℕ)) (degrees : List ℤ) (queue : List ℕ) (visited : ℕ)
    → length queue + above_zero degrees ≤ fuel
    → Fueled (visit_tasks fuel successors degrees queue visited)
unfolding visit_tasks
Fueled-visit_tasks fuel successors degrees [] visited h = λ p. cc
Fueled-visit_tasks zero successors degrees (x ∷ queue) visited h = absurd (omega arith)
Fueled-visit_tasks (suc fuel) successors degrees (x ∷ queue) visited h =
    Fueled-bind _ _ (Fueled-or_fail (get_elem? successors x)) λ next found.
      Fueled-bind _ _ (Fueled-relax next degrees) λ more relaxed.
        Fueled-visit_tasks fuel successors more.1 (queue ++ more.0) (suc visited)
          (omega (arith, length-append queue more.0, relax-bound next degrees relaxed, h))

first_tasks-bound :
    (i : ℕ) (degrees : List ℤ)
    → length (first_tasks i degrees) + above_zero degrees ≤ length degrees
unfolding first_tasks above_zero above
first_tasks-bound i [] = omega arith
first_tasks-bound i (pos zero ∷ degrees) = omega (arith, first_tasks-bound (suc i) degrees)
first_tasks-bound i (pos (suc n) ∷ degrees) = grind (arith, first_tasks-bound (suc i) degrees)
first_tasks-bound i (negsuc n ∷ degrees) = omega (arith, first_tasks-bound (suc i) degrees)

-- The cycle check never runs out of the fuel that it is given, on any graph, cyclic or not: its loop
-- over the queue ends.
pub check_cycles-Fueled :
    (dependencies successors : List (List ℕ))
    → check_cycles dependencies successors ≢ err out_of_fuel
unfolding check_cycles
check_cycles-Fueled dependencies successors =
    let degrees = indegrees dependencies in
    Fueled-bind _ _
      (Fueled-visit_tasks (length dependencies) successors degrees (first_tasks 0 degrees) 0 (
        omega (
          arith,
          first_tasks-bound 0 degrees,
          length-map (λ needed. pos (length needed)) dependencies,
        )))
      λ visited counted.
        Fueled-bind _ _ (Fueled-guard (visited == length dependencies) dependency_cycle (λ p. cc))
          λ done checked p. cc
