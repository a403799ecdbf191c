-- ===== src/Recovery/Quiet.antt =====
-- After a resume no task is running: the attempt that the process was stopped in is interrupted.
-- The tasks before `n` are calm.
use ai_workload_platform.Common.{
  ◌==◌, by_branch, length, get_elem?, modify, get_elem?-small, ok, >>=-eq-ok, or_fail-eq-ok,
  guard-eq-ok, ok-subst, ℕ, zero, suc, ◌+◌, ◌<◌, ◌≡◌, refl, sym, ◌∙◌, Bool, true, false, ◌&&◌, some,
  List, [], ◌∷◌, ◌++◌, map, arith, ℕ_discrete,
}
use ai_workload_platform.Distributed.Settle.{is_task_running}
use ai_workload_platform.Distributed.Skip.{skip_one, skip_loop, skip_descendants_from}
use ai_workload_platform.Distributed.Traces.{either}
use ai_workload_platform.Model.{TaskStatus, TaskDefinition, CompiledWorkflow, TaskRun, RunSnapshot}
use ai_workload_platform.Recovery.{
  restart_tasks, set_count, is_waiting_dependencies, release_task, restore_open, restore_tasks,
  reset_counts, prepare_for_resume,
}
use ai_workload_platform.Recovery.Calm.{calm_of, Calm, transition_task-Calm, interrupt_task-calms}
use ai_workload_platform.Recovery.Traces.{prepare_for_resume-Moves}
use ai_workload_platform.State.{is_task_terminal}
use ai_workload_platform.State.Kept.{Moves-Frame}

abbrev CalmBelow : ℕ → RunSnapshot → Type 0
CalmBelow n s = (j : ℕ) → j < n → Calm j s

CalmBelow-suc : (n : ℕ) (s : RunSnapshot) → CalmBelow n s → Calm n s → CalmBelow (suc n) s
CalmBelow-suc n s below here j h = elim (ℕ_discrete j n) [
  | yes e ↦ rw e here
  | no ne ↦ below j (ground (arith, ne))
]

restart_tasks-CalmBelow :
    (definitions : List TaskDefinition) (i : ℕ) (s : RunSnapshot) (now : ℕ) {s' : RunSnapshot}
    → restart_tasks definitions i s now ≡ ok s'
    → CalmBelow i s
    → CalmBelow (i + length definitions) s'
unfolding restart_tasks
restart_tasks-CalmBelow [] i s now h c j below = ok-subst (Calm j) h (c j (omega arith))
restart_tasks-CalmBelow (definition ∷ definitions) i s now {s'} h c j below =
    let (task, found, h₁) = >>=-eq-ok _ _ h in
    let (_, _, h₂) = >>=-eq-ok _ _ h₁ in
    let (_, _, h₃) = >>=-eq-ok _ _ h₂ in
    let (s₁, first, rest) = >>=-eq-ok _ _ h₃ in
    let next : CalmBelow (suc i) s₁ =
      CalmBelow-suc i s₁
        (λ k small.
          by_branch (is_task_running task.status) _ _ first
            (λ on taken. (interrupt_task-calms s i task definition now k taken).1 (c k small))
            (λ off same. ok-subst (Calm k) same (c k small)))
        (by_branch (is_task_running task.status) _ _ first
          (λ on taken. (interrupt_task-calms s i task definition now i taken).0)
          (λ off same.
            ok-subst (Calm i) same
              (λ t there. calm_of (sym (or_fail-eq-ok _ _ found) ∙ there) off))) in
    restart_tasks-CalmBelow definitions (suc i) s₁ now rest next j (omega (arith, below))

skip_loop-Calm :
    (fuel : ℕ) (compiled : CompiledWorkflow) (visited : List Bool) (queue : List ℕ)
    (s : RunSnapshot) (at j : ℕ) {s' : RunSnapshot}
    → skip_loop fuel compiled visited queue s at ≡ ok s'
    → Calm j s
    → Calm j s'
unfolding skip_loop skip_one
skip_loop-Calm fuel compiled visited [] s at j h c = ok-subst (Calm j) h c
skip_loop-Calm zero compiled visited (x ∷ queue) s at j h c = cc
skip_loop-Calm (suc fuel) compiled visited (x ∷ queue) s at j h c =
    let (seen, _, h₁) = >>=-eq-ok _ _ h in
    either seen _ _ h₁ (λ pass. skip_loop-Calm fuel compiled visited queue s at j pass c)
      (λ visit.
        let (s₁, one, h₂) = >>=-eq-ok _ _ visit in
        let (next, _, rest) = >>=-eq-ok _ _ h₂ in
        let (task, _, taken) = >>=-eq-ok _ _ one in
        skip_loop-Calm fuel compiled (modify x (λ _. true) visited) (queue ++ next) s₁ at j rest (
          either (is_task_terminal task.status) _ _ taken (λ same. ok-subst (Calm j) same c)
            (λ step. transition_task-Calm s x at _ TaskStatus.skipped j refl step c)))

restore_open-Calm :
    (s : RunSnapshot) (compiled : CompiledWorkflow) (i : ℕ) (status : TaskStatus) (now j : ℕ)
    {s' : RunSnapshot}
    → restore_open s compiled i status now ≡ ok s'
    → Calm j s
    → Calm j s'
unfolding restore_open release_task
restore_open-Calm s compiled i status now j h c =
    let (needed, _, h₁) = >>=-eq-ok _ _ h in
    let (counted, _, h₂) = >>=-eq-ok _ _ h₁ in
    either counted.1 _ _ h₂
      (λ step.
        transition_task-Calm (set_count s i counted.0) i now _ TaskStatus.skipped j refl step c)
      (λ release.
        let (released, step, h₃) = >>=-eq-ok _ _ release in
        let (_, _, e) = >>=-eq-ok _ _ h₃ in
        ok-subst (Calm j) e (
          either (counted.0 == 0 && is_waiting_dependencies status) _ _ step
            (λ taken.
              transition_task-Calm (set_count s i counted.0) i now _ TaskStatus.ready j refl taken
                c)
            (λ same. ok-subst (Calm j) same c)))

restore_tasks-Calm :
    (count i : ℕ) (s : RunSnapshot) (compiled : CompiledWorkflow) (now j : ℕ) {s' : RunSnapshot}
    → restore_tasks count i s compiled now ≡ ok s'
    → Calm j s
    → Calm j s'
unfolding restore_tasks
restore_tasks-Calm zero i s compiled now j h c = ok-subst (Calm j) h c
restore_tasks-Calm (suc count) i s compiled now j h c =
    let (task, _, h₁) = >>=-eq-ok _ _ h in
    let (s₁, first, rest) = >>=-eq-ok _ _ h₁ in
    restore_tasks-Calm count (suc i) s₁ compiled now j rest (
      either (is_task_terminal task.status) _ _ first (λ same. ok-subst (Calm j) same c)
        (λ taken. restore_open-Calm s compiled i task.status now j taken c))

successors_skipped-Calm :
    (s : RunSnapshot) (compiled : CompiledWorkflow) (sources : List ℕ) (at j : ℕ) {s' : RunSnapshot}
    → skip_descendants_from s compiled sources at ≡ ok s'
    → Calm j s
    → Calm j s'
unfolding skip_descendants_from
successors_skipped-Calm s compiled sources at j h c =
    let (queue, _, loop) = >>=-eq-ok _ _ h in
    skip_loop-Calm _ compiled (map (λ _. false) s.run.tasks) queue s at j loop c

-- When a stored run has been made ready to go on, none of its tasks is running.
pub prepare_for_resume-quiet :
    (s : RunSnapshot) (compiled : CompiledWorkflow) (now j : ℕ) (t : TaskRun) {s' : RunSnapshot}
    → prepare_for_resume s compiled now ≡ ok s'
    → get_elem? s'.run.tasks j ≡ some t
    → is_task_running t.status ≡ false
unfolding prepare_for_resume
prepare_for_resume-quiet s compiled now j t {s'} h found =
    let (_, counted, h₁) = >>=-eq-ok _ _ h in
    let (restarted, first, h₂) = >>=-eq-ok _ _ h₁ in
    let (spread, second, third) = >>=-eq-ok _ _ h₂ in
    let same : length s'.run.tasks ≡ length s.run.tasks =
      (Moves-Frame (prepare_for_resume-Moves s compiled now h)).same_length in
    let small : j < length compiled.definition.tasks =
      ground (arith, same, guard-eq-ok _ _ counted, get_elem?-small s'.run.tasks j found) in
    let calm =
      restart_tasks-CalmBelow compiled.definition.tasks 0 (reset_counts s) now first
        (λ k below. absurd (omega (arith, below))) j (omega (arith, small)) in
    restore_tasks-Calm (length spread.run.tasks) 0 spread compiled now j third
      (successors_skipped-Calm restarted compiled _ now j second calm) t found
