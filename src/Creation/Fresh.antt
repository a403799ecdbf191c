-- ===== src/Creation/Fresh.antt =====
-- What holds of a new run (workflow/run.go).
use ai_workload_platform.Common.{ℤ, pos, length, ℕ, String, ◌≡◌, ◌≢◌, ◌↔◌, none, List, [], ◌∷◌, map}
use ai_workload_platform.Model.{TaskStatus, TaskDefinition, TaskRun}

-- Row by row, against what each task depends on: its count is the number of its dependencies, it is
-- ready when there are none and waits otherwise, and it has no history.
abbrev pub FreshRows : List TaskRun → List ℤ → List (List ℕ) → Type 0
FreshRows [] [] needed = Unit {0}
FreshRows (t ∷ tasks) (count ∷ counts) (first ∷ needed) =
    ((count ≡ pos (length first))
      × ((t.status ≡ TaskStatus.ready) ↔ (first ≡ []))
      × ((t.status ≡ TaskStatus.waiting_dependencies) ↔ (first ≢ []))
      × (t.attempts ≡ [])
      × (t.ready_at ≡ none)
      × (t.finished_at ≡ none))
    × FreshRows tasks counts needed
FreshRows _ _ _ = ⊥

abbrev pub task_keys : List TaskRun → List String
task_keys tasks = map (λ t. t.key) tasks

abbrev pub definition_keys : List TaskDefinition → List String
definition_keys definitions = map (λ d. d.key) definitions
