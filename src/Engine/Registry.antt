-- ===== src/Engine/Registry.antt =====
-- The runs that an engine has active and the definitions that it has compiled (workflow/engine.go).
use ai_workload_platform.Common.{
  if◌then◌else◌, already_executing, Result, ok, guard, ◌>>◌, String, Bool, false, not, ◌||◌, Option,
  none, some, List, [], ◌∷◌, str_eq,
}
use ai_workload_platform.Model.{CompiledWorkflow}

-- `active` and `compiled` of the engine: runs that are executing, and compiled definitions.
pub record EngineState : Type 0 where
  pub active_runs : List String
  pub cache : List (String × CompiledWorkflow)

unfoldable pub cached : String → List (String × CompiledWorkflow) → Option CompiledWorkflow
cached id [] = none
cached id ((other, compiled) ∷ rest) = if str_eq other id then some compiled else cached id rest

unfoldable pub forget : String → List (String × CompiledWorkflow) → List (String × CompiledWorkflow)
forget id [] = []
forget id ((other, compiled) ∷ rest) =
    let kept = forget id rest in if str_eq other id then kept else (other, compiled) ∷ kept

abbrev pub remember : String → CompiledWorkflow → EngineState → EngineState
remember id compiled e = record e { cache = (id, compiled) ∷ forget id e.cache }

-- `forgetCompiled`.
abbrev pub forget_compiled : String → EngineState → EngineState
forget_compiled id e = record e { cache = forget id e.cache }

abbrev pub is_listed : String → List String → Bool
is_listed id [] = false
is_listed id (other ∷ rest) = str_eq other id || is_listed id rest

-- `registerActiveRun`.
unfoldable pub register_active_run : String → EngineState → Result EngineState
register_active_run id e = do
  guard (not (is_listed id e.active_runs)) already_executing
  ok (record e { active_runs = id ∷ e.active_runs })
