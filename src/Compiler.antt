-- ===== src/Compiler.antt =====
-- workflow/compiler.go: `Compile`, which checks a definition and builds its graph.
pub mod Names
pub mod Values
pub mod Kahn
pub mod Fuel
use ai_workload_platform.Common.{
  ltb, leb, if◌then◌else◌, is_some, ℤ, pos, negsuc, is_negative, is_zero, length, modify, contains,
  invalid_definition, rejected_input, missing_dependency, Result, ok, or_fail, guard, ◌>>=◌, ◌>>◌,
  ℕ, suc, String, Bool, false, not, ◌&&◌, ◌||◌, Option, none, some, List, [], ◌∷◌, ◌++◌, map,
  str_eq,
}
use ai_workload_platform.Compiler.Kahn.{check_cycles}
use ai_workload_platform.Compiler.Names.{is_identifier, is_blank}
use ai_workload_platform.Compiler.Values.{validate_value}
use ai_workload_platform.Model.{TaskDefinition, WorkflowDefinition, CompiledWorkflow}
use ai_workload_platform.Model.Input.{Value}

abbrev pub is_positive : ℤ → Bool
is_positive (pos n) = ltb 0 n
is_positive (negsuc n) = false

abbrev pub lookup_key : String → List (String × ℕ) → Option ℕ
lookup_key key [] = none
lookup_key key ((other, i) ∷ rest) = if str_eq other key then some i else lookup_key key rest

abbrev pub one_if_zero : ℤ → ℤ
one_if_zero n = if is_zero n then pos 1 else n

abbrev pub mock_if_empty : String → String
mock_if_empty executor = if str_eq executor "" then "mock" else executor

-- The executor and the number of attempts that a task has when it names none.
abbrev pub with_defaults : TaskDefinition → TaskDefinition
with_defaults task = record task {
  executor = mock_if_empty task.executor;
  retry = record task.retry { max_attempts = one_if_zero task.retry.max_attempts };
}

-- One turn of the first loop, where `index` has the keys so far.
unfoldable pub check_task : List (String × ℕ) → TaskDefinition → Result TaskDefinition
check_task index task = do
  guard (is_identifier task.key) invalid_definition
  guard (not (is_some (lookup_key task.key index))) invalid_definition
  guard (not (is_blank task.action)) invalid_definition
  let checked = with_defaults task
  guard (str_eq checked.executor "mock" || str_eq checked.executor "container") invalid_definition
  guard (is_positive task.timeout_millis) invalid_definition
  guard (is_positive checked.retry.max_attempts && not (is_negative task.retry.interval_millis))
      invalid_definition
  ok checked

unfoldable pub check_tasks :
    ℕ → List (String × ℕ) → List TaskDefinition → Result (List TaskDefinition × List (String × ℕ))
unfolding check_task
check_tasks i index [] = ok ([], index)
check_tasks i index (task ∷ tasks) = do
  checked ← check_task index task
  rest ← check_tasks (suc i) ((task.key, i) ∷ index) tasks
  ok (checked ∷ rest.0, rest.1)

-- The dependencies of one task as indices; `seen` are those before.
unfoldable pub resolve : List (String × ℕ) → List ℕ → List String → Result (List ℕ)
resolve index seen [] = ok []
resolve index seen (key ∷ keys) = do
  found ← or_fail (lookup_key key index) missing_dependency
  guard (not (contains found seen)) invalid_definition
  rest ← resolve index (found ∷ seen) keys
  ok (found ∷ rest)

-- Task `i` is a successor of each of its dependencies.
unfoldable pub link : ℕ → List ℕ → List (List ℕ) → List (List ℕ)
link i [] successors = successors
link i (needed ∷ rest) successors =
    link i rest (modify needed (λ after. after ++ i ∷ []) successors)

-- The second loop, from task `i` on: the dependencies, and the successors so far.
unfoldable pub link_tasks :
    ℕ
    → List (String × ℕ)
    → List TaskDefinition
    → List (List ℕ)
    → Result (List (List ℕ) × List (List ℕ))
unfolding resolve link
link_tasks i index [] successors = ok ([], successors)
link_tasks i index (task ∷ tasks) successors = do
  needed ← resolve index [] task.depends_on
  rest ← link_tasks (suc i) index tasks (link i needed successors)
  ok (needed ∷ rest.0, rest.1)

-- `clone` is the JSON round trip of `cloneTaskInput`, and `encoded_size` the length of the encoding
-- of an input or its failure: the codec is Go's standard library.
module _ (clone : Value → Value) (encoded_size : Value → Option ℕ) where
  unfoldable pub validate_inputs : List TaskDefinition → Result (Unit {0})
  unfolding validate_value
  validate_inputs [] = ok tt
  validate_inputs (task ∷ tasks) = do
    validate_value [] task.input
    size ← or_fail (encoded_size task.input) rejected_input
    guard (leb size 65536) rejected_input
    validate_inputs tasks

  abbrev pub clone_task : TaskDefinition → TaskDefinition
  clone_task task = record task { input = clone task.input }

  unfoldable pub compile : WorkflowDefinition → Result CompiledWorkflow
  unfolding validate_inputs check_tasks link_tasks check_cycles is_identifier
  compile given = do
    validate_inputs given.tasks
    guard (is_identifier given.id) invalid_definition
    guard (is_positive given.concurrency) invalid_definition
    guard (ltb 0 (length given.tasks)) invalid_definition
    guard (leb (length given.tasks) 10000) invalid_definition
    checked ← check_tasks 0 [] (map clone_task given.tasks)
    graph ← link_tasks 0 checked.1 checked.0 (map (λ _. []) checked.0)
    check_cycles graph.0 graph.1
    ok (record {
      definition = record given { tasks = checked.0 };
      index = checked.1;
      dependencies = graph.0;
      successors = graph.1;
    })
