-- ===== src/Model.antt =====
-- The data of the kernel: workflow/definition.go, workflow/executor.go, workflow/run.go and the
-- status types of workflow/state.go. Instants are numbers of nanoseconds since the zero value of
-- Go's time type; a pointer that may be nil is an `Option`.
pub mod Input
use ai_workload_platform.Common.{ℤ, String-discrete, ℕ, String, Option, List, ℕ_discrete}
use ai_workload_platform.Model.Input.{Value}

pub data WorkflowStatus : Type 0 where
  pending running succeeded failed canceled : WorkflowStatus
  -- A text that is none of the constants, as stored data may hold.
  unknown : String → WorkflowStatus

pub data TaskStatus : Type 0 where
  waiting_dependencies ready queued running waiting_retry : TaskStatus
  succeeded failed canceled skipped : TaskStatus
  unknown : String → TaskStatus

pub data AttemptStatus : Type 0 where
  running succeeded failed timed_out canceled interrupted : AttemptStatus
  unknown : String → AttemptStatus

pub data ResultKind : Type 0 where
  success temporary_failure permanent_failure canceled : ResultKind
  unknown : String → ResultKind

pub record RetryPolicy : Type 0 where
  pub max_attempts : ℤ
  pub interval_millis : ℤ

pub record TaskDefinition : Type 0 where
  pub key : String
  pub executor : String
  pub action : String
  pub input : Value
  pub depends_on : List String
  pub retry : RetryPolicy
  pub timeout_millis : ℤ

pub record WorkflowDefinition : Type 0 where
  pub id : String
  pub concurrency : ℤ
  pub tasks : List TaskDefinition

-- `index` is only read while compiling, and kept as the association list that the loop builds.
pub record CompiledWorkflow : Type 0 where
  pub definition : WorkflowDefinition
  pub index : List (String × ℕ)
  pub dependencies : List (List ℕ)
  pub successors : List (List ℕ)

pub record ExecutionRequest : Type 0 where
  pub definition_id : String
  pub run_id : String
  pub task_key : String
  pub action : String
  pub input : Value
  pub attempt : ℕ

pub record ExecutionResponse : Type 0 where
  pub kind : ResultKind
  pub output : String
  pub error_code : String
  pub error_message : String

pub record ExecutionResult : Type 0 where
  pub output : String
  pub error_code : String
  pub error_message : String

pub record Attempt : Type 0 where
  pub number : ℕ
  pub status : AttemptStatus
  pub worker_id : String
  pub dispatch_id : String
  pub started_at : ℕ
  pub finished_at : Option ℕ
  pub result : ExecutionResult

pub record TaskRun : Type 0 where
  pub key : String
  pub status : TaskStatus
  pub attempts : List Attempt
  pub ready_at : Option ℕ
  pub finished_at : Option ℕ

-- Entity, Key, From and To of an event: the printed forms are read off the constructor.
pub data Transition : Type 0 where
  of_workflow : String → WorkflowStatus → WorkflowStatus → Transition
  of_task : String → TaskStatus → TaskStatus → Transition
  of_attempt : String → ℕ → AttemptStatus → AttemptStatus → Transition

pub record StateEvent : Type 0 where
  pub sequence : ℕ
  pub at : ℕ
  pub transition : Transition
  pub reason : String

pub record WorkflowRun : Type 0 where
  pub id : String
  pub definition_id : String
  pub definition_version : ℕ
  pub status : WorkflowStatus
  pub revision : ℕ
  pub last_event_sequence : ℕ
  pub cancel_requested_at : Option ℕ
  pub tasks : List TaskRun
  pub remaining_dependencies : List ℤ
  pub created_at : ℕ
  pub started_at : Option ℕ
  pub finished_at : Option ℕ

pub record RunSnapshot : Type 0 where
  pub version : ℕ
  pub definition : Option WorkflowDefinition
  pub run : WorkflowRun
  pub events : List StateEvent

unfoldable pub TaskStatus-discrete : Discrete TaskStatus
TaskStatus-discrete = hlevel String-discrete

unfoldable pub Attempt-discrete : Discrete Attempt
Attempt-discrete = hlevel (ℕ_discrete, String-discrete)

unfoldable pub Instant-discrete : Discrete (Option ℕ)
Instant-discrete = hlevel ℕ_discrete

unfoldable pub ℤ-discrete : Discrete ℤ
ℤ-discrete = hlevel ℕ_discrete
