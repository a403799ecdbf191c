-- ===== src/Postgres/Catalog.antt =====
-- Workflows and their immutable versions (internal/postgres/definitions.go).
use ai_workload_platform.Common.{
  is_some, invalid_definition, database_failed, definition_not_found, workflow_exists,
  workflow_not_found, definition_mismatch, Result, ok, or_fail, guard, ◌>>=◌, ◌>>◌, ℕ, ◌+◌, String,
  Bool, not, Option, none, some, [], ◌∷◌, ◌++◌, str_eq,
}
use ai_workload_platform.Compiler.{compile}
use ai_workload_platform.Model.{WorkflowDefinition}
use ai_workload_platform.Postgres.Query.{find, update_where}
use ai_workload_platform.Postgres.Replay.{
  load_idempotency, insert_idempotency, validate_idempotency_input, validate_replay,
}
use ai_workload_platform.Postgres.Runs.{find_version}
use ai_workload_platform.Postgres.Tables.{VersionRow, WorkflowRow, IdempotencyRow, Tables, Host}

abbrev pub has_workflow_id : String → WorkflowRow → Bool
has_workflow_id id row = str_eq row.workflow_id id

unfoldable pub find_workflow : Tables → String → Option WorkflowRow
unfolding find
find_workflow t id = find (has_workflow_id id) t.workflows

abbrev pub new_workflow : String → ℕ → String → WorkflowRow
new_workflow id at principal = record {
  workflow_id = id;
  latest_version = 1;
  created_at = at;
  created_by = principal;
}

abbrev pub new_version : String → ℕ → String → String → ℕ → String → VersionRow
new_version id version body request_hash at principal = record {
  workflow_id = id;
  version = version;
  definition_json = body;
  definition_hash = request_hash;
  created_at = at;
  created_by = principal;
}

-- The INSERT into workflow_versions; the primary key may refuse it.
unfoldable pub insert_version : VersionRow → Tables → Result Tables
unfolding find_version
insert_version row t = do
  guard (not (is_some (find_version t row.workflow_id row.version))) database_failed
  ok (record t { versions = t.versions ++ row ∷ [] })

abbrev pub version_record : String → String → String → String → String → ℕ → IdempotencyRow
version_record principal operation key request_hash id version = record {
  principal = principal;
  operation = operation;
  key = key;
  request_hash = request_hash;
  resource_type = "workflow_version";
  resource_id = id;
  resource_version = some version;
}

-- The answer to a replay: the identifier and version of the first request.
unfoldable pub replayed_version : String → IdempotencyRow → Result (String × ℕ)
unfolding validate_replay
replayed_version request_hash row = do
  validate_replay row request_hash "workflow_version"
  version ← or_fail row.resource_version database_failed
  ok (row.resource_id, version)

-- A replay commits nothing.
abbrev pub without_change : {A : Type 0} → Tables → Result A → Result (Tables × A)
without_change t r = r >>= λ answer. ok (t, answer)

unfoldable pub insert_definition :
    ℕ
    → WorkflowDefinition
    → String
    → String
    → String
    → String
    → Tables
    → Result (Tables × (String × ℕ))
unfolding find_workflow insert_version insert_idempotency
insert_definition at definition body principal key request_hash t = do
  guard (not (is_some (find_workflow t definition.id))) workflow_exists
  let named = record t { workflows = t.workflows ++ new_workflow definition.id at principal ∷ [] }
  versioned ← insert_version (new_version definition.id 1 body request_hash at principal) named
  recorded ←
      insert_idempotency
        (version_record principal "create_workflow" key request_hash definition.id 1) versioned
  ok (recorded, (definition.id, 1))

abbrev pub replay_or :
    {A : Type 0}
    → Option IdempotencyRow
    → (IdempotencyRow → Result (Tables × A))
    → Result (Tables × A)
    → Result (Tables × A)
replay_or none replay first = first
replay_or (some row) replay first = replay row

unfoldable pub create_definition :
    Host
    → ℕ
    → WorkflowDefinition
    → String
    → String
    → String
    → Tables
    → Result (Tables × (String × ℕ))
unfolding validate_idempotency_input load_idempotency replayed_version insert_definition
create_definition host at definition principal key request_hash t = do
  validate_idempotency_input principal key request_hash
  body ← or_fail (host.encode definition) invalid_definition
  replay_or (load_idempotency t principal "create_workflow" key)
      (λ row. without_change t (replayed_version request_hash row))
      (insert_definition at definition body principal key request_hash t)

abbrev pub set_latest : ℕ → WorkflowRow → WorkflowRow
set_latest version row = record row { latest_version = version }

unfoldable pub append_version :
    ℕ → String → String → String → String → String → Tables → Result (Tables × (String × ℕ))
unfolding find_workflow update_where insert_version insert_idempotency
append_version at id body principal key request_hash t = do
  workflow ← or_fail (find_workflow t id) workflow_not_found
  let version = workflow.latest_version + 1
  versioned ←
      insert_version (new_version id version body request_hash at principal) (record t {
        workflows = update_where (has_workflow_id id) (set_latest version) t.workflows;
      })
  recorded ←
      insert_idempotency
        (version_record principal "create_workflow_version" key request_hash id version) versioned
  ok (recorded, (id, version))

unfoldable pub create_version :
    Host
    → ℕ
    → String
    → WorkflowDefinition
    → String
    → String
    → String
    → Tables
    → Result (Tables × (String × ℕ))
unfolding validate_idempotency_input load_idempotency replayed_version append_version
create_version host at id definition principal key request_hash t = do
  guard (str_eq definition.id id) definition_mismatch
  validate_idempotency_input principal key request_hash
  body ← or_fail (host.encode definition) invalid_definition
  replay_or (load_idempotency t principal "create_workflow_version" key)
      (λ row. without_change t (replayed_version request_hash row))
      (append_version at id body principal key request_hash t)

-- `LoadDefinition`.
unfoldable pub load_version : Host → Tables → String → ℕ → Result WorkflowDefinition
unfolding find_version
load_version host t id version = do
  row ← or_fail (find_version t id version) definition_not_found
  definition ← or_fail (host.decode row.definition_json) database_failed
  compiled ← compile host.clone host.encoded_size definition
  ok compiled.definition
