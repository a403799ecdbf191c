-- ===== src/Postgres/Replay.antt =====
-- The records that make a repeated request answer the same: the helpers on idempotency_records of
-- internal/postgres/repository.go. The advisory lock of `lockIdempotency` makes the requests with
-- one key follow one another, as transactions do here.
use ai_workload_platform.Common.{
  is_some, database_failed, idempotency_conflict, blank_text, Result, ok, guard, ◌>>◌, String, Bool,
  not, ◌&&◌, Option, [], ◌∷◌, ◌++◌, str_eq,
}
use ai_workload_platform.Compiler.Names.{is_blank}
use ai_workload_platform.Postgres.Query.{find}
use ai_workload_platform.Postgres.Tables.{IdempotencyRow, Tables}

abbrev pub has_key : String → String → String → IdempotencyRow → Bool
has_key principal operation key row =
    str_eq row.principal principal && (str_eq row.operation operation && str_eq row.key key)

unfoldable pub load_idempotency : Tables → String → String → String → Option IdempotencyRow
unfolding find
load_idempotency t principal operation key = find (has_key principal operation key) t.replays

-- The INSERT; the primary key may refuse it.
unfoldable pub insert_idempotency : IdempotencyRow → Tables → Result Tables
unfolding load_idempotency
insert_idempotency row t = do
  guard (not (is_some (load_idempotency t row.principal row.operation row.key))) database_failed
  ok (record t { replays = t.replays ++ row ∷ [] })

unfoldable pub validate_idempotency_input : String → String → String → Result (Unit {0})
unfolding is_blank
validate_idempotency_input principal key request_hash = do
  guard (not (is_blank principal)) blank_text
  guard (not (is_blank key)) blank_text
  guard (not (is_blank request_hash)) blank_text
  ok tt

unfoldable pub validate_replay : IdempotencyRow → String → String → Result (Unit {0})
validate_replay row request_hash resource_type =
    guard (str_eq row.request_hash request_hash && str_eq row.resource_type resource_type)
      idempotency_conflict
