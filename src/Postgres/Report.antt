-- ===== src/Postgres/Report.antt =====
-- The result of a leased dispatch (internal/postgres/dispatch_complete.go).
use ai_workload_platform.Common.{
  ltb, leb, ◌==◌, if◌then◌else◌, is_some, last?, database_failed, lease_lost, result_conflict,
  invalid_result, Result, ok, or_fail, guard, ◌>>=◌, ◌>>◌, ℕ, ◌+◌, String, Bool, true, false, not,
  ◌&&◌, Option, none, some, List, [], ◌∷◌, str_eq,
}
use ai_workload_platform.Compiler.Names.{codes}
use ai_workload_platform.Distributed.Results.{apply_attempt_result}
use ai_workload_platform.Distributed.Settle.{is_task_running}
use ai_workload_platform.Distributed.Start.{is_running}
use ai_workload_platform.Model.{ResultKind, ExecutionResponse, Attempt}
use ai_workload_platform.Postgres.Claim.{task_index_by_key, commit_update}
use ai_workload_platform.Postgres.Query.{update_one}
use ai_workload_platform.Postgres.Runs.{find_run, load_snapshot_rows, compile_loaded}
use ai_workload_platform.Postgres.Tables.{
  DispatchStatus, Ownership, Dispatch, Tables, Host, is_leased, is_completed, has_id, find_dispatch,
  matches_token,
}
use ai_workload_platform.State.{task_at}

abbrev code_bytes : ℕ → ℕ
code_bytes c = if ltb c 128 then 1 else if ltb c 2048 then 2 else if ltb c 65536 then 3 else 4

-- `len(text)`: the bytes of UTF-8.
unfoldable pub byte_length : List ℕ → ℕ
byte_length [] = 0
byte_length (c ∷ cs) = code_bytes c + byte_length cs

abbrev pub fits_in : ℕ → String → Bool
fits_in top text = leb (byte_length (codes text)) top

abbrev pub is_reportable : ResultKind → Bool
is_reportable ResultKind.success = true
is_reportable ResultKind.temporary_failure = true
is_reportable ResultKind.permanent_failure = true
is_reportable _ = false

unfoldable pub digest_worker_result : Host → ExecutionResponse → Result String
unfolding byte_length
digest_worker_result host response = do
  guard (is_reportable response.kind) invalid_result
  guard (fits_in 65536 response.output) invalid_result
  guard (fits_in 128 response.error_code) invalid_result
  guard (fits_in 8192 response.error_message) invalid_result
  ok (host.digest (host.canonical response))

-- Worker and token are those of the lease.
unfoldable pub prove_owner : Host → String → String → Dispatch → Result Ownership
unfolding matches_token
prove_owner host worker_id token d = do
  owner ← or_fail d.owner lease_lost
  guard (str_eq owner.worker_id worker_id && matches_token host token owner.token_hash) lease_lost
  ok owner

abbrev pub has_hash_of : String → Option String → Bool
has_hash_of hash none = false
has_hash_of hash (some stored) = str_eq stored hash

-- Neither the lease nor the attempt is over.
abbrev pub is_current : ℕ → Ownership → Bool
is_current at owner = ltb at owner.expires_at && ltb at owner.deadline

abbrev pub owns_attempt : String → String → ℕ → Option Attempt → Bool
owns_attempt worker_id dispatch_id number none = false
owns_attempt worker_id dispatch_id number (some attempt) =
    attempt.number == number
    && (str_eq attempt.worker_id worker_id && str_eq attempt.dispatch_id dispatch_id)

abbrev pub complete_row : String → ℕ → Dispatch → Dispatch
complete_row hash at d = record d {
  status = DispatchStatus.completed;
  result_hash = some hash;
  completed_at = some at;
}

abbrev pub leased_id : String → Dispatch → Bool
leased_id id d = has_id id d && is_leased d.status

-- The run takes the result, and the dispatch is completed.
unfoldable pub settle_lease :
    Host → ℕ → String → Dispatch → Ownership → String → ExecutionResponse → Tables → Result Tables
unfolding task_index_by_key apply_attempt_result commit_update update_one load_snapshot_rows
settle_lease host at worker_id d owner hash response t = do
  s ← load_snapshot_rows host t d.run_id
  guard (not (is_some s.run.cancel_requested_at) && is_running s.run.status) lease_lost
  i ← or_fail (task_index_by_key s.run.tasks d.task_key) lease_lost
  task ← task_at s i
  guard (is_task_running task.status) lease_lost
  guard (owns_attempt worker_id d.dispatch_id owner.attempt_number (last? task.attempts)) lease_lost
  compiled ← compile_loaded host s
  applied ← apply_attempt_result s compiled i owner.attempt_number response at
  updated ← or_fail applied lease_lost
  committed ← commit_update t s updated
  dispatches ←
      update_one (leased_id d.dispatch_id) (complete_row hash at) lease_lost committed.dispatches
  ok (record committed { dispatches = dispatches })

-- A dispatch that is already completed takes the same result again, and no other.
unfoldable pub complete_owned :
    Host
    → ℕ
    → String
    → Dispatch
    → Ownership
    → String
    → ExecutionResponse
    → Tables
    → Result (Tables × Bool)
unfolding settle_lease
complete_owned host at worker_id d owner hash response t =
    if is_completed d.status
    then (do guard (has_hash_of hash d.result_hash) result_conflict; ok (t, true))
    else (do
      guard (is_leased d.status && is_current at owner) lease_lost
      settled ← settle_lease host at worker_id d owner hash response t
      ok (settled, true))

-- `Complete`; the answer is `Applied`.
unfoldable pub complete :
    Host → ℕ → String → String → String → ExecutionResponse → Tables → Result (Tables × Bool)
unfolding digest_worker_result find_dispatch find_run prove_owner complete_owned
complete host at worker_id dispatch_id token response t = do
  hash ← digest_worker_result host response
  d ← or_fail (find_dispatch t dispatch_id) lease_lost
  guard (is_some (find_run t d.run_id)) database_failed
  owner ← prove_owner host worker_id token d
  complete_owned host at worker_id d owner hash response t
