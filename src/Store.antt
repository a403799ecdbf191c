-- ===== src/Store.antt =====
-- workflow/filestore/store.go. Each operation holds the
-- lock of the store while it runs, so operations do not overlap. Create, Save and Apply look at their
-- context only in `writeLocked`, which is the outcome `context_done`: a refusal that they find before
-- comes first. Load, ListNonTerminal and RequestCancel look at it first; their calls with a context
-- that is done are left out, except for the Load of the adapter (Store/Adapter).
pub mod Directory
pub mod Commits
pub mod Requests
pub mod Adapter
use ai_workload_platform.Common.{
  ◌==◌, if◌then◌else◌, is_some, u64, run_exists, run_not_found, revision_conflict, wrong_run,
  invalid_run_id, storage_failed, Result, ok, err, or_fail, guard, ◌>>=◌, ◌>>◌, ℕ, ◌+◌, String,
  Bool, true, false, not, ◌||◌, Option, none, some, List, [], ◌∷◌, str_eq,
}
use ai_workload_platform.Change.{ChangeSet}
use ai_workload_platform.Change.Apply.{apply_change_set}
use ai_workload_platform.Model.{WorkflowRun, RunSnapshot}
use ai_workload_platform.State.{is_workflow_terminal}
use ai_workload_platform.Store.Directory.{Files, read_file, replace_file, is_run_id}

-- How far one run of `writeLocked` gets: the step that fails, or none.
pub data WriteOutcome : Type 0 where
  context_done temp_failed write_failed sync_failed close_failed rename_failed : WriteOutcome
  -- The new file is in its place when these fail.
  directory_open_failed directory_sync_failed : WriteOutcome
  written : WriteOutcome

abbrev pub replaces : WriteOutcome → Bool
replaces WriteOutcome.directory_open_failed = true
replaces WriteOutcome.directory_sync_failed = true
replaces WriteOutcome.written = true
replaces _ = false

abbrev pub succeeds : WriteOutcome → Result (Unit {0})
succeeds WriteOutcome.written = ok tt
succeeds _ = err storage_failed

-- The run row after the first request for a cancellation.
abbrev pub request_row : RunSnapshot → ℕ → RunSnapshot
request_row s at = record s {
  run = record s.run { cancel_requested_at = some at; revision = u64 (s.run.revision + 1) };
}

-- The answer to a request whose row was written, or not.
abbrev pub answer_row : Files × Result (Unit {0}) → WorkflowRun → Files × Result WorkflowRun
answer_row (files, ok done) run = (files, ok run)
answer_row (files, err e) run = (files, err e)

-- `encode` and `decode` are the JSON codec of Go's standard library.
module _ (encode : RunSnapshot → Option String) (decode : String → Option RunSnapshot) where
  unfoldable pub write_text :
      WriteOutcome → Files → String → Option String → Files × Result (Unit {0})
  write_text outcome files id none = (files, err storage_failed)
  write_text outcome files id (some text) =
      (if replaces outcome then replace_file files id text else files, succeeds outcome)

  unfoldable pub write_locked : WriteOutcome → Files → RunSnapshot → Files × Result (Unit {0})
  unfolding write_text
  write_locked outcome files s = write_text outcome files s.run.id (encode s)

  unfoldable pub load : Files → String → Result RunSnapshot
  unfolding is_run_id
  load files id = do
    guard (is_run_id id) invalid_run_id
    text ← or_fail (read_file files id) run_not_found
    s ← or_fail (decode text) storage_failed
    guard (str_eq s.run.id id) wrong_run
    ok s

  -- An operation that fails before it writes leaves the files alone.
  abbrev pub write_result : WriteOutcome → Files → Result RunSnapshot → Files × Result (Unit {0})
  write_result outcome files (ok s) = write_locked outcome files s
  write_result outcome files (err e) = (files, err e)

  unfoldable pub create : WriteOutcome → Files → RunSnapshot → Files × Result (Unit {0})
  unfolding is_run_id write_locked
  create outcome files s = write_result outcome files (do
    guard (is_run_id s.run.id) invalid_run_id
    guard (not (is_some (read_file files s.run.id))) run_exists
    ok s)

  unfoldable pub save : WriteOutcome → Files → RunSnapshot → Files × Result (Unit {0})
  unfolding is_run_id write_locked
  save outcome files s = write_result outcome files (do
    guard (is_run_id s.run.id) invalid_run_id
    guard (is_some (read_file files s.run.id)) run_not_found
    ok s)

  -- What `Apply` is about to write.
  unfoldable pub applied_snapshot : Files → ChangeSet → Result RunSnapshot
  unfolding load apply_change_set
  applied_snapshot files change = do
    s ← load files change.run_id
    guard (s.run.revision == change.expected_revision) revision_conflict
    apply_change_set s change

  unfoldable pub apply : WriteOutcome → Files → ChangeSet → Files × Result (Unit {0})
  unfolding applied_snapshot write_locked
  apply outcome files change = write_result outcome files (applied_snapshot files change)

  -- The loop over the directory; every file is read through `Load`.
  unfoldable pub list_from : Files → Files → Result (List String)
  unfolding load is_workflow_terminal
  list_from files [] = ok []
  list_from files ((id, text) ∷ rest) = do
    s ← load files id
    ids ← list_from files rest
    ok (if is_workflow_terminal s.run.status then ids else id ∷ ids)

  unfoldable pub list_non_terminal : Files → Result (List String)
  unfolding list_from
  list_non_terminal files = list_from files files

  unfoldable pub request_row_of :
      WriteOutcome → Files → ℕ → RunSnapshot → Files × Result WorkflowRun
  unfolding is_workflow_terminal write_locked
  request_row_of outcome files at s =
      if is_workflow_terminal s.run.status || is_some s.run.cancel_requested_at
      then (files, ok s.run)
      else answer_row (write_locked outcome files (request_row s at)) (request_row s at).run

  abbrev pub request_result :
      WriteOutcome → Files → ℕ → Result RunSnapshot → Files × Result WorkflowRun
  request_result outcome files at (ok s) = request_row_of outcome files at s
  request_result outcome files at (err e) = (files, err e)

  unfoldable pub request_cancel : WriteOutcome → Files → String → ℕ → Files × Result WorkflowRun
  unfolding load request_row_of
  request_cancel outcome files id at = request_result outcome files at (load files id)
