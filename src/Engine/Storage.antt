-- ===== src/Engine/Storage.antt =====
-- The store that the engine works on (`enginePersistence` of workflow/persistence.go), and the
-- engine's writes to it.
use ai_workload_platform.Common.{
  ◌==◌, if◌then◌else◌, is_some, u64, Error, revision_conflict, wrong_run, Result, ok, err, guard,
  ◌>>=◌, ◌>>◌, ℕ, zero, suc, ◌+◌, String, Bool, true, false, not, ◌&&◌, str_eq,
}
use ai_workload_platform.Change.{ChangeSet, change_set_from_snapshots}
use ai_workload_platform.Change.Apply.{apply_change_set}
use ai_workload_platform.Distributed.Cancel.{cancel_run_snapshot}
use ai_workload_platform.Model.{WorkflowRun, RunSnapshot}
use ai_workload_platform.State.{is_workflow_terminal, snapshot_last_event_sequence}

-- `S` is what the store keeps. A write may fail after it has changed something.
pub record Storage (S : Type 0) : Type 0 where
  pub create_run : S → RunSnapshot → S × Result (Unit {0})
  pub load_run : S → String → Result RunSnapshot
  pub apply_change : S → ChangeSet → S × Result (Unit {0})

-- The store with a full `Save` only (`snapshotStoreAdapter`).
pub record SnapshotStore (S : Type 0) : Type 0 where
  pub create_snapshot : S → RunSnapshot → S × Result (Unit {0})
  pub load_snapshot : S → String → Result RunSnapshot
  pub save_snapshot : S → RunSnapshot → S × Result (Unit {0})

-- The state stays when nothing is written.
abbrev pub write_or_keep {ℓ} :
    {S : Type 0} {A B : Type ℓ} → (S → A → S × Result B) → S → Result A → S × Result B
write_or_keep write st (ok a) = write st a
write_or_keep write st (err e) = (st, err e)

module _ {S : Type 0} (base : SnapshotStore S) where
  unfoldable pub adapter_snapshot : S → ChangeSet → Result RunSnapshot
  unfolding apply_change_set
  adapter_snapshot st change = do
    before ← base.load_snapshot st change.run_id
    guard (before.run.revision == change.expected_revision) revision_conflict
    apply_change_set before change

  -- `Apply` loads, checks and saves under one context. The source notes that these are not one
  -- atomic step and relies on the engine as the only writer; so does this definition.
  unfoldable pub adapter : Storage S
  unfolding adapter_snapshot
  adapter = record {
    create_run = base.create_snapshot;
    load_run = base.load_snapshot;
    apply_change = λ st change. write_or_keep base.save_snapshot st (adapter_snapshot st change);
  }

-- The next revision, and the end of the log in the run row.
abbrev pub stamped : RunSnapshot → RunSnapshot → RunSnapshot
stamped before after =
    let revised = record after {
      run = record after.run { revision = u64 (before.run.revision + 1) };
    } in
    record revised {
      run = record revised.run { last_event_sequence = snapshot_last_event_sequence revised };
    }

module _ {S : Type 0} (storage : Storage S) where
  abbrev pub confirm : RunSnapshot → S × Result (Unit {0}) → S × Result RunSnapshot
  confirm after (st, ok done) = (st, ok after)
  confirm after (st, err e) = (st, err e)

  -- `saveSnapshot`: the snapshot as it was saved.
  unfoldable pub save_snapshots : S → RunSnapshot → RunSnapshot → S × Result RunSnapshot
  unfolding change_set_from_snapshots
  save_snapshots st before after =
      let next = stamped before after in
      write_or_keep (λ now change. confirm next (storage.apply_change now change)) st
        (change_set_from_snapshots before next)

  abbrev is_conflict : Error → Bool
  is_conflict revision_conflict = true
  is_conflict _ = false

  -- The answer of a cancellation that was written, or another try after a conflict.
  unfoldable pub cancellation_answer :
      Bool
      → (S → RunSnapshot → S × Result WorkflowRun)
      → String
      → S × Result RunSnapshot
      → S × Result WorkflowRun
  cancellation_answer last again id (st, ok s) = (st, ok s.run)
  cancellation_answer last again id (st, err e) =
      if is_conflict e && not last
      then write_or_keep again st (storage.load_run st id)
      else (st, err e)

  unfoldable pub cancel_once :
      Bool
      → (S → RunSnapshot → S × Result WorkflowRun)
      → ℕ
      → S
      → RunSnapshot
      → S × Result WorkflowRun
  unfolding cancellation_answer save_snapshots is_workflow_terminal
  cancel_once last again at st s =
      if is_workflow_terminal s.run.status
      then (st, ok s.run)
      else write_or_keep
          (λ now updated. cancellation_answer last again s.run.id (save_snapshots now s updated)) st
          (cancel_run_snapshot s at)

  -- The loop of `finalizeCancellation`, with the number of tries that are left.
  unfoldable pub cancel_with_retries : ℕ → ℕ → S → RunSnapshot → S × Result WorkflowRun
  unfolding cancel_once
  cancel_with_retries zero at st s = (st, err revision_conflict)
  cancel_with_retries (suc left) at st s =
      cancel_once (left == 0) (cancel_with_retries left at) at st s

  unfoldable pub finalize_cancellation : ℕ → S → RunSnapshot → S × Result WorkflowRun
  unfolding cancel_with_retries
  finalize_cancellation at st s = cancel_with_retries 2 at st s

  -- What a conflict means once the stored run has been read again.
  abbrev pub reconcile_loaded : ℕ → Error → S → RunSnapshot → S × Result WorkflowRun
  reconcile_loaded at failure st s =
      if is_some s.run.cancel_requested_at then finalize_cancellation at st s else (st, err failure)

  unfoldable pub reconcile_persisted_cancellation : ℕ → String → Error → S → S × Result WorkflowRun
  unfolding finalize_cancellation
  reconcile_persisted_cancellation at id failure st =
      if is_conflict failure
      then write_or_keep (reconcile_loaded at failure) st (storage.load_run st id)
      else (st, err failure)

  -- `validateStoredRunID` and `GetRun`.
  unfoldable pub validate_stored_run_id : RunSnapshot → String → Result (Unit {0})
  validate_stored_run_id s id = guard (str_eq s.run.id id) wrong_run

  unfoldable pub get_run : S → String → Result WorkflowRun
  unfolding validate_stored_run_id
  get_run st id = do s ← storage.load_run st id; validate_stored_run_id s id; ok s.run
