-- ===== src/Store/Adapter.antt =====
-- The file store behind the interfaces of the engine (workflow/persistence.go): its `Create`, `Load`
-- and `Save` through the adapter do what its own `Apply` does.
use ai_workload_platform.Common.{
  is_some, storage_failed, Result, ok, err, guard, ◌>>=◌, ◌>>◌, >>=-eq-ok, or_fail-eq-ok, String,
  ◌≡◌, refl, ap, inl, inr, Bool, true, false, not, Option,
}
use ai_workload_platform.Change.{ChangeSet}
use ai_workload_platform.Engine.Storage.{Storage, SnapshotStore, adapter_snapshot, adapter}
use ai_workload_platform.Model.{RunSnapshot}
use ai_workload_platform.Store.{
  WriteOutcome, write_locked, load, create, save, applied_snapshot, apply,
}
use ai_workload_platform.Store.Commits.{Result-cases, applied_snapshot-eq-ok}
use ai_workload_platform.Store.Directory.{Files, read_file, is_run_id}

module _ (encode : RunSnapshot → Option String) (decode : String → Option RunSnapshot)
    (outcome : WriteOutcome) where
  -- `Load` looks at the context before anything else.
  unfoldable pub load_with : Bool → Files → String → Result RunSnapshot
  unfolding load
  load_with done files id = do guard (not done) storage_failed; load encode decode files id

  -- `done` says whether the context is done when `Load` looks at it.
  unfoldable pub file_snapshots : Bool → SnapshotStore Files
  unfolding create load_with save
  file_snapshots done = record {
    create_snapshot = create encode decode outcome;
    load_snapshot = load_with done;
    save_snapshot = save encode decode outcome;
  }

  unfoldable pub file_storage : Storage Files
  unfolding create load apply
  file_storage = record {
    create_run = create encode decode outcome;
    load_run = load encode decode;
    apply_change = apply encode decode outcome;
  }

module _ (encode : RunSnapshot → Option String) (decode : String → Option RunSnapshot) where
  -- The file of a run that was loaded is there.
  applied_snapshot-stored :
      (files : Files) (change : ChangeSet) {s' : RunSnapshot}
      → applied_snapshot encode decode files change ≡ ok s'
      → is_some (read_file files change.run_id) ≡ true
  unfolding applied_snapshot load
  applied_snapshot-stored files change h =
      let (s, loaded, _) = >>=-eq-ok _ _ h in
      let (_, _, h₁) = >>=-eq-ok _ _ loaded in
      let (text, found, _) = >>=-eq-ok _ _ h₁ in ap is_some (or_fail-eq-ok _ _ found)

  save-checked :
      (outcome : WriteOutcome) (files : Files) (s : RunSnapshot)
      → is_run_id s.run.id ≡ true
      → is_some (read_file files s.run.id) ≡ true
      → save encode decode outcome files s ≡ write_locked encode decode outcome files s
  unfolding save ◌>>=◌
  save-checked outcome files s valid stored = rw valid (rw stored refl)

  live_load :
      (files : Files) (id : String) (outcome : WriteOutcome)
      → load_with encode decode outcome false files id ≡ load encode decode files id
  unfolding load_with ◌>>=◌
  live_load files id outcome = refl

  -- No other writer comes between the adapter's load and its save. With a context that is done when
  -- the adapter loads, its commit fails and leaves the files alone. With one that is not, it leaves
  -- the same files and gives the same answer as the file store's own commit, for every change set
  -- and however the write goes, also when the context is done by then.
  pub adapter-apply :
      (outcome : WriteOutcome) (files : Files) (change : ChangeSet)
      → ((adapter (file_snapshots encode decode outcome false)).apply_change files change
          ≡ (file_storage encode decode outcome).apply_change files change)
        × ((adapter (file_snapshots encode decode outcome true)).apply_change files change
            ≡ (files, err storage_failed))
  unfolding adapter file_snapshots file_storage apply applied_snapshot adapter_snapshot load_with
      ◌>>=◌
  adapter-apply outcome files change = (
    elim (Result-cases (applied_snapshot encode decode files change)) [
      | inr (e, failed) ↦ rw failed refl
      | inl (s', ready) ↦
          let (valid, same, next) = applied_snapshot-eq-ok encode decode files change ready in
          rw ready (
            save-checked outcome files s' (rw same valid)
              (rw same (applied_snapshot-stored files change ready)))
    ],
    refl,
  )
