-- ===== src/Store/Commits.antt =====
-- What a commit to the store of files guarantees (workflow/filestore/store.go).
use ai_workload_platform.Common.{
  ◌==◌, Bool-cases, Option-cases, u64, Error, revision_conflict, Result, ok, err, ◌>>=◌, >>=-eq-ok,
  guard-eq-ok, ok-subst, ℕ, ◌+◌, ◌<◌, String, ◌≡◌, refl, sym, ◌⊎◌, inl, inr, true, false, Option,
  some, arith, eq_iff, str_eq,
}
use ai_workload_platform.Change.{ChangeSet}
use ai_workload_platform.Change.Apply.{apply_change_set}
use ai_workload_platform.Change.Rows.{str_eq_refl}
use ai_workload_platform.Model.{WorkflowDefinition, RunSnapshot}
use ai_workload_platform.Store.{
  WriteOutcome, replaces, write_text, write_locked, load, applied_snapshot, apply,
}
use ai_workload_platform.Store.Directory.{Files, replace_file, is_run_id, read_file-replace_file}

-- The checks that a change set has passed.
record Checked (s : RunSnapshot) (change : ChangeSet) (s' : RunSnapshot) : Type 0 where
  same_id : s'.run.id ≡ change.run_id
  expected : s.run.revision ≡ change.expected_revision
  next_revision : s'.run.revision ≡ u64 (change.expected_revision + 1)

same_number : (n m : ℕ) → (n == m) ≡ true → n ≡ m
same_number n m h = ground arith

apply_change_set-eq-ok :
    (s : RunSnapshot) (change : ChangeSet) {s' : RunSnapshot}
    → apply_change_set s change ≡ ok s'
    → Checked s change s'
unfolding apply_change_set
apply_change_set-eq-ok s change h =
    let (_, _, h₁) = >>=-eq-ok _ _ h in
    let (_, revision, h₂) = >>=-eq-ok _ _ h₁ in
    let (run, _, h₃) = >>=-eq-ok _ _ h₂ in
    let (_, id, h₄) = >>=-eq-ok _ _ h₃ in
    let (_, next, h₅) = >>=-eq-ok _ _ h₄ in
    let (_, _, h₆) = >>=-eq-ok _ _ h₅ in
    let (_, _, h₇) = >>=-eq-ok _ _ h₆ in
    let (_, _, h₈) = >>=-eq-ok _ _ h₇ in
    let (_, _, h₉) = >>=-eq-ok _ _ h₈ in
    let (_, _, h₁₀) = >>=-eq-ok _ _ h₉ in
    let (_, _, e) = >>=-eq-ok _ _ h₁₀ in
    record {
      same_id =
          ok-subst (λ t. t.run.id ≡ change.run_id) e
            ((eq_iff run.id change.run_id).0 (guard-eq-ok _ _ id));
      expected = sym (same_number _ _ (guard-eq-ok _ _ revision));
      next_revision =
          ok-subst (λ t. t.run.revision ≡ u64 (change.expected_revision + 1)) e
            (same_number _ _ (guard-eq-ok _ _ next));
    }

pub Result-cases :
    {A : Type 0} (r : Result A) → ((a : A) × (r ≡ ok a)) ⊎ ((e : Error) × (r ≡ err e))
Result-cases (ok a) = inl (a, refl)
Result-cases (err e) = inr (e, refl)

module _ (encode : RunSnapshot → Option String) (decode : String → Option RunSnapshot) where
  -- What a change set that is about to be written has passed.
  pub applied_snapshot-eq-ok :
      (files : Files) (change : ChangeSet) {s' : RunSnapshot}
      → applied_snapshot encode decode files change ≡ ok s'
      → (is_run_id change.run_id ≡ true)
        × (s'.run.id ≡ change.run_id)
        × (s'.run.revision ≡ u64 (change.expected_revision + 1))
  unfolding applied_snapshot load
  applied_snapshot-eq-ok files change h =
      let (s, loaded, h₁) = >>=-eq-ok _ _ h in
      let (_, valid, _) = >>=-eq-ok _ _ loaded in
      let (_, _, h₂) = >>=-eq-ok _ _ h₁ in
      let checked = apply_change_set-eq-ok s change h₂ in
      (guard-eq-ok _ _ valid, checked.same_id, checked.next_revision)

-- What reading makes of a snapshot that was written. The pointers, the empty collections and the
-- types of the numbers in the inputs of its definition are not those that were written; JSON keeps
-- everything else.
abbrev pub read_back :
    (Option WorkflowDefinition → Option WorkflowDefinition) → RunSnapshot → RunSnapshot
read_back reread s = record s { definition = reread s.definition }

module _ (encode : RunSnapshot → Option String) (decode : String → Option RunSnapshot)
    (reread : Option WorkflowDefinition → Option WorkflowDefinition)
    (codec : (s : RunSnapshot) (text : String)
      → encode s ≡ some text
      → decode text ≡ some (read_back reread s)) where
  pub load-replace_file :
      (files : Files) (s : RunSnapshot) (text : String)
      → is_run_id s.run.id ≡ true
      → encode s ≡ some text
      → load encode decode (replace_file files s.run.id text) s.run.id ≡ ok (read_back reread s)
  unfolding load ◌>>=◌
  load-replace_file files s text valid encoded = rw valid (
      rw (read_file-replace_file files s.run.id s.run.id text)
        (rw (str_eq_refl s.run.id) (rw (codec s text encoded) (rw (str_eq_refl s.run.id) refl))))

  load-other :
      (files : Files) (id other text : String)
      → str_eq id other ≡ false
      → load encode decode (replace_file files id text) other ≡ load encode decode files other
  unfolding load
  load-other files id other text differ =
      rw (read_file-replace_file files id other text) (rw differ refl)

  loaded-apply :
      (files : Files) (change : ChangeSet) (s' : RunSnapshot) (text : String)
      → applied_snapshot encode decode files change ≡ ok s'
      → encode s' ≡ some text
      → load encode decode (apply encode decode WriteOutcome.written files change).0 change.run_id
        ≡ ok (read_back reread s')
  unfolding apply write_locked write_text
  loaded-apply files change s' text applied encoded =
      let (valid, same, next) = applied_snapshot-eq-ok encode decode files change applied in
      rw applied
        (rw encoded (rw (← same) (load-replace_file files s' text (rw same valid) encoded)))

  -- The codec decodes what it encoded, but for the definition, of which it makes another by
  -- `reread`. After a commit that the disk carries out, of a change set that passes the checks and
  -- gives a snapshot that can be encoded, the run that is loaded is the one that the change set
  -- makes of the stored run, with the definition as it is read back; every other run is loaded as
  -- before.
  pub load-apply :
      (files : Files) (change : ChangeSet) (s' : RunSnapshot) (text other : String)
      → applied_snapshot encode decode files change ≡ ok s'
      → encode s' ≡ some text
      → str_eq change.run_id other ≡ false
      → (load encode decode (apply encode decode WriteOutcome.written files change).0 change.run_id
          ≡ ok (read_back reread s'))
        × (load encode decode (apply encode decode WriteOutcome.written files change).0 other
            ≡ load encode decode files other)
  unfolding apply write_locked write_text
  load-apply files change s' text other applied encoded differ =
      let (valid, same, next) = applied_snapshot-eq-ok encode decode files change applied in
      (
        loaded-apply files change s' text applied encoded,
        rw applied (rw encoded (rw same (load-other files change.run_id other text differ))),
      )

  next_differs : (n : ℕ) → n < 18446744073709551616 → (u64 (n + 1) == n) ≡ false
  next_differs n small = ground arith

  refused :
      (outcome : WriteOutcome) (files' : Files) (second : ChangeSet) (s' : RunSnapshot)
      → load encode decode files' second.run_id ≡ ok s'
      → (s'.run.revision == second.expected_revision) ≡ false
      → apply encode decode outcome files' second ≡ (files', err revision_conflict)
  unfolding apply applied_snapshot ◌>>=◌
  refused outcome files' second s' loaded differ = rw loaded (rw differ refl)

  -- The codec decodes what it encoded, but for the definition. Of two commits to one run that expect the same revision,
  -- which fits in 64 bits, the second is refused as a conflict once the first is written, and
  -- changes no file, however its own write would go.
  pub apply-apply_conflict :
      (files : Files) (first second : ChangeSet) (s' : RunSnapshot) (text : String)
      (outcome : WriteOutcome)
      → first.expected_revision < 18446744073709551616
      → second.run_id ≡ first.run_id
      → second.expected_revision ≡ first.expected_revision
      → applied_snapshot encode decode files first ≡ ok s'
      → encode s' ≡ some text
      → apply encode decode outcome (apply encode decode WriteOutcome.written files first).0 second
        ≡ ((apply encode decode WriteOutcome.written files first).0, err revision_conflict)
  apply-apply_conflict files first second s' text outcome small id revision applied encoded =
      let (valid, same, next) = applied_snapshot-eq-ok encode decode files first applied in
      let loaded = loaded-apply files first s' text applied encoded in
      refused outcome (apply encode decode WriteOutcome.written files first).0 second
        (read_back reread s') (rw id loaded)
        (rw (next, revision) (next_differs first.expected_revision small))

  write_text-replaced :
      (outcome : WriteOutcome) (files : Files) (s : RunSnapshot)
      → is_run_id s.run.id ≡ true
      → ((write_locked encode decode outcome files s).0 ≡ files)
        ⊎ (load encode decode (write_locked encode decode outcome files s).0 s.run.id
            ≡ ok (read_back reread s))
  unfolding write_locked write_text
  write_text-replaced outcome files s valid = elim (Option-cases (encode s)) [
    | inl failed ↦ inl (rw failed refl)
    | inr (text, encoded) ↦ elim (Bool-cases (replaces outcome)) [
      | inl replaced ↦ inr (rw encoded (rw replaced (load-replace_file files s text valid encoded)))
      | inr kept ↦ inl (rw encoded (rw kept refl))
    ]
  ]

  -- The codec decodes what it encoded, but for the definition, of which it makes another by
  -- `reread`. A commit is never half done, whichever step of the write fails: the files are as they
  -- were, or the run that is loaded next is the one that the change set makes of the stored run,
  -- with the definition as it is read back.
  pub apply-atomic :
      (outcome : WriteOutcome) (files : Files) (change : ChangeSet)
      → ((apply encode decode outcome files change).0 ≡ files)
        ⊎ ((s' : RunSnapshot) × (applied_snapshot encode decode files change ≡ ok s')
            × (load encode decode (apply encode decode outcome files change).0 change.run_id
                ≡ ok (read_back reread s')))
  unfolding apply
  apply-atomic outcome files change =
      elim (Result-cases (applied_snapshot encode decode files change)) [
        | inr (e, failed) ↦ inl (rw failed refl)
        | inl (s', applied) ↦
            let (valid, same, next) = applied_snapshot-eq-ok encode decode files change applied in
            elim (write_text-replaced outcome files s' (rw same valid)) [
              | inl kept ↦ inl (rw applied kept)
              | inr loaded ↦ inr (s', applied, rw applied (rw (← same) loaded))
            ]
      ]
