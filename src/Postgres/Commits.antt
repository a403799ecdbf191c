-- ===== src/Postgres/Commits.antt =====
-- What a committed change set leaves in the rows of the runs (`Apply` of
-- internal/postgres/run_store.go).
use ai_workload_platform.Common.{
  ◌==◌, if◌then◌else◌, u64, revision_conflict, ok, err, ◌>>=◌, >>=-eq-ok, or_fail-eq-ok,
  guard-eq-ok, ok-subst, ◌+◌, ◌<◌, String, ◌≡◌, refl, sym, ap, ◌∙◌, Bool, true, false, some, List,
  [], ◌∷◌, arith, eq_iff, str_eq,
}
use ai_workload_platform.Change.{ChangeSet}
use ai_workload_platform.Model.{WorkflowRun}
use ai_workload_platform.Postgres.Changes.{
  validate_shape, write_run_row, update_run_row, write_rows, apply_change_set_tx, apply_stored,
}
use ai_workload_platform.Postgres.Query.{find, update_where, find-update_where, find-test}
use ai_workload_platform.Postgres.Runs.{has_run_id, find_run}
use ai_workload_platform.Postgres.Tables.{StoredRun, Tables}

-- The row of the run after a commit against the row before.
abbrev pub Rewritten : WorkflowRun → ChangeSet → StoredRun → StoredRun → Type 0
Rewritten run change stored written =
    (stored.row.revision ≡ change.expected_revision)
    × (written.row.id ≡ stored.row.id)
    × (written.row.revision ≡ run.revision)
    × (written.row.status ≡ run.status)
    × (written.row.last_event_sequence ≡ run.last_event_sequence)

write_rows-Rewritten :
    (run : WorkflowRun) (change : ChangeSet) (stored : StoredRun) {written : StoredRun}
    → write_rows run change stored ≡ ok written
    → Rewritten run change stored written
unfolding write_rows update_run_row write_run_row
write_rows-Rewritten run change stored h =
    let (updated, first, h₁) = >>=-eq-ok _ _ h in
    let (_, _, h₂) = >>=-eq-ok _ _ h₁ in
    let (_, _, h₃) = >>=-eq-ok _ _ h₂ in
    let (_, _, e) = >>=-eq-ok _ _ h₃ in
    let (_, current, k) = >>=-eq-ok _ _ first in
    let (_, _, e₁) = >>=-eq-ok _ _ k in
    let same : stored.row.revision ≡ change.expected_revision =
      ground (arith, guard-eq-ok _ _ current) in
    ok-subst (Rewritten run change stored) e
      (ok-subst (Rewritten run change stored) e₁ (same, refl, refl, refl, refl))

validate_shape-revision :
    (change : ChangeSet) {run : WorkflowRun}
    → validate_shape change ≡ ok run
    → (change.run ≡ some run) × (run.revision ≡ u64 (change.expected_revision + 1))
unfolding validate_shape
validate_shape-revision change h =
    let (_, _, h₁) = >>=-eq-ok _ _ h in
    let (run, there, h₂) = >>=-eq-ok _ _ h₁ in
    let (_, _, h₃) = >>=-eq-ok _ _ h₂ in
    let (_, next, h₄) = >>=-eq-ok _ _ h₃ in
    let (_, _, h₅) = >>=-eq-ok _ _ h₄ in
    let (_, _, h₆) = >>=-eq-ok _ _ h₅ in
    let (_, _, h₇) = >>=-eq-ok _ _ h₆ in
    let (_, _, e) = >>=-eq-ok _ _ h₇ in
    ok-subst
      (λ (x : WorkflowRun).
        (change.run ≡ some x) × (x.revision ≡ u64 (change.expected_revision + 1)))
      e (or_fail-eq-ok _ _ there, ground (arith, guard-eq-ok _ _ next))

-- A change to rows that the key does not see before or after does not change what is found.
find-update_where_other :
    (key test : StoredRun → Bool) (change : StoredRun → StoredRun) (rows : List StoredRun)
    → ((r : StoredRun) → test r ≡ true → key r ≡ false)
    → ((r : StoredRun) → test r ≡ true → key (change r) ≡ false)
    → find key (update_where test change rows) ≡ find key rows
unfolding find update_where
find-update_where_other key test change [] before after = refl
find-update_where_other key test change (r ∷ rows) before after =
    ground (arith, before r, after r, find-update_where_other key test change rows before after)

-- The table of the runs after a commit, as far as the run with this identifier goes.
abbrev Kept : Tables → ChangeSet → Tables → String → Type 0
Kept t change t' other = str_eq change.run_id other ≡ false → find_run t' other ≡ find_run t other

abbrev pub Committed : Tables → ChangeSet → Tables → Type 0
Committed t change t' =
    (run : WorkflowRun) × (stored : StoredRun) × (written : StoredRun) × (change.run ≡ some run)
    × (run.revision ≡ u64 (change.expected_revision + 1))
    × (find_run t change.run_id ≡ some stored)
    × (find_run t' change.run_id ≡ some written)
    × Rewritten run change stored written

apply_stored-Committed :
    (t : Tables) (change : ChangeSet) {t' : Tables}
    → apply_stored t change ≡ ok t'
    → Committed t change t' × ((other : String) → Kept t change t' other)
unfolding apply_stored apply_change_set_tx find_run
apply_stored-Committed t change h =
    let (_, _, h₀) = >>=-eq-ok _ _ h in
    let (run, valid, h₁) = >>=-eq-ok _ _ h₀ in
    let (stored, looked, h₂) = >>=-eq-ok _ _ h₁ in
    let (written, wrote, e) = >>=-eq-ok _ _ h₂ in
    let (there, next) = validate_shape-revision change valid in
    let found = or_fail-eq-ok _ _ looked in
    let rewritten = write_rows-Rewritten run change stored wrote in
    let mine = find-test (has_run_id change.run_id) t.runs found in
    let named : written.row.id ≡ change.run_id =
      rewritten.1 ∙ (eq_iff stored.row.id change.run_id).0 mine in
    let again : has_run_id change.run_id written ≡ true = (eq_iff _ _).1 named in
    let after : find (has_run_id change.run_id)
          (update_where (has_run_id change.run_id) (λ _. written) t.runs)
        ≡ some written =
      find-update_where (has_run_id change.run_id) (has_run_id change.run_id) (λ _. written) t.runs
        (λ r own. again ∙ sym own) found
      ∙ ap some (if_true written stored mine) in
    ok-subst (λ (x : Tables). Committed t change x × ((other : String) → Kept t change x other)) e
      (
        (run, stored, written, there, next, found, after, rewritten),
        λ other differ.
            find-update_where_other (has_run_id other) (has_run_id change.run_id) (λ _. written)
              t.runs
              (λ r own.
                ap (λ (x : String). str_eq x other) ((eq_iff r.row.id change.run_id).0 own)
                ∙ differ)
              (λ r own. ap (λ (x : String). str_eq x other) named ∙ differ),
      )
  where
    if_true : {b : Bool} (x y : StoredRun) → b ≡ true → (if b then x else y) ≡ x
    if_true x y e = rw e refl

-- A change set that is applied was made for the revision that is stored. The row of its run then
-- has the next revision, and the status and the last event number of the change set; any other
-- run is left as it was.
pub apply_stored-find_run :
    (t t' : Tables) (change : ChangeSet) (other : String)
    → apply_stored t change ≡ ok t'
    → str_eq change.run_id other ≡ false
    → Committed t change t' × (find_run t' other ≡ find_run t other)
apply_stored-find_run t t' change other h differ =
    let (committed, kept) = apply_stored-Committed t change h in (committed, kept other differ)

stale :
    (t : Tables) (change : ChangeSet) (run : WorkflowRun) (stored : StoredRun)
    → validate_shape change ≡ ok run
    → find_run t change.run_id ≡ some stored
    → (stored.row.revision == change.expected_revision) ≡ false
    → apply_stored t change ≡ err revision_conflict
unfolding apply_stored apply_change_set_tx write_rows update_run_row ◌>>=◌
stale t change run stored valid found differ = rw valid (rw found (rw differ refl))

-- Of two valid change sets for one run that expect the same revision, which fits in 64 bits, the
-- second is refused as a conflict once the first is applied.
pub apply_stored-apply_stored_conflict :
    (t t' : Tables) (first second : ChangeSet) (run : WorkflowRun)
    → apply_stored t first ≡ ok t'
    → first.expected_revision < 18446744073709551616
    → second.run_id ≡ first.run_id
    → second.expected_revision ≡ first.expected_revision
    → validate_shape second ≡ ok run
    → apply_stored t' second ≡ err revision_conflict
apply_stored-apply_stored_conflict t t' first second run h small id revision valid =
    let ((run', stored, written, _, next, _, found, current), _) =
      apply_stored-Committed t first h in
    let (same, named, revised, _, _) = current in
    let differ : (written.row.revision == second.expected_revision) ≡ false =
      ground (arith, revised, next, revision, small) in
    stale t' second run written valid (rw id found) differ
