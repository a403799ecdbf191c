-- ===== src/Postgres/Accepted.antt =====
-- Results that were accepted, and those that are refused (`Complete` of
-- internal/postgres/dispatch_complete.go).
pub mod Repeats
use ai_workload_platform.Common.{
  if◌then◌else◌, is_some, ok, >>=-eq-ok, or_fail-eq-ok, ok-subst, ℕ, String, ◌≡◌, refl, sym, ap,
  ◌∙◌, Bool, true, Option, none, some, List, arith, eq_iff, str_eq,
}
use ai_workload_platform.Change.{ChangeSet}
use ai_workload_platform.Model.{ExecutionResponse, WorkflowRun, RunSnapshot}
use ai_workload_platform.Postgres.Advances.Methods.{commit_update-only_runs}
use ai_workload_platform.Postgres.Changes.{
  write_run_row, update_run_row, write_rows, apply_change_set_tx,
}
use ai_workload_platform.Postgres.Claim.{commit_update}
use ai_workload_platform.Postgres.Query.{
  find, update_where, update_one, find-update_where, find-test,
}
use ai_workload_platform.Postgres.Report.{prove_owner, complete_row, leased_id, settle_lease}
use ai_workload_platform.Postgres.Runs.{has_run_id, find_run}
use ai_workload_platform.Postgres.Tables.{
  Ownership, Dispatch, StoredRun, Tables, Host, is_leased, is_completed, has_id, find_dispatch,
}

-- A run that is there stays there when another transaction commits its changes.
write_rows-id :
    (run : WorkflowRun) (change : ChangeSet) (stored : StoredRun) {written : StoredRun}
    → write_rows run change stored ≡ ok written
    → written.row.id ≡ stored.row.id
unfolding write_rows update_run_row write_run_row
write_rows-id run change stored h =
    let (updated, first, h₁) = >>=-eq-ok _ _ h in
    let (_, _, h₂) = >>=-eq-ok _ _ h₁ in
    let (_, _, h₃) = >>=-eq-ok _ _ h₂ in
    let (_, _, e) = >>=-eq-ok _ _ h₃ in
    let (_, _, k) = >>=-eq-ok _ _ first in
    let (_, _, e₁) = >>=-eq-ok _ _ k in
    ok-subst (λ (x : StoredRun). x.row.id ≡ stored.row.id) e
      (ok-subst (λ (x : StoredRun). x.row.id ≡ stored.row.id) e₁ refl)

find-kept :
    (key test : StoredRun → Bool) (change : StoredRun → StoredRun) (runs : List StoredRun)
    (o : Option StoredRun)
    → ((r : StoredRun) → test r ≡ true → key (change r) ≡ key r)
    → find key runs ≡ o
    → is_some (find key runs) ≡ true
    → is_some (find key (update_where test change runs)) ≡ true
find-kept key test change runs none kept found there = cc
find-kept key test change runs (some r) kept found there =
    rw (find-update_where key test change runs kept found) refl

apply_change_set_tx-find_run :
    (t : Tables) (change : ChangeSet) (id : String) {t' : Tables}
    → apply_change_set_tx t change ≡ ok t'
    → is_some (find_run t id) ≡ true
    → is_some (find_run t' id) ≡ true
unfolding apply_change_set_tx find_run
apply_change_set_tx-find_run t change id h there =
    let (run, _, h₁) = >>=-eq-ok _ _ h in
    let (stored, found, h₂) = >>=-eq-ok _ _ h₁ in
    let (written, wrote, e) = >>=-eq-ok _ _ h₂ in
    let named : stored.row.id ≡ change.run_id =
      (eq_iff stored.row.id change.run_id).0
        (find-test (has_run_id change.run_id) t.runs (or_fail-eq-ok _ _ found)) in
    let same : (r : StoredRun)
        → has_run_id change.run_id r ≡ true
        → has_run_id id written ≡ has_run_id id r =
      λ r mine.
        let other : r.row.id ≡ change.run_id = (eq_iff r.row.id change.run_id).0 mine in
        let kept = write_rows-id run change stored wrote in
        ap (λ (x : String). str_eq x id) (kept ∙ named ∙ sym other) in
    ok-subst (λ (x : Tables). is_some (find (has_run_id id) x.runs) ≡ true) e
      (find-kept (has_run_id id) (has_run_id change.run_id) (λ _. written) t.runs _ same refl there)

-- What a successful completion leaves behind.
pub record IsAccepted (host : Host) (worker_id dispatch_id token hash : String) (t : Tables)
    : Type 0 where
  pub row : Dispatch
  pub owner : Ownership
  pub found : find_dispatch t dispatch_id ≡ some row
  pub completed : is_completed row.status ≡ true
  pub hashed : row.result_hash ≡ some hash
  pub proved : prove_owner host worker_id token row ≡ ok owner
  pub run_there : is_some (find_run t row.run_id) ≡ true

pub commit_update-find_run :
    (t : Tables) (s updated : RunSnapshot) (id : String) {t' : Tables}
    → commit_update t s updated ≡ ok t'
    → is_some (find_run t id) ≡ true
    → is_some (find_run t' id) ≡ true
unfolding commit_update
commit_update-find_run t s updated id h there =
    let (change, _, h₁) = >>=-eq-ok _ _ h in apply_change_set_tx-find_run t change id h₁ there

-- The end of a completion that settles the result.
pub settled-IsAccepted :
    (host : Host) (at : ℕ) (worker_id dispatch_id token hash : String) (d : Dispatch)
    (owner : Ownership) (response : ExecutionResponse) (t : Tables) {t' : Tables}
    → find_dispatch t dispatch_id ≡ some d
    → is_leased d.status ≡ true
    → prove_owner host worker_id token d ≡ ok owner
    → is_some (find_run t d.run_id) ≡ true
    → settle_lease host at worker_id d owner hash response t ≡ ok t'
    → IsAccepted host worker_id dispatch_id token hash t'
unfolding settle_lease update_one find_dispatch prove_owner find_run
settled-IsAccepted host at worker_id dispatch_id token hash d owner response t found leased proved
      there h =
    let (s, _, h₁) = >>=-eq-ok _ _ h in
    let (_, _, h₂) = >>=-eq-ok _ _ h₁ in
    let (i, _, h₃) = >>=-eq-ok _ _ h₂ in
    let (task, _, h₄) = >>=-eq-ok _ _ h₃ in
    let (_, _, h₅) = >>=-eq-ok _ _ h₄ in
    let (_, _, h₆) = >>=-eq-ok _ _ h₅ in
    let (compiled, _, h₇) = >>=-eq-ok _ _ h₆ in
    let (applied, _, h₈) = >>=-eq-ok _ _ h₇ in
    let (updated, _, h₉) = >>=-eq-ok _ _ h₈ in
    let (committed, commit, h₁₀) = >>=-eq-ok _ _ h₉ in
    let (ds, closed, e) = >>=-eq-ok _ _ h₁₀ in
    let (_, _, rows) = >>=-eq-ok _ _ closed in
    let only = ap (λ (x : Tables). x.dispatches) (commit_update-only_runs t s updated commit) in
    let named : has_id dispatch_id d ≡ true = find-test (has_id dispatch_id) t.dispatches found in
    let same : d.dispatch_id ≡ dispatch_id = (eq_iff d.dispatch_id dispatch_id).0 named in
    let self : leased_id d.dispatch_id d ≡ true =
      ground (arith, (eq_iff d.dispatch_id d.dispatch_id).1 refl) in
    let there' = commit_update-find_run t s updated d.run_id commit there in
    let found' : find (has_id dispatch_id) ds ≡ some (complete_row hash at d) =
      ok-subst (λ (x : List Dispatch). find (has_id dispatch_id) x ≡ some (complete_row hash at d))
        rows
        (rw only (
          find-update_where (has_id dispatch_id) (leased_id d.dispatch_id) (complete_row hash at)
            t.dispatches (λ r _. refl) found
          ∙ ap some (if_true _ _ self))) in
    ok-subst (IsAccepted host worker_id dispatch_id token hash) e (record {
      row = complete_row hash at d;
      owner = owner;
      found = found';
      completed = refl;
      hashed = refl;
      proved = proved;
      run_there = there';
    })
  where
    if_true : {A : Type 0} {b : Bool} (x y : A) → b ≡ true → (if b then x else y) ≡ x
    if_true x y e = rw e refl
