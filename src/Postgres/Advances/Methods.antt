-- ===== src/Postgres/Advances/Methods.antt =====
-- Each method as steps on the table of dispatches: the methods of
-- internal/postgres/dispatch_complete.go, dispatch_recovery.go and dispatch_schedule.go.
use ai_workload_platform.Common.{
  by_branch, Error, lease_lost, ok, ◌>>=◌, >>=-eq-ok, ok-subst, ℕ, ◌+◌, ◌≤◌, String, ◌≡◌, refl, ap,
  subst, ◌∙◌, Bool, true, false, Option, some, List, arith,
}
use ai_workload_platform.Change.{ChangeSet}
use ai_workload_platform.Model.{ExecutionResponse, RunSnapshot}
use ai_workload_platform.Postgres.Advances.{
  RowStep, RowSteps, Advances, RowSteps-update_where, Advances-more, Advances-trans,
}
use ai_workload_platform.Postgres.Changes.{apply_change_set_tx}
use ai_workload_platform.Postgres.Claim.{commit_update}
use ai_workload_platform.Postgres.Query.{update_one}
use ai_workload_platform.Postgres.Report.{
  complete_row, leased_id, settle_lease, complete_owned, complete,
}
use ai_workload_platform.Postgres.Tables.{
  DispatchStatus, Ownership, Dispatch, Tables, Host, is_completed, is_open,
}

-- What a statement or a part of a method does to dispatches and workers.
pub record Effect (w : String) (n m : ℕ) (t t' : Tables) : Type 0 where
  pub advances : Advances w t.dispatches n m t'.dispatches
  pub same_workers : t'.workers ≡ t.workers

pub Effect-refl : {w : String} {n m : ℕ} (t : Tables) → Effect w n m t t
Effect-refl t = record { advances = Advances.start; same_workers = refl }

pub Effect-trans :
    {w : String} (n n' m m' : ℕ) {before between after : Tables}
    → Effect w n m before between
    → Effect w n' m' between after
    → Effect w (n + n') (m + m') before after
Effect-trans n n' m m' p q = record {
  advances = Advances-trans n n' m m' p.advances q.advances;
  same_workers = q.same_workers ∙ p.same_workers;
}

pub Effect-more :
    {w : String} {n n' m m' : ℕ} {before after : Tables}
    → n ≤ n'
    → m ≤ m'
    → Effect w n m before after
    → Effect w n' m' before after
Effect-more h k p = record {
  advances = Advances-more h k p.advances;
  same_workers = p.same_workers;
}

-- A transaction on the runs alone.
pub apply_change_set_tx-only_runs :
    (t : Tables) (change : ChangeSet) {t' : Tables}
    → apply_change_set_tx t change ≡ ok t'
    → t' ≡ record t { runs = t'.runs }
unfolding apply_change_set_tx
apply_change_set_tx-only_runs t change h =
    let (run, _, h₁) = >>=-eq-ok _ _ h in
    let (stored, _, h₂) = >>=-eq-ok _ _ h₁ in
    let (written, _, e) = >>=-eq-ok _ _ h₂ in ok-subst (λ x. x ≡ record t { runs = x.runs }) e refl

pub commit_update-only_runs :
    (t : Tables) (s updated : RunSnapshot) {t' : Tables}
    → commit_update t s updated ≡ ok t'
    → t' ≡ record t { runs = t'.runs }
unfolding commit_update
commit_update-only_runs t s updated h =
    let (change, _, h₁) = >>=-eq-ok _ _ h in apply_change_set_tx-only_runs t change h₁

-- The statement at the end of a method closes a row.
pub update_one-Rows :
    (test : Dispatch → Bool) (change : Dispatch → Dispatch) (e : Error) (ds : List Dispatch)
    {ds' : List Dispatch}
    → ((d : Dispatch) → test d ≡ true → RowStep d (change d))
    → update_one test change e ds ≡ ok ds'
    → RowSteps ds ds'
unfolding update_one
update_one-Rows test change e ds step h =
    let (_, _, done) = >>=-eq-ok _ _ h in
    ok-subst (RowSteps ds) done (RowSteps-update_where test change ds step)

-- A commit, and then the statement that closes a row.
pub closed-Effect :
    {w : String} (test : Dispatch → Bool) (change : Dispatch → Dispatch) (e : Error)
    (t committed : Tables) {t' : Tables}
    → ((d : Dispatch) → test d ≡ true → RowStep d (change d))
    → committed ≡ record t { runs = committed.runs }
    → (update_one test change e committed.dispatches >>= λ dispatches.
        ok (record committed { dispatches = dispatches }))
      ≡ ok t'
    → Effect w 0 0 t t'
closed-Effect test change e t committed step only h =
    let (ds, updated, done) = >>=-eq-ok _ _ h in
    let steps : RowSteps committed.dispatches ds =
      update_one-Rows test change e committed.dispatches step updated in
    ok-subst (Effect _ 0 0 t) done (record {
      advances = Advances.go_on Advances.start (
          subst (λ (x : List Dispatch). RowSteps x ds) (ap (λ (x : Tables). x.dispatches) only)
            steps);
      same_workers = ap (λ (x : Tables). x.workers) only;
    })

-- The changes of the three methods that close a lease or a pending row.
pub close_row-RowStep :
    (d : Dispatch) (status : DispatchStatus) (hash : Option String) (at : Option ℕ)
    → is_open status ≡ false
    → RowStep d (record d { status = status; result_hash = hash; completed_at = at })
close_row-RowStep d status hash at closed = record {
  same_id = refl;
  still_leased = λ h. ground (arith, h, closed);
  still_open = λ h. ground (arith, h, closed);
  same_worker = λ w. refl;
  stays_within = λ h. h;
}

pub settle_lease-Effect :
    {w : String} (host : Host) (at : ℕ) (worker_id : String) (d : Dispatch) (owner : Ownership)
    (hash : String) (response : ExecutionResponse) (t : Tables) {t' : Tables}
    → settle_lease host at worker_id d owner hash response t ≡ ok t'
    → Effect w 0 0 t t'
unfolding settle_lease
settle_lease-Effect host at worker_id d owner hash response t h =
    let (s, _, h₁) = >>=-eq-ok _ _ h in
    let (_, _, h₂) = >>=-eq-ok _ _ h₁ in
    let (i, _, h₃) = >>=-eq-ok _ _ h₂ in
    let (task, _, h₄) = >>=-eq-ok _ _ h₃ in
    let (_, _, h₅) = >>=-eq-ok _ _ h₄ in
    let (_, _, h₆) = >>=-eq-ok _ _ h₅ in
    let (compiled, _, h₇) = >>=-eq-ok _ _ h₆ in
    let (applied, _, h₈) = >>=-eq-ok _ _ h₇ in
    let (updated, _, h₉) = >>=-eq-ok _ _ h₈ in
    let (committed, commit, rest) = >>=-eq-ok _ _ h₉ in
    closed-Effect (leased_id d.dispatch_id) (complete_row hash at) lease_lost t committed
      (λ r _. close_row-RowStep r DispatchStatus.completed (some hash) (some at) refl)
      (commit_update-only_runs t s updated commit) rest

pub complete-Effect :
    {w : String} (host : Host) (at : ℕ) (worker_id dispatch_id token : String)
    (response : ExecutionResponse) (t : Tables) {t' : Tables} {applied : Bool}
    → complete host at worker_id dispatch_id token response t ≡ ok (t', applied)
    → Effect w 0 0 t t'
unfolding complete complete_owned
complete-Effect {w = w} host at worker_id dispatch_id token response t h =
    let (hash, _, h₁) = >>=-eq-ok _ _ h in
    let (d, _, h₂) = >>=-eq-ok _ _ h₁ in
    let (_, _, h₃) = >>=-eq-ok _ _ h₂ in
    let (owner, _, h₄) = >>=-eq-ok _ _ h₃ in
    by_branch (is_completed d.status) _ _ h₄
      (λ done same.
        let (_, _, e) = >>=-eq-ok _ _ same in ok-subst (λ r. Effect w 0 0 t r.0) e (Effect-refl t))
      (λ open_still settled.
        let (_, _, k) = >>=-eq-ok _ _ settled in
        let (after, ended, e) = >>=-eq-ok _ _ k in
        ok-subst (λ r. Effect w 0 0 t r.0) e
          (settle_lease-Effect host at worker_id d owner hash response t ended))
