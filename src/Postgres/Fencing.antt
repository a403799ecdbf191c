-- ===== src/Postgres/Fencing.antt =====
-- Who may report, claim and renew: leases as fences (internal/postgres/dispatch_complete.go,
-- dispatch_recovery.go and worker_repository.go).
use ai_workload_platform.Common.{
  Bool-cases, is_some, by_branch, and_true, lease_lost, ok, err, ◌>>=◌, >>=-eq-ok, or_fail-eq-ok,
  guard-eq-ok, ok-eq-ok, ℕ, ◌<◌, String, ◌≡◌, refl, sym, ap, subst, ◌∙◌, ◌⊎◌, inl, inr, Bool, true,
  false, ◌&&◌, Option, none, some, arith, eq_iff, str_eq,
}
use ai_workload_platform.Model.{ExecutionResponse, RunSnapshot}
use ai_workload_platform.Postgres.Accepted.{commit_update-find_run}
use ai_workload_platform.Postgres.Query.{
  count_where, update_where, count_where-update_where_none, find-count_where_zero,
}
use ai_workload_platform.Postgres.Reap.{
  open_in, cancel_row, revoke_dispatches, cancel_loaded, cancel_distributed_run,
}
use ai_workload_platform.Postgres.Report.{
  digest_worker_result, prove_owner, is_current, complete_owned, complete,
}
use ai_workload_platform.Postgres.Runs.{find_run, load_snapshot_rows}
use ai_workload_platform.Postgres.Tables.{
  DispatchStatus, Ownership, Dispatch, Tables, Host, is_leased, is_completed, is_open, has_id,
  find_dispatch, matches_token,
}
use ai_workload_platform.State.{is_workflow_terminal}

-- The row is completed, or it is leased and neither the lease nor the attempt is over.
abbrev pub MayReport : ℕ → Dispatch → Ownership → Type 0
MayReport at d owner =
    (d.status ≡ DispatchStatus.completed)
    ⊎ ((d.status ≡ DispatchStatus.leased) × (at < owner.expires_at) × (at < owner.deadline))

may_report :
    (at : ℕ) (d : Dispatch) (owner : Ownership)
    → (is_completed d.status ≡ true) ⊎ ((is_leased d.status && is_current at owner) ≡ true)
    → MayReport at d owner
may_report at d owner (inl done) = inl (ground (arith, done))
may_report at d owner (inr current) =
    inr (ground (arith, current), ground (arith, current), ground (arith, current))

-- A result is accepted only from the worker that owns the dispatch, with the token whose digest is
-- stored, and only while the lease and the attempt run or for a dispatch that is completed.
pub complete-fenced :
    (host : Host) (at : ℕ) (worker_id dispatch_id token : String) (response : ExecutionResponse)
    (t t' : Tables) (applied : Bool)
    → complete host at worker_id dispatch_id token response t ≡ ok (t', applied)
    → (d : Dispatch) × (owner : Ownership) × (find_dispatch t dispatch_id ≡ some d)
      × (d.owner ≡ some owner)
      × (owner.worker_id ≡ worker_id)
      × (matches_token host token owner.token_hash ≡ true)
      × MayReport at d owner
unfolding complete prove_owner complete_owned
complete-fenced host at worker_id dispatch_id token response t t' applied h =
    let (hash, _, h₁) = >>=-eq-ok _ _ h in
    let (d, found, h₂) = >>=-eq-ok _ _ h₁ in
    let (_, _, h₃) = >>=-eq-ok _ _ h₂ in
    let (owner, proved, h₄) = >>=-eq-ok _ _ h₃ in
    let (owner', owned, k) = >>=-eq-ok _ _ proved in
    let (_, shown, e) = >>=-eq-ok _ _ k in
    let same : owner ≡ owner' = ok-eq-ok e in
    let both = and_true _ _ (guard-eq-ok _ _ shown) in
    (
      d,
      owner,
      or_fail-eq-ok _ _ found,
      or_fail-eq-ok _ _ owned ∙ ap some (sym same),
      ap (λ (x : Ownership). x.worker_id) same ∙ (eq_iff owner'.worker_id worker_id).0 both.0,
      rw same both.1,
      may_report at d owner (
          by_branch (is_completed d.status) _ _ h₄ (λ done _. inl done)
            (λ open_still rest.
              let (_, current, _) = >>=-eq-ok _ _ rest in inr (guard-eq-ok _ _ current))),
    )

-- A report on a row that is neither leased nor completed is turned away.
closed-lease_lost :
    (host : Host) (at : ℕ) (worker_id dispatch_id token hash : String)
    (response : ExecutionResponse) (d : Dispatch) (t : Tables)
    → digest_worker_result host response ≡ ok hash
    → find_dispatch t dispatch_id ≡ some d
    → is_some (find_run t d.run_id) ≡ true
    → is_open d.status ≡ false
    → is_completed d.status ≡ false
    → complete host at worker_id dispatch_id token response t ≡ err lease_lost
unfolding complete complete_owned prove_owner ◌>>=◌
closed-lease_lost host at worker_id dispatch_id token hash response d t digested found there closed
      open_still =
    rw digested (rw found (rw there (by_owner d.owner refl)))
  where
    by_owner :
        (o : Option Ownership)
        → d.owner ≡ o
        → (prove_owner host worker_id token d >>= λ owner.
            complete_owned host at worker_id d owner hash response t)
          ≡ err lease_lost
    by_owner none e = rw e refl
    by_owner (some owner) e =
        let leased : is_leased d.status ≡ false = ground (arith, closed) in
        elim (Bool-cases
          (str_eq owner.worker_id worker_id && matches_token host token owner.token_hash)) [
            | inl shown ↦ rw e (rw shown (rw open_still (rw leased refl)))
            | inr stranger ↦ rw e (rw stranger refl)
          ]

revoked-find :
    (at : ℕ) (id dispatch_id : String) (t : Tables) {d : Dispatch}
    → find_dispatch (revoke_dispatches at id t) dispatch_id ≡ some d
    → d.run_id ≡ id
    → is_open d.status ≡ false
unfolding find_dispatch revoke_dispatches
revoked-find at id dispatch_id t {d} found same =
    let none_open : count_where (open_in id)
          (update_where (open_in id) (cancel_row at) t.dispatches)
        ≡ 0 =
      count_where-update_where_none (open_in id) (cancel_row at) t.dispatches (λ r. ground arith) in
    let out : open_in id d ≡ false =
      find-count_where_zero (has_id dispatch_id) (open_in id) _ none_open found in
    ground (arith, out, (eq_iff d.run_id id).1 same)

revoked-find_run :
    (at : ℕ) (id : String) (t : Tables)
    → is_some (find_run t id) ≡ true
    → is_some (find_run (revoke_dispatches at id t) id) ≡ true
unfolding revoke_dispatches find_run
revoked-find_run at id t there = there

-- The tables after the cancellation of a run that had not ended.
canceled-shape :
    (host : Host) (at : ℕ) (id : String) (s : RunSnapshot) (t : Tables) {t' : Tables}
    → load_snapshot_rows host t id ≡ ok s
    → is_workflow_terminal s.run.status ≡ false
    → cancel_distributed_run host at id t ≡ ok t'
    → (committed : Tables) × (t' ≡ revoke_dispatches at id committed)
      × (is_some (find_run committed id) ≡ true)
unfolding cancel_distributed_run cancel_loaded
canceled-shape host at id s t loaded unfinished h =
    let (_, there, h₁) = >>=-eq-ok _ _ h in
    let (s', loaded', h₂) = >>=-eq-ok _ _ h₁ in
    let same : s' ≡ s = ok-eq-ok (sym loaded ∙ loaded') in
    by_branch (is_workflow_terminal s'.run.status) _ _ h₂ (λ ended _. cc)
      (λ _ rest.
        let (_, _, k) = >>=-eq-ok _ _ rest in
        let (canceled, _, k₁) = >>=-eq-ok _ _ k in
        let (committed, commit, e) = >>=-eq-ok _ _ k₁ in
        (
          committed,
          ok-eq-ok e,
          commit_update-find_run t s' canceled id commit (guard-eq-ok _ _ there),
        ))

-- The cancellation of a run that has not ended leaves none of its dispatches pending or leased.
pub cancel_distributed_run-closes :
    (host : Host) (at : ℕ) (id : String) (s : RunSnapshot) (t t' : Tables)
    → load_snapshot_rows host t id ≡ ok s
    → is_workflow_terminal s.run.status ≡ false
    → cancel_distributed_run host at id t ≡ ok t'
    → count_where (open_in id) t'.dispatches ≡ 0
unfolding revoke_dispatches
cancel_distributed_run-closes host at id s t t' loaded unfinished h =
    let (committed, shape, _) = canceled-shape host at id s t loaded unfinished h in
    rw shape (
      count_where-update_where_none (open_in id) (cancel_row at) committed.dispatches
        (λ r. ground arith))

-- After the cancellation of a run that had not ended, every valid report on one of its dispatches
-- is turned away with a lost lease, whoever sends it, unless the dispatch was completed before.
pub complete-cancel_distributed_run :
    (host : Host) (at at' : ℕ) (id worker_id dispatch_id token hash : String) (s : RunSnapshot)
    (response : ExecutionResponse) (d : Dispatch) (t t' : Tables)
    → load_snapshot_rows host t id ≡ ok s
    → is_workflow_terminal s.run.status ≡ false
    → cancel_distributed_run host at id t ≡ ok t'
    → find_dispatch t' dispatch_id ≡ some d
    → d.run_id ≡ id
    → is_completed d.status ≡ false
    → digest_worker_result host response ≡ ok hash
    → complete host at' worker_id dispatch_id token response t' ≡ err lease_lost
complete-cancel_distributed_run host at at' id worker_id dispatch_id token hash s response d t t'
      loaded unfinished h found mine unanswered digested =
    let (committed, shape, there) = canceled-shape host at id s t loaded unfinished h in
    let closed =
      revoked-find at id dispatch_id committed
        (subst (λ (x : Tables). find_dispatch x dispatch_id ≡ some d) shape found) mine in
    let there' : is_some (find_run t' d.run_id) ≡ true =
      subst (λ (x : String). is_some (find_run t' x) ≡ true) (sym mine)
        (subst (λ (x : Tables). is_some (find_run x id) ≡ true) (sym shape)
          (revoked-find_run at id committed there)) in
    closed-lease_lost host at' worker_id dispatch_id token hash response d t' digested found there'
      closed unanswered
