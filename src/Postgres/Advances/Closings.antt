-- ===== src/Postgres/Advances/Closings.antt =====
-- The methods of internal/postgres/dispatch_recovery.go, and the clean-up of
-- internal/postgres/dispatch_schedule.go, as steps on the table of dispatches.
use ai_workload_platform.Common.{
  by_branch, length, database_failed, ok, >>=-eq-ok, ok-subst, ℕ, String, ◌≡◌, refl, ap, subst,
  Option, none, some, List, [], ◌∷◌,
}
use ai_workload_platform.Model.{RunSnapshot}
use ai_workload_platform.Postgres.Advances.{RowSteps, Advances, RowSteps-update_where}
use ai_workload_platform.Postgres.Advances.Methods.{
  Effect, Effect-refl, Effect-trans, commit_update-only_runs, closed-Effect, close_row-RowStep,
}
use ai_workload_platform.Postgres.Claim.{pending_id}
use ai_workload_platform.Postgres.Query.{update_where}
use ai_workload_platform.Postgres.Reap.{
  expire_row, settle_expired, reap_found, reap_all, open_in, cancel_row, revoke_dispatches,
  cancel_loaded, cancel_distributed_run,
}
use ai_workload_platform.Postgres.Report.{is_current, leased_id}
use ai_workload_platform.Postgres.Schedule.{
  cancel_pending_row, return_dispatch, return_found, return_all,
}
use ai_workload_platform.Postgres.Tables.{
  DispatchStatus, Ownership, Dispatch, Tables, Host, is_pending_dispatch, is_leased, find_dispatch,
}
use ai_workload_platform.State.{is_workflow_terminal}

settle_expired-Effect :
    {w : String} (host : Host) (at : ℕ) (d : Dispatch) (owner : Ownership) (t : Tables)
    {t' : Tables}
    → settle_expired host at d owner t ≡ ok t'
    → Effect w 0 0 t t'
unfolding settle_expired
settle_expired-Effect host at d owner t h =
    let (s, _, h₁) = >>=-eq-ok _ _ h in
    let (i, _, h₂) = >>=-eq-ok _ _ h₁ in
    let (compiled, _, h₃) = >>=-eq-ok _ _ h₂ in
    let (applied, _, h₄) = >>=-eq-ok _ _ h₃ in
    let (updated, _, h₅) = >>=-eq-ok _ _ h₄ in
    let (committed, commit, rest) = >>=-eq-ok _ _ h₅ in
    closed-Effect (leased_id d.dispatch_id) (expire_row at) database_failed t committed
      (λ r _. close_row-RowStep r DispatchStatus.expired r.result_hash (some at) refl)
      (commit_update-only_runs t s updated commit) rest

reap_found-Effect :
    {w : String} (host : Host) (at : ℕ) (found : Option Dispatch) (t : Tables) {t' : Tables}
    → reap_found host at found t ≡ ok t'
    → Effect w 0 0 t t'
unfolding reap_found
reap_found-Effect {w = w} host at none t h = ok-subst (Effect w 0 0 t) h (Effect-refl t)
reap_found-Effect {w = w} host at (some d) t h =
    by_branch (is_leased d.status) _ _ h
      (λ leased rest.
        let (owner, _, k) = >>=-eq-ok _ _ rest in
        by_branch (is_current at owner) _ _ k
          (λ current same. ok-subst (Effect w 0 0 t) same (Effect-refl t))
          (λ over settled. settle_expired-Effect host at d owner t settled))
      (λ closed same. ok-subst (Effect w 0 0 t) same (Effect-refl t))

pub reap_all-Effect :
    {w : String} (host : Host) (clock : ℕ → ℕ) (ds : List Dispatch) (t : Tables) {t' : Tables}
    → reap_all host clock ds t ≡ ok t'
    → Effect w 0 0 t t'
unfolding reap_all
reap_all-Effect {w = w} host clock [] t h = ok-subst (Effect w 0 0 t) h (Effect-refl t)
reap_all-Effect host clock (d ∷ ds) t h =
    let (next, first, rest) = >>=-eq-ok _ _ h in
    Effect-trans 0 0 0 0
      (reap_found-Effect host (clock (length ds)) (find_dispatch t d.dispatch_id) t first)
      (reap_all-Effect host clock ds next rest)

revoke_dispatches-Effect :
    {w : String} (at : ℕ) (id : String) (t committed : Tables)
    → committed ≡ record t { runs = committed.runs }
    → Effect w 0 0 t (revoke_dispatches at id committed)
unfolding revoke_dispatches
revoke_dispatches-Effect at id t committed only = record {
  advances = Advances.go_on Advances.start (
      subst
        (λ (x : List Dispatch).
          RowSteps x (update_where (open_in id) (cancel_row at) committed.dispatches))
        (ap (λ (x : Tables). x.dispatches) only)
        (RowSteps-update_where (open_in id) (cancel_row at) committed.dispatches
          (λ r _. close_row-RowStep r DispatchStatus.canceled r.result_hash (some at) refl)));
  same_workers = ap (λ (x : Tables). x.workers) only;
}

cancel_loaded-Effect :
    {w : String} (host : Host) (at : ℕ) (id : String) (s : RunSnapshot) (t : Tables) {t' : Tables}
    → cancel_loaded host at id s t ≡ ok t'
    → Effect w 0 0 t t'
unfolding cancel_loaded
cancel_loaded-Effect {w = w} host at id s t h =
    by_branch (is_workflow_terminal s.run.status) _ _ h
      (λ over same. ok-subst (Effect w 0 0 t) same (Effect-refl t))
      (λ open_still rest.
        let (_, _, h₁) = >>=-eq-ok _ _ rest in
        let (canceled, _, h₂) = >>=-eq-ok _ _ h₁ in
        let (committed, commit, e) = >>=-eq-ok _ _ h₂ in
        ok-subst (Effect w 0 0 t) e (
          revoke_dispatches-Effect at id t committed (commit_update-only_runs t s canceled commit)))

pub cancel_distributed_run-Effect :
    {w : String} (host : Host) (at : ℕ) (id : String) (t : Tables) {t' : Tables}
    → cancel_distributed_run host at id t ≡ ok t'
    → Effect w 0 0 t t'
unfolding cancel_distributed_run
cancel_distributed_run-Effect host at id t h =
    let (_, _, h₁) = >>=-eq-ok _ _ h in
    let (s, _, h₂) = >>=-eq-ok _ _ h₁ in cancel_loaded-Effect host at id s t h₂

return_dispatch-Effect :
    {w : String} (host : Host) (at : ℕ) (d : Dispatch) (t : Tables) {t' : Tables}
    → return_dispatch host at d t ≡ ok t'
    → Effect w 0 0 t t'
unfolding return_dispatch
return_dispatch-Effect host at d t h =
    let (s, _, h₁) = >>=-eq-ok _ _ h in
    let (i, _, h₂) = >>=-eq-ok _ _ h₁ in
    let (task, _, h₃) = >>=-eq-ok _ _ h₂ in
    let (_, _, h₄) = >>=-eq-ok _ _ h₃ in
    let (updated, _, h₅) = >>=-eq-ok _ _ h₄ in
    let (committed, commit, rest) = >>=-eq-ok _ _ h₅ in
    closed-Effect (pending_id d.dispatch_id) (cancel_pending_row at) database_failed t committed
      (λ r _. close_row-RowStep r DispatchStatus.canceled r.result_hash (some at) refl)
      (commit_update-only_runs t s updated commit) rest

return_found-Effect :
    {w : String} (host : Host) (at : ℕ) (found : Option Dispatch) (t : Tables) {t' : Tables}
    → return_found host at found t ≡ ok t'
    → Effect w 0 0 t t'
unfolding return_found
return_found-Effect {w = w} host at none t h = ok-subst (Effect w 0 0 t) h (Effect-refl t)
return_found-Effect {w = w} host at (some d) t h =
    by_branch (is_pending_dispatch d.status) _ _ h
      (λ pending rest. return_dispatch-Effect host at d t rest)
      (λ closed same. ok-subst (Effect w 0 0 t) same (Effect-refl t))

pub return_all-Effect :
    {w : String} (host : Host) (at : ℕ) (ds : List Dispatch) (t : Tables) {t' : Tables}
    → return_all host at ds t ≡ ok t'
    → Effect w 0 0 t t'
unfolding return_all
return_all-Effect {w = w} host at [] t h = ok-subst (Effect w 0 0 t) h (Effect-refl t)
return_all-Effect host at (d ∷ ds) t h =
    let (_, _, h₁) = >>=-eq-ok _ _ h in
    let (next, first, rest) = >>=-eq-ok _ _ h₁ in
    Effect-trans 0 0 0 0 (return_found-Effect host at (find_dispatch t d.dispatch_id) t first)
      (return_all-Effect host at ds next rest)
