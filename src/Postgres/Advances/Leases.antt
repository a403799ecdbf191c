-- ===== src/Postgres/Advances/Leases.antt =====
-- Claims and heartbeats as steps on the table of dispatches (internal/postgres/dispatch_claim.go and
-- dispatch_heartbeat.go).
use ai_workload_platform.Common.{
  lez, length, database_failed, ok, >>=-eq-ok, or_fail-eq-ok, guard-eq-ok, ok-subst, ℕ, suc, ◌+◌,
  ◌≤◌, String, ◌≡◌, refl, sym, ap, subst, Bool, true, not, ◌&&◌, some, List, [], ◌∷◌, arith,
}
use ai_workload_platform.Distributed.Retry.{add_millis}
use ai_workload_platform.Postgres.Advances.{Advances}
use ai_workload_platform.Postgres.Advances.Methods.{
  Effect, Effect-refl, Effect-trans, Effect-more, commit_update-only_runs,
}
use ai_workload_platform.Postgres.Claim.{
  Lease, cap_expiry, lease_row, pending_id, claim_one, claim_all, is_claimable, by_creation,
  claim_candidates, may_claim, claim,
}
use ai_workload_platform.Postgres.Query.{
  count_where, update_one, select_where, order_by, length-limit_to,
}
use ai_workload_platform.Postgres.Tables.{
  WorkerStatus, Ownership, Dispatch, Session, Tables, Host, Options, find_worker, active_leases,
}

cap_expiry-le : (options : Options) (at deadline : ℕ) → cap_expiry options at deadline ≤ deadline
cap_expiry-le options at deadline = ground arith

leased_row-Effect :
    (w id : String) (owner : Ownership) (t : Tables) (ds : List Dispatch) (committed : Tables)
    → owner.worker_id ≡ w
    → owner.expires_at ≤ owner.deadline
    → update_one (pending_id id) (lease_row owner) database_failed t.dispatches ≡ ok ds
    → committed ≡ record t { dispatches = ds; runs = committed.runs }
    → Effect w 1 0 t committed
unfolding update_one
leased_row-Effect w id owner t ds committed worker within updated only =
    let (_, one, rows) = >>=-eq-ok _ _ updated in
    let counted : count_where (pending_id id) t.dispatches ≡ 1 =
      ground (arith, guard-eq-ok _ _ one) in
    let advanced : Advances w t.dispatches 1 0 ds = ok-subst (Advances w t.dispatches 1 0) rows (
      Advances.lease id owner (Advances.start {n = 0} {m = 0}) (omega arith) worker within
        counted) in
    record {
      advances =
          subst (Advances w t.dispatches 1 0) (sym (ap (λ (x : Tables). x.dispatches) only))
            advanced;
      same_workers = ap (λ (x : Tables). x.workers) only;
    }

claim_one-Effect :
    (host : Host) (options : Options) (at : ℕ) (w token : String) (d : Dispatch) (t : Tables)
    {r : Tables × Lease}
    → claim_one host options at w token d t ≡ ok r
    → Effect w 1 0 t r.0
unfolding claim_one
claim_one-Effect host options at w token d t h =
    let (s, _, h₁) = >>=-eq-ok _ _ h in
    let (i, _, h₂) = >>=-eq-ok _ _ h₁ in
    let (task, _, h₃) = >>=-eq-ok _ _ h₂ in
    let (_, _, h₄) = >>=-eq-ok _ _ h₃ in
    let (compiled, _, h₅) = >>=-eq-ok _ _ h₄ in
    let (started, _, h₆) = >>=-eq-ok _ _ h₅ in
    let (definition, _, h₇) = >>=-eq-ok _ _ h₆ in
    let (ds, leased, h₈) = >>=-eq-ok _ _ h₇ in
    let (committed, commit, e) = >>=-eq-ok _ _ h₈ in
    ok-subst (λ (x : Tables × Lease). Effect w 1 0 t x.0) e
      (leased_row-Effect w d.dispatch_id _ t ds committed refl
        (cap_expiry-le options at (add_millis at definition.timeout_millis)) leased
        (commit_update-only_runs (record t { dispatches = ds }) s started.0 commit))

claim_all-Effect :
    (host : Host) (options : Options) (at : ℕ) (w : String) (tokens : List String)
    (ds : List Dispatch) (t : Tables) {t' : Tables} {granted : List Lease}
    → claim_all host options at w tokens ds t ≡ ok (t', granted)
    → Effect w (length ds) 0 t t' × (length granted ≡ length ds)
unfolding claim_all
claim_all-Effect host options at w tokens [] t h =
    ok-subst (λ (x : Tables × List Lease). Effect w 0 0 t x.0 × (length x.1 ≡ 0)) h
      (Effect-refl t, refl)
claim_all-Effect host options at w [] (d ∷ ds) t h = cc
claim_all-Effect host options at w (token ∷ tokens) (d ∷ ds) t h =
    let (first, head, h₁) = >>=-eq-ok _ _ h in
    let (rest, tail_ok, e) = >>=-eq-ok _ _ h₁ in
    let (later, same) = claim_all-Effect host options at w tokens ds first.0 tail_ok in
    let steps : 1 + length ds ≡ suc (length ds) = omega arith in
    ok-subst
      (λ (x : Tables × List Lease).
        Effect w (suc (length ds)) 0 t x.0 × (length x.1 ≡ suc (length ds)))
      e
      (
        subst (λ (k : ℕ). Effect w k 0 t rest.0) steps
            (Effect-trans 1 (length ds) 0 0 (claim_one-Effect host options at w token d t head)
              later),
        ap suc same,
      )

-- A claim grants no more leases than there are slots, and the slots fit into what is free.
pub claim-Effect :
    (host : Host) (options : Options) (locked : Dispatch → Bool) (at : ℕ) (w : String) (slots : ℕ)
    (tokens : List String) (t : Tables) {t' : Tables} {granted : List Lease}
    → claim host options locked at w slots tokens t ≡ ok (t', granted)
    → (session : Session) × (find_worker t w ≡ some session)
      × (session.status ≡ WorkerStatus.active)
      × (lez (slots + active_leases t w) session.max_concurrency ≡ true)
      × Effect w slots 0 t t'
      × (length granted ≤ slots)
unfolding claim claim_candidates
claim-Effect host options locked at w slots tokens t h =
    let (_, _, h₁) = >>=-eq-ok _ _ h in
    let (session, found, h₂) = >>=-eq-ok _ _ h₁ in
    let (_, permitted, h₃) = >>=-eq-ok _ _ h₂ in
    let (_, room, h₄) = >>=-eq-ok _ _ h₃ in
    let (effect, same) = claim_all-Effect host options at w tokens _ t h₄ in
    let few = length-limit_to slots (
      order_by (by_creation host) (
        select_where (λ d. is_claimable t session.executor_kinds d && not (locked d))
          t.dispatches)) in
    (
      session,
      or_fail-eq-ok _ _ found,
      may_claim-active session.status permitted,
      guard-eq-ok _ _ room,
      Effect-more few (omega arith) effect,
      omega (arith, same, few),
    )
  where
    may_claim-active :
        (status : WorkerStatus) {u : Unit {0}}
        → may_claim status ≡ ok u
        → status ≡ WorkerStatus.active
    may_claim-active status e = ground (arith, e)
