-- ===== src/Postgres/Renewed.antt =====
-- Which leases a heartbeat renews, and until when (the loop of `Heartbeat` of
-- internal/postgres/dispatch_heartbeat.go).
use ai_workload_platform.Common.{
  by_branch, and_true, ok, >>=-eq-ok, or_fail-eq-ok, ok-eq-ok, ℕ, ◌<◌, String, ◌≡◌, refl, sym, ap,
  subst, ◌∙◌, ◌≢◌, Bool, true, false, not, ◌&&◌, Option, none, some, arith, eq_iff, str_eq,
}
use ai_workload_platform.Postgres.Claim.{cap_expiry}
use ai_workload_platform.Postgres.Heartbeat.{
  LeaseRef, LeaseHeartbeatStatus, LeaseHeartbeat, answer_ref, renew_row, renew, renew_owned,
  renew_found, renew_lease,
}
use ai_workload_platform.Postgres.Query.{find-update_where, find-test}
use ai_workload_platform.Postgres.Report.{is_current, leased_id}
use ai_workload_platform.Postgres.Tables.{
  DispatchStatus, Ownership, Dispatch, Tables, Host, Options, is_leased, has_id, find_dispatch,
  matches_token,
}

-- The lease that was proved, and the row after it was renewed.
abbrev pub RenewedFor :
    Host → Options → ℕ → String → LeaseRef → Dispatch → Ownership → Tables → Type 0
RenewedFor host options at w ref d owner t' =
    (d.owner ≡ some owner)
    × (owner.worker_id ≡ w)
    × (matches_token host ref.lease_token owner.token_hash ≡ true)
    × (d.status ≡ DispatchStatus.leased)
    × (at < owner.expires_at)
    × (at < owner.deadline)
    × (find_dispatch t' ref.dispatch_id ≡ some (renew_row (cap_expiry options at owner.deadline) d))

renewed_row :
    (options : Options) (at : ℕ) (ref : LeaseRef) (d : Dispatch) (owner : Ownership) (t : Tables)
    → find_dispatch t ref.dispatch_id ≡ some d
    → is_leased d.status ≡ true
    → find_dispatch (renew options at ref owner t).0 ref.dispatch_id
      ≡ some (renew_row (cap_expiry options at owner.deadline) d)
unfolding renew find_dispatch
renewed_row options at ref d owner t found leased =
    let expiry = cap_expiry options at owner.deadline in
    let named : has_id ref.dispatch_id d ≡ true =
      find-test (has_id ref.dispatch_id) t.dispatches found in
    let own : leased_id ref.dispatch_id d ≡ true = ground (arith, named, leased) in
    find-update_where (has_id ref.dispatch_id) (leased_id ref.dispatch_id) (renew_row expiry)
      t.dispatches (λ r _. refl) found
    ∙ ap some (rw own refl)

renew_owned-renewed :
    (host : Host) (options : Options) (at : ℕ) (w : String) (ref : LeaseRef) (d : Dispatch)
    (owner : Ownership) (t : Tables) {r : Tables × LeaseHeartbeat}
    → d.owner ≡ some owner
    → find_dispatch t ref.dispatch_id ≡ some d
    → renew_owned host options at w ref d.status owner t ≡ r
    → r.1.status ≡ LeaseHeartbeatStatus.renewed
    → RenewedFor host options at w ref d owner r.0
unfolding renew_owned
renew_owned-renewed host options at w ref d owner t owned found h renewed =
    let proof = str_eq owner.worker_id w && matches_token host ref.lease_token owner.token_hash in
    let current = is_leased d.status && is_current at owner in
    by_branch (not proof) _ _ h
      (λ _ e. absurd (not_renewed LeaseHeartbeatStatus.unknown t e renewed cc))
      (λ proved rest.
        by_branch (not current) _ _ rest
          (λ _ e. absurd (not_renewed LeaseHeartbeatStatus.revoked t e renewed cc))
          (λ running e.
            let both = and_true _ _ (proved_true proof proved) in
            let open_still = and_true _ _ (proved_true current running) in
            let times = open_still.1 in
            let leased = open_still.0 in
            (
              owned,
              (eq_iff owner.worker_id w).0 both.0,
              both.1,
              ground (arith, leased),
              ground (arith, times),
              ground (arith, times),
              subst
                  (λ (x : Tables × LeaseHeartbeat).
                    find_dispatch x.0 ref.dispatch_id
                    ≡ some (renew_row (cap_expiry options at owner.deadline) d))
                  e (renewed_row options at ref d owner t found leased),
            )))
  where
    proved_true : (b : Bool) → not b ≡ false → b ≡ true
    proved_true true h = refl
    proved_true false h = cc

    not_renewed :
        (status : LeaseHeartbeatStatus) (x : Tables) {y : Tables × LeaseHeartbeat}
        → (x, answer_ref ref status 0) ≡ y
        → y.1.status ≡ LeaseHeartbeatStatus.renewed
        → status ≢ LeaseHeartbeatStatus.renewed
        → ⊥
    not_renewed status x e is_renewed differ =
        differ (ap (λ (z : Tables × LeaseHeartbeat). z.1.status) e ∙ is_renewed)

-- A lease that is renewed is one that the worker owns and proves with its token, and neither it
-- nor its attempt is over. It then runs for the duration of a lease, or to the deadline of its
-- attempt where that is earlier.
pub renew_lease-renewed :
    (host : Host) (options : Options) (at : ℕ) (w : String) (ref : LeaseRef) (t t' : Tables)
    (answer : LeaseHeartbeat)
    → renew_lease host options at w ref t ≡ ok (t', answer)
    → answer.status ≡ LeaseHeartbeatStatus.renewed
    → (d : Dispatch) × (owner : Ownership) × (find_dispatch t ref.dispatch_id ≡ some d)
      × RenewedFor host options at w ref d owner t'
unfolding renew_lease renew_found
renew_lease-renewed host options at w ref t t' answer h renewed =
    by_lookup (find_dispatch t ref.dispatch_id) refl h
  where
    by_lookup :
        (o : Option Dispatch)
        → find_dispatch t ref.dispatch_id ≡ o
        → renew_found host options at w ref o t ≡ ok (t', answer)
        → (d : Dispatch) × (owner : Ownership) × (find_dispatch t ref.dispatch_id ≡ some d)
          × RenewedFor host options at w ref d owner t'
    by_lookup none missing k = cc
    by_lookup (some d) found k =
        let (owner, owned, e) = >>=-eq-ok _ _ k in
        (
          d,
          owner,
          found,
          renew_owned-renewed host options at w ref d owner t (or_fail-eq-ok _ _ owned) found
              (sym (ok-eq-ok e)) renewed,
        )
