-- ===== src/Postgres/Advances/Renewals.antt =====
-- A heartbeat as steps on the table of dispatches (internal/postgres/dispatch_heartbeat.go): the
-- row that was read is the only one with its key, so the renewal reaches no other.
use ai_workload_platform.Common.{
  Bool-cases, by_branch, ok, >>=-eq-ok, or_fail-eq-ok, ok-subst, ℕ, ◌≤◌, String, ◌≡◌, refl, sym,
  subst, inl, inr, Bool, true, false, not, ◌&&◌, Option, none, some, List, [], ◌∷◌, arith, eq_iff,
  str_eq,
}
use ai_workload_platform.Postgres.Advances.{
  AllDistinct, RowStep, RowSteps, Advances, RowStep-refl, RowSteps-refl,
}
use ai_workload_platform.Postgres.Advances.Counts.{Advances-AllDistinct}
use ai_workload_platform.Postgres.Advances.Methods.{Effect, Effect-refl, Effect-trans}
use ai_workload_platform.Postgres.Claim.{cap_expiry}
use ai_workload_platform.Postgres.Heartbeat.{
  LeaseRef, LeaseHeartbeat, renew_row, renew, renew_owned, renew_found, renew_lease, renew_leases,
}
use ai_workload_platform.Postgres.Query.{find, update_where, find-test}
use ai_workload_platform.Postgres.Report.{is_current, leased_id}
use ai_workload_platform.Postgres.Tables.{
  Ownership, Dispatch, Tables, Host, Options, is_leased, has_id, find_dispatch, matches_token,
}

-- A row with another key is not touched.
update_where-other :
    (key test : Dispatch → Bool) (change : Dispatch → Dispatch) (ds : List Dispatch)
    → ((d : Dispatch) → test d ≡ true → key d ≡ true)
    → find key ds ≡ none
    → update_where test change ds ≡ ds
unfolding find update_where
update_where-other key test change [] within missing = refl
update_where-other key test change (d ∷ ds) within missing =
    ground (arith, within d, update_where-other key test change ds within)

find-id :
    (id : String) (ds : List Dispatch) {d : Dispatch}
    → find (has_id id) ds ≡ some d
    → d.dispatch_id ≡ id
find-id id ds {d} found = (eq_iff d.dispatch_id id).0 (find-test (has_id id) ds found)

find-cons :
    {A : Type 0} (key : A → Bool) (d : A) (ds : List A) {e : A}
    → find key (d ∷ ds) ≡ some e
    → (key d ≡ false → find key ds ≡ some e) × (key d ≡ true → d ≡ e)
unfolding find
find-cons key d ds found =
    (λ other. ground (arith, found, other), λ same. ground (arith, found, same))

-- Only the row that is found under the key goes through the change.
pub update_found-RowSteps :
    (id : String) (test : Dispatch → Bool) (change : Dispatch → Dispatch) (ds : List Dispatch)
    {d : Dispatch}
    → ((r : Dispatch) → test r ≡ true → has_id id r ≡ true)
    → AllDistinct ds
    → find (has_id id) ds ≡ some d
    → RowStep d (change d)
    → RowSteps ds (update_where test change ds)
unfolding update_where
update_found-RowSteps id test change [] within distinct found step = RowSteps.none_left
update_found-RowSteps id test change (e ∷ ds) {d} within distinct found step =
    let (later, here) = find-cons (has_id id) e ds found in
    elim (Bool-cases (has_id id e)) [
      | inl mine ↦
          let same : e ≡ d = here mine in
          let named : e.dispatch_id ≡ id = (eq_iff e.dispatch_id id).0 mine in
          let missing : find (has_id id) ds ≡ none =
            subst (λ (x : String). find (has_id x) ds ≡ none) named distinct.0 in
          let rest : RowSteps ds (update_where test change ds) =
            rw (update_where-other (has_id id) test change ds within missing) (RowSteps-refl ds) in
          let first : RowStep e (change e) =
            subst (λ (x : Dispatch). RowStep x (change x)) (sym same) step in
          elim (Bool-cases (test e)) [
            | inl touched ↦ rw touched (RowSteps.next first rest)
            | inr left ↦ rw left (RowSteps.next (RowStep-refl e) rest)
          ]
      | inr other ↦
          let rest = update_found-RowSteps id test change ds within distinct.1 (later other) step in
          elim (Bool-cases (test e)) [
            | inl touched ↦ cc (within e touched)
            | inr left ↦ rw left (RowSteps.next (RowStep-refl e) rest)
          ]
    ]

renew_row-RowStep :
    (expiry : ℕ) (d : Dispatch) (owner : Ownership)
    → d.owner ≡ some owner
    → expiry ≤ owner.deadline
    → RowStep d (renew_row expiry d)
renew_row-RowStep expiry d owner owned within = record {
  same_id = refl;
  still_leased = λ h. h;
  still_open = λ h. h;
  same_worker = λ w. rw owned refl;
  stays_within = λ h. rw owned within;
}

renew-Effect :
    {w : String} (options : Options) (at : ℕ) (ref : LeaseRef) (d : Dispatch) (owner : Ownership)
    (t : Tables)
    → AllDistinct t.dispatches
    → find_dispatch t ref.dispatch_id ≡ some d
    → d.owner ≡ some owner
    → Effect w 0 0 t (renew options at ref owner t).0
unfolding renew find_dispatch
renew-Effect options at ref d owner t distinct found owned = record {
  advances = Advances.go_on Advances.start (
      update_found-RowSteps ref.dispatch_id (leased_id ref.dispatch_id)
        (renew_row (cap_expiry options at owner.deadline)) t.dispatches
        (λ r touched. ground (arith, touched)) distinct found
        (renew_row-RowStep (cap_expiry options at owner.deadline) d owner owned (ground arith)));
  same_workers = refl;
}

renew_owned-Effect :
    {w : String} (host : Host) (options : Options) (at : ℕ) (worker_id : String) (ref : LeaseRef)
    (d : Dispatch) (owner : Ownership) (t : Tables)
    → AllDistinct t.dispatches
    → find_dispatch t ref.dispatch_id ≡ some d
    → d.owner ≡ some owner
    → Effect w 0 0 t (renew_owned host options at worker_id ref d.status owner t).0
unfolding renew_owned
renew_owned-Effect {w = w} host options at worker_id ref d owner t distinct found owned =
    by_branch
      (not
        (str_eq owner.worker_id worker_id && matches_token host ref.lease_token owner.token_hash))
      _ _ refl
      (λ stranger same.
        subst (λ (x : Tables × LeaseHeartbeat). Effect w 0 0 t x.0) same (Effect-refl t))
      (λ proved rest.
        by_branch (not (is_leased d.status && is_current at owner)) _ _ rest
          (λ over same.
            subst (λ (x : Tables × LeaseHeartbeat). Effect w 0 0 t x.0) same (Effect-refl t))
          (λ current same.
            subst (λ (x : Tables × LeaseHeartbeat). Effect w 0 0 t x.0) same
              (renew-Effect options at ref d owner t distinct found owned)))

renew_found-Effect :
    {w : String} (host : Host) (options : Options) (at : ℕ) (worker_id : String) (ref : LeaseRef)
    (o : Option Dispatch) (t : Tables) {r : Tables × LeaseHeartbeat}
    → AllDistinct t.dispatches
    → find_dispatch t ref.dispatch_id ≡ o
    → renew_found host options at worker_id ref o t ≡ ok r
    → Effect w 0 0 t r.0
unfolding renew_found
renew_found-Effect {w = w} host options at worker_id ref none t distinct found h =
    ok-subst (λ (x : Tables × LeaseHeartbeat). Effect w 0 0 t x.0) h (Effect-refl t)
renew_found-Effect {w = w} host options at worker_id ref (some d) t distinct found h =
    let (owner, owned, e) = >>=-eq-ok _ _ h in
    ok-subst (λ (x : Tables × LeaseHeartbeat). Effect w 0 0 t x.0) e
      (renew_owned-Effect host options at worker_id ref d owner t distinct found
        (or_fail-eq-ok _ _ owned))

pub renew_leases-Effect :
    {w : String} (host : Host) (options : Options) (at : ℕ) (worker_id : String)
    (refs : List LeaseRef) (t : Tables) {r : Tables × List LeaseHeartbeat}
    → AllDistinct t.dispatches
    → renew_leases host options at worker_id refs t ≡ ok r
    → Effect w 0 0 t r.0
unfolding renew_leases renew_lease
renew_leases-Effect {w = w} host options at worker_id [] t distinct h =
    ok-subst (λ (x : Tables × List LeaseHeartbeat). Effect w 0 0 t x.0) h (Effect-refl t)
renew_leases-Effect {w = w} host options at worker_id (ref ∷ refs) t distinct h =
    let (first, head, h₁) = >>=-eq-ok _ _ h in
    let (rest, later, e) = >>=-eq-ok _ _ h₁ in
    let one : Effect w 0 0 t first.0 =
      renew_found-Effect host options at worker_id ref (find_dispatch t ref.dispatch_id) t distinct
        refl head in
    ok-subst (λ (x : Tables × List LeaseHeartbeat). Effect w 0 0 t x.0) e
      (Effect-trans 0 0 0 0 one (
        renew_leases-Effect host options at worker_id refs first.0
          (Advances-AllDistinct one.advances distinct) later))
