-- ===== src/Postgres/Sound/Sessions.antt =====
-- What the methods of internal/postgres do to the capacity of workers: those on sessions, and the
-- scans, keep the invariant of the tables.
use ai_workload_platform.Common.{
  Bool-cases, by_branch, Result, ok, err, >>=-eq-ok, ok-subst, ℕ, zero, suc, ◌≤◌, String, ◌≡◌, refl,
  sym, ap, subst, inl, inr, Bool, List, [], ◌∷◌, ◌++◌, arith,
}
use ai_workload_platform.Postgres.Advances.{Advances}
use ai_workload_platform.Postgres.Advances.Closings.{reap_all-Effect}
use ai_workload_platform.Postgres.Advances.Renewals.{renew_leases-Effect}
use ai_workload_platform.Postgres.Advances.Scans.{create_dispatches-Effect}
use ai_workload_platform.Postgres.Dispatching.{create_dispatches}
use ai_workload_platform.Postgres.Heartbeat.{LeaseRef, LeaseHeartbeat, touch, heartbeat}
use ai_workload_platform.Postgres.Query.{find, update_where}
use ai_workload_platform.Postgres.Reap.{is_silent, go_offline, reap_expired}
use ai_workload_platform.Postgres.Sound.{
  slots_of, capacity_of, IsSound, steps-IsSound, Effect-IsSound,
}
use ai_workload_platform.Postgres.Tables.{
  Dispatch, Session, StoredRun, Tables, Host, Options, is_worker, find_worker, active_leases,
  digest_token,
}
use ai_workload_platform.Postgres.Workers.{
  RegisterRequest, new_session, is_free, worker_prefix, insert_session, register_worker, drain_row,
  drain_worker,
}

-- A session that goes on under its name with its capacity.
abbrev SameCapacity : Session → Session → Type 0
SameCapacity a b = (b.worker_id ≡ a.worker_id) × (b.max_concurrency ≡ a.max_concurrency)

slots_of-update_where :
    (x : String) (test : Session → Bool) (change : Session → Session) (rows : List Session)
    → ((s : Session) → SameCapacity s (change s))
    → slots_of (find (is_worker x) (update_where test change rows))
      ≡ slots_of (find (is_worker x) rows)
unfolding find update_where
slots_of-update_where x test change [] same = refl
slots_of-update_where x test change (s ∷ rows) same =
    let (named, sized) = same s in
    ground (arith, named, sized, slots_of-update_where x test change rows same)

slots_of-append :
    (x : String) (rows : List Session) (s : Session)
    → slots_of (find (is_worker x) rows) ≤ slots_of (find (is_worker x) (rows ++ s ∷ []))
unfolding find
slots_of-append x [] s = omega arith
slots_of-append x (r ∷ rows) s = elim (Bool-cases (is_worker x r)) [
  | inl mine ↦ rw mine (omega arith)
  | inr other ↦ rw other (slots_of-append x rows s)
]

insert_session-shape :
    (host : Host) (request : RegisterRequest) (at tries : ℕ) (tokens : List (String × String))
    (t : Tables) {r : Tables × Session × String}
    → insert_session host request at tries tokens t ≡ ok r
    → (s : Session) × (r.0 ≡ record t { workers = t.workers ++ s ∷ [] })
unfolding insert_session
insert_session-shape host request at zero tokens t h = cc
insert_session-shape host request at (suc tries) [] t h = cc
insert_session-shape host request at (suc tries) ((suffix, token) ∷ tokens) t {r} h =
    let session = new_session request (worker_prefix suffix) (digest_token host token) at in
    by_branch (is_free t session.worker_id session.token_hash) _ _ h
      (λ free made. (
        session,
        sym (
            ap (λ (x : Result Tables). result_or t x)
              (ap (λ (x : Result (Tables × Session × String)). first_of x) made)),
      ))
      (λ taken rest. insert_session-shape host request at tries tokens t rest)
  where
    first_of : Result (Tables × Session × String) → Result Tables
    first_of (ok x) = ok x.0
    first_of (err e) = err e

    result_or : Tables → Result Tables → Tables
    result_or t (ok x) = x
    result_or t (err e) = t

pub register_worker-IsSound :
    (host : Host) (request : RegisterRequest) (at : ℕ) (tokens : List (String × String))
    (t : Tables) {r : Tables × Session × String}
    → register_worker host request at tokens t ≡ ok r
    → IsSound t
    → IsSound r.0
unfolding register_worker capacity_of find_worker
register_worker-IsSound host request at tokens t {r} h sound =
    let (normalized, _, made) = >>=-eq-ok _ _ h in
    let (s, shape) = insert_session-shape host normalized at 3 tokens t made in
    subst IsSound (sym shape) (
      steps-IsSound {w = ""} {m = 0} t (record t { workers = t.workers ++ s ∷ [] }) Advances.start
        (λ x. slots_of-append x t.workers s) sound)

touched-IsSound :
    (test : Session → Bool) (change : Session → Session) (t : Tables)
    → ((s : Session) → SameCapacity s (change s))
    → IsSound t
    → IsSound (record t { workers = update_where test change t.workers })
unfolding capacity_of find_worker
touched-IsSound test change t same sound =
    steps-IsSound {w = ""} {m = 0} t (record t { workers = update_where test change t.workers })
      Advances.start (λ x. omega (arith, slots_of-update_where x test change t.workers same)) sound

pub heartbeat-IsSound :
    (host : Host) (options : Options) (at : ℕ) (w : String) (refs : List LeaseRef) (t : Tables)
    {r : Tables × List LeaseHeartbeat}
    → heartbeat host options at w refs t ≡ ok r
    → IsSound t
    → IsSound r.0
unfolding heartbeat
heartbeat-IsSound host options at w refs t {r} h sound =
    let (_, _, h₁) = >>=-eq-ok _ _ h in
    let (_, _, h₂) = >>=-eq-ok _ _ h₁ in
    let touched = touched-IsSound (is_worker w) (touch at) t (λ s. (refl, refl)) sound in
    Effect-IsSound {w = w} _ r.0 (renew_leases-Effect host options at w refs _ touched.distinct h₂)
      touched

pub reap_expired-IsSound :
    (host : Host) (options : Options) (locked : Dispatch → Bool) (at : ℕ) (clock : ℕ → ℕ)
    (limit : ℕ) (t : Tables) {r : Tables × ℕ}
    → reap_expired host options locked at clock limit t ≡ ok r
    → IsSound t
    → IsSound r.0
unfolding reap_expired
reap_expired-IsSound host options locked at clock limit t h sound =
    let (_, _, h₁) = >>=-eq-ok _ _ h in
    let (reaped, done, e) = >>=-eq-ok _ _ h₁ in
    let marked = touched-IsSound (is_silent options at) go_offline t (λ s. (refl, refl)) sound in
    ok-subst (λ (x : Tables × ℕ). IsSound x.0) e
      (Effect-IsSound {w = ""} _ reaped (reap_all-Effect host clock _ _ done) marked)

drain_row-SameCapacity : (leases at : ℕ) (s : Session) → SameCapacity s (drain_row leases at s)
drain_row-SameCapacity leases at s = ground arith

pub drain_worker-IsSound :
    (at : ℕ) (w : String) (t : Tables) {r : Tables × Session × ℕ}
    → drain_worker at w t ≡ ok r
    → IsSound t
    → IsSound r.0
unfolding drain_worker
drain_worker-IsSound at w t h sound =
    let (_, _, e) = >>=-eq-ok _ _ h in
    ok-subst (λ (x : Tables × Session × ℕ). IsSound x.0) e
      (touched-IsSound (is_worker w) (drain_row (active_leases t w) at) t
        (drain_row-SameCapacity (active_leases t w) at) sound)

pub create_dispatches-IsSound :
    (host : Host) (locked : StoredRun → Bool) (at limit : ℕ) (suffixes : List String) (t : Tables)
    {r : Tables × ℕ}
    → create_dispatches host locked at limit suffixes t ≡ ok r
    → IsSound t
    → IsSound r.0
create_dispatches-IsSound host locked at limit suffixes t {r} h sound =
    let (mid, cleaned, made, _) = create_dispatches-Effect "" host locked at limit suffixes t h in
    Effect-IsSound mid r.0 made (Effect-IsSound t mid cleaned sound)
