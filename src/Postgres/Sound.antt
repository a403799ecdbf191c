-- ===== src/Postgres/Sound.antt =====
-- The invariant of the tables that every method of internal/postgres keeps: identifiers of dispatches
-- are distinct, a lease ends by the deadline of its attempt, and no worker holds more leases than its
-- `max_concurrency`.
pub mod Sessions
pub mod Every
use ai_workload_platform.Common.{
  Bool-cases, ℤ, pos, negsuc, lez, ok, ℕ, ◌+◌, ◌≤◌, String, ◌≡◌, subst, inl, inr, Bool, true,
  Option, none, some, List, arith, eq_iff, str_eq,
}
use ai_workload_platform.Change.{ChangeSet}
use ai_workload_platform.Model.{WorkflowDefinition, ExecutionResponse, WorkflowRun, RunSnapshot}
use ai_workload_platform.Postgres.Advances.{AllWithin, AllDistinct, Advances}
use ai_workload_platform.Postgres.Advances.Counts.{
  Advances-AllDistinct, Advances-AllWithin, Advances-leases, Advances-leases_other,
}
use ai_workload_platform.Postgres.Advances.Leases.{claim-Effect}
use ai_workload_platform.Postgres.Advances.Methods.{Effect}
use ai_workload_platform.Postgres.Catalog.{create_definition, create_version}
use ai_workload_platform.Postgres.Changes.{apply_stored}
use ai_workload_platform.Postgres.Claim.{Lease, claim}
use ai_workload_platform.Postgres.Dispatching.{create_dispatches}
use ai_workload_platform.Postgres.Heartbeat.{LeaseRef, LeaseHeartbeat, heartbeat}
use ai_workload_platform.Postgres.NewRuns.{create_stored, start_run, request_stored_cancel}
use ai_workload_platform.Postgres.Query.{find, count_where}
use ai_workload_platform.Postgres.Reap.{reap_expired, cancel_distributed_run}
use ai_workload_platform.Postgres.Report.{complete}
use ai_workload_platform.Postgres.Tables.{
  Dispatch, Session, StoredRun, Tables, Host, Options, leased_to, is_worker, find_worker,
  active_leases,
}
use ai_workload_platform.Postgres.Workers.{RegisterRequest, register_worker, drain_worker}

abbrev pub slots_of : Option Session → ℕ
slots_of none = 0
slots_of (some session) = elim session.max_concurrency [ pos n ↦ n | negsuc n ↦ 0 ]

-- What a worker may hold; one that is not registered may hold nothing.
unfoldable pub capacity_of : Tables → String → ℕ
unfolding find_worker
capacity_of t w = slots_of (find_worker t w)

pub record IsSound (t : Tables) : Type 0 where
  pub distinct : AllDistinct t.dispatches
  pub within : AllWithin t.dispatches
  pub fits : (w : String) → active_leases t w ≤ capacity_of t w

-- One transaction of a method that commits.
pub data Method (host : Host) (options : Options) (t t' : Tables) : Type 0 where
  registers :
      (request : RegisterRequest) (at : ℕ) (tokens : List (String × String)) (session : Session)
      (token : String)
      → register_worker host request at tokens t ≡ ok (t', session, token)
      → Method host options t t'
  claims :
      (locked : Dispatch → Bool) (at : ℕ) (w : String) (slots : ℕ) (tokens : List String)
      (granted : List Lease)
      → claim host options locked at w slots tokens t ≡ ok (t', granted)
      → Method host options t t'
  beats :
      (at : ℕ) (w : String) (refs : List LeaseRef) (answers : List LeaseHeartbeat)
      → heartbeat host options at w refs t ≡ ok (t', answers)
      → Method host options t t'
  completes :
      (at : ℕ) (w id token : String) (response : ExecutionResponse) (applied : Bool)
      → complete host at w id token response t ≡ ok (t', applied)
      → Method host options t t'
  reaps :
      (locked : Dispatch → Bool) (at : ℕ) (clock : ℕ → ℕ) (limit n : ℕ)
      → reap_expired host options locked at clock limit t ≡ ok (t', n)
      → Method host options t t'
  cancels :
      (at : ℕ) (id : String)
      → cancel_distributed_run host at id t ≡ ok t'
      → Method host options t t'
  dispatches :
      (locked : StoredRun → Bool) (at limit : ℕ) (suffixes : List String) (n : ℕ)
      → create_dispatches host locked at limit suffixes t ≡ ok (t', n)
      → Method host options t t'
  drains :
      (at : ℕ) (w : String) (session : Session) (leases : ℕ)
      → drain_worker at w t ≡ ok (t', session, leases)
      → Method host options t t'
  starts :
      (s : RunSnapshot) (principal key request_hash : String) (answer : String × Bool)
      → start_run host s principal key request_hash t ≡ ok (t', answer)
      → Method host options t t'
  creates : (s : RunSnapshot) → create_stored host s t ≡ ok t' → Method host options t t'
  defines :
      (at : ℕ) (definition : WorkflowDefinition) (principal key request_hash : String)
      (answer : String × ℕ)
      → create_definition host at definition principal key request_hash t ≡ ok (t', answer)
      → Method host options t t'
  versions :
      (at : ℕ) (id : String) (definition : WorkflowDefinition) (principal key request_hash : String)
      (answer : String × ℕ)
      → create_version host at id definition principal key request_hash t ≡ ok (t', answer)
      → Method host options t t'
  applies : (change : ChangeSet) → apply_stored t change ≡ ok t' → Method host options t t'
  requests :
      (at : ℕ) (id : String) (run : WorkflowRun)
      → request_stored_cancel host at id t ≡ ok (t', run)
      → Method host options t t'

-- Dispatches that go on and workers whose capacity does not shrink.
pub steps-IsSound :
    {w : String} {m : ℕ} (t t' : Tables)
    → Advances w t.dispatches 0 m t'.dispatches
    → ((x : String) → capacity_of t x ≤ capacity_of t' x)
    → IsSound t
    → IsSound t'
unfolding active_leases
steps-IsSound {w = w} t t' advances grows sound = record {
  distinct = Advances-AllDistinct advances sound.distinct;
  within = Advances-AllWithin advances sound.within;
  fits = λ x. elim (Bool-cases (str_eq w x)) [
    | inl same ↦
        let e : w ≡ x = (eq_iff w x).0 same in
        let few : count_where (leased_to w) t'.dispatches
            ≤ count_where (leased_to w) t.dispatches + 0 =
          Advances-leases advances in
        subst (λ (y : String). count_where (leased_to y) t'.dispatches ≤ capacity_of t' y) e
          (omega (arith, few, sound.fits w, grows w))
    | inr other ↦ omega (arith, Advances-leases_other x other advances, sound.fits x, grows x)
  ];
}

pub Effect-IsSound :
    {w : String} {m : ℕ} (t t' : Tables) → Effect w 0 m t t' → IsSound t → IsSound t'
unfolding capacity_of find_worker
Effect-IsSound t t' effect sound =
    steps-IsSound t t' effect.advances (λ x. rw effect.same_workers (omega arith)) sound

pub room-le :
    (n : ℕ) (session : Session) → lez n session.max_concurrency ≡ true → n ≤ slots_of (some session)
room-le n session h = by_size session.max_concurrency h
  where
    by_size : (z : ℤ) → lez n z ≡ true → n ≤ elim z [ pos k ↦ k | negsuc k ↦ 0 ]
    by_size (pos k) e = ground (arith, e)
    by_size (negsuc k) e = cc

pub claim-IsSound :
    (host : Host) (options : Options) (locked : Dispatch → Bool) (at : ℕ) (w : String) (slots : ℕ)
    (tokens : List String) (t : Tables) {t' : Tables} {granted : List Lease}
    → claim host options locked at w slots tokens t ≡ ok (t', granted)
    → IsSound t
    → IsSound t'
unfolding active_leases capacity_of find_worker
claim-IsSound host options locked at w slots tokens t {t'} h sound =
    let (session, found, _, room, effect, _) =
      claim-Effect host options locked at w slots tokens t h in
    let fit : slots + count_where (leased_to w) t.dispatches
        ≤ slots_of (find (is_worker w) t.workers) =
      rw found (room-le _ session room) in
    record {
      distinct = Advances-AllDistinct effect.advances sound.distinct;
      within = Advances-AllWithin effect.advances sound.within;
      fits = λ x. elim (Bool-cases (str_eq w x)) [
        | inl same ↦
            let e : w ≡ x = (eq_iff w x).0 same in
            subst
              (λ (y : String).
                count_where (leased_to y) t'.dispatches ≤ slots_of (find (is_worker y) t'.workers))
              e (rw effect.same_workers (omega (arith, Advances-leases effect.advances, fit)))
        | inr other ↦
            rw effect.same_workers
              (omega (arith, Advances-leases_other x other effect.advances, sound.fits x))
      ];
    }
