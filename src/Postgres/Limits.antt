-- ===== src/Postgres/Limits.antt =====
-- The bound on open dispatches (`CreateDispatches` of internal/postgres/dispatch_schedule.go), and
-- the bound on a claim (`Claim` of internal/postgres/dispatch_claim.go).
use ai_workload_platform.Common.{
  leb, Bool-cases, length, ok, ℕ, ◌+◌, ◌≤◌, String, ◌≡◌, ◌⊎◌, inl, inr, Bool, false, some, List,
  arith, str_eq,
}
use ai_workload_platform.Postgres.Advances.Counts.{
  Advances-leases, Advances-leases_other, Advances-open,
}
use ai_workload_platform.Postgres.Advances.Leases.{claim-Effect}
use ai_workload_platform.Postgres.Advances.Scans.{create_dispatches-Effect}
use ai_workload_platform.Postgres.Claim.{Lease, claim}
use ai_workload_platform.Postgres.Dispatching.{open_dispatch, create_dispatches}
use ai_workload_platform.Postgres.Query.{count_where}
use ai_workload_platform.Postgres.Sound.{slots_of, capacity_of, room-le}
use ai_workload_platform.Postgres.Tables.{
  WorkerStatus, Dispatch, Session, StoredRun, Tables, Host, Options, leased_to, find_worker,
  active_leases,
}

-- A scan makes no more dispatches than its limit. After it there are no more pending and leased
-- dispatches than the limit, or no more than before where the limit was already passed.
pub create_dispatches-limit :
    (host : Host) (locked : StoredRun → Bool) (at limit n : ℕ) (suffixes : List String)
    (t t' : Tables)
    → create_dispatches host locked at limit suffixes t ≡ ok (t', n)
    → (n ≤ limit)
      × ((count_where open_dispatch t'.dispatches ≤ limit)
          ⊎ (count_where open_dispatch t'.dispatches ≤ count_where open_dispatch t.dispatches))
create_dispatches-limit host locked at limit n suffixes t t' h =
    let (mid, cleaned, made, bound) =
      create_dispatches-Effect "" host locked at limit suffixes t h in
    let fewer : count_where open_dispatch mid.dispatches
        ≤ count_where open_dispatch t.dispatches + 0 =
      Advances-open cleaned.advances in
    let more : count_where open_dispatch t'.dispatches
        ≤ count_where open_dispatch mid.dispatches + n =
      Advances-open made.advances in
    (
      omega arith,
      elim (Bool-cases (leb (count_where open_dispatch mid.dispatches) limit)) [
        | inl room ↦ inl (ground (arith, bound, more, room))
        | inr full ↦ inr (ground (arith, bound, more, fewer, full))
      ],
    )

-- A claim that succeeds is one of a stored session that is active. It grants at most `slots` leases,
-- the worker's leases grow by `slots` at most, and it then holds at most its capacity; no other
-- worker holds more leases than before.
pub claim-limit :
    (host : Host) (options : Options) (locked : Dispatch → Bool) (at : ℕ) (w other : String)
    (slots : ℕ) (tokens : List String) (t t' : Tables) (granted : List Lease)
    → claim host options locked at w slots tokens t ≡ ok (t', granted)
    → str_eq w other ≡ false
    → (session : Session) × (find_worker t w ≡ some session)
      × (session.status ≡ WorkerStatus.active)
      × (length granted ≤ slots)
      × (active_leases t' w ≤ active_leases t w + slots)
      × (active_leases t' w ≤ capacity_of t w)
      × (active_leases t' other ≤ active_leases t other)
unfolding active_leases capacity_of find_worker
claim-limit host options locked at w other slots tokens t t' granted h distinct =
    let (session, found, active, room, effect, few) =
      claim-Effect host options locked at w slots tokens t h in
    let size : slots + count_where (leased_to w) t.dispatches ≤ slots_of (some session) =
      room-le _ session room in
    let grown : count_where (leased_to w) t'.dispatches
        ≤ count_where (leased_to w) t.dispatches + slots =
      Advances-leases effect.advances in
    (
      session,
      found,
      active,
      few,
      grown,
      rw found (omega (arith, size, grown)),
      Advances-leases_other other distinct effect.advances,
    )
