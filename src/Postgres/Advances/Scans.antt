-- ===== src/Postgres/Advances/Scans.antt =====
-- A scan of internal/postgres/dispatch_schedule.go as steps on the table of dispatches.
use ai_workload_platform.Common.{
  leb, ◌==◌, by_branch, not-is_some, length, ok, >>=-eq-ok, guard-eq-ok, ok-subst, ℕ, ◌+◌, ◌-◌, ◌≤◌,
  ◌<◌, String, ◌≡◌, refl, sym, ap, subst, Bool, ◌||◌, Option, none, some, List, [], ◌∷◌, arith,
}
use ai_workload_platform.Model.{RunSnapshot}
use ai_workload_platform.Postgres.Advances.{Advances}
use ai_workload_platform.Postgres.Advances.Closings.{return_all-Effect}
use ai_workload_platform.Postgres.Advances.Methods.{
  Effect, Effect-refl, Effect-trans, Effect-more, commit_update-only_runs,
}
use ai_workload_platform.Postgres.Capacity.{capacity_at, load_executor_capacity}
use ai_workload_platform.Postgres.Dispatching.{
  new_dispatch, insert_dispatch, Scan, dispatch_task, dispatch_first, dispatch_all, open_dispatch,
  fill_slots, create_dispatches,
}
use ai_workload_platform.Postgres.Query.{find, count_where}
use ai_workload_platform.Postgres.Schedule.{
  first_due_retry, return_orphaned, promote_task, promote_all, promote_due_retries,
}
use ai_workload_platform.Postgres.Tables.{StoredRun, Tables, Host, has_id, find_dispatch}

pub runs-Effect :
    {w : String} {n m : ℕ} (t : Tables) {t' : Tables}
    → t' ≡ record t { runs = t'.runs }
    → Effect w n m t t'
runs-Effect {w = w} {n} {m} t {t'} only = record {
  advances =
      subst (Advances w t.dispatches n m) (sym (ap (λ (x : Tables). x.dispatches) only))
        Advances.start;
  same_workers = ap (λ (x : Tables). x.workers) only;
}

promote_task-Effect :
    {w : String} (host : Host) (at : ℕ) (s : RunSnapshot) (found : Option ℕ) (t : Tables)
    {t' : Tables}
    → promote_task host at s found t ≡ ok t'
    → Effect w 0 0 t t'
unfolding promote_task
promote_task-Effect {w = w} host at s none t h = ok-subst (Effect w 0 0 t) h (Effect-refl t)
promote_task-Effect host at s (some i) t h =
    let (task, _, h₁) = >>=-eq-ok _ _ h in
    let (number, _, h₂) = >>=-eq-ok _ _ h₁ in
    let (applied, _, h₃) = >>=-eq-ok _ _ h₂ in
    let (updated, _, commit) = >>=-eq-ok _ _ h₃ in
    runs-Effect t (commit_update-only_runs t s updated commit)

promote_all-Effect :
    {w : String} (host : Host) (at : ℕ) (runs : List StoredRun) (t : Tables) {t' : Tables}
    → promote_all host at runs t ≡ ok t'
    → Effect w 0 0 t t'
unfolding promote_all
promote_all-Effect {w = w} host at [] t h = ok-subst (Effect w 0 0 t) h (Effect-refl t)
promote_all-Effect host at (stored ∷ runs) t h =
    let (s, _, h₁) = >>=-eq-ok _ _ h in
    let (next, first, rest) = >>=-eq-ok _ _ h₁ in
    Effect-trans 0 0 0 0 (promote_task-Effect host at s (first_due_retry at 0 s.run.tasks) t first)
      (promote_all-Effect host at runs next rest)

insert_dispatch-Effect :
    {w : String} (dispatch_id run_id task_key kind : String) (at : ℕ) (t : Tables) {t' : Tables}
    → insert_dispatch (new_dispatch dispatch_id run_id task_key kind at) t ≡ ok t'
    → Effect w 0 1 t t'
unfolding insert_dispatch find_dispatch
insert_dispatch-Effect {w = w} dispatch_id run_id task_key kind at t h =
    let (_, free, h₁) = >>=-eq-ok _ _ h in
    let (_, _, e) = >>=-eq-ok _ _ h₁ in
    let fresh : find (has_id dispatch_id) t.dispatches ≡ none =
      not-is_some _ (guard-eq-ok _ _ free) in
    ok-subst (Effect w 0 1 t) e (record {
      advances =
          Advances.insert (new_dispatch dispatch_id run_id task_key kind at)
            (Advances.start {n = 0} {m = 0}) (omega arith) fresh refl refl;
      same_workers = refl;
    })

-- Each turn makes as many dispatches as it counts.
ScanEffect : String → Scan → Scan → Type 0
ScanEffect w a b = Effect w 0 (b.created - a.created) a.tables b.tables × (a.created ≤ b.created)

dispatch_task-Effect :
    (w : String) (host : Host) (at : ℕ) (suffix : String) (s : RunSnapshot) (i : ℕ) (scan : Scan)
    {scan' : Scan}
    → dispatch_task host at suffix s i scan ≡ ok scan'
    → ScanEffect w scan scan' × (scan'.created ≤ scan.created + 1)
unfolding dispatch_task ScanEffect
dispatch_task-Effect w host at suffix s i scan h =
    let (task, _, h₁) = >>=-eq-ok _ _ h in
    let (definition, _, h₂) = >>=-eq-ok _ _ h₁ in
    by_branch (capacity_at definition.executor scan.capacity == 0) _ _ h₂
      (λ full same.
        ok-subst
          (λ (x : Scan).
            (Effect w 0 (x.created - scan.created) scan.tables x.tables
              × (scan.created ≤ x.created))
            × (x.created ≤ scan.created + 1))
          same ((Effect-refl scan.tables, omega arith), omega arith))
      (λ free rest.
        let (inserted, put, h₃) = >>=-eq-ok _ _ rest in
        let (updated, _, h₄) = >>=-eq-ok _ _ h₃ in
        let (committed, commit, e) = >>=-eq-ok _ _ h₄ in
        let whole : Effect w 0 1 scan.tables committed =
          Effect-trans 0 0 1 0 (insert_dispatch-Effect _ _ _ _ at scan.tables put)
            (runs-Effect inserted (commit_update-only_runs inserted s updated commit)) in
        let one : scan.created + 1 - scan.created ≡ 1 = omega arith in
        ok-subst
          (λ (x : Scan).
            (Effect w 0 (x.created - scan.created) scan.tables x.tables
              × (scan.created ≤ x.created))
            × (x.created ≤ scan.created + 1))
          e ((rw one whole, omega arith), omega arith))

ScanEffect-trans :
    (w : String) (a b c : Scan) → ScanEffect w a b → ScanEffect w b c → ScanEffect w a c
unfolding ScanEffect
ScanEffect-trans w a b c p q =
    let steps : b.created - a.created + (c.created - b.created) ≡ c.created - a.created =
      omega (arith, p.1, q.1) in
    (
      subst (λ (k : ℕ). Effect w 0 k a.tables c.tables) steps
          (Effect-trans 0 0 (b.created - a.created) (c.created - b.created) p.0 q.0),
      omega (arith, p.1, q.1),
    )

ScanEffect-refl : (w : String) (a : Scan) → ScanEffect w a a
unfolding ScanEffect
ScanEffect-refl w a = (Effect-refl a.tables, omega arith)

dispatch_first-Effect :
    (w : String) (host : Host) (at : ℕ) (suffix : String) (s : RunSnapshot) (found : Option ℕ)
    (scan : Scan) {scan' : Scan}
    → dispatch_first host at suffix s found scan ≡ ok scan'
    → ScanEffect w scan scan' × (scan'.created ≤ scan.created + 1)
dispatch_first-Effect w host at suffix s none scan h =
    ok-subst (λ (x : Scan). ScanEffect w scan x × (x.created ≤ scan.created + 1)) h
      (ScanEffect-refl w scan, omega arith)
dispatch_first-Effect w host at suffix s (some i) scan h =
    dispatch_task-Effect w host at suffix s i scan h

dispatch_all-Effect :
    (w : String) (host : Host) (at available : ℕ) (suffixes : List String) (runs : List StoredRun)
    (scan : Scan) {scan' : Scan}
    → scan.created ≤ available
    → dispatch_all host at available suffixes runs scan ≡ ok scan'
    → ScanEffect w scan scan' × (scan'.created ≤ available)
unfolding dispatch_all
dispatch_all-Effect w host at available suffixes [] scan room h =
    ok-subst (λ (x : Scan). ScanEffect w scan x × (x.created ≤ available)) h
      (ScanEffect-refl w scan, room)
dispatch_all-Effect w host at available [] (stored ∷ runs) scan room h = cc
dispatch_all-Effect w host at available (suffix ∷ suffixes) (stored ∷ runs) scan room h =
    by_branch (leb available scan.created) _ _ h
      (λ full same.
        ok-subst (λ (x : Scan). ScanEffect w scan x × (x.created ≤ available)) same
          (ScanEffect-refl w scan, room))
      (λ free rest.
        let (s, _, h₁) = >>=-eq-ok _ _ rest in
        let (mid, turn, h₂) = >>=-eq-ok _ _ h₁ in
        let (first, one) = dispatch_first-Effect w host at suffix s _ scan turn in
        let below : scan.created < available = ground (arith, free) in
        let (later, bound) =
          dispatch_all-Effect w host at available suffixes runs mid (omega arith) h₂ in
        (ScanEffect-trans w scan mid _ first later, bound))

fill_slots-Effect :
    (w : String) (host : Host) (locked : StoredRun → Bool) (at available : ℕ)
    (suffixes : List String) (t : Tables) {t' : Tables} {n : ℕ}
    → fill_slots host locked at available suffixes t ≡ ok (t', n)
    → Effect w 0 n t t' × (n ≤ available)
unfolding fill_slots ScanEffect
fill_slots-Effect w host locked at available suffixes t h =
    by_branch (available == 0 || length (load_executor_capacity t) == 0) _ _ h
      (λ full same.
        ok-subst (λ (x : Tables × ℕ). Effect w 0 x.1 t x.0 × (x.1 ≤ available)) same
          (Effect-refl t, omega arith))
      (λ free rest.
        let (scan, turns, e) = >>=-eq-ok _ _ rest in
        let (effect, bound) =
          dispatch_all-Effect w host at available suffixes _ _ (omega arith) turns in
        ok-subst (λ (x : Tables × ℕ). Effect w 0 x.1 t x.0 × (x.1 ≤ available)) e
          (Effect-more (omega arith) (omega arith) effect.0, bound))

-- The number that is returned bounds the rows that are inserted, and keeps to the limit.
pub create_dispatches-Effect :
    (w : String) (host : Host) (locked : StoredRun → Bool) (at limit : ℕ) (suffixes : List String)
    (t : Tables) {t' : Tables} {n : ℕ}
    → create_dispatches host locked at limit suffixes t ≡ ok (t', n)
    → (mid : Tables) × Effect w 0 0 t mid
      × Effect w 0 n mid t'
      × (n ≤ limit - count_where open_dispatch mid.dispatches)
unfolding create_dispatches return_orphaned promote_due_retries
create_dispatches-Effect w host locked at limit suffixes t h =
    let (_, _, h₁) = >>=-eq-ok _ _ h in
    let (returned, back, h₂) = >>=-eq-ok _ _ h₁ in
    let (promoted, due, h₃) = >>=-eq-ok _ _ h₂ in
    let (made, bound) = fill_slots-Effect w host locked at _ suffixes promoted h₃ in
    (
      promoted,
      Effect-trans 0 0 0 0 (return_all-Effect host at _ t back)
          (promote_all-Effect host at _ returned due),
      made,
      bound,
    )
