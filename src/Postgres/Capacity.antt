-- ===== src/Postgres/Capacity.antt =====
-- What the workers have free for each kind of executor (`loadExecutorCapacity` of
-- internal/postgres/dispatch_schedule.go). Go's map is an association list.
use ai_workload_platform.Common.{
  if◌then◌else◌, ℤ, pos, negsuc, ℕ, ◌+◌, ◌-◌, String, Bool, not, ◌&&◌, List, [], ◌∷◌, str_eq,
}
use ai_workload_platform.Postgres.Query.{count_where}
use ai_workload_platform.Postgres.Tables.{
  Dispatch, Session, Tables, is_pending_dispatch, is_active_worker, active_leases,
}
use ai_workload_platform.Postgres.Workers.{contains_text}

abbrev pub capacity_at : String → List (String × ℕ) → ℕ
capacity_at kind [] = 0
capacity_at kind ((other, n) ∷ rest) = if str_eq other kind then n else capacity_at kind rest

-- `capacity[kind] = f(capacity[kind])`, where a missing key reads as 0.
unfoldable pub change_capacity : (ℕ → ℕ) → String → List (String × ℕ) → List (String × ℕ)
change_capacity f kind [] = (kind, f 0) ∷ []
change_capacity f kind ((other, n) ∷ rest) =
    let later = change_capacity f kind rest in
    if str_eq other kind then (other, f n) ∷ rest else (other, n) ∷ later

-- `max_concurrency - count`, cut off at 0.
abbrev pub free_slots : ℤ → ℕ → ℕ
free_slots (pos most) leases = most - leases
free_slots (negsuc n) leases = 0

abbrev grow : ℕ → ℕ → ℕ
grow free n = n + free

unfoldable pub add_kinds : ℕ → List String → List (String × ℕ) → List (String × ℕ)
unfolding change_capacity
add_kinds free [] capacity = capacity
add_kinds free (kind ∷ kinds) capacity =
    add_kinds free kinds (change_capacity (grow free) kind capacity)

-- The first loop: what the active workers have free.
unfoldable pub add_workers : Tables → List Session → List (String × ℕ) → List (String × ℕ)
unfolding add_kinds active_leases
add_workers t [] capacity = capacity
add_workers t (session ∷ rest) capacity = add_workers t rest (
    if is_active_worker session.status
    then add_kinds (free_slots session.max_concurrency (active_leases t session.worker_id))
        session.executor_kinds capacity
    else capacity)

abbrev pub pending_of : String → Dispatch → Bool
pending_of kind d = is_pending_dispatch d.status && str_eq d.executor_kind kind

-- `GROUP BY executor_kind`: each kind of a pending dispatch once.
unfoldable pub pending_kinds : List String → List Dispatch → List String
pending_kinds seen [] = []
pending_kinds seen (d ∷ ds) =
    let rest = pending_kinds seen ds in
    let later = pending_kinds (d.executor_kind ∷ seen) ds in
    if is_pending_dispatch d.status && not (contains_text d.executor_kind seen)
    then d.executor_kind ∷ later
    else rest

abbrev shrink : ℕ → ℕ → ℕ
shrink taken n = n - taken

-- The second loop: the pending dispatches will take slots, down to 0.
unfoldable pub take_pending : List Dispatch → List String → List (String × ℕ) → List (String × ℕ)
unfolding change_capacity count_where
take_pending dispatches [] capacity = capacity
take_pending dispatches (kind ∷ kinds) capacity =
    take_pending dispatches kinds
      (change_capacity (shrink (count_where (pending_of kind) dispatches)) kind capacity)

unfoldable pub load_executor_capacity : Tables → List (String × ℕ)
unfolding add_workers take_pending pending_kinds
load_executor_capacity t =
    take_pending t.dispatches (pending_kinds [] t.dispatches) (add_workers t t.workers [])
