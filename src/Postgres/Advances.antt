-- ===== src/Postgres/Advances.antt =====
-- What the methods do to the table of dispatches: rows that go on, new pending rows, new leases.
pub mod Counts
pub mod Closings
pub mod Scans
pub mod Leases
pub mod Renewals
pub mod Methods
use ai_workload_platform.Common.{
  Bool-cases, ℕ, ◌+◌, ◌≤◌, ◌<◌, String, ◌≡◌, refl, inl, inr, Bool, true, Option, none, some, List,
  [], ◌∷◌, ◌++◌, arith,
}
use ai_workload_platform.Postgres.Claim.{lease_row, pending_id}
use ai_workload_platform.Postgres.Query.{find, count_where, update_where}
use ai_workload_platform.Postgres.Tables.{
  DispatchStatus, Ownership, Dispatch, is_leased, is_open, owned_by, has_id,
}

-- A lease ends no later than its attempt.
abbrev pub Within : Option Ownership → Type 0
Within none = Unit
Within (some owner) = owner.expires_at ≤ owner.deadline

abbrev pub AllWithin : List Dispatch → Type 0
AllWithin [] = Unit
AllWithin (d ∷ ds) = Within d.owner × AllWithin ds

-- The primary key of the table.
abbrev pub AllDistinct : List Dispatch → Type 0
AllDistinct [] = Unit
AllDistinct (d ∷ ds) = (find (has_id d.dispatch_id) ds ≡ none) × AllDistinct ds

-- A row that goes on: it is not opened or leased anew, and stays with its owner.
pub record RowStep (d d' : Dispatch) : Type 0 where
  pub same_id : d'.dispatch_id ≡ d.dispatch_id
  pub still_leased : is_leased d'.status ≡ true → is_leased d.status ≡ true
  pub still_open : is_open d'.status ≡ true → is_open d.status ≡ true
  pub same_worker : (w : String) → owned_by w d'.owner ≡ owned_by w d.owner
  pub stays_within : Within d.owner → Within d'.owner

pub data RowSteps : List Dispatch → List Dispatch → Type 0 where
  none_left : RowSteps [] []
  next :
      {d d' : Dispatch} {ds ds' : List Dispatch}
      → RowStep d d'
      → RowSteps ds ds'
      → RowSteps (d ∷ ds) (d' ∷ ds')

-- From `ds` in steps, with `n` leases at most granted to `worker_id` and `m` rows at most inserted.
pub data Advances (worker_id : String) (ds : List Dispatch) : ℕ → ℕ → List Dispatch → Type 0 where
  start : {n m : ℕ} → Advances worker_id ds n m ds
  go_on :
      {n m : ℕ} {mid ds' : List Dispatch}
      → Advances worker_id ds n m mid
      → RowSteps mid ds'
      → Advances worker_id ds n m ds'
  insert :
      {n m m' : ℕ} {mid : List Dispatch} (d : Dispatch)
      → Advances worker_id ds n m mid
      → m < m'
      → find (has_id d.dispatch_id) mid ≡ none
      → d.status ≡ DispatchStatus.pending
      → d.owner ≡ none
      → Advances worker_id ds n m' (mid ++ d ∷ [])
  lease :
      {n m n' : ℕ} {mid : List Dispatch} (id : String) (owner : Ownership)
      → Advances worker_id ds n m mid
      → n < n'
      → owner.worker_id ≡ worker_id
      → owner.expires_at ≤ owner.deadline
      → count_where (pending_id id) mid ≡ 1
      → Advances worker_id ds n' m (update_where (pending_id id) (lease_row owner) mid)

pub RowStep-refl : (d : Dispatch) → RowStep d d
RowStep-refl d = record {
  same_id = refl;
  still_leased = λ h. h;
  still_open = λ h. h;
  same_worker = λ w. refl;
  stays_within = λ h. h;
}

pub RowSteps-refl : (ds : List Dispatch) → RowSteps ds ds
RowSteps-refl [] = RowSteps.none_left
RowSteps-refl (d ∷ ds) = RowSteps.next (RowStep-refl d) (RowSteps-refl ds)

pub RowSteps-update_where :
    (test : Dispatch → Bool) (change : Dispatch → Dispatch) (ds : List Dispatch)
    → ((d : Dispatch) → test d ≡ true → RowStep d (change d))
    → RowSteps ds (update_where test change ds)
unfolding update_where
RowSteps-update_where test change [] step = RowSteps.none_left
RowSteps-update_where test change (d ∷ ds) step = elim (Bool-cases (test d)) [
  | inl yes_it ↦
      rw yes_it (RowSteps.next (step d yes_it) (RowSteps-update_where test change ds step))
  | inr not_it ↦
      rw not_it (RowSteps.next (RowStep-refl d) (RowSteps-update_where test change ds step))
]

pub Advances-more :
    {w : String} {before : List Dispatch} {n n' m m' : ℕ} {after : List Dispatch}
    → n ≤ n'
    → m ≤ m'
    → Advances w before n m after
    → Advances w before n' m' after
Advances-more h k Advances.start = Advances.start
Advances-more h k (Advances.go_on p rows) = Advances.go_on (Advances-more h k p) rows
Advances-more h k (Advances.insert {m = i} d p lt fresh pending unowned) =
    Advances.insert d (Advances-more {m' = i} h (omega arith) p) (omega arith) fresh pending unowned
Advances-more h k (Advances.lease {n = i} id owner p lt worker within one) =
    Advances.lease id owner (Advances-more {n' = i} (omega arith) k p) (omega arith) worker within
      one

-- Two stretches of the way.
pub Advances-trans :
    {w : String} {before between : List Dispatch} (n n' m m' : ℕ) {after : List Dispatch}
    → Advances w before n m between
    → Advances w between n' m' after
    → Advances w before (n + n') (m + m') after
Advances-trans n n' m m' p Advances.start = Advances-more (omega arith) (omega arith) p
Advances-trans n n' m m' p (Advances.go_on q rows) =
    Advances.go_on (Advances-trans n n' m m' p q) rows
Advances-trans n n' m m' p (Advances.insert {m = k} d q lt fresh pending unowned) =
    Advances.insert d (Advances-trans n n' m k p q) (omega arith) fresh pending unowned
Advances-trans n n' m m' p (Advances.lease {n = k} id owner q lt worker within one) =
    Advances.lease id owner (Advances-trans n k m m' p q) (omega arith) worker within one
