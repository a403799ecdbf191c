-- ===== src/Postgres/Advances/Counts.antt =====
-- What the steps on the table of dispatches keep, and how many leases and open rows they add.
use ai_workload_platform.Common.{
  if◌then◌else◌, Bool-cases, ℕ, ◌+◌, ◌≤◌, String, ◌≡◌, refl, sym, subst, inl, inr, Bool, true,
  false, none, List, [], ◌∷◌, ◌++◌, arith, eq_iff, str_eq,
}
use ai_workload_platform.Postgres.Advances.{Within, AllWithin, AllDistinct, RowSteps, Advances}
use ai_workload_platform.Postgres.Claim.{lease_row, pending_id}
use ai_workload_platform.Postgres.Dispatching.{open_dispatch}
use ai_workload_platform.Postgres.Query.{
  find, count_where, update_where, find-update_where-none, count_where-update_where,
  count_where-update_where_le, count_where-update_where_add,
}
use ai_workload_platform.Postgres.Tables.{Ownership, Dispatch, leased_to, has_id}

RowSteps-find :
    (id : String) {ds ds' : List Dispatch}
    → RowSteps ds ds'
    → find (has_id id) ds ≡ none
    → find (has_id id) ds' ≡ none
unfolding find
RowSteps-find id RowSteps.none_left missing = refl
RowSteps-find id (RowSteps.next {d} {d'} {ds} {ds'} step rows) missing =
    ground (arith, step.same_id, RowSteps-find id rows)

RowSteps-AllDistinct : {ds ds' : List Dispatch} → RowSteps ds ds' → AllDistinct ds → AllDistinct ds'
RowSteps-AllDistinct RowSteps.none_left h = tt
RowSteps-AllDistinct (RowSteps.next {d} {d'} {ds} {ds'} step rows) h =
    (rw step.same_id (RowSteps-find d.dispatch_id rows h.0), RowSteps-AllDistinct rows h.1)

RowSteps-AllWithin : {ds ds' : List Dispatch} → RowSteps ds ds' → AllWithin ds → AllWithin ds'
RowSteps-AllWithin RowSteps.none_left h = tt
RowSteps-AllWithin (RowSteps.next step rows) h =
    (step.stays_within h.0, RowSteps-AllWithin rows h.1)

RowSteps-leases :
    (w : String) {ds ds' : List Dispatch}
    → RowSteps ds ds'
    → count_where (leased_to w) ds' ≤ count_where (leased_to w) ds
unfolding count_where
RowSteps-leases w RowSteps.none_left = omega arith
RowSteps-leases w (RowSteps.next step rows) =
    ground (arith, step.still_leased, step.same_worker w, RowSteps-leases w rows)

RowSteps-open :
    {ds ds' : List Dispatch}
    → RowSteps ds ds'
    → count_where open_dispatch ds' ≤ count_where open_dispatch ds
unfolding count_where
RowSteps-open RowSteps.none_left = omega arith
RowSteps-open (RowSteps.next step rows) = ground (arith, step.still_open, RowSteps-open rows)

find-append-none :
    (id : String) (ds : List Dispatch) (d : Dispatch)
    → find (has_id id) ds ≡ none
    → has_id id d ≡ false
    → find (has_id id) (ds ++ d ∷ []) ≡ none
unfolding find
find-append-none id [] d h k = rw k
find-append-none id (e ∷ ds) d h k = ground (arith, find-append-none id ds d, k)

find-none-cons :
    (id : String) (d : Dispatch) (ds : List Dispatch)
    → find (has_id id) (d ∷ ds) ≡ none
    → (has_id id d ≡ false) × (find (has_id id) ds ≡ none)
unfolding find
find-none-cons id d ds h = ground (arith, h)

str_eq_flip : (s t : String) → str_eq s t ≡ false → str_eq t s ≡ false
str_eq_flip s t h = elim (Bool-cases (str_eq t s)) [
  | inl same ↦ let e : t ≡ s = (eq_iff t s).0 same in cc ((eq_iff s t).1 (sym e))
  | inr other ↦ other
]

AllDistinct-append :
    (ds : List Dispatch) (d : Dispatch)
    → AllDistinct ds
    → find (has_id d.dispatch_id) ds ≡ none
    → AllDistinct (ds ++ d ∷ [])
unfolding find
AllDistinct-append [] d h fresh = (refl, tt)
AllDistinct-append (e ∷ ds) d h fresh =
    let (other, later) = find-none-cons d.dispatch_id e ds fresh in
    (
      find-append-none e.dispatch_id ds d h.0 (str_eq_flip e.dispatch_id d.dispatch_id other),
      AllDistinct-append ds d h.1 later,
    )

AllWithin-append :
    (ds : List Dispatch) (d : Dispatch) → AllWithin ds → Within d.owner → AllWithin (ds ++ d ∷ [])
AllWithin-append [] d h k = (k, tt)
AllWithin-append (e ∷ ds) d h k = (h.0, AllWithin-append ds d h.1 k)

count_where-append {ℓ} :
    {A : Type ℓ} (test : A → Bool) (rows : List A) (row : A)
    → count_where test (rows ++ row ∷ []) ≡ count_where test rows + (if test row then 1 else 0)
unfolding count_where
count_where-append test [] row = ground arith
count_where-append test (r ∷ rows) row = ground (arith, count_where-append test rows row)

update_where-AllDistinct :
    (test : Dispatch → Bool) (owner : Ownership) (ds : List Dispatch)
    → AllDistinct ds
    → AllDistinct (update_where test (lease_row owner) ds)
unfolding update_where
update_where-AllDistinct test owner [] h = tt
update_where-AllDistinct test owner (d ∷ ds) h =
    let missing =
      find-update_where-none (has_id d.dispatch_id) test (lease_row owner) ds (λ r t. refl) h.0 in
    elim (Bool-cases (test d)) [
      | inl leased ↦ rw leased (missing, update_where-AllDistinct test owner ds h.1)
      | inr kept ↦ rw kept (missing, update_where-AllDistinct test owner ds h.1)
    ]

update_where-AllWithin :
    (test : Dispatch → Bool) (owner : Ownership) (ds : List Dispatch)
    → owner.expires_at ≤ owner.deadline
    → AllWithin ds
    → AllWithin (update_where test (lease_row owner) ds)
unfolding update_where
update_where-AllWithin test owner [] within h = tt
update_where-AllWithin test owner (d ∷ ds) within h = elim (Bool-cases (test d)) [
  | inl leased ↦ rw leased (within, update_where-AllWithin test owner ds within h.1)
  | inr kept ↦ rw kept (h.0, update_where-AllWithin test owner ds within h.1)
]

lease_row-open :
    (id : String) (owner : Ownership) (d : Dispatch)
    → pending_id id d ≡ true
    → open_dispatch (lease_row owner d) ≡ open_dispatch d
lease_row-open id owner d h = ground arith

pub Advances-AllDistinct :
    {w : String} {before : List Dispatch} {n m : ℕ} {after : List Dispatch}
    → Advances w before n m after
    → AllDistinct before
    → AllDistinct after
Advances-AllDistinct Advances.start h = h
Advances-AllDistinct (Advances.go_on p rows) h =
    RowSteps-AllDistinct rows (Advances-AllDistinct p h)
Advances-AllDistinct (Advances.insert {mid} d p lt fresh pending unowned) h =
    AllDistinct-append mid d (Advances-AllDistinct p h) fresh
Advances-AllDistinct (Advances.lease {mid} id owner p lt worker within one) h =
    update_where-AllDistinct (pending_id id) owner mid (Advances-AllDistinct p h)

pub Advances-AllWithin :
    {w : String} {before : List Dispatch} {n m : ℕ} {after : List Dispatch}
    → Advances w before n m after
    → AllWithin before
    → AllWithin after
Advances-AllWithin Advances.start h = h
Advances-AllWithin (Advances.go_on p rows) h = RowSteps-AllWithin rows (Advances-AllWithin p h)
Advances-AllWithin (Advances.insert {mid} d p lt fresh pending unowned) h =
    AllWithin-append mid d (Advances-AllWithin p h) (subst Within (sym unowned) tt)
Advances-AllWithin (Advances.lease {mid} id owner p lt worker within one) h =
    update_where-AllWithin (pending_id id) owner mid within (Advances-AllWithin p h)

-- The worker that leases are granted to has `n` more of them at most.
pub Advances-leases :
    {w : String} {before : List Dispatch} {n m : ℕ} {after : List Dispatch}
    → Advances w before n m after
    → count_where (leased_to w) after ≤ count_where (leased_to w) before + n
Advances-leases Advances.start = omega arith
Advances-leases {w = w} (Advances.go_on p rows) =
    omega (arith, RowSteps-leases w rows, Advances-leases p)
Advances-leases {w = w} (Advances.insert {mid} d p lt fresh pending unowned) =
    let added : leased_to w d ≡ false = ground (arith, pending) in
    ground (arith, Advances-leases p, count_where-append (leased_to w) mid d, added)
Advances-leases {w = w} (Advances.lease {mid} id owner p lt worker within one) = omega (
  arith,
  Advances-leases p,
  count_where-update_where_add (leased_to w) (pending_id id) (lease_row owner) mid,
  one,
)

-- No other worker has more leases.
pub Advances-leases_other :
    {w : String} {before : List Dispatch} {n m : ℕ} {after : List Dispatch} (other : String)
    → str_eq w other ≡ false
    → Advances w before n m after
    → count_where (leased_to other) after ≤ count_where (leased_to other) before
Advances-leases_other other ne Advances.start = omega arith
Advances-leases_other other ne (Advances.go_on p rows) =
    omega (arith, RowSteps-leases other rows, Advances-leases_other other ne p)
Advances-leases_other other ne (Advances.insert {mid} d p lt fresh pending unowned) =
    let added : leased_to other d ≡ false = ground (arith, pending) in
    ground
      (arith, Advances-leases_other other ne p, count_where-append (leased_to other) mid d, added)
Advances-leases_other {w = w} other ne (Advances.lease {mid} id owner p lt worker within one) =
    let not_theirs : str_eq owner.worker_id other ≡ false = rw worker ne in
    omega (
      arith,
      Advances-leases_other other ne p,
      count_where-update_where_le (leased_to other) (pending_id id) (lease_row owner) mid
          (λ r granted. cc),
    )

pub Advances-open :
    {w : String} {before : List Dispatch} {n m : ℕ} {after : List Dispatch}
    → Advances w before n m after
    → count_where open_dispatch after ≤ count_where open_dispatch before + m
Advances-open Advances.start = omega arith
Advances-open (Advances.go_on p rows) = omega (arith, RowSteps-open rows, Advances-open p)
Advances-open (Advances.insert {mid} d p lt fresh pending unowned) =
    let added : open_dispatch d ≡ true = ground (arith, pending) in
    ground (arith, Advances-open p, count_where-append open_dispatch mid d, added)
Advances-open (Advances.lease {mid} id owner p lt worker within one) = omega (
  arith,
  Advances-open p,
  count_where-update_where open_dispatch (pending_id id) (lease_row owner) mid
      (lease_row-open id owner),
)
