-- ===== src/Postgres/Query.antt =====
-- The statements of SQL that internal/postgres uses, on a table that is a list of rows.
use ai_workload_platform.Common.{
  ◌==◌, if◌then◌else◌, length, Error, Result, ok, guard, ◌>>◌, ℕ, zero, suc, ◌+◌, ◌≤◌, ◌≡◌, refl,
  Bool, true, false, Option, none, some, List, [], ◌∷◌, arith,
}

unfoldable pub find {ℓ} : {A : Type ℓ} → (A → Bool) → List A → Option A
find test [] = none
find test (row ∷ rows) = if test row then some row else find test rows

-- `SELECT count(*) … WHERE test`
unfoldable pub count_where {ℓ} : {A : Type ℓ} → (A → Bool) → List A → ℕ
count_where test [] = 0
count_where test (row ∷ rows) =
    let rest = count_where test rows in if test row then suc rest else rest

-- `UPDATE … SET change WHERE test`
unfoldable pub update_where {ℓ} : {A : Type ℓ} → (A → Bool) → (A → A) → List A → List A
update_where test change [] = []
update_where test change (row ∷ rows) =
    (if test row then change row else row) ∷ update_where test change rows

-- The same where the code demands `RowsAffected() == 1`.
unfoldable pub update_one : {A : Type 0} → (A → Bool) → (A → A) → Error → List A → Result (List A)
unfolding count_where update_where
update_one test change failure rows = do
  guard (count_where test rows == 1) failure
  ok (update_where test change rows)

unfoldable pub select_where {ℓ} : {A : Type ℓ} → (A → Bool) → List A → List A
select_where test [] = []
select_where test (row ∷ rows) =
    let rest = select_where test rows in if test row then row ∷ rest else rest

-- `LIMIT n`
unfoldable pub limit_to {ℓ} : {A : Type ℓ} → ℕ → List A → List A
limit_to zero rows = []
limit_to (suc n) [] = []
limit_to (suc n) (row ∷ rows) = row ∷ limit_to n rows

-- `ORDER BY`, where `before` is the order of the keys.
unfoldable pub insert_row {ℓ} : {A : Type ℓ} → (A → A → Bool) → A → List A → List A
insert_row before row [] = row ∷ []
insert_row before row (other ∷ rows) =
    let later = insert_row before row rows in
    if before other row then other ∷ later else row ∷ other ∷ rows

unfoldable pub order_by {ℓ} : {A : Type ℓ} → (A → A → Bool) → List A → List A
unfolding insert_row
order_by before [] = []
order_by before (row ∷ rows) = insert_row before row (order_by before rows)

-- A changed row is found under the key of the old one.
pub find-update_where {ℓ} :
    {A : Type ℓ} (key test : A → Bool) (change : A → A) (rows : List A) {row : A}
    → ((r : A) → test r ≡ true → key (change r) ≡ key r)
    → find key rows ≡ some row
    → find key (update_where test change rows) ≡ some (if test row then change row else row)
unfolding find update_where
find-update_where key test change [] kept found = cc
find-update_where key test change (r ∷ rows) {row = row} kept found =
    ground (arith, kept r, find-update_where key test change rows {row = row} kept)

pub find-update_where-none {ℓ} :
    {A : Type ℓ} (key test : A → Bool) (change : A → A) (rows : List A)
    → ((r : A) → test r ≡ true → key (change r) ≡ key r)
    → find key rows ≡ none
    → find key (update_where test change rows) ≡ none
unfolding find update_where
find-update_where-none key test change [] kept missing = refl
find-update_where-none key test change (r ∷ rows) kept missing =
    ground (arith, kept r, find-update_where-none key test change rows kept)

-- A row that is found passes the test.
pub find-test {ℓ} :
    {A : Type ℓ} (key : A → Bool) (rows : List A) {row : A}
    → find key rows ≡ some row
    → key row ≡ true
unfolding find
find-test key [] found = cc
find-test key (r ∷ rows) {row = row} found = ground (arith, find-test key rows {row = row})

-- A change to rows that the count does not see before or after leaves the count alone.
pub count_where-update_where {ℓ} :
    {A : Type ℓ} (counted test : A → Bool) (change : A → A) (rows : List A)
    → ((r : A) → test r ≡ true → counted (change r) ≡ counted r)
    → count_where counted (update_where test change rows) ≡ count_where counted rows
unfolding count_where update_where
count_where-update_where counted test change [] same = refl
count_where-update_where counted test change (r ∷ rows) same =
    ground (arith, same r, count_where-update_where counted test change rows same)

-- A change that takes rows out of the count, or leaves them alone, does not raise it.
pub count_where-update_where_le {ℓ} :
    {A : Type ℓ} (counted test : A → Bool) (change : A → A) (rows : List A)
    → ((r : A) → counted (change r) ≡ true → counted r ≡ true)
    → count_where counted (update_where test change rows) ≤ count_where counted rows
unfolding count_where update_where
count_where-update_where_le counted test change [] fewer = omega arith
count_where-update_where_le counted test change (r ∷ rows) fewer =
    ground (arith, fewer r, count_where-update_where_le counted test change rows fewer)

-- A change raises a count by the number of rows that it touches at most.
pub count_where-update_where_add {ℓ} :
    {A : Type ℓ} (counted test : A → Bool) (change : A → A) (rows : List A)
    → count_where counted (update_where test change rows)
      ≤ count_where counted rows + count_where test rows
unfolding count_where update_where
count_where-update_where_add counted test change [] = omega arith
count_where-update_where_add counted test change (r ∷ rows) =
    ground (arith, count_where-update_where_add counted test change rows)

-- Where every touched row leaves the count, none of those that the change is for is left.
pub count_where-update_where_none {ℓ} :
    {A : Type ℓ} (counted : A → Bool) (change : A → A) (rows : List A)
    → ((r : A) → counted (change r) ≡ false)
    → count_where counted (update_where counted change rows) ≡ 0
unfolding count_where update_where
count_where-update_where_none counted change [] gone = refl
count_where-update_where_none counted change (r ∷ rows) gone =
    ground (arith, gone r, count_where-update_where_none counted change rows gone)

-- No row is counted, so a row that is found is not.
pub find-count_where_zero {ℓ} :
    {A : Type ℓ} (key counted : A → Bool) (rows : List A) {row : A}
    → count_where counted rows ≡ 0
    → find key rows ≡ some row
    → counted row ≡ false
unfolding find count_where
find-count_where_zero key counted [] none_counted found = cc
find-count_where_zero key counted (r ∷ rows) {row = row} none_counted found =
    ground (arith, find-count_where_zero key counted rows {row = row})

pub length-limit_to {ℓ} : {A : Type ℓ} (n : ℕ) (rows : List A) → length (limit_to n rows) ≤ n
unfolding limit_to
length-limit_to zero rows = omega arith
length-limit_to (suc n) [] = omega arith
length-limit_to (suc n) (row ∷ rows) = omega (arith, length-limit_to n rows)
