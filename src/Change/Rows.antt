-- ===== src/Change/Rows.antt =====
-- The rows of tasks that `changeSetFromSnapshots` lists, `applyChangeSet` writes back.
use ai_workload_platform.Common.{
  Bool-cases, ℤ, is_negative, String-discrete, length, get_elem?, modify, length-append, contains,
  ok, ◌>>=◌, ℕ, suc, ◌+◌, ◌<◌, String, ◌≡◌, refl, sym, inl, inr, true, false, some, List, [], ◌∷◌,
  ◌++◌, arith, eq_iff, str_eq, decide,
}
use ai_workload_platform.Change.{TaskRunChange, row_changed, task_changes}
use ai_workload_platform.Change.Apply.{write_row, apply_task_changes}
use ai_workload_platform.Model.{Attempt, TaskRun, TaskStatus-discrete, Instant-discrete, ℤ-discrete}
use mathlib.Core.List.{append_assoc}
use mathlib.Core.Bool.{decide_iff}

-- The histories of a task: the attempts are numbered, and none is lost. `k` are behind us.
abbrev pub Histories : ℕ → List Attempt → List Attempt → Type 0
Histories k [] [] = Unit {0}
Histories k [] (a ∷ after) = (a.number ≡ k + 1) × Histories (k + 1) [] after
Histories k (b ∷ before) [] = ⊥
Histories k (b ∷ before) (a ∷ after) =
    (b.number ≡ k + 1) × (a.number ≡ k + 1) × Histories (k + 1) before after

abbrev pub RowOk : TaskRun → TaskRun → ℤ → Type 0
RowOk b a count = (a.key ≡ b.key) × (is_negative count ≡ false) × Histories 0 b.attempts a.attempts

-- Task by task; the counts stand beside the tasks.
abbrev pub Rows : List TaskRun → List ℤ → List TaskRun → List ℤ → Type 0
Rows [] [] [] [] = Unit {0}
Rows (b ∷ before) (r ∷ counts) (a ∷ after) (q ∷ counts') =
    RowOk b a q × Rows before counts after counts'
Rows _ _ _ _ = ⊥

-- The first snapshot's history under the second one's row.
unfoldable pub zip_rows : List TaskRun → List TaskRun → List TaskRun
zip_rows (b ∷ before) (a ∷ after) = record a { attempts = b.attempts } ∷ zip_rows before after
zip_rows _ _ = []

unfoldable pub AllBelow : ℕ → List ℕ → Type 0
AllBelow i [] = Unit {0}
AllBelow i (j ∷ js) = (j < i) × AllBelow i js

not_contains : (i : ℕ) (js : List ℕ) → AllBelow i js → contains i js ≡ false
unfolding AllBelow
not_contains i [] h = refl
not_contains i (j ∷ js) h = ground (arith, h.0, not_contains i js h.1)

AllBelow-suc : (i : ℕ) (js : List ℕ) → AllBelow i js → AllBelow (suc i) js
unfolding AllBelow
AllBelow-suc i [] h = tt
AllBelow-suc i (j ∷ js) h = (omega arith, AllBelow-suc i js h.1)

AllBelow-cons : (j i : ℕ) (js : List ℕ) → j < i → AllBelow i js → AllBelow i (j ∷ js)
unfolding AllBelow
AllBelow-cons j i js h k = (h, k)

pub str_eq_refl : (s : String) → str_eq s s ≡ true
str_eq_refl s = (eq_iff s s).1 refl

module _ {ℓ} {A : Type ℓ} where
  pub get_elem?-middle :
      (xs : List A) (x : A) (ys : List A) → get_elem? (xs ++ x ∷ ys) (length xs) ≡ some x
  get_elem?-middle [] x ys = refl
  get_elem?-middle (z ∷ zs) x ys = get_elem?-middle zs x ys

  pub modify-middle :
      (xs : List A) (x : A) (ys : List A) (f : A → A)
      → modify (length xs) f (xs ++ x ∷ ys) ≡ xs ++ f x ∷ ys
  modify-middle [] x ys f = refl
  modify-middle (z ∷ zs) x ys f = rw (modify-middle zs x ys f)

  pub snoc : (xs : List A) (x : A) (ys : List A) → xs ++ x ∷ ys ≡ (xs ++ x ∷ []) ++ ys
  snoc xs x ys = sym (append_assoc xs (x ∷ []) ys)

  pub length-snoc : (xs : List A) (x : A) → length (xs ++ x ∷ []) ≡ suc (length xs)
  length-snoc xs x = omega (arith, length-append xs (x ∷ []))

-- A row that is left out has not changed.
record Unchanged (b : TaskRun) (r : ℤ) (a : TaskRun) (q : ℤ) : Type 0 where
  same_task : record a { attempts = b.attempts } ≡ b
  same_count : q ≡ r

pub of_decide : {P : Type 0} (d : Dec P) → decide d ≡ true → P
of_decide d h = (decide_iff d).0 h

row-Unchanged :
    (b : TaskRun) (r : ℤ) (a : TaskRun) (q : ℤ) → row_changed b r a q ≡ false → Unchanged b r a q
unfolding row_changed
row-Unchanged b r a q h =
    let key = of_decide (String-discrete b.key a.key) (ground arith) in
    let status = of_decide (TaskStatus-discrete b.status a.status) (ground arith) in
    let count = of_decide (ℤ-discrete r q) (ground arith) in
    let ready = of_decide (Instant-discrete b.ready_at a.ready_at) (ground arith) in
    let finished = of_decide (Instant-discrete b.finished_at a.finished_at) (ground arith) in
    record { same_task = cc; same_count = sym count }

-- The next row is behind us.
pass_row :
    (run_id : String) (changes : ℕ → List TaskRunChange) (before : List TaskRun) (counts : List ℤ)
    (rows : List TaskRun) (counts' : List ℤ) (done : List TaskRun) (ready : List ℤ) (seen : List ℕ)
    (x : TaskRun) (c : ℤ)
    → apply_task_changes run_id seen
        (changes (length (done ++ x ∷ [])))
        ((done ++ x ∷ []) ++ before, (ready ++ c ∷ []) ++ counts)
      ≡ ok ((done ++ x ∷ []) ++ rows, (ready ++ c ∷ []) ++ counts')
    → apply_task_changes run_id seen
        (changes (suc (length done)))
        (done ++ x ∷ before, ready ++ c ∷ counts)
      ≡ ok (done ++ x ∷ rows, ready ++ c ∷ counts')
pass_row run_id changes before counts rows counts' done ready seen x c h =
    rw
      (
        snoc done x before,
        snoc ready c counts,
        snoc done x rows,
        snoc ready c counts',
        ← length-snoc done x,
      )
      h

pub apply_task_changes-task_changes :
    (run_id : String) (before : List TaskRun) (counts : List ℤ) (after : List TaskRun)
    (counts' : List ℤ) (done : List TaskRun) (ready : List ℤ) (seen : List ℕ)
    → length ready ≡ length done
    → AllBelow (length done) seen
    → Rows before counts after counts'
    → apply_task_changes run_id seen
        (task_changes run_id (length done) before counts after counts')
        (done ++ before, ready ++ counts)
      ≡ ok (done ++ zip_rows before after, ready ++ counts')
unfolding apply_task_changes task_changes zip_rows ◌>>=◌
apply_task_changes-task_changes run_id [] [] [] [] done ready seen same fresh h = refl
apply_task_changes-task_changes run_id (b ∷ before) (r ∷ counts) (a ∷ after) (q ∷ counts') done
      ready seen same fresh h =
    elim (Bool-cases (row_changed b r a q)) [
      | inl changed ↦
          let x = record a { attempts = b.attempts } in
          let rest =
            pass_row run_id (λ i. task_changes run_id i before counts after counts') before counts
              (zip_rows before after) counts' done ready (length done ∷ seen) x q
              (apply_task_changes-task_changes run_id before counts after counts' (done ++ x ∷ [])
                (ready ++ q ∷ []) (length done ∷ seen) (next_length q x) (fresh_cons x) h.1) in
          rw changed (
            rw (str_eq_refl run_id) (
              rw (get_elem?-middle done b before) (
                rw (not_contains (length done) seen fresh) (
                  rw (same_key h.0.0) (
                    rw h.0.1 (
                      rw (modify-middle done b before (write_row (record a { attempts = [] })))
                        (rw (modify_counts) rest)))))))
      | inr kept ↦
          let u = row-Unchanged b r a q kept in
          let rest =
            pass_row run_id (λ i. task_changes run_id i before counts after counts') before counts
              (zip_rows before after) counts' done ready seen b r
              (apply_task_changes-task_changes run_id before counts after counts' (done ++ b ∷ [])
                (ready ++ r ∷ []) seen (next_length r b) (fresh_same b) h.1) in
          rw kept (rw (u.same_task, u.same_count) rest)
    ]
  where
    next_length : (c : ℤ) (x : TaskRun) → length (ready ++ c ∷ []) ≡ length (done ++ x ∷ [])
    next_length c x = rw (length-snoc ready c, length-snoc done x, same)

    fresh_same : (x : TaskRun) → AllBelow (length (done ++ x ∷ [])) seen
    fresh_same x = rw (length-snoc done x) (AllBelow-suc (length done) seen fresh)

    fresh_cons : (x : TaskRun) → AllBelow (length (done ++ x ∷ [])) (length done ∷ seen)
    fresh_cons x =
        AllBelow-cons (length done) (length (done ++ x ∷ [])) seen
          (omega (arith, length-snoc done x)) (fresh_same x)

    same_key : a.key ≡ b.key → str_eq a.key b.key ≡ true
    same_key e = (eq_iff a.key b.key).1 e

    modify_counts : modify (length done) (λ _. q) (ready ++ r ∷ counts) ≡ ready ++ q ∷ counts
    modify_counts = rw (← same) (modify-middle ready r counts (λ _. q))
apply_task_changes-task_changes run_id [] [] [] (q ∷ counts') done ready seen same fresh h =
    absurd h
apply_task_changes-task_changes run_id [] [] (a ∷ after) counts' done ready seen same fresh h =
    absurd h
apply_task_changes-task_changes run_id [] (r ∷ counts) after counts' done ready seen same fresh h =
    absurd h
apply_task_changes-task_changes run_id (b ∷ before) [] after counts' done ready seen same fresh h =
    absurd h
apply_task_changes-task_changes run_id (b ∷ before) (r ∷ counts) [] counts' done ready seen same
      fresh h =
    absurd h
apply_task_changes-task_changes run_id (b ∷ before) (r ∷ counts) (a ∷ after) [] done ready seen same
      fresh h =
    absurd h
