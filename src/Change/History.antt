-- ===== src/Change/History.antt =====
-- The attempts that `changeSetFromSnapshots` lists, `applyChangeSet` writes back.
use ai_workload_platform.Common.{
  ltb, ◌==◌, Bool-cases, length, ok, ◌>>=◌, ℕ, suc, ◌+◌, ◌-◌, ◌≤◌, ◌<◌, String, ◌≡◌, refl, sym, ap,
  subst, ◌∙◌, ◌⊎◌, inl, inr, true, false, List, [], ◌∷◌, ◌++◌, arith, decide,
}
use ai_workload_platform.Change.{ChangeOperation, AttemptChange, attempt_changes}
use ai_workload_platform.Change.Apply.{contains_pair, write_attempt, apply_attempt_changes}
use ai_workload_platform.Change.Rows.{
  Histories, str_eq_refl, get_elem?-middle, modify-middle, snoc, length-snoc, of_decide,
}
use ai_workload_platform.Model.{Attempt, TaskRun, Attempt-discrete}
use mathlib.Core.List.{append-nil}
use native.Mathlib.Nat.{add-zero}

-- What was written so far lies before attempt `n + 1` of task `i`.
unfoldable pub PairsBelow : ℕ → ℕ → List (ℕ × ℕ) → Type 0
PairsBelow i n [] = Unit {0}
PairsBelow i n ((j, m) ∷ ps) = ((j < i) ⊎ ((j ≡ i) × (m ≤ n))) × PairsBelow i n ps

not_contains_pair :
    (i n : ℕ) (ps : List (ℕ × ℕ)) → PairsBelow i n ps → contains_pair i (n + 1) ps ≡ false
unfolding PairsBelow
not_contains_pair i n [] h = refl
not_contains_pair i n ((j, m) ∷ ps) h = ground (arith, h.0, not_contains_pair i n ps h.1)

PairsBelow-suc : (i n : ℕ) (ps : List (ℕ × ℕ)) → PairsBelow i n ps → PairsBelow i (n + 1) ps
unfolding PairsBelow
PairsBelow-suc i n [] h = tt
PairsBelow-suc i n ((j, m) ∷ ps) h = (ground (arith, h.0), PairsBelow-suc i n ps h.1)

pub PairsBelow-next : (i n : ℕ) (ps : List (ℕ × ℕ)) → PairsBelow i n ps → PairsBelow (suc i) 0 ps
unfolding PairsBelow
PairsBelow-next i n [] h = tt
PairsBelow-next i n ((j, m) ∷ ps) h = (inl (ground (arith, h.0)), PairsBelow-next i n ps h.1)

PairsBelow-cons :
    (i n : ℕ) (ps : List (ℕ × ℕ)) → PairsBelow i n ps → PairsBelow i (n + 1) ((i, n + 1) ∷ ps)
unfolding PairsBelow
PairsBelow-cons i n ps h = (inr (refl, omega arith), PairsBelow-suc i n ps h)

with_attempts : TaskRun → List Attempt → TaskRun
with_attempts t attempts = record t { attempts = attempts }

write_insert :
    (a : Attempt) (done : List Attempt)
    → a.number ≡ length done + 1
    → write_attempt ChangeOperation.insert a done ≡ ok (done ++ a ∷ [])
unfolding write_attempt ◌>>=◌
write_insert a done h = ground arith

write_update :
    (b a : Attempt) (done rest : List Attempt)
    → b.number ≡ length done + 1
    → a.number ≡ length done + 1
    → write_attempt ChangeOperation.update a (done ++ b ∷ rest) ≡ ok (done ++ a ∷ rest)
unfolding write_attempt ◌>>=◌
write_update b a done rest h k =
    let here : a.number - 1 ≡ length done = omega arith in
    let positive : ltb 0 a.number ≡ true = ground arith in
    let same : (b.number == a.number) ≡ true = ground arith in
    rw positive (
      rw here (
        rw (get_elem?-middle done b rest) (rw same (rw (modify-middle done b rest (λ _. a)) refl))))

-- One task's changes lead from the old history behind `done` to the new one.
module _ (run_id : String) (tasks : List TaskRun) (t : TaskRun) (others : List TaskRun)
    (more : List AttemptChange) where
  at_history : List Attempt → List TaskRun
  at_history attempts = tasks ++ with_attempts t attempts ∷ others

  Written : List (ℕ × ℕ) → List AttemptChange → List Attempt → List Attempt → ℕ → Type 0
  Written seen changes from to n =
      (seen' : List (ℕ × ℕ)) × PairsBelow (length tasks) n seen'
      × (apply_attempt_changes run_id seen (changes ++ more) (at_history from)
          ≡ apply_attempt_changes run_id seen' more (at_history to))

  write_change :
      (seen : List (ℕ × ℕ)) (operation : ChangeOperation) (a : Attempt) (from to : List Attempt)
      (rest : List AttemptChange)
      → contains_pair (length tasks) a.number seen ≡ false
      → write_attempt operation a from ≡ ok to
      → apply_attempt_changes run_id seen
          (record {
            run_id = run_id;
            task_key = t.key;
            task_index = length tasks;
            attempt = a;
            operation = operation;
          }
            ∷ rest)
          (at_history from)
        ≡ apply_attempt_changes run_id ((length tasks, a.number) ∷ seen) rest (at_history to)
  unfolding apply_attempt_changes with_attempts at_history ◌>>=◌
  write_change seen operation a from to rest fresh written = rw (str_eq_refl run_id) (
      rw (get_elem?-middle tasks (with_attempts t from) others) (
        rw (str_eq_refl t.key) (
          rw fresh (
            rw written (
              rw
                (modify-middle tasks (with_attempts t from) others
                  (λ u. record u { attempts = to }))
                refl)))))

  shift_history :
      (seen : List (ℕ × ℕ)) (changes : List AttemptChange) (done before after : List Attempt)
      (a : Attempt) (n m : ℕ)
      → n ≡ m
      → Written seen changes ((done ++ a ∷ []) ++ before) ((done ++ a ∷ []) ++ after) n
      → Written seen changes (done ++ a ∷ before) (done ++ a ∷ after) m
  shift_history seen changes done before after a n m e h =
      rw (snoc done a before, snoc done a after, ← e) h

  next_length :
      (k : ℕ) (done : List Attempt) (a : Attempt)
      → length done ≡ k
      → length (done ++ a ∷ []) ≡ k + 1
  next_length k done a same = omega (arith, length-snoc done a)

  next_fresh :
      (k : ℕ) (seen : List (ℕ × ℕ)) (a : Attempt)
      → a.number ≡ k + 1
      → PairsBelow (length tasks) k seen
      → PairsBelow (length tasks) (k + 1) ((length tasks, a.number) ∷ seen)
  next_fresh k seen a number fresh = rw number (PairsBelow-cons (length tasks) k seen fresh)

  is_fresh :
      (k : ℕ) (seen : List (ℕ × ℕ)) (a : Attempt)
      → a.number ≡ k + 1
      → PairsBelow (length tasks) k seen
      → contains_pair (length tasks) a.number seen ≡ false
  is_fresh k seen a number fresh = rw number (not_contains_pair (length tasks) k seen fresh)

  written :
      (k : ℕ) (done before after : List Attempt) (seen : List (ℕ × ℕ))
      → length done ≡ k
      → Histories k before after
      → PairsBelow (length tasks) k seen
      → Written seen
          (attempt_changes run_id t.key (length tasks) before after)
          (done ++ before)
          (done ++ after)
          (k + length after)
  unfolding attempt_changes Written
  written k done [] [] seen same h fresh = (seen, rw add-zero fresh, refl)
  written k done [] (a ∷ after) seen same h fresh =
      let number : a.number ≡ length done + 1 = h.0 ∙ ap (λ n. n + 1) (sym same) in
      let (seen', below, rest) =
        shift_history ((length tasks, a.number) ∷ seen) _ done [] after a (k + 1 + length after)
          (k + suc (length after)) (omega arith)
          (written (k + 1) (done ++ a ∷ []) [] after ((length tasks, a.number) ∷ seen)
            (next_length k done a same) h.1 (next_fresh k seen a h.0 fresh)) in
      (
        seen',
        below,
        write_change seen ChangeOperation.insert a (done ++ []) (done ++ a ∷ [])
              (attempt_changes run_id t.key (length tasks) [] after ++ more)
              (is_fresh k seen a h.0 fresh) (rw (append-nil done) (write_insert a done number))
            ∙ rest,
      )
  written k done (b ∷ before) [] seen same h fresh = absurd h
  written k done (b ∷ before) (a ∷ after) seen same h fresh =
      elim (Bool-cases (decide (Attempt-discrete b a))) [
        | inl equal ↦
            let e : b ≡ a = of_decide (Attempt-discrete b a) equal in
            rw equal (
              rw e (
                shift_history seen _ done before after a (k + 1 + length after)
                  (k + suc (length after)) (omega arith)
                  (written (k + 1) (done ++ a ∷ []) before after seen (next_length k done a same)
                    h.2 (PairsBelow-suc (length tasks) k seen fresh))))
        | inr changed ↦
            let number : a.number ≡ length done + 1 = h.1 ∙ ap (λ n. n + 1) (sym same) in
            let (seen', below, rest) =
              shift_history ((length tasks, a.number) ∷ seen) _ done before after a
                (k + 1 + length after) (k + suc (length after)) (omega arith)
                (written (k + 1) (done ++ a ∷ []) before after ((length tasks, a.number) ∷ seen)
                  (next_length k done a same) h.2 (next_fresh k seen a h.1 fresh)) in
            rw changed (
              seen',
              below,
              write_change seen ChangeOperation.update a (done ++ b ∷ before) (done ++ a ∷ before)
                    (attempt_changes run_id t.key (length tasks) before after ++ more)
                    (is_fresh k seen a h.1 fresh)
                    (write_update b a done before (h.0 ∙ ap (λ n. n + 1) (sym same)) number)
                  ∙ rest,
            )
      ]

-- The whole history of one task.
pub written_task :
    (run_id : String) (done : List TaskRun) (a : TaskRun) (others : List TaskRun)
    (more : List AttemptChange) (attempts : List Attempt) (seen : List (ℕ × ℕ))
    → Histories 0 attempts a.attempts
    → PairsBelow (length done) 0 seen
    → (seen' : List (ℕ × ℕ)) × PairsBelow (length done) (length a.attempts) seen'
      × (apply_attempt_changes run_id seen
            (attempt_changes run_id a.key (length done) attempts a.attempts ++ more)
            (done ++ record a { attempts = attempts } ∷ others)
          ≡ apply_attempt_changes run_id seen' more (done ++ a ∷ others))
unfolding Written at_history with_attempts
written_task run_id done a others more attempts seen h fresh =
    let (seen', below, same) =
      written run_id done a others more 0 [] attempts a.attempts seen refl h fresh in
    (seen', subst (λ n. PairsBelow (length done) n seen') (omega arith) below, same)
