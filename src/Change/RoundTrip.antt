-- ===== src/Change/RoundTrip.antt =====
-- workflow/change.go: what `changeSetFromSnapshots` computes, `applyChangeSet` applies.
use ai_workload_platform.Common.{
  leb, ◌==◌, u64, ℤ, length, drop, length-append, ok, ◌>>=◌, ℕ, suc, ◌+◌, String, ◌≡◌, refl, ap,
  ◌∙◌, true, some, List, [], ◌∷◌, ◌++◌, arith, eq_iff,
}
use ai_workload_platform.Change.{
  AttemptChange, ChangeSet, task_changes, all_attempt_changes, change_set_from_snapshots,
}
use ai_workload_platform.Change.Apply.{apply_attempt_changes, follow_events, apply_change_set}
use ai_workload_platform.Change.History.{PairsBelow, PairsBelow-next, written_task}
use ai_workload_platform.Change.Rows.{
  Rows, zip_rows, AllBelow, str_eq_refl, snoc, length-snoc, apply_task_changes-task_changes,
}
use ai_workload_platform.Model.{TaskRun, StateEvent, RunSnapshot}
use ai_workload_platform.State.{snapshot_last_event_sequence}
use ai_workload_platform.State.Log.{
  last_sequence, Follows, LogFrom, Extends, snapshot_last_event_sequence-LogFrom,
}

-- The next task is behind us.
pass_task :
    (run_id : String) (changes : ℕ → List AttemptChange) (rest after done : List TaskRun)
    (seen : List (ℕ × ℕ)) (a : TaskRun)
    → apply_attempt_changes run_id seen
        (changes (length (done ++ a ∷ [])))
        ((done ++ a ∷ []) ++ rest)
      ≡ ok ((done ++ a ∷ []) ++ after)
    → apply_attempt_changes run_id seen (changes (suc (length done))) (done ++ a ∷ rest)
      ≡ ok (done ++ a ∷ after)
pass_task run_id changes rest after done seen a h =
    rw (snoc done a rest, snoc done a after, ← length-snoc done a) h

-- All histories, task by task.
all_written :
    (run_id : String) (before : List TaskRun) (counts : List ℤ) (after : List TaskRun)
    (counts' : List ℤ) (done : List TaskRun) (seen : List (ℕ × ℕ))
    → Rows before counts after counts'
    → PairsBelow (length done) 0 seen
    → apply_attempt_changes run_id seen
        (all_attempt_changes run_id (length done) before after)
        (done ++ zip_rows before after)
      ≡ ok (done ++ after)
unfolding all_attempt_changes apply_attempt_changes zip_rows
all_written run_id [] [] [] [] done seen h fresh = refl
all_written run_id (b ∷ before) (r ∷ counts) (a ∷ after) (q ∷ counts') done seen h fresh =
    let more = all_attempt_changes run_id (suc (length done)) before after in
    let (seen', below, first) =
      written_task run_id done a (zip_rows before after) more b.attempts seen h.0.2 fresh in
    first
    ∙ pass_task run_id (λ i. all_attempt_changes run_id i before after) (zip_rows before after)
        after done seen' a
        (all_written run_id before counts after counts' (done ++ a ∷ []) seen' h.1
          (rw (length-snoc done a) (PairsBelow-next (length done) (length a.attempts) seen' below)))
all_written run_id [] [] [] (q ∷ counts') done seen h fresh = absurd h
all_written run_id [] [] (a ∷ after) counts' done seen h fresh = absurd h
all_written run_id [] (r ∷ counts) after counts' done seen h fresh = absurd h
all_written run_id (b ∷ before) [] after counts' done seen h fresh = absurd h
all_written run_id (b ∷ before) (r ∷ counts) [] counts' done seen h fresh = absurd h
all_written run_id (b ∷ before) (r ∷ counts) (a ∷ after) [] done seen h fresh = absurd h

Rows-length :
    (before : List TaskRun) (counts : List ℤ) (after : List TaskRun) (counts' : List ℤ)
    → Rows before counts after counts'
    → length before ≡ length counts
Rows-length [] [] [] [] h = refl
Rows-length (b ∷ before) (r ∷ counts) (a ∷ after) (q ∷ counts') h =
    ap suc (Rows-length before counts after counts' h.1)
Rows-length [] [] [] (q ∷ counts') h = absurd h
Rows-length [] [] (a ∷ after) counts' h = absurd h
Rows-length [] (r ∷ counts) after counts' h = absurd h
Rows-length (b ∷ before) [] after counts' h = absurd h
Rows-length (b ∷ before) (r ∷ counts) [] counts' h = absurd h
Rows-length (b ∷ before) (r ∷ counts) (a ∷ after) [] h = absurd h

last_sequence-++ :
    (n : ℕ) (xs ys : List StateEvent)
    → last_sequence n (xs ++ ys) ≡ last_sequence (last_sequence n xs) ys
last_sequence-++ n [] ys = refl
last_sequence-++ n (x ∷ xs) ys = last_sequence-++ x.sequence xs ys

Follows-after :
    (n : ℕ) (xs ys : List StateEvent) → Follows n (xs ++ ys) → Follows (last_sequence n xs) ys
Follows-after n [] ys h = h
Follows-after n (x ∷ xs) ys h = Follows-after x.sequence xs ys h.1

follow_events-Follows :
    (n : ℕ) (es : List StateEvent) → Follows n es → follow_events n es ≡ ok (last_sequence n es)
unfolding follow_events ◌>>=◌
follow_events-Follows n [] h = refl
follow_events-Follows n (e ∷ es) h =
    let same : (e.sequence == u64 (n + 1)) ≡ true = ground arith in
    rw same (follow_events-Follows e.sequence es h.1)

drop-length : {A : Type 0} (xs ys : List A) → drop (length xs) (xs ++ ys) ≡ ys
drop-length [] ys = refl
drop-length (x ∷ xs) ys = drop-length xs ys

-- Two snapshots of one run, the second one a commit later.
pub record Committable (n : ℕ) (before after : RunSnapshot) : Type 0 where
  pub same_version : after.version ≡ before.version
  pub same_definition : after.definition ≡ before.definition
  pub same_id : after.run.id ≡ before.run.id
  pub next_revision : after.run.revision ≡ u64 (before.run.revision + 1)
  pub log_before : LogFrom n before
  pub log_after : LogFrom n after
  pub extends : Extends before after
  pub rows :
      Rows before.run.tasks before.run.remaining_dependencies after.run.tasks
        after.run.remaining_dependencies

grown : {A : Type 0} (xs ys : List A) → leb (length xs) (length (xs ++ ys)) ≡ true
grown xs ys = ground (arith, length-append xs ys)

-- The change set of two snapshots, with the events that the second one added.
change_set_of : (before after : RunSnapshot) → List StateEvent → ChangeSet
unfolding task_changes all_attempt_changes
change_set_of before after added = record {
  run_id = after.run.id;
  expected_revision = before.run.revision;
  run = some (record after.run {
    last_event_sequence = snapshot_last_event_sequence after;
    tasks = [];
    remaining_dependencies = [];
  });
  tasks =
      task_changes after.run.id 0 before.run.tasks before.run.remaining_dependencies after.run.tasks
        after.run.remaining_dependencies;
  attempts = all_attempt_changes after.run.id 0 before.run.tasks after.run.tasks;
  events = added;
}

computed :
    (before after : RunSnapshot) (added : List StateEvent)
    → after.events ≡ before.events ++ added
    → change_set_from_snapshots before after ≡ ok (change_set_of before after added)
unfolding change_set_from_snapshots change_set_of ◌>>=◌
computed before after added e =
    rw e (rw (grown before.events added, drop-length before.events added) refl)

is_same : (n : ℕ) → (n == n) ≡ true
is_same n = ground arith

AllBelow-none : AllBelow 0 []
unfolding AllBelow
AllBelow-none = tt

PairsBelow-none : PairsBelow 0 0 []
unfolding PairsBelow
PairsBelow-none = tt

added_follow :
    (n : ℕ) (before after : RunSnapshot) (c : Committable n before after)
    → Follows (snapshot_last_event_sequence before) c.extends.added
added_follow n before after c =
    rw (snapshot_last_event_sequence-LogFrom n before c.log_before, c.log_before.at_end)
      (Follows-after n before.events c.extends.added
        (rw (← c.extends.is_prefix) c.log_after.follows))

added_end :
    (n : ℕ) (before after : RunSnapshot) (c : Committable n before after)
    → (snapshot_last_event_sequence after
        == last_sequence (snapshot_last_event_sequence before) c.extends.added)
      ≡ true
added_end n before after c =
    let end : snapshot_last_event_sequence after
        ≡ last_sequence (snapshot_last_event_sequence before) c.extends.added =
      snapshot_last_event_sequence-LogFrom n after c.log_after
      ∙ c.log_after.at_end
      ∙ rw c.extends.is_prefix (
          last_sequence-++ n before.events c.extends.added
          ∙ rw (snapshot_last_event_sequence-LogFrom n before c.log_before, c.log_before.at_end)
              refl) in
    ground (arith, end)

rebuilt :
    (n : ℕ) (before after : RunSnapshot) (c : Committable n before after)
    → ok (record before {
      run = record after.run { last_event_sequence = snapshot_last_event_sequence after };
      events = before.events ++ c.extends.added;
    })
      ≡ ok after
rebuilt n before after c =
    rw
      (
        snapshot_last_event_sequence-LogFrom n after c.log_after,
        ← c.extends.is_prefix,
        ← c.same_version,
        ← c.same_definition,
      )
      refl

-- Let two snapshots be of one run, the second one a commit later: it has the next revision, the
-- same tasks by key, no negative count, histories that are numbered from one and lose no attempt,
-- and a log that extends the first one, numbered without a gap. The change set that is computed
-- from the two, applied to the first, gives the second.
pub apply_change_set-change_set_from_snapshots :
    (n : ℕ) (before after : RunSnapshot)
    → Committable n before after
    → (do change ← change_set_from_snapshots before after; apply_change_set before change)
      ≡ ok after
unfolding ◌>>=◌ apply_change_set change_set_of
apply_change_set-change_set_from_snapshots n before after c =
    let b = before.run in
    let a = after.run in
    let id = (eq_iff a.id b.id).1 c.same_id in
    let revision : (a.revision == u64 (b.revision + 1)) ≡ true = ground (arith, c.next_revision) in
    let lengths =
      Rows-length b.tasks b.remaining_dependencies a.tasks a.remaining_dependencies c.rows in
    let rows =
      apply_task_changes-task_changes a.id b.tasks b.remaining_dependencies a.tasks
        a.remaining_dependencies [] [] [] refl (AllBelow-none) c.rows in
    let histories =
      all_written a.id b.tasks b.remaining_dependencies a.tasks a.remaining_dependencies [] []
        c.rows PairsBelow-none in
    let events =
      follow_events-Follows (snapshot_last_event_sequence before) c.extends.added
        (added_follow n before after c) in
    rw (computed before after c.extends.added c.extends.is_prefix) (
      rw id (
        rw (is_same b.revision) (
          rw (str_eq_refl a.id) (
            rw revision (
              rw (lengths, is_same (length b.remaining_dependencies))
                (rw rows (
                  rw histories
                    (rw events (rw (added_end n before after c) (rebuilt n before after c))))))))))
