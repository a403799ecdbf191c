-- ===== src/State/Log.antt =====
-- The audit log of a run (`appendEvent` of workflow/state.go): every step appends to it, and the
-- sequence numbers follow one another.
use ai_workload_platform.Common.{
  u64, length, last?, ℕ, ◌+◌, ◌<◌, String, ◌≡◌, refl, sym, ap, ◌∙◌, List, [], ◌∷◌, ◌++◌, arith,
}
use ai_workload_platform.Model.{Transition, StateEvent, RunSnapshot}
use ai_workload_platform.State.{last_of, snapshot_last_event_sequence, append_event, advance_run}
use ai_workload_platform.State.Moves.{
  Move, workflow_step, task_step, attempt_step, task_edit, count_edit, Moves, stay, move,
  transition_task-eq-ok, transition_workflow-eq-ok, transition_attempt-eq-ok,
}
use mathlib.Core.List.{append_assoc, append-nil}

-- The number of the last event, where `n` stands for the one before the list.
abbrev pub last_sequence : ℕ → List StateEvent → ℕ
last_sequence n [] = n
last_sequence n (e ∷ es) = last_sequence e.sequence es

-- Each number follows the one before.
abbrev pub Follows : ℕ → List StateEvent → Type 0
Follows n [] = Unit {0}
Follows n (e ∷ es) = (e.sequence ≡ u64 (n + 1)) × Follows e.sequence es

-- The log that a snapshot holds starts behind event `n`, and the run row has its end.
pub record LogFrom (n : ℕ) (s : RunSnapshot) : Type 0 where
  pub follows : Follows n s.events
  pub at_end : s.run.last_event_sequence ≡ last_sequence n s.events

-- Nothing that was logged is lost.
pub record Extends (s s' : RunSnapshot) : Type 0 where
  pub added : List StateEvent
  pub is_prefix : s'.events ≡ s.events ++ added

last_sequence-append :
    (n : ℕ) (es : List StateEvent) (e : StateEvent) → last_sequence n (es ++ e ∷ []) ≡ e.sequence
last_sequence-append n [] e = refl
last_sequence-append n (x ∷ es) e = last_sequence-append x.sequence es e

Follows-append :
    (n : ℕ) (es : List StateEvent) (e : StateEvent)
    → Follows n es
    → e.sequence ≡ u64 (last_sequence n es + 1)
    → Follows n (es ++ e ∷ [])
Follows-append n [] e f h = (h, tt)
Follows-append n (x ∷ es) e f h = (f.0, Follows-append x.sequence es e f.1 h)

-- The test for a later event than the run row knows never fires on such a log.
last_of-last_sequence :
    (n m : ℕ) (es : List StateEvent) → m ≡ last_sequence n es → last_of m (last? es) ≡ m
unfolding last_of
last_of-last_sequence n m [] h = refl
last_of-last_sequence n m (e ∷ []) h = ground arith
last_of-last_sequence n m (e ∷ x ∷ es) h = last_of-last_sequence e.sequence m (x ∷ es) h

pub snapshot_last_event_sequence-LogFrom :
    (n : ℕ) (s : RunSnapshot)
    → LogFrom n s
    → snapshot_last_event_sequence s ≡ s.run.last_event_sequence
unfolding snapshot_last_event_sequence
snapshot_last_event_sequence-LogFrom n s l = last_of-last_sequence n _ s.events l.at_end

append_event-LogFrom :
    (n : ℕ) (s : RunSnapshot) (at : ℕ) (change : Transition) (reason : String)
    → LogFrom n s
    → LogFrom n (append_event s at change reason)
unfolding append_event
append_event-LogFrom n s at change reason l = record {
  follows =
      Follows-append n s.events _ l.follows
        (ap (λ k. u64 (k + 1)) (snapshot_last_event_sequence-LogFrom n s l ∙ l.at_end));
  at_end = sym (last_sequence-append n s.events _);
}

Extends-append_event :
    (s t : RunSnapshot) (at : ℕ) (change : Transition) (reason : String)
    → t.events ≡ s.events
    → Extends s (append_event t at change reason)
unfolding append_event
Extends-append_event s t at change reason e = record {
  added =
      record {
        sequence = u64 (snapshot_last_event_sequence t + 1);
        at = at;
        transition = change;
        reason = reason;
      }
      ∷ [];
  is_prefix = rw e;
}

abbrev LogMove : ℕ → RunSnapshot → RunSnapshot → Type 0
LogMove n s s' = (LogFrom n s → LogFrom n s') × Extends s s'

no_event : (s t : RunSnapshot) → t.events ≡ s.events → Extends s t
no_event s t e = record { added = []; is_prefix = e ∙ sym (append-nil s.events) }

Move-Log : (n : ℕ) {s s' : RunSnapshot} → Move s s' → LogMove n s s'
Move-Log n {s} (workflow_step to at reason h) =
    let (legal, e) = transition_workflow-eq-ok s to at reason h in
    rw e (
      (λ l.
          append_event-LogFrom n _ at _ reason
            (unfold advance_run in record { follows = l.follows; at_end = l.at_end })),
      Extends-append_event s _ at _ reason refl,
    )
Move-Log n {s} (task_step i to at reason h) =
    let (task, found, legal, e) = transition_task-eq-ok s i to at reason h in
    rw e (
      (λ l.
          append_event-LogFrom n _ at _ reason (record { follows = l.follows; at_end = l.at_end })),
      Extends-append_event s _ at _ reason refl,
    )
Move-Log n {s} (attempt_step i to at reason h) =
    let (task, attempt, found, last, legal, e) = transition_attempt-eq-ok s i to at reason h in
    rw e (
      (λ l.
          append_event-LogFrom n _ at _ reason (record { follows = l.follows; at_end = l.at_end })),
      Extends-append_event s _ at _ reason refl,
    )
Move-Log n {s} (task_edit i f same e) =
    rw e ((λ l. record { follows = l.follows; at_end = l.at_end }), no_event s _ refl)
Move-Log n {s} (count_edit counts same e) =
    rw e ((λ l. record { follows = l.follows; at_end = l.at_end }), no_event s _ refl)

pub Moves-LogFrom : (n : ℕ) {s s' : RunSnapshot} → Moves s s' → LogFrom n s → LogFrom n s'
Moves-LogFrom n stay l = l
Moves-LogFrom n (move m ms) l = Moves-LogFrom n ms ((Move-Log n m).0 l)

pub Moves-Extends : {s s' : RunSnapshot} → Moves s s' → Extends s s'
Moves-Extends {s} stay = no_event s s refl
Moves-Extends {s} (move m ms) =
    let first = (Move-Log 0 m).1 in
    let rest = Moves-Extends ms in
    record {
      added = first.added ++ rest.added;
      is_prefix =
          rest.is_prefix ∙ rw first.is_prefix (append_assoc s.events first.added rest.added);
    }

-- While no number has wrapped, the numbers count the events.
pub last_sequence-length :
    (n : ℕ) (es : List StateEvent)
    → Follows n es
    → n + length es < 18446744073709551616
    → last_sequence n es ≡ n + length es
last_sequence-length n [] f h = omega arith
last_sequence-length n (e ∷ es) f h =
    let numbered : e.sequence ≡ n + 1 = omega arith in
    omega (arith, last_sequence-length e.sequence es f.1 (omega arith))
