-- ===== src/State/Appended.antt =====
-- What every step does to the audit log, also to one of a snapshot whose run row has no number of
-- the last event (`snapshotLastEventSequence` of workflow/state.go).
use ai_workload_platform.Common.{
  u64, last?-append, ℕ, ◌+◌, String, ◌≡◌, refl, sym, ap, subst, ◌∙◌, List, [], ◌∷◌, ◌++◌, arith,
}
use ai_workload_platform.Model.{Transition, StateEvent, RunSnapshot}
use ai_workload_platform.State.{last_of, snapshot_last_event_sequence, append_event, advance_run}
use ai_workload_platform.State.Log.{last_sequence, Follows}
use ai_workload_platform.State.Moves.{
  Move, workflow_step, task_step, attempt_step, task_edit, count_edit, Moves, stay, move,
  transition_task-eq-ok, transition_workflow-eq-ok, transition_attempt-eq-ok,
}
use mathlib.Core.List.{append_assoc, append-nil}

-- Nothing that was logged is lost, and the new events are numbered on from the last number of `s`,
-- which is the higher of those in the run row and in the last event.
pub record Appended (s s' : RunSnapshot) : Type 0 where
  pub added : List StateEvent
  pub is_prefix : s'.events ≡ s.events ++ added
  pub numbered : Follows (snapshot_last_event_sequence s) added
  pub at_end :
      snapshot_last_event_sequence s' ≡ last_sequence (snapshot_last_event_sequence s) added

last_sequence-append :
    (n : ℕ) (es fs : List StateEvent)
    → last_sequence n (es ++ fs) ≡ last_sequence (last_sequence n es) fs
last_sequence-append n [] fs = refl
last_sequence-append n (e ∷ es) fs = last_sequence-append e.sequence es fs

Follows-append :
    (n : ℕ) (es fs : List StateEvent)
    → Follows n es
    → Follows (last_sequence n es) fs
    → Follows n (es ++ fs)
Follows-append n [] fs f g = g
Follows-append n (e ∷ es) fs (first, f) g = (first, Follows-append e.sequence es fs f g)

Appended-trans : {s t u : RunSnapshot} → Appended s t → Appended t u → Appended s u
Appended-trans {s} {t} {u} p q = record {
  added = p.added ++ q.added;
  is_prefix = q.is_prefix ∙ rw p.is_prefix (append_assoc s.events p.added q.added);
  numbered =
      Follows-append (snapshot_last_event_sequence s) p.added q.added p.numbered
        (subst (λ (n : ℕ). Follows n q.added) p.at_end q.numbered);
  at_end =
      q.at_end
      ∙ ap (λ (n : ℕ). last_sequence n q.added) p.at_end
      ∙ sym (last_sequence-append (snapshot_last_event_sequence s) p.added q.added);
}

-- The log and the number in the run row are as before.
no_event :
    (s t : RunSnapshot)
    → t.events ≡ s.events
    → t.run.last_event_sequence ≡ s.run.last_event_sequence
    → Appended s t
unfolding snapshot_last_event_sequence
no_event s t e n = record {
  added = [];
  is_prefix = e ∙ sym (append-nil s.events);
  numbered = tt;
  at_end = rw (e, n) refl;
}

append_event-Appended :
    (s : RunSnapshot) (at : ℕ) (change : Transition) (reason : String)
    → Appended s (append_event s at change reason)
unfolding append_event snapshot_last_event_sequence last_of
append_event-Appended s at change reason = record {
  added =
      record {
        sequence = u64 (snapshot_last_event_sequence s + 1);
        at = at;
        transition = change;
        reason = reason;
      }
      ∷ [];
  is_prefix = refl;
  numbered = (refl, tt);
  at_end = rw (last?-append s.events _) (ground arith);
}

Move-Appended : {s s' : RunSnapshot} → Move s s' → Appended s s'
unfolding advance_run
Move-Appended {s} (workflow_step to at reason h) =
    let (legal, e) = transition_workflow-eq-ok s to at reason h in
    rw e (Appended-trans (no_event s _ refl refl) (append_event-Appended _ at _ reason))
Move-Appended {s} (task_step i to at reason h) =
    let (task, found, legal, e) = transition_task-eq-ok s i to at reason h in
    rw e (Appended-trans (no_event s _ refl refl) (append_event-Appended _ at _ reason))
Move-Appended {s} (attempt_step i to at reason h) =
    let (task, attempt, found, last, legal, e) = transition_attempt-eq-ok s i to at reason h in
    rw e (Appended-trans (no_event s _ refl refl) (append_event-Appended _ at _ reason))
Move-Appended {s} (task_edit i f same e) = rw e (no_event s _ refl refl)
Move-Appended {s} (count_edit counts same e) = rw e (no_event s _ refl refl)

pub Moves-Appended : {s s' : RunSnapshot} → Moves s s' → Appended s s'
Moves-Appended {s} stay = no_event s s refl refl
Moves-Appended (move m ms) = Appended-trans (Move-Appended m) (Moves-Appended ms)
