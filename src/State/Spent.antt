-- ===== src/State/Spent.antt =====
-- Attempt numbers that are used up: the history of the task is that long, and its last attempt is
-- not a running one with the number.
use ai_workload_platform.Common.{
  ◌==◌, length, last?, modify_last, length-append, length-modify_last, last?-append,
  last?-modify_last, ℕ, ◌+◌, ◌≤◌, ◌≡◌, refl, Bool, true, false, ◌&&◌, none, some, List, [], ◌∷◌,
  ◌++◌, arith,
}
use ai_workload_platform.Distributed.Settle.{is_attempt_running, set_result}
use ai_workload_platform.Model.{AttemptStatus, ExecutionResult, Attempt}
use ai_workload_platform.State.{attempt_edge, advance_attempt}

-- The last attempt has the number and runs.
abbrev pub last_runs : ℕ → List Attempt → Bool
last_runs n attempts = elim (last? attempts) [
  | none ↦ false
  | some attempt ↦ attempt.number == n && is_attempt_running attempt.status
]

abbrev pub Spent : ℕ → List Attempt → Type 0
Spent n attempts = (n ≤ length attempts) × (last_runs n attempts ≡ false)

abbrev pub SpentKept : List Attempt → List Attempt → Type 0
SpentKept attempts later = (n : ℕ) → Spent n attempts → Spent n later

last_runs-set_result :
    (n : ℕ) (result : ExecutionResult) (attempts : List Attempt)
    → last_runs n (modify_last (set_result result) attempts) ≡ last_runs n attempts
last_runs-set_result n result [] = refl
last_runs-set_result n result (x ∷ []) = refl
last_runs-set_result n result (x ∷ y ∷ []) = refl
last_runs-set_result n result (x ∷ y ∷ z ∷ ys) = last_runs-set_result n result (y ∷ z ∷ ys)

pub set_result-SpentKept :
    (result : ExecutionResult) (attempts : List Attempt)
    → SpentKept attempts (modify_last (set_result result) attempts)
set_result-SpentKept result attempts n (long, over) = (
  rw (length-modify_last (set_result result) attempts) long,
  rw (last_runs-set_result n result attempts) over,
)

-- A legal step leaves an attempt that does not run.
pub advance_attempt-last_runs :
    (n : ℕ) (to : AttemptStatus) (at : ℕ) (attempts : List Attempt) {attempt : Attempt}
    → last? attempts ≡ some attempt
    → attempt_edge attempt.status to ≡ true
    → last_runs n (modify_last (advance_attempt to at) attempts) ≡ false
unfolding advance_attempt attempt_edge
advance_attempt-last_runs n to at attempts {attempt} last legal =
    rw (last?-modify_last (advance_attempt to at) attempts last, last_runs) (ground (arith, legal))

pub advance_attempt-SpentKept :
    (to : AttemptStatus) (at : ℕ) (attempts : List Attempt) {attempt : Attempt}
    → last? attempts ≡ some attempt
    → attempt_edge attempt.status to ≡ true
    → SpentKept attempts (modify_last (advance_attempt to at) attempts)
advance_attempt-SpentKept to at attempts last legal n (long, over) = (
  rw (length-modify_last (advance_attempt to at) attempts) long,
  advance_attempt-last_runs n to at attempts last legal,
)

-- A new attempt takes the number after the history.
pub append-SpentKept :
    (attempts : List Attempt) (next : Attempt)
    → next.number ≡ length attempts + 1
    → SpentKept attempts (attempts ++ next ∷ [])
append-SpentKept attempts next numbered n (long, over) = (
  omega (arith, length-append attempts (next ∷ []), long),
  rw (last?-append attempts next, last_runs) (ground (arith, numbered, long)),
)
