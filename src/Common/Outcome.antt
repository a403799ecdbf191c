-- ===== src/Common/Outcome.antt =====
-- The error results of the Go code as values, with `do` blocks.
use mathlib.Core.Path.{◌≡◌, refl, sym, subst}
use mathlib.Core.Bool.{Bool, true, false}
use mathlib.Core.Option.{Option, none, some}
use mathlib.Core.Logic.{◌≢◌}
use native.Mathlib.Omega.{arith}
use ai_workload_platform.Common.Tests.{if◌then◌else◌}

-- One constructor for each kind of error that the kernel and the repository
-- return; messages are left out.
-- `index_panic` is the run-time panic of an index out of range; `out_of_fuel` is of the model alone.
pub data Error : Type 0 where
  illegal_transition index_out_of_range workflow_not_running : Error
  ids_required identity_mismatch unsupported_result negative_dependencies mixed_terminal : Error
  run_exists run_not_found revision_conflict invalid_change_set different_runs : Error
  id_required invalid_definition rejected_input missing_dependency dependency_cycle : Error
  task_count_mismatch invalid_history started_early no_definition no_runnable_tasks : Error
  already_executing unsupported_version unsupported_status wrong_run invalid_run_id : Error
  storage_failed interrupted : Error
  database_failed limit_out_of_range definition_not_found : Error
  worker_session_invalid worker_draining worker_capacity_exceeded worker_not_found : Error
  worker_protocol_unsupported invalid_worker_registration : Error
  lease_lost result_conflict invalid_result : Error
  workflow_exists workflow_not_found idempotency_conflict : Error
  blank_text invalid_snapshot definition_mismatch : Error
  index_panic out_of_fuel : Error

pub data Result {ℓ} (A : Type ℓ) : Type ℓ where
  ok : A → Result A
  err : Error → Result A

-- A value that the code looks up, and the error that it returns when there is none.
abbrev pub or_fail {ℓ} : {A : Type ℓ} → Option A → Error → Result A
or_fail (some found) e = ok found
or_fail none e = err e

-- `if !test { return failure }`
abbrev pub guard : (test : Bool) → (failure : Error) → Result (Unit {0})
guard false failure = err failure
guard true failure = ok tt

-- The early return on an error.
infixl 5 ◌>>=◌ ◌>>◌
unfoldable pub ◌>>=◌ {ℓ κ} :
    {A : Type ℓ} {B : Type κ} (first : Result A) → (A → Result B) → Result B
err failure >>= next = err failure
ok value >>= next = next value

abbrev pub ◌>>◌ {ℓ} : {B : Type ℓ} → Result (Unit {0}) → Result B → Result B
first >> second = first >>= λ done. second

-- Inversion of a successful bind, for proofs where the parts stay shut.
pub >>=-eq-ok {ℓ κ} :
    {A : Type ℓ} {B : Type κ} (first : Result A) (next : A → Result B) {answer : B}
    → (first >>= next) ≡ ok answer
    → (value : A) × (first ≡ ok value) × (next value ≡ ok answer)
unfolding ◌>>=◌
>>=-eq-ok (err failure) next returned = cc
>>=-eq-ok (ok value) next returned = (value, refl, returned)

pub or_fail-eq-ok {ℓ} :
    {A : Type ℓ} (o : Option A) (e : Error) {a : A} → or_fail o e ≡ ok a → o ≡ some a
or_fail-eq-ok none e h = cc
or_fail-eq-ok (some a) e h = cc

pub guard-eq-ok : (b : Bool) (e : Error) {u : Unit {0}} → guard b e ≡ ok u → b ≡ true
guard-eq-ok true e h = refl
guard-eq-ok false e h = cc

pub ok-eq-ok {ℓ} : {A : Type ℓ} {a b : A} → ok a ≡ ok b → b ≡ a
ok-eq-ok h = cc

-- What holds of the value that is returned holds of the value that was asked for.
pub ok-subst {ℓ κ} : {A : Type ℓ} (P : A → Type κ) {a b : A} → ok a ≡ ok b → P a → P b
ok-subst P h p = subst P (sym (ok-eq-ok h)) p

-- A result that is not the model's own error.
abbrev pub Fueled : {A : Type 0} → Result A → Type 0
Fueled r = r ≢ err out_of_fuel

pub Fueled-bind :
    {A B : Type 0} (m : Result A) (f : A → Result B)
    → Fueled m
    → ((a : A) → m ≡ ok a → Fueled (f a))
    → Fueled (m >>= f)
unfolding ◌>>=◌
Fueled-bind (ok a) f h k = k a refl
Fueled-bind (err e) f h k = λ p. h (ground arith)

pub Fueled-or_fail : {A : Type 0} (o : Option A) → Fueled (or_fail o index_panic)
Fueled-or_fail none = λ p. cc
Fueled-or_fail (some a) = λ p. cc

pub Fueled-if :
    {A : Type 0} (b : Bool) (x y : Result A)
    → (b ≡ true → Fueled x)
    → (b ≡ false → Fueled y)
    → Fueled (if b then x else y)
Fueled-if true x y h k = h refl
Fueled-if false x y h k = k refl

pub Fueled-guard : (b : Bool) (e : Error) → e ≢ out_of_fuel → Fueled (guard b e)
Fueled-guard true e h = λ p. cc
Fueled-guard false e h = λ p. h (ground arith)
