-- ===== src/Common/Lists.antt =====
-- Lists measured and indexed by native numbers, under the library's names.
use ai_workload_platform.Common.Tests.{◌==◌}
use mathlib.Core.Bool.{Bool, false, ◌||◌}
use Prim.Native.Nat.{ℕ, zero, suc, ◌+◌, ◌≤◌, ◌<◌}
use mathlib.Core.Logic.{◌≢◌}
use mathlib.Core.Path.{◌≡◌, refl, ap}
use mathlib.Core.List.{List, [], ◌∷◌, ◌++◌, map}
use mathlib.Core.Option.{Option, none, some}
use native.Mathlib.Omega.{arith}

module _ {ℓ} {A : Type ℓ} where
  abbrev pub length : List A → ℕ
  length [] = 0
  length (x ∷ xs) = suc (length xs)

  abbrev pub get_elem? : List A → ℕ → Option A
  get_elem? [] i = none
  get_elem? (x ∷ xs) zero = some x
  get_elem? (x ∷ xs) (suc i) = get_elem? xs i

  -- `xs[i] = f(xs[i])`; out of bounds nothing changes.
  abbrev pub modify : ℕ → (A → A) → List A → List A
  modify i f [] = []
  modify zero f (x ∷ xs) = f x ∷ xs
  modify (suc i) f (x ∷ xs) = x ∷ modify i f xs

  abbrev pub drop : ℕ → List A → List A
  drop zero xs = xs
  drop (suc n) [] = []
  drop (suc n) (x ∷ xs) = drop n xs

  abbrev pub tail : List A → List A
  tail [] = []
  tail (x ∷ xs) = xs

  -- The last element, and a change of it.
  abbrev pub last? : List A → Option A
  last? [] = none
  last? (x ∷ []) = some x
  last? (x ∷ y ∷ ys) = last? (y ∷ ys)

  abbrev pub modify_last : (A → A) → List A → List A
  modify_last f [] = []
  modify_last f (x ∷ []) = f x ∷ []
  modify_last f (x ∷ y ∷ ys) = x ∷ modify_last f (y ∷ ys)

  pub length-append : (xs ys : List A) → length (xs ++ ys) ≡ length xs + length ys
  length-append [] ys = omega arith
  length-append (x ∷ xs) ys = omega (arith, length-append xs ys)

module _ {ℓ} {A : Type ℓ} where
  pub length-modify : (i : ℕ) (f : A → A) (xs : List A) → length (modify i f xs) ≡ length xs
  length-modify i f [] = refl
  length-modify zero f (x ∷ xs) = refl
  length-modify (suc i) f (x ∷ xs) = ap suc (length-modify i f xs)

  pub length-modify_last : (f : A → A) (xs : List A) → length (modify_last f xs) ≡ length xs
  length-modify_last f [] = refl
  length-modify_last f (x ∷ []) = refl
  length-modify_last f (x ∷ y ∷ ys) = ap suc (length-modify_last f (y ∷ ys))

  pub get_elem?-modify_self :
      (i : ℕ) (f : A → A) (xs : List A) {x : A}
      → get_elem? xs i ≡ some x
      → get_elem? (modify i f xs) i ≡ some (f x)
  get_elem?-modify_self i f [] h = cc
  get_elem?-modify_self zero f (x ∷ xs) h = cc
  get_elem?-modify_self (suc i) f (x ∷ xs) h = get_elem?-modify_self i f xs h

  pub get_elem?-modify_ne :
      (i j : ℕ) (f : A → A) (xs : List A) → i ≢ j → get_elem? (modify i f xs) j ≡ get_elem? xs j
  get_elem?-modify_ne i j f [] h = refl
  get_elem?-modify_ne zero zero f (x ∷ xs) h = absurd (h refl)
  get_elem?-modify_ne zero (suc j) f (x ∷ xs) h = refl
  get_elem?-modify_ne (suc i) zero f (x ∷ xs) h = refl
  get_elem?-modify_ne (suc i) (suc j) f (x ∷ xs) h =
      get_elem?-modify_ne i j f xs (λ e. h (ap suc e))

  pub get_elem?-eq-none : (xs : List A) (i : ℕ) → length xs ≤ i → get_elem? xs i ≡ none
  get_elem?-eq-none [] i h = refl
  get_elem?-eq-none (x ∷ xs) zero h = absurd (omega arith)
  get_elem?-eq-none (x ∷ xs) (suc i) h = get_elem?-eq-none xs i (omega arith)

  pub get_elem?-of-lt : (xs : List A) (i : ℕ) → i < length xs → (x : A) × (get_elem? xs i ≡ some x)
  get_elem?-of-lt [] i h = absurd (omega arith)
  get_elem?-of-lt (x ∷ xs) zero h = (x, refl)
  get_elem?-of-lt (x ∷ xs) (suc i) h = get_elem?-of-lt xs i (omega arith)

  pub lt_of_get_elem? : (xs : List A) (i : ℕ) {x : A} → get_elem? xs i ≡ some x → i < length xs
  lt_of_get_elem? [] i h = cc
  lt_of_get_elem? (x ∷ xs) zero h = omega arith
  lt_of_get_elem? (x ∷ xs) (suc i) h = omega (arith, lt_of_get_elem? xs i h)

  pub last?-append : (xs : List A) (x : A) → last? (xs ++ x ∷ []) ≡ some x
  last?-append [] x = refl
  last?-append (y ∷ []) x = refl
  last?-append (y ∷ z ∷ zs) x = last?-append (z ∷ zs) x

  pub last?-modify_last :
      (f : A → A) (xs : List A) {x : A} → last? xs ≡ some x → last? (modify_last f xs) ≡ some (f x)
  last?-modify_last f [] h = cc
  last?-modify_last f (y ∷ []) h = cc
  last?-modify_last f (y ∷ z ∷ []) h = last?-modify_last f (z ∷ []) h
  last?-modify_last f (y ∷ z ∷ w ∷ ws) h = last?-modify_last f (z ∷ w ∷ ws) h

-- The list with a function applied from a place on.
pub map_from {ℓ} : {A : Type ℓ} → ℕ → (A → A) → List A → List A
map_from i f [] = []
map_from zero f (x ∷ xs) = f x ∷ map_from zero f xs
map_from (suc i) f (x ∷ xs) = x ∷ map_from i f xs

pub map_from-zero {ℓ} : {A : Type ℓ} (f : A → A) (xs : List A) → map_from 0 f xs ≡ map f xs
unfolding map_from
map_from-zero f [] = refl
map_from-zero f (x ∷ xs) = rw (map_from-zero f xs)

pub map_from-end {ℓ} :
    {A : Type ℓ} (i : ℕ) (f : A → A) (xs : List A) → length xs ≤ i → map_from i f xs ≡ xs
unfolding map_from
map_from-end i f [] h = refl
map_from-end zero f (x ∷ xs) h = absurd (omega arith)
map_from-end (suc i) f (x ∷ xs) h = rw (map_from-end i f xs (omega arith))

pub map_from-modify {ℓ} :
    {A : Type ℓ} (i : ℕ) (f : A → A) (xs : List A)
    → map_from (suc i) f (modify i f xs) ≡ map_from i f xs
unfolding map_from
map_from-modify i f [] = refl
map_from-modify zero f (x ∷ xs) = refl
map_from-modify (suc i) f (x ∷ xs) = rw (map_from-modify i f xs)

pub modify-eq {ℓ} :
    {A : Type ℓ} (i : ℕ) (f g : A → A) (xs : List A) {x : A}
    → get_elem? xs i ≡ some x
    → f x ≡ g x
    → modify i f xs ≡ modify i g xs
modify-eq i f g [] h e = cc
modify-eq zero f g (x ∷ xs) {x = y} h e = ground (arith, h, e)
modify-eq (suc i) f g (x ∷ xs) h e = rw (modify-eq i f g xs h e)

pub modify-id {ℓ} :
    {A : Type ℓ} (i : ℕ) (f : A → A) (xs : List A) {x : A}
    → get_elem? xs i ≡ some x
    → f x ≡ x
    → modify i f xs ≡ xs
modify-id i f [] h e = cc
modify-id zero f (x ∷ xs) h e = ground (arith, h, e)
modify-id (suc i) f (x ∷ xs) h e = rw (modify-id i f xs h e)

pub modify-modify {ℓ} :
    {A : Type ℓ} (i : ℕ) (f g : A → A) (xs : List A)
    → modify i f (modify i g xs) ≡ modify i (λ x. f (g x)) xs
modify-modify i f g [] = refl
modify-modify zero f g (x ∷ xs) = refl
modify-modify (suc i) f g (x ∷ xs) = rw (modify-modify i f g xs)

pub modify_last-modify_last {ℓ} :
    {A : Type ℓ} (f g : A → A) (xs : List A)
    → modify_last f (modify_last g xs) ≡ modify_last (λ x. f (g x)) xs
modify_last-modify_last f g [] = refl
modify_last-modify_last f g (x ∷ []) = refl
modify_last-modify_last f g (x ∷ y ∷ []) = refl
modify_last-modify_last f g (x ∷ y ∷ z ∷ zs) = rw (modify_last-modify_last f g (y ∷ z ∷ zs))

pub length-map {ℓ κ} :
    {A : Type ℓ} {B : Type κ} (f : A → B) (xs : List A) → length (map f xs) ≡ length xs
length-map f [] = refl
length-map f (x ∷ xs) = ap suc (length-map f xs)

-- Membership, as the maps with empty values answer it.
abbrev pub contains : ℕ → List ℕ → Bool
contains i [] = false
contains i (j ∷ js) = i == j || contains i js

pub get_elem?-small :
    {A : Type 0} (xs : List A) (i : ℕ) {x : A} → get_elem? xs i ≡ some x → i < length xs
get_elem?-small [] i h = cc
get_elem?-small (y ∷ xs) zero h = omega arith
get_elem?-small (y ∷ xs) (suc i) h = omega (arith, get_elem?-small xs i h)
