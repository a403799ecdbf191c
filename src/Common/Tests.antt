-- ===== src/Common/Tests.antt =====
-- Boolean tests on the native numbers, signed integers, machine words and decisions on text.
use Prim.Native.Nat.{ℕ, zero, suc, ◌%◌, compare, Ordering}
use Prim.Native.String.{String}
use mathlib.Core.Path.{◌≡◌, refl, sym, ◌∙◌}
use mathlib.Core.Logic.{◌⊎◌, inl, inr}
use mathlib.Core.Bool.{Bool, true, false, not, ◌&&◌, false≢true}
use mathlib.Core.Option.{Option, none, some}
use text.Mathlib.Text.{◌==◌ as str_eq}
use text.Mathlib.TextEquality.{eq_iff}

abbrev pub ltb : ℕ → ℕ → Bool
ltb a b = elim (compare a b) [ Ordering.lt ↦ true | _ ↦ false ]

abbrev pub leb : ℕ → ℕ → Bool
leb a b = elim (compare a b) [ Ordering.gt ↦ false | _ ↦ true ]

infix 50 ◌==◌
abbrev pub ◌==◌ : ℕ → ℕ → Bool
a == b = elim (compare a b) [ Ordering.eq ↦ true | _ ↦ false ]

infix 1 if◌then◌else◌
abbrev pub if◌then◌else◌ {ℓ} : {A : Type ℓ} → Bool → A → A → A
if true then x else y = x
if false then x else y = y

-- To split on a computed value and keep the equation.
pub Bool-cases : (b : Bool) → (b ≡ true) ⊎ (b ≡ false)
Bool-cases true = inl refl
Bool-cases false = inr refl

pub Option-cases {ℓ} : {A : Type ℓ} (o : Option A) → (o ≡ none) ⊎ ((a : A) × (o ≡ some a))
Option-cases none = inl refl
Option-cases (some a) = inr (a, refl)

abbrev pub is_some {ℓ} : {A : Type ℓ} → Option A → Bool
is_some none = false
is_some (some a) = true

-- A Go `uint64`.
abbrev pub u64 : ℕ → ℕ
u64 n = n % 18446744073709551616

-- A Go `int` or `int64`; `negsuc n` is -(n + 1).
pub data ℤ : Type 0 where
  pos : ℕ → ℤ
  negsuc : ℕ → ℤ

abbrev pub is_negative : ℤ → Bool
is_negative (pos n) = false
is_negative (negsuc n) = true

-- z - 1, for `z--`.
abbrev pub decrement : ℤ → ℤ
decrement (pos zero) = negsuc 0
decrement (pos (suc n)) = pos n
decrement (negsuc n) = negsuc (suc n)

abbrev pub is_zero : ℤ → Bool
is_zero (pos n) = n == 0
is_zero (negsuc n) = false

-- n < z, where the left side is a length or another number that is never negative.
abbrev pub ltz : ℕ → ℤ → Bool
ltz n (pos m) = ltb n m
ltz n (negsuc m) = false

-- The test `n <= m` for a length and an `int`.
abbrev pub lez : ℕ → ℤ → Bool
lez n (pos m) = leb n m
lez n (negsuc m) = false

-- Equality of texts is decidable, by the library's Boolean test.
decide_text : (s t : String) → (str_eq s t ≡ true) ⊎ (str_eq s t ≡ false) → Dec (s ≡ t)
decide_text s t (inl e) = yes ((eq_iff s t).0 e)
decide_text s t (inr e) = no λ p. false≢true (sym e ∙ (eq_iff s t).1 p)

unfoldable pub String-discrete : Discrete String
unfolding decide_text Bool-cases
String-discrete s t = decide_text s t (Bool-cases (str_eq s t))

-- The two branches of a conditional, each with what the test says.
pub by_branch :
    {A P : Type 0} (b : Bool) (x y : A) {z : A}
    → (if b then x else y) ≡ z
    → (b ≡ true → x ≡ z → P)
    → (b ≡ false → y ≡ z → P)
    → P
by_branch true x y h on_true on_false = on_true refl h
by_branch false x y h on_true on_false = on_false refl h

pub not-is_some : {A : Type 0} (o : Option A) → not (is_some o) ≡ true → o ≡ none
not-is_some none h = refl
not-is_some (some a) h = cc

pub and_true : (a b : Bool) → (a && b) ≡ true → (a ≡ true) × (b ≡ true)
and_true true b h = (refl, h)
and_true false b h = cc
