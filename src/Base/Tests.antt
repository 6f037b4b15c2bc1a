-- ===== src/Base/Tests.antt =====
-- Boolean tests on the native numbers, the conditional, and case splits that keep the equation.
use Prim.Native.Nat.{ℕ, ◌≤◌, ◌<◌, compare, Ordering}
use mathlib.Core.Path.{◌≡◌, refl}
use mathlib.Core.Logic.{◌↔◌, ◌⊎◌, inl, inr}
use mathlib.Core.Bool.{Bool, true, false, ◌&&◌}
use mathlib.Core.Option.{Option, none, some}
use native.Mathlib.Omega.{arith}

abbrev pub ltb : ℕ → ℕ → Bool
ltb a b = elim (compare a b) [ Ordering.lt ↦ true | _ ↦ false ]

abbrev pub leb : ℕ → ℕ → Bool
leb a b = elim (compare a b) [ Ordering.gt ↦ false | _ ↦ true ]

infix 50 ◌==◌
abbrev pub ◌==◌ : ℕ → ℕ → Bool
a == b = elim (compare a b) [ Ordering.eq ↦ true | _ ↦ false ]

infix 1 if◌then◌else◌
abbrev pub if◌then◌else◌ {ℓ} : {A : Type ℓ} → Bool → A → A → A
if true then x else y = x
if false then x else y = y

pub ltb→lt : (a b : ℕ) → ltb a b ≡ true → a < b
ltb→lt a b h = ground arith

pub lt→ltb : (a b : ℕ) → a < b → ltb a b ≡ true
lt→ltb a b h = ground arith

pub leb→le : (a b : ℕ) → leb a b ≡ true → a ≤ b
leb→le a b h = ground arith

pub ==_iff : (a b : ℕ) → ((a == b) ≡ true) ↔ (a ≡ b)
==_iff a b = ground arith

pub ==-refl : (a : ℕ) → (a == a) ≡ true
==-refl a = ground arith

pub ruleset tests = (arith, ltb→lt, lt→ltb, leb→le)

pub Bool-cases : (b : Bool) → (b ≡ true) ⊎ (b ≡ false)
Bool-cases true = inl refl
Bool-cases false = inr refl

pub Option-cases {ℓ} : {A : Type ℓ} (o : Option A) → (o ≡ none) ⊎ ((a : A) × (o ≡ some a))
Option-cases none = inl refl
Option-cases (some a) = inr (a, refl)

abbrev pub is_some {ℓ} : {A : Type ℓ} → Option A → Bool
is_some none = false
is_some (some _) = true

pub compare_cases : (a b : ℕ) → (a < b) ⊎ (a ≡ b) ⊎ (b < a)
compare_cases a b = omega arith

pub lt→ne : (a b : ℕ) → a < b → (a == b) ≡ false
lt→ne a b h = ground arith

pub gt→ne : (a b : ℕ) → b < a → (a == b) ≡ false
gt→ne a b h = ground arith

pub &&-false : (b : Bool) → (b && false) ≡ false
&&-false true = refl
&&-false false = refl

pub compare-lt : (a b : ℕ) → a < b → compare a b ≡ Ordering.lt
compare-lt a b h = ground arith

pub compare-eq : (a b : ℕ) → a ≡ b → compare a b ≡ Ordering.eq
compare-eq a b h = ground arith

pub compare-gt : (a b : ℕ) → b < a → compare a b ≡ Ordering.gt
compare-gt a b h = ground arith

pub &&-comm : (a b : Bool) → (a && b) ≡ (b && a)
&&-comm true true = refl
&&-comm true false = refl
&&-comm false true = refl
&&-comm false false = refl

-- A result is not there and missing at once.
pub some_clash {ℓ} : {A : Type ℓ} (o : Option A) {a : A} → o ≡ some a → o ≡ none → ⊥
some_clash o e f = cc
