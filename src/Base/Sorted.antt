-- ===== src/Base/Sorted.antt =====
-- Strictly ascending lists of numbers, the form of a component set and of an index of archetypes.
use heat_gun.Base.Tests.{◌==◌, Bool-cases}
use heat_gun.Base.Sets.{contains, retain}
use mathlib.Core.Logic.{inl, inr}
use mathlib.Core.Logic.{inl, inr}
use Prim.Native.Nat.{ℕ, suc, ◌≤◌, ◌<◌}
use mathlib.Core.Path.{◌≡◌, refl}
use mathlib.Core.Bool.{Bool, true, false, ◌&&◌}
use mathlib.Core.List.{List, [], ◌∷◌, ◌++◌}
use native.Mathlib.Omega.{arith}

-- Strictly ascending, and nothing below `lo`.
abbrev pub SortedFrom : ℕ → List ℕ → Type 0
SortedFrom lo [] = Unit {0}
SortedFrom lo (x ∷ xs) = (lo ≤ x) × SortedFrom (suc x) xs

abbrev pub IsSorted : List ℕ → Type 0
IsSorted xs = SortedFrom 0 xs

pub SortedFrom-mono : (lo hi : ℕ) (xs : List ℕ) → lo ≤ hi → SortedFrom hi xs → SortedFrom lo xs
SortedFrom-mono lo hi [] h s = tt
SortedFrom-mono lo hi (x ∷ xs) h s = (omega arith, s.1)

pub contains-below : (lo a : ℕ) (xs : List ℕ) → SortedFrom lo xs → a < lo → contains a xs ≡ false
contains-below lo a [] s h = refl
contains-below lo a (x ∷ xs) s h = ground (arith, contains-below (suc x) a xs s.1)

pub SortedFrom-snoc :
    (lo a : ℕ) (xs : List ℕ)
    → SortedFrom lo xs
    → lo ≤ a
    → ((b : ℕ) → contains b xs ≡ true → b < a)
    → SortedFrom lo (xs ++ a ∷ [])
SortedFrom-snoc lo a [] s h below = (h, tt)
SortedFrom-snoc lo a (x ∷ xs) s h below = (
  s.0,
  SortedFrom-snoc (suc x) a xs s.1 (ground (arith, below x)) (λ b m. ground (arith, below b)),
)

abbrev pub list_eq : List ℕ → List ℕ → Bool
list_eq [] [] = true
list_eq [] (y ∷ ys) = false
list_eq (x ∷ xs) [] = false
list_eq (x ∷ xs) (y ∷ ys) = x == y && list_eq xs ys

pub list_eq-eq : (xs ys : List ℕ) → list_eq xs ys ≡ true → xs ≡ ys
list_eq-eq [] [] h = refl
list_eq-eq [] (y ∷ ys) h = cc
list_eq-eq (x ∷ xs) [] h = cc
list_eq-eq (x ∷ xs) (y ∷ ys) h = ground (arith, list_eq-eq xs ys)

pub list_eq_refl : (xs : List ℕ) → list_eq xs xs ≡ true
list_eq_refl [] = refl
list_eq_refl (x ∷ xs) = ground (arith, list_eq_refl xs)

pub retain-sorted :
    (lo : ℕ) (p : ℕ → Bool) (xs : List ℕ) → SortedFrom lo xs → SortedFrom lo (retain p xs)
unfolding retain
retain-sorted lo p [] s = tt
retain-sorted lo p (x ∷ xs) s = elim (Bool-cases (p x)) [
  | inl e ↦ rw e (s.0, retain-sorted (suc x) p xs s.1)
  | inr e ↦
      rw e (SortedFrom-mono lo (suc x) (retain p xs) (omega arith) (retain-sorted (suc x) p xs s.1))
]
