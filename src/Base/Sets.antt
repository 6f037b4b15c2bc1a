-- ===== src/Base/Sets.antt =====
-- Hash sets over identifiers as lists without repetition; the order of the list is the order of
-- iteration, which the program does not fix.
use Prim.Native.Nat.{ℕ}
use mathlib.Core.Path.{◌≡◌, refl}
use mathlib.Core.Bool.{Bool, false, not, ◌&&◌, ◌||◌}
use mathlib.Core.List.{List, [], ◌∷◌, ◌++◌}
use native.Mathlib.Omega.{arith}
use heat_gun.Base.Tests.{◌==◌, if◌then◌else◌}

abbrev pub contains : ℕ → List ℕ → Bool
contains a [] = false
contains a (x ∷ xs) = x == a || contains a xs

-- `HashSet::insert`: adds an element that is not there.
unfoldable pub set_insert : ℕ → List ℕ → List ℕ
set_insert a xs = if contains a xs then xs else a ∷ xs

-- `HashSet::remove`.
unfoldable pub set_remove : ℕ → List ℕ → List ℕ
set_remove a [] = []
set_remove a (x ∷ xs) = if x == a then set_remove a xs else x ∷ set_remove a xs

-- `HashSet::retain`, and `filter` in general.
unfoldable pub retain {ℓ} : {A : Type ℓ} → (A → Bool) → List A → List A
retain p [] = []
retain p (x ∷ xs) = if p x then x ∷ retain p xs else retain p xs

pub contains-set_insert :
    (a b : ℕ) (xs : List ℕ) → contains b (set_insert a xs) ≡ (a == b || contains b xs)
unfolding set_insert
contains-set_insert a b [] = refl
contains-set_insert a b (x ∷ xs) = ground (arith, contains-set_insert a b xs)

pub contains-set_remove :
    (a b : ℕ) (xs : List ℕ) → contains b (set_remove a xs) ≡ (not (a == b) && contains b xs)
unfolding set_remove
contains-set_remove a b [] = ground arith
contains-set_remove a b (x ∷ xs) = ground (arith, contains-set_remove a b xs)

pub contains-retain :
    (p : ℕ → Bool) (b : ℕ) (xs : List ℕ) → contains b (retain p xs) ≡ (p b && contains b xs)
unfolding retain
contains-retain p b [] = ground arith
contains-retain p b (x ∷ xs) = ground (arith, contains-retain p b xs)

pub contains-append :
    (b : ℕ) (xs ys : List ℕ) → contains b (xs ++ ys) ≡ (contains b xs || contains b ys)
contains-append b [] ys = refl
contains-append b (x ∷ xs) ys = ground (arith, contains-append b xs ys)

-- No element stands twice.
abbrev pub IsNodup : List ℕ → Type 0
IsNodup [] = Unit {0}
IsNodup (x ∷ xs) = (contains x xs ≡ false) × IsNodup xs

pub set_insert-IsNodup : (a : ℕ) (xs : List ℕ) → IsNodup xs → IsNodup (set_insert a xs)
unfolding set_insert
set_insert-IsNodup a xs h = ground arith

pub set_remove-IsNodup : (a : ℕ) (xs : List ℕ) → IsNodup xs → IsNodup (set_remove a xs)
unfolding set_remove
set_remove-IsNodup a [] h = tt
set_remove-IsNodup a (x ∷ xs) h =
    ground (arith, set_remove-IsNodup a xs h.1, contains-set_remove a x xs)

pub retain-IsNodup : (p : ℕ → Bool) (xs : List ℕ) → IsNodup xs → IsNodup (retain p xs)
unfolding retain
retain-IsNodup p [] h = tt
retain-IsNodup p (x ∷ xs) h = ground (arith, retain-IsNodup p xs h.1, contains-retain p x xs)
