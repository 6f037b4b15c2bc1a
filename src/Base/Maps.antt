-- ===== src/Base/Maps.antt =====
-- Keys with a decided equality, and the hash maps of the program as functions into `Option`.
use Prim.Native.Nat.{ℕ}
use mathlib.Core.Path.{◌≡◌, refl}
use mathlib.Core.Logic.{◌≢◌, ◌↔◌}
use mathlib.Core.Bool.{Bool, true, false}
use mathlib.Core.Option.{Option, none, some}
use native.Mathlib.Omega.{arith}
use heat_gun.Base.Tests.{==_iff, if◌then◌else◌}
use heat_gun.Base.Tests

-- `Eq` as the hash maps use it: the test agrees with equality.
pub record Key {ℓ} (K : Type ℓ) : Type ℓ where
  pub beq : K → K → Bool
  pub beq_iff : (a b : K) → (beq a b ≡ true) ↔ (a ≡ b)

instance abbrev pub nat_key : Key ℕ
nat_key = record { beq = Tests.◌==◌; beq_iff = ==_iff }

abbrev pub Map {ℓ κ} : Type ℓ → Type κ → Type (ℓ ⊔ κ)
Map K V = K → Option V

module _ {ℓ κ} {K : Type ℓ} {V : Type κ} where
  abbrev pub empty_map : Map K V
  empty_map k = none

module _ {ℓ κ} {K : Type ℓ} {V : Type κ} ⦃e : Key K⦄ where
  abbrev pub insert : K → V → Map K V → Map K V
  insert k v m j = if e.beq k j then some v else m j

  abbrev pub remove : K → Map K V → Map K V
  remove k m j = if e.beq k j then none else m j

module _ {ℓ} {K : Type ℓ} ⦃e : Key K⦄ where
  pub beq_refl : (a : K) → e.beq a a ≡ true
  beq_refl a = (e.beq_iff a a).1 refl

  pub beq-ne : (a b : K) → a ≢ b → e.beq a b ≡ false
  beq-ne a b h = ground (arith, e.beq_iff a b)
