-- ===== src/Base/Swap.antt =====
-- `Vec::swap_remove`.
use Prim.Native.Nat.{ℕ, ◌-◌, ◌<◌, ◌≤◌}
use mathlib.Core.Path.{◌≡◌, refl, ◌∙◌}
use mathlib.Core.Logic.{◌≢◌, inl, inr}
use mathlib.Core.Bool.{false}
use mathlib.Core.List.{List}
use mathlib.Core.Option.{Option, none, some}
use native.Mathlib.Omega.{arith}
use heat_gun.Base.Tests.{
  ltb, lt→ltb, ltb→lt, ◌==◌, ==_iff, if◌then◌else◌, Bool-cases, Option-cases, some_clash,
}
use heat_gun.Base.Lists.{
  length, get_elem?, set, take, length-set, length-take, get_elem?-set_self, get_elem?-set_ne,
  get_elem?-of_lt, get_elem?-take, get_elem?-take_ge,
}

-- The last element takes the place; `none` is the panic out of range.
unfoldable pub swap_remove {ℓ} : {A : Type ℓ} → ℕ → List A → Option (List A)
swap_remove i xs = elim (get_elem? xs (length xs - 1)) [
  | none ↦ none
  | some last ↦ if ltb i (length xs) then some (take (length xs - 1) (set xs i last)) else none
]

-- One element fewer, and at each place below the end what stood there, or the last element.
abbrev pub Swapped {ℓ} : {A : Type ℓ} → ℕ → List A → List A → Type ℓ
Swapped i xs rest =
    (length rest ≡ length xs - 1)
    × ((j : ℕ)
        → get_elem? rest j ≡ (
            if ltb j (length xs - 1)
            then (if i == j then get_elem? xs (length xs - 1) else get_elem? xs j)
            else none))

swapped {ℓ} :
    {A : Type ℓ} (i : ℕ) (xs : List A) (last : A)
    → i < length xs
    → get_elem? xs (length xs - 1) ≡ some last
    → Swapped i xs (take (length xs - 1) (set xs i last))
swapped i xs last h e = (
  length-take (length xs - 1) (set xs i last) ∙ rw (length-set xs i last) (omega arith),
  λ j. elim (Bool-cases (ltb j (length xs - 1))) [
    | inl g ↦
        get_elem?-take (length xs - 1) j (set xs i last) (ltb→lt j (length xs - 1) g)
        ∙ elim (Bool-cases (i == j)) [
          | inl same ↦ rw (g, same, e, ← (==_iff i j).0 same) (get_elem?-set_self xs i last h)
          | inr other ↦ rw (g, other) (get_elem?-set_ne xs i j last (apart j other))
        ]
    | inr g ↦ rw g (get_elem?-take_ge (length xs - 1) j (set xs i last) (beyond j g))
  ],
)
  where
    apart : (j : ℕ) → (i == j) ≡ false → i ≢ j
    apart j g e = ground (arith, ==_iff i j)

    beyond : (j : ℕ) → ltb j (length xs - 1) ≡ false → length xs - 1 ≤ j
    beyond j g = ground arith

pub swap_remove_lem {ℓ} :
    {A : Type ℓ} (i : ℕ) (xs : List A)
    → i < length xs
    → (rest : List A) × (swap_remove i xs ≡ some rest) × Swapped i xs rest
unfolding swap_remove
swap_remove_lem i xs h = elim (Option-cases (get_elem? xs (length xs - 1))) [
  | inl e ↦
      let (last, at) = get_elem?-of_lt xs (length xs - 1) (omega arith) in
      absurd (some_clash (get_elem? xs (length xs - 1)) at e)
  | inr (last, e) ↦ (
    take (length xs - 1) (set xs i last),
    rw (swap_remove, e, lt→ltb i (length xs) h) refl,
    swapped i xs last h e,
  )
]
