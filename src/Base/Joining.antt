-- ===== src/Base/Joining.antt =====
-- A member joins the list of an owner, at its end.
use Prim.Native.Nat.{ℕ, ◌+◌, ◌<◌, ◌≤◌}
use mathlib.Core.Path.{◌≡◌, refl, sym, ap, ◌∙◌}
use mathlib.Core.Logic.{inl, inr}
use mathlib.Core.List.{List, [], ◌∷◌, ◌++◌}
use mathlib.Core.Option.{Option, none, some, some-injective}
use native.Mathlib.Omega.{arith}
use heat_gun.Base.Tests.{
  ◌==◌, ==_iff, ==-refl, if◌then◌else◌, Bool-cases, some_clash, compare_cases,
}
use heat_gun.Base.Lists.{
  length, get_elem?, get_elem?-lt, get_elem?-ge, get_elem?-append_left, get_elem?-length_append,
  length-append,
}
use heat_gun.Base.Owners.{Listing}

-- A member without an owner is put at the end of a list.
pub record Attached (entity p : ℕ) (owner : ℕ → Option ℕ) (index : ℕ → ℕ) (members : ℕ → List ℕ)
    (owner' : ℕ → Option ℕ) (index' : ℕ → ℕ) (members' : ℕ → List ℕ) : Type 0 where
  pub parents : (x : ℕ) → owner' x ≡ (if entity == x then some p else owner x)
  pub kids : (x : ℕ) → members' x ≡ (if p == x then members p ++ entity ∷ [] else members x)
  pub places : (x : ℕ) → index' x ≡ (if entity == x then length (members p) else index x)

module _ (owner : ℕ → Option ℕ) (index : ℕ → ℕ) (members : ℕ → List ℕ)
    (v : Listing owner index members) (entity p : ℕ) (root : owner entity ≡ none)
    (owner' : ℕ → Option ℕ) (index' : ℕ → ℕ) (members' : ℕ → List ℕ)
    (a : Attached entity p owner index members owner' index' members') where
  down_attached :
      (q i c : ℕ) → owner c ≡ some q → index c ≡ i → (owner' c ≡ some q) × (index' c ≡ i)
  down_attached q i c o k = elim (Bool-cases (entity == c)) [
    | inl h ↦ absurd (some_clash (owner c) o (ap owner (sym ((==_iff entity c).0 h)) ∙ root))
    | inr h ↦ (a.parents c ∙ rw h o, a.places c ∙ rw h k)
  ]

  down_p :
      (i c : ℕ)
      → get_elem? (members p ++ entity ∷ []) i ≡ some c
      → (owner' c ≡ some p) × (index' c ≡ i)
  down_p i c e = elim (compare_cases i (length (members p))) [
    | inl lt ↦
        let (o, k) =
          v.down p i c (sym (get_elem?-append_left (members p) (entity ∷ []) i lt) ∙ e) in
        down_attached p i c o k
    | inr (inl same) ↦
        let it : entity ≡ c =
          some-injective entity c
            (sym (get_elem?-length_append (members p) (entity ∷ [])) ∙ rw same at e) in
        (
          a.parents c ∙ rw (← it, ==-refl entity) refl,
          a.places c ∙ rw (← it, ==-refl entity) (sym same),
        )
    | inr (inr gt) ↦ absurd (
        some_clash (get_elem? (members p ++ entity ∷ []) i) e (
          get_elem?-ge (members p ++ entity ∷ []) i
            (rw (length-append (members p) (entity ∷ [])) (past i (length (members p)) gt))))
  ]
    where
      past : (i n : ℕ) → n < i → n + 1 ≤ i
      past i n h = omega arith

  up_p : (c : ℕ) → owner c ≡ some p → get_elem? (members p ++ entity ∷ []) (index c) ≡ some c
  up_p c o =
      let listed = v.up c p o in
      get_elem?-append_left (members p) (entity ∷ []) (index c)
        (get_elem?-lt (members p) (index c) listed)
      ∙ listed

  pub Attached-Listing : Listing owner' index' members'
  Attached-Listing = record {
    down = λ q i c e. elim (Bool-cases (p == q)) [
      | inl h ↦ let same = (==_iff p q).0 h in rw (← same) (down_p i c (rw (a.kids q, h) at e))
      | inr h ↦ let (o, k) = v.down q i c (rw (a.kids q, h) at e) in down_attached q i c o k
    ];
    up = λ c q e. elim (Bool-cases (entity == c)) [
      | inl h ↦
          let it = (==_iff entity c).0 h in
          let same : p ≡ q = some-injective p q (rw h at (sym (a.parents c) ∙ e)) in
          rw (a.kids q, ← same, ==-refl p, a.places c, h, ← it)
            (get_elem?-length_append (members p) (entity ∷ []))
      | inr h ↦
          let o : owner c ≡ some q = rw h at (sym (a.parents c) ∙ e) in
          elim (Bool-cases (p == q)) [
            | inl g ↦
                let same = (==_iff p q).0 g in
                rw (a.kids q, g, a.places c, h) (up_p c (rw (← same) at o))
            | inr g ↦ rw (a.kids q, g, a.places c, h) (v.up c q o)
          ]
    ];
  }
