-- ===== src/Base/Owners.antt =====
-- Members in the lists of their owners: where each member keeps its place in the list, and a member is
-- removed by `swap_remove`, behind which the place of the member that moved is patched.
use Prim.Native.Nat.{ℕ, ◌-◌, ◌<◌}
use mathlib.Core.Path.{◌≡◌, refl, sym, ap, ◌∙◌}
use mathlib.Core.Logic.{◌≢◌, ◌⊎◌, inl, inr}
use mathlib.Core.Bool.{true, false, false≢true}
use mathlib.Core.List.{List}
use mathlib.Core.Option.{Option, none, some, some-injective}
use native.Mathlib.Omega.{arith}
use heat_gun.Base.Tests.{ltb, lt→ltb, ◌==◌, ==_iff, ==-refl, if◌then◌else◌, Bool-cases, some_clash}
use heat_gun.Base.Lists.{length, get_elem?, get_elem?-lt}
use heat_gun.Base.Swap.{Swapped}

-- The place of a member says where its owner lists it, and what an owner lists says so.
pub record Listing (owner : ℕ → Option ℕ) (index : ℕ → ℕ) (members : ℕ → List ℕ) : Type 0 where
  pub down : (p i c : ℕ) → get_elem? (members p) i ≡ some c → (owner c ≡ some p) × (index c ≡ i)
  pub up : (c p : ℕ) → owner c ≡ some p → get_elem? (members p) (index c) ≡ some c

-- A member is taken out.
abbrev pub patched : ℕ → Option ℕ → ℕ → ℕ → ℕ
patched i none x old = old
patched i (some moved) x old = if moved == x then i else old

pub record Detached (entity old i : ℕ) (rest : List ℕ) (owner : ℕ → Option ℕ) (index : ℕ → ℕ)
    (members : ℕ → List ℕ) (owner' : ℕ → Option ℕ) (index' : ℕ → ℕ) (members' : ℕ → List ℕ)
    : Type 0 where
  pub parents : (x : ℕ) → owner' x ≡ (if entity == x then none else owner x)
  pub kids : (x : ℕ) → members' x ≡ (if old == x then rest else members x)
  pub places : (x : ℕ) → index' x ≡ patched i (get_elem? rest i) x (index x)

module _ (owner : ℕ → Option ℕ) (index : ℕ → ℕ) (members : ℕ → List ℕ)
    (v : Listing owner index members) (entity old : ℕ) (rest : List ℕ)
    (child : owner entity ≡ some old) (swapped : Swapped (index entity) (members old) rest) where
  abbrev place : ℕ
  place = index entity

  abbrev before : List ℕ
  before = members old

  pub there : get_elem? before place ≡ some entity
  there = v.up entity old child

  pub inside : place < length before
  inside = get_elem?-lt before place there

  -- The only entity at the place is the detached one.
  only_there : (c : ℕ) → get_elem? before place ≡ some c → c ≡ entity
  only_there c e = sym (some-injective entity c (sym there ∙ e))

  -- A child that is left is a child of before, at its place, or the last child at the new place.
  left :
      (i c : ℕ)
      → get_elem? rest i ≡ some c
      → (owner c ≡ some old)
        × (index c ≢ place)
        × (((place ≡ i) × (index c ≡ length before - 1))
            ⊎ ((place ≢ i) × (index c ≡ i) × (index c ≢ length before - 1)))
  left i c e = elim (Bool-cases (ltb i (length before - 1))) [
    | inl h ↦ elim (Bool-cases (place == i)) [
      | inl same ↦
          let (p, k) = v.down old (length before - 1) c (rw (h, same) at (sym (swapped.1 i) ∙ e)) in
          (p, ground (arith, ==_iff place i), inl ((==_iff place i).0 same, k))
      | inr other ↦
          let (p, k) = v.down old i c (rw (h, other) at (sym (swapped.1 i) ∙ e)) in
          (p, ground (arith, ==_iff place i), inr (ground (arith, ==_iff place i), k, ground arith))
    ]
    | inr h ↦ absurd (some_clash (get_elem? rest i) e (swapped.1 i ∙ rw h refl))
  ]

  unpatched :
      (c k : ℕ) → (get_elem? rest place ≡ some c → ⊥) → patched place (get_elem? rest place) c k ≡ k
  unpatched c k away = go (get_elem? rest place) away
    where
      go : (o : Option ℕ) → (o ≡ some c → ⊥) → patched place o c k ≡ k
      go none away = refl
      go (some moved) away = elim (Bool-cases (moved == c)) [
        | inl h ↦ absurd (away (ap some ((==_iff moved c).0 h)))
        | inr h ↦ rw h refl
      ]

  repatched :
      (c k : ℕ) → get_elem? rest place ≡ some c → patched place (get_elem? rest place) c k ≡ place
  repatched c k e = rw (e, ==-refl c) refl

  -- The child at the freed place is the one that was last.
  pub moved_last :
      (c : ℕ) → get_elem? rest place ≡ some c → (owner c ≡ some old) × (index c ≡ length before - 1)
  moved_last c e =
      let (p, k, which) = left place c e in
      (p, elim which [ inl (s, l) ↦ l | inr (ne, s, l) ↦ absurd (ne refl) ])

  module _ (owner' : ℕ → Option ℕ) (index' : ℕ → ℕ) (members' : ℕ → List ℕ)
      (d : Detached entity old place rest owner index members owner' index' members') where
    apart : (a b : ℕ) → a ≢ b → (a == b) ≡ false
    apart a b ne = elim (Bool-cases (a == b)) [ inl h ↦ absurd (ne ((==_iff a b).0 h)) | inr h ↦ h ]

    other_parent : (c : ℕ) → c ≢ entity → owner' c ≡ owner c
    other_parent c ne = d.parents c ∙ rw (apart entity c (λ e. ne (sym e))) refl

    down_old : (i c : ℕ) → get_elem? rest i ≡ some c → (owner' c ≡ some old) × (index' c ≡ i)
    down_old i c e =
        let (p, k, which) = left i c e in
        (
          other_parent c (λ same. k (ap (index) same)) ∙ p,
          d.places c ∙ elim which [
            | inl (s, l) ↦ repatched c (index c) (rw s e) ∙ s
            | inr (ne, s, l) ↦ unpatched c (index c) (λ g. l (moved_last c g).1) ∙ s
          ],
        )

    down_other :
        (p i c : ℕ)
        → old ≢ p
        → get_elem? (members p) i ≡ some c
        → (owner' c ≡ some p) × (index' c ≡ i)
    down_other p i c ne e =
        let (q, k) = v.down p i c e in
        (
          other_parent c (λ same. ne (some-injective old p (sym child ∙ ap (owner) (sym same) ∙ q)))
              ∙ q,
          d.places c
              ∙ unpatched c (index c) (λ g. ne (some-injective old p (sym (moved_last c g).0 ∙ q)))
              ∙ k,
        )

    up_old : (c : ℕ) → c ≢ entity → owner c ≡ some old → get_elem? rest (index' c) ≡ some c
    up_old c ne p =
        let at = v.up c old p in
        let in_before = get_elem?-lt before (index c) at in
        let not_place : place ≢ index c = λ s. ne (only_there c (rw s at)) in
        elim (Bool-cases (index c == length before - 1)) [
          | inl h ↦
              let last = (==_iff (index c) (length before - 1)).0 h in
              let shorter : ltb place (length before - 1) ≡ true =
                lt→ltb place (length before - 1)
                  (below place (index c) (length before) inside not_place last) in
              let moved : get_elem? rest place ≡ some c =
                swapped.1 place ∙ rw (shorter, ==-refl place, ← last) at in
              rw (d.places c, repatched c (index c) moved) moved
          | inr h ↦
              let not_last : index c ≢ length before - 1 =
                λ s. false≢true (sym h ∙ (==_iff (index c) (length before - 1)).1 s) in
              rw (d.places c, unpatched c (index c) (λ g. not_last (moved_last c g).1))
                (swapped.1 (index c)
                  ∙ rw
                      (
                        lt→ltb (index c) (length before - 1)
                            (inner (index c) (length before) in_before not_last),
                        apart place (index c) not_place,
                      )
                      at)
        ]
      where
        below : (i j n : ℕ) → i < n → i ≢ j → j ≡ n - 1 → i < n - 1
        below i j n h ne e = ground arith

        inner : (j n : ℕ) → j < n → j ≢ n - 1 → j < n - 1
        inner j n h ne = ground arith

    up_other : (c p : ℕ) → old ≢ p → owner c ≡ some p → get_elem? (members p) (index' c) ≡ some c
    up_other c p ne q =
        rw
          (
            d.places c,
            unpatched c (index c) (λ g. ne (some-injective old p (sym (moved_last c g).0 ∙ q))),
          )
          (v.up c p q)

    pub Detached-Listing : Listing owner' index' members'
    Detached-Listing = record {
      down = λ p i c e. elim (Bool-cases (old == p)) [
        | inl h ↦
            let same = (==_iff old p).0 h in rw (← same) (down_old i c (rw (d.kids p, h) at e))
        | inr h ↦
            down_other p i c (λ s. false≢true (sym h ∙ (==_iff old p).1 s)) (rw (d.kids p, h) at e)
      ];
      up = λ c p e. elim (Bool-cases (entity == c)) [
        | inl h ↦ absurd (no_parent (rw h at (sym (d.parents c) ∙ e)))
        | inr h ↦
            let q : owner c ≡ some p = rw h at (sym (d.parents c) ∙ e) in
            elim (Bool-cases (old == p)) [
              | inl g ↦
                  let same = (==_iff old p).0 g in
                  rw (d.kids p, g)
                    (up_old c (λ s. false≢true (sym h ∙ (==_iff entity c).1 (sym s)))
                      (q ∙ ap some (sym same)))
              | inr g ↦
                  rw (d.kids p, g) (up_other c p (λ s. false≢true (sym g ∙ (==_iff old p).1 s)) q)
            ]
      ];
    }
      where
        no_parent : {p : ℕ} → none ≡ some p → ⊥
        no_parent e = cc
