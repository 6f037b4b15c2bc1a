-- ===== src/Ecs/Entity/Members/Moves.antt =====
-- The entities and the lists of the archetypes agree, a move request at a time.
use heat_gun.Base.{
  ℕ, ◌≤◌, ◌≡◌, refl, sym, ap, ◌∙◌, true, false, List, [], Option, none, some, arith, Map, insert,
  nat_key, length, get_elem?, get_elem?-lt, swap_remove, swap_remove_lem, Swapped, is_some, ◌==◌,
  ==_iff, if◌then◌else◌, Bool-cases, Option-cases, inl, inr, some_clash, Listing, Detached-Listing,
  patched, moved_last,
}
use mathlib.Core.Bool.{false≢true}
use heat_gun.Ecs.Entity.Tree.{EntityInfo, Entities}
use heat_gun.Ecs.Entity.Members.{empty_archetype, Reshaping, list_or_empty, patch_index, leave}

-- An archetype that lists its members: not the empty one.
abbrev pub arch_of : ℕ → Option ℕ
arch_of a = if a == empty_archetype then none else some a

abbrev pub own_arch : Option EntityInfo → Option ℕ
own_arch none = none
own_arch (some info) = arch_of info.archetype

abbrev pub index_of : Option EntityInfo → ℕ
index_of none = 0
index_of (some info) = info.index_in_archetype

abbrev pub arch_or : Option ℕ → Option EntityInfo → Option ℕ
arch_or none o = own_arch o
arch_or (some a) o = arch_of a

-- Where an entity is listed: by its request, or where it has none, by its archetype.
abbrev pub listed : Map ℕ ℕ → Entities → ℕ → Option ℕ
listed requests m x = arch_or (requests x) (m x)

abbrev pub members : Reshaping → ℕ → List ℕ
members s a = if a == empty_archetype then [] else list_or_empty (s.index_members a)

abbrev pub Settled : Map ℕ ℕ → Reshaping → Type 0
Settled requests s = Listing (listed requests s.entities) (λ x. index_of (s.entities x)) (members s)

-- Views that are equal at each entity list alike.
pub Listing-ext :
    {owner owner' : ℕ → Option ℕ} {index index' : ℕ → ℕ} {members members' : ℕ → List ℕ}
    → ((x : ℕ) → owner' x ≡ owner x)
    → ((x : ℕ) → index' x ≡ index x)
    → ((x : ℕ) → members' x ≡ members x)
    → Listing owner index members
    → Listing owner' index' members'
Listing-ext o i m v = record {
  down = λ p k c e.
      let (a, b) = v.down p k c (sym (ap (λ l. get_elem? l k) (m p)) ∙ e) in (o c ∙ a, i c ∙ b);
  up = λ c p e. rw (m p, i c) (v.up c p (sym (o c) ∙ e));
}

-- An entity that was taken out of its list, with a request or without.
abbrev pub without : ℕ → (ℕ → Option ℕ) → ℕ → Option ℕ
without entity owner x = if entity == x then none else owner x

abbrev pub archetype_of : Option EntityInfo → Option ℕ
archetype_of none = none
archetype_of (some info) = some info.archetype

-- What the first half of a move leaves.
pub record Left (requests : Map ℕ ℕ) (entity : ℕ) (s s' : Reshaping) : Type 0 where
  pub listing :
      Listing
        (without entity (listed requests s.entities))
        (λ x. index_of (s'.entities x))
        (members s')
  pub archetypes : (x : ℕ) → archetype_of (s'.entities x) ≡ archetype_of (s.entities x)
  pub others : (a : ℕ) → length (members s' a) ≤ length (members s a)

module _ (requests : Map ℕ ℕ) (s : Reshaping) (v : Settled requests s)
    (alive : (x a : ℕ) → requests x ≡ some a → is_some (s.entities x) ≡ true) (entity old : ℕ)
    (info : EntityInfo) (at : s.entities entity ≡ some info)
    (request : requests entity ≡ some old) where
  -- The entity was in no list.
  pub Left-empty : old ≡ empty_archetype → Left requests entity s s
  Left-empty e = record {
    listing = Listing-ext same (λ x. refl) (λ x. refl) v;
    archetypes = λ x. refl;
    others = λ a. omega arith;
  }
    where
      same : (x : ℕ) → without entity (listed requests s.entities) x ≡ listed requests s.entities x
      same x = elim (Bool-cases (entity == x)) [
        | inl h ↦ rw (h, ← (==_iff entity x).0 h, request, e) refl
        | inr h ↦ rw h refl
      ]

  module _ (some_arch : (old == empty_archetype) ≡ false) where
    owned : listed requests s.entities entity ≡ some old
    owned = rw (request, some_arch) refl

    there : get_elem? (members s old) (index_of (s.entities entity)) ≡ some entity
    there = v.up entity old owned

    list_at : (l : List ℕ) × (s.index_members old ≡ some l)
    list_at = elim (Option-cases (s.index_members old)) [
      | inl e ↦ absurd (nothing (index_of (s.entities entity)) (rw (some_arch, e) at there))
      | inr (l, e) ↦ (l, e)
    ]
      where
        nothing : (i : ℕ) → none ≡ some entity → ⊥
        nothing i e = cc

    members_old : (l : List ℕ) → s.index_members old ≡ some l → members s old ≡ l
    members_old l e = rw (some_arch, e) refl

    module _ (l rest : List ℕ) (at_l : s.index_members old ≡ some l)
        (cut : swap_remove info.index_in_archetype l ≡ some rest)
        (swapped : Swapped (index_of (s.entities entity)) (members s old) rest) where
      abbrev shortened : Entities → Reshaping
      shortened m = record s { entities = m; index_members = insert old rest s.index_members }

      kids :
          (m : Entities) (x : ℕ)
          → members (shortened m) x ≡ (if old == x then rest else members s x)
      kids m x = elim (Bool-cases (old == x)) [
        | inl h ↦ rw (h, ← (==_iff old x).0 h, some_arch) refl
        | inr h ↦ rw h refl
      ]

      shorter : (m : Entities) (a : ℕ) → length (members (shortened m) a) ≤ length (members s a)
      shorter m a = elim (Bool-cases (old == a)) [
        | inl h ↦ rw (kids m a, h, swapped.0, (==_iff old a).0 h) (omega arith)
        | inr h ↦ rw (kids m a, h) (omega arith)
      ]

      moved_alive :
          (x : ℕ)
          → listed requests s.entities x ≡ some old
          → (i : EntityInfo) × (s.entities x ≡ some i)
      moved_alive x e = elim (Option-cases (s.entities x)) [
        | inr found ↦ found
        | inl dead ↦ elim (Option-cases (requests x)) [
          | inl unasked ↦
              absurd (some_clash (listed requests s.entities x) e (rw (unasked, dead) refl))
          | inr (a, r) ↦ absurd (false≢true (sym (ap is_some dead) ∙ alive x a r))
        ]
      ]

      patched_lem :
          (o : Option ℕ)
          → get_elem? rest (index_of (s.entities entity)) ≡ o
          → (m : Entities) × (patch_index info.index_in_archetype o s.entities ≡ some m)
            × ((x : ℕ)
                → index_of (m x) ≡ patched info.index_in_archetype o x (index_of (s.entities x)))
            × ((x : ℕ) → archetype_of (m x) ≡ archetype_of (s.entities x))
      unfolding patch_index
      patched_lem none e = (s.entities, refl, (λ x. refl), λ x. refl)
      patched_lem (some moved) e =
          let (own, last) =
            moved_last (listed requests s.entities) (λ x. index_of (s.entities x)) (members s) v
              entity old rest owned swapped moved e in
          let (i, at_i) = moved_alive moved own in
          (
            insert moved (record i { index_in_archetype = info.index_in_archetype }) s.entities,
            rw at_i refl,
            (λ x. elim (Bool-cases (moved == x)) [ inl h ↦ rw h refl | inr h ↦ rw h refl ]),
            λ x. elim (Bool-cases (moved == x)) [
              | inl h ↦ rw (h, ← (==_iff moved x).0 h, at_i) refl
              | inr h ↦ rw h refl
            ],
          )

      place : index_of (s.entities entity) ≡ info.index_in_archetype
      place = rw at refl

      leave_eq :
          (m : Entities)
          → patch_index info.index_in_archetype (get_elem? rest info.index_in_archetype) s.entities
            ≡ some m
          → leave old info.index_in_archetype s ≡ some (shortened m)
      unfolding leave
      leave_eq m e = rw (at_l, cut, e) refl

      Left-shortened :
          (s' : Reshaping) × (leave old info.index_in_archetype s ≡ some s')
          × Left requests entity s s'
      Left-shortened =
          let (m, e, places, archs) =
            patched_lem (get_elem? rest info.index_in_archetype) (rw place refl) in
          (
            shortened m,
            leave_eq m e,
            record {
              listing =
                  Detached-Listing (listed requests s.entities) (λ x. index_of (s.entities x))
                    (members s) v entity old rest owned swapped
                    (without entity (listed requests s.entities)) (λ x. index_of (m x))
                    (members (shortened m))
                    (record {
                      parents = λ x. refl;
                      kids = kids m;
                      places = λ x. rw place (places x);
                    });
              archetypes = archs;
              others = shorter m;
            },
          )

    pub Left-leave :
        (s' : Reshaping) × (leave old info.index_in_archetype s ≡ some s')
        × Left requests entity s s'
    Left-leave =
        let (l, at_l) = list_at in
        let (rest, cut, swapped) = cut_lem l (members_old l at_l) in
        Left-shortened l rest at_l cut swapped
      where
        cut_lem :
            (l : List ℕ)
            → members s old ≡ l
            → (rest : List ℕ) × (swap_remove info.index_in_archetype l ≡ some rest)
              × Swapped (index_of (s.entities entity)) (members s old) rest
        cut_lem l e =
            let i : index_of (s.entities entity) ≡ info.index_in_archetype = rw at refl in
            rw (e, i)
              (swap_remove_lem info.index_in_archetype l
                (rw (e, i) at (get_elem?-lt (members s old) (index_of (s.entities entity)) there)))
