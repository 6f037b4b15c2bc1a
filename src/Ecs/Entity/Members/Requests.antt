-- ===== src/Ecs/Entity/Members/Requests.antt =====
-- A whole move request.
use heat_gun.Base.{
  ℕ, ◌+◌, ◌^◌, ◌<◌, ◌≤◌, ◌≡◌, refl, ap, ◌∙◌, true, false, [], ◌∷◌, ◌++◌, Option, none, some, arith,
  Map, insert, remove, nat_key, length, length-append, is_some, lt→ltb, ◌==◌, ==_iff, ==-refl,
  if◌then◌else◌, Bool-cases, Option-cases, inl, inr, Attached-Listing,
}
use mathlib.Core.Option.{some-injective}
use heat_gun.Ecs.Entity.Tree.{EntityInfo, Entities}
use heat_gun.Ecs.Entity.Members.{empty_archetype, Reshaping, list_or_empty, enter, move_entity}
use heat_gun.Ecs.Entity.Members.Moves.{
  arch_of, own_arch, index_of, listed, members, Settled, Listing-ext, without, archetype_of, Left,
  Left-empty, Left-leave,
}

own-archetype :
    (o o' : Option EntityInfo) → archetype_of o ≡ archetype_of o' → own_arch o ≡ own_arch o'
own-archetype none none e = refl
own-archetype none (some b) e = absurd (cc)
own-archetype (some a) none e = absurd (cc)
own-archetype (some a) (some b) e = ap arch_of (some-injective a.archetype b.archetype e)

still :
    (o : Option EntityInfo) (a : ℕ)
    → archetype_of o ≡ some a
    → (i : EntityInfo) × (o ≡ some i) × (i.archetype ≡ a)
still none a e = absurd (cc)
still (some i) a e = (i, refl, some-injective i.archetype a e)

module _ (requests : Map ℕ ℕ) (s s1 : Reshaping) (entity : ℕ) (info info1 : EntityInfo)
    (left : Left requests entity s s1) (at1 : s1.entities entity ≡ some info1)
    (same_arch : info1.archetype ≡ info.archetype) where
  -- Without its request, another entity is listed where it was.
  others_listed :
      (m : Entities)
      → ((x : ℕ) → archetype_of (m x) ≡ archetype_of (s1.entities x))
      → (x : ℕ) → (entity == x) ≡ false
      → listed (remove entity requests) m x ≡ without entity (listed requests s.entities) x
  others_listed m keeps x h = elim (Option-cases (requests x)) [
    | inr (a, r) ↦ rw (h, r) refl
    | inl r ↦ rw (h, r) (own-archetype (m x) (s.entities x) (keeps x ∙ left.archetypes x))
  ]

  Settled-empty : info.archetype ≡ empty_archetype → Settled (remove entity requests) s1
  Settled-empty e = Listing-ext same (λ x. refl) (λ x. refl) left.listing
    where
      same :
          (x : ℕ)
          → listed (remove entity requests) s1.entities x
            ≡ without entity (listed requests s.entities) x
      same x = elim (Bool-cases (entity == x)) [
        | inl h ↦ rw (h, ← (==_iff entity x).0 h, at1, same_arch, e) refl
        | inr h ↦ others_listed s1.entities (λ y. refl) x h
      ]

  module _ (some_arch : (info.archetype == empty_archetype) ≡ false)
      (room : length (members s1 info.archetype) < 2 ^ 32) where
    abbrev entered : Reshaping
    entered = record s1 {
      entities =
          insert entity
            (record info1 {
              index_in_archetype = length (list_or_empty (s1.index_members info.archetype));
            })
            s1.entities;
      index_members =
          insert info.archetype (list_or_empty (s1.index_members info.archetype) ++ entity ∷ [])
            s1.index_members;
    }

    whole : members s1 info.archetype ≡ list_or_empty (s1.index_members info.archetype)
    whole = rw some_arch refl

    enter_eq : enter info.archetype entity s1 ≡ some entered
    unfolding enter
    enter_eq =
        rw
          (
            lt→ltb (length (list_or_empty (s1.index_members info.archetype))) (2 ^ 32)
                (rw whole at room),
            at1,
          )
          refl

    archetypes_kept : (x : ℕ) → archetype_of (entered.entities x) ≡ archetype_of (s1.entities x)
    archetypes_kept x = elim (Bool-cases (entity == x)) [
      | inl h ↦ rw (h, ← (==_iff entity x).0 h, at1) refl
      | inr h ↦ rw h refl
    ]

    length-entered : (a : ℕ) → length (members entered a) ≤ length (members s1 a) + 1
    length-entered a = elim (Bool-cases (info.archetype == a)) [
      | inl h ↦
          rw (h, ← (==_iff info.archetype a).0 h, some_arch)
            (longer (length (list_or_empty (s1.index_members info.archetype)))
              (length-append (list_or_empty (s1.index_members info.archetype)) (entity ∷ [])))
      | inr h ↦ rw h (omega arith)
    ]
      where
        longer : {a : ℕ} (b : ℕ) → a ≡ b + 1 → a ≤ b + 1
        longer b e = omega arith

    Settled-entered : Settled (remove entity requests) entered
    Settled-entered =
        Attached-Listing (without entity (listed requests s.entities))
          (λ x. index_of (s1.entities x)) (members s1) left.listing entity info.archetype
          (rw (==-refl entity) refl) (listed (remove entity requests) entered.entities)
          (λ x. index_of (entered.entities x)) (members entered)
          (record { parents = parents; kids = kids; places = places })
      where
        parents :
            (x : ℕ)
            → listed (remove entity requests) entered.entities x ≡ (
                if entity == x
                then some info.archetype
                else without entity (listed requests s.entities) x)
        parents x = elim (Bool-cases (entity == x)) [
          | inl h ↦ rw (h, same_arch, some_arch) refl
          | inr h ↦ others_listed entered.entities archetypes_kept x h ∙ rw h refl
        ]

        kids :
            (x : ℕ)
            → members entered x ≡ (
                if info.archetype == x
                then members s1 info.archetype ++ entity ∷ []
                else members s1 x)
        kids x = elim (Bool-cases (info.archetype == x)) [
          | inl h ↦ rw (h, ← (==_iff info.archetype x).0 h, some_arch) refl
          | inr h ↦ rw h refl
        ]

        places :
            (x : ℕ)
            → index_of (entered.entities x) ≡ (
                if entity == x
                then length (members s1 info.archetype)
                else index_of (s1.entities x))
        places x = elim (Bool-cases (entity == x)) [
          | inl h ↦ rw (h, some_arch) refl
          | inr h ↦ rw h refl
        ]

module _ (requests : Map ℕ ℕ) (s : Reshaping) (entity old : ℕ) (info : EntityInfo)
    (at : s.entities entity ≡ some info) (room : length (members s info.archetype) < 2 ^ 32) where
  abbrev Moved : Option Reshaping → Type 0
  Moved o =
      (s' : Reshaping) × (o ≡ some s')
      × Settled (remove entity requests) s'
      × ((x : ℕ) → archetype_of (s'.entities x) ≡ archetype_of (s.entities x))
      × ((a : ℕ) → length (members s' a) ≤ length (members s a) + 1)

  second_half :
      (s1 : Reshaping)
      → Left requests entity s s1
      → Moved
          (if info.archetype == empty_archetype then some s1 else enter info.archetype entity s1)
  second_half s1 left =
      let (info1, at1, same) =
        still (s1.entities entity) info.archetype (left.archetypes entity ∙ rw at refl) in
      elim (Bool-cases (info.archetype == empty_archetype)) [
        | inl h ↦ (
          s1,
          rw h refl,
          Settled-empty requests s s1 entity info info1 left at1 same
              ((==_iff info.archetype empty_archetype).0 h),
          left.archetypes,
          λ a. grown (left.others a),
        )
        | inr h ↦
            let fits = below (left.others info.archetype) room in
            (
              entered requests s s1 entity info info1 left at1 same h fits,
              rw h (enter_eq requests s s1 entity info info1 left at1 same h fits),
              Settled-entered requests s s1 entity info info1 left at1 same h fits,
              (λ x.
                  archetypes_kept requests s s1 entity info info1 left at1 same h fits x
                  ∙ left.archetypes x),
              λ a.
                  grown_by (length-entered requests s s1 entity info info1 left at1 same h fits a)
                    (left.others a),
            )
      ]
    where
      below : {a b : ℕ} → a ≤ b → b < 2 ^ 32 → a < 2 ^ 32
      below h k = omega arith

      grown : {a b : ℕ} → a ≤ b → a ≤ b + 1
      grown h = omega arith

      grown_by : {a b c : ℕ} → a ≤ b + 1 → b ≤ c → a ≤ c + 1
      grown_by h k = omega arith

-- Where each entity is listed, at the place that it keeps, under the archetype that its request names,
-- or under its own where it has no request, and only living entities have requests: a move request
-- does not panic while the list of the new archetype has room; without the request, every entity is
-- again listed so, no archetype of an entity changed, and no list grew by more than one.
pub move_entity-Settled :
    (requests : Map ℕ ℕ) (s : Reshaping) (entity old : ℕ) (info : EntityInfo)
    → Settled requests s
    → ((x a : ℕ) → requests x ≡ some a → is_some (s.entities x) ≡ true)
    → s.entities entity ≡ some info
    → requests entity ≡ some old
    → length (members s info.archetype) < 2 ^ 32
    → (s' : Reshaping) × (move_entity entity old s ≡ some s')
      × Settled (remove entity requests) s'
      × ((x : ℕ) → archetype_of (s'.entities x) ≡ archetype_of (s.entities x))
      × ((a : ℕ) → length (members s' a) ≤ length (members s a) + 1)
unfolding move_entity
move_entity-Settled requests s entity old info v alive at request room =
    elim (Bool-cases (info.archetype == old)) [
      | inl h ↦ (
        s,
        rw (at, h) refl,
        Listing-ext (same h) (λ x. refl) (λ x. refl) v,
        (λ x. refl),
        λ a. omega arith,
      )
      | inr h ↦ elim (Bool-cases (old == empty_archetype)) [
        | inl e ↦
            let left =
              Left-empty requests s v alive entity old info at request
                ((==_iff old empty_archetype).0 e) in
            let (s', q, settled, kept, grown) =
              second_half requests s entity old info at room s left in
            (s', rw (at, h, e) q, settled, kept, grown)
        | inr e ↦
            let (s1, p, left) = Left-leave requests s v alive entity old info at request e in
            let (s', q, settled, kept, grown) =
              second_half requests s entity old info at room s1 left in
            (s', rw (at, h, e, p) q, settled, kept, grown)
      ]
    ]
  where
    same :
        (info.archetype == old) ≡ true
        → (x : ℕ) → listed (remove entity requests) s.entities x ≡ listed requests s.entities x
    same h x = elim (Bool-cases (entity == x)) [
      | inl g ↦ rw (g, ← (==_iff entity x).0 g, request, at, (==_iff info.archetype old).0 h) refl
      | inr g ↦ rw g refl
    ]
