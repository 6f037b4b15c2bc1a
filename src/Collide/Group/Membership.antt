-- ===== src/Collide/Group/Membership.antt =====
-- The members and the lists of their groups agree.
use heat_gun.Base.{
  ℕ, ◌≡◌, refl, sym, ap, ◌∙◌, List, [], ◌∷◌, ◌++◌, Option, none, some, Map, insert, nat_key, length,
  get_elem?, get_elem?-lt, swap_remove, swap_remove_lem, Swapped, ◌==◌, ==_iff, if◌then◌else◌,
  ◌>>=◌, Bool-cases, inl, inr, Listing, Detached-Listing, patched, moved_last, Attached-Listing,
}
use mathlib.Core.Option.{some-injective}
use heat_gun.Collide.Group.{
  ColliderGroupMember, Groups, register, patch_moved, unregister, colliders_mut,
}

abbrev pub index_of : Option ColliderGroupMember → ℕ
index_of none = 0
index_of (some m) = m.index

abbrev pub list_of : Option (List ℕ) → List ℕ
list_of none = []
list_of (some l) = l

-- Who is registered where: a registered member names its group, keeps its place in the list of the
-- group, and every list holds the registered members of its group.
pub record Consistent (owner : ℕ → Option ℕ) (s : Groups) : Type 0 where
  pub listing : Listing owner (λ x. index_of (s.members x)) (λ g. list_of (s.colliders g))
  pub named :
      (x g : ℕ)
      → owner x ≡ some g
      → (m : ColliderGroupMember) × (s.members x ≡ some m) × (m.group ≡ g)

module _ (owner : ℕ → Option ℕ) (s : Groups) (v : Consistent owner s) (member group : ℕ)
    (me : ColliderGroupMember) (at : s.members member ≡ some me) (of_group : me.group ≡ group)
    (registered : owner member ≡ some group) where
  abbrev without : ℕ → Option ℕ
  without x = if member == x then none else owner x

  there : get_elem? (list_of (s.colliders group)) (index_of (s.members member)) ≡ some member
  there = v.listing.up member group registered

  place : index_of (s.members member) ≡ me.index
  place = rw at refl

  module _ (l rest : List ℕ) (at_l : s.colliders group ≡ some l)
      (cut : swap_remove me.index l ≡ some rest)
      (swapped : Swapped (index_of (s.members member)) (list_of (s.colliders group)) rest) where
    abbrev shortened : Map ℕ ColliderGroupMember → Groups
    shortened ms = record s { colliders = insert group rest s.colliders; members = ms }

    patched_lem :
        (o : Option ℕ)
        → get_elem? rest (index_of (s.members member)) ≡ o
        → (ms : Map ℕ ColliderGroupMember) × (patch_moved me.index o s.members ≡ some ms)
          × ((x : ℕ) → index_of (ms x) ≡ patched me.index o x (index_of (s.members x)))
          × ((x : ℕ) (m : ColliderGroupMember)
              → s.members x ≡ some m
              → (m' : ColliderGroupMember) × (ms x ≡ some m') × (m'.group ≡ m.group))
    unfolding patch_moved
    patched_lem none e = (s.members, refl, (λ x. refl), λ x m q. (m, q, refl))
    patched_lem (some moved) e =
        let (own, last) =
          moved_last owner (λ x. index_of (s.members x)) (λ g. list_of (s.colliders g)) v.listing
            member group rest registered swapped moved e in
        let (m, at_m, g) = v.named moved group own in
        (
          insert moved (record m { index = me.index }) s.members,
          rw at_m refl,
          (λ x. elim (Bool-cases (moved == x)) [ inl h ↦ rw h refl | inr h ↦ rw h refl ]),
          λ x k q. elim (Bool-cases (moved == x)) [
            | inl h ↦ (
              record k { index = me.index },
              rw h (
                  ap (λ o. o >>= λ (y : ColliderGroupMember). some (record y { index = me.index }))
                    (sym at_m ∙ ap s.members ((==_iff moved x).0 h) ∙ q)),
              refl,
            )
            | inr h ↦ (k, rw h q, refl)
          ],
        )

    unregister_eq :
        (ms : Map ℕ ColliderGroupMember)
        → patch_moved me.index (get_elem? rest me.index) s.members ≡ some ms
        → unregister member s ≡ (if s.held group == 0 then some (shortened ms) else none)
    unfolding unregister colliders_mut
    unregister_eq ms e = elim (Bool-cases (s.held group == 0)) [
      | inl h ↦ rw (at, of_group, at_l, h, cut, e) refl
      | inr h ↦ rw (at, of_group, at_l, h) refl
    ]

    removed_lem :
        (s' : Groups) × (unregister member s ≡ (if s.held group == 0 then some s' else none))
        × Consistent without s'
    removed_lem =
        let (ms, e, places, named) = patched_lem (get_elem? rest me.index) (rw place refl) in
        (
          shortened ms,
          unregister_eq ms e,
          record {
            listing =
                Detached-Listing owner (λ x. index_of (s.members x)) (λ g. list_of (s.colliders g))
                  v.listing member group rest registered swapped without (λ x. index_of (ms x))
                  (λ g. list_of ((shortened ms).colliders g))
                  (record {
                    parents = λ x. refl;
                    kids = kids ms;
                    places = λ x. rw place (places x);
                  });
            named = λ x g o. elim (Bool-cases (member == x)) [
              | inl h ↦ absurd (nobody (rw h at o))
              | inr h ↦
                  let (m, q, k) = v.named x g (rw h at o) in
                  let (m', q', k') = named x m q in (m', q', k' ∙ k)
            ];
          },
        )
      where
        nobody : {g : ℕ} → none ≡ some g → ⊥
        nobody e = cc

        kids :
            (ms : Map ℕ ColliderGroupMember) (x : ℕ)
            → list_of ((shortened ms).colliders x)
              ≡ (if group == x then rest else list_of (s.colliders x))
        kids ms x = elim (Bool-cases (group == x)) [ inl h ↦ rw h refl | inr h ↦ rw h refl ]

  cut_lem :
      (o : Option (List ℕ))
      → get_elem? (list_of o) (index_of (s.members member)) ≡ some member
      → (l : List ℕ) × (rest : List ℕ) × (o ≡ some l)
        × (swap_remove me.index l ≡ some rest)
        × Swapped (index_of (s.members member)) (list_of o) rest
  cut_lem none e = absurd (cc)
  cut_lem (some l) e =
      let (rest, cut, swapped) =
        swap_remove_lem (index_of (s.members member)) l
          (get_elem?-lt l (index_of (s.members member)) e) in
      (l, rest, refl, rw (← place) cut, swapped)

-- Where members and lists agree, unregistering a registered member panics exactly where an iteration
-- over its group is alive; else it is in no list afterwards, and all others are registered as before,
-- with members and lists in agreement.
pub unregister-Consistent :
    (owner : ℕ → Option ℕ) (s : Groups) (member group : ℕ)
    → Consistent owner s
    → owner member ≡ some group
    → (s' : Groups) × (unregister member s ≡ (if s.held group == 0 then some s' else none))
      × Consistent (λ x. if member == x then none else owner x) s'
unregister-Consistent owner s member group v registered =
    let (me, at, of_group) = v.named member group registered in
    let (l, rest, at_l, cut, swapped) =
      cut_lem owner s v member group me at of_group registered (s.colliders group)
        (v.listing.up member group registered) in
    removed_lem owner s v member group me at of_group registered l rest at_l cut swapped

-- Where members and lists agree, registering a member that is not registered in a group that is there
-- panics exactly where an iteration over the group is alive; else it is then registered in that group,
-- and all others are as before, with members and lists in agreement.
pub register-Consistent :
    (owner : ℕ → Option ℕ) (s : Groups) (member collider group : ℕ) (l : List ℕ)
    → Consistent owner s
    → owner member ≡ none
    → s.colliders group ≡ some l
    → (s' : Groups) × (register member collider group s
        ≡ (if s.held group == 0 then some s' else none))
      × Consistent (λ x. if member == x then some group else owner x) s'
unfolding register colliders_mut
register-Consistent owner s member collider group l v free at = (
  s',
  elim (Bool-cases (s.held group == 0)) [ inl h ↦ rw (at, h) refl | inr h ↦ rw (at, h) refl ],
  record {
    listing =
        Attached-Listing owner (λ x. index_of (s.members x)) (λ g. list_of (s.colliders g))
          v.listing member group free (λ x. if member == x then some group else owner x)
          (λ x. index_of (s'.members x)) (λ g. list_of (s'.colliders g))
          (record { parents = λ x. refl; kids = kids; places = places });
    named = named;
  },
)
  where
    s' : Groups
    s' = record s {
      members =
          insert member (record { collider = collider; group = group; index = length l }) s.members;
      member_of = insert collider member s.member_of;
      colliders = insert group (l ++ member ∷ []) s.colliders;
    }

    kids :
        (x : ℕ)
        → list_of (s'.colliders x) ≡ (
            if group == x
            then list_of (s.colliders group) ++ member ∷ []
            else list_of (s.colliders x))
    kids x = elim (Bool-cases (group == x)) [ inl h ↦ rw (h, at) refl | inr h ↦ rw h refl ]

    places :
        (x : ℕ)
        → index_of (s'.members x)
          ≡ (if member == x then length (list_of (s.colliders group)) else index_of (s.members x))
    places x = elim (Bool-cases (member == x)) [ inl h ↦ rw (h, at) refl | inr h ↦ rw h refl ]

    named :
        (x g : ℕ)
        → (if member == x then some group else owner x) ≡ some g
        → (m : ColliderGroupMember) × (s'.members x ≡ some m) × (m.group ≡ g)
    named x g o = elim (Bool-cases (member == x)) [
      | inl h ↦ (
        record { collider = collider; group = group; index = length l },
        rw h refl,
        some-injective group g (rw h at o),
      )
      | inr h ↦ let (m, q, k) = v.named x g (rw h at o) in (m, rw h q, k)
    ]
