-- ===== src/Ecs/Entity/Tree/Moving.antt =====
-- `set_parent` keeps the links, and puts the entity under its new parent.
use heat_gun.Base.{
  Attached-Listing, ℕ, ◌<◌, ◌≤◌, ◌≡◌, ◌≢◌, refl, ap, ◌∙◌, true, false, [], ◌∷◌, ◌++◌, Option, none,
  some, arith, insert, nat_key, length, ◌==◌, ==_iff, ==-refl, lt→ltb, if◌then◌else◌, Bool-cases,
  inl, inr, is_some,
}
use heat_gun.Ecs.Entity.{condemned_bit, set_index_in_parent, set_index_in_parent_unchecked}
use heat_gun.Ecs.Entity.Tree.{EntityInfo, Entities, attach, set_parent}
use heat_gun.Ecs.Entity.Tree.Links.{
  parent_of, index_of, children_of, Linked, insert-sees, insert-keeps, index-set_unchecked,
}
use heat_gun.Ecs.Entity.Tree.Detaching.{detach-Rooted}

module _ (m : Entities) (v : Linked m) (entity p : ℕ) (me info : EntityInfo)
    (at : m entity ≡ some me) (at_p : m p ≡ some info) (root : parent_of (m entity) ≡ none)
    (ne : entity ≢ p) (room : length info.children < condemned_bit) where
  abbrev placed : EntityInfo
  placed = record me {
    parent = some p;
    word = set_index_in_parent_unchecked (length info.children) me.word;
  }

  abbrev longer : EntityInfo
  longer = record info { children = info.children ++ entity ∷ [] }

  abbrev attached : Entities
  attached = insert p longer (insert entity placed m)

  not_eq : (a b : ℕ) → a ≢ b → (a == b) ≡ false
  not_eq a b ne = elim (Bool-cases (a == b)) [ inl h ↦ absurd (ne ((==_iff a b).0 h)) | inr h ↦ h ]

  at_p' : insert entity placed m p ≡ some info
  at_p' = rw (not_eq entity p ne) at_p

  attached_parents :
      (x : ℕ) → parent_of (attached x) ≡ (if entity == x then some p else parent_of (m x))
  attached_parents x =
      insert-keeps parent_of p x longer info (insert entity placed m) at_p' refl
      ∙ insert-sees parent_of entity x placed m

  attached_kids :
      (x : ℕ)
      → children_of (attached x)
        ≡ (if p == x then info.children ++ entity ∷ [] else children_of (m x))
  attached_kids x =
      insert-sees children_of p x longer (insert entity placed m)
      ∙ ap (λ ks. if p == x then info.children ++ entity ∷ [] else ks)
          (insert-keeps children_of entity x placed me m at refl)

  attached_places :
      (x : ℕ)
      → index_of (attached x) ≡ (if entity == x then length info.children else index_of (m x))
  attached_places x =
      insert-keeps index_of p x longer info (insert entity placed m) at_p' refl
      ∙ insert-sees index_of entity x placed m
      ∙ rw (index-set_unchecked (length info.children) me.word room) refl

  attached-Linked : Linked attached
  attached-Linked =
      Attached-Listing (λ x. parent_of (m x)) (λ x. index_of (m x)) (λ x. children_of (m x)) v
        entity p root (λ x. parent_of (attached x)) (λ x. index_of (attached x))
        (λ x. children_of (attached x))
        (record {
          parents = attached_parents;
          kids = λ x. rw at_p (attached_kids x);
          places = λ x. rw at_p (attached_places x);
        })

-- In an arena whose links agree, moving a live entity under another live one, which has room for a
-- child, does not panic; the links agree afterwards, the entity has the new parent, every other
-- entity the parent that it had, and nobody dies.
pub set_parent-Linked :
    (m : Entities) (entity p : ℕ) (me info : EntityInfo)
    → Linked m
    → m entity ≡ some me
    → m p ≡ some info
    → entity ≢ p
    → length info.children < condemned_bit
    → (m' : Entities) × (set_parent entity (some p) m ≡ some m')
      × Linked m'
      × (parent_of (m' entity) ≡ some p)
      × ((x : ℕ) → entity ≢ x → parent_of (m' x) ≡ parent_of (m x))
      × ((x : ℕ) → is_some (m' x) ≡ is_some (m x))
unfolding set_parent attach set_index_in_parent
set_parent-Linked m entity p me info v at at_p ne room =
    let (m1, e, r) = detach-Rooted m v entity me at in
    let (me1, at1) = still (m1 entity) (r.alive entity ∙ rw at refl) in
    let (info1, at_p1) = still (m1 p) (r.alive p ∙ rw at_p refl) in
    let room1 : length info1.children < condemned_bit =
      fits (length info1.children) (length info.children)
        (rw (ap children_of at_p1, ap children_of at_p) at (r.fewer p)) room in
    (
      attached m1 r.linked entity p me1 info1 at1 at_p1 r.root ne room1,
      rw e (rw (not_equal, at1, at_p1, lt→ltb (length info1.children) condemned_bit room1) refl),
      attached-Linked m1 r.linked entity p me1 info1 at1 at_p1 r.root ne room1,
      attached_parents m1 r.linked entity p me1 info1 at1 at_p1 r.root ne room1 entity
          ∙ rw (==-refl entity) refl,
      (λ x other.
          attached_parents m1 r.linked entity p me1 info1 at1 at_p1 r.root ne room1 x
          ∙ rw (different x other) (r.others x other)),
      λ x.
          insert-keeps is_some p x (longer m1 r.linked entity p me1 info1 at1 at_p1 r.root ne room1)
            info1
            (insert entity (placed m1 r.linked entity p me1 info1 at1 at_p1 r.root ne room1) m1)
            (at_p' m1 r.linked entity p me1 info1 at1 at_p1 r.root ne room1) refl
          ∙ insert-keeps is_some entity x
              (placed m1 r.linked entity p me1 info1 at1 at_p1 r.root ne room1) me1 m1 at1 refl
          ∙ r.alive x,
    )
  where
    still : (o : Option EntityInfo) → is_some o ≡ true → (x : EntityInfo) × (o ≡ some x)
    still none e = absurd (cc)
    still (some x) e = (x, refl)

    fits : (a b : ℕ) → a ≤ b → b < condemned_bit → a < condemned_bit
    fits a b h k = omega arith

    different : (x : ℕ) → entity ≢ x → (entity == x) ≡ false
    different x ne = elim (Bool-cases (entity == x)) [
      | inl h ↦ absurd (ne ((==_iff entity x).0 h))
      | inr h ↦ h
    ]

    not_equal : (entity == p) ≡ false
    not_equal = different p ne
