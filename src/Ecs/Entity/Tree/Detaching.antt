-- ===== src/Ecs/Entity/Tree/Detaching.antt =====
-- The first half of `set_parent`: an entity is taken from its parent.
use heat_gun.Base.{
  Detached, Detached-Listing, moved_last, ℕ, ◌≤◌, ◌≡◌, ◌≢◌, refl, sym, ap, ◌∙◌, List, Option, none,
  some, arith, insert, nat_key, get_elem?, get_elem?-lt, length, swap_remove, swap_remove_lem,
  Swapped, ◌==◌, ==_iff, ==-refl, if◌then◌else◌, Bool-cases, Option-cases, inl, inr, is_some,
}
use mathlib.Core.Bool.{false≢true}
use heat_gun.Ecs.Entity.{index_in_parent, set_index_in_parent_unchecked}
use heat_gun.Ecs.Entity.Tree.{EntityInfo, Entities, patch_moved, detach}
use heat_gun.Ecs.Entity.Tree.Links.{
  parent_of, index_of, children_of, Linked, insert-sees, insert-keeps, index-set_unchecked,
  index-lt,
}

alive_of :
    (o : Option EntityInfo) (c i : ℕ)
    → get_elem? (children_of o) i ≡ some c
    → (e : EntityInfo) × (o ≡ some e)
alive_of none c i e = absurd (cc)
alive_of (some e) c i at = (e, refl)

alive_parent :
    (o : Option EntityInfo) {p : ℕ} → parent_of o ≡ some p → (e : EntityInfo) × (o ≡ some e)
alive_parent none e = absurd (cc)
alive_parent (some e) p = (e, refl)

-- What a detachment leaves: the entity is a root, and nobody else moves or dies.
pub record Rooted (entity : ℕ) (m m' : Entities) : Type 0 where
  pub linked : Linked m'
  pub root : parent_of (m' entity) ≡ none
  pub others : (x : ℕ) → entity ≢ x → parent_of (m' x) ≡ parent_of (m x)
  pub alive : (x : ℕ) → is_some (m' x) ≡ is_some (m x)
  pub fewer : (x : ℕ) → length (children_of (m' x)) ≤ length (children_of (m x))

module _ (m : Entities) (v : Linked m) (entity : ℕ) (me : EntityInfo)
    (at : m entity ≡ some me) where
  abbrev orphan : EntityInfo
  orphan = record me { parent = none }

  abbrev orphaned : Entities
  orphaned = insert entity orphan m

  -- The entity was a root.
  root-Rooted : me.parent ≡ none → Rooted entity m orphaned
  root-Rooted no_parent =
      let parents : (x : ℕ) → parent_of (orphaned x) ≡ parent_of (m x) =
        λ x. insert-keeps parent_of entity x orphan me m at (sym no_parent) in
      let kids : (x : ℕ) → children_of (orphaned x) ≡ children_of (m x) =
        λ x. insert-keeps children_of entity x orphan me m at refl in
      let places : (x : ℕ) → index_of (orphaned x) ≡ index_of (m x) =
        λ x. insert-keeps index_of entity x orphan me m at refl in
      record {
        linked = record {
          down = λ p i c e.
              let (q, k) = v.down p i c (rw (kids p) at e) in (parents c ∙ q, places c ∙ k);
          up = λ c p e. rw (kids p, places c) (v.up c p (rw (parents c) at e));
        };
        root = parents entity ∙ rw at no_parent;
        others = λ x ne. parents x;
        alive = λ x. insert-keeps is_some entity x orphan me m at refl;
        fewer = λ x. rw (kids x) (omega arith);
      }

  module _ (old : ℕ) (child : me.parent ≡ some old) (old_info : EntityInfo)
      (at_old : orphaned old ≡ some old_info) (rest : List ℕ)
      (cut : swap_remove (index_in_parent me.word) old_info.children ≡ some rest)
      (swapped : Swapped (index_of (m entity)) (children_of (m old)) rest) where
    abbrev shortened : Entities
    shortened = insert old (record old_info { children = rest }) orphaned

    parents_shortened :
        (x : ℕ) → parent_of (shortened x) ≡ (if entity == x then none else parent_of (m x))
    parents_shortened x =
        insert-keeps parent_of old x (record old_info { children = rest }) old_info orphaned at_old
          refl
        ∙ insert-sees parent_of entity x orphan m

    kids_shortened :
        (x : ℕ) → children_of (shortened x) ≡ (if old == x then rest else children_of (m x))
    kids_shortened x =
        insert-sees children_of old x (record old_info { children = rest }) orphaned
        ∙ ap (λ ks. if old == x then rest else ks)
            (insert-keeps children_of entity x orphan me m at refl)

    places_shortened : (x : ℕ) → index_of (shortened x) ≡ index_of (m x)
    places_shortened x =
        insert-keeps index_of old x (record old_info { children = rest }) old_info orphaned at_old
          refl
        ∙ insert-keeps index_of entity x orphan me m at refl

    alive_shortened : (x : ℕ) → is_some (shortened x) ≡ is_some (m x)
    alive_shortened x =
        insert-keeps is_some old x (record old_info { children = rest }) old_info orphaned at_old
          refl
        ∙ insert-keeps is_some entity x orphan me m at refl

    is_child : parent_of (m entity) ≡ some old
    is_child = rw at child

    place_eq : index_of (m entity) ≡ index_in_parent me.word
    place_eq = rw at refl

    -- Patching the moved child, if there is one.
    patch_lem :
        (o : Option ℕ)
        → get_elem? rest (index_of (m entity)) ≡ o
        → (m' : Entities) × (patch_moved (index_in_parent me.word) o shortened ≡ some m')
          × Detached entity old
              (index_of (m entity))
              rest
              (λ x. parent_of (m x))
              (λ x. index_of (m x))
              (λ x. children_of (m x))
              (λ x. parent_of (m' x))
              (λ x. index_of (m' x))
              (λ x. children_of (m' x))
          × ((x : ℕ) → is_some (m' x) ≡ is_some (m x))
    unfolding patch_moved
    patch_lem none e = (
      shortened,
      refl,
      record {
        parents = parents_shortened;
        kids = kids_shortened;
        places = λ x. places_shortened x ∙ rw e refl;
      },
      alive_shortened,
    )
    patch_lem (some moved) e =
        let (p, last) =
          moved_last (λ x. parent_of (m x)) (λ x. index_of (m x)) (λ x. children_of (m x)) v entity
            old rest is_child swapped moved e in
        elim (Option-cases (shortened moved)) [
          | inl dead ↦
              let (info, at_moved) = alive_parent (m moved) p in
              absurd
                (false≢true (sym (ap is_some dead) ∙ alive_shortened moved ∙ ap is_some at_moved))
          | inr (info, at_moved) ↦
              let patch : EntityInfo = record info {
                word = set_index_in_parent_unchecked (index_in_parent me.word) info.word;
              } in
              (
                insert moved patch shortened,
                rw at_moved refl,
                record {
                  parents = λ x.
                      insert-keeps parent_of moved x patch info shortened at_moved refl
                      ∙ parents_shortened x;
                  kids = λ x.
                      insert-keeps children_of moved x patch info shortened at_moved refl
                      ∙ kids_shortened x;
                  places = λ x.
                      insert-sees index_of moved x patch shortened
                      ∙ rw
                          (
                            e,
                            index-set_unchecked (index_in_parent me.word) info.word
                                (index-lt me.word),
                            places_shortened x,
                            place_eq,
                          )
                          refl;
                },
                λ x.
                    insert-keeps is_some moved x patch info shortened at_moved refl
                    ∙ alive_shortened x,
              )
        ]

    detach_eq :
        (m' : Entities)
        → patch_moved (index_in_parent me.word) (get_elem? rest (index_in_parent me.word)) shortened
          ≡ some m'
        → detach entity m ≡ some m'
    unfolding detach
    detach_eq m' e = rw (at, child, at_old, cut) e

    Detached-Rooted :
        (m' : Entities)
        → Detached entity old
            (index_of (m entity))
            rest
            (λ x. parent_of (m x))
            (λ x. index_of (m x))
            (λ x. children_of (m x))
            (λ x. parent_of (m' x))
            (λ x. index_of (m' x))
            (λ x. children_of (m' x))
        → ((x : ℕ) → is_some (m' x) ≡ is_some (m x))
        → Rooted entity m m'
    Detached-Rooted m' d alive = record {
      linked =
          Detached-Listing (λ x. parent_of (m x)) (λ x. index_of (m x)) (λ x. children_of (m x)) v
            entity old rest is_child swapped (λ x. parent_of (m' x)) (λ x. index_of (m' x))
            (λ x. children_of (m' x)) d;
      root = d.parents entity ∙ rw (==-refl entity) refl;
      others = λ x ne. d.parents x ∙ other x ne;
      alive = alive;
      fewer = λ x. rw (d.kids x) (shrinks x);
    }
      where
        shrinks :
            (x : ℕ)
            → length (if old == x then rest else children_of (m x)) ≤ length (children_of (m x))
        shrinks x = elim (Bool-cases (old == x)) [
          | inl h ↦ rw (h, ← (==_iff old x).0 h, swapped.0) (omega arith)
          | inr h ↦ rw h (omega arith)
        ]

        other :
            (x : ℕ) → entity ≢ x → (if entity == x then none else parent_of (m x)) ≡ parent_of (m x)
        other x ne = elim (Bool-cases (entity == x)) [
          | inl h ↦ absurd (ne ((==_iff entity x).0 h))
          | inr h ↦ rw h refl
        ]

    detach_listed : (m' : Entities) × (detach entity m ≡ some m') × Rooted entity m m'
    detach_listed =
        let (m', e, d, alive) =
          patch_lem (get_elem? rest (index_in_parent me.word)) (rw place_eq refl) in
        (m', detach_eq m' e, Detached-Rooted m' d alive)

  place_of : index_of (m entity) ≡ index_in_parent me.word
  place_of = rw at refl

  cut_lem :
      (ks old_kids : List ℕ)
      → ks ≡ old_kids
      → get_elem? old_kids (index_of (m entity)) ≡ some entity
      → (rest : List ℕ) × (swap_remove (index_in_parent me.word) ks ≡ some rest)
        × Swapped (index_of (m entity)) old_kids rest
  cut_lem ks old_kids e listed =
      rw (e, ← place_of)
        (swap_remove_lem (index_of (m entity)) old_kids
          (get_elem?-lt old_kids (index_of (m entity)) listed))

  detach_from :
      (old : ℕ)
      → me.parent ≡ some old
      → (info : EntityInfo) → orphaned old ≡ some info
      → info.children ≡ children_of (m old)
      → get_elem? (children_of (m old)) (index_of (m entity)) ≡ some entity
      → (m' : Entities) × (detach entity m ≡ some m') × Rooted entity m m'
  detach_from old child info at_old kids listed =
      let (rest, cut, swapped) = cut_lem info.children (children_of (m old)) kids listed in
      detach_listed old child info at_old rest cut swapped

  same_kids :
      (old : ℕ) (o : Option EntityInfo) (info : EntityInfo)
      → o ≡ some info
      → children_of o ≡ children_of (m old)
      → info.children ≡ children_of (m old)
  same_kids old o info e h = sym (rw e refl) ∙ h

  detach_child :
      (old : ℕ)
      → me.parent ≡ some old
      → (m' : Entities) × (detach entity m ≡ some m') × Rooted entity m m'
  detach_child old child =
      let listed = v.up entity old (rw at child) in
      let same : children_of (orphaned old) ≡ children_of (m old) =
        insert-keeps children_of entity old orphan me m at refl in
      let (info, at_old) = alive_of (orphaned old) entity (index_of (m entity)) (rw same listed) in
      detach_from old child info at_old (same_kids old (orphaned old) info at_old same) listed

  pub detach-Rooted : (m' : Entities) × (detach entity m ≡ some m') × Rooted entity m m'
  unfolding detach
  detach-Rooted = elim (Option-cases me.parent) [
    | inl none_yet ↦ (orphaned, rw (detach, at, none_yet) refl, root-Rooted none_yet)
    | inr (old, child) ↦ detach_child old child
  ]
