-- ===== src/Ecs/Entity/Tree/Making.antt =====
-- A new entity enters the tree.
use heat_gun.Base.{
  ℕ, ◌<◌, ◌≡◌, ◌≢◌, refl, ◌∙◌, true, false, [], Option, none, some, empty_map, nat_key, length,
  ◌==◌, ==_iff, ==-refl, Bool-cases, inl, inr, is_some,
}
use heat_gun.Ecs.Entity.{condemned_bit}
use heat_gun.Ecs.Entity.Tree.{EntityInfo, Entities, new_root, new}
use heat_gun.Ecs.Entity.Tree.Links.{parent_of, index_of, children_of, Linked}
use heat_gun.Ecs.Entity.Tree.Moving.{set_parent-Linked}

abbrev pub fresh : EntityInfo
fresh = record { archetype = 0; index_in_archetype = 0; word = 0; parent = none; children = [] }

pub empty_Linked : Linked empty_map
empty_Linked = record { down = λ p i c e. absurd (cc); up = λ c p e. absurd (cc) }

module _ (m : Entities) (entity : ℕ) (vacant : m entity ≡ none) where
  -- A vacant entry looks like a childless root, so that the new one changes no link.
  new_root_keeps {ℓ} :
      {A : Type ℓ} (f : Option EntityInfo → A) (x : ℕ)
      → f (some fresh) ≡ f none
      → f (new_root entity m x) ≡ f (m x)
  unfolding new_root
  new_root_keeps f x e = elim (Bool-cases (entity == x)) [
    | inl h ↦ rw (h, ← (==_iff entity x).0 h, vacant) e
    | inr h ↦ rw h refl
  ]

  index_kept : (x : ℕ) → index_of (new_root entity m x) ≡ index_of (m x)
  unfolding heat_gun.Ecs.Entity.index_in_parent
  index_kept x = new_root_keeps index_of x refl

  pub new_root-Linked : Linked m → Linked (new_root entity m)
  new_root-Linked v = record {
    down = λ p i c e.
        let (q, k) = v.down p i c (rw (new_root_keeps children_of p refl) at e) in
        (new_root_keeps parent_of c refl ∙ q, index_kept c ∙ k);
    up = λ c p e.
        rw (new_root_keeps children_of p refl, index_kept c)
          (v.up c p (rw (new_root_keeps parent_of c refl) at e));
  }

-- In a tree whose links agree, `Entity::new` with a live parent that has room for a child gives a
-- tree whose links agree, in which the entity is alive under its parent, every other entity has
-- the parent it had, and is alive when it was.
pub new-Linked :
    (m : Entities) (entity p : ℕ) (info : EntityInfo)
    → Linked m
    → m entity ≡ none
    → m p ≡ some info
    → length info.children < condemned_bit
    → (m' : Entities) × (new entity p m ≡ some m')
      × Linked m'
      × (parent_of (m' entity) ≡ some p)
      × (is_some (m' entity) ≡ true)
      × ((x : ℕ)
          → entity ≢ x
          → (parent_of (m' x) ≡ parent_of (m x)) × (is_some (m' x) ≡ is_some (m x)))
unfolding new new_root
new-Linked m entity p info v vacant at_p room =
    let (m', e, linked, par, others, alive) =
      set_parent-Linked (new_root entity m) entity p fresh info (new_root-Linked m entity vacant v)
        (rw (==-refl entity) refl) (rw apart at_p) apart_ne room in
    (
      m',
      e,
      linked,
      par,
      alive entity ∙ rw (==-refl entity) refl,
      λ x ne. (
        others x ne ∙ new_root_keeps m entity vacant parent_of x refl,
        alive x ∙ rw (different x ne) refl,
      ),
    )
  where
    apart_ne : entity ≢ p
    apart_ne e = cc

    different : (x : ℕ) → entity ≢ x → (entity == x) ≡ false
    different x ne = elim (Bool-cases (entity == x)) [
      | inl h ↦ absurd (ne ((==_iff entity x).0 h))
      | inr h ↦ h
    ]

    apart : (entity == p) ≡ false
    apart = different p apart_ne
