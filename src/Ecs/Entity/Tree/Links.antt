-- ===== src/Ecs/Entity/Tree/Links.antt =====
-- The links of the tree, read off the arena, and the invariant that they agree.
use heat_gun.Base.{
  ℕ, ◌<◌, ◌≡◌, refl, List, [], Option, none, some, arith, insert, nat_key, Listing, ◌==◌, ==_iff,
  if◌then◌else◌, Bool-cases, inl, inr,
}
use heat_gun.Ecs.Entity.{condemned_bit, index_in_parent, set_index_in_parent_unchecked}
use heat_gun.Ecs.Entity.Tree.{EntityInfo, Entities}

abbrev pub parent_of : Option EntityInfo → Option ℕ
parent_of none = none
parent_of (some e) = e.parent

abbrev pub index_of : Option EntityInfo → ℕ
index_of none = 0
index_of (some e) = index_in_parent e.word

abbrev pub children_of : Option EntityInfo → List ℕ
children_of none = []
children_of (some e) = e.children

-- The place of an entity says where its parent lists it, and what a parent lists says so.
abbrev pub Linked : Entities → Type 0
Linked m = Listing (λ x. parent_of (m x)) (λ x. index_of (m x)) (λ x. children_of (m x))

-- A new entry is seen at its key alone.
pub insert-sees {ℓ} :
    {A : Type ℓ} (f : Option EntityInfo → A) (k x : ℕ) (e : EntityInfo) (m : Entities)
    → f (insert k e m x) ≡ (if k == x then f (some e) else f (m x))
insert-sees f k x e m = elim (Bool-cases (k == x)) [ inl h ↦ rw h refl | inr h ↦ rw h refl ]

-- An entry that keeps what `f` sees changes nothing for `f`.
pub insert-keeps {ℓ} :
    {A : Type ℓ} (f : Option EntityInfo → A) (k x : ℕ) (e old : EntityInfo) (m : Entities)
    → m k ≡ some old
    → f (some e) ≡ f (some old)
    → f (insert k e m x) ≡ f (m x)
insert-keeps f k x e old m at same = elim (Bool-cases (k == x)) [
  | inl h ↦ rw (h, ← (==_iff k x).0 h, at) same
  | inr h ↦ rw h refl
]

pub index-set_unchecked :
    (i word : ℕ) → i < condemned_bit → index_in_parent (set_index_in_parent_unchecked i word) ≡ i
unfolding index_in_parent set_index_in_parent_unchecked
index-set_unchecked i word h = ground arith

pub index-lt : (word : ℕ) → index_in_parent word < condemned_bit
unfolding index_in_parent
index-lt word = omega arith
