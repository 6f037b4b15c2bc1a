-- ===== src/Ecs/Entity/Tree/Tests.antt =====
-- Small trees.
use heat_gun.Base.{
  ℕ, ◌≡◌, ◌≢◌, refl, sym, subst, true, [], ◌∷◌, Option, none, some, arith, Map, empty_map, insert,
  nat_key, is_some, swap_remove, ◌>>=◌,
}
use heat_gun.Ecs.Entity.{
  index_in_parent, set_index_in_parent_unchecked, set_index_in_parent, condemned, mark_condemned,
}
use heat_gun.Ecs.Entity.Tree.{
  Entities, new_root, patch_moved, detach, attach, set_parent, new, destroy, try_deep_get,
}
use heat_gun.Ecs.Entity.Tree.Links.{parent_of, Linked}
use heat_gun.Ecs.Entity.Tree.Moving.{set_parent-Linked}
use heat_gun.Ecs.Entity.Tree.Making.{fresh, empty_Linked, new_root-Linked, new-Linked}
use heat_gun.Ecs.Entity.Tree.Ancestry.{Ancestry, top, below, nearest, try_deep_get-nearest}

abbrev or_empty : Option Entities → Entities
or_empty none = empty_map
or_empty (some m) = m

alone_Linked : Linked (new_root 0 empty_map)
alone_Linked = new_root-Linked empty_map 0 refl empty_Linked

made : (o : Option Entities) (m' : Entities) → o ≡ some m' → Linked m' → Linked (or_empty o)
made o m' e v = subst (λ x. Linked (or_empty x)) (sym e) v

-- A root with one child, and with two.
abbrev one : Entities
one = or_empty (new 1 0 (new_root 0 empty_map))

abbrev two : Entities
two = or_empty (new 2 0 one)

info_one : one 0 ≡ some (record fresh { children = 1 ∷ [] })
unfolding new new_root set_parent detach attach set_index_in_parent set_index_in_parent_unchecked
info_one = refl

one-Linked : Linked one
unfolding new_root
one-Linked =
    let (m', e, v, _, _, _) =
      new-Linked (new_root 0 empty_map) 1 0 fresh alone_Linked refl refl (omega arith) in
    made (new 1 0 (new_root 0 empty_map)) m' e v

two-Linked : Linked two
unfolding new new_root set_parent detach attach set_index_in_parent set_index_in_parent_unchecked
two-Linked =
    let (m', e, v, _, _, _) =
      new-Linked one 2 0 (record fresh { children = 1 ∷ [] }) one-Linked refl info_one
        (omega arith) in
    made (new 2 0 one) m' e v

first_child : two 1 ≡ some (record fresh { parent = some 0 })
unfolding new new_root set_parent detach attach set_index_in_parent set_index_in_parent_unchecked
first_child = refl

second_child : two 2 ≡ some (record fresh { parent = some 0; word = 1 })
unfolding new new_root set_parent detach attach set_index_in_parent set_index_in_parent_unchecked
second_child = refl

root_of_two : two 0 ≡ some (record fresh { children = 1 ∷ 2 ∷ [] })
unfolding new new_root set_parent detach attach set_index_in_parent set_index_in_parent_unchecked
root_of_two = refl

-- The first child goes under the second, which takes its place under the root.
after_move : or_empty (set_parent 1 (some 2) two) 0 ≡ some (record fresh { children = 2 ∷ [] })
unfolding new new_root set_parent detach attach set_index_in_parent set_index_in_parent_unchecked
    index_in_parent swap_remove patch_moved
after_move = refl

set_parent-Linked_example :
    (m' : Entities) × (set_parent 1 (some 2) two ≡ some m')
    × Linked m'
    × (parent_of (m' 1) ≡ some 2)
    × ((x : ℕ) → ◌≢◌ {A = ℕ} 1 x → parent_of (m' x) ≡ parent_of (two x))
    × ((x : ℕ) → is_some (m' x) ≡ is_some (two x))
set_parent-Linked_example =
    set_parent-Linked two 1 2 (record fresh { parent = some 0 })
      (record fresh { parent = some 0; word = 1 }) two-Linked first_child second_child (omega arith)
      (omega arith)

vacant_two : one 2 ≡ none
unfolding new new_root set_parent detach attach set_index_in_parent set_index_in_parent_unchecked
vacant_two = refl

new-Linked_example :
    (m' : Entities) × (new 2 0 one ≡ some m')
    × Linked m'
    × (parent_of (m' 2) ≡ some 0)
    × (is_some (m' 2) ≡ true)
    × ((x : ℕ)
        → ◌≢◌ {A = ℕ} 2 x
        → (parent_of (m' x) ≡ parent_of (one x)) × (is_some (m' x) ≡ is_some (one x)))
new-Linked_example =
    new-Linked one 2 0 (record fresh { children = 1 ∷ [] }) one-Linked vacant_two info_one
      (omega arith)

line_of_second : Ancestry two 2 (2 ∷ 0 ∷ [])
line_of_second =
    below (record fresh { parent = some 0; word = 1 }) 0 second_child refl
      (top (record fresh { children = 1 ∷ 2 ∷ [] }) root_of_two refl)

abbrev on_root : Map ℕ ℕ
on_root = insert 0 7 empty_map

try_deep_get-nearest_example : try_deep_get 2 on_root 2 two ≡ some (nearest on_root (2 ∷ 0 ∷ []))
try_deep_get-nearest_example =
    try_deep_get-nearest two on_root 2 2 (2 ∷ 0 ∷ []) line_of_second (omega arith)

nearest_two : nearest on_root (2 ∷ 0 ∷ []) ≡ some 7
unfolding nearest
nearest_two = refl

destroy_once : (destroy 1 two [] >>= λ r. destroy 1 r.0 r.1) >>= (λ r. some r.1) ≡ some (1 ∷ [])
unfolding new new_root set_parent detach attach set_index_in_parent set_index_in_parent_unchecked
    destroy condemned mark_condemned
destroy_once = refl
