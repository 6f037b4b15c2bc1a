-- ===== src/Ecs/Entity/Tree.antt =====
-- src/engine/hg-ecs/src/entity.rs: the tree of entities, as the arena of `EntityInfo`s keeps it. A
-- handle is a number, a new one is given by the caller, and `none` is a panic. No iteration over a
-- list of children is alive where the list is changed.
pub mod Links
pub mod Detaching
pub mod Moving
pub mod Making
pub mod Ancestry
mod Tests
use heat_gun.Base.{
  ℕ, zero, suc, Bool, true, false, not, List, [], ◌∷◌, ◌++◌, Option, none, some, Map, insert,
  nat_key, length, get_elem?, swap_remove, ◌==◌, if◌then◌else◌, ◌>>=◌, is_some,
}
use heat_gun.Ecs.Entity.{
  index_in_parent, condemned, set_index_in_parent_unchecked, set_index_in_parent, mark_condemned,
}

-- `EntityInfo`; the archetype and the place in it are the store's affair.
pub record EntityInfo : Type 0 where
  pub archetype : ℕ
  pub index_in_archetype : ℕ
  pub word : ℕ
  pub parent : Option ℕ
  pub children : List ℕ

abbrev pub Entities : Type 0
Entities = Map ℕ EntityInfo

-- `Entity::new_root`.
unfoldable pub new_root : ℕ → Entities → Entities
new_root entity m =
    insert entity
      (record { archetype = 0; index_in_archetype = 0; word = 0; parent = none; children = [] }) m

unfoldable pub is_alive : ℕ → Entities → Bool
is_alive entity m = is_some (m entity)

unfoldable pub parent : ℕ → Entities → Option (Option ℕ)
parent entity m = do me ← m entity; some me.parent

unfoldable pub children : ℕ → Entities → Option (List ℕ)
children entity m = do me ← m entity; some me.children

-- `set_index_in_parent_unchecked` on the entity that took a freed place, if one did.
unfoldable pub patch_moved : ℕ → Option ℕ → Entities → Option Entities
patch_moved index none m = some m
patch_moved index (some moved) m = do
  info ← m moved
  some (insert moved (record info { word = set_index_in_parent_unchecked index info.word }) m)

-- The first half of `set_parent`: the entity is taken from its parent.
unfoldable pub detach : ℕ → Entities → Option Entities
unfolding patch_moved
detach entity m = do
  me ← m entity
  let m' = insert entity (record me { parent = none }) m
  elim me.parent [
    | none ↦ some m'
    | some old ↦ m' old >>= λ old_info.
        swap_remove (index_in_parent me.word) old_info.children >>= λ rest.
        patch_moved (index_in_parent me.word) (get_elem? rest (index_in_parent me.word))
          (insert old (record old_info { children = rest }) m')
  ]

-- The second half: the entity is put at the end of the new parent's children. `get2_mut` panics on
-- one entity given twice.
unfoldable pub attach : ℕ → Option ℕ → Entities → Option Entities
attach entity none m = some m
attach entity (some new_parent) m = if entity == new_parent then none else (do
  me ← m entity
  info ← m new_parent
  word ← set_index_in_parent (length info.children) me.word
  some (
      insert new_parent (record info { children = info.children ++ entity ∷ [] })
        (insert entity (record me { parent = some new_parent; word = word }) m)))

-- `Entity::set_parent`.
unfoldable pub set_parent : ℕ → Option ℕ → Entities → Option Entities
unfolding detach attach
set_parent entity new_parent m = do m' ← detach entity m; attach entity new_parent m'

-- `Entity::new`.
unfoldable pub new : ℕ → ℕ → Entities → Option Entities
unfolding new_root set_parent
new entity new_parent m = set_parent entity (some new_parent) (new_root entity m)

-- `Entity::destroy`: the entity, and the list of the condemned.
unfoldable pub destroy : ℕ → Entities → List ℕ → Option (Entities × List ℕ)
destroy entity m queue = do
  me ← m entity
  if condemned me.word
      then some (m, queue)
      else some
          (insert entity (record me { word = mark_condemned me.word }) m, queue ++ entity ∷ [])

-- `try_deep_get`, for a component that stands in `component`: the nearest of the entity and its
-- ancestors that has it; on fuel, `none` is that it runs out, or a panic.
unfoldable pub try_deep_get : ℕ → Map ℕ ℕ → ℕ → Entities → Option (Option ℕ)
try_deep_get zero component entity m = none
try_deep_get (suc fuel) component entity m = elim (component entity) [
  | some obj ↦ some (some obj)
  | none ↦ m entity >>= λ me. elim me.parent [
    | none ↦ some none
    | some up ↦ try_deep_get fuel component up m
  ]
]
