-- ===== src/Ecs/Entity/Members.antt =====
-- src/engine/hg-ecs/src/entity.rs: the end of `flush`, which brings the members of the archetypes up to
-- date. The archetype 0 is the empty one. `none` is a panic; the panic where an iteration still holds the
-- query state is left out. Parameters: the components of an archetype, and the index at which a
-- component of an entity is stored.
pub mod Moves
pub mod Requests
pub mod Flushing
mod Tests
use heat_gun.Base.{
  ℕ, zero, suc, ◌+◌, ◌-◌, ◌^◌, Bool, true, false, not, List, [], ◌∷◌, ◌++◌, Option, none, some, Map,
  insert, remove, nat_key, length, get_elem?, take, swap_remove, is_some, ltb, leb, ◌==◌,
  if◌then◌else◌, ◌>>=◌,
}
use heat_gun.Ecs.Entity.Tree.{EntityInfo, Entities}

abbrev pub empty_archetype : ℕ
empty_archetype = 0

-- The entities, and `EntityQueryState`; its map by archetype and component is a map of maps.
pub record Reshaping : Type 0 where
  pub entities : Entities
  pub index_members : Map ℕ (List ℕ)
  pub comp_members : ℕ → Map ℕ (List ℕ)

abbrev pub list_or_empty : Option (List ℕ) → List ℕ
list_or_empty none = []
list_or_empty (some l) = l

-- The index of the entity that took a freed place is patched.
unfoldable pub patch_index : ℕ → Option ℕ → Entities → Option Entities
patch_index idx none m = some m
patch_index idx (some moved) m = do
  info ← m moved
  some (insert moved (record info { index_in_archetype = idx }) m)

-- An entity leaves the list of an archetype.
unfoldable pub leave : ℕ → ℕ → Reshaping → Option Reshaping
unfolding patch_index
leave arch idx s = do
  index_members ← s.index_members arch
  rest ← swap_remove idx index_members
  entities ← patch_index idx (get_elem? rest idx) s.entities
  some (record s { entities = entities; index_members = insert arch rest s.index_members })

-- An entity enters the list of an archetype, which is made where there is none.
unfoldable pub enter : ℕ → ℕ → Reshaping → Option Reshaping
enter arch entity s =
    if ltb (length (list_or_empty (s.index_members arch))) (2 ^ 32)
    then (do
      info ← s.entities entity
      some (record s {
        entities =
            insert entity
              (record info { index_in_archetype = length (list_or_empty (s.index_members arch)) })
              s.entities;
        index_members =
            insert arch (list_or_empty (s.index_members arch) ++ entity ∷ []) s.index_members;
      }))
    else none

-- The part of a move request that concerns the entities and their lists.
unfoldable pub move_entity : ℕ → ℕ → Reshaping → Option Reshaping
unfolding leave enter
move_entity entity old_arch s = s.entities entity >>= λ own_info.
    if own_info.archetype == old_arch
    then some s
    else ((if old_arch == empty_archetype
          then some s
          else leave old_arch own_info.index_in_archetype s)
        >>= λ s'.
            if own_info.archetype == empty_archetype
            then some s'
            else enter own_info.archetype entity s')

-- The loop over the move requests, for the entities and their lists; `reshape_all` has the columns.
unfoldable pub move_all : List (ℕ × ℕ) → Reshaping → Option Reshaping
unfolding move_entity
move_all [] s = some s
move_all ((entity, old_arch) ∷ requests) s = do
  s' ← move_entity entity old_arch s
  move_all requests s'

-- An update of the list of one component of an archetype; a list that is missing is a panic.
abbrev pub put_column : ℕ → ℕ → List ℕ → Reshaping → Reshaping
put_column arch comp l s = record s {
  comp_members = λ a. if arch == a then insert comp l (s.comp_members a) else s.comp_members a;
}

unfoldable pub each_column :
    (List ℕ → ℕ → Option (List ℕ)) → ℕ → List ℕ → Reshaping → Option Reshaping
each_column change arch [] s = some s
each_column change arch (comp ∷ comps) s = do
  l ← s.comp_members arch comp
  l' ← change l comp
  each_column change arch comps (put_column arch comp l' s)

-- The lists of the components that a new archetype gets.
unfoldable pub new_columns : ℕ → List ℕ → Reshaping → Reshaping
new_columns arch [] s = s
new_columns arch (comp ∷ comps) s = new_columns arch comps (put_column arch comp [] s)

abbrev pub pop : List ℕ → Option (List ℕ)
pop l = some (take (length l - 1) l)

module _ (components : ℕ → List ℕ) (fetch_idx : ℕ → ℕ → ℕ) where
  -- The dead entities at the end of an archetype are trimmed, on fuel, a round for each entity.
  unfoldable pub trim : ℕ → ℕ → Reshaping → Option Reshaping
  unfolding each_column
  trim zero arch s = some s
  trim (suc fuel) arch s = s.index_members arch >>= λ l. elim (get_elem? l (length l - 1)) [
    | none ↦ some s
    | some last ↦ elim (is_some (s.entities last)) [
      | true ↦ some s
      | false ↦
          each_column (λ column comp. pop column) arch (components arch)
            (record s { index_members = insert arch (take (length l - 1) l) s.index_members })
          >>= trim fuel arch
    ]
  ]

  -- One dead entity of `flush`.
  unfoldable pub bury : ℕ → ℕ → Reshaping → Option Reshaping
  unfolding trim leave each_column
  bury arch idx s = do
    l ← s.index_members arch
    s' ← trim (length l) arch s
    l' ← s'.index_members arch
    if leb (length l') idx
        then some s'
        else (leave arch idx s'
            >>= each_column (λ column comp. swap_remove idx column) arch (components arch))

  -- The columns of the archetype that an entity leaves, and of the one that it enters.
  unfoldable pub leave_columns : ℕ → ℕ → Reshaping → Option Reshaping
  unfolding each_column
  leave_columns arch idx s =
      if arch == empty_archetype
      then some s
      else each_column (λ column comp. swap_remove idx column) arch (components arch) s

  unfoldable pub enter_columns : Bool → ℕ → ℕ → Reshaping → Option Reshaping
  unfolding each_column new_columns
  enter_columns is_new arch entity s =
      if arch == empty_archetype
      then some s
      else each_column (λ column comp. some (column ++ fetch_idx comp entity ∷ [])) arch
          (components arch) (if is_new then new_columns arch (components arch) s else s)

  -- One move request of `flush`. The lists of the components and of the entities do not meet, so that
  -- the entities are moved first.
  unfoldable pub reshape : ℕ → ℕ → Reshaping → Option Reshaping
  unfolding move_entity leave_columns enter_columns
  reshape entity old_arch s = s.entities entity >>= λ own_info.
      if own_info.archetype == old_arch
      then some s
      else (move_entity entity old_arch s >>= λ s'.
          leave_columns old_arch own_info.index_in_archetype s'
          >>= enter_columns (not (is_some (s.index_members own_info.archetype))) own_info.archetype
              entity)

  unfoldable pub bury_all : List (ℕ × ℕ) → Reshaping → Option Reshaping
  unfolding bury
  bury_all [] s = some s
  bury_all ((arch, idx) ∷ dead) s = do s' ← bury arch idx s; bury_all dead s'

  unfoldable pub reshape_all : List (ℕ × ℕ) → Reshaping → Option Reshaping
  unfolding reshape
  reshape_all [] s = some s
  reshape_all ((entity, old_arch) ∷ requests) s = do
    s' ← reshape entity old_arch s
    reshape_all requests s'

  -- The drained sets come in some order, which is given.
  unfoldable pub flush_members : List (ℕ × ℕ) → List (ℕ × ℕ) → Reshaping → Option Reshaping
  unfolding bury_all reshape_all
  flush_members dead_entities reshaped_entities s = do
    s' ← bury_all dead_entities s
    reshape_all reshaped_entities s'
