-- ===== src/Ecs/Entity/Members/Tests.antt =====
-- Two entities in the archetype 1, the first of which has moved to the archetype 2.
use heat_gun.Base.{
  ℕ, ◌+◌, ◌≡◌, refl, List, [], ◌∷◌, Option, none, some, empty_map, insert, nat_key, swap_remove,
  ◌==◌, if◌then◌else◌,
}
use heat_gun.Ecs.Entity.Tree.{EntityInfo}
use heat_gun.Ecs.Entity.Members.{
  Reshaping, patch_index, leave, enter, move_entity, each_column, new_columns, trim, bury,
  leave_columns, enter_columns, reshape, bury_all, reshape_all, flush_members,
}
use heat_gun.Ecs.Entity.Members.Moves.{listed, index_of}
use heat_gun.Ecs.Entity.Members.Flushing.{requests_of}

abbrev in_arch : ℕ → ℕ → EntityInfo
in_arch arch index = record {
  archetype = arch;
  index_in_archetype = index;
  word = 0;
  parent = none;
  children = [];
}

abbrev two : Reshaping
two = record {
  entities = insert 7 (in_arch 2 0) (insert 8 (in_arch 1 1) empty_map);
  index_members = insert 1 (7 ∷ 8 ∷ []) empty_map;
  comp_members = λ a. if a == 1 then insert 5 (70 ∷ 80 ∷ []) empty_map else empty_map;
}

abbrev requests : List (ℕ × ℕ)
requests = (7, 1) ∷ []

abbrev owner : ℕ → Option ℕ
owner = listed (requests_of requests) two.entities

abbrev place : ℕ → ℕ
place x = index_of (two.entities x)

-- The whole end of a flush: the entity 9 has died at the end of the archetype 1.
abbrev comps_of : ℕ → List ℕ
comps_of arch = 5 ∷ []

abbrev with_dead : Reshaping
with_dead = record two {
  index_members = insert 1 (7 ∷ 8 ∷ 9 ∷ []) empty_map;
  comp_members = λ a. if a == 1 then insert 5 (70 ∷ 80 ∷ 90 ∷ []) empty_map else empty_map;
}

abbrev flushed : Option Reshaping
flushed = flush_members comps_of (λ comp e. e + 100) ((1, 2) ∷ []) requests with_dead

abbrev list_at : ℕ → Option Reshaping → Option (List ℕ)
list_at arch none = none
list_at arch (some s) = s.index_members arch

abbrev column_at : ℕ → ℕ → Option Reshaping → Option (List ℕ)
column_at arch comp none = none
column_at arch comp (some s) = s.comp_members arch comp

flushed_old : list_at 1 flushed ≡ some (8 ∷ [])
unfolding flush_members bury_all bury trim reshape_all reshape move_entity leave enter patch_index
    each_column new_columns leave_columns enter_columns swap_remove
flushed_old = refl

flushed_new : list_at 2 flushed ≡ some (7 ∷ [])
unfolding flush_members bury_all bury trim reshape_all reshape move_entity leave enter patch_index
    each_column new_columns leave_columns enter_columns swap_remove
flushed_new = refl

flushed_old_column : column_at 1 5 flushed ≡ some (80 ∷ [])
unfolding flush_members bury_all bury trim reshape_all reshape move_entity leave enter patch_index
    each_column new_columns leave_columns enter_columns swap_remove
flushed_old_column = refl

flushed_new_column : column_at 2 5 flushed ≡ some (107 ∷ [])
unfolding flush_members bury_all bury trim reshape_all reshape move_entity leave enter patch_index
    each_column new_columns leave_columns enter_columns swap_remove
flushed_new_column = refl
