-- ===== src/Ecs/Entity/Tests.antt =====
-- The bits at a condemned word.
use heat_gun.Base.{◌+◌, ◌≡◌, refl, some}
use heat_gun.Ecs.Entity.{
  condemned_bit, index_in_parent, condemned, set_index_in_parent_unchecked, set_index_in_parent,
  mark_condemned,
}

set_condemned : set_index_in_parent 3 (condemned_bit + 5) ≡ some (condemned_bit + 3)
unfolding set_index_in_parent set_index_in_parent_unchecked condemned mark_condemned
set_condemned = refl

read_condemned : index_in_parent (condemned_bit + 3) ≡ 3
unfolding index_in_parent
read_condemned = refl
