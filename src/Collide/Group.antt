-- ===== src/Collide/Group.antt =====
-- src/engine/hg-engine-common/src/collide/group.rs: the members of the groups of colliders. A handle is a
-- number, a new one is given by the caller. The set of members of a group is shared with the iterations
-- over it, which are counted: while one is alive, a change of the set panics. `none` is a panic.
pub mod Membership
mod Tests
use heat_gun.Base.{
  ℕ, suc, if◌then◌else◌, Bool, true, false, not, List, [], ◌∷◌, ◌++◌, Option, none, some, Map,
  insert, nat_key, length, get_elem?, swap_remove, ◌==◌, ◌>>=◌,
}

pub record ColliderGroupMember : Type 0 where
  pub collider : ℕ
  pub group : ℕ
  pub index : ℕ

-- The groups, each with its colliders, and the members; `held` says how many clones of the `Arc` of a
-- group are alive beside the group's own, and `member_of` finds the member component of the entity of
-- a collider.
pub record Groups : Type 0 where
  pub colliders : Map ℕ (List ℕ)
  pub held : ℕ → ℕ
  pub members : Map ℕ ColliderGroupMember
  pub member_of : Map ℕ ℕ

-- `ColliderGroup::new`.
unfoldable pub new_group : ℕ → Groups → Groups
new_group group s = record s {
  colliders = insert group [] s.colliders;
  held = λ g. if group == g then 0 else s.held g;
}

-- `ColliderGroup::members`: the list, which the caller holds from now on.
unfoldable pub members_of : ℕ → Groups → Option (List ℕ × Groups)
members_of group s = do
  colliders ← s.colliders group
  some (colliders, record s { held = λ g. if group == g then suc (s.held g) else s.held g })

-- `Arc::get_mut` of the members of a group, with `CONCURRENT_MUTATION_ERR`.
unfoldable pub colliders_mut : ℕ → Groups → Option (List ℕ)
colliders_mut group s = do
  colliders ← s.colliders group
  if s.held group == 0 then some colliders else none

-- `ColliderGroup::register`.
unfoldable pub register : ℕ → ℕ → ℕ → Groups → Option Groups
unfolding colliders_mut
register member collider group s = do
  colliders ← colliders_mut group s
  some (record s {
    members =
        insert member (record { collider = collider; group = group; index = length colliders })
          s.members;
    member_of = insert collider member s.member_of;
    colliders = insert group (colliders ++ member ∷ []) s.colliders;
  })

-- The member that took a freed place is told its index.
unfoldable pub patch_moved :
    ℕ → Option ℕ → Map ℕ ColliderGroupMember → Option (Map ℕ ColliderGroupMember)
patch_moved index none members = some members
patch_moved index (some moved) members = do
  m ← members moved
  some (insert moved (record m { index = index }) members)

-- `ColliderGroupMember::unregister`.
unfoldable pub unregister : ℕ → Groups → Option Groups
unfolding patch_moved colliders_mut
unregister member s = do
  me ← s.members member
  colliders ← colliders_mut me.group s
  rest ← swap_remove me.index colliders
  members ← patch_moved me.index (get_elem? rest me.index) s.members
  some (record s { colliders = insert me.group rest s.colliders; members = members })

-- `collide_no_group`: whether a collider is not of the group.
unfoldable pub collide_no_group : ℕ → ℕ → Groups → Option Bool
collide_no_group group collider s = elim (s.member_of collider) [
  | none ↦ some true
  | some member ↦ s.members member >>= λ m. some (not (m.group == group))
]
