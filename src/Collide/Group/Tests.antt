-- ===== src/Collide/Group/Tests.antt =====
-- A group of two members, the first of which leaves; and which cannot leave while the group is iterated
-- over.
use heat_gun.Base.{
  ℕ, ◌>>=◌, ◌≡◌, refl, sym, subst, false, [], ◌∷◌, Option, none, some, empty_map, insert, nat_key,
  get_elem?, swap_remove, ◌==◌, if◌then◌else◌, Bool-cases, inl, inr,
}
use heat_gun.Collide.Group.{
  Groups, register, unregister, patch_moved, collide_no_group, members_of, colliders_mut,
}
use heat_gun.Collide.Group.Membership.{
  list_of, Consistent, unregister-Consistent, register-Consistent,
}

abbrev nobody : ℕ → Option ℕ
nobody x = none

abbrev empty : Groups
empty = record {
  colliders = insert 3 [] empty_map;
  held = λ g. 0;
  members = empty_map;
  member_of = empty_map;
}

no_list : (p : ℕ) → list_of (empty.colliders p) ≡ []
no_list p = elim (Bool-cases (3 == p)) [ inl h ↦ rw h refl | inr h ↦ rw h refl ]

nothing : (p i c : ℕ) → get_elem? (list_of (empty.colliders p)) i ≡ some c → ⊥
nothing p i c e = none_there (rw (no_list p) at e)
  where
    none_there : none ≡ some c → ⊥
    none_there q = cc

empty-Consistent : Consistent nobody empty
empty-Consistent = record {
  listing = record { down = λ p i c e. absurd (nothing p i c e); up = λ c p e. absurd (cc) };
  named = λ x g e. absurd (cc);
}

abbrev value : Option Groups → Groups
value none = empty
value (some s) = s

abbrev one : Groups
one = value (register 10 20 3 empty)

abbrev two : Groups
two = value (register 11 21 3 one)

abbrev owner_one : ℕ → Option ℕ
owner_one x = if 10 == x then some 3 else none

abbrev owner_two : ℕ → Option ℕ
owner_two x = if 11 == x then some 3 else owner_one x

kept :
    (owner : ℕ → Option ℕ) (o : Option Groups) (s : Groups)
    → o ≡ some s
    → Consistent owner s
    → Consistent owner (value o)
kept owner o s e v = subst (λ x. Consistent owner (value x)) (sym e) v

one-Consistent : Consistent owner_one one
one-Consistent =
    let (s, e, v) = register-Consistent nobody empty 10 20 3 [] empty-Consistent refl refl in
    kept owner_one (register 10 20 3 empty) s e v

one_list : one.colliders 3 ≡ some (10 ∷ [])
unfolding register colliders_mut
one_list = refl

two-Consistent : Consistent owner_two two
unfolding register colliders_mut
two-Consistent =
    let (s, e, v) =
      register-Consistent owner_one one 11 21 3 (10 ∷ []) one-Consistent refl one_list in
    kept owner_two (register 11 21 3 one) s e v

unregister-Consistent_example :
    (s' : Groups) × (unregister 10 two ≡ (if two.held 3 == 0 then some s' else none))
    × Consistent (λ x. if 10 == x then none else owner_two x) s'
unregister-Consistent_example = unregister-Consistent owner_two two 10 3 two-Consistent refl

left_list : (value (unregister 10 two)).colliders 3 ≡ some (11 ∷ [])
unfolding register unregister colliders_mut patch_moved swap_remove
left_list = refl

is_member : collide_no_group 3 21 two ≡ some false
unfolding register colliders_mut collide_no_group
is_member = refl

abbrev iterated : Option Groups
iterated = members_of 3 two >>= λ r. some r.1

refused : (iterated >>= unregister 10) ≡ none
unfolding register unregister colliders_mut members_of
refused = refl
