-- ===== src/Ecs/Archetype/Removal.antt =====
-- What `lookup_remove` does with a component that is not the least of its archetype.
use mathlib.Core.Option.{some-injective}
use heat_gun.Base.{
  subst, ℕ, zero, suc, ◌≡◌, ◌≢◌, sym, ap, ◌∙◌, true, List, [], ◌∷◌, none, some, arith, get_elem?,
  beq-ne, beq_refl, nat_key, All-get_elem?, IsSorted,
}
use heat_gun.Iter.Merge.Difference.{remove_all_single}
use heat_gun.Ecs.Archetype.{
  ArchetypeData, ArchetypeStore, slice, update_at, put_cache, find_entry, removing, extending,
  mode_comps, components, find_or_create, lookup_extend, lookup_remove,
}
use heat_gun.Ecs.Archetype.View.{IsValid, view, get_elem?-rows}
use heat_gun.Ecs.Archetype.Lookup.{lookup_miss, lookup_hit}

get_elem?-update_at :
    (ds : List ArchetypeData) (i : ℕ) (f : ArchetypeData → ArchetypeData) (d : ArchetypeData)
    → get_elem? ds i ≡ some d
    → get_elem? (update_at i f ds) i ≡ some (f d)
get_elem?-update_at [] i f d e = cc
get_elem?-update_at (x ∷ ds) zero f d e = ground arith
get_elem?-update_at (x ∷ ds) (suc i) f d e = get_elem?-update_at ds i f d e

module _ (hash : List ℕ → ℕ) (st : ArchetypeStore) (v : IsValid hash st) where
  find_self :
      (base : ℕ) (d : ArchetypeData)
      → get_elem? st.arena base ≡ some d
      → find_entry (hash (slice st.comp_buf d.comps)) (slice st.comp_buf d.comps) st.comp_buf st.map
        ≡ some base
  find_self base d e = v.found _ ∙ v.distinct base _ (get_elem?-rows st.comp_buf st.arena base d e)

  -- The store after the removal was cached.
  abbrev cached : ℕ → ℕ → ArchetypeStore
  cached base w = record st { arena = update_at base (put_cache true w base) st.arena }

  find_or_create_self :
      (base w : ℕ) (d : ArchetypeData) (row : List ℕ)
      → get_elem? st.arena base ≡ some d
      → slice st.comp_buf d.comps ≡ row
      → find_or_create hash true base w row st ≡ (base, cached base w)
  unfolding find_or_create
  find_or_create_self base w d row e same = rw (rw same at (find_self base d e), find_or_create)

  remove_keeps :
      (w l : ℕ) (ls comps : List ℕ)
      → IsSorted (l ∷ ls)
      → l ≢ w
      → mode_comps removing (l ∷ ls) w ≡ some comps
      → comps ≡ l ∷ ls
  unfolding mode_comps
  remove_keeps w l ls comps s ne c =
      some-injective _ _ (sym c ∙ remove_all_single w l ls s ∙ rw (beq-ne l w ne))

  -- In a valid store, at a non-empty archetype with no cached transition for a component that is not
  -- its least one: looking up the removal of the component answers the archetype itself, whether or
  -- not the component is in it; and it leaves a cache entry through which a `lookup_extend` by that
  -- component, right after, answers the same archetype.
  pub lookup_remove_self :
      (base w l : ℕ) (ls : List ℕ) (d : ArchetypeData)
      → get_elem? st.arena base ≡ some d
      → slice st.comp_buf d.comps ≡ l ∷ ls
      → l ≢ w
      → d.pos w ≡ none
      → (st' : ArchetypeStore) × (lookup_remove hash base w st ≡ some (base, st'))
        × (lookup_extend hash base w st' ≡ some (base, st'))
        × (components st' base ≡ some (l ∷ ls))
  unfolding lookup_remove lookup_extend
  lookup_remove_self base w l ls d e row ne cold =
      let (comps, c, f, q) = lookup_miss hash st v removing base w d e cold in
      let sorted =
        All-get_elem? IsSorted (view st) base _ v.sorted
          (get_elem?-rows st.comp_buf st.arena base d e) in
      let same : comps ≡ l ∷ ls = remove_keeps w l ls comps (rw row at sorted) ne (rw row at c) in
      let self : find_or_create hash true base w comps st ≡ (base, cached base w) =
        rw same (find_or_create_self base w d (l ∷ ls) e row) in
      let stored = subst (λ (r : ℕ × ArchetypeStore). components r.1 r.0 ≡ some comps) self q.1 in
      let valid = subst (λ (r : ℕ × ArchetypeStore). IsValid hash r.1) self q.0 in
      (
        cached base w,
        f ∙ ap some self,
        lookup_hit hash (cached base w) valid extending base w base (put_cache true w base d)
            (get_elem?-update_at st.arena base (put_cache true w base) d e) (rw (beq_refl w)),
        stored ∙ ap some same,
      )
