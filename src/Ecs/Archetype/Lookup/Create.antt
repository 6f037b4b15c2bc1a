-- ===== src/Ecs/Archetype/Lookup/Create.antt =====
-- The new archetype at the end of `lookup`.
use native.Mathlib.Nat.{zero-add}
use mathlib.Core.Option.{some-injective}
use mathlib.Core.Bool.{◌&&◌}
use heat_gun.Base.{
  &&-false, All-both, ℕ, ◌+◌, ◌<◌, ◌≡◌, refl, sym, ap, ◌∙◌, Bool, true, false, not, List, [], ◌∷◌,
  ◌++◌, none, some, arith, length, get_elem?, All, All-append, All-imp, IsSorted, list_eq,
  length-append, nat_key, if◌then◌else◌, compare_cases, inl, inr, get_elem?-append_left,
  get_elem?-length_append, get_elem?-lt, list_eq_refl, list_eq-eq, ◌==◌, ==-refl, Bool-cases,
  contains,
}
use heat_gun.Ecs.Archetype.{
  Range, ArchetypeData, ArchetypeStore, slice, put_cache, find_entry, archetypes_with, fresh_data,
  create,
}
use heat_gun.Ecs.Archetype.View.{
  IsValid, view, index_of, ids_with, Inside, CachesBelow, slice-append, slice-end, rows-append,
  rows-buffer, rows-update_at, comps-put_cache, length-update_at, length-rows, All-update_at,
}
use heat_gun.Ecs.Archetype.Table.{
  find_entry-buffer, find_entry-append, index_of-append, ids_with-append, push_arches_lem,
}

pub caches-put_cache :
    (n w t : ℕ) (p : Bool) (d : ArchetypeData)
    → t < n
    → CachesBelow n d
    → CachesBelow n (put_cache p w t d)
caches-put_cache n w t true d h c = λ k u e. ground (arith, c k u)
caches-put_cache n w t false d h c = c

caches-fresh :
    (n w t : ℕ) (p : Bool) (r : Range) (cs : List ℕ)
    → t < n
    → CachesBelow n (put_cache p w t (fresh_data r cs))
caches-fresh n w t p r cs h = caches-put_cache n w t p (fresh_data r cs) h (λ k u e. cc)

same_hash : (hash : List ℕ → ℕ) (c d : List ℕ) → (hash c == hash d && list_eq d c) ≡ list_eq d c
same_hash hash c d = elim (Bool-cases (list_eq d c)) [
  | inl e ↦ rw (list_eq-eq d c e, ==-refl (hash c))
  | inr e ↦ rw e (&&-false (hash c == hash d))
]

distinct_left :
    (comps c : List ℕ) (rs : List (List ℕ)) (i : ℕ)
    → index_of 0 c rs ≡ some i
    → index_of 0 c (rs ++ comps ∷ []) ≡ some i
distinct_left comps c rs i e = rw (index_of-append 0 c comps rs, e)

distinct_end :
    (comps c : List ℕ) (rs : List (List ℕ))
    → index_of 0 comps rs ≡ none
    → some comps ≡ some c
    → index_of 0 c (rs ++ comps ∷ []) ≡ some (length rs)
distinct_end comps c rs miss e =
    rw
      (index_of-append 0 c comps rs, ← some-injective comps c e, miss, list_eq_refl comps, zero-add)

distinct-create :
    (comps : List ℕ) (rs : List (List ℕ))
    → index_of 0 comps rs ≡ none
    → ((i : ℕ) (c : List ℕ) → get_elem? rs i ≡ some c → index_of 0 c rs ≡ some i)
    → (i : ℕ) (c : List ℕ) → get_elem? (rs ++ comps ∷ []) i ≡ some c
    → index_of 0 c (rs ++ comps ∷ []) ≡ some i
distinct-create comps rs miss d i c e = elim (compare_cases i (length rs)) [
  | inl lt ↦
      distinct_left comps c rs i (d i c (sym (get_elem?-append_left rs (comps ∷ []) i lt) ∙ e))
  | inr (inl eq) ↦
      rw eq
        (distinct_end comps c rs miss (sym (get_elem?-length_append rs (comps ∷ [])) ∙ rw eq at e))
  | inr (inr gt) ↦
      absurd (omega (arith, get_elem?-lt (rs ++ comps ∷ []) i e, length-append rs (comps ∷ [])))
]

pub comp_map-put_cache :
    (p : Bool) (w t : ℕ) (d : ArchetypeData) → (put_cache p w t d).comp_map ≡ d.comp_map
comp_map-put_cache true w t d = refl
comp_map-put_cache false w t d = refl

Inside-append :
    (buf ys : List ℕ) (r : Range) → Inside (length buf) r → Inside (length (buf ++ ys)) r
Inside-append buf ys r h = omega (arith, length-append buf ys)

Inside-end :
    (buf ys : List ℕ)
    → Inside (length (buf ++ ys)) (record { start = length buf; end = length (buf ++ ys) })
Inside-end buf ys = omega (arith, length-append buf ys)

module _ (hash : List ℕ → ℕ) (p : Bool) (base w : ℕ) (comps : List ℕ) (st : ArchetypeStore) where
  module _ (v : IsValid hash st) where
    pub view-create : view (create hash p base w comps st).1 ≡ view st ++ comps ∷ []
    unfolding create
    view-create =
        rows-update_at (st.comp_buf ++ comps) base w (length st.arena) p _
        ∙ rows-append (st.comp_buf ++ comps) st.arena _
        ∙ rw (
          rows-buffer st.comp_buf comps st.arena v.data_inside,
          comps-put_cache (not p) w base,
          slice-end st.comp_buf comps,
        )

    found-create :
        (c : List ℕ)
        → find_entry (hash c) c (st.comp_buf ++ comps) (create hash p base w comps st).1.map
          ≡ index_of 0 c (view st ++ comps ∷ [])
    unfolding create
    found-create c =
        find_entry-append (hash c) c (st.comp_buf ++ comps) st.map _ (length st.arena)
        ∙ rw (
          find_entry-buffer (hash c) c st.comp_buf comps st.map v.keys_inside,
          v.found c,
          slice-end st.comp_buf comps,
          same_hash hash c comps,
          ← length-rows st.comp_buf st.arena,
          index_of-append 0 c comps (view st),
          zero-add,
        )

    indexed-create :
        IsSorted comps
        → (c : ℕ)
        → archetypes_with (create hash p base w comps st).1 c ≡ ids_with 0 c (view st ++ comps ∷ [])
    unfolding create archetypes_with
    indexed-create s c =
        push_arches_lem 0 c (length st.arena) comps st.comp_arches s
        ∙ rw (ids_with-append 0 c comps (view st), zero-add, length-rows st.comp_buf st.arena)
            (ap (λ ids. ids ++ (if contains c comps then length st.arena ∷ [] else []))
              (unfold archetypes_with in v.indexed c))

    pub length-create : length (create hash p base w comps st).1.arena ≡ length st.arena + 1
    unfolding create
    length-create =
        omega (
          arith,
          length-update_at base (put_cache p w (length st.arena)) _,
          length-append st.arena _,
        )

    -- Whatever holds of every archetype, also after a cache is written, and of the new one.
    arena-create :
        (P Q : ArchetypeData → Type 0)
        → ((d : ArchetypeData) → P d → Q d)
        → ((d : ArchetypeData) → Q d → Q (put_cache p w (length st.arena) d))
        → Q (
            put_cache (not p) w base (
              fresh_data
                (record { start = length st.comp_buf; end = length (st.comp_buf ++ comps) })
                comps))
        → All P st.arena
        → All Q (create hash p base w comps st).1.arena
    unfolding create
    arena-create P Q weak keep fresh a =
        All-update_at Q base _ _ keep
          (All-append Q st.arena _ (All-imp P Q st.arena weak a) (fresh, tt))

    data-Inside-create :
        All
          (λ d. Inside (length (st.comp_buf ++ comps)) d.comps)
          (create hash p base w comps st).1.arena
    data-Inside-create =
        arena-create (λ d. Inside (length st.comp_buf) d.comps) _
          (λ d. Inside-append st.comp_buf comps d.comps)
          (λ d a. rw (comps-put_cache p w (length st.arena) d) a)
          (rw (comps-put_cache (not p) w base) (Inside-end st.comp_buf comps)) v.data_inside

    sets-create :
        All
          (λ d. d.comp_map ≡ slice (st.comp_buf ++ comps) d.comps)
          (create hash p base w comps st).1.arena
    sets-create =
        arena-create
          (λ d. Inside (length st.comp_buf) d.comps × (d.comp_map ≡ slice st.comp_buf d.comps)) _
          (λ d a. rw (slice-append st.comp_buf comps d.comps a.0) a.1)
          (λ d a.
            rw (comps-put_cache p w (length st.arena) d, comp_map-put_cache p w (length st.arena) d)
              a)
          (rw (
            comps-put_cache (not p) w base,
            comp_map-put_cache (not p) w base,
            slice-end st.comp_buf comps,
          ))
          (All-both _ _ st.arena v.data_inside v.sets)

    keys-Inside-create :
        All
          (λ e. Inside (length (st.comp_buf ++ comps)) e.0.comps)
          (create hash p base w comps st).1.map
    unfolding create
    keys-Inside-create =
        All-append _ st.map _
          (All-imp _ _ st.map (λ e. Inside-append st.comp_buf comps e.0.comps) v.keys_inside)
          (Inside-end st.comp_buf comps, tt)

    caches-create :
        base < length st.arena
        → All
            (CachesBelow (length (create hash p base w comps st).1.arena))
            (create hash p base w comps st).1.arena
    caches-create h = rw length-create (
        arena-create (CachesBelow (length st.arena)) (CachesBelow (length st.arena + 1))
          (λ d a k t e. omega (arith, a k t e))
          (λ d. caches-put_cache (length st.arena + 1) w (length st.arena) p d (omega arith))
          (caches-fresh (length st.arena + 1) w base (not p) _ comps (omega arith)) v.caches)

    pub create-IsValid :
        base < length st.arena
        → IsSorted comps
        → find_entry (hash comps) comps st.comp_buf st.map ≡ none
        → IsValid hash (create hash p base w comps st).1
    create-IsValid h s miss = record {
      data_inside = unfold create in data-Inside-create;
      keys_inside = unfold create in keys-Inside-create;
      sets = unfold create in sets-create;
      sorted = rw view-create (All-append IsSorted (view st) (comps ∷ []) v.sorted (s, tt));
      found = λ c. rw view-create (unfold create in found-create c);
      distinct =
          rw view-create (distinct-create comps (view st) (sym (v.found comps) ∙ miss) v.distinct);
      caches = caches-create h;
      indexed = rw view-create (indexed-create s);
    }
