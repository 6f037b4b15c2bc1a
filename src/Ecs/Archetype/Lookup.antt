-- ===== src/Ecs/Archetype/Lookup.antt =====
-- `lookup` keeps the store valid, finds or creates the archetype, and moves no other.
mod Create
use native.Mathlib.Nat.{zero-add}
use Create.{comp_map-put_cache, create-IsValid, view-create, length-create, caches-put_cache}
use heat_gun.Base.{
  ℕ, zero, suc, ◌+◌, ◌-◌, ◌≤◌, ◌<◌, ◌≡◌, refl, sym, ap, ◌∙◌, Bool, true, false, not, List, [], ◌∷◌,
  ◌++◌, Option, none, some, arith, length, get_elem?, All, All-imp, IsSorted, Option-cases, inl,
  inr, list_eq, list_eq-eq, Bool-cases, if◌then◌else◌, ◌==◌, SortedFrom-mono, get_elem?-lt,
  get_elem?-of_lt, get_elem?-append_left, get_elem?-length_append, All-get_elem?,
}
use heat_gun.Iter.Merge.{merge_all, remove_all}
use heat_gun.Iter.Merge.Union.{merge_all-IsUnion}
use heat_gun.Iter.Merge.Difference.{remove_all_single}
use heat_gun.Ecs.Archetype.{
  ArchetypeData, ArchetypeStore, slice, update_at, put_cache, find_entry, LookupMode, extending,
  removing, mode_comps, polarity, cache, archetypes_with, components, create, find_or_create,
  lookup,
}
use heat_gun.Ecs.Archetype.View.{
  IsValid, view, rows, index_of, CachesBelow, rows-update_at, length-update_at, length-rows,
  All-update_at, get_elem?-rows, comps-put_cache,
}

row_at :
    (buf : List ℕ) (ds : List ArchetypeData) (i : ℕ)
    → (elim (get_elem? ds i) [ none ↦ none | some d ↦ some (slice buf d.comps) ])
      ≡ get_elem? (rows buf ds) i
row_at buf [] i = refl
row_at buf (d ∷ ds) zero = refl
row_at buf (d ∷ ds) (suc i) = row_at buf ds i

pub components-view : (st : ArchetypeStore) (i : ℕ) → components st i ≡ get_elem? (view st) i
unfolding components
components-view st i = row_at st.comp_buf st.arena i

pub components-data :
    (st : ArchetypeStore) (i : ℕ) (d : ArchetypeData)
    → get_elem? st.arena i ≡ some d
    → components st i ≡ some (slice st.comp_buf d.comps)
unfolding components
components-data st i d e = rw (e, components)

pub components-lt :
    (st : ArchetypeStore) (i : ℕ) (c : List ℕ) → components st i ≡ some c → i < length st.arena
components-lt st i c e = omega (
  arith,
  get_elem?-lt (view st) i (sym (components-view st i) ∙ e),
  length-rows st.comp_buf st.arena,
)

index_of-get :
    (n i : ℕ) (c : List ℕ) (rs : List (List ℕ))
    → index_of n c rs ≡ some i
    → (k : ℕ) × (i ≡ n + k) × (get_elem? rs k ≡ some c)
index_of-get n i c [] e = absurd (cc)
index_of-get n i c (r ∷ rs) e = elim (Bool-cases (list_eq r c)) [
  | inl h ↦ (0, ground arith, ap some (list_eq-eq r c h))
  | inr h ↦ let (k, p, q) = index_of-get (suc n) i c rs (rw h at e) in (suc k, omega arith, q)
]

mode_comps-total :
    (m : LookupMode) (cs : List ℕ) (w : ℕ)
    → IsSorted cs
    → (xs : List ℕ) × (mode_comps m cs w ≡ some xs) × IsSorted xs
unfolding mode_comps
mode_comps-total extending cs w s =
    let (xs, e, (t, m)) = merge_all-IsUnion cs (w ∷ []) s (omega arith) in (xs, e, t)
mode_comps-total removing [] w s = ([], unfold remove_all in refl, tt)
mode_comps-total removing (c ∷ cs) w s = (
  (if c == w then cs else c ∷ cs),
  remove_all_single w c cs s,
  ground (arith, SortedFrom-mono 0 (suc c) cs),
)

-- Every archetype of the first store has the same components in the second.
abbrev pub Extends : ArchetypeStore → ArchetypeStore → Type 0
Extends st st' = (i : ℕ) (c : List ℕ) → components st i ≡ some c → components st' i ≡ some c

polarity-true : (m : LookupMode) → polarity m ≡ true
unfolding polarity
polarity-true extending = refl
polarity-true removing = refl

module _ (hash : List ℕ → ℕ) (st : ArchetypeStore) (v : IsValid hash st) where
  -- A hit of the hash table only writes a cache.
  hit-IsValid :
      (p : Bool) (base w target : ℕ)
      → target < length st.arena
      → IsValid hash (record st { arena = update_at base (put_cache p w target) st.arena })
  unfolding archetypes_with
  hit-IsValid p base w target h = record {
    data_inside =
        All-update_at _ base _ _ (λ d a. rw (comps-put_cache p w target d) a) v.data_inside;
    keys_inside = v.keys_inside;
    sets =
        All-update_at _ base _ _
          (λ d a. rw (comps-put_cache p w target d, comp_map-put_cache p w target d) a) v.sets;
    sorted = rw same v.sorted;
    found = rw same v.found;
    distinct = rw same v.distinct;
    caches = rw (length-update_at base (put_cache p w target) st.arena) (
        All-update_at _ base _ _ (λ d. caches-put_cache (length st.arena) w target p d h) v.caches);
    indexed = rw same v.indexed;
  }
    where
      same : rows st.comp_buf (update_at base (put_cache p w target) st.arena) ≡ view st
      same = rows-update_at st.comp_buf base w target p st.arena

  found-get :
      (comps : List ℕ) (target : ℕ)
      → find_entry (hash comps) comps st.comp_buf st.map ≡ some target
      → (get_elem? (view st) target ≡ some comps) × (target < length st.arena)
  found-get comps target e =
      let (k, p, q) = index_of-get 0 target comps (view st) (sym (v.found comps) ∙ e) in
      let at : get_elem? (view st) target ≡ some comps = rw (p, zero-add k) q in
      (at, omega (arith, get_elem?-lt (view st) target at, length-rows st.comp_buf st.arena))

  -- The components that are asked for, whether found or created.
  abbrev Stored : ℕ × ArchetypeStore → List ℕ → Type 0
  Stored r comps =
      IsValid hash r.1
      × (components r.1 r.0 ≡ some comps)
      × Extends st r.1
      × (length st.arena ≤ length r.1.arena)

  create-Extends :
      (p : Bool) (base w : ℕ) (comps : List ℕ) → Extends st (create hash p base w comps st).1
  create-Extends p base w comps i c e =
      let at : get_elem? (view st) i ≡ some c = sym (components-view st i) ∙ e in
      components-view (create hash p base w comps st).1 i
      ∙ rw (view-create hash p base w comps st v)
          (get_elem?-append_left (view st) (comps ∷ []) i (get_elem?-lt (view st) i at) ∙ at)

  find_or_create-Stored :
      (p : Bool) (base w : ℕ) (comps : List ℕ)
      → base < length st.arena
      → IsSorted comps
      → Stored (find_or_create hash p base w comps st) comps
  unfolding find_or_create create
  find_or_create-Stored p base w comps h s =
      elim (Option-cases (find_entry (hash comps) comps st.comp_buf st.map)) [
        | inl miss ↦
            rw (miss, find_or_create)
              (
                create-IsValid hash p base w comps st v h s miss,
                components-view (create hash p base w comps st).1 (length st.arena)
                    ∙ rw (view-create hash p base w comps st v, ← length-rows st.comp_buf st.arena)
                        (get_elem?-length_append (view st) (comps ∷ [])),
                create-Extends p base w comps,
                omega (arith, length-create hash p base w comps st v),
              )
        | inr (target, hit) ↦
            rw (hit, find_or_create)
              let (at, lt) = found-get comps target hit in
                let same = rows-update_at st.comp_buf base w target p st.arena in
                (
                  hit-IsValid p base w target lt,
                  components-view _ target ∙ rw same at,
                  (λ i c e. components-view _ i ∙ rw same (sym (components-view st i) ∙ e)),
                  omega (arith, length-update_at base (put_cache p w target) st.arena),
                )
      ]

  -- Where no cache answers, the components are computed and stored.
  pub lookup_miss :
      (m : LookupMode) (base w : ℕ) (d : ArchetypeData)
      → get_elem? st.arena base ≡ some d
      → d.pos w ≡ none
      → (comps : List ℕ) × (mode_comps m (slice st.comp_buf d.comps) w ≡ some comps)
        × (lookup hash m base w st ≡ some (find_or_create hash true base w comps st))
        × Stored (find_or_create hash true base w comps st) comps
  unfolding lookup
  lookup_miss m base w d at cold =
      let s =
        All-get_elem? IsSorted (view st) base _ v.sorted
          (get_elem?-rows st.comp_buf st.arena base d at) in
      let (comps, e, t) = mode_comps-total m (slice st.comp_buf d.comps) w s in
      (
        comps,
        e,
        rw (at, lookup, polarity-true m, cold, e, polarity-true m),
        find_or_create-Stored true base w comps (get_elem?-lt st.arena base at) t,
      )

  pub lookup_hit :
      (m : LookupMode) (base w t : ℕ) (d : ArchetypeData)
      → get_elem? st.arena base ≡ some d
      → d.pos w ≡ some t
      → lookup hash m base w st ≡ some (t, st)
  unfolding lookup
  lookup_hit m base w t d at warm = rw (at, lookup, polarity-true m, warm)

  -- `lookup` of either mode, from any archetype of a valid store, succeeds; it leaves a valid
  -- store in which every archetype has the components that it had, and answers an archetype of it.
  pub lookup-IsValid :
      (m : LookupMode) (base w : ℕ)
      → base < length st.arena
      → (r : ℕ × ArchetypeStore) × (lookup hash m base w st ≡ some r)
        × IsValid hash r.1
        × (r.0 < length r.1.arena)
        × Extends st r.1
  lookup-IsValid m base w h =
      let (d, at) = get_elem?-of_lt st.arena base h in
      elim (Option-cases (d.pos w)) [
        | inl cold ↦
            let (comps, e, f, q) = lookup_miss m base w d at cold in
            let r = find_or_create hash true base w comps st in
            (r, f, q.0, components-lt r.1 r.0 comps q.1, q.2)
        | inr (t, warm) ↦ (
          (t, st),
          lookup_hit m base w t d at warm,
          v,
          All-get_elem? (CachesBelow (length st.arena)) st.arena base d v.caches at w t warm,
          λ i c e. e,
        )
      ]
