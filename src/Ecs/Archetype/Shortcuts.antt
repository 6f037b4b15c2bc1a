-- ===== src/Ecs/Archetype/Shortcuts.antt =====
-- The cached transitions between archetypes. Both lookup modes keep them in the same map, so they
-- agree with the mode only as long as every caller extends by a component that is absent and
-- removes one that is present.
use mathlib.Core.Option.{some-injective}
use heat_gun.Base.{
  subst, ℕ, zero, suc, ◌≡◌, refl, sym, ap, ◌∙◌, true, List, [], ◌∷◌, ◌++◌, some, arith, length,
  get_elem?, contains, ==_iff, ◌==◌, Bool-cases, Option-cases, inl, inr, ◌⊎◌, if◌then◌else◌,
  get_elem?-append_left, get_elem?-length_append, get_elem?-of_lt, ◌≢◌, get_elem?-lt, compare_cases,
  length-append, insert, nat_key,
}
use heat_gun.Ecs.Archetype.{
  ArchetypeData, ArchetypeStore, update_at, put_cache, LookupMode, extending, removing, mode_comps,
  components, lookup, find_or_create, create, find_entry, slice,
}
use heat_gun.Ecs.Archetype.View.{IsValid}
use heat_gun.Ecs.Archetype.Lookup.{Extends, components-data, components-lt, lookup_miss, lookup_hit}

-- The mode in which a caller may use a component at an archetype.
abbrev pub mode_of : List ℕ → ℕ → LookupMode
mode_of row w = if contains w row then removing else extending

pub record HasShortcuts (st : ArchetypeStore) : Type 0 where
  pub right :
      (i k t : ℕ) (d : ArchetypeData) (row : List ℕ)
      → get_elem? st.arena i ≡ some d
      → components st i ≡ some row
      → d.pos k ≡ some t
      → (c : List ℕ) × (mode_comps (mode_of row k) row k ≡ some c) × (components st t ≡ some c)

-- A cached transition is an old one or the one just written.
abbrev Written : List ArchetypeData → ℕ → ℕ → ℕ → ℕ → ℕ → ℕ → Type 0
Written ds base w id i k t =
    ((d : ArchetypeData) × (get_elem? ds i ≡ some d) × (d.pos k ≡ some t))
    ⊎ ((i ≡ base) × (k ≡ w) × (t ≡ id))

pos-update_at :
    (ds : List ArchetypeData) (base w id i k t : ℕ) (d : ArchetypeData)
    → get_elem? (update_at base (put_cache true w id) ds) i ≡ some d
    → d.pos k ≡ some t
    → Written ds base w id i k t
pos-update_at [] base w id i k t d e p = inl (d, e, p)
pos-update_at (x ∷ ds) zero w id zero k t d e p =
    pos-insert x w id k t
      (subst (λ (y : ArchetypeData). y.pos k ≡ some t) (sym (some-injective _ d e)) p)
  where
    pos-insert :
        (x : ArchetypeData) (w id k t : ℕ)
        → insert w id x.pos k ≡ some t
        → Written (x ∷ ds) 0 w id 0 k t
    pos-insert x w id k t p = elim (Bool-cases (w == k)) [
      | inl h ↦ inr (refl, sym ((==_iff w k).0 h), sym (some-injective _ _ (rw h at p)))
      | inr h ↦ inl (x, refl, rw h at p)
    ]
pos-update_at (x ∷ ds) zero w id (suc i) k t d e p = inl (d, e, p)
pos-update_at (x ∷ ds) (suc base) w id zero k t d e p = inl (d, e, p)
pos-update_at (x ∷ ds) (suc base) w id (suc i) k t d e p =
    elim (pos-update_at ds base w id i k t d e p) [
      | inl old ↦ inl old
      | inr (a, b, c) ↦ inr (ap suc a, b, c)
    ]

module _ (st st' : ArchetypeStore) (base w id : ℕ) (row comps : List ℕ)
    (at_base : components st base ≡ some row)
    (computed : mode_comps (mode_of row w) row w ≡ some comps)
    (stored : components st' id ≡ some comps) (ext : Extends st st') (good : HasShortcuts st)
    (written : (i k t : ℕ) (d : ArchetypeData)
      → get_elem? st'.arena i ≡ some d
      → d.pos k ≡ some t
      → Written st.arena base w id i k t) where
  kept :
      (i k t : ℕ) (r : List ℕ)
      → components st' i ≡ some r
      → (d : ArchetypeData) × (get_elem? st.arena i ≡ some d) × (d.pos k ≡ some t)
      → (c : List ℕ) × (mode_comps (mode_of r k) r k ≡ some c) × (components st' t ≡ some c)
  kept i k t r at (d, e, p) =
      let old : components st i ≡ some (slice st.comp_buf d.comps) = components-data st i d e in
      let same : slice st.comp_buf d.comps ≡ r = some-injective _ _ (sym (ext i _ old) ∙ at) in
      let (c, f, g) = good.right i k t d r e (rw same at old) p in (c, f, ext t c g)

  HasShortcuts-step : HasShortcuts st'
  HasShortcuts-step = record {
    right = λ i k t d r e at p. elim (written i k t d e p) [
      | inl old ↦ kept i k t r at old
      | inr (a, b, c) ↦
          let same : row ≡ r = some-injective _ _ (sym (ext base row at_base) ∙ rw a at at) in
          (comps, rw (b, ← same) computed, rw c stored)
    ];
  }

Written-append :
    (ds : List ArchetypeData) (nd : ArchetypeData) (base w id i k t : ℕ)
    → ((j u : ℕ) → nd.pos j ≢ some u)
    → Written (ds ++ nd ∷ []) base w id i k t
    → Written ds base w id i k t
Written-append ds nd base w id i k t cold (inr new) = inr new
Written-append ds nd base w id i k t cold (inl (d, e, p)) = elim (compare_cases i (length ds)) [
  | inl lt ↦ inl (d, sym (get_elem?-append_left ds (nd ∷ []) i lt) ∙ e, p)
  | inr (inl eq) ↦ absurd (
      cold k t (
        subst (λ (y : ArchetypeData). y.pos k ≡ some t)
          (sym (some-injective nd d (sym (get_elem?-length_append ds (nd ∷ [])) ∙ rw eq at e))) p))
  | inr (inr gt) ↦
      absurd (omega (arith, get_elem?-lt (ds ++ nd ∷ []) i e, length-append ds (nd ∷ [])))
]

module _ (hash : List ℕ → ℕ) (st : ArchetypeStore) where
  find_or_create-Written :
      (base w i k t : ℕ) (comps : List ℕ) (d : ArchetypeData)
      → get_elem? (find_or_create hash true base w comps st).1.arena i ≡ some d
      → d.pos k ≡ some t
      → Written st.arena base w (find_or_create hash true base w comps st).0 i k t
  unfolding find_or_create create
  find_or_create-Written base w i k t comps d =
      elim (Option-cases (find_entry (hash comps) comps st.comp_buf st.map)) [
        | inl miss ↦
            rw (miss, find_or_create)
              λ e p.
                Written-append st.arena _ base w (length st.arena) i k t (λ j u. cc)
                  (pos-update_at _ base w (length st.arena) i k t d e p)
        | inr (target, hit) ↦
            rw (hit, find_or_create) λ e p. pos-update_at st.arena base w target i k t d e p
      ]

  -- In a valid store with right caches, that is, each cached transition leads to the components that
  -- extending by a component that the archetype lacks, or removing one that it has, computes: where a
  -- caller extends an archetype of the store by a component that it lacks, or removes one that it
  -- has, the lookup succeeds with an archetype that has exactly the components that the mode
  -- computes, cached or not; and the caches stay right.
  pub lookup-HasShortcuts :
      (base w : ℕ) (row : List ℕ)
      → IsValid hash st
      → HasShortcuts st
      → components st base ≡ some row
      → (comps : List ℕ) × (mode_comps (mode_of row w) row w ≡ some comps)
        × (r : ℕ × ArchetypeStore) × (lookup hash (mode_of row w) base w st ≡ some r)
        × (components r.1 r.0 ≡ some comps)
        × HasShortcuts r.1
  lookup-HasShortcuts base w row v good at =
      let (d, e) = get_elem?-of_lt st.arena base (components-lt st base row at) in
      let same : slice st.comp_buf d.comps ≡ row =
        some-injective _ _ (sym (components-data st base d e) ∙ at) in
      elim (Option-cases (d.pos w)) [
        | inl cold ↦
            let (comps, c, f, q) = lookup_miss hash st v (mode_of row w) base w d e cold in
            let r = find_or_create hash true base w comps st in
            (
              comps,
              rw same at c,
              r,
              f,
              q.1,
              HasShortcuts-step st r.1 base w r.0 row comps at (rw same at c) q.1 q.2 good
                  (λ i k t x. find_or_create-Written base w i k t comps x),
            )
        | inr (t, warm) ↦
            let (c, f, g) = good.right base w t d row e at warm in
            (c, f, (t, st), lookup_hit hash st v (mode_of row w) base w t d e warm, g, good)
      ]
