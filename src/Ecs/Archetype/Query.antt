-- ===== src/Ecs/Archetype/Query.antt =====
-- `archetypes_with_set`: the archetypes that hold every component of a set, by a merge of the
-- ascending lists of the index.
mod Merge
use native.Mathlib.Nat.{zero-add, add-zero}
use Merge.{in_all, build_lem, All-sort_by_len, in_all-sort}
use heat_gun.Base.{
  ltb, &&-comm, retain-sorted, Bool-cases, inl, inr, contains-below, gt→ne, lt→ne, ℕ, zero, suc,
  ◌+◌, ◌<◌, ◌≡◌, refl, sym, ap, ◌∙◌, Bool, true, false, ◌&&◌, List, [], ◌∷◌, Option, none, some,
  arith, length, get_elem?, contains, contains-retain, map, All, IsSorted, SortedFrom,
  SortedFrom-mono, if◌then◌else◌, ◌==◌,
}
use heat_gun.Ecs.Archetype.{
  ArchetypeStore, archetypes_with, archetypes_with_set, build_all, components, sort_by_len,
  insert_by_len,
}
use heat_gun.Ecs.Archetype.View.{IsValid, view, ids_with}
use heat_gun.Ecs.Archetype.Lookup.{components-view}

abbrev pub has_all : List ℕ → Option (List ℕ) → Bool
has_all cs none = false
has_all [] (some row) = true
has_all (c ∷ cs) (some row) = contains c row && has_all cs (some row)

abbrev row_has : ℕ → Option (List ℕ) → Bool
row_has c none = false
row_has c (some row) = contains c row

ids_with-sorted : (n c : ℕ) (rs : List (List ℕ)) → SortedFrom n (ids_with n c rs)
ids_with-sorted n c [] = tt
ids_with-sorted n c (r ∷ rs) = elim (Bool-cases (contains c r)) [
  | inl h ↦ rw h (omega arith, ids_with-sorted (suc n) c rs)
  | inr h ↦ rw h (
      SortedFrom-mono n (suc n) (ids_with (suc n) c rs) (omega arith)
        (ids_with-sorted (suc n) c rs))
]

-- The index of a component, read at one archetype.
contains-ids_with :
    (n a c : ℕ) (rs : List (List ℕ))
    → contains (n + a) (ids_with n c rs) ≡ row_has c (get_elem? rs a)
contains-ids_with n a c [] = refl
contains-ids_with n zero c (r ∷ rs) = rw add-zero (
    ground (arith, contains-below (suc n) n (ids_with (suc n) c rs) (ids_with-sorted (suc n) c rs)))
contains-ids_with n (suc a) c (r ∷ rs) =
    let shift : n + suc a ≡ suc n + a = omega arith in
    rw shift (elim (Bool-cases (contains c r)) [
      | inl h ↦ rw (h, lt→ne n (suc n + a) (omega arith)) (contains-ids_with (suc n) a c rs)
      | inr h ↦ rw h (contains-ids_with (suc n) a c rs)
    ])

has_all-one : (c : ℕ) (o : Option (List ℕ)) → (row_has c o && true) ≡ has_all (c ∷ []) o
has_all-one c none = refl
has_all-one c (some row) = refl

has_all-cons :
    (c : ℕ) (cs : List ℕ) (o : Option (List ℕ)) → (row_has c o && has_all cs o) ≡ has_all (c ∷ cs) o
has_all-cons c cs none = refl
has_all-cons c cs (some row) = refl

sort_by_len-cons :
    (x : List ℕ) (xss : List (List ℕ))
    → (y : List ℕ) × (ys : List (List ℕ)) × (sort_by_len (x ∷ xss) ≡ y ∷ ys)
unfolding sort_by_len
sort_by_len-cons x xss = insert_by_len-cons x (sort_by_len xss)
  where
    insert_by_len-cons :
        (x : List ℕ) (xss : List (List ℕ))
        → (y : List ℕ) × (ys : List (List ℕ)) × (insert_by_len x xss ≡ y ∷ ys)
    insert_by_len-cons x [] = (x, [], refl)
    insert_by_len-cons x (z ∷ zs) = elim (Bool-cases (ltb (length z) (length x))) [
      | inl h ↦ (z, insert_by_len x zs, rw h)
      | inr h ↦ (x, z ∷ zs, rw h)
    ]

contains-build :
    (a : ℕ) (y : List ℕ) (ys : List (List ℕ))
    → All IsSorted (y ∷ ys)
    → contains a (build_all (y ∷ ys)) ≡ in_all a (y ∷ ys)
unfolding build_all
contains-build a y ys s =
    rw (build_lem 0 y ys s.0 s.1, contains-retain (λ b. in_all b ys) a y)
      (&&-comm (in_all a ys) (contains a y))

build-IsSorted :
    (y : List ℕ) (ys : List (List ℕ)) → All IsSorted (y ∷ ys) → IsSorted (build_all (y ∷ ys))
unfolding build_all
build-IsSorted y ys s = rw (build_lem 0 y ys s.0 s.1) (retain-sorted 0 (λ b. in_all b ys) y s.0)

module _ (hash : List ℕ → ℕ) (st : ArchetypeStore) (v : IsValid hash st) where
  contains-archetypes_with :
      (a c : ℕ) → contains a (archetypes_with st c) ≡ row_has c (components st a)
  contains-archetypes_with a c =
      rw (v.indexed c, components-view st a, ← zero-add a)
        (contains-ids_with 0 a c (view st) ∙ rw zero-add)

  in_all-archetypes_with :
      (a c : ℕ) (cs : List ℕ)
      → in_all a (map (archetypes_with st) (c ∷ cs)) ≡ has_all (c ∷ cs) (components st a)
  in_all-archetypes_with a c [] =
      rw (contains-archetypes_with a c) (has_all-one c (components st a))
  in_all-archetypes_with a c (d ∷ cs) =
      rw (contains-archetypes_with a c, in_all-archetypes_with a d cs)
        (has_all-cons c (d ∷ cs) (components st a))

  archetypes_with-IsSorted : (cs : List ℕ) → All IsSorted (map (archetypes_with st) cs)
  archetypes_with-IsSorted [] = tt
  archetypes_with-IsSorted (c ∷ cs) =
      (rw (v.indexed c) (ids_with-sorted 0 c (view st)), archetypes_with-IsSorted cs)

  -- For a non-empty set of components, `archetypes_with_set` yields, in ascending order, exactly
  -- the archetypes of the store whose components include the whole set; for the empty set it
  -- yields nothing.
  pub archetypes_with_set_lem :
      (c : ℕ) (cs : List ℕ)
      → IsSorted (archetypes_with_set st (c ∷ cs))
        × ((a : ℕ)
            → contains a (archetypes_with_set st (c ∷ cs)) ≡ has_all (c ∷ cs) (components st a))
        × (archetypes_with_set st [] ≡ [])
  unfolding archetypes_with_set
  archetypes_with_set_lem c cs =
      let xss = map (archetypes_with st) cs in
      let sorted = archetypes_with-IsSorted (c ∷ cs) in
      let all_sorted = All-sort_by_len (archetypes_with st c ∷ xss) sorted in
      let (y, ys, e) = sort_by_len-cons (archetypes_with st c) xss in
      (
        rw e (build-IsSorted y ys (rw e at all_sorted)),
        (λ a.
            ap (λ l. contains a (build_all l)) e
            ∙ contains-build a y ys (rw e at all_sorted)
            ∙ ap (in_all a) (sym e)
            ∙ in_all-sort a (archetypes_with st c ∷ xss)
            ∙ in_all-archetypes_with a c cs),
        refl,
      )
