-- ===== src/Ecs/Archetype/View.antt =====
-- The store seen as the list of its component sets, and the invariant that ties the hash table,
-- the component buffer and the index by component to that list.
use heat_gun.Base.{
  ℕ, zero, suc, ◌-◌, ◌≤◌, ◌<◌, ◌≡◌, refl, ap, Bool, true, false, List, [], ◌∷◌, ◌++◌, Option, none,
  some, arith, length, get_elem?, drop, if◌then◌else◌, list_eq, drop-length_append,
  drop-append_left, take-append_left, take-all, length-append, length-drop, All, IsSorted, contains,
}
use heat_gun.Ecs.Archetype.{
  Range, ArchetypeData, ArchetypeStore, slice, update_at, put_cache, find_entry, archetypes_with,
  new,
}

-- The component list of each archetype.
abbrev pub rows : List ℕ → List ArchetypeData → List (List ℕ)
rows buf [] = []
rows buf (d ∷ ds) = slice buf d.comps ∷ rows buf ds

abbrev pub view : ArchetypeStore → List (List ℕ)
view st = rows st.comp_buf st.arena

-- The position of a component list, from `n` on.
abbrev pub index_of : ℕ → List ℕ → List (List ℕ) → Option ℕ
index_of n c [] = none
index_of n c (r ∷ rs) = if list_eq r c then some n else index_of (suc n) c rs

-- The positions of the lists that hold a component, from `n` on.
abbrev pub ids_with : ℕ → ℕ → List (List ℕ) → List ℕ
ids_with n c [] = []
ids_with n c (r ∷ rs) = if contains c r then n ∷ ids_with (suc n) c rs else ids_with (suc n) c rs

abbrev pub Inside : ℕ → Range → Type 0
Inside n r = (r.start ≤ r.end) × (r.end ≤ n)

abbrev pub CachesBelow : ℕ → ArchetypeData → Type 0
CachesBelow n d = (w t : ℕ) → d.pos w ≡ some t → t < n

new-distinct :
    (i : ℕ) (c : List ℕ) → get_elem? ([] ∷ []) i ≡ some c → index_of 0 c ([] ∷ []) ≡ some i
new-distinct zero [] e = refl
new-distinct zero (x ∷ c) e = cc
new-distinct (suc i) c e = cc

new-found :
    (hash : List ℕ → ℕ) (c : List ℕ)
    → find_entry (hash c) c [] (new hash).map ≡ index_of 0 c ([] ∷ [])
unfolding new find_entry
new-found hash [] = ground arith
new-found hash (x ∷ c) = ground arith

module _ (hash : List ℕ → ℕ) where
  pub record IsValid (st : ArchetypeStore) : Type 0 where
    pub data_inside : All (λ d. Inside (length st.comp_buf) d.comps) st.arena
    pub keys_inside : All (λ e. Inside (length st.comp_buf) e.0.comps) st.map
    pub sets : All (λ d. d.comp_map ≡ slice st.comp_buf d.comps) st.arena
    pub sorted : All IsSorted (view st)
    pub found : (c : List ℕ) → find_entry (hash c) c st.comp_buf st.map ≡ index_of 0 c (view st)
    pub distinct :
        (i : ℕ) (c : List ℕ) → get_elem? (view st) i ≡ some c → index_of 0 c (view st) ≡ some i
    pub caches : All (CachesBelow (length st.arena)) st.arena
    pub indexed : (c : ℕ) → archetypes_with st c ≡ ids_with 0 c (view st)

  pub new-IsValid : IsValid (new hash)
  unfolding new find_entry archetypes_with
  new-IsValid = record {
    data_inside = ((omega arith, omega arith), tt);
    keys_inside = ((omega arith, omega arith), tt);
    sets = (refl, tt);
    sorted = (tt, tt);
    found = new-found hash;
    distinct = new-distinct;
    caches = ((λ w t e. cc), tt);
    indexed = λ c. refl;
  }

-- Reading a range that lies inside is not changed by what is appended.
pub slice-append :
    (buf ys : List ℕ) (r : Range) → Inside (length buf) r → slice (buf ++ ys) r ≡ slice buf r
slice-append buf ys r h = rw (drop-append_left r.start buf ys (omega arith)) (
    take-append_left (r.end - r.start) (drop r.start buf) ys
      (omega (arith, length-drop r.start buf)))

pub slice-end :
    (buf ys : List ℕ)
    → slice (buf ++ ys) (record { start = length buf; end = length (buf ++ ys) }) ≡ ys
slice-end buf ys =
    rw (drop-length_append buf ys)
      (take-all (length (buf ++ ys) - length buf) ys (omega (arith, length-append buf ys)))

pub rows-append :
    (buf : List ℕ) (ds es : List ArchetypeData) → rows buf (ds ++ es) ≡ rows buf ds ++ rows buf es
rows-append buf [] es = refl
rows-append buf (d ∷ ds) es = ap (λ t. slice buf d.comps ∷ t) (rows-append buf ds es)

pub rows-buffer :
    (buf ys : List ℕ) (ds : List ArchetypeData)
    → All (λ d. Inside (length buf) d.comps) ds
    → rows (buf ++ ys) ds ≡ rows buf ds
rows-buffer buf ys [] a = refl
rows-buffer buf ys (d ∷ ds) a = rw (slice-append buf ys d.comps a.0, rows-buffer buf ys ds a.1)

pub comps-put_cache : (p : Bool) (w t : ℕ) (d : ArchetypeData) → (put_cache p w t d).comps ≡ d.comps
comps-put_cache true w t d = refl
comps-put_cache false w t d = refl

pub rows-update_at :
    (buf : List ℕ) (i w t : ℕ) (p : Bool) (ds : List ArchetypeData)
    → rows buf (update_at i (put_cache p w t) ds) ≡ rows buf ds
rows-update_at buf i w t p [] = refl
rows-update_at buf zero w t p (d ∷ ds) = rw (comps-put_cache p w t d)
rows-update_at buf (suc i) w t p (d ∷ ds) =
    ap (λ r. slice buf d.comps ∷ r) (rows-update_at buf i w t p ds)

pub length-update_at :
    (i : ℕ) (f : ArchetypeData → ArchetypeData) (ds : List ArchetypeData)
    → length (update_at i f ds) ≡ length ds
length-update_at i f [] = refl
length-update_at zero f (d ∷ ds) = refl
length-update_at (suc i) f (d ∷ ds) = ap suc (length-update_at i f ds)

pub length-rows : (buf : List ℕ) (ds : List ArchetypeData) → length (rows buf ds) ≡ length ds
length-rows buf [] = refl
length-rows buf (d ∷ ds) = ap suc (length-rows buf ds)

pub get_elem?-rows :
    (buf : List ℕ) (ds : List ArchetypeData) (i : ℕ) (d : ArchetypeData)
    → get_elem? ds i ≡ some d
    → get_elem? (rows buf ds) i ≡ some (slice buf d.comps)
get_elem?-rows buf [] i d e = cc
get_elem?-rows buf (x ∷ ds) zero d e = ground arith
get_elem?-rows buf (x ∷ ds) (suc i) d e = get_elem?-rows buf ds i d e

pub All-update_at {κ} :
    (P : ArchetypeData → Type κ) (i : ℕ) (f : ArchetypeData → ArchetypeData)
    (ds : List ArchetypeData)
    → ((d : ArchetypeData) → P d → P (f d))
    → All P ds
    → All P (update_at i f ds)
All-update_at P i f [] k a = tt
All-update_at P zero f (d ∷ ds) k a = (k d a.0, a.1)
All-update_at P (suc i) f (d ∷ ds) k a = (a.0, All-update_at P i f ds k a.1)
