-- ===== src/Ecs/Archetype/Tests.antt =====
-- A store in which archetypes were made by extension, and the theorems at it.
use heat_gun.Base.{
  get_elem?, zero, suc, false, ℕ, ◌<◌, ◌≡◌, refl, List, [], ◌∷◌, Option, some, none, arith, length,
  contains, IsSorted,
}
use heat_gun.Iter.Merge.{merge_all}
use heat_gun.Ecs.Archetype.{
  ArchetypeData, ArchetypeStore, put_cache, extending, new, lookup, lookup_extend, lookup_remove,
  components, archetypes_with_set, mode_comps, fresh_data, create, find_or_create,
}
use heat_gun.Ecs.Archetype.View.{IsValid, new-IsValid}
use heat_gun.Ecs.Archetype.Lookup.{Extends, lookup-IsValid}
use heat_gun.Ecs.Archetype.Shortcuts.{HasShortcuts, lookup-HasShortcuts}
use heat_gun.Ecs.Archetype.Removal.{lookup_remove_self}
use heat_gun.Ecs.Archetype.Query.{has_all, archetypes_with_set_lem}

-- Any hash will do; here the length.
abbrev by_length : List ℕ → ℕ
by_length = length

abbrev after : ArchetypeStore → Option (ℕ × ArchetypeStore) → ArchetypeStore
after st none = st
after st (some r) = r.1

abbrev start : ArchetypeStore
start = new by_length

-- Extends the empty archetype by 5, and the result by 2 and by 7.
abbrev with_5 : ArchetypeStore
with_5 = after start (lookup by_length extending 0 5 start)

abbrev with_25 : ArchetypeStore
with_25 = after with_5 (lookup by_length extending 1 2 with_5)

abbrev with_57 : ArchetypeStore
with_57 = after with_25 (lookup by_length extending 1 7 with_25)

extends_run :
    (components with_57 0 ≡ some [])
    × (components with_57 1 ≡ some (5 ∷ []))
    × (components with_57 2 ≡ some (2 ∷ 5 ∷ []))
    × (components with_57 3 ≡ some (5 ∷ 7 ∷ []))
unfolding components lookup new merge_all mode_comps find_or_create create
extends_run = (refl, refl, refl, refl)

query_run : archetypes_with_set with_57 (5 ∷ 7 ∷ []) ≡ 3 ∷ []
unfolding archetypes_with_set lookup new merge_all mode_comps find_or_create create
query_run = refl

after-IsValid :
    (st : ArchetypeStore) (base w : ℕ)
    → IsValid by_length st
    → base < length st.arena
    → IsValid by_length (after st (lookup by_length extending base w st))
after-IsValid st base w v h =
    let (r, e, valid, lt, ext) = lookup-IsValid by_length st v extending base w h in rw e valid

with_5-IsValid : IsValid by_length with_5
unfolding new
with_5-IsValid = after-IsValid start 0 5 (new-IsValid by_length) (omega arith)

lookup-IsValid_example :
    (r : ℕ × ArchetypeStore) × (lookup by_length extending 1 2 with_5 ≡ some r)
    × IsValid by_length r.1
    × (r.0 < length r.1.arena)
    × Extends with_5 r.1
unfolding lookup new merge_all mode_comps find_or_create create
lookup-IsValid_example = lookup-IsValid by_length with_5 with_5-IsValid extending 1 2 (omega arith)

with_25-IsValid : IsValid by_length with_25
unfolding lookup new merge_all mode_comps find_or_create create
with_25-IsValid = after-IsValid with_5 1 2 with_5-IsValid (omega arith)

start-HasShortcuts : HasShortcuts start
unfolding new
start-HasShortcuts = record { right = λ i k t d row e at p. cold i k t d e p }
  where
    cold :
        (i k t : ℕ) (d : ArchetypeData) {C : Type 0}
        → get_elem? start.arena i ≡ some d
        → d.pos k ≡ some t
        → C
    cold zero k t d e p = ground arith
    cold (suc i) k t d e p = absurd (cc)

lookup-HasShortcuts_example :
    (comps : List ℕ) × (mode_comps extending [] 5 ≡ some comps)
    × (r : ℕ × ArchetypeStore) × (lookup by_length extending 0 5 start ≡ some r)
    × (components r.1 r.0 ≡ some comps)
    × HasShortcuts r.1
unfolding components new
lookup-HasShortcuts_example =
    lookup-HasShortcuts by_length start 0 5 [] (new-IsValid by_length) start-HasShortcuts refl

-- Archetype 2 is {2, 5}; the component 5 is not taken out of it.
lookup_remove_self_example :
    (st' : ArchetypeStore) × (lookup_remove by_length 2 5 with_25 ≡ some (2, st'))
    × (lookup_extend by_length 2 5 st' ≡ some (2, st'))
    × (components st' 2 ≡ some (2 ∷ 5 ∷ []))
unfolding lookup new merge_all mode_comps find_or_create create
lookup_remove_self_example =
    lookup_remove_self by_length with_25 with_25-IsValid 2 5 2 (5 ∷ [])
      (put_cache false 2 1 (fresh_data (record { start = 1; end = 3 }) (2 ∷ 5 ∷ []))) refl refl
      (λ e. absurd (omega arith)) refl

archetypes_with_set_example :
    IsSorted (archetypes_with_set with_25 (5 ∷ 2 ∷ []))
    × ((a : ℕ)
        → contains a (archetypes_with_set with_25 (5 ∷ 2 ∷ []))
          ≡ has_all (5 ∷ 2 ∷ []) (components with_25 a))
    × (archetypes_with_set with_25 [] ≡ [])
archetypes_with_set_example = archetypes_with_set_lem by_length with_25 with_25-IsValid 5 (2 ∷ [])
