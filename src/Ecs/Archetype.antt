-- ===== src/Ecs/Archetype.antt =====
-- src/engine/hg-ecs/src/archetype.rs: the store of component sets (archetypes). A `ComponentId` is
-- a number under the order of its `TypeId`; the hash of a list of components is a parameter, the
-- function of the third-party hasher. A raw hash table is the list of its entries, searched with
-- the test that the code passes to `from_hash`.
pub mod View
pub mod Table
pub mod Lookup
pub mod Shortcuts
pub mod Removal
pub mod Query
mod Tests
use heat_gun.Base.{
  ℕ, zero, suc, ◌+◌, ◌-◌, ◌≡◌, refl, Bool, true, false, not, ◌&&◌, List, [], ◌∷◌, ◌++◌, Option,
  none, some, length, get_elem?, set, take, drop, ◌==◌, if◌then◌else◌, Map, empty_map, insert,
  nat_key, map as map_list, list_eq, ltb, compare, Ordering,
}
use heat_gun.Iter.Merge.{merge_all, remove_all}

pub record Range : Type 0 where
  pub start : ℕ
  pub end : ℕ

-- `&buf[range]`, for a range inside the buffer.
abbrev pub slice : List ℕ → Range → List ℕ
slice buf r = take (r.end - r.start) (drop r.start buf)

pub record ArchetypeKey : Type 0 where
  pub hash : ℕ
  pub comps : Range

pub record ArchetypeData : Type 0 where
  pub comps : Range
  pub comp_map : List ℕ
  pub pos : Map ℕ ℕ
  pub neg : Map ℕ ℕ

pub record ArchetypeStore : Type 0 where
  pub arena : List ArchetypeData
  pub comp_buf : List ℕ
  pub map : List (ArchetypeKey × ℕ)
  pub comp_arches : Map ℕ (List ℕ)

-- `ArchetypeId::EMPTY`.
abbrev pub empty_id : ℕ
empty_id = 0

-- The two implementations of `LookupMode`.
pub data LookupMode : Type 0 where
  extending removing : LookupMode

-- Both implementations say `const POLARITY: bool = true`.
unfoldable pub polarity : LookupMode → Bool
polarity extending = true
polarity removing = true

unfoldable pub mode_comps : LookupMode → List ℕ → ℕ → Option (List ℕ)
mode_comps extending base with_comp = merge_all base (with_comp ∷ [])
mode_comps removing base with_comp = remove_all base (with_comp ∷ [])

-- `ternary(p, &data.pos, &data.neg)`, read and written at one key.
abbrev pub cache : Bool → ArchetypeData → Map ℕ ℕ
cache p d = if p then d.pos else d.neg

abbrev pub put_cache : Bool → ℕ → ℕ → ArchetypeData → ArchetypeData
put_cache true k t d = record d { pos = insert k t d.pos }
put_cache false k t d = record d { neg = insert k t d.neg }

-- `self.arena[i] = f(self.arena[i])`.
abbrev pub update_at : ℕ → (ArchetypeData → ArchetypeData) → List ArchetypeData → List ArchetypeData
update_at i f [] = []
update_at zero f (d ∷ ds) = f d ∷ ds
update_at (suc i) f (d ∷ ds) = d ∷ update_at i f ds

-- The search of `raw_entry_mut().from_hash(hash, …)`.
unfoldable pub find_entry : ℕ → List ℕ → List ℕ → List (ArchetypeKey × ℕ) → Option ℕ
find_entry h comps buf [] = none
find_entry h comps buf ((k, id) ∷ es) =
    if h == k.hash && list_eq (slice buf k.comps) comps then some id else find_entry h comps buf es

-- `comp_arches.entry(comp).or_default().push(new)`, for each component.
abbrev pub arches_or_default : Option (List ℕ) → List ℕ
arches_or_default none = []
arches_or_default (some ids) = ids

unfoldable pub push_arches : List ℕ → ℕ → Map ℕ (List ℕ) → Map ℕ (List ℕ)
push_arches [] new m = m
push_arches (c ∷ cs) new m = push_arches cs new (insert c (arches_or_default (m c) ++ new ∷ []) m)

abbrev pub fresh_data : Range → List ℕ → ArchetypeData
fresh_data r comps = record { comps = r; comp_map = comps; pos = empty_map; neg = empty_map }

-- `archetypes_with`.
unfoldable pub archetypes_with : ArchetypeStore → ℕ → List ℕ
archetypes_with st c = arches_or_default (st.comp_arches c)

-- `components`; out of range is the panic of the index.
unfoldable pub components : ArchetypeStore → ℕ → Option (List ℕ)
components st id = elim (get_elem? st.arena id) [
  | none ↦ none
  | some d ↦ some (slice st.comp_buf d.comps)
]

-- `components_set`.
unfoldable pub components_set : ArchetypeStore → ℕ → Option (List ℕ)
components_set st id = elim (get_elem? st.arena id) [ none ↦ none | some d ↦ some d.comp_map ]

-- The inner loop of `archetypes_with_set` on one peekable iterator: it skips what is below the key.
pub data CatchUp : Type 0 where
  found missed : List ℕ → CatchUp
  ended : CatchUp

unfoldable pub catch_up : ℕ → List ℕ → CatchUp
catch_up key [] = ended
catch_up key (other ∷ rest) = elim (compare other key) [
  | Ordering.lt ↦ catch_up key rest
  | Ordering.eq ↦ found (other ∷ rest)
  | Ordering.gt ↦ missed (other ∷ rest)
]

-- The `for` loop over the other iterators, with the two labelled jumps.
pub data Scan : Type 0 where
  all_have lacks : List (List ℕ) → Scan
  exhausted : Scan

abbrev with_iter : List ℕ → Scan → Scan
with_iter it (all_have its) = all_have (it ∷ its)
with_iter it (lacks its) = lacks (it ∷ its)
with_iter it exhausted = exhausted

unfoldable pub scan : ℕ → List (List ℕ) → Scan
unfolding catch_up
scan key [] = all_have []
scan key (it ∷ its) = elim (catch_up key it) [
  | found it' ↦ with_iter it' (scan key its)
  | missed it' ↦ lacks (it' ∷ its)
  | ended ↦ exhausted
]

-- The loop `'build`.
unfoldable pub build : List ℕ → List (List ℕ) → List ℕ
unfolding scan
build [] others = []
build (key ∷ keys) others = elim (scan key others) [
  | all_have others' ↦ key ∷ build keys others'
  | lacks others' ↦ build keys others'
  | exhausted ↦ []
]

-- `iters.sort_by(|a, b| a.len().cmp(&b.len()))`, which is stable.
unfoldable pub insert_by_len : List ℕ → List (List ℕ) → List (List ℕ)
insert_by_len x [] = x ∷ []
insert_by_len x (y ∷ ys) = if ltb (length y) (length x) then y ∷ insert_by_len x ys else x ∷ y ∷ ys

unfoldable pub sort_by_len : List (List ℕ) → List (List ℕ)
unfolding insert_by_len
sort_by_len [] = []
sort_by_len (x ∷ xs) = insert_by_len x (sort_by_len xs)

-- `iters[0]` and `iters[1..]`.
unfoldable pub build_all : List (List ℕ) → List ℕ
unfolding build
build_all [] = []
build_all (first ∷ others) = build first others

unfoldable pub archetypes_with_set : ArchetypeStore → List ℕ → List ℕ
unfolding build_all sort_by_len archetypes_with
archetypes_with_set st ids = build_all (sort_by_len (map_list (archetypes_with st) ids))

module _ (hash : List ℕ → ℕ) where
  -- `ArchetypeStore::new`: the empty archetype alone.
  unfoldable pub new : ArchetypeStore
  new = record {
    arena = fresh_data (record { start = 0; end = 0 }) [] ∷ [];
    comp_buf = [];
    map = (record { hash = hash []; comps = record { start = 0; end = 0 } }, empty_id) ∷ [];
    comp_arches = empty_map;
  }

  -- The end of `lookup`, where the archetype is new.
  unfoldable pub create : Bool → ℕ → ℕ → List ℕ → ArchetypeStore → ℕ × ArchetypeStore
  unfolding push_arches
  create p base with_comp comps st =
      let range : Range = record {
        start = length st.comp_buf;
        end = length (st.comp_buf ++ comps);
      } in
      let new_data = put_cache (not p) with_comp base (fresh_data range comps) in
      let id = length st.arena in
      (
        id,
        record {
          arena = update_at base (put_cache p with_comp id) (st.arena ++ new_data ∷ []);
          comp_buf = st.comp_buf ++ comps;
          map = st.map ++ (record { hash = hash comps; comps = range }, id) ∷ [];
          comp_arches = push_arches comps id st.comp_arches;
        },
      )

  -- `lookup::<M>` after the cache missed and the components are known.
  unfoldable pub find_or_create : Bool → ℕ → ℕ → List ℕ → ArchetypeStore → ℕ × ArchetypeStore
  unfolding find_entry
  find_or_create p base with_comp comps st =
      elim (find_entry (hash comps) comps st.comp_buf st.map) [
        | some target ↦
            (target, record st { arena = update_at base (put_cache p with_comp target) st.arena })
        | none ↦ create p base with_comp comps st
      ]

  -- `lookup::<M>`. `none` is the panic on a base that is out of range.
  unfoldable pub lookup : LookupMode → ℕ → ℕ → ArchetypeStore → Option (ℕ × ArchetypeStore)
  unfolding polarity
  lookup m base with_comp st = elim (get_elem? st.arena base) [
    | none ↦ none
    | some d ↦ elim (cache (polarity m) d with_comp) [
      | some shortcut ↦ some (shortcut, st)
      | none ↦ elim (mode_comps m (slice st.comp_buf d.comps) with_comp) [
        | none ↦ none
        | some comps ↦ some (find_or_create (polarity m) base with_comp comps st)
      ]
    ]
  ]

  unfoldable pub lookup_extend : ℕ → ℕ → ArchetypeStore → Option (ℕ × ArchetypeStore)
  unfolding lookup
  lookup_extend base with_comp st = lookup extending base with_comp st

  unfoldable pub lookup_remove : ℕ → ℕ → ArchetypeStore → Option (ℕ × ArchetypeStore)
  unfolding lookup
  lookup_remove base without st = lookup removing base without st
