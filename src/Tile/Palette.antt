-- ===== src/Tile/Palette.antt =====
-- src/engine/hg-engine-common/src/tile/palette.rs: the kinds of tiles, and the cache of a component
-- of their descriptors. Entities, names and handles are numbers; `none` is a panic.
pub mod Register
pub mod Cache
mod Tests
use heat_gun.Base.{
  ℕ, suc, ◌+◌, ◌-◌, ◌^◌, List, [], ◌∷◌, ◌++◌, Option, none, some, Map, insert, nat_key, empty_map,
  length, get_elem?, set, replicate, ltb, if◌then◌else◌, ◌>>=◌,
}

pub record TilePalette : Type 0 where
  pub list : List ℕ
  pub by_name : Map ℕ ℕ

-- The number of values of the `u16` in a `TileId`.
abbrev pub id_end : ℕ
id_end = 2 ^ 16

-- `TileId::from_usize`.
unfoldable pub from_usize : ℕ → Option ℕ
from_usize v = if ltb v id_end then some v else none

unfoldable pub default_palette : TilePalette
default_palette = record { list = []; by_name = empty_map }

unfoldable pub register : ℕ → ℕ → TilePalette → Option (ℕ × TilePalette)
unfolding from_usize
register name descriptor p = do
  id ← from_usize (length p.list)
  some (id, record { list = p.list ++ descriptor ∷ []; by_name = insert name id p.by_name })

unfoldable pub lookup : ℕ → TilePalette → Option ℕ
lookup id p = get_elem? p.list id

unfoldable pub lookup_by_name : ℕ → TilePalette → Option ℕ
lookup_by_name name p = p.by_name name

-- `DensePaletteCache`: the slots; the palette stands beside it.
abbrev pub Slots : Type 0
Slots = List (Option ℕ)

-- `resize`, where the list is too short.
unfoldable pub grow : ℕ → Slots → Slots
grow id slots =
    if ltb id (length slots) then slots else slots ++ replicate (id + 1 - length slots) none

-- The slot, filled from the palette where it is empty. `get` is `Entity::get::<V>`.
unfoldable pub fill : Map ℕ ℕ → TilePalette → ℕ → Slots → Option ℕ → Option (ℕ × Slots)
unfolding lookup
fill component p id slots (some item) = some (item, slots)
fill component p id slots none = do
  descriptor ← lookup id p
  resolved ← component descriptor
  some (resolved, set slots id (some resolved))

-- `DensePaletteCache::lookup`.
unfoldable pub cache_lookup : Map ℕ ℕ → TilePalette → ℕ → Slots → Option (ℕ × Slots)
unfolding grow fill
cache_lookup component p id slots = do
  let grown = grow id slots
  slot ← get_elem? grown id
  fill component p id grown slot
