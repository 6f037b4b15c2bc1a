-- ===== src/Tile/Palette/Tests.antt =====
-- A palette of one tile, and a cache that is empty.
use heat_gun.Base.{
  ℕ, ◌<◌, ◌≡◌, false, [], ◌∷◌, none, some, arith, Map, insert, empty_map, nat_key, ◌==◌,
}
use heat_gun.Tile.Palette.{TilePalette, register, lookup, lookup_by_name, Slots, cache_lookup}
use heat_gun.Tile.Palette.Register.{lookup-register}
use heat_gun.Tile.Palette.Cache.{resolve, IsFaithful, cache_lookup-IsFaithful}

abbrev one_tile : TilePalette
one_tile = record { list = 40 ∷ []; by_name = insert 7 0 empty_map }

lookup-register_example :
    (id : ℕ) × (p' : TilePalette) × (register 8 41 one_tile ≡ some (id, p'))
    × (lookup id p' ≡ some 41)
    × (lookup_by_name 8 p' ≡ some id)
    × ((i : ℕ) → i < 1 → lookup i p' ≡ lookup i one_tile)
    × ((s : ℕ) → (8 == s) ≡ false → lookup_by_name s p' ≡ lookup_by_name s one_tile)
lookup-register_example = lookup-register one_tile 8 41 (omega arith)

abbrev sprites : Map ℕ ℕ
sprites = insert 40 50 empty_map

empty-IsFaithful : IsFaithful sprites one_tile []
empty-IsFaithful = record { filled = λ i item e. absurd (cc) }

cache_lookup-IsFaithful_example :
    ((item : ℕ)
      → resolve sprites one_tile 0 ≡ some item
      → (slots' : Slots) × (cache_lookup sprites one_tile 0 [] ≡ some (item, slots'))
        × IsFaithful sprites one_tile slots')
    × (resolve sprites one_tile 0 ≡ none → cache_lookup sprites one_tile 0 [] ≡ none)
cache_lookup-IsFaithful_example = cache_lookup-IsFaithful sprites one_tile 0 [] empty-IsFaithful
