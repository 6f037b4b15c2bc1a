-- ===== src/Tile/Map/Tests.antt =====
-- A map with one tile, read and written in another chunk.
use heat_gun.Base.{ℕ, ◌≡◌, some, if◌then◌else◌}
use heat_gun.Tile.Map.{pos, negsuc, IVec2, vec_eq, TileMap, default_map, get, put}
use heat_gun.Tile.Map.View.{IsValid, tile_at}
use heat_gun.Tile.Map.Access.{default_map-IsValid, get-IsValid, put-IsValid}

-- (-1, 20).
abbrev place : IVec2
place = record { x = negsuc 0; y = pos 20 }

get-IsValid_example :
    (t : ℕ) × (m' : TileMap) × (get place default_map ≡ some (t, m'))
    × (tile_at default_map place ≡ some t)
    × IsValid m'
    × ((q : IVec2) → tile_at m' q ≡ tile_at default_map q)
get-IsValid_example = get-IsValid default_map place default_map-IsValid

put-IsValid_example :
    (m' : TileMap) × (put place 3 default_map ≡ some m')
    × IsValid m'
    × ((q : IVec2) → tile_at m' q ≡ (if vec_eq place q then some 3 else tile_at default_map q))
put-IsValid_example = put-IsValid default_map place default_map-IsValid 3
