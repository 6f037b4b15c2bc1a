-- ===== src/Tile/Map.antt =====
-- src/engine/hg-engine-common/src/tile/map.rs: a map from positions to tiles, in chunks of 16 by 16,
-- of which one is kept at hand. `none` is the panic of an index out of range.
pub mod Position
pub mod View
pub mod Access
mod Tests
use heat_gun.Base.{
  ℕ, ◌+◌, ◌-◌, ◌*◌, ◌/◌, ◌%◌, ◌≡◌, ◌↔◌, refl, Bool, true, false, ◌&&◌, List, Option, none, some,
  arith, Key, Map, insert, remove, empty_map, get_elem?, set, replicate, ◌==◌, ==_iff,
  if◌then◌else◌, ◌>>=◌,
}

-- An `i32`, as `n` or as `- (n + 1)`.
pub data ℤ : Type 0 where
  pos negsuc : ℕ → ℤ

pub record IVec2 : Type 0 where
  pub x : ℤ
  pub y : ℤ

abbrev pub int_eq : ℤ → ℤ → Bool
int_eq (pos m) (pos n) = m == n
int_eq (pos m) (negsuc n) = false
int_eq (negsuc m) (pos n) = false
int_eq (negsuc m) (negsuc n) = m == n

abbrev pub vec_eq : IVec2 → IVec2 → Bool
vec_eq u v = int_eq u.x v.x && int_eq u.y v.y

-- `div_euclid` and `rem_euclid` by the edge of a chunk.
abbrev pub chunk_edge : ℕ
chunk_edge = 16

unfoldable pub div_euclid : ℤ → ℤ
div_euclid (pos n) = pos (n / chunk_edge)
div_euclid (negsuc n) = negsuc (n / chunk_edge)

unfoldable pub rem_euclid : ℤ → ℕ
rem_euclid (pos n) = n % chunk_edge
rem_euclid (negsuc n) = chunk_edge - 1 - n % chunk_edge

-- `decompose_pos`: the chunk, and the place in it.
unfoldable pub chunk_of : IVec2 → IVec2
unfolding div_euclid
chunk_of v = record { x = div_euclid v.x; y = div_euclid v.y }

unfoldable pub rel_of : IVec2 → ℕ
unfolding rem_euclid
rel_of v = rem_euclid v.y * chunk_edge + rem_euclid v.x

-- `TileChunk`; `solid_num` counts the tiles that are not 0 and is never negative.
pub record TileChunk : Type 0 where
  pub solid_num : ℕ
  pub cells : List ℕ

unfoldable pub default_chunk : TileChunk
default_chunk = record { solid_num = 0; cells = replicate (chunk_edge * chunk_edge) 0 }

-- `TileMap`. The hash map's keys are compared by `vec_eq`.
pub record TileMap : Type 0 where
  pub curr_chunk_pos : IVec2
  pub curr_chunk_data : TileChunk
  pub chunks : IVec2 → Option TileChunk

unfoldable pub default_map : TileMap
unfolding default_chunk
default_map = record {
  curr_chunk_pos = record { x = pos 0; y = pos 0 };
  curr_chunk_data = default_chunk;
  chunks = λ c. none;
}

abbrev pub put_chunk : IVec2 → TileChunk → (IVec2 → Option TileChunk) → IVec2 → Option TileChunk
put_chunk c data_of m d = if vec_eq c d then some data_of else m d

abbrev pub drop_chunk : IVec2 → (IVec2 → Option TileChunk) → IVec2 → Option TileChunk
drop_chunk c m d = if vec_eq c d then none else m d

unfoldable pub unwrap_or_default : Option TileChunk → TileChunk
unfolding default_chunk
unwrap_or_default none = default_chunk
unwrap_or_default (some c) = c

abbrev pub unwrap_or : TileChunk → Option TileChunk → TileChunk
unwrap_or d none = d
unwrap_or d (some c) = c

-- `load_chunk`.
unfoldable pub load_chunk : IVec2 → TileMap → TileMap
unfolding unwrap_or_default
load_chunk c m =
    if vec_eq m.curr_chunk_pos c
    then m
    else (if m.curr_chunk_data.solid_num == 0
        then record {
          curr_chunk_pos = c;
          curr_chunk_data = unwrap_or m.curr_chunk_data (m.chunks c);
          chunks = drop_chunk c m.chunks;
        }
        else record {
          curr_chunk_pos = c;
          curr_chunk_data = unwrap_or_default (m.chunks c);
          chunks = put_chunk m.curr_chunk_pos m.curr_chunk_data (drop_chunk c m.chunks);
        })

-- `TileMap::get`.
unfoldable pub get : IVec2 → TileMap → Option (ℕ × TileMap)
unfolding load_chunk chunk_of rel_of
get p m = do
  let m' = load_chunk (chunk_of p) m
  t ← get_elem? m'.curr_chunk_data.cells (rel_of p)
  some (t, m')

abbrev pub solid : ℕ → ℕ
solid t = if t == 0 then 0 else 1

-- The loaded chunk with one cell changed.
unfoldable pub set_cell : ℕ → ℕ → TileChunk → Option TileChunk
set_cell i t c = do
  cell ← get_elem? c.cells i
  some (record { solid_num = c.solid_num + solid t - solid cell; cells = set c.cells i t })

-- `TileMap::set`.
unfoldable pub put : IVec2 → ℕ → TileMap → Option TileMap
unfolding load_chunk chunk_of rel_of set_cell
put p t m = do
  let m' = load_chunk (chunk_of p) m
  c ← set_cell (rel_of p) t m'.curr_chunk_data
  some (record m' { curr_chunk_data = c })
