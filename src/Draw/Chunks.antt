-- ===== src/Draw/Chunks.antt =====
-- src/engine/hg-ctx2d/src/base/buffer.rs, `ChunkBufferWriter`: the bytes that wait for their upload,
-- in chunks of the staging belt, whose chunk size is the one that the `DynamicBufferManager` sets.
-- A mapped buffer is the function of its bytes; what an acquired one holds is a parameter. An
-- index of the arena of chunks is a number, the next one in `next_chunk`. `none` is a panic.
pub mod Staging
pub mod Placing
pub mod Writing
use heat_gun.Base.{
  ℕ, zero, suc, ◌+◌, ◌-◌, ◌*◌, ◌/◌, ◌^◌, min, max, Bool, true, false, ◌&&◌, List, [], ◌∷◌, ◌++◌,
  Option, none, some, Map, empty_map, insert, nat_key, length, get_elem?, take, drop, swap_remove,
  ltb, leb, ◌==◌, if◌then◌else◌, ◌>>=◌,
}

abbrev pub chunk_size : ℕ
chunk_size = 2 ^ 16

-- `Range<u32>`.
pub record Interval : Type 0 where
  pub start : ℕ
  pub end_ : ℕ

abbrev pub Bytes : Type 0
Bytes = ℕ → ℕ

-- What the belt's buffers hold when they are acquired, for each index of a chunk.
abbrev pub Belt : Type 0
Belt = ℕ → Bytes

pub record CbwChunk : Type 0 where
  pub base : ℕ
  pub buffer : Bytes
  pub intervals : List Interval

pub record ChunkBufferWriter : Type 0 where
  pub chunk_map : Map ℕ ℕ
  pub chunks : Map ℕ CbwChunk
  pub last_chunk : Option (ℕ × ℕ)
  pub next_chunk : ℕ

-- `ChunkBufferWriter::new`, and what `release` and the end of `flush` leave.
unfoldable pub new : ChunkBufferWriter
new = record { chunk_map = empty_map; chunks = empty_map; last_chunk = none; next_chunk = 0 }

abbrev pub hull : Interval → Interval → Interval
hull a b = record { start = min a.start b.start; end_ = max a.end_ b.end_ }

-- The loop that deletes the intervals that overlap with the new one, and enters it: on fuel, a round
-- for each interval and one more.
unfoldable pub add_interval : ℕ → ℕ → Interval → List Interval → Option (List Interval)
add_interval zero i to_insert intervals = none
add_interval (suc fuel) i to_insert intervals = elim (get_elem? intervals i) [
  | none ↦ some (intervals ++ to_insert ∷ [])
  | some other ↦ elim (ltb to_insert.end_ other.start && ltb other.end_ to_insert.start) [
    | true ↦ add_interval fuel (i + 1) to_insert intervals
    | false ↦ swap_remove i intervals >>= add_interval fuel i (hull to_insert other)
  ]
]

-- The chunk that was used last.
abbrev pub same_chunk : ℕ → Option (ℕ × ℕ) → Option ℕ
same_chunk chunk_base none = none
same_chunk chunk_base (some (last_base, last_chunk)) =
    if chunk_base == last_base then some last_chunk else none

-- A chunk for a base that has none.
unfoldable pub insert_chunk : Bytes → ℕ → ChunkBufferWriter → ChunkBufferWriter
insert_chunk acquired chunk_base w = record w {
  chunk_map = insert chunk_base w.next_chunk w.chunk_map;
  chunks =
      insert w.next_chunk (record { base = chunk_base; buffer = acquired; intervals = [] })
        w.chunks;
  next_chunk = w.next_chunk + 1;
}

-- `'find_chunk`.
unfoldable pub find_chunk : Belt → ℕ → ChunkBufferWriter → ℕ × ChunkBufferWriter
unfolding insert_chunk
find_chunk acquired chunk_base w = elim (same_chunk chunk_base w.last_chunk) [
  | some chunk ↦ (chunk, w)
  | none ↦ elim (w.chunk_map chunk_base) [
    | some chunk ↦ (chunk, w)
    | none ↦ (w.next_chunk, insert_chunk (acquired w.next_chunk) chunk_base w)
  ]
]

abbrev pub byte_or : Option ℕ → ℕ → ℕ
byte_or none old = old
byte_or (some byte) old = byte

-- The copy of a slice into a mapped buffer.
unfoldable pub copy_from_slice : ℕ → List ℕ → Bytes → Bytes
copy_from_slice start slice buffer k =
    if leb start k then byte_or (get_elem? slice (k - start)) (buffer k) else buffer k

-- The copy into the chunk, and its intervals.
unfoldable pub stage : ℕ → ℕ → ℕ → List ℕ → ChunkBufferWriter → Option ChunkBufferWriter
unfolding copy_from_slice add_interval
stage chunk chunk_rel write_sz bytes w = do
  c ← w.chunks chunk
  intervals ←
      add_interval (suc (length c.intervals)) 0
        (record { start = chunk_rel; end_ = chunk_rel + write_sz }) c.intervals
  some (record w {
    chunks =
        insert chunk
          (record c {
            buffer = copy_from_slice chunk_rel (take write_sz bytes) c.buffer;
            intervals = intervals;
          })
          w.chunks;
  })

-- How much of the bytes one round takes.
abbrev pub chunk_base_of : ℕ → ℕ
chunk_base_of offset = offset / chunk_size * chunk_size

abbrev pub write_size : ℕ → List ℕ → ℕ
write_size offset bytes = min (chunk_size - (offset - chunk_base_of offset)) (length bytes)

-- One round of the loop in `write`.
unfoldable pub write_round : Belt → ℕ → List ℕ → ChunkBufferWriter → Option ChunkBufferWriter
unfolding find_chunk stage
write_round acquired offset bytes w =
    let found = find_chunk acquired (chunk_base_of offset) w in
    stage found.0 (offset - chunk_base_of offset) (write_size offset bytes) bytes
      (record found.1 { last_chunk = some (chunk_base_of offset, found.0) })

-- `ChunkBufferWriter::write` of one slice; the fuel is the number of its bytes, and each round takes
-- one at least.
unfoldable pub write : Belt → ℕ → ℕ → List ℕ → ChunkBufferWriter → Option ChunkBufferWriter
unfolding write_round
write acquired fuel offset [] w = some w
write acquired zero offset (byte ∷ bytes) w = none
write acquired (suc fuel) offset (byte ∷ bytes) w =
    write_round acquired offset (byte ∷ bytes) w
    >>= write acquired fuel (offset + write_size offset (byte ∷ bytes))
        (drop (write_size offset (byte ∷ bytes)) (byte ∷ bytes))

-- The intervals of a chunk that `flush` uploads: `checked_sub`, `retain_mut`; the order in which they
-- are uploaded is left out.
abbrev pub cut : ℕ → Interval → Interval
cut max_rel range = record { start = min range.start max_rel; end_ = min range.end_ max_rel }

unfoldable pub retain : ℕ → List Interval → List Interval
retain max_rel [] = []
retain max_rel (range ∷ ranges) =
    let rest = retain max_rel ranges in
    if ltb (min range.start max_rel) (min range.end_ max_rel)
    then cut max_rel range ∷ rest
    else rest

unfoldable pub flush_intervals : ℕ → CbwChunk → List Interval
unfolding retain
flush_intervals target_len chunk =
    if leb target_len chunk.base
    then (if ltb (chunk.base - target_len) chunk_size
        then retain (chunk.base - target_len) chunk.intervals
        else [])
    else chunk.intervals
