-- ===== src/Draw/Buffers.antt =====
-- src/engine/hg-ctx2d/src/base/buffer.rs, `DynamicBufferManager`, and stream.rs, the writer of the
-- local copies. The data of a write come as one slice, as the streams of stream.rs give them. A
-- handle is a number, a new one is given by the caller; `acquired` is what a staging buffer of the
-- belt holds when it is acquired. The calls of wgpu, with labels and
-- usages, are left out. `none` is a panic.
pub mod Extending
pub mod Removing
mod Tests
use heat_gun.Base.{
  ℕ, ◌+◌, ◌-◌, min, max, Bool, true, false, List, [], ◌∷◌, ◌++◌, Option, none, some, Map, insert,
  remove, nat_key, length, take, drop, ltb, leb, ◌==◌, if◌then◌else◌, ◌>>=◌,
}
use heat_gun.Draw.Chunks.{Belt, ChunkBufferWriter}
use heat_gun.Draw.Chunks

pub record DynamicBuffer : Type 0 where
  pub target_len : ℕ
  pub buffer_len : ℕ
  pub writer : ChunkBufferWriter
  pub local_copy : Option (List ℕ)

abbrev pub DynamicBufferManager : Type 0
DynamicBufferManager = Map ℕ DynamicBuffer

unfoldable pub create : ℕ → Bool → DynamicBufferManager → DynamicBufferManager
unfolding Chunks.new
create buffer maintain_cpu_copy m =
    insert buffer
      (record {
        target_len = 0;
        buffer_len = 0;
        writer = Chunks.new;
        local_copy = if maintain_cpu_copy then some [] else none;
      })
      m

unfoldable pub destroy : ℕ → DynamicBufferManager → DynamicBufferManager
destroy buffer m = remove buffer m

unfoldable pub len : ℕ → DynamicBufferManager → Option ℕ
len buffer m = do state ← m buffer; some state.target_len

-- `PositionedVecWriter::write`; `split_at` panics where the data end before the vector does.
unfoldable pub write_positioned : ℕ → List ℕ → List ℕ → Option (List ℕ)
write_positioned start bytes target =
    if ltb (length target) start
    then none
    else (if leb (length target - start) (length bytes)
        then some (
            take start target
            ++ (take (length target - start) bytes ++ drop (length target - start) bytes))
        else none)

unfoldable pub write_local : ℕ → List ℕ → Option (List ℕ) → Option (Option (List ℕ))
unfolding write_positioned
write_local offset bytes none = some none
write_local offset bytes (some local) = write_positioned offset bytes local >>= λ l. some (some l)

unfoldable pub write :
    Belt → ℕ → ℕ → List ℕ → DynamicBufferManager → Option (ℕ × DynamicBufferManager)
unfolding write_local
write acquired buffer offset bytes m = do
  state ← m buffer
  local ← write_local offset bytes state.local_copy
  writer ← Chunks.write acquired (length bytes) state.target_len bytes state.writer
  some (
    length bytes,
    insert buffer
        (record state {
          local_copy = local;
          writer = writer;
          target_len = max state.target_len (offset + length bytes);
        })
        m,
  )

unfoldable pub extend : Belt → ℕ → List ℕ → DynamicBufferManager → Option (ℕ × DynamicBufferManager)
unfolding len write
extend acquired buffer bytes m = do l ← len buffer m; write acquired buffer l bytes m

unfoldable pub truncate_to : ℕ → ℕ → DynamicBufferManager → Option DynamicBufferManager
truncate_to buffer to m = m buffer >>= λ state.
    if leb to state.target_len
    then some
        (insert buffer (record state { target_len = to; buffer_len = min state.buffer_len to }) m)
    else none

unfoldable pub truncate_by : ℕ → ℕ → DynamicBufferManager → Option DynamicBufferManager
unfolding len truncate_to
truncate_by buffer by m =
    len buffer m >>= λ l. if ltb l by then none else truncate_to buffer (l - by) m

unfoldable pub clear : ℕ → DynamicBufferManager → Option DynamicBufferManager
unfolding truncate_to
clear buffer m = truncate_to buffer 0 m

-- `local_copy[offset..][..size]`, `copy_from_slice` into it, and `copy_within`.
unfoldable pub slice_of : ℕ → ℕ → List ℕ → Option (List ℕ)
slice_of offset size l =
    if leb (offset + size) (length l) then some (take size (drop offset l)) else none

unfoldable pub overwrite : ℕ → List ℕ → List ℕ → Option (List ℕ)
overwrite offset slice l =
    if leb (offset + length slice) (length l)
    then some (take offset l ++ (slice ++ drop (offset + length slice) l))
    else none

unfoldable pub copy_within : ℕ → ℕ → ℕ → List ℕ → Option (List ℕ)
unfolding slice_of overwrite
copy_within src_offset size dst_offset l = do
  slice ← slice_of src_offset size l
  overwrite dst_offset slice l

-- `copy_using_local` within one buffer.
unfoldable pub copy_in_one :
    Belt → ℕ → ℕ → ℕ → ℕ → DynamicBufferManager → Option DynamicBufferManager
unfolding copy_within slice_of
copy_in_one acquired buffer src_offset dst_offset size m = do
  state ← m buffer
  old ← state.local_copy
  local ← copy_within src_offset size dst_offset old
  bytes ← slice_of src_offset size local
  writer ← Chunks.write acquired (length bytes) state.target_len bytes state.writer
  some (
      insert buffer
        (record state {
          local_copy = some local;
          writer = writer;
          target_len = max state.target_len (dst_offset + size);
        })
        m)

unfoldable pub overwrite_local : ℕ → List ℕ → Option (List ℕ) → Option (Option (List ℕ))
unfolding overwrite
overwrite_local offset slice none = some none
overwrite_local offset slice (some l) = overwrite offset slice l >>= λ r. some (some r)

-- `copy_using_local` between two buffers.
unfoldable pub copy_between :
    Belt → ℕ → ℕ → ℕ → ℕ → ℕ → DynamicBufferManager → Option DynamicBufferManager
unfolding overwrite_local slice_of
copy_between acquired src_buffer src_offset dst_buffer dst_offset size m = do
  src_state ← m src_buffer
  dst_state ← m dst_buffer
  src_local ← src_state.local_copy
  bytes ← slice_of src_offset size src_local
  local ← overwrite_local dst_offset bytes dst_state.local_copy
  writer ← Chunks.write acquired (length bytes) dst_state.target_len bytes dst_state.writer
  some (
      insert dst_buffer
        (record dst_state {
          local_copy = local;
          writer = writer;
          target_len = max dst_state.target_len (dst_offset + size);
        })
        m)

unfoldable pub copy_using_local :
    Belt → ℕ → ℕ → ℕ → ℕ → ℕ → DynamicBufferManager → Option DynamicBufferManager
unfolding copy_in_one copy_between
copy_using_local acquired src_buffer src_offset dst_buffer dst_offset size m =
    if src_buffer == dst_buffer
    then copy_in_one acquired src_buffer src_offset dst_offset size m
    else copy_between acquired src_buffer src_offset dst_buffer dst_offset size m

unfoldable pub swap_remove_using_local :
    Belt → ℕ → ℕ → ℕ → DynamicBufferManager → Option DynamicBufferManager
unfolding len copy_using_local truncate_by
swap_remove_using_local acquired buffer offset size m = len buffer m >>= λ l.
    if ltb l size
    then none
    else (copy_using_local acquired buffer (l - size) buffer offset size m
        >>= truncate_by buffer size)

unfoldable pub local_mirror : ℕ → DynamicBufferManager → Option (List ℕ)
local_mirror buffer m = do state ← m buffer; state.local_copy
