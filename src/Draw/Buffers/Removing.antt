-- ===== src/Draw/Buffers/Removing.antt =====
-- The removal of a range by the local copy: the bytes that move are staged behind the end, and not at
-- their new place.
use heat_gun.Base.{
  ℕ, ◌+◌, ◌-◌, ◌<◌, ◌≤◌, ◌≡◌, refl, min, max, true, false, List, ◌++◌, some, arith, insert, nat_key,
  length, take, drop, length-append, length-take, length-drop, ltb, leb, ==-refl, inl,
}
use heat_gun.Draw.Chunks.{Belt, ChunkBufferWriter}
use heat_gun.Draw.Chunks
use heat_gun.Draw.Chunks.Writing.{staged, write-Wrote}
use heat_gun.Draw.Buffers.{
  DynamicBuffer, DynamicBufferManager, len, truncate_to, truncate_by, slice_of, overwrite,
  copy_within, copy_in_one, copy_using_local, swap_remove_using_local,
}
use heat_gun.Draw.Buffers.Extending.{Mirrored}

-- The local copy with the bytes at its end moved to the offset.
abbrev pub moved : ℕ → ℕ → List ℕ → List ℕ
moved offset size local =
    take offset local
    ++ (take size (drop (length local - size) local)
        ++ drop (offset + length (take size (drop (length local - size) local))) local)

length-slice :
    (offset size : ℕ) (l : List ℕ)
    → offset + size ≤ length l
    → length (take size (drop offset l)) ≡ size
length-slice offset size l h = omega (arith, length-take size (drop offset l), length-drop offset l)

slice_of_lem :
    (offset size : ℕ) (l : List ℕ)
    → offset + size ≤ length l
    → slice_of offset size l ≡ some (take size (drop offset l))
unfolding slice_of
slice_of_lem offset size l h = rw (inside (offset + size) (length l) h) refl
  where
    inside : (a b : ℕ) → a ≤ b → leb a b ≡ true
    inside a b h = ground arith

length-moved :
    (offset size : ℕ) (local : List ℕ)
    → offset + size ≤ length local
    → length (moved offset size local) ≡ length local
length-moved offset size local h =
    let slice : List ℕ = take size (drop (length local - size) local) in
    let s = length-slice (length local - size) size local (omega arith) in
    omega (
      arith,
      s,
      length-append (take offset local) (slice ++ drop (offset + length slice) local),
      length-append slice (drop (offset + length slice) local),
      length-take offset local,
      length-drop (offset + length slice) local,
    )

copy_within_lem :
    (offset size : ℕ) (local : List ℕ)
    → offset + size ≤ length local
    → copy_within (length local - size) size offset local ≡ some (moved offset size local)
unfolding copy_within overwrite
copy_within_lem offset size local h =
    rw
      (
        slice_of_lem (length local - size) size local (omega arith),
        inside (offset + length (take size (drop (length local - size) local))) (length local)
            (omega (arith, length-slice (length local - size) size local (omega arith))),
      )
      refl
  where
    inside : (a b : ℕ) → a ≤ b → leb a b ≡ true
    inside a b h = ground arith

module _ (acquired : Belt) (buffer offset size : ℕ) (local : List ℕ) (m : DynamicBufferManager)
    (state : DynamicBuffer) (at : m buffer ≡ some state) (mirrored : Mirrored state local)
    (h : offset + size ≤ length local) where
  -- The bytes that are staged.
  abbrev last_bytes : List ℕ
  last_bytes = take size (drop (length local - size) (moved offset size local))

  abbrev copied : ChunkBufferWriter → DynamicBuffer
  copied w = record state {
    local_copy = some (moved offset size local);
    writer = w;
    target_len = max state.target_len (offset + size);
  }

  abbrev removed : ChunkBufferWriter → DynamicBuffer
  removed w = record state {
    local_copy = some (moved offset size local);
    writer = w;
    target_len = max state.target_len (offset + size) - size;
    buffer_len = min state.buffer_len (max state.target_len (offset + size) - size);
  }

  copy_in_one_lem :
      (w : ChunkBufferWriter)
      → Chunks.write acquired (length last_bytes) state.target_len last_bytes state.writer ≡ some w
      → copy_in_one acquired buffer (state.target_len - size) offset size m
        ≡ some (insert buffer (copied w) m)
  unfolding copy_in_one
  copy_in_one_lem w e =
      let copy : copy_within (state.target_len - size) size offset local
          ≡ some (moved offset size local) =
        rw (← mirrored.whole) (copy_within_lem offset size local h) in
      let slice : slice_of (state.target_len - size) size (moved offset size local)
          ≡ some last_bytes =
        rw (← mirrored.whole) (
          slice_of_lem (length local - size) size (moved offset size local)
            (rw (length-moved offset size local h) (omega arith))) in
      rw (at, mirrored.copy, copy, slice, e) refl

  truncate_by_lem :
      (w : ChunkBufferWriter)
      → truncate_by buffer size (insert buffer (copied w) m)
        ≡ some (insert buffer (removed w) (insert buffer (copied w) m))
  unfolding truncate_by truncate_to len
  truncate_by_lem w =
      rw
        (
          ==-refl buffer,
          enough (max state.target_len (offset + size)) (omega arith),
          less (max state.target_len (offset + size)),
        )
        refl
    where
      enough : (t : ℕ) → size ≤ t → ltb t size ≡ false
      enough t u = ground arith

      less : (t : ℕ) → leb (t - size) t ≡ true
      less t = ground arith

  len_lem : len buffer m ≡ some state.target_len
  unfolding len
  len_lem = rw at refl

  removed_lem :
      (w : ChunkBufferWriter)
      → Chunks.write acquired (length last_bytes) state.target_len last_bytes state.writer ≡ some w
      → swap_remove_using_local acquired buffer offset size m
        ≡ some (insert buffer (removed w) (insert buffer (copied w) m))
  unfolding swap_remove_using_local copy_using_local
  removed_lem w e =
      rw (len_lem, enough state.target_len mirrored.whole, ==-refl buffer, copy_in_one_lem w e)
        (truncate_by_lem w)
    where
      enough : (t : ℕ) → length local ≡ t → ltb t size ≡ false
      enough t u = ground arith

-- In a buffer with a whole local copy, `swap_remove_using_local` of a range does not panic; the
-- local copy holds the last bytes at the offset and the buffer is shorter by them, but every byte
-- that was staged for an address of the buffer, one in the range included, is staged as it was.
pub swap_remove_using_local-stale :
    (acquired : Belt) (buffer offset size : ℕ) (local : List ℕ) (m : DynamicBufferManager)
    (state : DynamicBuffer)
    → m buffer ≡ some state
    → Mirrored state local
    → offset + size ≤ length local
    → (m' : DynamicBufferManager) × (state' : DynamicBuffer) × (swap_remove_using_local acquired
          buffer offset size m
        ≡ some m')
      × (m' buffer ≡ some state')
      × (state'.local_copy ≡ some (moved offset size local))
      × (state'.target_len ≡ length local - size)
      × ((a x : ℕ)
          → a < length local
          → staged state.writer a ≡ some x
          → staged state'.writer a ≡ some x)
swap_remove_using_local-stale acquired buffer offset size local m state at mirrored h =
    let bytes : List ℕ = last_bytes acquired buffer offset size local m state at mirrored h in
    let (w, e, wrote) =
      write-Wrote acquired (length bytes) state.target_len bytes state.writer mirrored.writer
        (omega arith) in
    (
      insert buffer (removed acquired buffer offset size local m state at mirrored h w)
          (insert buffer (copied acquired buffer offset size local m state at mirrored h w) m),
      removed acquired buffer offset size local m state at mirrored h w,
      removed_lem acquired buffer offset size local m state at mirrored h w e,
      rw (==-refl buffer) refl,
      refl,
      rest state.target_len mirrored.whole,
      λ a x lt s. wrote.kept a x (inl (rw mirrored.whole at lt)) s,
    )
  where
    rest : (t : ℕ) → length local ≡ t → max t (offset + size) - size ≡ length local - size
    rest t e = omega arith
