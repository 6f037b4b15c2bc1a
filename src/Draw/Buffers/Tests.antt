-- ===== src/Draw/Buffers/Tests.antt =====
-- A buffer with a local copy of four bytes.
use heat_gun.Base.{
  ℕ, ◌<◌, ◌≡◌, ◌≢◌, refl, sym, subst, [], ◌∷◌, Option, none, some, arith, empty_map, insert,
  nat_key,
}
use heat_gun.Draw.Chunks.{
  Belt, ChunkBufferWriter, find_chunk, insert_chunk, stage, add_interval, copy_from_slice,
  write_round,
}
use heat_gun.Draw.Chunks
use heat_gun.Draw.Chunks.Staging.{Coherent}
use heat_gun.Draw.Chunks.Writing.{staged, Wrote, write-Wrote}
use heat_gun.Draw.Buffers.{
  DynamicBuffer, DynamicBufferManager, extend, swap_remove_using_local, write_positioned,
}
use heat_gun.Draw.Buffers.Extending.{Mirrored, extend-Mirrored}
use heat_gun.Draw.Buffers.Removing.{swap_remove_using_local-stale}

abbrev zeros : Belt
zeros chunk k = 0

empty_Coherent : Coherent Chunks.new
unfolding Chunks.new
empty_Coherent = record {
  mapped = λ b h e. absurd (cc);
  used = λ b h e. absurd (cc);
  last = λ b h e. absurd (cc);
}

-- A write over the border of two chunks.
write-Wrote_example :
    (w' : ChunkBufferWriter) × (Chunks.write zeros 3 65535 (1 ∷ 2 ∷ 3 ∷ []) Chunks.new ≡ some w')
    × Wrote 65535 (1 ∷ 2 ∷ 3 ∷ []) Chunks.new w'
write-Wrote_example =
    write-Wrote zeros 3 65535 (1 ∷ 2 ∷ 3 ∷ []) Chunks.new empty_Coherent (omega arith)

abbrev or_new : Option ChunkBufferWriter → ChunkBufferWriter
or_new none = Chunks.new
or_new (some w) = w

-- The four bytes are staged.
abbrev filled : ChunkBufferWriter
filled = or_new (Chunks.write zeros 4 0 (5 ∷ 6 ∷ 7 ∷ 8 ∷ []) Chunks.new)

filled-Coherent : Coherent filled
filled-Coherent =
    let (w, e, wrote) =
      write-Wrote zeros 4 0 (5 ∷ 6 ∷ 7 ∷ 8 ∷ []) Chunks.new empty_Coherent (omega arith) in
    subst (λ o. Coherent (or_new o)) (sym e) wrote.coherent

second_staged : staged filled 1 ≡ some 6
unfolding staged Chunks.new Chunks.write write_round find_chunk insert_chunk stage add_interval
    copy_from_slice
second_staged = refl

abbrev four : DynamicBuffer
four = record {
  target_len = 4;
  buffer_len = 0;
  writer = filled;
  local_copy = some (5 ∷ 6 ∷ 7 ∷ 8 ∷ []);
}

four-Mirrored : Mirrored four (5 ∷ 6 ∷ 7 ∷ 8 ∷ [])
four-Mirrored = record { copy = refl; whole = refl; writer = filled-Coherent }

abbrev manager : DynamicBufferManager
manager = insert 0 four empty_map

extend-Mirrored_example :
    (m' : DynamicBufferManager) × (state' : DynamicBuffer) × (extend zeros 0 (9 ∷ []) manager
      ≡ some (1, m'))
    × (m' 0 ≡ some state')
    × Mirrored state' (5 ∷ 6 ∷ 7 ∷ 8 ∷ 9 ∷ [])
    × Wrote 4 (9 ∷ []) filled state'.writer
    × ((other : ℕ) → ◌≢◌ {A = ℕ} 0 other → m' other ≡ manager other)
extend-Mirrored_example =
    extend-Mirrored zeros 0 (9 ∷ []) (5 ∷ 6 ∷ 7 ∷ 8 ∷ []) manager four refl four-Mirrored

swap_remove_using_local-stale_example :
    (m' : DynamicBufferManager) × (state' : DynamicBuffer) × (swap_remove_using_local zeros 0 1 1
        manager
      ≡ some m')
    × (m' 0 ≡ some state')
    × (state'.local_copy ≡ some (5 ∷ 8 ∷ 7 ∷ 8 ∷ []))
    × (state'.target_len ≡ 3)
    × ((a x : ℕ) → a < 4 → staged filled a ≡ some x → staged state'.writer a ≡ some x)
swap_remove_using_local-stale_example =
    swap_remove_using_local-stale zeros 0 1 1 (5 ∷ 6 ∷ 7 ∷ 8 ∷ []) manager four refl four-Mirrored
      (omega arith)

-- Data that end before the vector does.
short_write : write_positioned 0 (1 ∷ []) (5 ∷ 6 ∷ []) ≡ none
unfolding write_positioned
short_write = refl
