-- ===== src/Ecs/Entity.antt =====
-- src/engine/hg-ecs/src/entity.rs: the word of `EntityInfo` that holds the place of an entity among
-- its parent's children in 31 bits, and in the highest bit whether it is condemned.
pub mod Bits
pub mod Tree
pub mod Members
mod Tests
use heat_gun.Base.{
  ℕ, ◌+◌, ◌*◌, ◌/◌, ◌%◌, ◌^◌, Bool, true, false, not, ◌&&◌, Option, none, some, ◌==◌, ltb,
  if◌then◌else◌,
}

-- A `u32`, with `1 << 31`.
abbrev pub condemned_bit : ℕ
condemned_bit = 2 ^ 31

-- `index_in_parent`: the word without the bit.
unfoldable pub index_in_parent : ℕ → ℕ
index_in_parent word = word % condemned_bit

-- `condemned`: the word shifted down is not 0.
unfoldable pub condemned : ℕ → Bool
condemned word = not (word / condemned_bit == 0)

-- `set_index_in_parent_unchecked`: the bit alone, `or`ed with the index.
unfoldable pub set_index_in_parent_unchecked : ℕ → ℕ → ℕ
set_index_in_parent_unchecked idx word =
    (if word / condemned_bit == 0 && idx / condemned_bit == 0 then 0 else condemned_bit)
    + idx % condemned_bit

-- `set_index_in_parent`; its assertion is a panic.
unfoldable pub set_index_in_parent : ℕ → ℕ → Option ℕ
unfolding set_index_in_parent_unchecked
set_index_in_parent idx word =
    if ltb idx condemned_bit then some (set_index_in_parent_unchecked idx word) else none

-- `mark_condemned`.
unfoldable pub mark_condemned : ℕ → ℕ
mark_condemned word = condemned_bit + word % condemned_bit
