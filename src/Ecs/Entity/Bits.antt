-- ===== src/Ecs/Entity/Bits.antt =====
-- The index and the bit do not disturb each other.
use heat_gun.Base.{
  ℕ, ◌+◌, ◌/◌, ◌%◌, ◌^◌, ◌<◌, ◌≡◌, true, some, arith, ◌==◌, lt→ltb, if◌then◌else◌, Bool-cases, inl,
  inr,
}
use heat_gun.Ecs.Entity.{
  condemned_bit, index_in_parent, condemned, set_index_in_parent_unchecked, set_index_in_parent,
  mark_condemned,
}

-- In a 32-bit word, setting an index below 2 ^ 31 succeeds; the word has 32 bits, the index is read
-- back, and the entity is condemned afterwards exactly when it was before.
pub index_in_parent-set_index_in_parent :
    (idx word : ℕ)
    → word < 2 ^ 32
    → idx < condemned_bit
    → (word' : ℕ) × (set_index_in_parent idx word ≡ some word')
      × (word' < 2 ^ 32)
      × (index_in_parent word' ≡ idx)
      × (condemned word' ≡ condemned word)
unfolding set_index_in_parent set_index_in_parent_unchecked index_in_parent condemned
index_in_parent-set_index_in_parent idx word small fits =
    elim (Bool-cases (word / condemned_bit == 0)) [
      | inl h ↦ (
        idx,
        rw (lt→ltb idx condemned_bit fits, h) (low idx fits),
        ground arith,
        ground arith,
        rw h (ground arith),
      )
      | inr h ↦ (
        condemned_bit + idx,
        rw (lt→ltb idx condemned_bit fits, h) (high idx fits),
        omega arith,
        omega arith,
        rw h (ground arith),
      )
    ]
  where
    low :
        (i : ℕ)
        → i < condemned_bit
        → some ((if i / condemned_bit == 0 then 0 else condemned_bit) + i % condemned_bit) ≡ some i
    low i h = ground arith

    high :
        (i : ℕ)
        → i < condemned_bit
        → some (condemned_bit + i % condemned_bit) ≡ some (condemned_bit + i)
    high i h = ground arith

-- Marking a word condemns it and keeps its index, within 32 bits.
pub condemned-mark_condemned :
    (word : ℕ)
    → (condemned (mark_condemned word) ≡ true)
      × (index_in_parent (mark_condemned word) ≡ index_in_parent word)
      × (mark_condemned word < 2 ^ 32)
unfolding mark_condemned index_in_parent condemned
condemned-mark_condemned word = (ground arith, omega arith, omega arith)
