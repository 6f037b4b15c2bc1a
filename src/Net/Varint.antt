-- ===== src/Net/Varint.antt =====
-- The crate `varuint`: a number as bytes, with what its documentation promises for 64 bits.
use heat_gun.Base.{ℕ, ◌<◌, ◌≤◌, ◌-◌, ◌^◌, ◌≡◌, List, ◌++◌, Option, none, some, length, take}

abbrev pub u64_end : ℕ
u64_end = 2 ^ 64

-- `Varint(n).serialize`, `Varint(n).size_hint` and `Varint::<u64>::deserialize` with the bytes it
-- leaves.
pub record Varint : Type 0 where
  pub serialize : ℕ → List ℕ
  pub size_hint : ℕ → ℕ
  pub deserialize : List ℕ → Option (ℕ × List ℕ)

abbrev pub isize_max : ℕ
isize_max = 2 ^ 63 - 1

pub record IsVarint (v : Varint) : Type 0 where
  pub decodes :
      (n : ℕ) (rest : List ℕ) → n < u64_end → v.deserialize (v.serialize n ++ rest) ≡ some (n, rest)
  pub partial :
      (n k : ℕ)
      → n < u64_end
      → k < length (v.serialize n)
      → v.deserialize (take k (v.serialize n)) ≡ none
  pub nonempty : (n : ℕ) → n < u64_end → 0 < length (v.serialize n)
  pub short : (n : ℕ) → n < u64_end → length (v.serialize n) ≤ 9
  pub hint : (n : ℕ) → n < u64_end → v.size_hint n ≡ length (v.serialize n)
  pub hint_mono : (n : ℕ) → n ≤ isize_max → v.size_hint n ≤ v.size_hint isize_max
