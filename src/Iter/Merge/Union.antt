-- ===== src/Iter/Merge/Union.antt =====
-- `MergeIter` on sorted inputs is the sorted union.
use heat_gun.Base.{
  ℕ, zero, suc, ◌+◌, ◌≤◌, ◌<◌, ◌≡◌, refl, inl, inr, List, [], ◌∷◌, some, arith, length, ◌||◌,
  contains, SortedFrom, IsSorted, compare_cases,
}
use heat_gun.Iter.Merge.{merge_all, merge_next, merged, collect, collect-suc}

abbrev pub IsUnion : ℕ → List ℕ → List ℕ → List ℕ → Type 0
IsUnion lo ls rs xs =
    SortedFrom lo xs × ((a : ℕ) → contains a xs ≡ (contains a ls || contains a rs))

abbrev Merges : ℕ → ℕ → List ℕ → List ℕ → Type 0
Merges n lo ls rs =
    (xs : List ℕ) × (collect merge_next n (merged ls rs) ≡ some xs) × IsUnion lo ls rs xs

left_first :
    (n lo l : ℕ) (ls rs : List ℕ)
    → lo ≤ l
    → merge_next (merged (l ∷ ls) rs) ≡ some (l, merged ls rs)
    → Merges n (suc l) ls rs
    → Merges (suc n) lo (l ∷ ls) rs
left_first n lo l ls rs h e (xs, f, (s, m)) = (
  l ∷ xs,
  collect-suc merge_next n (merged (l ∷ ls) rs) (merged ls rs) l xs e f,
  ((h, s), λ a. ground (arith, m a)),
)

right_first :
    (n lo r : ℕ) (ls rs : List ℕ)
    → lo ≤ r
    → merge_next (merged ls (r ∷ rs)) ≡ some (r, merged ls rs)
    → Merges n (suc r) ls rs
    → Merges (suc n) lo ls (r ∷ rs)
right_first n lo r ls rs h e (xs, f, (s, m)) = (
  r ∷ xs,
  collect-suc merge_next n (merged ls (r ∷ rs)) (merged ls rs) r xs e f,
  ((h, s), λ a. ground (arith, m a)),
)

both_first :
    (n lo l r : ℕ) (ls rs : List ℕ)
    → lo ≤ l
    → l ≡ r
    → merge_next (merged (l ∷ ls) (r ∷ rs)) ≡ some (l, merged ls rs)
    → Merges n (suc l) ls rs
    → Merges (suc n) lo (l ∷ ls) (r ∷ rs)
both_first n lo l r ls rs h eq e (xs, f, (s, m)) = (
  l ∷ xs,
  collect-suc merge_next n (merged (l ∷ ls) (r ∷ rs)) (merged ls rs) l xs e f,
  ((h, s), λ a. ground (arith, m a)),
)

merge_collect :
    (n lo : ℕ) (ls rs : List ℕ)
    → length ls + length rs < n
    → SortedFrom lo ls
    → SortedFrom lo rs
    → Merges n lo ls rs
unfolding merge_next
merge_collect zero lo ls rs h sl sr = absurd (omega arith)
merge_collect (suc n) lo [] [] h sl sr = unfold collect in ([], refl, (tt, λ a. refl))
merge_collect (suc n) lo [] (r ∷ rs) h sl sr =
    right_first n lo r [] rs sr.0 refl (merge_collect n (suc r) [] rs (omega arith) tt sr.1)
merge_collect (suc n) lo (l ∷ ls) [] h sl sr =
    left_first n lo l ls [] sl.0 refl (merge_collect n (suc l) ls [] (omega arith) sl.1 tt)
merge_collect (suc n) lo (l ∷ ls) (r ∷ rs) h sl sr = elim (compare_cases l r) [
  | inl lt ↦
      left_first n lo l ls (r ∷ rs) sl.0 (ground arith)
        (merge_collect n (suc l) ls (r ∷ rs) (omega arith) sl.1 (lt, sr.1))
  | inr (inl eq) ↦
      both_first n lo l r ls rs sl.0 eq (ground arith)
        (merge_collect n (suc l) ls rs (omega arith) sl.1 (ground arith))
  | inr (inr gt) ↦
      right_first n lo r (l ∷ ls) rs sr.0 (ground arith)
        (merge_collect n (suc r) (l ∷ ls) rs (omega arith) (gt, sl.1) sr.1)
]

-- On strictly ascending inputs `MergeIter` ends, and yields the strictly ascending list of exactly
-- the items of either input.
pub merge_all-IsUnion :
    (ls rs : List ℕ)
    → IsSorted ls
    → IsSorted rs
    → (xs : List ℕ) × (merge_all ls rs ≡ some xs) × IsUnion 0 ls rs xs
unfolding merge_all
merge_all-IsUnion ls rs sl sr =
    merge_collect (suc (length ls + length rs)) 0 ls rs (omega arith) sl sr
