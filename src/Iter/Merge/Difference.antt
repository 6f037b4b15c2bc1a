-- ===== src/Iter/Merge/Difference.antt =====
-- What `RemoveIter` yields when a single item is to be removed, as the archetypes use it.
use heat_gun.Base.{
  ℕ, zero, suc, ◌<◌, ◌≡◌, refl, List, [], ◌∷◌, some, arith, length, SortedFrom, IsSorted,
  SortedFrom-mono, ==-refl, lt→ne, gt→ne, ◌==◌, if◌then◌else◌, inl, inr, compare_cases,
}
use heat_gun.Iter.Merge.{remove_all, remove_next, removing, collect, collect-suc}

remove_nothing :
    (n : ℕ) (ls : List ℕ) → length ls < n → collect remove_next n (removing ls []) ≡ some ls
unfolding remove_next
remove_nothing zero ls h = absurd (omega arith)
remove_nothing (suc n) [] h = unfold collect in refl
remove_nothing (suc n) (l ∷ ls) h =
    collect-suc remove_next n (removing (l ∷ ls) []) (removing ls []) l ls refl
      (remove_nothing n ls (omega arith))

-- Once the left items are past the right one, they are all kept.
remove_passed :
    (n a : ℕ) (ls : List ℕ)
    → length ls < n
    → SortedFrom (suc a) ls
    → collect remove_next n (removing ls (a ∷ [])) ≡ some ls
unfolding remove_next
remove_passed zero a ls h s = absurd (omega arith)
remove_passed (suc n) a [] h s = unfold collect in refl
remove_passed (suc n) a (l ∷ ls) h s =
    collect-suc remove_next n (removing (l ∷ ls) (a ∷ [])) (removing ls (a ∷ [])) l ls
      (ground arith)
      (remove_passed n a ls (omega arith) (SortedFrom-mono (suc a) (suc l) ls (omega arith) s.1))

-- The head is removed, and the rest lies above it.
remove_head :
    (n a : ℕ) (ls : List ℕ)
    → length ls < n
    → SortedFrom (suc a) ls
    → collect remove_next n (removing (a ∷ ls) (a ∷ [])) ≡ some ls
unfolding remove_next
remove_head zero a ls h s = absurd (omega arith)
remove_head (suc n) a [] h s = unfold collect in ground arith
remove_head (suc n) a (l ∷ ls) h s =
    collect-suc remove_next n (removing (a ∷ l ∷ ls) (a ∷ [])) (removing ls (a ∷ [])) l ls
      (ground arith)
      (remove_passed n a ls (omega arith) (SortedFrom-mono (suc a) (suc l) ls (omega arith) s.1))

-- What `RemoveIter` does with a single item to remove from a non-empty ascending list: it takes the
-- head off when that is the item, and otherwise yields the whole list, also where the item stands
-- further down.
pub remove_all_single :
    (a l : ℕ) (ls : List ℕ)
    → IsSorted (l ∷ ls)
    → remove_all (l ∷ ls) (a ∷ []) ≡ some (if l == a then ls else l ∷ ls)
unfolding remove_all remove_next
remove_all_single a l ls s = elim (compare_cases l a) [
  | inl lt ↦ rw (lt→ne l a lt) (
      collect-suc remove_next (suc (length ls)) (removing (l ∷ ls) (a ∷ [])) (removing ls []) l ls
        (ground arith) (remove_nothing (suc (length ls)) ls (omega arith)))
  | inr (inl eq) ↦
      rw (eq, ==-refl a) (remove_head (suc (suc (length ls))) a ls (omega arith) (ground arith))
  | inr (inr gt) ↦
      rw (gt→ne l a gt) (remove_passed (suc (suc (length ls))) a (l ∷ ls) (omega arith) (gt, s.1))
]
