-- ===== src/Iter/Merge/Tests.antt =====
-- Runs of the adaptors, and the theorems at concrete lists.
use heat_gun.Base.{ℕ, ◌≡◌, refl, List, [], ◌∷◌, some, arith}
use heat_gun.Iter.Merge.{merge_all, remove_all}
use heat_gun.Iter.Merge.Union.{merge_all-IsUnion, IsUnion}
use heat_gun.Iter.Merge.Difference.{remove_all_single}

merge_run : merge_all (1 ∷ 4 ∷ 7 ∷ []) (2 ∷ 4 ∷ 9 ∷ []) ≡ some (1 ∷ 2 ∷ 4 ∷ 7 ∷ 9 ∷ [])
unfolding merge_all
merge_run = refl

remove_run : remove_all (1 ∷ 4 ∷ 7 ∷ []) (4 ∷ []) ≡ some (1 ∷ 4 ∷ 7 ∷ [])
unfolding remove_all
remove_run = refl

merge_all-IsUnion_example :
    (xs : List ℕ) × (merge_all (1 ∷ 4 ∷ []) (4 ∷ 9 ∷ []) ≡ some xs)
    × IsUnion 0 (1 ∷ 4 ∷ []) (4 ∷ 9 ∷ []) xs
merge_all-IsUnion_example = merge_all-IsUnion (1 ∷ 4 ∷ []) (4 ∷ 9 ∷ []) (omega arith) (omega arith)

remove_all_single_example : remove_all (1 ∷ 4 ∷ 7 ∷ []) (4 ∷ []) ≡ some (1 ∷ 4 ∷ 7 ∷ [])
remove_all_single_example = remove_all_single 4 1 (4 ∷ 7 ∷ []) (omega arith)
