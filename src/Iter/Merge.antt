-- ===== src/Iter/Merge.antt =====
-- src/engine/hg-utils/src/iter/merge.rs: `MergeIter` and `RemoveIter`. A `Peekable` is the list of
-- the items it has still to yield, and the items are numbers under their order.
pub mod Union
pub mod Difference
mod Tests
use heat_gun.Base.{
  ℕ, zero, suc, ◌+◌, ◌≡◌, refl, compare, Ordering, List, [], ◌∷◌, Option, none, some, length,
}

-- The two peekable halves, of either adaptor.
pub record MergeIter : Type 0 where
  pub left : List ℕ
  pub right : List ℕ

pub record RemoveIter : Type 0 where
  pub left : List ℕ
  pub right : List ℕ

abbrev merged : List ℕ → List ℕ → MergeIter
merged ls rs = record { left = ls; right = rs }

abbrev removing : List ℕ → List ℕ → RemoveIter
removing ls rs = record { left = ls; right = rs }

-- The match on both peeked items.
merge_peeked : List ℕ → List ℕ → Option (ℕ × MergeIter)
merge_peeked [] [] = none
merge_peeked [] (r ∷ rs) = some (r, merged [] rs)
merge_peeked (l ∷ ls) [] = some (l, merged ls [])
merge_peeked (l ∷ ls) (r ∷ rs) = elim (compare l r) [
  | Ordering.lt ↦ some (l, merged ls (r ∷ rs))
  | Ordering.eq ↦ some (l, merged ls rs)
  | Ordering.gt ↦ some (r, merged (l ∷ ls) rs)
]

-- `<MergeIter as Iterator>::next`.
unfoldable pub merge_next : MergeIter → Option (ℕ × MergeIter)
unfolding merge_peeked
merge_next it = merge_peeked it.left it.right

-- The loop of `next`: only an equal pair goes round again. A smaller left item throws away the
-- peeked right one.
remove_peeked : List ℕ → List ℕ → Option (ℕ × RemoveIter)
remove_peeked [] rs = none
remove_peeked (l ∷ ls) [] = some (l, removing ls [])
remove_peeked (l ∷ ls) (r ∷ rs) = elim (compare l r) [
  | Ordering.lt ↦ some (l, removing ls rs)
  | Ordering.eq ↦ remove_peeked ls (r ∷ rs)
  | Ordering.gt ↦ some (l, removing ls (r ∷ rs))
]

-- `<RemoveIter as Iterator>::next`.
unfoldable pub remove_next : RemoveIter → Option (ℕ × RemoveIter)
unfolding remove_peeked
remove_next it = remove_peeked it.left it.right

-- `collect`: calls `next` until it answers `None`. The fuel bounds the number of calls, and
-- running out of it is `none`.
unfoldable pub collect {ℓ κ} :
    {S : Type ℓ} {A : Type κ} → (S → Option (A × S)) → ℕ → S → Option (List A)
collect next zero s = none
collect next (suc n) s = elim (next s) [
  | none ↦ some []
  | some (a, s') ↦ elim (collect next n s') [ none ↦ none | some xs ↦ some (a ∷ xs) ]
]

-- `MergeIter::new(base, with)` and `RemoveIter::new(base, with)`, collected. One call more than
-- there are items is enough.
unfoldable pub merge_all : List ℕ → List ℕ → Option (List ℕ)
unfolding collect merge_next
merge_all ls rs = collect merge_next (suc (length ls + length rs)) (merged ls rs)

unfoldable pub remove_all : List ℕ → List ℕ → Option (List ℕ)
unfolding collect remove_next
remove_all ls rs = collect remove_next (suc (length ls)) (removing ls rs)

pub collect-suc {ℓ κ} :
    {S : Type ℓ} {A : Type κ} (next : S → Option (A × S)) (n : ℕ) (s s' : S) (a : A) (xs : List A)
    → next s ≡ some (a, s')
    → collect next n s' ≡ some xs
    → collect next (suc n) s ≡ some (a ∷ xs)
unfolding collect
collect-suc next n s s' a xs e f = rw (e, collect, f)
