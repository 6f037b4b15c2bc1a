-- ===== src/Ecs/Archetype/Table.antt =====
-- The hash table and the index by component as the store grows by one archetype.
use mathlib.Core.List.{append-nil}
use heat_gun.Base.{
  ℕ, suc, ◌+◌, ◌≡◌, refl, sym, ap, ◌∙◌, false, ◌&&◌, List, [], ◌∷◌, ◌++◌, Option, none, some, arith,
  length, ◌==◌, ==_iff, Bool-cases, inl, inr, ◌||◌, if◌then◌else◌, Map, insert, nat_key, list_eq,
  All, SortedFrom, contains, contains-below,
}
use heat_gun.Ecs.Archetype.{ArchetypeKey, slice, find_entry, push_arches, arches_or_default}
use heat_gun.Ecs.Archetype.View.{Inside, index_of, ids_with, slice-append}

abbrev pub or_else : Option ℕ → Option ℕ → Option ℕ
or_else none o = o
or_else (some a) o = some a

pub find_entry-buffer :
    (h : ℕ) (c buf ys : List ℕ) (m : List (ArchetypeKey × ℕ))
    → All (λ e. Inside (length buf) e.0.comps) m
    → find_entry h c (buf ++ ys) m ≡ find_entry h c buf m
unfolding find_entry
find_entry-buffer h c buf ys [] a = refl
find_entry-buffer h c buf ys ((k, id) ∷ m) a =
    rw (slice-append buf ys k.comps a.0, find_entry-buffer h c buf ys m a.1)

pub find_entry-append :
    (h : ℕ) (c buf : List ℕ) (m : List (ArchetypeKey × ℕ)) (k : ArchetypeKey) (id : ℕ)
    → find_entry h c buf (m ++ (k, id) ∷ [])
      ≡ or_else
          (find_entry h c buf m)
          (if h == k.hash && list_eq (slice buf k.comps) c then some id else none)
unfolding find_entry
find_entry-append h c buf [] k id = ground arith
find_entry-append h c buf ((j, i) ∷ m) k id = ground (arith, find_entry-append h c buf m k id)

pub index_of-append :
    (n : ℕ) (c r : List ℕ) (rs : List (List ℕ))
    → index_of n c (rs ++ r ∷ [])
      ≡ or_else (index_of n c rs) (if list_eq r c then some (n + length rs) else none)
index_of-append n c r [] = ground arith
index_of-append n c r (x ∷ rs) = ground (arith, index_of-append (suc n) c r rs)

pub ids_with-append :
    (n c : ℕ) (r : List ℕ) (rs : List (List ℕ))
    → ids_with n c (rs ++ r ∷ [])
      ≡ ids_with n c rs ++ (if contains c r then (n + length rs) ∷ [] else [])
ids_with-append n c r [] = ground arith
ids_with-append n c r (x ∷ rs) = ground (arith, ids_with-append (suc n) c r rs)

push_one :
    (c x new : ℕ) (cs : List ℕ) (m : Map ℕ (List ℕ))
    → contains x cs ≡ false
    → arches_or_default (insert x (arches_or_default (m x) ++ new ∷ []) m c)
        ++ (if contains c cs then new ∷ [] else [])
      ≡ arches_or_default (m c) ++ (if x == c || contains c cs then new ∷ [] else [])
push_one c x new cs m h = elim (Bool-cases (x == c)) [
  | inl e ↦
      rw (e, ap (λ y. contains y cs) (sym ((==_iff x c).0 e)) ∙ h, ← (==_iff x c).0 e)
        (append-nil (arches_or_default (m x) ++ new ∷ []))
  | inr e ↦ rw e
]

-- A new id goes to the end of the list of each of its components, once.
pub push_arches_lem :
    (lo c new : ℕ) (cs : List ℕ) (m : Map ℕ (List ℕ))
    → SortedFrom lo cs
    → arches_or_default (push_arches cs new m c)
      ≡ arches_or_default (m c) ++ (if contains c cs then new ∷ [] else [])
unfolding push_arches
push_arches_lem lo c new [] m s = sym (append-nil (arches_or_default (m c)))
push_arches_lem lo c new (x ∷ cs) m s =
    push_arches_lem (suc x) c new cs (insert x (arches_or_default (m x) ++ new ∷ []) m) s.1
    ∙ push_one c x new cs m (contains-below (suc x) x cs s.1 (omega arith))
