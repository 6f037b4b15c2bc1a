-- ===== src/Ecs/Archetype/Query/Merge.antt =====
-- The merge loop computes the intersection of ascending lists.
use heat_gun.Base.{
  &&-false, Bool-cases, ℕ, suc, ◌≤◌, ◌<◌, ◌≡◌, refl, sym, ap, ◌∙◌, Bool, true, false, ◌&&◌, List,
  [], ◌∷◌, arith, length, contains, contains-below, retain, All, IsSorted, SortedFrom,
  SortedFrom-mono, ltb, compare_cases, compare-lt, compare-eq, compare-gt, inl, inr,
}
use heat_gun.Ecs.Archetype.{
  CatchUp, found, missed, ended, catch_up, Scan, all_have, lacks, exhausted, scan, build,
  insert_by_len, sort_by_len, with_iter,
}

-- In every list.
abbrev pub in_all : ℕ → List (List ℕ) → Bool
in_all a [] = true
in_all a (xs ∷ xss) = contains a xs && in_all a xss

-- From `key` on, the iterator still yields what the list holds.
abbrev SameFrom : ℕ → List ℕ → List ℕ → Type 0
SameFrom key xs ys = (a : ℕ) → key ≤ a → contains a ys ≡ contains a xs

abbrev CatchesUp : ℕ → List ℕ → CatchUp → Type 0
CatchesUp key xs (found ys) = (contains key xs ≡ true) × SortedFrom 0 ys × SameFrom key xs ys
CatchesUp key xs (missed ys) = (contains key xs ≡ false) × SortedFrom 0 ys × SameFrom key xs ys
CatchesUp key xs ended = (a : ℕ) → key ≤ a → contains a xs ≡ false

CatchesUp-skip :
    (key x : ℕ) (xs : List ℕ) (r : CatchUp)
    → x < key
    → CatchesUp key xs r
    → CatchesUp key (x ∷ xs) r
CatchesUp-skip key x xs (found ys) h (c, s, m) = (ground arith, s, λ a le. ground (arith, m a))
CatchesUp-skip key x xs (missed ys) h (c, s, m) = (ground arith, s, λ a le. ground (arith, m a))
CatchesUp-skip key x xs ended h m = λ a le. ground (arith, m a)

catch_up-CatchesUp :
    (key lo : ℕ) (xs : List ℕ) → SortedFrom lo xs → CatchesUp key xs (catch_up key xs)
unfolding catch_up
catch_up-CatchesUp key lo [] s = λ a le. refl
catch_up-CatchesUp key lo (x ∷ xs) s = elim (compare_cases x key) [
  | inl lt ↦
      rw (compare-lt x key lt, catch_up)
        (CatchesUp-skip key x xs (catch_up key xs) lt (catch_up-CatchesUp key (suc x) xs s.1))
  | inr (inl eq) ↦
      rw (compare-eq x key eq, catch_up)
        (ground arith, SortedFrom-mono 0 lo (x ∷ xs) (omega arith) s, λ a le. refl)
  | inr (inr gt) ↦
      rw (compare-gt x key gt, catch_up)
        (
          contains-below x key (x ∷ xs) (omega arith, s.1) gt,
          SortedFrom-mono 0 lo (x ∷ xs) (omega arith) s,
          λ a le. refl,
        )
]

abbrev SameAll : ℕ → List (List ℕ) → List (List ℕ) → Type 0
SameAll key xss yss = (a : ℕ) → key ≤ a → in_all a yss ≡ in_all a xss

abbrev Scans : ℕ → List (List ℕ) → Scan → Type 0
Scans key xss (all_have yss) = (in_all key xss ≡ true) × All IsSorted yss × SameAll key xss yss
Scans key xss (lacks yss) = (in_all key xss ≡ false) × All IsSorted yss × SameAll key xss yss
Scans key xss exhausted = (a : ℕ) → key ≤ a → in_all a xss ≡ false

Scans-found :
    (key : ℕ) (xs ys : List ℕ) (xss : List (List ℕ)) (r : Scan)
    → CatchesUp key xs (found ys)
    → Scans key xss r
    → Scans key (xs ∷ xss) (with_iter ys r)
Scans-found key xs ys xss (all_have yss) (c, s, m) (d, t, n) =
    (ground arith, (s, t), λ a le. rw (m a le, n a le))
Scans-found key xs ys xss (lacks yss) (c, s, m) (d, t, n) =
    (ground arith, (s, t), λ a le. rw (m a le, n a le))
Scans-found key xs ys xss exhausted (c, s, m) n = λ a le. rw (n a le) (&&-false (contains a xs))

scan_step :
    (key : ℕ) (xs : List ℕ) (xss : List (List ℕ)) (c : CatchUp) (r : Scan)
    → All IsSorted xss
    → CatchesUp key xs c
    → Scans key xss r
    → Scans key
        (xs ∷ xss)
        (elim c [ found it ↦ with_iter it r | missed it ↦ lacks (it ∷ xss) | ended ↦ exhausted ])
scan_step key xs xss (found ys) r s c t = Scans-found key xs ys xss r c t
scan_step key xs xss (missed ys) r s (c, u, m) t = (ground arith, (u, s), λ a le. rw (m a le))
scan_step key xs xss ended r s c t = λ a le. rw (c a le)

scan-Scans : (key : ℕ) (xss : List (List ℕ)) → All IsSorted xss → Scans key xss (scan key xss)
unfolding scan
scan-Scans key [] s = (refl, tt, λ a le. refl)
scan-Scans key (xs ∷ xss) s =
    scan_step key xs xss (catch_up key xs) (scan key xss) s.1 (catch_up-CatchesUp key 0 xs s.0)
      (scan-Scans key xss s.1)

retain-same :
    (p q : ℕ → Bool) (lo : ℕ) (ks : List ℕ)
    → SortedFrom lo ks
    → ((a : ℕ) → lo ≤ a → p a ≡ q a)
    → retain p ks ≡ retain q ks
unfolding retain
retain-same p q lo [] s h = refl
retain-same p q lo (k ∷ ks) s h =
    rw (h k s.0, retain-same p q (suc k) ks s.1 (λ a le. h a (omega arith)))

retain-none :
    (p : ℕ → Bool) (lo : ℕ) (ks : List ℕ)
    → SortedFrom lo ks
    → ((a : ℕ) → lo ≤ a → p a ≡ false)
    → retain p ks ≡ []
unfolding retain
retain-none p lo [] s h = refl
retain-none p lo (k ∷ ks) s h =
    rw (h k s.0, retain-none p (suc k) ks s.1 (λ a le. h a (omega arith)))

build_step :
    (lo k : ℕ) (ks : List ℕ) (xss : List (List ℕ)) (r : Scan)
    → SortedFrom lo (k ∷ ks)
    → Scans k xss r
    → ((yss : List (List ℕ)) → All IsSorted yss → build ks yss ≡ retain (λ a. in_all a yss) ks)
    → (elim r [ all_have yss ↦ k ∷ build ks yss | lacks yss ↦ build ks yss | exhausted ↦ [] ])
      ≡ retain (λ a. in_all a xss) (k ∷ ks)
unfolding retain
build_step lo k ks xss (all_have yss) s (c, t, m) ih =
    rw (c, ih yss t) (ap (λ l. k ∷ l) (retain-same _ _ (suc k) ks s.1 (λ a le. m a (omega arith))))
build_step lo k ks xss (lacks yss) s (c, t, m) ih =
    rw (c, ih yss t) (retain-same _ _ (suc k) ks s.1 (λ a le. m a (omega arith)))
build_step lo k ks xss exhausted s n ih =
    rw (n k (omega arith)) (sym (retain-none _ (suc k) ks s.1 (λ a le. n a (omega arith))))

-- The loop keeps exactly the keys that every other list holds.
pub build_lem :
    (lo : ℕ) (ks : List ℕ) (xss : List (List ℕ))
    → SortedFrom lo ks
    → All IsSorted xss
    → build ks xss ≡ retain (λ a. in_all a xss) ks
unfolding build
build_lem lo [] xss s t = unfold retain in refl
build_lem lo (k ∷ ks) xss s t =
    build_step lo k ks xss (scan k xss) s (scan-Scans k xss t)
      (λ yss u. build_lem (suc k) ks yss s.1 u)

in_all-insert_by_len :
    (a : ℕ) (x : List ℕ) (xss : List (List ℕ))
    → in_all a (insert_by_len x xss) ≡ (contains a x && in_all a xss)
unfolding insert_by_len
in_all-insert_by_len a x [] = refl
in_all-insert_by_len a x (y ∷ xss) = ground (arith, in_all-insert_by_len a x xss)

pub in_all-sort : (a : ℕ) (xss : List (List ℕ)) → in_all a (sort_by_len xss) ≡ in_all a xss
unfolding sort_by_len
in_all-sort a [] = refl
in_all-sort a (x ∷ xss) = in_all-insert_by_len a x (sort_by_len xss) ∙ rw (in_all-sort a xss)

All-insert_by_len :
    (x : List ℕ) (xss : List (List ℕ))
    → IsSorted x
    → All IsSorted xss
    → All IsSorted (insert_by_len x xss)
unfolding insert_by_len
All-insert_by_len x [] s t = (s, tt)
All-insert_by_len x (y ∷ xss) s t = elim (Bool-cases (ltb (length y) (length x))) [
  | inl e ↦ rw e (t.0, All-insert_by_len x xss s t.1)
  | inr e ↦ rw e (s, t)
]

pub All-sort_by_len : (xss : List (List ℕ)) → All IsSorted xss → All IsSorted (sort_by_len xss)
unfolding sort_by_len
All-sort_by_len [] s = tt
All-sort_by_len (x ∷ xss) s = All-insert_by_len x (sort_by_len xss) s.0 (All-sort_by_len xss s.1)
