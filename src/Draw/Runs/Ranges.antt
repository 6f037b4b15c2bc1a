-- ===== src/Draw/Runs/Ranges.antt =====
-- The runs as a list of epochs and their counts, the newest first.
use heat_gun.Base.{
  ℕ, suc, ◌+◌, ◌^◌, ◌<◌, ◌≤◌, ◌≡◌, refl, sym, ap, subst, ◌∙◌, true, false, List, [], ◌∷◌, ◌++◌,
  Option, none, some, arith, ltb, lt→ltb, ◌==◌, length, length-append, get_elem?,
  get_elem?-append_left, get_elem?-length_append, get_elem?-ge, if◌then◌else◌, Bool-cases, inl, inr,
}
use heat_gun.Draw.Runs.{InstanceRuns, is_epoch, epoch_or_zero, add_len, push, unwrap_or, range}

abbrev pub Run : Type 0
Run = ℕ × ℕ

abbrev pub total : List Run → ℕ
total [] = 0
total ((e, c) ∷ runs) = total runs + c

abbrev pub starts_of : List Run → List ℕ
starts_of [] = []
starts_of ((e, c) ∷ runs) = starts_of runs ++ total runs ∷ []

abbrev pub last_of : List Run → Option ℕ
last_of [] = none
last_of ((e, c) ∷ runs) = some e

pub record Represents (r : InstanceRuns) (runs : List Run) : Type 0 where
  pub starts : r.starts ≡ starts_of runs
  pub last_epoch : r.last_epoch ≡ last_of runs
  pub len : r.len ≡ total runs

-- A push into the newest run, or as a new one.
abbrev pub spec_push : ℕ → ℕ → List Run → List Run
spec_push epoch count [] = (epoch, count) ∷ []
spec_push epoch count ((e, c) ∷ runs) =
    if e == epoch then (e, c + count) ∷ runs else (epoch, count) ∷ (e, c) ∷ runs

length-starts_of : (runs : List Run) → length (starts_of runs) ≡ length runs
length-starts_of [] = refl
length-starts_of ((e, c) ∷ runs) =
    length-append (starts_of runs) (total runs ∷ []) ∙ omega (arith, length-starts_of runs)

-- Where a run begins, and where the next one does.
start_lem :
    (newer older : List Run) (e c : ℕ)
    → get_elem? (starts_of (newer ++ (e, c) ∷ older)) (length older) ≡ some (total older)
start_lem [] older e c =
    ap (get_elem? (starts_of older ++ total older ∷ [])) (sym (length-starts_of older))
    ∙ get_elem?-length_append (starts_of older) (total older ∷ [])
start_lem (x ∷ newer) older e c =
    get_elem?-append_left (starts_of (newer ++ (e, c) ∷ older))
      (total (newer ++ (e, c) ∷ older) ∷ []) (length older)
      (inside (length-starts_of (newer ++ (e, c) ∷ older)) (length-append newer ((e, c) ∷ older)))
    ∙ start_lem newer older e c
  where
    inside : {a b : ℕ} → a ≡ b → b ≡ length newer + suc (length older) → length older < a
    inside p q = omega arith

next_start :
    (x : Run) (newer older : List Run) (e c : ℕ)
    → get_elem? (starts_of (x ∷ newer ++ (e, c) ∷ older)) (length older + 1)
      ≡ some (total older + c)
next_start x [] older e c =
    ap (get_elem? (starts_of ((e, c) ∷ older) ++ total ((e, c) ∷ older) ∷ []))
      (one_more (length-starts_of ((e, c) ∷ older)))
    ∙ get_elem?-length_append (starts_of ((e, c) ∷ older)) (total ((e, c) ∷ older) ∷ [])
  where
    one_more : {a : ℕ} → a ≡ suc (length older) → length older + 1 ≡ a
    one_more p = omega arith
next_start x (y ∷ newer) older e c =
    get_elem?-append_left (starts_of (y ∷ newer ++ (e, c) ∷ older))
      (total (y ∷ newer ++ (e, c) ∷ older) ∷ []) (length older + 1)
      (inside (length-starts_of (y ∷ newer ++ (e, c) ∷ older))
        (length-append newer ((e, c) ∷ older)))
    ∙ next_start y newer older e c
  where
    inside : {a b : ℕ} → a ≡ suc b → b ≡ length newer + suc (length older) → length older + 1 < a
    inside p q = omega arith

end_lem :
    (newer older : List Run) (e c : ℕ)
    → unwrap_or
        (get_elem? (starts_of (newer ++ (e, c) ∷ older)) (length older + 1))
        (total (newer ++ (e, c) ∷ older))
      ≡ total older + c
end_lem [] older e c =
    ap (λ o. unwrap_or o (total older + c))
      (get_elem?-ge (starts_of ((e, c) ∷ older)) (length older + 1)
        (short (length-starts_of ((e, c) ∷ older))))
  where
    short : {a : ℕ} → a ≡ suc (length older) → a ≤ length older + 1
    short p = omega arith
end_lem (x ∷ newer) older e c =
    ap (λ o. unwrap_or o (total (x ∷ newer ++ (e, c) ∷ older))) (next_start x newer older e c)

-- A run of a represented state ranges from the instances before it to those with it.
range-Represents :
    (r : InstanceRuns) (newer older : List Run) (e c : ℕ)
    → Represents r (newer ++ (e, c) ∷ older)
    → range (length older) r ≡ some (total older, total older + c)
unfolding range
range-Represents r newer older e c rep =
    rw (rep.starts, rep.len, start_lem newer older e c, end_lem newer older e c) refl

push_lem :
    (r : InstanceRuns) (runs : List Run) (epoch count : ℕ)
    → Represents r runs
    → epoch_or_zero (last_of runs) ≤ epoch
    → 0 < epoch
    → total runs + count < 2 ^ 32
    → (r' : InstanceRuns) × (push epoch count r
        ≡ some (if is_epoch epoch (last_of runs) then none else some (length runs), r'))
      × Represents r' (spec_push epoch count runs)
unfolding push add_len
push_lem r [] epoch count rep rises positive fits = (
  record { starts = r.starts ++ r.len ∷ []; last_epoch = some epoch; len = 0 + count },
  rw
      (
        rep.starts,
        rep.last_epoch,
        rep.len,
        lt→ltb (0 + count) (2 ^ 32) fits,
        lt→ltb 0 epoch positive,
      )
      refl,
  record { starts = rw (rep.starts, rep.len) refl; last_epoch = refl; len = refl },
)
push_lem r ((e, c) ∷ runs) epoch count rep rises positive fits = elim (Bool-cases (e == epoch)) [
  | inl h ↦ (
    record r { len = total runs + c + count },
    rw (rep.last_epoch, rep.len, lt→ltb (total runs + c + count) (2 ^ 32) fits, h) refl,
    rw h (record { starts = rep.starts; last_epoch = rep.last_epoch; len = omega arith }),
  )
  | inr h ↦ (
    record {
      starts = r.starts ++ r.len ∷ [];
      last_epoch = some epoch;
      len = total runs + c + count;
    },
    rw
        (
          rep.last_epoch,
          rep.len,
          lt→ltb (total runs + c + count) (2 ^ 32) fits,
          h,
          rising h,
          ap length rep.starts,
          length-starts_of ((e, c) ∷ runs),
        )
        refl,
    rw h (record { starts = rw (rep.starts, rep.len) refl; last_epoch = refl; len = refl }),
  )
]
  where
    rising : (e == epoch) ≡ false → ltb e epoch ≡ true
    rising h = ground arith

-- While the epochs do not fall and the instances fit a `u32`, `push` enters the instances into the
-- run of their epoch, and returns the index of a run exactly when it is new; each run then ranges
-- from the number of the instances in the runs before it to that number with its own.
pub push-Represents :
    (r : InstanceRuns) (runs : List Run) (epoch count : ℕ)
    → Represents r runs
    → epoch_or_zero (last_of runs) ≤ epoch
    → 0 < epoch
    → total runs + count < 2 ^ 32
    → (r' : InstanceRuns) × (push epoch count r
        ≡ some (if is_epoch epoch (last_of runs) then none else some (length runs), r'))
      × Represents r' (spec_push epoch count runs)
      × ((newer older : List Run) (e c : ℕ)
          → spec_push epoch count runs ≡ newer ++ (e, c) ∷ older
          → range (length older) r' ≡ some (total older, total older + c))
push-Represents r runs epoch count rep rises positive fits =
    let (r', e, rep') = push_lem r runs epoch count rep rises positive fits in
    (
      r',
      e,
      rep',
      λ newer older ep c parts.
          range-Represents r' newer older ep c (subst (Represents r') parts rep'),
    )
