-- ===== src/Draw/Runs/Tests.antt =====
-- Three pushes in two epochs.
use heat_gun.Base.{ℕ, ◌+◌, ◌≡◌, refl, List, [], ◌∷◌, ◌++◌, none, some, arith, length, ◌>>=◌}
use heat_gun.Draw.Runs.{InstanceRuns, new, reset, add_len, push, range}
use heat_gun.Draw.Runs.Ranges.{Run, Represents, total, push-Represents}

abbrev two_runs : InstanceRuns
two_runs = record { starts = 0 ∷ 5 ∷ []; last_epoch = some 4; len = 7 }

two_runs-Represents : Represents two_runs ((4, 2) ∷ (1, 5) ∷ [])
two_runs-Represents = record { starts = refl; last_epoch = refl; len = refl }

pushes : (push 1 5 new >>= λ r. push 4 2 r.1) ≡ some (some 1, two_runs)
unfolding push new add_len
pushes = refl

reset-new : reset two_runs ≡ new
unfolding reset new
reset-new = refl

push-Represents_example :
    (r' : InstanceRuns) × (push 4 3 two_runs ≡ some (none, r'))
    × Represents r' ((4, 5) ∷ (1, 5) ∷ [])
    × ((newer older : List Run) (e c : ℕ)
        → ((4, 5) ∷ (1, 5) ∷ []) ≡ newer ++ (e, c) ∷ older
        → range (length older) r' ≡ some (total older, total older + c))
push-Represents_example =
    push-Represents two_runs ((4, 2) ∷ (1, 5) ∷ []) 4 3 two_runs-Represents (omega arith)
      (omega arith) (omega arith)
